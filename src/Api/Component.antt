-- ===== src/Api/Component.antt =====
-- Desired and observed components of a static node, and its warm images
-- (api/v1/static_node_cluster_types.go).
use neutree.Prelude.{
  String, String-discrete, Bool, false, ◌&&◌, List, [], ◌∷◌, Option, none, some, is_empty, text_le,
  if◌then◌else◌,
}
use neutree.Prelude.Int.{ℤ, ℤ_discrete}

pub record NodeComponentPort : Type 0 where
  pub name : String
  pub port : ℤ
  pub protocol : String

pub record NodeComponentVolume : Type 0 where
  pub name : String
  pub host_path : String
  pub mount_path : String
  pub read_only : Bool

pub record NodeComponentConfigFile : Type 0 where
  pub path : String
  pub content : String
  pub mode : String
  pub owner : String
  pub group : String
  pub sudo : Bool
  pub atomic : Bool
  pub create_parent : Bool
  pub skip_restart_on_change : Bool

pub record NodeComponentHealthCheck : Type 0 where
  pub command : List String
  pub http_host : String
  pub http_path : String
  pub port : ℤ
  pub initial_delay_sec : ℤ
  pub interval_sec : ℤ
  pub timeout_sec : ℤ

-- Which of the slices and maps of a component are allocated though they are empty. Of one that is
-- not empty it says nothing.
pub record Allocated : Type 0 where
  pub command : Bool
  pub args : Bool
  pub env : Bool
  pub ports : Bool
  pub volumes : Bool
  pub docker_run_options : Bool
  pub config_files : Bool
  pub check_command : Bool

-- All that is empty is nil.
abbrev pub all_nil : Allocated
all_nil = record {
  command = false;
  args = false;
  env = false;
  ports = false;
  volumes = false;
  docker_run_options = false;
  config_files = false;
  check_command = false;
}

pub record NodeComponentSpec : Type 0 where
  pub name : String
  pub image : String
  pub command : List String
  pub args : List String
  pub env : List (String × String)
  pub ports : List NodeComponentPort
  pub volumes : List NodeComponentVolume
  pub docker_run_options : List String
  pub config_files : List NodeComponentConfigFile
  pub health_check : Option NodeComponentHealthCheck
  pub config_hash : String
  pub allocated : Allocated

pub data NodeComponentPhase : Type 0 where
  unset pending starting running failed stopped : NodeComponentPhase

pub record NodeComponentStatus : Type 0 where
  pub name : String
  pub ready : Bool
  pub phase : NodeComponentPhase
  pub observed_hash : String
  pub observed_image : String
  pub reason : String
  pub message : String
  pub last_transition_time : String

pub record WarmImageSpec : Type 0 where
  pub name : String
  pub ref : String
  pub required : Bool

pub record WarmSpec : Type 0 where
  pub images : List WarmImageSpec
  -- The slice is allocated though it is empty.
  pub images_allocated : Bool

pub data WarmPhase : Type 0 where
  unset pending pulling ready failed : WarmPhase

pub record WarmImageStatus : Type 0 where
  pub name : String
  pub ref : String
  pub ready : Bool
  pub digest : String
  pub phase : WarmPhase
  pub reason : String
  pub message : String
  pub last_transition_time : String

pub record WarmStatus : Type 0 where
  pub ready : Bool
  pub images : List WarmImageStatus
  pub reason : String
  pub message : String
  pub last_transition_time : String

pub NodeComponentSpec-discrete : Discrete NodeComponentSpec
NodeComponentSpec-discrete = hlevel (String-discrete, ℤ_discrete)

pub WarmSpec-discrete : Discrete WarmSpec
WarmSpec-discrete = hlevel String-discrete

insert_entry : String × String → List (String × String) → List (String × String)
insert_entry entry [] = entry ∷ []
insert_entry entry (other ∷ entries) =
    if text_le entry.0 other.0 then entry ∷ other ∷ entries else other ∷ insert_entry entry entries

-- The entries of a map in the order of their keys.
unfoldable pub sort_entries : List (String × String) → List (String × String)
unfolding insert_entry
sort_entries [] = []
sort_entries (entry ∷ entries) = insert_entry entry (sort_entries entries)

abbrev check_command_of : Option NodeComponentHealthCheck → List String
check_command_of none = []
check_command_of (some check) = check.command

-- What `reflect.DeepEqual` sees of a component: the entries of its map without their order, and of
-- a slice or a map that is empty whether it is nil.
unfoldable pub component_content : NodeComponentSpec → NodeComponentSpec
unfolding sort_entries
component_content c = record c {
  env = sort_entries c.env;
  allocated = record {
    command = is_empty c.command && c.allocated.command;
    args = is_empty c.args && c.allocated.args;
    env = is_empty c.env && c.allocated.env;
    ports = is_empty c.ports && c.allocated.ports;
    volumes = is_empty c.volumes && c.allocated.volumes;
    docker_run_options = is_empty c.docker_run_options && c.allocated.docker_run_options;
    config_files = is_empty c.config_files && c.allocated.config_files;
    check_command = is_empty (check_command_of c.health_check) && c.allocated.check_command;
  };
}

unfoldable pub warm_content : Option WarmSpec → Option WarmSpec
warm_content none = none
warm_content (some warm) =
    some (record warm { images_allocated = is_empty warm.images && warm.images_allocated })
