-- ===== src/Image.antt =====
-- internal/util/image.go: image references under a registry prefix.
pub mod Rewrite
use Prim.Native.Char.{Char, code}
use Prim.Native.String.{String, ◌++◌ as concat}
use neutree.Prelude.{
  ℕ, ◌+◌, leb, Bool, true, false, not, ◌&&◌, ◌||◌, Option, none, some, List, ◌==◌, is_blank, nat_eq,
  if◌then◌else◌,
}
use neutree.Strings.{
  trim_space, trim_right_char, trim_left_char, has_prefix, contains_char, before, after?,
}

abbrev pub neutree_serve_image_name : String
neutree_serve_image_name = "neutree/neutree-serve"

-- `strings.ToLower(s) == t` for a text `t` in lower case. Outside ASCII, the Kelvin sign and the
-- dotted capital I are the characters whose lower case is an ASCII letter.
lower_code : ℕ → ℕ
lower_code c =
    if leb b'A' c && leb c b'Z'
    then c + 32
    else if nat_eq c 0x212a
    then b'k'
    else if nat_eq c 0x130
    then b'i'
    else c

unfoldable pub equals_lower : String → String → Bool
unfolding lower_code
equals_lower String.[] String.[] = true
equals_lower String.[] (String.◌∷◌ d t) = false
equals_lower (String.◌∷◌ c s) String.[] = false
equals_lower (String.◌∷◌ c s) (String.◌∷◌ d t) =
    nat_eq (lower_code (code c)) (code d) && equals_lower s t

unfoldable pub is_docker_hub_image_prefix : String → Bool
unfolding trim_space trim_left_char trim_right_char before equals_lower
is_docker_hub_image_prefix image_prefix =
    let host = before (trim_right_char (trim_left_char (trim_space image_prefix) b'/') b'/') b'/' in
    equals_lower host "docker.io"
    || equals_lower host "index.docker.io"
    || equals_lower host "registry-1.docker.io"

unfoldable pub is_source_image_registry : String → Bool
unfolding contains_char
is_source_image_registry segment =
    segment == "localhost" || contains_char segment b'.' || contains_char segment b':'

unfoldable pub strip_source_image_registry : String → String
unfolding before after? is_source_image_registry
strip_source_image_registry image = elim (after? image b'/') [
  | none ↦ image
  | some rest ↦ if is_source_image_registry (before image b'/') then rest else image
]

-- The prefix that `RewriteImageRef` goes by.
unfoldable pub clean_image_prefix : String → String
unfolding trim_space trim_right_char
clean_image_prefix image_prefix = trim_right_char (trim_space image_prefix) b'/'

unfoldable pub rewrite_image_ref : String → String → String
rewrite_image_ref image_prefix image =
    let prefix = clean_image_prefix image_prefix in
    if is_blank image
    then ""
    else if is_blank prefix
        || is_docker_hub_image_prefix prefix
        || has_prefix image (concat prefix "/")
    then image
    else concat prefix (concat "/" (strip_source_image_registry image))

unfoldable pub build_cluster_image_ref : String → String → String → String
build_cluster_image_ref image_prefix version image_suffix =
    let tag = if is_blank image_suffix then version else concat version (concat "-" image_suffix) in
    rewrite_image_ref image_prefix (concat neutree_serve_image_name (concat ":" tag))
