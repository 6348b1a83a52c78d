-- ===== src/StaticCluster/Messages.antt =====
-- The joining of status messages (status.go).
use Prim.Native.Char.{code}
use Prim.Native.Nat.{ℕ}
use Prim.Native.String.{String, ◌++◌ as concat}
use neutree.Strings.{trim_space, join}
use neutree.Prelude.{Bool, ◌||◌, List, [], ◌∷◌, ◌++◌, contains, is_blank, nat_eq, if◌then◌else◌}

-- The separators of `splitStatusMessages`: a line feed and a semicolon.
unfoldable pub is_separator : ℕ → Bool
is_separator c = nat_eq c b'\n' || nat_eq c b';'

-- `strings.FieldsFunc`, with the field read so far.
unfoldable pub fields_from : String → String → List String
unfolding is_separator
fields_from field String.[] = if is_blank field then [] else field ∷ []
fields_from field (String.◌∷◌ c s) =
    let rest = fields_from String.[] s in
    let longer = fields_from (concat field (String.◌∷◌ c String.[])) s in
    if is_separator (code c) then (if is_blank field then rest else field ∷ rest) else longer

unfoldable pub trim_fields : List String → List String
unfolding trim_space
trim_fields [] = []
trim_fields (part ∷ parts) =
    let trimmed = trim_space part in
    if is_blank trimmed then trim_fields parts else trimmed ∷ trim_fields parts

unfoldable pub split_status_messages : String → List String
unfolding fields_from trim_fields
split_status_messages message = trim_fields (fields_from String.[] message)

-- `appendMessage`: a blank message and one that is there already are dropped.
abbrev pub append_message : List String → String → List String
append_message result message =
    if is_blank message
    then result
    else if contains result message
    then result
    else result ++ message ∷ []

unfoldable pub append_messages : List String → List String → List String
append_messages result [] = result
append_messages result (message ∷ messages) =
    append_messages (append_message result message) messages

unfoldable pub status_messages : String → List String → List String
unfolding append_messages split_status_messages
status_messages current messages =
    append_messages
      (if is_blank current then [] else append_messages [] (split_status_messages current)) messages

unfoldable pub join_status_messages : String → List String → String
unfolding join status_messages
join_status_messages current messages = join "\n" (status_messages current messages)
