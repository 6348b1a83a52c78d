-- ===== src/Strings.antt =====
-- The functions of Go's `strings` and `encoding/json` packages that the modelled code calls, on texts as
-- lists of characters.
use Prim.Native.Char.{Char, code}
use Prim.Native.Nat.{ℕ, compare, Ordering, ◌/◌, ◌%◌}
use Prim.Native.String.{String, ◌++◌ as concat, char_at}
use neutree.Prelude.{
  Bool, true, false, ◌&&◌, ◌||◌, List, [], ◌∷◌, Option, none, some, is_blank, nat_eq, leb, zero,
  suc, if◌then◌else◌, not, ◌-◌,
}

abbrev is_between : ℕ → ℕ → ℕ → Bool
is_between lo hi c = elim (compare c lo) [
  | Ordering.lt ↦ false
  | _ ↦ elim (compare c hi) [ Ordering.gt ↦ false | _ ↦ true ]
]

-- `unicode.IsSpace`, which `strings.TrimSpace` goes by.
unfoldable pub is_space : ℕ → Bool
is_space c =
    is_between 9 13 c
    || nat_eq c 32
    || nat_eq c 0x85
    || nat_eq c 0xa0
    || nat_eq c 0x1680
    || is_between 0x2000 0x200a c
    || nat_eq c 0x2028
    || nat_eq c 0x2029
    || nat_eq c 0x202f
    || nat_eq c 0x205f
    || nat_eq c 0x3000

unfoldable pub trim_left : String → String
unfolding is_space
trim_left String.[] = String.[]
trim_left (String.◌∷◌ c s) = if is_space (code c) then trim_left s else String.◌∷◌ c s

unfoldable pub trim_right : String → String
unfolding is_space
trim_right String.[] = String.[]
trim_right (String.◌∷◌ c s) =
    let rest = trim_right s in
    if is_blank rest && is_space (code c) then String.[] else String.◌∷◌ c rest

unfoldable pub trim_space : String → String
unfolding trim_left trim_right
trim_space s = trim_right (trim_left s)

-- `strings.Join`
unfoldable pub join : String → List String → String
join separator [] = String.[]
join separator (part ∷ []) = part
join separator (part ∷ next ∷ parts) =
    concat part (concat separator (join separator (next ∷ parts)))

-- `strings.HasPrefix(s, prefix)`
unfoldable pub has_prefix : String → String → Bool
has_prefix s String.[] = true
has_prefix String.[] (String.◌∷◌ d prefix) = false
has_prefix (String.◌∷◌ c s) (String.◌∷◌ d prefix) = nat_eq (code c) (code d) && has_prefix s prefix

strip_prefix : String → String → Option String
strip_prefix s String.[] = some s
strip_prefix String.[] (String.◌∷◌ d prefix) = none
strip_prefix (String.◌∷◌ c s) (String.◌∷◌ d prefix) =
    let rest = strip_prefix s prefix in if nat_eq (code c) (code d) then rest else none

-- `strings.TrimPrefix(s, prefix)`
unfoldable pub trim_prefix : String → String → String
unfolding strip_prefix
trim_prefix s prefix = elim (strip_prefix s prefix) [ none ↦ s | some rest ↦ rest ]

-- `strings.Contains(s, t)` for a text `t` of one character.
unfoldable pub contains_char : String → ℕ → Bool
contains_char String.[] d = false
contains_char (String.◌∷◌ c s) d = nat_eq (code c) d || contains_char s d

-- `strings.TrimRight(s, t)` and `strings.TrimLeft(s, t)` for a text `t` of one character.
unfoldable pub trim_right_char : String → ℕ → String
trim_right_char String.[] d = String.[]
trim_right_char (String.◌∷◌ c s) d =
    let rest = trim_right_char s d in
    if is_blank rest && nat_eq (code c) d then String.[] else String.◌∷◌ c rest

unfoldable pub trim_left_char : String → ℕ → String
trim_left_char String.[] d = String.[]
trim_left_char (String.◌∷◌ c s) d = if nat_eq (code c) d then trim_left_char s d else String.◌∷◌ c s

-- What stands before the first `d`, and what stands behind it, if it occurs:
-- `strings.SplitN(s, d, 2)`.
unfoldable pub before : String → ℕ → String
before String.[] d = String.[]
before (String.◌∷◌ c s) d = if nat_eq (code c) d then String.[] else String.◌∷◌ c (before s d)

unfoldable pub after? : String → ℕ → Option String
after? String.[] d = none
after? (String.◌∷◌ c s) d = if nat_eq (code c) d then some s else after? s d

hex_digit : ℕ → Char
hex_digit n = char_at "0123456789abcdef" n

-- `\u00XX`
escape_code : ℕ → String
unfolding hex_digit
escape_code n =
    concat "\\u00" (String.◌∷◌ (hex_digit (n / 16)) (String.◌∷◌ (hex_digit (n % 16)) String.[]))

json_char : Char → String
unfolding escape_code
json_char c =
    let n = code c in
    if nat_eq n b'"'
    then "\\\""
    else if nat_eq n b'\\'
    then "\\\\"
    else if nat_eq n 8
    then "\\b"
    else if nat_eq n 12
    then "\\f"
    else if nat_eq n 10
    then "\\n"
    else if nat_eq n 13
    then "\\r"
    else if nat_eq n 9
    then "\\t"
    else if leb n 31
    then escape_code n
    else if nat_eq n b'<' || nat_eq n b'>' || nat_eq n b'&'
    then escape_code n
    else if nat_eq n 0x2028
    then "\\u2028"
    else if nat_eq n 0x2029
    then "\\u2029"
    else String.◌∷◌ c String.[]

json_chars : String → String
unfolding json_char
json_chars String.[] = String.[]
json_chars (String.◌∷◌ c s) = concat (json_char c) (json_chars s)

-- A text as `json.Marshal` writes it.
unfoldable pub json_string : String → String
unfolding json_chars
json_string s = concat "\"" (concat (json_chars s) "\"")

-- `%d` of a number that is not negative. A number has no more digits than its own value and one.
decimal_from : ℕ → ℕ → String → String
unfolding hex_digit
decimal_from zero n digits = digits
decimal_from (suc fuel) n digits =
    let digits' = String.◌∷◌ (hex_digit (n % 10)) digits in
    let rest = decimal_from fuel (n / 10) digits' in if leb n 9 then digits' else rest

unfoldable pub decimal : ℕ → String
unfolding decimal_from
decimal n = decimal_from (suc n) n String.[]

-- `strings.ReplaceAll(s, t, new)` for a text `t` of one character.
unfoldable pub replace_char : String → ℕ → String → String
replace_char String.[] d new = String.[]
replace_char (String.◌∷◌ c s) d new =
    if nat_eq (code c) d
    then concat new (replace_char s d new)
    else String.◌∷◌ c (replace_char s d new)

count_chars : String → ℕ
count_chars String.[] = 0
count_chars (String.◌∷◌ c s) = suc (count_chars s)

-- The characters that are still to be left out belong to a `old` that is replaced.
replace_from : String → String → ℕ → String → String
unfolding count_chars has_prefix
replace_from old new skip String.[] = String.[]
replace_from old new skip (String.◌∷◌ c s) =
    let found = has_prefix (String.◌∷◌ c s) old in
    let left = if not (nat_eq skip 0) then skip - 1 else if found then count_chars old - 1 else 0 in
    let rest = replace_from old new left s in
    if not (nat_eq skip 0) then rest else if found then concat new rest else String.◌∷◌ c rest

-- `strings.ReplaceAll(s, old, new)` for a text `old` that is not empty.
unfoldable pub replace_all : String → String → String → String
unfolding replace_from
replace_all s old new = replace_from old new 0 s

abbrev push : Char → List String → List String
push c [] = String.◌∷◌ c String.[] ∷ []
push c (part ∷ parts) = String.◌∷◌ c part ∷ parts

-- `strings.Split(s, t)` for a text `t` of one character.
unfoldable pub split_char : String → ℕ → List String
split_char String.[] d = String.[] ∷ []
split_char (String.◌∷◌ c s) d =
    let rest = split_char s d in if nat_eq (code c) d then String.[] ∷ rest else push c rest

drop_blank : List String → List String
drop_blank [] = []
drop_blank (part ∷ parts) = if is_blank part then drop_blank parts else part ∷ drop_blank parts

split_spaces : String → List String
unfolding is_space
split_spaces String.[] = String.[] ∷ []
split_spaces (String.◌∷◌ c s) =
    let rest = split_spaces s in if is_space (code c) then String.[] ∷ rest else push c rest

-- `strings.Fields`
unfoldable pub fields : String → List String
unfolding drop_blank split_spaces
fields s = drop_blank (split_spaces s)
