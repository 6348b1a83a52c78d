-- ===== src/Prelude/Dict.antt =====
-- Go's `map[string]V` as an association list. An assignment keeps one entry for each key.
use Prim.Native.String.{String}
use mathlib.Core.Path.{◌≡◌, refl}
use mathlib.Core.Option.{Option, none, some}
use mathlib.Core.List.{List, [], ◌∷◌}
use native.Mathlib.Omega.{arith}
use text.Mathlib.Text.{◌==◌}
use text.Mathlib.TextEquality.{eq_iff}
use neutree.Prelude.Tests.{if◌then◌else◌}

module _ {ℓ} {Value : Type ℓ} where
  -- `entries[key]`, with the second result of the index expression.
  unfoldable pub lookup : String → List (String × Value) → Option Value
  lookup key [] = none
  lookup key (entry ∷ entries) =
      let later = lookup key entries in if entry.0 == key then some entry.1 else later

  -- `entries[key] = value`
  unfoldable pub insert : String → Value → List (String × Value) → List (String × Value)
  insert key value [] = (key, value) ∷ []
  insert key value (entry ∷ entries) =
      let later = insert key value entries in
      if entry.0 == key then (key, value) ∷ entries else entry ∷ later

  -- An index expression behind an assignment.
  pub lookup-insert :
      (entries : List (String × Value)) (key : String) (value : Value) (wanted : String)
      → lookup wanted (insert key value entries)
        ≡ (if key == wanted then some value else lookup wanted entries)
  unfolding insert lookup
  lookup-insert [] key value wanted = refl
  lookup-insert (entry ∷ entries) key value wanted =
      let later = lookup-insert entries key value wanted in
      ground (arith, later, eq_iff entry.0 wanted, eq_iff entry.0 key, eq_iff key wanted)
