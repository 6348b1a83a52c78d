-- ===== src/Prelude/Sorting.antt =====
-- Sorting keeps what a list of texts holds.
use mathlib.Core.Path.{◌≡◌, refl}
use mathlib.Core.Bool.{Bool, ◌&&◌, ◌||◌}
use mathlib.Core.List.{List, [], ◌∷◌}
use Prim.Native.Nat.{suc}
use Prim.Native.String.{String}
use native.Mathlib.Omega.{arith}
use text.Mathlib.Text.{◌==◌}
use neutree.Prelude.Lists.{length, all}
use neutree.Prelude.Texts.{contains, insert_text, sort_texts}

length-insert_text : (s : String) (xs : List String) → length (insert_text s xs) ≡ suc (length xs)
unfolding insert_text
length-insert_text s [] = refl
length-insert_text s (x ∷ xs) = ground (arith, length-insert_text s xs)

pub length-sort_texts : (xs : List String) → length (sort_texts xs) ≡ length xs
unfolding sort_texts
length-sort_texts [] = refl
length-sort_texts (x ∷ xs) =
    ground (arith, length-insert_text x (sort_texts xs), length-sort_texts xs)

all-insert_text :
    (p : String → Bool) (s : String) (xs : List String)
    → all p (insert_text s xs) ≡ (p s && all p xs)
unfolding insert_text
all-insert_text p s [] = refl
all-insert_text p s (x ∷ xs) = ground (arith, all-insert_text p s xs)

pub all-sort_texts : (p : String → Bool) (xs : List String) → all p (sort_texts xs) ≡ all p xs
unfolding sort_texts
all-sort_texts p [] = refl
all-sort_texts p (x ∷ xs) = ground (arith, all-insert_text p x (sort_texts xs), all-sort_texts p xs)

contains-insert_text :
    (t s : String) (xs : List String) → contains (insert_text s xs) t ≡ (s == t || contains xs t)
unfolding insert_text
contains-insert_text t s [] = refl
contains-insert_text t s (x ∷ xs) = ground (arith, contains-insert_text t s xs)

pub contains-sort_texts :
    (t : String) (xs : List String) → contains (sort_texts xs) t ≡ contains xs t
unfolding sort_texts
contains-sort_texts t [] = refl
contains-sort_texts t (x ∷ xs) =
    ground (arith, contains-insert_text t x (sort_texts xs), contains-sort_texts t xs)
