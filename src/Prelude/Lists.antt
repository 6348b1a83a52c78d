-- ===== src/Prelude/Lists.antt =====
-- Lists measured by native numbers, and predicates on lists that compute.
use Prim.Native.Nat.{ℕ, suc, ◌+◌}
use mathlib.Core.Path.{◌≡◌, refl, ap}
use mathlib.Core.Logic.{◌⊎◌}
use mathlib.Core.Bool.{Bool, true, false, ◌&&◌, ◌||◌}
use mathlib.Core.List.{List, [], ◌∷◌, ◌++◌, map}
use native.Mathlib.Omega.{arith}
use neutree.Prelude.Tests.{if◌then◌else◌}

module _ {ℓ} {A : Type ℓ} where
  abbrev pub length : List A → ℕ
  length [] = 0
  length (x ∷ xs) = suc (length xs)

  abbrev pub is_empty : List A → Bool
  is_empty [] = true
  is_empty (x ∷ xs) = false

  abbrev pub all : (A → Bool) → List A → Bool
  all p [] = true
  all p (x ∷ xs) = p x && all p xs

  abbrev pub any : (A → Bool) → List A → Bool
  any p [] = false
  any p (x ∷ xs) = p x || any p xs

  -- The elements that pass the test, in order.
  abbrev pub keep : (A → Bool) → List A → List A
  keep p [] = []
  keep p (x ∷ xs) = if p x then x ∷ keep p xs else keep p xs

  abbrev pub All {κ} : (A → Type κ) → List A → Type κ
  All P [] = Unit
  All P (x ∷ xs) = P x × All P xs

  pub length-append : (xs ys : List A) → length (xs ++ ys) ≡ length xs + length ys
  length-append [] ys = omega arith
  length-append (x ∷ xs) ys = omega (arith, length-append xs ys)

  pub all-All {κ} :
      (P : A → Type κ) (p : A → Bool) (xs : List A)
      → ((x : A) → p x ≡ true → P x)
      → all p xs ≡ true
      → All P xs
  all-All P p [] h e = tt
  all-All P p (x ∷ xs) h e =
      let here : p x ≡ true = ground arith in (h x here, all-All P p xs h (ground arith))

  pub All-all {κ} :
      (P : A → Type κ) (p : A → Bool) (xs : List A)
      → ((x : A) → P x → p x ≡ true)
      → All P xs
      → all p xs ≡ true
  All-all P p [] h a = refl
  All-all P p (x ∷ xs) h a = let here : p x ≡ true = h x a.0 in rw here (All-all P p xs h a.1)

  pub All-keep_on_map {κ} :
      (P : A → Type κ) (f : A → A) (xs : List A)
      → ((x : A) → P x → P (f x))
      → All P xs
      → All P (map f xs)
  All-keep_on_map P f [] h a = tt
  All-keep_on_map P f (x ∷ xs) h a = (h x a.0, All-keep_on_map P f xs h a.1)

  pub All-of_map {κ} :
      (P : A → Type κ) (f : A → A) (xs : List A)
      → ((x : A) → P (f x) → P x)
      → All P (map f xs)
      → All P xs
  All-of_map P f [] h a = tt
  All-of_map P f (x ∷ xs) h a = (h x a.0, All-of_map P f xs h a.1)

  pub map_id : (f : A → A) (xs : List A) → ((x : A) → f x ≡ x) → map f xs ≡ xs
  map_id f [] h = refl
  map_id f (x ∷ xs) h = cc (h x, map_id f xs h)

-- `a` is one of the elements.
abbrev pub Among : {A : Type 0} → A → List A → Type 0
Among a [] = ⊥
Among a (x ∷ xs) = (a ≡ x) ⊎ Among a xs

module _ {ℓ κ} {A : Type ℓ} {B : Type κ} where
  pub length-map : (f : A → B) (xs : List A) → length (map f xs) ≡ length xs
  length-map f [] = refl
  length-map f (x ∷ xs) = ap suc (length-map f xs)

  pub All-map {μ} :
      (P : B → Type μ) (f : A → B) (xs : List A) → ((x : A) → P (f x)) → All P (map f xs)
  All-map P f [] h = tt
  All-map P f (x ∷ xs) h = (h x, All-map P f xs h)

  pub map-map_same {μ} :
      {C : Type μ} (g : B → C) (k : A → C) (f : A → B) (xs : List A)
      → ((x : A) → g (f x) ≡ k x)
      → map g (map f xs) ≡ map k xs
  map-map_same g k f [] h = refl
  map-map_same g k f (x ∷ xs) h = cc (h x, map-map_same g k f xs h)
