-- ===== src/Controllers/Keeping.antt =====
-- A row that the steps of a round keep as it is, step by step.
use neutree.Prelude.{String, if◌then◌else◌, Bool, true, false}
use neutree.Prelude.Result.{Result, ok, err, Holds}
use neutree.Store.{Action, continue, return, fail, lift, ◌>>=◌}
use neutree.Controllers.Helpers.{wrapped, wrap}

module _ {S : Type 0} (Good : S → Type 0) where
  -- The step leads from a good state to a good one, and its value satisfies `P`.
  pub record Keeps {A : Type 0} (P : A → Type 0) (m : Action S A) : Type 0 where
    pub keeps : (s : S) → Good s → Good (m s).0 × Holds P (m s).1

  pub continue-Keeps :
      {A B : Type 0} (P : A → Type 0) (Q : B → Type 0) (f : A → Action S B) (o : S × Result A)
      → Good o.0 × Holds P o.1
      → ((a : A) → P a → Keeps Q (f a))
      → Good (continue o f).0 × Holds Q (continue o f).1
  continue-Keeps P Q f (s, ok a) h k = (k a h.1).keeps s h.0
  continue-Keeps P Q f (s, err error) h k = (h.0, tt)

  pub >>=-Keeps :
      {A B : Type 0} (P : A → Type 0) (Q : B → Type 0) (m : Action S A) (f : A → Action S B)
      → Keeps P m
      → ((a : A) → P a → Keeps Q (f a))
      → Keeps Q (m >>= f)
  >>=-Keeps P Q m f h k = record { keeps = λ s good. continue-Keeps P Q f (m s) (h.keeps s good) k }

  pub return-Keeps : {A : Type 0} (P : A → Type 0) (a : A) → P a → Keeps P (return a)
  return-Keeps P a h = record { keeps = λ s good. (good, h) }

  pub fail-Keeps : {A : Type 0} (P : A → Type 0) (error : String) → Keeps P (fail error)
  fail-Keeps P error = record { keeps = λ s good. (good, tt) }

  pub lift-Keeps : {A : Type 0} (P : A → Type 0) (r : Result A) → Holds P r → Keeps P (lift r)
  lift-Keeps P r h = record { keeps = λ s good. (good, h) }

  wrapped-Keeps :
      {A : Type 0} (P : A → Type 0) (message : String) (o : S × Result A)
      → Good o.0 × Holds P o.1
      → Good (wrapped message o).0 × Holds P (wrapped message o).1
  wrapped-Keeps P message (s, ok a) h = h
  wrapped-Keeps P message (s, err error) h = (h.0, tt)

  pub wrap-Keeps :
      {A : Type 0} (P : A → Type 0) (message : String) (m : Action S A)
      → Keeps P m
      → Keeps P (wrap message m)
  wrap-Keeps P message m h = record {
    keeps = λ s good. wrapped-Keeps P message (m s) (h.keeps s good);
  }

  pub if-Keeps :
      {A : Type 0} (P : A → Type 0) (test : Bool) (m k : Action S A)
      → Keeps P m
      → Keeps P k
      → Keeps P (if test then m else k)
  if-Keeps P true m k hm hk = hm
  if-Keeps P false m k hm hk = hk

-- Any value.
abbrev pub Any : {A : Type 0} → A → Type 0
Any a = Unit

pub Holds-Any : {A : Type 0} (r : Result A) → Holds Any r
Holds-Any (ok a) = tt
Holds-Any (err error) = tt
