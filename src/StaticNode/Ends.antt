-- ===== src/StaticNode/Ends.antt =====
-- Actions on a host that end without a failure, with a value of which something holds.
use neutree.Prelude.{String, true, ◌≡◌, arith}
use neutree.Prelude.Result.{Result, ok, err}
use neutree.StaticCluster.Planner.Validity.{is_ok}
use neutree.StaticNode.Host.{Failure, Outcome, done, failed, Action, continue, resume, wrap_error}

-- The action ends without a failure, with a value that satisfies `P`.
abbrev pub Ends : {S A : Type 0} → (A → Type 0) → S × Outcome A → Type 0
Ends P (s, done a) = P a
Ends P (s, failed failure) = ⊥

-- Any value will do.
abbrev pub Any : {A : Type 0} → A → Type 0
Any a = Unit

pub continue-Ends :
    {S A B : Type 0} (P : A → Type 0) (Q : B → Type 0) (o : S × Outcome A) (f : A → Action S B)
    → Ends P o
    → ((a : A) (s : S) → P a → Ends Q (f a s))
    → Ends Q (continue o f)
continue-Ends P Q (s, done a) f h k = k a s h
continue-Ends P Q (s, failed failure) f h k = absurd h

pub resume-Ends :
    {S A B : Type 0} (Q : B → Type 0) (o : S × Outcome A) (f : Outcome A → Action S B)
    → Ends Any o
    → ((a : A) (s : S) → Ends Q (f (done a) s))
    → Ends Q (resume o f)
resume-Ends Q (s, done a) f h k = k a s
resume-Ends Q (s, failed failure) f h k = absurd h

pub weaken-Ends :
    {S A : Type 0} (P Q : A → Type 0) (o : S × Outcome A)
    → Ends P o
    → ((a : A) → P a → Q a)
    → Ends Q o
weaken-Ends P Q (s, done a) h k = k a h
weaken-Ends P Q (s, failed failure) h k = absurd h

pub wrap-Ends :
    {S A : Type 0} (wrap : String → Failure) (o : S × Result A)
    → is_ok o.1 ≡ true
    → Ends Any (wrap_error wrap o)
wrap-Ends wrap (s, ok a) h = tt
wrap-Ends wrap (s, err error) h = absurd (ground (arith, h))
