-- ===== src/StaticNode/Host.antt =====
-- The host of a node as the reconciler reaches it: commands, files and HTTP over a state `S`, the
-- runner (`CommandRunner`, `FileClient`) and the network being outside of the modelled code.
use Prim.Native.String.{◌++◌ as concat}
use neutree.Prelude.{ℕ, String, Bool, is_blank, if◌then◌else◌}
use neutree.Prelude.Int.{ℤ}
use neutree.Prelude.Result.{Result, ok, err}
use neutree.Api.Component.{NodeComponentConfigFile}

pub record Host (S : Type 0) : Type 0 where
  pub run : S → String → S × Result String
  pub write_file_if_changed : S → NodeComponentConfigFile → S × Result Bool
  pub remove_file : S → NodeComponentConfigFile → S × Result (Unit {0})
  -- The status code and the status line of a GET with a time limit.
  pub http_get : S → String → ℤ → S × Result (ℕ × String)

-- A Go error: `DockerError` has a reason, another error has none.
pub record Failure : Type 0 where
  pub reason : String
  pub message : String

pub data Outcome {ℓ} (A : Type ℓ) : Type ℓ where
  done : A → Outcome A
  failed : Failure → Outcome A

-- `dockerReason`
unfoldable pub docker_reason : Failure → String → String
docker_reason failure fallback = if is_blank failure.reason then fallback else failure.reason

-- `dockerError` around the error of a command.
unfoldable pub docker_error : String → String → String → Failure
docker_error reason message error = record {
  reason = reason;
  message = concat message (concat ": " error);
}

abbrev pub plain_error : String → Failure
plain_error message = record { reason = ""; message = message }

abbrev pub Action : Type 0 → Type 0 → Type 0
Action S A = S → S × Outcome A

abbrev pub continue : {S A B : Type 0} → S × Outcome A → (A → Action S B) → S × Outcome B
continue (s, done a) f = f a s
continue (s, failed failure) f = (s, failed failure)

infixl 5 ◌>>=◌ ◌>>◌
abbrev pub ◌>>=◌ : {S A B : Type 0} → Action S A → (A → Action S B) → Action S B
(m >>= f) s = continue (m s) f

abbrev pub ◌>>◌ : {S A B : Type 0} → Action S A → Action S B → Action S B
m >> k = m >>= λ _. k

abbrev pub return : {S A : Type 0} → A → Action S A
return a s = (s, done a)

abbrev pub fail : {S A : Type 0} → Failure → Action S A
fail failure s = (s, failed failure)

abbrev pub resume : {S A B : Type 0} → S × Outcome A → (Outcome A → Action S B) → S × Outcome B
resume (s, outcome) handle = handle outcome s

-- A step whose error is handled.
abbrev pub attempt : {S A B : Type 0} → Action S A → (Outcome A → Action S B) → Action S B
attempt m handle s = resume (m s) handle

-- What a command came to, its error wrapped.
abbrev pub wrap_error {ℓ} :
    {S : Type 0} {A : Type ℓ} → (String → Failure) → S × Result A → S × Outcome A
wrap_error wrap (s, ok a) = (s, done a)
wrap_error wrap (s, err error) = (s, failed (wrap error))

abbrev pub command : {S : Type 0} → Host S → String → (String → Failure) → Action S String
command host text wrap s = wrap_error wrap (host.run s text)
