-- ===== src/Base/Crash.antt =====
-- Results of code that may stop the process: an assertion, a call of `abort` or an access outside an
-- object is the value `crash`; other outcomes, error codes included, are `ok`.
use mathlib.Core.Bool.{Bool, true, false}

-- `assertion` is a failed TASSERT, `aborted` a `panic` with `abort()` or a failed assertion of json-c, `out_of_bounds` an access
-- outside every live object. `out_of_fuel` is no fault of the code: a model of a loop ran out of rounds.
pub data Fault : Type 0 where
  assertion aborted out_of_bounds out_of_fuel : Fault

pub data Outcome {ℓ} (A : Type ℓ) : Type ℓ where
  ok : A → Outcome A
  crash : Fault → Outcome A

infixl 5 ◌>>=◌ ◌>>◌
abbrev pub ◌>>=◌ {ℓ κ} : {A : Type ℓ} {B : Type κ} → Outcome A → (A → Outcome B) → Outcome B
ok a >>= f = f a
crash e >>= f = crash e

abbrev pub ◌>>◌ {ℓ} : {B : Type ℓ} → Outcome (Unit {0}) → Outcome B → Outcome B
m >> k = m >>= λ _. k

-- The test of a TASSERT, or of an access to an object.
abbrev pub check : Bool → Fault → Outcome (Unit {0})
check true e = ok tt
check false e = crash e
