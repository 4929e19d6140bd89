-- ===== src/Tg/Fill.antt =====
-- The functions that fill a struct in and return 0 or an error: what they have stored before an error
-- stays stored. `broke` is the end of a run that C does not define.
use mathlib.Core.Path.{subst}
use gnuweeb_bot.Base.{ℕ, Fault, ◌≢◌, ◌≡◌, refl, ap, arith, out_of_fuel}

-- The result of a call: 0 with a value, or -e.
pub data Got {ℓ} (A : Type ℓ) : Type ℓ where
  got : A → Got A
  err : ℕ → Got A
  broke : Fault → Got A

abbrev pub bind {ℓ κ} : {A : Type ℓ} {B : Type κ} → Got A → (A → Got B) → Got B
bind (got a) f = f a
bind (err e) f = err e
bind (broke x) f = broke x

-- A function over the struct `S`.
abbrev pub Fill : Type 0 → Type 0 → Type 0
Fill S A = S → S × Got A

abbrev pub then_fill : {S A B : Type 0} → S × Got A → (A → Fill S B) → S × Got B
then_fill (s, got a) f = f a s
then_fill (s, err e) f = (s, err e)
then_fill (s, broke x) f = (s, broke x)

infixl 5 ◌>>=◌ ◌>>◌
abbrev pub ◌>>=◌ : {S A B : Type 0} → Fill S A → (A → Fill S B) → Fill S B
◌>>=◌ m f s = then_fill (m s) f

abbrev pub ◌>>◌ : {S B : Type 0} → Fill S (Unit {0}) → Fill S B → Fill S B
m >> k = m >>= λ _. k

abbrev pub give : {S A : Type 0} → A → Fill S A
give a s = (s, got a)

abbrev pub fail : {S A : Type 0} → ℕ → Fill S A
fail e s = (s, err e)

-- Assignments to fields.
abbrev pub store : {S : Type 0} → (S → S) → Fill S (Unit {0})
store f s = (f s, got tt)

abbrev pub load : {S A : Type 0} → (S → A) → Fill S A
load f s = (s, got (f s))

-- A call that fills the struct `T` inside of `S`.
abbrev pub within : {S T : Type 0} → (S → T) → (T → S → S) → Fill T (Unit {0}) → Fill S (Unit {0})
within get put m s = (put (m (get s)).0 s, (m (get s)).1)

-- A call whose return value is not looked at.
abbrev pub ignored : {S T : Type 0} → (S → T) → (T → S → S) → Fill T (Unit {0}) → Fill S (Unit {0})
ignored get put m s = (put (m (get s)).0 s, got tt)

-- ECANCELED
abbrev pub ecanceled : ℕ
ecanceled = 125

-- If the call returns 0, the struct is as `P` says; no error that it returns is -ECANCELED,
-- and it does not run out of fuel.
pub record Ends {S A : Type 0} (P : S → Type 0) (m : S × Got A) : Type 0 where
  pub holds : (s : S) (a : A) → m ≡ (s, got a) → P s
  pub fails : (s : S) (e : ℕ) → m ≡ (s, err e) → e ≢ ecanceled
  pub faults : (s : S) (x : Fault) → m ≡ (s, broke x) → x ≢ out_of_fuel

pub Ends-got : {S A : Type 0} {P : S → Type 0} {s : S} {a : A} → P s → Ends P (s, got a)
Ends-got {S} {A} {P} p = record {
  holds = λ s' a' e. subst P (ap (λ (r : S × Got A). r.0) e) p;
  fails = λ s' e' q. ground arith;
  faults = λ s' x q. ground arith;
}

pub Ends-err :
    {S A : Type 0} {P : S → Type 0} {s : S} {e : ℕ} → e ≢ ecanceled → Ends {A = A} P (s, err e)
Ends-err ne = record {
  holds = λ s' a' q. ground arith;
  fails = λ s' e' q. ground arith;
  faults = λ s' x q. ground arith;
}

pub Ends-broke :
    {S A : Type 0} {P : S → Type 0} {s : S} {x : Fault}
    → x ≢ out_of_fuel
    → Ends {A = A} P (s, broke x)
Ends-broke ne = record {
  holds = λ s' a' q. ground arith;
  fails = λ s' e' q. ground arith;
  faults = λ s' x q. ground arith;
}

-- What holds of the result is used in what follows.
pub Ends-after :
    {S A B : Type 0} {P Q : S → Type 0} (m : S × Got A) (k : A → Fill S B)
    → Ends Q m
    → ((s : S) (a : A) → Q s → Ends P (k a s))
    → Ends P (then_fill m k)
Ends-after (s, got a) k q h = h s a (q.holds s a refl)
Ends-after (s, err e) k q h = Ends-err (q.fails s e refl)
Ends-after (s, broke x) k q h = Ends-broke (q.faults s x refl)

-- A call that fills a struct inside, and what follows it.
pub Ends-call :
    {S T B : Type 0} {P : S → Type 0} {Q : T → Type 0} (get : S → T) (put : T → S → S)
    (m : Fill T (Unit {0})) (s : S) (k : Unit {0} → Fill S B)
    → Ends Q (m (get s))
    → ((t : T) → Q t → Ends P (k tt (put t s)))
    → Ends P (then_fill (within get put m s) k)
Ends-call {S} {T} {B} {P} {Q} get put m s k q h = at (m (get s)) q
  where
    at : (r : T × Got (Unit {0})) → Ends Q r → Ends P (then_fill (put r.0 s, r.1) k)
    at (t, got a) q' = h t (q'.holds t a refl)
    at (t, err e) q' = Ends-err (q'.fails t e refl)
    at (t, broke x) q' = Ends-broke (q'.faults t x refl)

-- The same where nothing follows.
pub Ends-inside :
    {S T : Type 0} {P : S → Type 0} {Q : T → Type 0} (get : S → T) (put : T → S → S)
    (m : Fill T (Unit {0})) (s : S)
    → Ends Q (m (get s))
    → ((t : T) → Q t → P (put t s))
    → Ends P (within get put m s)
Ends-inside {S} {T} {P} {Q} get put m s q h = at (m (get s)) q
  where
    at : (r : T × Got (Unit {0})) → Ends Q r → Ends P (put r.0 s, r.1)
    at (t, got a) q' = Ends-got (h t (q'.holds t a refl))
    at (t, err e) q' = Ends-err (q'.fails t e refl)
    at (t, broke x) q' = Ends-broke (q'.faults t x refl)

-- The same for calls that return a value.
pub record Yields {A : Type 0} (P : A → Type 0) (m : Got A) : Type 0 where
  pub value : (a : A) → m ≡ got a → P a
  pub error : (e : ℕ) → m ≡ err e → e ≢ ecanceled

pub Yields-got : {A : Type 0} {P : A → Type 0} {a : A} → P a → Yields P (got a)
Yields-got {A} {P} {a} p = record {
  value = λ b e. subst P (got-injective e) p;
  error = λ e q. ground arith;
}
  where
    got-injective : {b : A} → got a ≡ got b → a ≡ b
    got-injective q = cc

pub Yields-err : {A : Type 0} {P : A → Type 0} {e : ℕ} → e ≢ ecanceled → Yields P (err e)
Yields-err ne = record { value = λ b q. ground arith; error = λ e q. ground arith }

pub Yields-broke : {A : Type 0} {P : A → Type 0} {x : Fault} → Yields P (broke x)
Yields-broke = record { value = λ b q. ground arith; error = λ e q. ground arith }

pub Yields-bind :
    {A B : Type 0} {P : B → Type 0} {Q : A → Type 0} (m : Got A) (k : A → Got B)
    → Yields Q m
    → ((a : A) → Q a → Yields P (k a))
    → Yields P (bind m k)
Yields-bind (got a) k q h = h a (q.value a refl)
Yields-bind (err e) k q h = Yields-err (q.error e refl)
Yields-bind (broke x) k q h = Yields-broke
