-- ===== src/Base/CString.antt =====
-- C strings: lists of byte values. A C string in memory is a list whose text ends at the first 0.
use Prim.Native.Char.{code}
use Prim.Native.String.{String}
use Prim.Native.Nat.{ℕ, zero, suc, ◌≤◌, ◌<◌}
use mathlib.Core.List.{List, [], ◌∷◌}
use mathlib.Core.Bool.{Bool, true, false}
use native.Mathlib.Omega.{arith}
use mathlib.Core.Path.{◌≡◌, refl, ap}
use mathlib.Core.Logic.{inl, inr}
use gnuweeb_bot.Base.Tests.{◌==◌, if◌then◌else◌, Bool-cases}
use gnuweeb_bot.Base.Lists.{length, take}

abbrev pub Bytes : Type 0
Bytes = List ℕ

-- The bytes of an ASCII literal.
abbrev pub codes : String → Bytes
codes String.[] = []
codes (String.◌∷◌ c s) = code c ∷ codes s

abbrev pub IsByte : ℕ → Type 0
IsByte c = c < 256

-- The C library's `strlen`: the distance to the first 0.
abbrev pub strlen : Bytes → ℕ
strlen [] = 0
strlen (c ∷ s) = if c == 0 then 0 else suc (strlen s)

-- The C library's `strnlen`.
abbrev pub strnlen : Bytes → ℕ → ℕ
strnlen s zero = 0
strnlen [] (suc n) = 0
strnlen (c ∷ s) (suc n) = if c == 0 then 0 else suc (strnlen s n)

-- The text of a C string, up to its 0.
abbrev pub c_text : Bytes → Bytes
c_text [] = []
c_text (c ∷ s) = let rest = c_text s in if c == 0 then [] else c ∷ rest

-- The C library's `strncmp(k, s, |k|) == 0` for a text `k` without a 0: `k` is a prefix of `s`.
abbrev pub has_prefix : Bytes → Bytes → Bool
has_prefix [] s = true
has_prefix (k ∷ ks) [] = false
has_prefix (k ∷ ks) (c ∷ s) = if k == c then has_prefix ks s else false

pub strnlen-le : (s : Bytes) (n : ℕ) → strnlen s n ≤ n
strnlen-le s zero = omega arith
strnlen-le [] (suc n) = omega arith
strnlen-le (c ∷ s) (suc n) = ground (arith, strnlen-le s n)

pub strnlen-le-length : (s : Bytes) (n : ℕ) → strnlen s n ≤ length s
strnlen-le-length s zero = omega arith
strnlen-le-length [] (suc n) = omega arith
strnlen-le-length (c ∷ s) (suc n) = ground (arith, strnlen-le-length s n)

-- The bytes that `strnlen` counts are those of the text, up to the limit.
pub take-strnlen : (s : Bytes) (n : ℕ) → take (strnlen s n) s ≡ take n (c_text s)
take-strnlen s zero = refl
take-strnlen [] (suc n) = refl
take-strnlen (c ∷ s) (suc n) = elim (Bool-cases (c == 0)) [
  | inl ends ↦ rw ends refl
  | inr more ↦ rw more (ap (◌∷◌ c) (take-strnlen s n))
]

-- The C library's `strcmp(a, b) == 0`.
abbrev pub str_eq : Bytes → Bytes → Bool
str_eq [] t = strlen t == 0
str_eq (c ∷ s) [] = c == 0
str_eq (c ∷ s) (d ∷ t) = if c == d then (if c == 0 then true else str_eq s t) else false
