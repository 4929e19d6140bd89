-- ===== src/Text/Trim.antt =====
-- The functions of lib/string.c that cut white space and length off a string in its place.
use gnuweeb_bot.Base.{
  ℕ, zero, suc, ◌+◌, ◌-◌, ◌≤◌, ◌<◌, ◌≡◌, ◌∙◌, refl, sym, ap, Bool, true, false, ◌&&◌, ◌||◌,
  Bool-cases, inl, inr, ◌++◌, arith, ltb, ◌==◌, if◌then◌else◌, Bytes, get_or, set, take, drop,
  strlen, strnlen,
}
use native.Mathlib.Decide.{ℕ_discrete}

-- The tests with HEQ and TEQ.
abbrev pub is_blank : ℕ → Bool
is_blank c = c == b' ' || c == b'\n' || c == b'\r' || c == 11

-- The loop at the head: where it stops, and the length that is left.
unfoldable pub trim_head : Bytes → ℕ → ℕ → ℕ × ℕ
trim_head str head zero = (head, 0)
trim_head str head (suc len) =
    let rest = trim_head str (head + 1) len in
    if is_blank (get_or str head 0) then rest else (head, suc len)

-- The loop at the tail: the length that is left, and `move_t`; the tail moves with the length.
unfoldable pub trim_tail : Bytes → ℕ → ℕ → Bool → ℕ × Bool
trim_tail str head zero moved = (0, moved)
trim_tail str head (suc len) moved =
    let rest = trim_tail str head len true in
    if is_blank (get_or str (head + len) 0) then rest else (suc len, moved)

-- The object afterwards, the place that is returned, and `*res_len`.
unfoldable pub trim_len : Bytes → ℕ → Bytes × ℕ × ℕ
unfolding trim_head trim_tail
trim_len str n =
    let (head, len) = trim_head str 0 n in
    let (len', move_t) = trim_tail str head len false in
    ((if ltb 0 len' && move_t then set str (head + len') 0 else str), head, len')

unfoldable pub trim : Bytes → Bytes × ℕ × ℕ
unfolding trim_len
trim str = trim_len str (strlen str)

-- `memmove` of `len` bytes from an offset to the beginning.
abbrev pub moved_front : Bytes → ℕ → ℕ → Bytes
moved_front str head len = take len (drop head str) ++ drop len str

unfoldable pub trim_len_cpy : Bytes → ℕ → Bytes × ℕ
unfolding trim_head trim_tail
trim_len_cpy str n =
    let (head, len) = trim_head str 0 n in
    let (len', _) = trim_tail str head len false in
    (if ltb 0 head then set (moved_front str head len') len' 0 else str, len')

unfoldable pub trim_cpy : Bytes → Bytes × ℕ
unfolding trim_len_cpy
trim_cpy str = trim_len_cpy str (strlen str)

unfoldable pub trunc_str : Bytes → ℕ → Bytes
trunc_str str n = if ltb (strnlen str n) n then str else set str n 0

-- The range holds blanks only.
abbrev pub Blank : Bytes → ℕ → ℕ → Type 0
Blank str a b = (i : ℕ) → a ≤ i → i < b → is_blank (get_or str i 0) ≡ true

-- What stands from `head` on, `len` bytes of it, is the first `n` bytes without the blanks around it.
pub record Trimmed (str : Bytes) (n head len : ℕ) : Type 0 where
  pub inside : head + len ≤ n
  pub front : Blank str 0 head
  pub back : Blank str (head + len) n
  pub first : 0 < len → is_blank (get_or str head 0) ≡ false
  pub last : 0 < len → is_blank (get_or str (head + len - 1) 0) ≡ false

trim_head_lem :
    (str : Bytes) (head len : ℕ)
    → let r = trim_head str head len in
      (r.0 + r.1 ≡ head + len)
      × (head ≤ r.0)
      × Blank str head r.0
      × (0 < r.1 → is_blank (get_or str r.0 0) ≡ false)
unfolding trim_head
trim_head_lem str head zero =
    (refl, omega arith, (λ i lo hi. absurd (omega arith)), λ h. absurd (omega arith))
trim_head_lem str head (suc len) = elim (Bool-cases (is_blank (get_or str head 0))) [
  | inl blank ↦
      let (total, beyond, blanks, first) = trim_head_lem str (head + 1) len in
      rw blank (
        total ∙ omega arith,
        omega arith,
        (λ i lo hi. elim (ℕ_discrete head i) [
          | yes same ↦ sym (ap (λ j. is_blank (get_or str j 0)) same) ∙ blank
          | no other ↦ blanks i (omega arith) hi
        ]),
        first,
      )
  | inr other ↦ rw other (refl, omega arith, (λ i lo hi. absurd (omega arith)), λ h. other)
]

trim_tail_lem :
    (str : Bytes) (head len : ℕ) (moved : Bool)
    → let r = trim_tail str head len moved in
      (r.0 ≤ len)
      × Blank str (head + r.0) (head + len)
      × (0 < r.0 → is_blank (get_or str (head + r.0 - 1) 0) ≡ false)
unfolding trim_tail
trim_tail_lem str head zero moved =
    (omega arith, (λ i lo hi. absurd (omega arith)), λ h. absurd (omega arith))
trim_tail_lem str head (suc len) moved = elim (Bool-cases (is_blank (get_or str (head + len) 0))) [
  | inl blank ↦
      let (within, blanks, last) = trim_tail_lem str head len true in
      rw blank (
        omega arith,
        (λ i lo hi. elim (ℕ_discrete (head + len) i) [
          | yes same ↦ sym (ap (λ j. is_blank (get_or str j 0)) same) ∙ blank
          | no other ↦ blanks i lo (omega arith)
        ]),
        last,
      )
  | inr other ↦ rw other (
    omega arith,
    (λ i lo hi. absurd (omega arith)),
    λ h. ap (λ j. is_blank (get_or str j 0)) (omega arith) ∙ other,
  )
]

-- What trim_len returns is the text without the blanks on either side of it.
trim_len-Trimmed : (str : Bytes) (n : ℕ) → Trimmed str n (trim_len str n).1 (trim_len str n).2
unfolding trim_len
trim_len-Trimmed str n =
    let (total, _, blanks, first) = trim_head_lem str 0 n in
    let h = (trim_head str 0 n).0 in
    let (within, ends, last) = trim_tail_lem str h (trim_head str 0 n).1 false in
    record {
      inside = omega arith;
      front = blanks;
      back = λ i lo hi. ends i lo (omega arith);
      first = λ some. first (omega arith);
      last = last;
    }

-- A text that does not begin with a blank is left as it is, whatever stands at its end.
trim_len_cpy-Unchanged :
    (str : Bytes) (n : ℕ) → is_blank (get_or str 0 0) ≡ false → (trim_len_cpy str n).0 ≡ str
unfolding trim_len_cpy trim_head
trim_len_cpy-Unchanged str zero other = refl
trim_len_cpy-Unchanged str (suc n) other = rw other refl
