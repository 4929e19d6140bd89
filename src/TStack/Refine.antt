-- ===== src/TStack/Refine.antt =====
-- A valid stack of tstack.h behaves as a bounded list, its top first.
use gnuweeb_bot.Base.{
  ℕ, suc, ◌+◌, ◌-◌, ◌≤◌, ◌<◌, ◌≡◌, ◌≢◌, refl, ap, ◌∙◌, inl, inr, some, List, [], ◌∷◌, true, false,
  arith, length, set, drop, replicate, length-set, length-replicate, length-drop, drop_of_get_elem?,
  drop-set_lt, get_elem?_of_lt, get_elem?-set_self, Outcome, ok, drop_all, Bool-cases, ◌==◌,
  if◌then◌else◌,
}
use native.Mathlib.Numerals.{add-one}
use gnuweeb_bot.Base.Int.{ℤ, pos, minus_one}
use gnuweeb_bot.TStack.{TStack, tss_init, tss_count, tss_push, tss_pop}

-- `sp` never exceeds `capacity`, and the array has `capacity` cells.
pub record IsValid (st : TStack) : Type 0 where
  pub sp_le : st.sp ≤ st.capacity
  pub room : length st.arr ≡ st.capacity

-- The values on the stack, the last pushed first.
abbrev pub contents : TStack → List ℕ
contents st = drop st.sp st.arr

-- What a client expects: a list of at most `cap` values, and -1 where there is no room or no value.
abbrev pub push : ℕ → List ℕ → ℕ → List ℕ × ℤ
push cap xs x = if length xs == cap then (xs, minus_one) else (x ∷ xs, pos x)

abbrev pub pop : List ℕ → List ℕ × ℤ
pop [] = ([], minus_one)
pop (x ∷ xs) = (xs, pos x)

pub length-contents : (st : TStack) → IsValid st → length (contents st) ≡ st.capacity - st.sp
length-contents st v = omega (arith, length-drop st.sp st.arr)

-- A fresh stack is valid and empty, and has the capacity that was asked for.
pub tss_init_lem :
    (capacity : ℕ) {st : TStack}
    → tss_init true capacity ≡ some st
    → IsValid st × (contents st ≡ []) × (st.capacity ≡ capacity)
unfolding tss_init
tss_init_lem capacity {st} e =
    ground
      (arith, length-replicate {A = ℕ} capacity 0, drop_all {A = ℕ} capacity (replicate capacity 0))

-- On a valid stack `tss_count` is the number of values.
pub tss_count_lem : (st : TStack) → IsValid st → tss_count st ≡ ok (length (contents st))
unfolding tss_count
tss_count_lem st v = ground (arith, length-contents st v)

-- What an operation leaves, `r` its result: a valid stack of the same capacity that holds `xs`.
abbrev pub Leaves : ℕ → List ℕ × ℤ → Outcome (TStack × ℤ) → Type 0
Leaves cap (xs, r) o =
    (st : TStack) × (o ≡ ok (st, r)) × IsValid st × (contents st ≡ xs) × (st.capacity ≡ cap)

drop_pred-set :
    (xs : List ℕ) (i x : ℕ)
    → i ≢ 0
    → i ≤ length xs
    → drop (i - 1) (set xs (i - 1) x) ≡ x ∷ drop i xs
drop_pred-set xs i x h l =
    drop_of_get_elem? (set xs (i - 1) x) (i - 1) (get_elem?-set_self xs (i - 1) x (omega arith))
    ∙ ap (◌∷◌ x) (drop-set_lt xs (i - 1) (suc (i - 1)) x (omega arith) ∙ same)
  where
    index : suc (i - 1) ≡ i
    index = omega arith

    same : drop (suc (i - 1)) xs ≡ drop i xs
    same = ap (λ (k : ℕ). drop k xs) index

-- `tss_push` on a valid stack neither fails an assertion nor writes outside the array, and does
-- what `push` does to the list of values: a full stack is left as it is and -1 returned.
pub tss_push_refines :
    (st : TStack) (x : ℕ)
    → IsValid st
    → Leaves st.capacity (push st.capacity (contents st) x) (tss_push st x)
unfolding tss_push
tss_push_refines st x v = elim (Bool-cases (st.sp == 0)) [
  | inl full ↦
      (st, ground (arith, length-contents st v), v, ground (arith, length-contents st v), refl)
  | inr room ↦ (
    record st { sp = st.sp - 1; arr = set st.arr (st.sp - 1) x },
    ground (arith, length-contents st v),
    ground (arith, length-set st.arr (st.sp - 1) x),
    ground (arith, length-contents st v, drop_pred-set st.arr st.sp x),
    refl,
  )
]

-- `tss_pop` on a valid stack neither fails an assertion nor reads outside the array, and does what
-- `pop` does to the list of values: an empty stack is left as it is and -1 returned.
pub tss_pop_refines :
    (st : TStack) → IsValid st → Leaves st.capacity (pop (contents st)) (tss_pop st)
unfolding tss_pop
tss_pop_refines st v = elim (Bool-cases (st.sp == st.capacity)) [
  | inl empty ↦
      rw (drop_all st.sp st.arr (ground arith))
        (st, ground arith, v, drop_all st.sp st.arr (ground arith), refl)
  | inr more ↦
      let (x, at) = get_elem?_of_lt st.arr st.sp (ground arith) in
      rw (drop_of_get_elem? st.arr st.sp at)
        (record st { sp = st.sp + 1 }, ground arith, ground arith, rw add-one, refl)
]

-- A push where there is room.
pub tss_push_room :
    (st : TStack) (x : ℕ)
    → IsValid st
    → length (contents st) < st.capacity
    → Leaves st.capacity (x ∷ contents st, pos x) (tss_push st x)
tss_push_room st x v room =
    let ne : (length (contents st) == st.capacity) ≡ false = ground arith in
    rw ne at (tss_push_refines st x v)

-- With memory the stack is made.
pub tss_init_made : (n : ℕ) → (stk : TStack) × (tss_init true n ≡ some stk)
unfolding tss_init
tss_init_made n = (_, refl)
