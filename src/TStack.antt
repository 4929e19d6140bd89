-- ===== src/TStack.antt =====
-- include/gwbot/lib/tstack.h: the bounded stack of free channel and thread numbers. The stack grows
-- down from the end of the array; `sp` is the index of its top.
pub mod Refine
mod Tests
use gnuweeb_bot.Base.{
  ℕ, ◌+◌, ◌-◌, Bool, Option, none, some, List, [], leb, ltb, ◌==◌, if◌then◌else◌, get_elem?, set,
  length, replicate, Outcome, ok, crash, assertion, out_of_bounds, check, ◌>>=◌, ◌>>◌,
}
use gnuweeb_bot.Base.Int.{ℤ, pos, minus_one}

-- `struct tstack`; `arr` is the allocated array.
pub record TStack : Type 0 where
  pub sp : ℕ
  pub capacity : ℕ
  pub arr : List ℕ

-- `calloc_ok` is whether `calloc` finds memory; `none` is the NULL result.
pub tss_init : (calloc_ok : Bool) → ℕ → Option TStack
tss_init calloc_ok capacity =
    if calloc_ok
    then some (record { sp = capacity; capacity = capacity; arr = replicate capacity 0 })
    else none

pub tss_count : TStack → Outcome ℕ
tss_count st = do check (leb st.sp st.capacity) assertion; ok (st.capacity - st.sp)

-- A write to `arr[i]`.
abbrev store : TStack → ℕ → ℕ → Outcome TStack
store st i val =
    if ltb i (length st.arr) then ok (record st { arr = set st.arr i val }) else crash out_of_bounds

-- A read of `arr[i]`.
abbrev load : TStack → ℕ → Outcome ℕ
load st i = elim (get_elem? st.arr i) [ none ↦ crash out_of_bounds | some v ↦ ok v ]

pub tss_push : TStack → ℕ → Outcome (TStack × ℤ)
tss_push st val = do
  check (leb st.sp st.capacity) assertion
  if st.sp == 0
      then ok (st, minus_one)
      else do st' ← store st (st.sp - 1) val; ok (record st' { sp = st.sp - 1 }, pos val)

unfoldable pub tss_pop : TStack → Outcome (TStack × ℤ)
tss_pop st = do
  check (leb st.sp st.capacity) assertion
  if st.sp == st.capacity
      then ok (st, minus_one)
      else do v ← load st st.sp; ok (record st { sp = st.sp + 1 }, pos v)

-- The array is freed: no cell of it may be accessed any more.
pub tss_destroy : TStack → TStack
tss_destroy st = record st { arr = [] }
