-- ===== src/Server/Threads/Idle.antt =====
-- The threads and the stack of free thread numbers agree.
use gnuweeb_bot.Base.{
  ℕ, ◌^◌, ◌≤◌, ◌<◌, ◌≡◌, sym, ap, ◌∙◌, true, false, some, List, [], ◌∷◌, arith, length, length-set,
  get_elem?, set, get_elem?-set_self, get_elem?-set_ne, lt_of_get_elem?, All,
}
use native.Mathlib.Decide.{ℕ_discrete}
use gnuweeb_bot.TStack.{TStack}
use gnuweeb_bot.TStack.Refine.{IsValid, contents}
use gnuweeb_bot.Server.State.{Thread}
use gnuweeb_bot.Server.Slots.{NotIn, Distinct}

-- The thread exists and has no event.
abbrev pub IsIdle : List Thread → ℕ → Type 0
IsIdle ts k = (t : Thread) × (get_elem? ts k ≡ some t) × (t.has_event ≡ false)

-- The free numbers are distinct and name threads without an event, and each thread knows its number.
pub record ThreadsOk (ts : List Thread) (stk : TStack) : Type 0 where
  pub valid : IsValid stk
  pub distinct : Distinct (contents stk)
  pub idle : All (IsIdle ts) (contents stk)
  pub numbered : (m : ℕ) (t : Thread) → get_elem? ts m ≡ some t → t.thread_idx ≡ m
  pub word : length ts ≤ 2 ^ 16

-- A write to a thread that is not free.
pub IsIdle-set :
    (ts : List Thread) (i : ℕ) (t : Thread) (ks : List ℕ)
    → NotIn i ks
    → All (IsIdle ts) ks
    → All (IsIdle (set ts i t)) ks
IsIdle-set ts i t [] out f = tt
IsIdle-set ts i t (k ∷ ks) out f = (
  (f.0.0, get_elem?-set_ne ts i k t (λ e. out.0 (sym e)) ∙ f.0.1, f.0.2),
  IsIdle-set ts i t ks out.1 f.1,
)

-- A write that leaves the thread without an event.
pub IsIdle-set_off :
    (ts : List Thread) (i : ℕ) (t : Thread) (ks : List ℕ)
    → t.has_event ≡ false
    → All (IsIdle ts) ks
    → All (IsIdle (set ts i t)) ks
IsIdle-set_off ts i t [] off f = tt
IsIdle-set_off ts i t (k ∷ ks) off f = (one (ℕ_discrete i k) f.0, IsIdle-set_off ts i t ks off f.1)
  where
    one : Dec (i ≡ k) → IsIdle ts k → IsIdle (set ts i t) k
    one (yes e) (d, at, idle) = (
      t,
      ap (get_elem? (set ts i t)) (sym e)
          ∙ get_elem?-set_self ts i t (ground (arith, lt_of_get_elem? ts k at)),
      off,
    )
    one (no ne) (d, at, idle) = (d, get_elem?-set_ne ts i k t ne ∙ at, idle)

-- A thread with an event is not free.
pub busy-NotIn :
    (ts : List Thread) (i : ℕ) (t : Thread) (ks : List ℕ)
    → get_elem? ts i ≡ some t
    → t.has_event ≡ true
    → All (IsIdle ts) ks
    → NotIn i ks
busy-NotIn ts i t [] at on f = tt
busy-NotIn ts i t (k ∷ ks) at on f = ((λ e. busy_ne e f.0), busy-NotIn ts i t ks at on f.1)
  where
    busy_ne : k ≡ i → IsIdle ts k → ⊥
    busy_ne e (d, there, off) = ground arith

some_injective : {A : Type 0} {a b : A} → some a ≡ some b → a ≡ b
some_injective q = cc

pub numbered-set :
    (ts : List Thread) (i : ℕ) (t : Thread)
    → ((m : ℕ) (d : Thread) → get_elem? ts m ≡ some d → d.thread_idx ≡ m)
    → t.thread_idx ≡ i
    → (m : ℕ) (d : Thread) → get_elem? (set ts i t) m ≡ some d
    → d.thread_idx ≡ m
numbered-set ts i t numbered own m d at = one (ℕ_discrete i m)
  where
    one : Dec (i ≡ m) → d.thread_idx ≡ m
    one (yes e) =
        let inside : i < length ts =
          omega (arith, e, lt_of_get_elem? (set ts i t) m at, length-set ts i t) in
        let same : t ≡ d =
          some_injective
            (sym (get_elem?-set_self ts i t inside) ∙ ap (get_elem? (set ts i t)) e ∙ at) in
        sym (ap (λ (x : Thread). x.thread_idx) same) ∙ own ∙ e
    one (no ne) = numbered m d (sym (get_elem?-set_ne ts i m t ne) ∙ at)
