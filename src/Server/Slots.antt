-- ===== src/Server/Slots.antt =====
-- The channels, the stack of free channel numbers and the epoll map agree (core/server.c).
pub mod Accept
pub mod Close
use gnuweeb_bot.Base.{
  ℕ, zero, suc, ◌+◌, ◌%◌, ◌^◌, ◌≤◌, ◌<◌, ◌≡◌, ◌≢◌, refl, sym, ap, ◌∙◌, ◌⊎◌, inl, inr, Bool, Option,
  none, some, true, false, List, [], ◌∷◌, arith, length, length-set, get_elem?, set,
  get_elem?-set_self, get_elem?-set_ne, lt_of_get_elem?, All, if◌then◌else◌, ◌==◌, ltb, leb, Bytes,
  Outcome, ok, ◌>>=◌, ◌>>◌, Bool-cases,
}
use gnuweeb_bot.Base.Int.{ℤ, pos, negsuc, minus_one}
use gnuweeb_bot.TStack.{TStack, tss_pop, tss_push}
use gnuweeb_bot.TStack.Refine.{
  IsValid, contents, tss_pop_refines, tss_push_refines, Leaves, pop, push,
}
use gnuweeb_bot.Server.State.{
  State, Chan, Ret, success, fail, Sys, done, failed, epl_map_size, act, put_chan, Action,
  reset_chan, close_fd, epoll_delete,
}

-- The number of connections.
abbrev pub online : List Chan → ℕ
online [] = 0
online (c ∷ cs) = if c.is_online then suc (online cs) else online cs

abbrev pub IsOffline : List Chan → ℕ → Type 0
IsOffline cs k = (c : Chan) × (get_elem? cs k ≡ some c) × (c.is_online ≡ false)

abbrev pub NotIn : ℕ → List ℕ → Type 0
NotIn k = All (λ j. j ≢ k)

abbrev pub Distinct : List ℕ → Type 0
Distinct [] = Unit
Distinct (k ∷ ks) = NotIn k ks × Distinct ks

-- Free numbers are distinct and name channels that are offline; a mapped descriptor leads to the
-- channel that is online for it; each channel knows its number; and the free numbers and the
-- connections are together no more than the channels.
pub record SlotsOk (st : State) : Type 0 where
  pub valid : IsValid st.chan_stk
  pub capacity : st.chan_stk.capacity ≡ st.thread_c
  pub many : length st.chans ≡ st.thread_c
  pub word : st.thread_c < 2 ^ 16
  pub distinct : Distinct (contents st.chan_stk)
  pub free : All (IsOffline st.chans) (contents st.chan_stk)
  pub mapped :
      (fd m : ℕ)
      → st.epl_map fd ≡ suc m
      → (c : Chan) × (get_elem? st.chans m ≡ some c) × (c.chan_fd ≡ some fd) × (c.is_online ≡ true)
  pub numbered : (m : ℕ) (c : Chan) → get_elem? st.chans m ≡ some c → c.chan_idx ≡ m
  pub accounted : length (contents st.chan_stk) + online st.chans ≤ st.thread_c

pub SlotsOk-act : (a : Action) (st : State) → SlotsOk st → SlotsOk (act a st)
SlotsOk-act a st s = record {
  valid = s.valid;
  capacity = s.capacity;
  many = s.many;
  word = s.word;
  distinct = s.distinct;
  free = s.free;
  mapped = s.mapped;
  numbered = s.numbered;
  accounted = s.accounted;
}

abbrev pub bit : Bool → ℕ
bit b = if b then 1 else 0

pub online-set :
    (cs : List Chan) (i : ℕ) (c c' : Chan)
    → get_elem? cs i ≡ some c
    → online (set cs i c') + bit c.is_online ≡ online cs + bit c'.is_online
online-set [] i c c' at = absurd (cc at)
online-set (x ∷ cs) zero c c' at = ground arith
online-set (x ∷ cs) (suc i) c c' at = ground (arith, online-set cs i c c' at)

-- A write to another channel leaves a free one offline.
pub free-set :
    (cs : List Chan) (i : ℕ) (c : Chan) (ks : List ℕ)
    → NotIn i ks
    → All (IsOffline cs) ks
    → All (IsOffline (set cs i c)) ks
free-set cs i c [] out f = tt
free-set cs i c (k ∷ ks) out f = (
  (f.0.0, get_elem?-set_ne cs i k c (λ e. out.0 (sym e)) ∙ f.0.1, f.0.2),
  free-set cs i c ks out.1 f.1,
)

-- An online channel is not free.
pub online-NotIn :
    (cs : List Chan) (m : ℕ) (c : Chan) (ks : List ℕ)
    → get_elem? cs m ≡ some c
    → c.is_online ≡ true
    → All (IsOffline cs) ks
    → NotIn m ks
online-NotIn cs m c [] at on f = tt
online-NotIn cs m c (k ∷ ks) at on f = ((λ e. online_ne e f.0), online-NotIn cs m c ks at on f.1)
  where
    online_ne : k ≡ m → IsOffline cs k → ⊥
    online_ne e (d, there, off) = ground arith

-- Taking a number off the stack keeps the agreement.
pub SlotsOk-pop :
    (st : State) (j : ℕ) (js : List ℕ) (stk : TStack)
    → SlotsOk st
    → contents st.chan_stk ≡ j ∷ js
    → IsValid stk
    → contents stk ≡ js
    → stk.capacity ≡ st.chan_stk.capacity
    → SlotsOk (record st { chan_stk = stk }) × IsOffline st.chans j × NotIn j js
SlotsOk-pop st j js stk s e v c cap = (
  record {
    valid = v;
    capacity = cap ∙ s.capacity;
    many = s.many;
    word = s.word;
    distinct = rw c (d.1);
    free = rw c (f.1);
    mapped = s.mapped;
    numbered = s.numbered;
    accounted = omega (arith, ap length e, ap length c, s.accounted);
  },
  f.0,
  d.0,
)
  where
    d : Distinct (j ∷ js)
    d = rw e at s.distinct

    f : All (IsOffline st.chans) (j ∷ js)
    f = rw e at s.free
