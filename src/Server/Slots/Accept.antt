-- ===== src/Server/Slots/Accept.antt =====
-- `run_acceptor` keeps the channels, the free numbers and the epoll map in agreement.
use gnuweeb_bot.Base.{
  ℕ, suc, ◌+◌, ◌%◌, ◌^◌, ◌≤◌, ◌<◌, ◌≡◌, ◌≢◌, refl, sym, ap, ◌∙◌, ◌⊎◌, inl, inr, Option, none, some,
  true, false, List, [], ◌∷◌, arith, length, length-set, get_elem?, set, get_elem?-set_self,
  get_elem?-set_ne, lt_of_get_elem?, if◌then◌else◌, ◌==◌, leb, take, Bytes, Outcome, ok, Bool-cases,
}
use gnuweeb_bot.Base.Int.{pos}
use native.Mathlib.Decide.{ℕ_discrete}
use gnuweeb_bot.TStack.Refine.{contents, tss_pop_refines}
use gnuweeb_bot.Server.State.{
  State, Chan, Ret, success, fail, Sys, done, failed, epl_map_size, ipv4_l, act, put_chan, Action,
  close_fd, epoll_add, eagain, einval, eoverflow,
}
use gnuweeb_bot.Server.Accept.{
  AcceptEnv, run_acceptor, refuse, accept_epoll, accept_time, accept_slot, accept_from, accept_fd,
}
use gnuweeb_bot.Server.Slots.{
  SlotsOk, SlotsOk-act, SlotsOk-pop, IsOffline, NotIn, free-set, online-set, online, bit,
}

-- What becomes of the descriptor that `accept` returned, if it returned one.
abbrev pub Settled : Sys ℕ → State → Ret → Type 0
Settled (failed e) st ret = ret ≡ fail e
Settled (done fd) st ret =
    ((ret ≡ success) × (m : ℕ) × (st.epl_map fd ≡ suc m))
    ⊎ ((e : ℕ) × (before : List Action) × (ret ≡ fail e) × (st.actions ≡ close_fd fd ∷ before))

-- The run ends without a crash in a state where all agrees.
abbrev pub Accepts : Sys ℕ → Outcome (State × Ret) → Type 0
Accepts answer o =
    (st : State) × (ret : Ret) × (o ≡ ok (st, ret)) × SlotsOk st × Settled answer st ret

refuse-Accepts : (st : State) (fd e : ℕ) → SlotsOk st → Accepts (done fd) (refuse st fd e)
refuse-Accepts st fd e s = (
  act (close_fd fd) st,
  fail e,
  refl,
  SlotsOk-act (close_fd fd) st s,
  inr (e, st.actions, refl, refl),
)

-- A free channel is given the descriptor.
SlotsOk-register :
    (st : State) (fd j active : ℕ) (c c' : Chan)
    → SlotsOk st
    → get_elem? st.chans j ≡ some c
    → c.is_online ≡ false
    → NotIn j (contents st.chan_stk)
    → length (contents st.chan_stk) + suc (online st.chans) ≤ st.thread_c
    → c'.is_online ≡ true
    → c'.chan_fd ≡ some fd
    → c'.chan_idx ≡ j
    → SlotsOk (record (put_chan st j c') {
      epl_map = λ k. if k == fd then (j + 1) % 2 ^ 16 else st.epl_map k;
      active_chan = active;
    })
SlotsOk-register st fd j active c c' s at off out room on serves idx = record {
  valid = s.valid;
  capacity = s.capacity;
  many = length-set st.chans j c' ∙ s.many;
  word = s.word;
  distinct = s.distinct;
  free = free-set st.chans j c' (contents st.chan_stk) out s.free;
  mapped = maps;
  numbered = knows;
  accounted = omega (arith, online-set st.chans j c c' at, ap bit off, ap bit on);
}
  where
    below : j < st.thread_c
    below = omega (arith, lt_of_get_elem? st.chans j at, s.many)

    put : get_elem? (set st.chans j c') j ≡ some c'
    put = get_elem?-set_self st.chans j c' (lt_of_get_elem? st.chans j at)

    other :
        (g m : ℕ)
        → st.epl_map g ≡ suc m
        → (d : Chan) × (get_elem? (set st.chans j c') m ≡ some d)
          × (d.chan_fd ≡ some g)
          × (d.is_online ≡ true)
    other g m e =
        let (d, there, fd_d, on_d) = s.mapped g m e in
        let ne : j ≢ m = λ q. online_free there on_d q in
        (d, get_elem?-set_ne st.chans j m c' ne ∙ there, fd_d, on_d)
      where
        online_free : {d : Chan} → get_elem? st.chans m ≡ some d → d.is_online ≡ true → j ≡ m → ⊥
        online_free there on_d q = ground arith

    maps :
        (g m : ℕ)
        → (if g == fd then (j + 1) % 2 ^ 16 else st.epl_map g) ≡ suc m
        → (d : Chan) × (get_elem? (set st.chans j c') m ≡ some d)
          × (d.chan_fd ≡ some g)
          × (d.is_online ≡ true)
    maps g m e = elim (ℕ_discrete g fd) [
      | yes q ↦ let mj : m ≡ j = ground (arith, s.word, below) in (c', rw mj put, rw q serves, on)
      | no q ↦ other g m (ground arith)
    ]

    knows : (m : ℕ) (d : Chan) → get_elem? (set st.chans j c') m ≡ some d → d.chan_idx ≡ m
    knows m d there = elim (ℕ_discrete j m) [
      | yes q ↦ ground (arith, put)
      | no q ↦ s.numbered m d (sym (get_elem?-set_ne st.chans j m c' q) ∙ there)
    ]

-- With a channel number taken off the stack.
accept_slot-Accepts :
    (env : AcceptEnv) (st : State) (fd j : ℕ) (ip : Bytes)
    → fd < epl_map_size
    → SlotsOk st
    → IsOffline st.chans j
    → NotIn j (contents st.chan_stk)
    → length (contents st.chan_stk) + suc (online st.chans) ≤ st.thread_c
    → Accepts (done fd) (accept_slot env st fd ip (pos j))
unfolding accept_slot
accept_slot-Accepts env st fd j ip small s (c, at, off) out room =
    elim (Bool-cases (leb epl_map_size (j + 1))) [
      | inl big ↦ rw big (refuse-Accepts st fd eagain s)
      | inr fits ↦ rw fits (timed env.time)
    ]
  where
    st₁ : State
    st₁ = act (epoll_add fd) st

    filled : ℕ → Chan
    filled now = record c {
      chan_fd = some fd;
      chan_idx = j % 2 ^ 16;
      accepted_at = now;
      recv_s = 0;
      src_port = env.src_port;
      is_online = true;
      src_ip = take ipv4_l ip;
    }

    below : suc j < 2 ^ 16
    below = omega (arith, lt_of_get_elem? st.chans j at, s.many, s.word)

    polled :
        (now : ℕ) (answer : Sys (Unit {0}))
        → Accepts (done fd) (accept_epoll env st fd j ip now answer)
    polled now (failed e) = refuse-Accepts st₁ fd e (SlotsOk-act (epoll_add fd) st s)
    polled now (done _) = (
      record (put_chan st₁ j (filled now)) {
        epl_map = λ k. if k == fd then (j + 1) % 2 ^ 16 else st.epl_map k;
        active_chan = (st.active_chan + 1) % 2 ^ 32;
      },
      success,
      ground arith,
      SlotsOk-register st₁ fd j ((st.active_chan + 1) % 2 ^ 32) c (filled now)
          (SlotsOk-act (epoll_add fd) st s) at off out room refl refl (omega (arith, below)),
      inl (refl, j, ground (arith, below)),
    )

    timed : (answer : Sys ℕ) → Accepts (done fd) (accept_time env st fd j ip answer)
    timed (failed e) = refuse-Accepts st fd e s
    timed (done now) = polled now env.epoll_ctl

accept_from-Accepts :
    (env : AcceptEnv) (st : State) (fd : ℕ) (ip : Bytes)
    → fd < epl_map_size
    → SlotsOk st
    → (xs : List ℕ) → contents st.chan_stk ≡ xs
    → Accepts (done fd) (accept_from env st fd (some ip))
unfolding accept_from
accept_from-Accepts env st fd ip small s [] e =
    let (stk, popped, v, c, cap) = rw e at (tss_pop_refines st.chan_stk s.valid) in
    rw popped (
      refuse-Accepts (record st { chan_stk = stk }) fd eagain
        (record {
          valid = v;
          capacity = cap ∙ s.capacity;
          many = s.many;
          word = s.word;
          distinct = rw c tt;
          free = rw c tt;
          mapped = s.mapped;
          numbered = s.numbered;
          accounted = omega (arith, ap length e, ap length c, s.accounted);
        }))
accept_from-Accepts env st fd ip small s (j ∷ js) e =
    let (stk, popped, v, c, cap) = rw e at (tss_pop_refines st.chan_stk s.valid) in
    let (s', off, out) = SlotsOk-pop st j js stk s e v c cap in
    rw popped (
      accept_slot-Accepts env (record st { chan_stk = stk }) fd j ip small s' off (rw c out)
        (omega (arith, ap length e, ap length c, s.accounted)))

-- From a state where all agrees `run_acceptor` never crashes and ends in one, whatever the system
-- answers, if the descriptor is an index of the epoll map: free channel numbers are distinct and name
-- channels that are offline, and a mapped descriptor leads to the channel that is online for it. A new
-- descriptor is then mapped, or the call fails and has closed it by its last action; where `accept`
-- fails its errno is returned.
pub run_acceptor-SlotsOk :
    (env : AcceptEnv) (st : State)
    → SlotsOk st
    → ((fd : ℕ) → env.accept ≡ done fd → fd < epl_map_size)
    → Accepts env.accept (run_acceptor env st)
unfolding run_acceptor
run_acceptor-SlotsOk env st s small = at_fd env.accept small
  where
    at_ip :
        (fd : ℕ) (answer : Option Bytes)
        → fd < epl_map_size
        → Accepts (done fd) (accept_from env st fd answer)
    at_ip fd none lt = refuse-Accepts st fd einval s
    at_ip fd (some ip) lt = accept_from-Accepts env st fd ip lt s (contents st.chan_stk) refl

    at_fd :
        (answer : Sys ℕ)
        → ((fd : ℕ) → answer ≡ done fd → fd < epl_map_size)
        → Accepts answer (accept_fd env st answer)
    at_fd (failed e) lt = (st, fail e, refl, s, refl)
    at_fd (done fd) lt = elim (Bool-cases env.addr_too_long) [
      | inl long ↦ rw long (refuse-Accepts st fd eoverflow s)
      | inr short ↦ rw short (at_ip fd env.ntop (lt fd refl))
    ]
