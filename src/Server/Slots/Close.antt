-- ===== src/Server/Slots/Close.antt =====
-- Closing a connection gives its channel number back (core/server.c).
use gnuweeb_bot.Base.{
  ℕ, suc, ◌<◌, ◌≡◌, ◌≢◌, refl, sym, ap, ◌∙◌, some, true, false, ◌∷◌, arith, length, length-set,
  get_elem?, set, get_elem?-set_self, get_elem?-set_ne, lt_of_get_elem?, if◌then◌else◌, ◌==◌, ok,
}
use native.Mathlib.Decide.{ℕ_discrete}
use gnuweeb_bot.TStack.{TStack}
use gnuweeb_bot.TStack.Refine.{IsValid, contents, tss_push_room}
use gnuweeb_bot.Server.State.{
  State, Chan, success, epl_map_size, act, put_chan, close_fd, epoll_delete, reset_chan,
}
use gnuweeb_bot.Server.Client.{close_chan}
use gnuweeb_bot.Server.Slots.{SlotsOk, SlotsOk-act, NotIn, free-set, online-set, online-NotIn, bit}

-- A connection's channel goes offline and its number onto the stack.
SlotsOk-release :
    (st : State) (fd m : ℕ) (c : Chan) (stk : TStack)
    → SlotsOk st
    → get_elem? st.chans m ≡ some c
    → c.chan_fd ≡ some fd
    → c.is_online ≡ true
    → IsValid stk
    → contents stk ≡ m ∷ contents st.chan_stk
    → stk.capacity ≡ st.chan_stk.capacity
    → SlotsOk (record (put_chan st m (reset_chan c c.chan_idx)) {
      chan_stk = stk;
      epl_map = λ k. if k == fd then 0 else st.epl_map k;
    })
unfolding reset_chan
SlotsOk-release st fd m c stk s at serves on v e cap = record {
  valid = v;
  capacity = cap ∙ s.capacity;
  many = length-set st.chans m c' ∙ s.many;
  word = s.word;
  distinct = rw e (out, s.distinct);
  free = rw e ((c', put, refl), free-set st.chans m c' (contents st.chan_stk) out s.free);
  mapped = maps;
  numbered = knows;
  accounted = omega (arith, ap length e, online-set st.chans m c c' at, ap bit on, s.accounted);
}
  where
    c' : Chan
    c' = reset_chan c c.chan_idx

    out : NotIn m (contents st.chan_stk)
    out = online-NotIn st.chans m c (contents st.chan_stk) at on s.free

    put : get_elem? (set st.chans m c') m ≡ some c'
    put = get_elem?-set_self st.chans m c' (lt_of_get_elem? st.chans m at)

    idx : c'.chan_idx ≡ m
    idx = omega (arith, s.numbered m c at, lt_of_get_elem? st.chans m at, s.many, s.word)

    maps :
        (g k : ℕ)
        → (if g == fd then 0 else st.epl_map g) ≡ suc k
        → (d : Chan) × (get_elem? (set st.chans m c') k ≡ some d)
          × (d.chan_fd ≡ some g)
          × (d.is_online ≡ true)
    maps g k eq =
        let ne : g ≢ fd = λ q. ground arith in
        let (d, there, fd_d, on_d) = s.mapped g k (ground arith) in
        let far : m ≢ k = λ q. apart there fd_d ne q in
        (d, get_elem?-set_ne st.chans m k c' far ∙ there, fd_d, on_d)
      where
        apart : {d : Chan} → get_elem? st.chans k ≡ some d → d.chan_fd ≡ some g → g ≢ fd → m ≡ k → ⊥
        apart there fd_d ne q = ground arith

    knows : (k : ℕ) (d : Chan) → get_elem? (set st.chans m c') k ≡ some d → d.chan_idx ≡ k
    knows k d there = elim (ℕ_discrete m k) [
      | yes q ↦ ground (arith, put, idx)
      | no q ↦ s.numbered k d (sym (get_elem?-set_ne st.chans m k c' q) ∙ there)
    ]

-- Closing the connection of a mapped descriptor never crashes and keeps all in agreement: the
-- channel's number becomes the next free one, the descriptor is no longer mapped, and the last two
-- actions take it out of epoll and close it.
pub close_chan-SlotsOk :
    (st : State) (fd m : ℕ)
    → SlotsOk st
    → fd < epl_map_size
    → st.epl_map fd ≡ suc m
    → (st' : State) × (close_chan st m fd ≡ ok (st', success))
      × SlotsOk st'
      × (contents st'.chan_stk ≡ m ∷ contents st.chan_stk)
      × (st'.epl_map fd ≡ 0)
      × (st'.actions ≡ close_fd fd ∷ epoll_delete fd ∷ st.actions)
unfolding close_chan
close_chan-SlotsOk st fd m s small to =
    let (c, at, serves, on) = s.mapped fd m to in
    let idx = s.numbered m c at in
    let room : length (contents st.chan_stk) < st.chan_stk.capacity = omega (
      arith,
      online-set st.chans m c (record c { is_online = false }) at,
      ap bit on,
      s.accounted,
      s.capacity,
    ) in
    let (stk, pushed, v, e, cap) = tss_push_room st.chan_stk c.chan_idx s.valid room in
    let e' : contents stk ≡ m ∷ contents st.chan_stk =
      e ∙ ap (λ (k : ℕ). k ∷ contents st.chan_stk) idx in
    (
      act (close_fd fd) (
          act (epoll_delete fd) (record (put_chan st m (reset_chan c c.chan_idx)) {
            chan_stk = stk;
            epl_map = λ k. if k == fd then 0 else st.epl_map k;
          })),
      ground (arith, pushed),
      SlotsOk-act (close_fd fd) _
          (SlotsOk-act (epoll_delete fd) _ (SlotsOk-release st fd m c stk s at serves on v e' cap)),
      e',
      ground arith,
      refl,
    )
