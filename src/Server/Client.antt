-- ===== src/Server/Client.antt =====
-- A connection's events: receiving a packet in parts, and closing (core/server.c).
use gnuweeb_bot.Base.{
  ℕ, ◌+◌, ◌-◌, ◌*◌, ◌/◌, ◌%◌, ◌^◌, Bool, true, false, ◌||◌, Option, none, some, [], ◌∷◌, ltb, ◌==◌,
  if◌then◌else◌, take, length, Bytes, Outcome, ok, crash, aborted, out_of_bounds, check, ◌>>=◌,
  ◌>>◌,
}
use gnuweeb_bot.TStack.{tss_push}
use gnuweeb_bot.Server.State.{
  State, Chan, Ret, success, fail, Sys, done, failed, e2big, eagain, einval, einprogress,
  data_bufsiz, data_offset, raw_size, epl_map_size, Memory, store_bytes, act, load_chan, put_chan,
  reset_chan, close_fd, epoll_delete,
}
use gnuweeb_bot.Server.Submit.{SubmitEnv, submit_event}

-- What the kernel holds for `recv`: bytes, of which it hands over as many as are asked for (none at
-- the end of the stream), or an errno.
abbrev pub Incoming : Type 0
Incoming = Sys Bytes

-- `ntohs(pkt->len)`
abbrev pub packet_len : Memory → ℕ
packet_len m = m 0 * 256 + m 1

-- `pkt->len = fdata_len; pkt->data[fdata_len] = '\0';` on a little-endian host.
abbrev pub seal_packet : Memory → ℕ → Memory
seal_packet m n = store_bytes (store_bytes m 0 (n % 256 ∷ n / 256 ∷ [])) (data_offset + n) (0 ∷ [])

-- The end of `handle_client_event3`, at a packet that is complete.
unfoldable pub complete : SubmitEnv → State → ℕ → Chan → ℕ → Outcome (State × Ret)
complete env st i chan fdata_len = do
  check (ltb (data_offset + fdata_len) raw_size) out_of_bounds
  let chan' = record chan { raw_buf = seal_packet chan.raw_buf fdata_len }
  (st', ret) ← submit_event env (put_chan st i chan') chan' fdata_len
  ok (st', elim ret [ success ↦ fail einprogress | fail e ↦ fail e ])

-- `i` is the channel's number.
unfoldable pub handle_client_event3 : SubmitEnv → State → ℕ → Chan → ℕ → Outcome (State × Ret)
unfolding complete
handle_client_event3 env st i chan recv_s =
    let chan' = record chan { recv_s = recv_s } in
    let st' = put_chan st i chan' in
    let fdata_len = packet_len chan'.raw_buf in
    let cdata_len = (recv_s - data_offset) % 2 ^ 16 in
    if ltb recv_s data_offset
    then ok (st', success)
    else if ltb data_bufsiz fdata_len
    then ok (st', fail e2big)
    else if ltb cdata_len fdata_len
    then ok (st', success)
    else if ltb fdata_len cdata_len
    then ok (st', fail einval)
    else complete env st' i chan' fdata_len

-- `out_close` of `handle_client_event2`; the channel is read anew.
unfoldable pub close_chan : State → ℕ → ℕ → Outcome (State × Ret)
close_chan st i fd = do
  chan ← load_chan st i
  (stk, _) ← tss_push st.chan_stk chan.chan_idx
  check (ltb fd epl_map_size) out_of_bounds
  let st₁ = record st { chan_stk = stk; epl_map = λ k. if k == fd then 0 else st.epl_map k }
  let st₂ = put_chan (act (epoll_delete fd) st₁) i (reset_chan chan chan.chan_idx)
  ok (act (close_fd fd) st₂, success)

-- What follows `handle_client_event3`.
unfoldable pub after_event : ℕ → ℕ → State × Ret → Outcome (State × Ret)
after_event i fd (st, success) = ok (st, success)
after_event i fd (st, fail e) = close_chan st i fd

-- What follows `recv`; `bytes` is what arrived.
unfoldable pub received : SubmitEnv → State → ℕ → ℕ → Chan → Bytes → Outcome (State × Ret)
unfolding after_event
received env st i fd chan [] = close_chan st i fd
received env st i fd chan (b ∷ bs) = do
  let chan' = record chan { raw_buf = store_bytes chan.raw_buf chan.recv_s (b ∷ bs) }
  r ← handle_client_event3 env (put_chan st i chan') i chan' (chan.recv_s + length (b ∷ bs))
  after_event i fd r

unfoldable pub receive : SubmitEnv → State → ℕ → ℕ → Chan → Incoming → Outcome (State × Ret)
unfolding received
receive env st i fd chan (failed e) = if e == eagain then ok (st, success) else close_chan st i fd
receive env st i fd chan (done bytes) =
    received env st i fd chan (take (raw_size - chan.recv_s) bytes)

abbrev pub is_closed : Option ℕ → Bool
is_closed none = true
is_closed (some fd) = false

-- `err_evt` is whether EPOLLERR or EPOLLHUP is among the events.
unfoldable pub handle_client_event2 :
    SubmitEnv → Incoming → ℕ → State → ℕ → Bool → Outcome (State × Ret)
unfolding receive
handle_client_event2 env inc fd st i err_evt = do
  chan ← load_chan st i
  if err_evt || is_closed chan.chan_fd then close_chan st i fd else receive env st i fd chan inc

unfoldable pub handle_client_event : SubmitEnv → Incoming → ℕ → State → Bool → Outcome (State × Ret)
handle_client_event env inc fd st err_evt = do
  check (ltb fd epl_map_size) out_of_bounds
  let map_to = st.epl_map fd
  if map_to == 0 then crash aborted else handle_client_event2 env inc fd st (map_to - 1) err_evt
