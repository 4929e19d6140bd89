-- ===== src/Server/Accept.antt =====
-- New connections, and the dispatch of epoll's events (core/server.c).
use gnuweeb_bot.Base.{
  ℕ, ◌+◌, ◌-◌, ◌%◌, ◌^◌, Bool, true, false, ◌&&◌, Option, none, some, List, [], ◌∷◌, ltb, leb, ◌==◌,
  if◌then◌else◌, take, Bytes, Outcome, ok, out_of_bounds, check, ◌>>=◌, ◌>>◌,
}
use gnuweeb_bot.Base.Int.{ℤ, pos, negsuc}
use gnuweeb_bot.TStack.{tss_pop}
use gnuweeb_bot.Server.State.{
  State, Chan, Ret, success, fail, Sys, done, failed, eagain, einval, eoverflow, enetdown,
  epl_map_size, ipv4_l, act, load_chan, put_chan, close_fd, epoll_add, shutdown_fd,
}
use gnuweeb_bot.Server.Submit.{SubmitEnv}
use gnuweeb_bot.Server.Client.{Incoming, handle_client_event}

-- What the system answers to `run_acceptor`: `accept`, whether the address is longer than expected,
-- the printed address (`none` where `inet_ntop` fails), the port, the time, `epoll_ctl`.
pub record AcceptEnv : Type 0 where
  pub accept : Sys ℕ
  pub addr_too_long : Bool
  pub ntop : Option Bytes
  pub src_port : ℕ
  pub time : Sys ℕ
  pub epoll_ctl : Sys (Unit {0})

-- `out_close` of `run_acceptor`.
abbrev pub refuse : State → ℕ → ℕ → Outcome (State × Ret)
refuse st fd e = ok (act (close_fd fd) st, fail e)

-- The channel `i` is filled in.
unfoldable pub register : AcceptEnv → State → ℕ → ℕ → Bytes → ℕ → Outcome (State × Ret)
register env st fd i ip now = do
  chan ← load_chan st i
  check (ltb fd epl_map_size) out_of_bounds
  let chan' = record chan {
    chan_fd = some fd;
    chan_idx = i % 2 ^ 16;
    accepted_at = now;
    recv_s = 0;
    src_port = env.src_port;
    is_online = true;
    src_ip = take ipv4_l ip;
  }
  ok (
    record (put_chan st i chan') {
      epl_map = λ k. if k == fd then (i + 1) % 2 ^ 16 else st.epl_map k;
      active_chan = (st.active_chan + 1) % 2 ^ 32;
    },
    success,
  )

unfoldable pub accept_epoll :
    AcceptEnv → State → ℕ → ℕ → Bytes → ℕ → Sys (Unit {0}) → Outcome (State × Ret)
unfolding register
accept_epoll env st fd i ip now (failed e) = refuse (act (epoll_add fd) st) fd e
accept_epoll env st fd i ip now (done _) = register env (act (epoll_add fd) st) fd i ip now

unfoldable pub accept_time : AcceptEnv → State → ℕ → ℕ → Bytes → Sys ℕ → Outcome (State × Ret)
unfolding accept_epoll
accept_time env st fd i ip (failed e) = refuse st fd e
accept_time env st fd i ip (done now) = accept_epoll env st fd i ip now env.epoll_ctl

-- At the popped channel number, -1 where no channel is free.
unfoldable pub accept_slot : AcceptEnv → State → ℕ → Bytes → ℤ → Outcome (State × Ret)
unfolding accept_time
accept_slot env st fd ip (negsuc n) = refuse st fd eagain
accept_slot env st fd ip (pos i) =
    if leb epl_map_size (i + 1) then refuse st fd eagain else accept_time env st fd i ip env.time

unfoldable pub accept_from : AcceptEnv → State → ℕ → Option Bytes → Outcome (State × Ret)
unfolding accept_slot
accept_from env st fd none = refuse st fd einval
accept_from env st fd (some ip) = do
  (stk, popped) ← tss_pop st.chan_stk
  accept_slot env (record st { chan_stk = stk }) fd ip popped

unfoldable pub accept_fd : AcceptEnv → State → Sys ℕ → Outcome (State × Ret)
unfolding accept_from
accept_fd env st (failed e) = ok (st, fail e)
accept_fd env st (done fd) =
    if env.addr_too_long then refuse st fd eoverflow else accept_from env st fd env.ntop

unfoldable pub run_acceptor : AcceptEnv → State → Outcome (State × Ret)
unfolding accept_fd
run_acceptor env st = accept_fd env st env.accept

unfoldable pub handle_tcp_event : AcceptEnv → State → Bool → Outcome (State × Ret)
handle_tcp_event env st err_evt = if err_evt then ok (st, fail enetdown) else run_acceptor env st

-- One event of `epoll_wait`, with what the system answers while it is handled.
pub record Event : Type 0 where
  pub fd : ℕ
  pub err_evt : Bool
  pub on_accept : AcceptEnv
  pub on_recv : Incoming
  pub on_submit : SubmitEnv

abbrev pub is_fd : Option ℕ → ℕ → Bool
is_fd none fd = false
is_fd (some tcp) fd = fd == tcp

unfoldable pub handle_event : Event → State → Outcome (State × Ret)
handle_event ev st =
    if is_fd st.tcp_fd ev.fd
    then handle_tcp_event ev.on_accept st ev.err_evt
    else handle_client_event ev.on_submit ev.on_recv ev.fd st ev.err_evt

unfoldable pub handle_events : List Event → State → Outcome (State × Ret)
handle_events [] st = ok (st, success)
handle_events (ev ∷ evs) st = do
  (st', ret) ← handle_event ev st
  elim ret [ success ↦ handle_events evs st' | fail e ↦ ok (st', fail e) ]

abbrev pub shut : Option ℕ → State → State
shut none st = st
shut (some fd) st = act (shutdown_fd fd) st

-- The loop of `monitor_client_time`, over the channels; `time_t` differences below 0 are 0 here,
-- which the test treats alike.
unfoldable pub monitor_chans : ℕ → List Chan → State → State
monitor_chans now [] st = st
monitor_chans now (c ∷ cs) st =
    monitor_chans now cs
      (if c.is_online && ltb 10 (now - c.accepted_at) then shut c.chan_fd st else st)

unfoldable pub monitor_client_time : Sys ℕ → State → State × Ret
unfolding monitor_chans
monitor_client_time (failed e) st = (st, fail e)
monitor_client_time (done now) st = (monitor_chans now st.chans st, success)
