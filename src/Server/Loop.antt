-- ===== src/Server/Loop.antt =====
-- The event loop, its end, and the worker threads (core/server.c).
use gnuweeb_bot.Base.{
  ℕ, ◌+◌, ◌%◌, ◌^◌, Bool, true, false, ◌&&◌, ◌||◌, not, Option, none, some, List, [], ◌∷◌, ◌==◌,
  ltb, if◌then◌else◌, Outcome, ok, ◌>>=◌,
}
use gnuweeb_bot.TStack.{tss_count, tss_push}
use gnuweeb_bot.Que.{que_count, que_node_destroy, null}
use gnuweeb_bot.Server.State.{
  State, Chan, Ret, success, fail, Sys, done, failed, Action, close_fd, shutdown_fd, eagain,
  load_thread, put_thread, reset_chan,
}
use gnuweeb_bot.Server.Submit.{dispatch_sqe}
use gnuweeb_bot.Server.Accept.{Event, handle_events, monitor_client_time}
use gnuweeb_bot.Server.Setup.{reset_thread}

abbrev pub eintr : ℕ
eintr = 4

-- What happens in one round of the loop: whether a signal has arrived before it, and the answers of
-- `pthread_create`, `gettimeofday` and `epoll_wait`. No event is the timeout of `epoll_wait`.
pub record Round : Type 0 where
  pub signalled : Bool
  pub on_create : Sys (Unit {0})
  pub on_time : Sys ℕ
  pub on_wait : Sys (List Event)

-- `handle_interrupt`
abbrev pub handle_interrupt : Bool → State → State
handle_interrupt true st = record st { stop_el = true }
handle_interrupt false st = st

-- The part of a round before `epoll_wait`.
unfoldable pub before_wait : Round → State → Outcome State
before_wait r st = do
  st₁ ← if ltb 0 (que_count st.sqes) then dispatch_sqe r.on_create st else ok st
  count ← tss_count st₁.chan_stk
  ok (if not (count == st₁.chan_stk.capacity) then (monitor_client_time r.on_time st₁).0 else st₁)

-- Whether the loop ends by `break`, and `ret`.
pub data Next : Type 0 where
  go_on leave : Ret → Next

-- `ret` of `handle_events`: EAGAIN is passed over, any other error stops the loop.
abbrev pub after_events : State × Ret → State × Next
after_events (st, success) = (st, go_on success)
after_events (st, fail e) =
    if e == eagain then (st, go_on (fail e)) else (record st { stop_el = true }, go_on (fail e))

unfoldable pub after_wait : Sys (List Event) → State → Ret → Outcome (State × Next)
after_wait (done []) st ret = ok (st, go_on ret)
after_wait (done (ev ∷ evs)) st ret = do r ← handle_events (ev ∷ evs) st; ok (after_events r)
after_wait (failed e) st ret = if e == eintr then ok (st, go_on ret) else ok (st, leave ret)

-- The loop, as far as the rounds go.
unfoldable pub run_event_loop : List Round → State → Ret → Outcome (State × Ret)
unfolding before_wait after_wait
run_event_loop [] st ret = ok (st, ret)
run_event_loop (r ∷ rs) st ret =
    let st₁ = handle_interrupt r.signalled st in
    if st₁.stop_el then ok (st₁, ret) else do
      st₂ ← before_wait r st₁
      (st₃, next) ← after_wait r.on_wait st₂ ret
      elim next [ go_on ret' ↦ run_event_loop rs st₃ ret' | leave ret' ↦ ok (st₃, ret') ]

abbrev pub close_opt : Option ℕ → List Action → List Action
close_opt none as' = as'
close_opt (some fd) as' = close_fd fd ∷ as'

abbrev pub shut_close : Option ℕ → List Action → List Action
shut_close none as' = as'
shut_close (some fd) as' = close_fd fd ∷ shutdown_fd fd ∷ as'

-- The loop of `close_fds`: the channels afterwards, and the actions.
unfoldable pub close_chans : List Chan → List Action → List Chan × List Action
unfolding reset_chan
close_chans [] as' = ([], as')
close_chans (c ∷ cs) as' =
    let rest = close_chans cs (if c.is_online then shut_close c.chan_fd as' else as') in
    ((if c.is_online then reset_chan c c.chan_idx else c) ∷ rest.0, rest.1)

unfoldable pub close_fds : State → State
unfolding close_chans
close_fds st =
    let (cs, as') = close_chans st.chans (close_opt st.epl_fd (close_opt st.tcp_fd st.actions)) in
    record st { tcp_fd = none; epl_fd = none; chans = cs; actions = as' }

-- `handle_thread` from `again` to its first wait.
unfoldable pub begin_wait : State → ℕ → Outcome State
begin_wait st i = do
  thread ← load_thread st i
  ok (put_thread st i (record thread { is_online = true }))

-- One wait for an event: `counter` goes up where the second is over; the result is whether the
-- thread goes on, and the counter.
unfoldable pub wait_round : State → Bool → ℕ → Bool × ℕ
wait_round st timeout counter = (
  not ((timeout && counter == 300) || st.stop_el),
  (if timeout then (counter + 1) % 2 ^ 32 else counter),
)

-- From the return of `gwbot_event_handler` to `again`, or to `out` (false).
unfoldable pub finish_event : State → ℕ → Outcome (State × Bool)
finish_event st i = do
  thread ← load_thread st i
  q ← if thread.ev_from_sqe then que_node_destroy st.sqes thread.sqe_node else ok st.sqes
  let thread₁ = if thread.ev_from_sqe then record thread { sqe_node = null } else thread
  let st₁ = put_thread (record st { sqes = q }) i thread₁
  if st.stop_el then ok (st₁, false) else do
    (stk, _) ← tss_push st.thread_stk thread₁.thread_idx
    ok (put_thread (record st₁ { thread_stk = stk }) i (record thread₁ { has_event = false }), true)

-- `out` of `handle_thread`.
unfoldable pub end_thread : State → ℕ → Outcome State
end_thread st i = do
  thread ← load_thread st i
  ok (put_thread st i (reset_thread thread thread.thread_idx))
