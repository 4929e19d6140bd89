-- ===== src/Server/Threads.antt =====
-- The event loop and the worker threads, step by step in any order (core/server.c).
pub mod Idle
pub mod Moves
pub mod Workers
pub mod Kept
mod Tests
use gnuweeb_bot.Base.{ℕ, ◌<◌, ◌≡◌, Bool, true, false, some, List, get_elem?, ok}
use gnuweeb_bot.Server.State.{State, Chan, Thread, Ret, Sys, data_bufsiz}
use gnuweeb_bot.Server.Submit.{SubmitEnv, submit_event, dispatch_sqe}
use gnuweeb_bot.Server.Loop.{begin_wait, finish_event, end_thread}

-- What the event loop does with the threads: it submits a packet that has arrived, or dispatches one
-- of the queue.
pub data LoopStep : State → State → Type 0 where
  submits :
      {st st' : State} (env : SubmitEnv) (chan : Chan) (n : ℕ) (ret : Ret)
      → n < data_bufsiz
      → submit_event env st chan n ≡ ok (st', ret)
      → LoopStep st st'
  dispatches :
      {st st' : State} (answer : Sys (Unit {0})) → dispatch_sqe answer st ≡ ok st' → LoopStep st st'

-- What a worker does between the points where it waits: it comes online, it finishes its event, or it
-- ends. It may end when its time is over, whether or not an event has come in the meantime.
pub data WorkerStep : State → State → Type 0 where
  begins : {st st' : State} (i : ℕ) → begin_wait st i ≡ ok st' → WorkerStep st st'
  finishes :
      {st st' : State} (i : ℕ) (t : Thread) (goes_on : Bool)
      → get_elem? st.threads i ≡ some t
      → t.has_event ≡ true
      → finish_event st i ≡ ok (st', goes_on)
      → WorkerStep st st'
  ends : {st st' : State} (i : ℕ) → end_thread st i ≡ ok st' → WorkerStep st st'

-- All that happens; what does not touch the threads (connections, signals) is a step as well.
pub data Steps : State → State → Type 0 where
  here : {st : State} → Steps st st
  by_loop : {st st₁ st' : State} → LoopStep st st₁ → Steps st₁ st' → Steps st st'
  by_worker : {st st₁ st' : State} → WorkerStep st st₁ → Steps st₁ st' → Steps st st'
  elsewhere :
      {st st₁ st' : State}
      → st₁.threads ≡ st.threads
      → st₁.thread_stk ≡ st.thread_stk
      → Steps st₁ st'
      → Steps st st'
