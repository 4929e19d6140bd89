-- ===== src/Server/Threads/Kept.antt =====
-- In every order of the steps, the event of a thread is its own until it has finished.
use gnuweeb_bot.Base.{
  ℕ, zero, suc, ◌+◌, ◌^◌, ◌<◌, ◌≡◌, refl, ap, ◌∙◌, true, some, [], arith, length, get_elem?,
  lt_of_get_elem?,
}
use gnuweeb_bot.Server.State.{State, Thread}
use gnuweeb_bot.Server.Setup.{new_threads, zero_thread, reset_thread}
use gnuweeb_bot.Server.NewChans.{upto-Distinct, upto-All}
use gnuweeb_bot.Server.Started.{Ready}
use gnuweeb_bot.Server.Threads.{
  LoopStep, submits, dispatches, WorkerStep, begins, finishes, ends, Steps, here, by_loop,
  by_worker, elsewhere,
}
use gnuweeb_bot.Server.Threads.Idle.{IsIdle, ThreadsOk}
use gnuweeb_bot.Server.Threads.Moves.{Handed, Only, submit_event-Handed, dispatch_sqe-Handed}
use gnuweeb_bot.Server.Threads.Workers.{
  begin_wait-ThreadsOk, end_thread-ThreadsOk, finish_event-ThreadsOk,
}

new_threads_at :
    (i n k : ℕ) → k < n → get_elem? (new_threads i n) k ≡ some (reset_thread zero_thread (i + k))
unfolding new_threads
new_threads_at i zero k lt = absurd (omega arith)
new_threads_at i (suc n) zero lt = ap (λ (j : ℕ). some (reset_thread zero_thread j)) (omega arith)
new_threads_at i (suc n) (suc k) lt =
    new_threads_at (i + 1) n k (omega arith)
    ∙ ap (λ (j : ℕ). some (reset_thread zero_thread j)) (omega arith)

length-new_threads : (i n : ℕ) → length (new_threads i n) ≡ n
unfolding new_threads
length-new_threads i zero = refl
length-new_threads i (suc n) = ap suc (length-new_threads (i + 1) n)

new_threads-numbered :
    (n m : ℕ) (t : Thread) → n < 2 ^ 16 → get_elem? (new_threads 0 n) m ≡ some t → t.thread_idx ≡ m
new_threads-numbered n m t w at =
    let lt : m < n =
      omega (arith, lt_of_get_elem? (new_threads 0 n) m at, length-new_threads 0 n) in
    let made = new_threads_at 0 n m lt in ground arith

-- After the set-up all threads are free.
Ready-ThreadsOk : (st : State) → Ready st → ThreadsOk st.threads st.thread_stk
Ready-ThreadsOk st r = rw r.new (record {
  valid = r.valid;
  distinct = rw r.free_threads (upto-Distinct st.thread_c [] tt tt);
  idle = rw r.free_threads (
      upto-All (IsIdle (new_threads 0 st.thread_c)) st.thread_c st.thread_c []
        (λ k lt. (reset_thread zero_thread (0 + k), new_threads_at 0 st.thread_c k lt, refl))
        (omega arith) tt);
  numbered = λ m t at. new_threads-numbered st.thread_c m t r.slots.word at;
  word = omega (arith, length-new_threads 0 st.thread_c, r.slots.word);
})

loop-Handed :
    (st st' : State)
    → ThreadsOk st.threads st.thread_stk
    → LoopStep st st'
    → Handed st.threads st'.threads st'.thread_stk
loop-Handed st st' s (submits env chan n ret small run) =
    submit_event-Handed env st chan n st' ret s small run
loop-Handed st st' s (dispatches answer run) = dispatch_sqe-Handed answer st st' s run

worker-ThreadsOk :
    (st st' : State)
    → ThreadsOk st.threads st.thread_stk
    → WorkerStep st st'
    → ThreadsOk st'.threads st'.thread_stk
worker-ThreadsOk st st' s (begins i run) = Only.only (begin_wait-ThreadsOk st i s) st' run
worker-ThreadsOk st st' s (finishes i t goes at on run) =
    Only.only (finish_event-ThreadsOk st i t s at on) (st', goes) run
worker-ThreadsOk st st' s (ends i run) = Only.only (end_thread-ThreadsOk st i s) st' run

reached-ThreadsOk :
    (st st' : State)
    → ThreadsOk st.threads st.thread_stk
    → Steps st st'
    → ThreadsOk st'.threads st'.thread_stk
reached-ThreadsOk st st' s here = s
reached-ThreadsOk st st' s (by_loop {st₁ = st₁} l rest) =
    reached-ThreadsOk st₁ st' (Handed.threads_ok (loop-Handed st st₁ s l)) rest
reached-ThreadsOk st st' s (by_worker {st₁ = st₁} w rest) =
    reached-ThreadsOk st₁ st' (worker-ThreadsOk st st₁ s w) rest
reached-ThreadsOk st st' s (elsewhere {st₁ = st₁} ts stk rest) =
    let s₁ : ThreadsOk st₁.threads st₁.thread_stk = rw (ts, stk) s in
    reached-ThreadsOk st₁ st' s₁ rest

-- From the set-up on, in every interleaving of the event loop and the workers, the free thread numbers
-- are distinct and name threads that have no event, and each thread has its own number.
pub Steps-ThreadsOk :
    (st st' : State) → Ready st → Steps st st' → ThreadsOk st'.threads st'.thread_stk
Steps-ThreadsOk st st' r steps = reached-ThreadsOk st st' (Ready-ThreadsOk st r) steps

-- Whatever has happened since the set-up, the record of a thread that has an event is unchanged when
-- the event loop submits or dispatches another one: its flags, what its own buffer holds of a packet
-- and, for an event from the queue, the address of the node.
pub LoopStep-keeps :
    (st st₁ st' : State) (k : ℕ) (t : Thread)
    → Ready st
    → Steps st st₁
    → LoopStep st₁ st'
    → get_elem? st₁.threads k ≡ some t
    → t.has_event ≡ true
    → get_elem? st'.threads k ≡ some t
LoopStep-keeps st st₁ st' k t r steps l at on =
    Handed.keeps (loop-Handed st₁ st' (Steps-ThreadsOk st st₁ r steps) l) k t at on
