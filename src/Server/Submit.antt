-- ===== src/Server/Submit.antt =====
-- Handing a packet to a thread, or to the queue where all threads are busy (core/server.c).
use gnuweeb_bot.Base.{
  ℕ, ◌+◌, ◌*◌, Bool, true, false, [], ◌∷◌, ltb, ◌==◌, if◌then◌else◌, Bytes, Outcome, ok, aborted,
  out_of_bounds, check, ◌>>=◌, ◌>>◌,
}
use gnuweeb_bot.Base.Int.{ℤ, pos, negsuc}
use gnuweeb_bot.TStack.{tss_pop}
use gnuweeb_bot.Que.{Ptr, null, Enqueued, enqueued, refused, que_enqueue, que_dequeue, load}
use gnuweeb_bot.Server.State.{
  State, Chan, Ret, success, fail, Sys, done, failed, raw_size, data_offset, store_bytes,
  load_bytes, act, load_thread, put_thread, signal_thread, spawn_thread,
}

-- What the system answers while a packet is handed over: the memory that `aligned_alloc` finds, and
-- the result of `pthread_create`.
pub record SubmitEnv : Type 0 where
  pub node : Ptr
  pub pthread_create : Sys (Unit {0})

unfoldable pub spawned : Sys (Unit {0}) → Ret
spawned (done _) = success
spawned (failed e) = fail e

-- Signal the thread that is online, or start it.
unfoldable pub wake : State → ℕ → Bool → Sys (Unit {0}) → State × Ret
unfolding spawned
wake st i true answer = (act (signal_thread i) st, success)
wake st i false answer = (act (spawn_thread i) st, spawned answer)

unfoldable pub submit_to_thread : SubmitEnv → State → ℕ → Chan → ℕ → Outcome (State × Ret)
submit_to_thread env st i chan cpy_len = do
  thread ← load_thread st i
  check (ltb cpy_len raw_size) out_of_bounds
  let copied = store_bytes thread.raw_buf 0 (load_bytes chan.raw_buf 0 cpy_len)
  let thread' = record thread {
    ev_from_sqe = false;
    has_event = true;
    pkt_len = cpy_len;
    raw_buf = store_bytes copied cpy_len (0 ∷ []);
  }
  ok (wake (put_thread st i thread') i thread.is_online env.pthread_create)

unfoldable pub queued : Enqueued → Ret
queued (enqueued p) = success
queued (refused e) = fail e

unfoldable pub enqueue_to_sqe : SubmitEnv → State → Chan → ℕ → Outcome (State × Ret)
unfolding queued
enqueue_to_sqe env st chan cpy_len = do
  (q, r) ← que_enqueue st.sqes env.node (load_bytes chan.raw_buf 0 cpy_len) cpy_len
  ok (record st { sqes = q }, queued r)

-- The rest of `submit_event` at the popped thread number, -1 where no thread is free.
unfoldable pub submit_at : SubmitEnv → State → Chan → ℕ → ℤ → Outcome (State × Ret)
submit_at env st chan cpy_len (negsuc n) = enqueue_to_sqe env st chan cpy_len
submit_at env st chan cpy_len (pos i) = submit_to_thread env st i chan cpy_len

unfoldable pub submit_event : SubmitEnv → State → Chan → ℕ → Outcome (State × Ret)
unfolding submit_at
submit_event env st chan fdata_len = do
  (stk, popped) ← tss_pop st.thread_stk
  submit_at env (record st { thread_stk = stk }) chan (data_offset + fdata_len) popped

-- `memcpy(&pkt_len, node->data, sizeof(pkt_len))` on a little-endian host.
unfoldable pub host_u16 : Bytes → ℕ
host_u16 (lo ∷ hi ∷ _) = lo + hi * 256
host_u16 _ = 0

-- The rest of `dispatch_sqe` at the popped thread number.
unfoldable pub dispatch_at : Sys (Unit {0}) → State → ℤ → Outcome State
unfolding host_u16
dispatch_at answer st (negsuc n) = ok st
dispatch_at answer st (pos i) = do
  thread ← load_thread st i
  (q, p) ← que_dequeue st.sqes
  check (if p == null then false else true) aborted
  node ← load q p
  let thread' = record thread {
    ev_from_sqe = true;
    has_event = true;
    pkt_len = host_u16 node.data';
    sqe_node = p;
  }
  let (st', _) = wake (put_thread (record st { sqes = q }) i thread') i thread.is_online answer
  ok st'

unfoldable pub dispatch_sqe : Sys (Unit {0}) → State → Outcome State
unfolding dispatch_at
dispatch_sqe answer st = do
  (stk, popped) ← tss_pop st.thread_stk
  dispatch_at answer (record st { thread_stk = stk }) popped
