-- ===== src/Server/Setup.antt =====
-- What is checked and set up before the event loop starts (core/server.c).
use gnuweeb_bot.Base.{
  ℕ, zero, suc, ◌+◌, ◌%◌, ◌^◌, Bool, true, false, Option, none, some, List, [], ◌∷◌, ◌==◌,
  if◌then◌else◌, Bytes, get_or, Outcome, ok, assertion, check, ◌>>=◌, ◌>>◌,
}
use gnuweeb_bot.Base.Int.{ℤ, pos, negsuc}
use gnuweeb_bot.TStack.{TStack, tss_init, tss_push}
use gnuweeb_bot.Que.{que_init, null}
use gnuweeb_bot.Server.State.{State, Chan, Thread, Ret, success, fail, einval, reset_chan}

-- `struct gwbot_cfg`, as far as it is checked; `none` is NULL.
pub record Cfg : Type 0 where
  pub bind_addr : Option Bytes
  pub bind_port : ℕ
  pub backlog : ℤ
  pub token : Option Bytes
  pub thread_c : ℕ
  pub use_db : Bool
  pub mysql_host : Option Bytes
  pub mysql_user : Option Bytes
  pub mysql_db : Option Bytes

abbrev pub is_null : Option Bytes → Bool
is_null none = true
is_null (some s) = false

-- `s == NULL || *s == '\0'`
abbrev pub is_empty : Option Bytes → Bool
is_empty none = true
is_empty (some s) = get_or s 0 0 == 0

abbrev pub is_zero : ℤ → Bool
is_zero (pos n) = n == 0
is_zero (negsuc n) = false

unfoldable pub validate_mysql_cfg : Cfg → Ret
validate_mysql_cfg cfg =
    if is_null cfg.mysql_host
    then fail einval
    else if is_null cfg.mysql_user
    then fail einval
    else if is_null cfg.mysql_db
    then fail einval
    else success

unfoldable pub validate_cfg : Cfg → Ret
unfolding validate_mysql_cfg
validate_cfg cfg =
    if is_empty cfg.bind_addr
    then fail einval
    else if cfg.bind_port == 0
    then fail einval
    else if is_zero cfg.backlog
    then fail einval
    else if is_empty cfg.token
    then fail einval
    else if cfg.thread_c == 0
    then fail einval
    else if cfg.use_db
    then validate_mysql_cfg cfg
    else success

-- What the system answers while the state is set up: whether memory is found for the channels, the
-- threads, the epoll map and the two stacks; and what the initialisation of each thread's lock and
-- condition and of the five of the state returns.
pub record InitEnv : Type 0 where
  pub chans_ok : Bool
  pub threads_ok : Bool
  pub map_ok : Bool
  pub chan_stk_ok : Bool
  pub thread_stk_ok : Bool
  pub thread_lock : ℕ → Ret
  pub thread_cond : ℕ → Ret
  pub locks : List Ret

abbrev pub enomem : ℕ
enomem = 12

-- `calloc` of a channel and of a thread: all 0.
abbrev pub zero_chan : Chan
zero_chan = record {
  is_online = false;
  chan_fd = some 0;
  chan_idx = 0;
  src_port = 0;
  src_ip = [];
  accepted_at = 0;
  recv_s = 0;
  raw_buf = λ _. 0;
}

abbrev pub zero_thread : Thread
zero_thread = record {
  thread_idx = 0;
  is_online = false;
  has_event = false;
  ev_from_sqe = false;
  pkt_len = 0;
  sqe_node = null;
  raw_buf = λ _. 0;
}

-- The loop of `init_state_chans`, from the number `i` on, for `n` channels.
unfoldable pub new_chans : ℕ → ℕ → List Chan
unfolding reset_chan
new_chans i zero = []
new_chans i (suc n) = reset_chan zero_chan i ∷ new_chans (i + 1) n

unfoldable pub init_state_chans : InitEnv → State → State × Ret
unfolding new_chans
init_state_chans env st =
    if env.chans_ok then (record st { chans = new_chans 0 st.thread_c }, success) else (st, fail 1)

abbrev pub reset_thread : Thread → ℕ → Thread
reset_thread t i = record t {
  thread_idx = i % 2 ^ 16;
  is_online = false;
  has_event = false;
  ev_from_sqe = false;
  pkt_len = 0;
  sqe_node = null;
}

-- The error of the first initialisation that fails, in the order given.
abbrev pub first_fail : List Ret → Ret
first_fail [] = success
first_fail (success ∷ rs) = first_fail rs
first_fail (fail e ∷ rs) = fail e

-- The loop of `init_state_threads`: the threads, and the answers in the order in which they come.
unfoldable pub new_threads : ℕ → ℕ → List Thread
new_threads i zero = []
new_threads i (suc n) = reset_thread zero_thread i ∷ new_threads (i + 1) n

unfoldable pub thread_answers : InitEnv → ℕ → ℕ → List Ret
thread_answers env i zero = []
thread_answers env i (suc n) = env.thread_lock i ∷ env.thread_cond i ∷ thread_answers env (i + 1) n

-- `state->threads` is set only if all initialisations succeed.
unfoldable pub init_state_threads : InitEnv → State → State × Ret
unfolding new_threads thread_answers
init_state_threads env st =
    if env.threads_ok
    then (elim (first_fail (thread_answers env 0 st.thread_c)) [
      | success ↦ (record st { threads = new_threads 0 st.thread_c }, success)
      | fail e ↦ (st, fail e)
    ])
    else (st, fail enomem)

unfoldable pub init_epl_map : InitEnv → State → State × Ret
init_epl_map env st =
    if env.map_ok then (record st { epl_map = λ _. 0 }, success) else (st, fail enomem)

-- `TASSERT(ret == i)`
abbrev pub is_pos : ℤ → ℕ → Bool
is_pos (pos n) i = n == i
is_pos (negsuc n) i = false

-- The loop that makes all channels and threads free, the numbers from `n - 1` down to 0.
unfoldable pub push_all : ℕ → State → Outcome State
push_all zero st = ok st
push_all (suc i) st = do
  (chan_stk, ret) ← tss_push st.chan_stk (i % 2 ^ 16)
  check (is_pos ret i) assertion
  (thread_stk, ret') ← tss_push st.thread_stk (i % 2 ^ 16)
  check (is_pos ret' i) assertion
  push_all i (record st { chan_stk = chan_stk; thread_stk = thread_stk })

-- What follows a call that returns non-zero on failure.
abbrev pub then_init : State × Ret → (State → Outcome (State × Ret)) → Outcome (State × Ret)
then_init (st, success) next = next st
then_init (st, fail e) next = ok (st, fail e)

abbrev pub alloc_stk :
    Option TStack → State → (TStack → Outcome (State × Ret)) → Outcome (State × Ret)
alloc_stk none st next = ok (st, fail enomem)
alloc_stk (some stk) st next = next stk

-- From the stacks on; `que_init` never fails.
unfoldable pub init_stacks : InitEnv → State → Outcome (State × Ret)
unfolding push_all
init_stacks env st = alloc_stk (tss_init env.chan_stk_ok st.thread_c) st λ chan_stk.
    let st₁ = record st { chan_stk = chan_stk } in
    alloc_stk (tss_init env.thread_stk_ok st.thread_c) st₁ λ thread_stk.
      let st₂ = record st₁ { thread_stk = thread_stk; sqes = que_init st.sqes 100000 } in
      elim (first_fail env.locks) [
        | fail e ↦ ok (st₂, fail e)
        | success ↦ (do st₃ ← push_all st.thread_c st₂; ok (st₃, success))
      ]

unfoldable pub init_state : InitEnv → State → Outcome (State × Ret)
unfolding init_state_chans init_state_threads init_epl_map init_stacks
init_state env st =
    let st₀ = record st {
      stop_el = false;
      tcp_fd = none;
      epl_fd = none;
      chans = [];
      threads = [];
      active_chan = 0;
    } in
    then_init (init_state_chans env st₀) λ st₁.
      then_init (init_state_threads env st₁)
        λ st₂. then_init (init_epl_map env st₂) (init_stacks env)
