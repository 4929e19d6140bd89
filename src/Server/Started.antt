-- ===== src/Server/Started.antt =====
-- The server is set up in a state where all agrees (core/server.c).
use gnuweeb_bot.Base.{
  ℕ, zero, suc, ◌+◌, ◌%◌, ◌^◌, ◌≤◌, ◌<◌, ◌≡◌, refl, ap, ◌∙◌, true, false, none, List, [], ◌∷◌, ◌==◌,
  ==_iff, length, ok, arith,
}
use gnuweeb_bot.Base.Int.{pos}
use gnuweeb_bot.TStack.{TStack, tss_push}
use gnuweeb_bot.TStack.Refine.{IsValid, contents, tss_push_room, tss_init_lem, tss_init_made}
use gnuweeb_bot.Que.{Que, que_init}
use gnuweeb_bot.Que.Fifo.{Holds, que_init-Holds}
use gnuweeb_bot.Server.State.{State, Ret, success, reset_chan}
use gnuweeb_bot.Server.Setup.{
  InitEnv, zero_chan, new_chans, new_threads, thread_answers, init_state_chans, init_state_threads,
  init_epl_map, push_all, init_stacks, init_state, first_fail, then_init,
}
use gnuweeb_bot.Server.NewChans.{
  upto, upto-Distinct, length-upto, upto-All, new_chans_at, length-new_chans, online-new_chans,
  new_chans-numbered,
}
use gnuweeb_bot.Server.Slots.{SlotsOk, IsOffline, online}

-- One round of the loop.
push_step :
    (i : ℕ) (st : State) (cs ts : TStack)
    → i < 2 ^ 16
    → tss_push st.chan_stk i ≡ ok (cs, pos i)
    → tss_push st.thread_stk i ≡ ok (ts, pos i)
    → push_all (suc i) st ≡ push_all i (record st { chan_stk = cs; thread_stk = ts })
unfolding push_all
push_step i st cs ts w run_c run_t =
    let word : i % 2 ^ 16 ≡ i = omega arith in
    let self : (i == i) ≡ true = (==_iff i i).1 refl in rw (word, run_c, run_t, self) refl

-- All numbers below `i` go onto both stacks.
push_all_lem :
    (i : ℕ) (st : State) (xs ys : List ℕ)
    → IsValid st.chan_stk
    → IsValid st.thread_stk
    → contents st.chan_stk ≡ xs
    → contents st.thread_stk ≡ ys
    → i + length xs ≤ st.chan_stk.capacity
    → i + length ys ≤ st.thread_stk.capacity
    → i < 2 ^ 16
    → (cs : TStack) × (ts : TStack) × (push_all i st
        ≡ ok (record st { chan_stk = cs; thread_stk = ts }))
      × IsValid cs
      × (contents cs ≡ upto i xs)
      × (cs.capacity ≡ st.chan_stk.capacity)
      × IsValid ts
      × (contents ts ≡ upto i ys)
      × (ts.capacity ≡ st.thread_stk.capacity)
unfolding push_all
push_all_lem zero st xs ys vc vt ec et rc rt w =
    (st.chan_stk, st.thread_stk, refl, vc, ec, refl, vt, et, refl)
push_all_lem (suc i) st xs ys vc vt ec et rc rt w =
    let (cs, run_c, vc', ec', cc') = tss_push_room st.chan_stk i vc (omega (arith, ap length ec)) in
    let (ts, run_t, vt', et', ct') =
      tss_push_room st.thread_stk i vt (omega (arith, ap length et)) in
    let (cs', ts', run, vc₂, ec₂, cc₂, vt₂, et₂, ct₂) =
      push_all_lem i (record st { chan_stk = cs; thread_stk = ts }) (i ∷ xs) (i ∷ ys) vc' vt'
        (ec' ∙ ap (λ (zs : List ℕ). i ∷ zs) ec) (et' ∙ ap (λ (zs : List ℕ). i ∷ zs) et)
        (omega arith) (omega arith) (omega arith) in
    (
      cs',
      ts',
      push_step i st cs ts (omega arith) run_c run_t ∙ run,
      vc₂,
      ec₂,
      cc₂ ∙ cc',
      vt₂,
      et₂,
      ct₂ ∙ ct',
    )

-- What the set-up leaves: all agrees, all channels and threads are free, no descriptor is mapped and
-- the queue is empty.
pub record Ready (st : State) : Type 0 where
  pub slots : SlotsOk st
  pub free_chans : contents st.chan_stk ≡ upto st.thread_c []
  pub valid : IsValid st.thread_stk
  pub free_threads : contents st.thread_stk ≡ upto st.thread_c []
  pub unmapped : (fd : ℕ) → st.epl_map fd ≡ 0
  pub queue : Holds st.sqes []
  pub nobody : online st.chans ≡ 0
  pub new : st.threads ≡ new_threads 0 st.thread_c

-- From channels that are new and stacks of all their numbers.
SlotsOk-new :
    (st : State) (cs ts : TStack) (q : Que)
    → st.thread_c < 2 ^ 16
    → IsValid cs
    → contents cs ≡ upto st.thread_c []
    → cs.capacity ≡ st.thread_c
    → SlotsOk (record st {
      chans = new_chans 0 st.thread_c;
      epl_map = λ _. 0;
      chan_stk = cs;
      thread_stk = ts;
      sqes = q;
    })
unfolding reset_chan
SlotsOk-new st cs ts q w v e cap = record {
  valid = v;
  capacity = cap;
  many = length-new_chans 0 st.thread_c;
  word = w;
  distinct = rw e (upto-Distinct st.thread_c [] tt tt);
  free = rw e (
      upto-All (IsOffline (new_chans 0 st.thread_c)) st.thread_c st.thread_c []
        (λ k lt. (reset_chan zero_chan (0 + k), new_chans_at 0 st.thread_c k lt, refl))
        (omega arith) tt);
  mapped = λ fd m eq. ground arith;
  numbered = λ m c at. new_chans-numbered st.thread_c m c w at;
  accounted =
      omega (arith, ap length e, length-upto st.thread_c [], online-new_chans 0 st.thread_c);
}

-- The stacks, the locks and the loop, where nothing fails.
init_stacks_lem :
    (env : InitEnv) (st : State)
    → st.thread_c < 2 ^ 16
    → env.chan_stk_ok ≡ true
    → env.thread_stk_ok ≡ true
    → first_fail env.locks ≡ success
    → (cs : TStack) × (ts : TStack) × (init_stacks env st
        ≡ ok
            (record st { chan_stk = cs; thread_stk = ts; sqes = que_init st.sqes 100000 }, success))
      × IsValid cs
      × (contents cs ≡ upto st.thread_c [])
      × (cs.capacity ≡ st.thread_c)
      × IsValid ts
      × (contents ts ≡ upto st.thread_c [])
unfolding init_stacks
init_stacks_lem env st w a b l =
    let (cs, run_c) = tss_init_made st.thread_c in
    let (vc, ec, cc) = tss_init_lem st.thread_c run_c in
    let st₂ = record st { chan_stk = cs; thread_stk = cs; sqes = que_init st.sqes 100000 } in
    let (cs', ts', run, vc', ec', cc', vt', et', ct') =
      push_all_lem st.thread_c st₂ [] [] vc vc ec ec (omega arith) (omega arith) w in
    (cs', ts', rw (a, b, run_c, l, run) refl, vc', ec', cc' ∙ cc, vt', et')

init_state_chans_lem :
    (env : InitEnv) (st : State)
    → env.chans_ok ≡ true
    → init_state_chans env st ≡ (record st { chans = new_chans 0 st.thread_c }, success)
unfolding init_state_chans
init_state_chans_lem env st a = rw a refl

init_state_threads_lem :
    (env : InitEnv) (st : State)
    → env.threads_ok ≡ true
    → first_fail (thread_answers env 0 st.thread_c) ≡ success
    → init_state_threads env st ≡ (record st { threads = new_threads 0 st.thread_c }, success)
unfolding init_state_threads
init_state_threads_lem env st b f = rw (b, f) refl

init_epl_map_lem :
    (env : InitEnv) (st : State)
    → env.map_ok ≡ true
    → init_epl_map env st ≡ (record st { epl_map = λ _. 0 }, success)
unfolding init_epl_map
init_epl_map_lem env st c = rw c refl

-- The state before the stacks are made.
abbrev before_stacks : State → State
before_stacks st = record st {
  stop_el = false;
  tcp_fd = none;
  epl_fd = none;
  chans = new_chans 0 st.thread_c;
  threads = new_threads 0 st.thread_c;
  epl_map = λ _. 0;
  active_chan = 0;
}

init_state_stages :
    (env : InitEnv) (st : State)
    → env.chans_ok ≡ true
    → env.threads_ok ≡ true
    → env.map_ok ≡ true
    → first_fail (thread_answers env 0 st.thread_c) ≡ success
    → init_state env st ≡ init_stacks env (before_stacks st)
unfolding init_state
init_state_stages env st a b c f =
    let st₀ : State = record st {
      stop_el = false;
      tcp_fd = none;
      epl_fd = none;
      chans = [];
      threads = [];
      active_chan = 0;
    } in
    let st₁ : State = record st₀ { chans = new_chans 0 st.thread_c } in
    let st₂ : State = record st₁ { threads = new_threads 0 st.thread_c } in
    ap
      (λ (r : State × Ret). then_init r λ s.
        then_init (init_state_threads env s) λ t. then_init (init_epl_map env t) (init_stacks env))
      (init_state_chans_lem env st₀ a)
    ∙ ap (λ (r : State × Ret). then_init r λ t. then_init (init_epl_map env t) (init_stacks env))
        (init_state_threads_lem env st₁ b f)
    ∙ ap (λ (r : State × Ret). then_init r (init_stacks env)) (init_epl_map_lem env st₂ c)

-- Where memory is found and no initialisation of a lock or a condition fails, the set-up succeeds,
-- whatever the state was before, and none of its assertions fails. All channels and all threads are
-- then free, their numbers on the stacks with 0 on top, no descriptor is mapped, no connection is
-- open, the queue is empty, and channels, stack and map agree.
pub init_state-Ready :
    (env : InitEnv) (st : State)
    → st.thread_c < 2 ^ 16
    → env.chans_ok ≡ true
    → env.threads_ok ≡ true
    → env.map_ok ≡ true
    → env.chan_stk_ok ≡ true
    → env.thread_stk_ok ≡ true
    → first_fail (thread_answers env 0 st.thread_c) ≡ success
    → first_fail env.locks ≡ success
    → (st' : State) × (init_state env st ≡ ok (st', success)) × Ready st'
init_state-Ready env st w a b c d e f g =
    let (cs, ts, run, vc, ec, cc, vt, et) = init_stacks_lem env (before_stacks st) w d e g in
    (
      record (before_stacks st) { chan_stk = cs; thread_stk = ts; sqes = que_init st.sqes 100000 },
      init_state_stages env st a b c f ∙ run,
      record {
        slots = SlotsOk-new (before_stacks st) cs ts (que_init st.sqes 100000) w vc ec cc;
        free_chans = ec;
        valid = vt;
        free_threads = et;
        unmapped = λ fd. refl;
        queue = que_init-Holds st.sqes 100000 (omega arith);
        nobody = online-new_chans 0 st.thread_c;
        new = refl;
      },
    )
