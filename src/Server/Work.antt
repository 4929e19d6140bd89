-- ===== src/Server/Work.antt =====
-- How a queued packet reaches a thread, and how a thread becomes free again (core/server.c).
use gnuweeb_bot.Base.{
  ℕ, ◌<◌, ◌≡◌, ◌≢◌, refl, ap, ◌∙◌, Bool, true, false, none, some, List, [], ◌∷◌, ok, get_elem?, set,
  get_elem?-set_self, lt_of_get_elem?, length, length-set, arith,
}
use gnuweeb_bot.TStack.{tss_push, TStack}
use gnuweeb_bot.TStack.Refine.{IsValid, contents, tss_pop_refines, tss_push_room}
use gnuweeb_bot.Que.{que_dequeue, que_node_destroy, null, Que, node, Heap}
use gnuweeb_bot.Que.Destroy.{que_node_destroy-Holds}
use gnuweeb_bot.Base.Int.{ℤ, pos}
use gnuweeb_bot.Que.Chain.{Cell, Avoids}
use gnuweeb_bot.Que.Fifo.{Holds, que_dequeue_lem}
use gnuweeb_bot.Server.State.{State, Thread, Sys, put_thread}
use gnuweeb_bot.Server.Submit.{wake, dispatch_at, dispatch_sqe, host_u16}
use gnuweeb_bot.Server.Loop.{finish_event}

-- The thread `j` works on the packet `x`, whose node has left the queue `xs` and is still allocated.
pub record Works (x : Cell) (xs : List Cell) (j : ℕ) (js : List ℕ) (st : State) : Type 0 where
  pub thread : Thread
  pub here : get_elem? st.threads j ≡ some thread
  pub has_event : thread.has_event ≡ true
  pub from_queue : thread.ev_from_sqe ≡ true
  pub node_is : thread.sqe_node ≡ x.0
  pub len : thread.pkt_len ≡ host_u16 x.3
  pub valid : IsValid st.thread_stk
  pub free : contents st.thread_stk ≡ js
  pub queue : Holds st.sqes xs
  pub apart : Avoids x.0 xs
  pub real : x.0 ≢ null
  pub allocated : (next : ℕ) × (st.sqes.heap x.0 ≡ some (node next x.1 x.2 x.3))

wake-same :
    (st : State) (j : ℕ) (is_on : Bool) (answer : Sys (Unit {0}))
    → (wake st j is_on answer).0 ≡ record st { actions = (wake st j is_on answer).0.actions }
unfolding wake
wake-same st j true answer = refl
wake-same st j false answer = refl

first_node :
    (q : Que) (x : Cell) (xs : List Cell)
    → Holds q (x ∷ xs)
    → (x.0 ≢ null) × ((next : ℕ) × (q.heap x.0 ≡ some (node next x.1 x.2 x.3)))
first_node q (a, b, l, d) [] v = (v.chain.1, (null, v.chain.2))
first_node q (a, b, l, d) ((a', b', l', d') ∷ xs) v = (v.chain.1, (a', v.chain.2))

-- The thread after the dispatch.
abbrev dispatched : Thread → Cell → Thread
dispatched t x = record t {
  ev_from_sqe = true;
  has_event = true;
  pkt_len = host_u16 x.3;
  sqe_node = x.0;
}

dispatch_at_lem :
    (answer : Sys (Unit {0})) (st : State) (j : ℕ) (t : Thread) (x : Cell) (q : Que) (next : ℕ)
    → get_elem? st.threads j ≡ some t
    → que_dequeue st.sqes ≡ ok (q, x.0)
    → q.heap x.0 ≡ some (node next x.1 x.2 x.3)
    → x.0 ≢ null
    → dispatch_at answer st (pos j)
      ≡ ok (wake (put_thread (record st { sqes = q }) j (dispatched t x)) j t.is_online answer).0
unfolding dispatch_at
dispatch_at_lem answer st j t x q next at run there real = ground (arith, run)

-- When a thread is free and a packet waits, the dispatch never crashes: the thread that was freed last
-- gets the packet that has waited longest and leaves the stack of free threads, the packet leaves the
-- queue, and its node stays allocated. This holds whether or not the thread can be started.
pub dispatch_sqe_lem :
    (answer : Sys (Unit {0})) (st : State) (x : Cell) (xs : List Cell) (j : ℕ) (js : List ℕ)
    (t : Thread)
    → IsValid st.thread_stk
    → contents st.thread_stk ≡ j ∷ js
    → get_elem? st.threads j ≡ some t
    → Holds st.sqes (x ∷ xs)
    → (st' : State) × (dispatch_sqe answer st ≡ ok st') × Works x xs j js st'
unfolding dispatch_sqe
dispatch_sqe_lem answer st x xs j js t v free at held =
    let (stk, popped, v', c, cap) = rw free at (tss_pop_refines st.thread_stk v) in
    let (q, run, held', heap, qc) = que_dequeue_lem st.sqes (x ∷ xs) held in
    let (real, (next, there)) = first_node st.sqes x xs held in
    let there' : q.heap x.0 ≡ some (node next x.1 x.2 x.3) =
      ap (λ (h : Heap). h x.0) heap ∙ there in
    let st₁ : State = record st { thread_stk = stk } in
    let w = wake (put_thread (record st₁ { sqes = q }) j (dispatched t x)) j t.is_online answer in
    let same =
      wake-same (put_thread (record st₁ { sqes = q }) j (dispatched t x)) j t.is_online answer in
    (
      w.0,
      rw popped (dispatch_at_lem answer st₁ j t x q next at run there' real),
      rw same (record {
        thread = dispatched t x;
        here = get_elem?-set_self st.threads j (dispatched t x) (lt_of_get_elem? st.threads j at);
        has_event = refl;
        from_queue = refl;
        node_is = refl;
        len = refl;
        valid = v';
        free = c;
        queue = held';
        apart = held.distinct.0;
        real = real;
        allocated = (next, there');
      }),
    )

finish_step :
    (st : State) (j : ℕ) (t : Thread) (q : Que) (stk : TStack) (r : ℤ)
    → get_elem? st.threads j ≡ some t
    → t.ev_from_sqe ≡ true
    → que_node_destroy st.sqes t.sqe_node ≡ ok q
    → st.stop_el ≡ false
    → tss_push st.thread_stk t.thread_idx ≡ ok (stk, r)
    → finish_event st j
      ≡ ok (
        record st {
          sqes = q;
          thread_stk = stk;
          threads =
              set
                (set st.threads j (record t { sqe_node = null }))
                j
                (record t { sqe_node = null; has_event = false });
        },
        true,
      )
unfolding finish_event
finish_step st j t q stk r at sqe destroyed goes pushed = ground (arith, destroyed, pushed)

-- A thread that has worked on a packet of the queue, while the server goes on, becomes free: its
-- number is the next that is given out and it has no event. The node of the packet is freed, and the
-- packets that wait are untouched.
pub finish_event_lem :
    (st : State) (x : Cell) (xs : List Cell) (j : ℕ) (js : List ℕ) (w : Works x xs j js st)
    → st.stop_el ≡ false
    → length js < st.thread_stk.capacity
    → (st' : State) × (finish_event st j ≡ ok (st', true))
      × (contents st'.thread_stk ≡ w.thread.thread_idx ∷ js)
      × Holds st'.sqes xs
      × (st'.sqes.heap x.0 ≡ none)
      × ((t : Thread) × (get_elem? st'.threads j ≡ some t)
          × (t.has_event ≡ false)
          × (t.sqe_node ≡ null))
finish_event_lem st x xs j js w goes room =
    let (next, there) = w.allocated in
    let (q, run, held, freed, cap) =
      que_node_destroy-Holds st.sqes xs x.0 (node next x.1 x.2 x.3) w.queue w.apart w.real there in
    let (stk, pushed, v, c, cap') =
      tss_push_room st.thread_stk w.thread.thread_idx w.valid (omega (arith, ap length w.free)) in
    let t₁ : Thread = record w.thread { sqe_node = null } in
    let t₂ : Thread = record t₁ { has_event = false } in
    (
      record st { sqes = q; thread_stk = stk; threads = set (set st.threads j t₁) j t₂ },
      finish_step st j w.thread q stk (pos w.thread.thread_idx) w.here w.from_queue
          (ap (que_node_destroy st.sqes) w.node_is ∙ run) goes pushed,
      c ∙ ap (λ (ks : List ℕ). w.thread.thread_idx ∷ ks) w.free,
      held,
      freed,
      (
        t₂,
        get_elem?-set_self (set st.threads j t₁) j t₂
            (omega (arith, length-set st.threads j t₁, lt_of_get_elem? st.threads j w.here)),
        refl,
        refl,
      ),
    )
