-- ===== src/Server/Threads/Workers.antt =====
-- What the steps of a worker do to the threads.
use gnuweeb_bot.Base.{
  ℕ, ◌%◌, ◌^◌, ◌≡◌, refl, sym, ap, ◌∙◌, inl, inr, Bool, true, false, Bool-cases, some, List, ◌∷◌,
  arith, length, length-set, get_elem?, set, set-set, get_elem?-set_self, lt_of_get_elem?, ok,
  if◌then◌else◌, ◌==◌,
}
use gnuweeb_bot.Base.Int.{ℤ}
use gnuweeb_bot.TStack.{TStack, tss_push}
use gnuweeb_bot.TStack.Refine.{contents, tss_push_refines}
use gnuweeb_bot.Que.{null, que_node_destroy}
use gnuweeb_bot.Server.State.{State, Thread, load_thread}
use gnuweeb_bot.Server.Setup.{reset_thread}
use gnuweeb_bot.Server.Loop.{begin_wait, finish_event, end_thread}
use gnuweeb_bot.Server.Threads.Idle.{
  ThreadsOk, IsIdle-set, IsIdle-set_off, busy-NotIn, numbered-set,
}
use gnuweeb_bot.Server.Threads.Moves.{
  ok_injective, some_injective, loaded, Only, Only-ok, Only-bind,
}

-- A thread that loses its event, or had none, may be written to.
quiet-ThreadsOk :
    (ts : List Thread) (stk : TStack) (i : ℕ) (t t' : Thread)
    → ThreadsOk ts stk
    → get_elem? ts i ≡ some t
    → t'.thread_idx ≡ t.thread_idx
    → t'.has_event ≡ false
    → ThreadsOk (set ts i t') stk
quiet-ThreadsOk ts stk i t t' s at own off = record {
  valid = s.valid;
  distinct = s.distinct;
  idle = IsIdle-set_off ts i t' (contents stk) off s.idle;
  numbered = numbered-set ts i t' s.numbered (own ∙ s.numbered i t at);
  word = omega (arith, length-set ts i t', s.word);
}

-- And so may one that has an event.
busy-ThreadsOk :
    (ts : List Thread) (stk : TStack) (i : ℕ) (t t' : Thread)
    → ThreadsOk ts stk
    → get_elem? ts i ≡ some t
    → t'.thread_idx ≡ t.thread_idx
    → t.has_event ≡ true
    → ThreadsOk (set ts i t') stk
busy-ThreadsOk ts stk i t t' s at own on = record {
  valid = s.valid;
  distinct = s.distinct;
  idle = IsIdle-set ts i t' (contents stk) (busy-NotIn ts i t (contents stk) at on s.idle) s.idle;
  numbered = numbered-set ts i t' s.numbered (own ∙ s.numbered i t at);
  word = omega (arith, length-set ts i t', s.word);
}

pub begin_wait-ThreadsOk :
    (st : State) (i : ℕ)
    → ThreadsOk st.threads st.thread_stk
    → Only (λ (st' : State). ThreadsOk st'.threads st'.thread_stk) (begin_wait st i)
unfolding begin_wait
begin_wait-ThreadsOk st i s = Only-bind (load_thread st i) _ λ t at.
    Only-ok (elim (Bool-cases t.has_event) [
      | inl on ↦
          busy-ThreadsOk st.threads st.thread_stk i t (record t { is_online = true }) s
            (loaded st i t at) refl on
      | inr off ↦
          quiet-ThreadsOk st.threads st.thread_stk i t (record t { is_online = true }) s
            (loaded st i t at) refl off
    ])

pub end_thread-ThreadsOk :
    (st : State) (i : ℕ)
    → ThreadsOk st.threads st.thread_stk
    → Only (λ (st' : State). ThreadsOk st'.threads st'.thread_stk) (end_thread st i)
unfolding end_thread
end_thread-ThreadsOk st i s = Only-bind (load_thread st i) _ λ t at.
    let small : t.thread_idx % 2 ^ 16 ≡ t.thread_idx = omega (
      arith,
      s.numbered i t (loaded st i t at),
      lt_of_get_elem? st.threads i (loaded st i t at),
      s.word,
    ) in
    Only-ok (
      quiet-ThreadsOk st.threads st.thread_stk i t (reset_thread t t.thread_idx) s
        (loaded st i t at) small refl)

-- A thread that has finished puts its number back.
pushed-ThreadsOk :
    (ts : List Thread) (stk₀ stk : TStack) (i : ℕ) (t t' : Thread) (z : ℤ)
    → ThreadsOk ts stk₀
    → get_elem? ts i ≡ some t
    → t.has_event ≡ true
    → t'.thread_idx ≡ t.thread_idx
    → t'.has_event ≡ false
    → tss_push stk₀ t.thread_idx ≡ ok (stk, z)
    → ThreadsOk (set ts i t') stk
pushed-ThreadsOk ts stk₀ stk i t t' z s at on own off run =
    let (stk₁, run₁, v, c, cap) = tss_push_refines stk₀ t.thread_idx s.valid in
    let same : stk ≡ stk₁ = ap (λ (r : TStack × ℤ). r.0) (ok_injective (sym run ∙ run₁)) in
    let q : ThreadsOk (set ts i t') stk₀ = quiet-ThreadsOk ts stk₀ i t t' s at own off in
    rw same (elim (Bool-cases (length (contents stk₀) == stk₀.capacity)) [
      | inl full ↦
          let c' : contents stk₁ ≡ contents stk₀ = rw full at c in
          record {
            valid = v;
            distinct = rw c' q.distinct;
            idle = rw c' q.idle;
            numbered = q.numbered;
            word = q.word;
          }
      | inr room ↦
          let c' : contents stk₁ ≡ t.thread_idx ∷ contents stk₀ = rw room at c in
          record {
            valid = v;
            distinct =
                rw (c', s.numbered i t at)
                  (busy-NotIn ts i t (contents stk₀) at on s.idle, s.distinct);
            idle =
                rw (c', s.numbered i t at)
                  ((t', get_elem?-set_self ts i t' (lt_of_get_elem? ts i at), off), q.idle);
            numbered = q.numbered;
            word = q.word;
          }
    ])

-- The thread behind the release of its node.
abbrev released : Thread → Thread
released t = if t.ev_from_sqe then record t { sqe_node = null } else t

released-same :
    (t : Thread) → ((released t).thread_idx ≡ t.thread_idx) × ((released t).has_event ≡ t.has_event)
released-same t = elim (Bool-cases t.ev_from_sqe) [
  | inl yes' ↦ rw yes' (refl, refl)
  | inr no' ↦ rw no' (refl, refl)
]

pub finish_event-ThreadsOk :
    (st : State) (i : ℕ) (t : Thread)
    → ThreadsOk st.threads st.thread_stk
    → get_elem? st.threads i ≡ some t
    → t.has_event ≡ true
    → Only (λ (r : State × Bool). ThreadsOk r.0.threads r.0.thread_stk) (finish_event st i)
unfolding finish_event
finish_event-ThreadsOk st i t s at on = Only-bind (load_thread st i) _ λ t₀ at₀.
    let same : t₀ ≡ t = some_injective (sym (loaded st i t₀ at₀) ∙ at) in
    let there : get_elem? st.threads i ≡ some t₀ = loaded st i t₀ at₀ in
    let on₀ : t₀.has_event ≡ true = ap (λ (x : Thread). x.has_event) same ∙ on in
    Only-bind (if t₀.ev_from_sqe then que_node_destroy st.sqes t₀.sqe_node else ok st.sqes) _
      λ q run. elim (Bool-cases st.stop_el) [
        | inl stops ↦ rw stops (
            Only-ok (
              busy-ThreadsOk st.threads st.thread_stk i t₀ (released t₀) s there
                (released-same t₀).0 on₀))
        | inr goes ↦ rw goes (
            Only-bind (tss_push st.thread_stk (released t₀).thread_idx) _ λ r pushed. Only-ok (
              rw (set-set st.threads i (released t₀) (record (released t₀) { has_event = false })) (
                pushed-ThreadsOk st.threads st.thread_stk r.0 i t₀
                  (record (released t₀) { has_event = false }) r.1 s there on₀ (released-same t₀).0
                  refl (ap (tss_push st.thread_stk) (sym (released-same t₀).0) ∙ pushed))))
      ]
