-- ===== src/Server/Threads/Moves.antt =====
-- What each step does to the threads.
use mathlib.Core.Path.{subst}
use gnuweeb_bot.Base.{
  ℕ, ◌+◌, ◌<◌, ◌≡◌, ◌≢◌, refl, sym, ap, ◌∙◌, Bool, true, false, Option, none, some, List, [], ◌∷◌,
  arith, length-set, get_elem?, set, get_elem?-set_ne, All, Outcome, ok, crash, Fault,
  out_of_bounds, aborted, check, if◌then◌else◌, ◌==◌, ◌>>=◌, ◌>>◌,
}
use gnuweeb_bot.Base.Int.{pos, minus_one}
use gnuweeb_bot.TStack.{TStack}
use gnuweeb_bot.TStack.Refine.{IsValid, contents, tss_pop_refines}
use gnuweeb_bot.Que.{Que, null, load, que_enqueue, que_dequeue}
use gnuweeb_bot.Server.State.{
  State, Chan, Thread, Ret, Sys, data_bufsiz, data_offset, load_bytes, put_thread, load_thread,
}
use gnuweeb_bot.Server.Submit.{
  SubmitEnv, submit_event, submit_at, enqueue_to_sqe, dispatch_at, dispatch_sqe, wake, host_u16,
}
use gnuweeb_bot.Server.Handover.{submit_to_thread_lem, wake-actions, given}
use gnuweeb_bot.Server.Slots.{Distinct}
use gnuweeb_bot.Server.Threads.Idle.{IsIdle, ThreadsOk, IsIdle-set, numbered-set}

-- A call that returns has made its parts return.
bind-ok :
    {A B : Type 0} (m : Outcome A) (f : A → Outcome B) (b : B)
    → (m >>= f) ≡ ok b
    → (a : A) × (m ≡ ok a) × (f a ≡ ok b)
bind-ok (ok a) f b e = (a, refl, e)
bind-ok (crash x) f b e = absurd (ground arith)

check-ok :
    {B : Type 0} (t : Bool) (x : Fault) (k : Outcome B) (b : B) → (check t x >> k) ≡ ok b → k ≡ ok b
check-ok true x k b e = e
check-ok false x k b e = absurd (ground arith)

pub ok_injective : {A : Type 0} {a b : A} → ok a ≡ ok b → a ≡ b
ok_injective q = cc

pub some_injective : {A : Type 0} {a b : A} → some a ≡ some b → a ≡ b
some_injective q = cc

pub loaded :
    (st : State) (i : ℕ) (t : Thread) → load_thread st i ≡ ok t → get_elem? st.threads i ≡ some t
loaded st i t e = at (get_elem? st.threads i) e
  where
    at :
        (o : Option Thread)
        → (elim o as (λ _. Outcome Thread) [ none ↦ crash out_of_bounds | some c ↦ ok c ]) ≡ ok t
        → o ≡ some t
    at none q = absurd (ground arith)
    at (some c) q = ap some (ok_injective q)

-- No thread with an event is touched.
abbrev pub Keeps : List Thread → List Thread → Type 0
Keeps ts ts' =
    (k : ℕ) (t : Thread) → get_elem? ts k ≡ some t → t.has_event ≡ true → get_elem? ts' k ≡ some t

-- What the event loop leaves: agreement, and the threads with an event as they were.
pub record Handed (ts ts' : List Thread) (stk' : TStack) : Type 0 where
  pub threads_ok : ThreadsOk ts' stk'
  pub keeps : Keeps ts ts'

-- A free thread is given an event.
given-Handed :
    (ts : List Thread) (stk₀ : TStack) (j : ℕ) (js : List ℕ) (stk : TStack) (t t' : Thread)
    → ThreadsOk ts stk₀
    → contents stk₀ ≡ j ∷ js
    → IsValid stk
    → contents stk ≡ js
    → get_elem? ts j ≡ some t
    → t.has_event ≡ false
    → t'.thread_idx ≡ t.thread_idx
    → Handed ts (set ts j t') stk
given-Handed ts stk₀ j js stk t t' s free v c at off same = record {
  threads_ok = record {
    valid = v;
    distinct = rw c d.1;
    idle = rw c (IsIdle-set ts j t' js d.0 f.1);
    numbered = numbered-set ts j t' s.numbered (same ∙ s.numbered j t at);
    word = omega (arith, length-set ts j t', s.word);
  };
  keeps = λ k x there on. get_elem?-set_ne ts j k t' (other k x there on) ∙ there;
}
  where
    d : Distinct (j ∷ js)
    d = rw free at s.distinct

    f : All (IsIdle ts) (j ∷ js)
    f = rw free at s.idle

    other : (k : ℕ) (x : Thread) → get_elem? ts k ≡ some x → x.has_event ≡ true → j ≢ k
    other k x there on e = ground arith

-- A stack that a pop has found empty.
empty-Handed :
    (ts : List Thread) (stk₀ stk : TStack)
    → ThreadsOk ts stk₀
    → IsValid stk
    → contents stk ≡ []
    → Handed ts ts stk
empty-Handed ts stk₀ stk s v c = record {
  threads_ok = record {
    valid = v;
    distinct = rw c tt;
    idle = rw c tt;
    numbered = s.numbered;
    word = s.word;
  };
  keeps = λ k x there on. there;
}

enqueued-same :
    (env : SubmitEnv) (st : State) (chan : Chan) (n : ℕ) (st' : State) (ret : Ret)
    → enqueue_to_sqe env st chan n ≡ ok (st', ret)
    → (q : Que) × (st' ≡ record st { sqes = q })
unfolding enqueue_to_sqe
enqueued-same env st chan n st' ret e =
    let (r, run, done) =
      bind-ok (que_enqueue st.sqes env.node (load_bytes chan.raw_buf 0 n) n) _ (st', ret) e in
    (r.0, sym (ap (λ (x : State × Ret). x.0) (ok_injective done)))

pub submit_event-Handed :
    (env : SubmitEnv) (st : State) (chan : Chan) (n : ℕ) (st' : State) (ret : Ret)
    → ThreadsOk st.threads st.thread_stk
    → n < data_bufsiz
    → submit_event env st chan n ≡ ok (st', ret)
    → Handed st.threads st'.threads st'.thread_stk
unfolding submit_event submit_at
submit_event-Handed env st chan n st' ret s small run = at (contents st.thread_stk) refl
  where
    at : (ks : List ℕ) → contents st.thread_stk ≡ ks → Handed st.threads st'.threads st'.thread_stk
    at [] free =
        let (stk, popped, v, c, cap) = rw free at (tss_pop_refines st.thread_stk s.valid) in
        let (q, same) =
          enqueued-same env (record st { thread_stk = stk }) chan (data_offset + n) st' ret
            (rw popped at run) in
        rw same (empty-Handed st.threads st.thread_stk stk s v c)
    at (j ∷ js) free =
        let (stk, popped, v, c, cap) = rw free at (tss_pop_refines st.thread_stk s.valid) in
        let f : All (IsIdle st.threads) (j ∷ js) = rw free at s.idle in
        let (t, there, off) = f.0 in
        let st₁ : State = record st { thread_stk = stk } in
        let w = wake (put_thread st₁ j (given t chan n)) j t.is_online env.pthread_create in
        let is : ok w ≡ ok (st', ret) =
          sym (submit_to_thread_lem env st₁ j t chan n there small) ∙ (rw popped at run) in
        let same : st' ≡ record (put_thread st₁ j (given t chan n)) { actions = w.0.actions } =
          sym (ap (λ (x : State × Ret). x.0) (ok_injective is))
          ∙ wake-actions (put_thread st₁ j (given t chan n)) j t.is_online env.pthread_create in
        rw same (
          given-Handed st.threads st.thread_stk j js stk t (given t chan n) s free v c there off
            refl)

-- What holds of the result if the call returns.
pub record Only {A : Type 0} (P : A → Type 0) (m : Outcome A) : Type 0 where
  pub only : (a : A) → m ≡ ok a → P a

pub Only-ok : {A : Type 0} {P : A → Type 0} {a : A} → P a → Only P (ok a)
Only-ok {A} {P} p = record { only = λ b e. subst P (ok_injective e) p }

pub Only-bind :
    {A B : Type 0} {P : B → Type 0} (m : Outcome A) (f : A → Outcome B)
    → ((a : A) → m ≡ ok a → Only P (f a))
    → Only P (m >>= f)
Only-bind (ok a) f h = h a refl
Only-bind (crash x) f h = record { only = λ b e. absurd (ground arith) }

Only-check :
    {B : Type 0} {P : B → Type 0} (t : Bool) (x : Fault) (k : Outcome B)
    → Only P k
    → Only P (check t x >> k)
Only-check true x k h = h
Only-check false x k h = record { only = λ b e. absurd (ground arith) }

-- One thread is changed, and keeps its number.
record Changes (st : State) (j : ℕ) (st' : State) : Type 0 where
  old : Thread
  new : Thread
  at : get_elem? st.threads j ≡ some old
  own : new.thread_idx ≡ old.thread_idx
  threads_are : st'.threads ≡ set st.threads j new
  stk_is : st'.thread_stk ≡ st.thread_stk

dispatched-Changes :
    (answer : Sys (Unit {0})) (st : State) (j : ℕ)
    → Only (Changes st j) (dispatch_at answer st (pos j))
unfolding dispatch_at
dispatched-Changes answer st j = Only-bind (load_thread st j) _ λ t at-t.
    Only-bind (que_dequeue st.sqes) _ λ d run.
      Only-check (if d.1 == null then false else true) aborted _ (
        Only-bind (load d.0 d.1) _ λ nd at-n.
          let t' : Thread = record t {
            has_event = true;
            ev_from_sqe = true;
            pkt_len = host_u16 nd.data';
            sqe_node = d.1;
          } in
          let same =
            wake-actions (put_thread (record st { sqes = d.0 }) j t') j t.is_online answer in
          Only-ok (record {
            old = t;
            new = t';
            at = loaded st j t at-t;
            own = refl;
            threads_are = ap (λ (x : State). x.threads) same;
            stk_is = ap (λ (x : State). x.thread_stk) same;
          }))

-- Without a free thread nothing is dispatched.
idle_dispatch :
    (answer : Sys (Unit {0})) (st st' : State) → dispatch_at answer st minus_one ≡ ok st' → st' ≡ st
unfolding dispatch_at
idle_dispatch answer st st' e = sym (ok_injective e)

pub dispatch_sqe-Handed :
    (answer : Sys (Unit {0})) (st st' : State)
    → ThreadsOk st.threads st.thread_stk
    → dispatch_sqe answer st ≡ ok st'
    → Handed st.threads st'.threads st'.thread_stk
unfolding dispatch_sqe
dispatch_sqe-Handed answer st st' s run = at (contents st.thread_stk) refl
  where
    at : (ks : List ℕ) → contents st.thread_stk ≡ ks → Handed st.threads st'.threads st'.thread_stk
    at [] free =
        let (stk, popped, v, c, cap) = rw free at (tss_pop_refines st.thread_stk s.valid) in
        let stays : dispatch_at answer (record st { thread_stk = stk }) minus_one ≡ ok st' =
          rw popped at run in
        rw (idle_dispatch answer (record st { thread_stk = stk }) st' stays)
          (empty-Handed st.threads st.thread_stk stk s v c)
    at (j ∷ js) free =
        let (stk, popped, v, c, cap) = rw free at (tss_pop_refines st.thread_stk s.valid) in
        let f : All (IsIdle st.threads) (j ∷ js) = rw free at s.idle in
        let (t, there, off) = f.0 in
        let c' : Changes (record st { thread_stk = stk }) j st' =
          Only.only (dispatched-Changes answer (record st { thread_stk = stk }) j) st'
            (rw popped at run) in
        let same : c'.old ≡ t = some_injective (sym c'.at ∙ there) in
        rw (c'.threads_are, c'.stk_is)
          (given-Handed st.threads st.thread_stk j js stk t c'.new s free v c there off
            (c'.own ∙ ap (λ (x : Thread). x.thread_idx) same))
