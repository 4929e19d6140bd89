-- ===== src/Server/Handover.antt =====
-- Who gets a packet: a free thread, or the queue where there is none (core/server.c).
use gnuweeb_bot.Base.{
  ℕ, suc, ◌+◌, ◌<◌, ◌≡◌, ◌≢◌, refl, sym, ap, ◌∙◌, Bool, none, some, true, false, List, [], ◌∷◌,
  ◌++◌, arith, length, get_elem?, get_elem?-set_self, lt_of_get_elem?, Bytes, ok,
}
use gnuweeb_bot.TStack.Refine.{IsValid, contents, tss_pop_refines}
use gnuweeb_bot.Que.{null}
use gnuweeb_bot.Que.Chain.{Cell}
use gnuweeb_bot.Que.Fifo.{Holds, que_enqueue_lem, cell}
use gnuweeb_bot.Server.State.{
  State, Chan, Thread, Ret, Sys, success, data_bufsiz, data_offset, store_bytes, load_bytes,
  put_thread,
}
use gnuweeb_bot.Server.Memory.{load_same, store_below, load-store, load-length}
use gnuweeb_bot.Server.Submit.{SubmitEnv, submit_event, submit_to_thread, enqueue_to_sqe, wake}

-- The thread `j` has been given the `n` data bytes of the channel.
pub record Given (chan : Chan) (n j : ℕ) (js : List ℕ) (st st' : State) : Type 0 where
  pub thread : Thread
  pub here : get_elem? st'.threads j ≡ some thread
  pub has_event : thread.has_event ≡ true
  pub direct : thread.ev_from_sqe ≡ false
  pub len : thread.pkt_len ≡ data_offset + n
  pub bytes : load_bytes thread.raw_buf data_offset n ≡ load_bytes chan.raw_buf data_offset n
  pub stop : thread.raw_buf (data_offset + n) ≡ 0
  pub valid : IsValid st'.thread_stk
  pub free : contents st'.thread_stk ≡ js
  pub chans : st'.chans ≡ st.chans
  pub epl_map : st'.epl_map ≡ st.epl_map
  pub chan_stk : st'.chan_stk ≡ st.chan_stk
  pub queue : st'.sqes ≡ st.sqes

-- What a thread's buffer holds after the copy.
copied_bytes :
    (m c : ℕ → ℕ) (n : ℕ)
    → load_bytes
        (store_bytes
          (store_bytes m 0 (load_bytes c 0 (data_offset + n)))
          (data_offset + n)
          (0 ∷ []))
        data_offset
        n
      ≡ load_bytes c data_offset n
copied_bytes m c n =
    load_same _ m' data_offset n
      (λ i lo hi. store_below m' (data_offset + n) (0 ∷ []) i (omega arith))
    ∙ tail_bytes
  where
    text : Bytes
    text = load_bytes c 0 (data_offset + n)

    m' : ℕ → ℕ
    m' = store_bytes m 0 text

    size : data_offset + n ≡ suc (suc n)
    size = omega arith

    whole : load_bytes m' 0 (data_offset + n) ≡ load_bytes c 0 (data_offset + n)
    whole = ap (load_bytes m' 0) (sym (load-length c 0 (data_offset + n))) ∙ load-store m 0 text

    header : load_bytes m' 0 (suc (suc n)) ≡ load_bytes c 0 (suc (suc n))
    header = ap (load_bytes m' 0) (sym size) ∙ whole ∙ ap (load_bytes c 0) size

    tail_bytes : load_bytes m' data_offset n ≡ load_bytes c data_offset n
    tail_bytes = cc header

-- The thread after the copy.
abbrev pub given : Thread → Chan → ℕ → Thread
given t chan n = record t {
  ev_from_sqe = false;
  has_event = true;
  pkt_len = data_offset + n;
  raw_buf =
      store_bytes (store_bytes t.raw_buf 0 (load_bytes chan.raw_buf 0 (data_offset + n)))
        (data_offset + n) (0 ∷ []);
}

pub submit_to_thread_lem :
    (env : SubmitEnv) (st : State) (j : ℕ) (t : Thread) (chan : Chan) (n : ℕ)
    → get_elem? st.threads j ≡ some t
    → n < data_bufsiz
    → submit_to_thread env st j chan (data_offset + n)
      ≡ ok (wake (put_thread st j (given t chan n)) j t.is_online env.pthread_create)
unfolding submit_to_thread
submit_to_thread_lem env st j t chan n at small = ground arith

-- Waking a thread changes nothing but the actions taken.
pub wake-actions :
    (st : State) (j : ℕ) (online : Bool) (answer : Sys (Unit {0}))
    → (wake st j online answer).0 ≡ record st { actions = (wake st j online answer).0.actions }
unfolding wake
wake-actions st j true answer = refl
wake-actions st j false answer = refl

module _ (env : SubmitEnv) (st : State) (chan : Chan) (n : ℕ) (valid : IsValid st.thread_stk) where
  -- Where a thread is free, the packet goes to the one that was freed last: it gets an event, the
  -- data of the packet and a 0 behind them, and its number leaves the stack of free threads even
  -- if the thread cannot be started. Channels and queue stay as they are.
  pub submit_event_free :
      (j : ℕ) (js : List ℕ) (t : Thread)
      → contents st.thread_stk ≡ j ∷ js
      → get_elem? st.threads j ≡ some t
      → n < data_bufsiz
      → (st' : State) × (ret : Ret) × (submit_event env st chan n ≡ ok (st', ret))
        × Given chan n j js st st'
  unfolding submit_event
  submit_event_free j js t free at small =
      let (stk, popped, v, c, cap) = rw free at (tss_pop_refines st.thread_stk valid) in
      let st₁ = record st { thread_stk = stk } in
      let w = wake (put_thread st₁ j (given t chan n)) j t.is_online env.pthread_create in
      let same =
        wake-actions (put_thread st₁ j (given t chan n)) j t.is_online env.pthread_create in
      (
        w.0,
        w.1,
        rw popped (submit_to_thread_lem env st₁ j t chan n at small),
        rw same (record {
          thread = given t chan n;
          here = get_elem?-set_self st.threads j (given t chan n) (lt_of_get_elem? st.threads j at);
          has_event = refl;
          direct = refl;
          len = refl;
          bytes = copied_bytes t.raw_buf chan.raw_buf n;
          stop = ground arith;
          valid = v;
          free = c;
          chans = refl;
          epl_map = refl;
          chan_stk = refl;
          queue = refl;
        }),
      )

  -- Where no thread is free, the packet, its length field included, becomes the last of the queue
  -- if the queue has room and memory is found.
  pub submit_event_busy :
      (xs : List Cell)
      → contents st.thread_stk ≡ []
      → Holds st.sqes xs
      → length xs < st.sqes.capacity
      → env.node ≢ null
      → st.sqes.heap env.node ≡ none
      → (st' : State) × (submit_event env st chan n ≡ ok (st', success))
        × Holds st'.sqes (
            xs
            ++ cell st.sqes env.node (load_bytes chan.raw_buf 0 (data_offset + n)) (data_offset + n)
              ∷ [])
        × (st'.chans ≡ st.chans)
        × (st'.threads ≡ st.threads)
  unfolding submit_event enqueue_to_sqe
  submit_event_busy xs none_free held room nn fresh =
      let (stk, popped, v, c, cap) = rw none_free at (tss_pop_refines st.thread_stk valid) in
      let (q, run, held', qc) =
        que_enqueue_lem st.sqes xs env.node (load_bytes chan.raw_buf 0 (data_offset + n))
          (data_offset + n) held room nn fresh in
      (record st { sqes = q; thread_stk = stk }, rw popped (rw run), held', refl, refl)
