-- ===== src/Server/Delivery.antt =====
-- A packet that is complete: it is handed over, and its connection is closed (core/server.c).
use gnuweeb_bot.Base.{
  ℕ, suc, ◌+◌, ◌/◌, ◌%◌, ◌≤◌, ◌<◌, ◌≡◌, sym, ap, ◌∙◌, false, List, [], ◌∷◌, ◌++◌, arith, length,
  length-append, set-set, Bytes, Outcome, crash, out_of_bounds, ◌>>=◌, append-nil,
}
use gnuweeb_bot.Server.State.{
  State, Chan, Ret, done, data_bufsiz, data_offset, Memory, store_bytes, load_bytes, put_chan,
}
use gnuweeb_bot.Server.Memory.{load_same, store_below, store_above, load-store_behind}
use gnuweeb_bot.Server.Submit.{SubmitEnv, submit_event}
use gnuweeb_bot.Server.Client.{
  seal_packet, handle_client_event3, handle_client_event, after_event, complete, close_chan,
}
use gnuweeb_bot.Server.Framing.{frame, Connected, packet_len-frame, event_received, with_bytes}

-- The channel with the length in host order and the 0 behind the data.
abbrev pub sealed : Chan → ℕ → Chan
sealed chan n = record chan { raw_buf = seal_packet chan.raw_buf n }

-- Sealing leaves the data alone.
seal-data :
    (m : Memory) (n x y : ℕ) (p : Bytes)
    → load_bytes m 0 (suc (suc n)) ≡ x ∷ y ∷ p
    → load_bytes (seal_packet m n) data_offset n ≡ p
seal-data m n x y p held = load_same (seal_packet m n) m data_offset n untouched ∙ ground arith
  where
    untouched : (k : ℕ) → data_offset ≤ k → k < data_offset + n → seal_packet m n k ≡ m k
    untouched k lo hi =
        store_below (store_bytes m 0 (n % 256 ∷ n / 256 ∷ [])) (data_offset + n) (0 ∷ []) k
          (omega arith)
        ∙ store_above m 0 (n % 256 ∷ n / 256 ∷ []) k (omega arith)

module _ (env : SubmitEnv) (st : State) (i : ℕ) (chan : Chan) (p : Bytes) where
  event3_completes :
      load_bytes chan.raw_buf 0 (length (frame p)) ≡ frame p
      → length p ≤ data_bufsiz
      → handle_client_event3 env st i chan (length (frame p))
        ≡ complete env
            (put_chan st i (record chan { recv_s = length (frame p) }))
            i
            (record chan { recv_s = length (frame p) })
            (length p)
  unfolding handle_client_event3
  event3_completes held small =
      let (len, _) =
        packet_len-frame chan.raw_buf (length p) (length p / 256) (length p % 256) p [] p held
          (append-nil (frame p)) in
      ground arith

module _ (env : SubmitEnv) (st : State) (i fd : ℕ) (bs : Bytes) (con : Connected st i fd bs) where
  module _ (b : ℕ) (chunk p : Bytes) (split : bs ++ b ∷ chunk ≡ frame p) where
    -- The channel with the whole packet, before and after it is sealed.
    abbrev pub full : Chan
    full = record (with_bytes con.chan (b ∷ chunk)) { recv_s = length (frame p) }

    sizes : length bs + length (b ∷ chunk) ≡ length (frame p)
    sizes = sym (length-append bs (b ∷ chunk)) ∙ ap length split

    full-text : load_bytes full.raw_buf 0 (length (frame p)) ≡ frame p
    full-text =
        sym (
          ap (load_bytes full.raw_buf 0) (ap (λ (k : ℕ). k + length (b ∷ chunk)) con.count ∙ sizes))
        ∙ load-store_behind con.chan.raw_buf bs (b ∷ chunk) con.chan.recv_s con.text con.count
        ∙ split

    event_completed :
        length p ≤ data_bufsiz
        → handle_client_event env (done (b ∷ chunk)) fd st false
          ≡ (complete env (put_chan st i full) i full (length p) >>= after_event i fd)
    event_completed small =
        event_received env st i fd bs con b chunk (omega (arith, sizes))
        ∙ ap (λ (n : ℕ). handle_client_event3 env st₁ i wb n >>= after_event i fd) sizes
        ∙ ap (λ (r : Outcome (State × Ret)). r >>= after_event i fd)
            (event3_completes env st₁ i wb p full-text small)
        ∙ ap
            (λ (cs : List Chan).
              complete env (record st { chans = cs }) i full (length p) >>= after_event i fd)
            (set-set st.chans i wb full)
      where
        wb : Chan
        wb = with_bytes con.chan (b ∷ chunk)

        st₁ : State
        st₁ = put_chan st i wb

    -- The event that completes a packet whose data are shorter than the buffer, of 0x6000 bytes,
    -- hands the packet over and closes the connection, whether the packet could be handed over or
    -- not.
    pub event_completes :
        length p < data_bufsiz
        → handle_client_event env (done (b ∷ chunk)) fd st false ≡ (
            submit_event env
              (put_chan (put_chan st i full) i (sealed full (length p)))
              (sealed full (length p))
              (length p)
            >>= λ r. close_chan r.0 i fd)
    unfolding complete after_event
    event_completes small = event_completed (omega arith) ∙ ground arith

    -- A packet whose data fill the buffer is not refused: the 0 behind the data is written outside it.
    pub event_overflow :
        length p ≡ data_bufsiz
        → handle_client_event env (done (b ∷ chunk)) fd st false ≡ crash out_of_bounds
    unfolding complete
    event_overflow full_size = event_completed (omega arith) ∙ ground arith

    -- What is handed over holds the data, and a 0 behind them.
    pub sealed-data :
        length p < data_bufsiz
        → (load_bytes (sealed full (length p)).raw_buf data_offset (length p) ≡ p)
          × ((sealed full (length p)).raw_buf (data_offset + length p) ≡ 0)
    sealed-data small = (
      seal-data full.raw_buf (length p) (length p / 256) (length p % 256) p full-text,
      ground arith,
    )
