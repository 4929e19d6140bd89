-- ===== src/Server/Framing.antt =====
-- A packet that arrives in parts: the bytes are kept until the packet is complete (core/server.c).
use gnuweeb_bot.Base.{
  ℕ, suc, ◌+◌, ◌-◌, ◌/◌, ◌%◌, ◌≤◌, ◌<◌, ◌≡◌, ◌≢◌, refl, sym, ap, ◌∙◌, Bool, some, false, List, [],
  ◌∷◌, ◌++◌, arith, length, length-append, get_elem?, set-set, get_elem?-set_self, lt_of_get_elem?,
  take, take_all, Bytes, Outcome, ok, ◌>>=◌,
}
use gnuweeb_bot.Server.State.{
  State, Chan, Ret, success, done, data_bufsiz, raw_size, epl_map_size, Memory, store_bytes,
  load_bytes, put_chan,
}
use gnuweeb_bot.Server.Memory.{load-store_behind}
use gnuweeb_bot.Server.Submit.{SubmitEnv}
use gnuweeb_bot.Server.Client.{
  Incoming, packet_len, handle_client_event3, handle_client_event2, handle_client_event,
  after_event,
}

-- What a client sends: the length in network byte order, then the data.
abbrev pub frame : Bytes → Bytes
frame p = (length p / 256) ∷ (length p % 256) ∷ p

-- The channel `i` serves `fd`, and has received `bs`.
pub record Connected (st : State) (i fd : ℕ) (bs : Bytes) : Type 0 where
  pub chan : Chan
  pub here : get_elem? st.chans i ≡ some chan
  pub serves : chan.chan_fd ≡ some fd
  pub mapped : st.epl_map fd ≡ suc i
  pub fd_lt : fd < epl_map_size
  pub count : chan.recv_s ≡ length bs
  pub text : load_bytes chan.raw_buf 0 chan.recv_s ≡ bs

-- The length field of a buffer that begins with the header of a packet.
pub packet_len-frame :
    (m : Memory) (n x y : ℕ) (t r p : Bytes)
    → load_bytes m 0 (suc (suc n)) ≡ x ∷ y ∷ t
    → (x ∷ y ∷ t) ++ r ≡ frame p
    → (packet_len m ≡ length p) × (length t + length r ≡ length p)
packet_len-frame m n x y t r p held split =
    let e₀ : m 0 ≡ x = ground arith in
    let e₁ : m 1 ≡ y = ground arith in
    let f₀ : x ≡ length p / 256 = ground arith in
    let f₁ : y ≡ length p % 256 = ground arith in
    let g : t ++ r ≡ p = ground arith in (omega arith, sym (length-append t r) ∙ ap length g)

module _ (env : SubmitEnv) (st : State) (i : ℕ) (chan : Chan) where
  -- A proper beginning of a packet is kept, and nothing else happens.
  event3_waits :
      (bs rest p : Bytes)
      → load_bytes chan.raw_buf 0 (length bs) ≡ bs
      → bs ++ rest ≡ frame p
      → rest ≢ []
      → length p ≤ data_bufsiz
      → handle_client_event3 env st i chan (length bs)
        ≡ ok (put_chan st i (record chan { recv_s = length bs }), success)
  unfolding handle_client_event3
  event3_waits [] rest p held split more small = refl
  event3_waits (x ∷ []) rest p held split more small = refl
  event3_waits (x ∷ y ∷ t) [] p held split more small = absurd (more refl)
  event3_waits (x ∷ y ∷ t) (r ∷ rs) p held split more small =
      let (len, sum) = packet_len-frame chan.raw_buf (length t) x y t (r ∷ rs) p held split in
      ground arith

-- The channel after `recv` has stored `bytes`.
abbrev pub with_bytes : Chan → Bytes → Chan
with_bytes chan bytes = record chan { raw_buf = store_bytes chan.raw_buf chan.recv_s bytes }

module _ (env : SubmitEnv) (st : State) (i fd : ℕ) (bs : Bytes) (con : Connected st i fd bs) where
  open con use {chan, here, serves, mapped, fd_lt, count, text}

  -- The event reaches the channel that the map names.
  pub event_routed :
      (inc : Incoming) (err_evt : Bool)
      → handle_client_event env inc fd st err_evt ≡ handle_client_event2 env inc fd st i err_evt
  unfolding handle_client_event
  event_routed inc err_evt = ground arith

  -- An event with bytes goes on to `handle_client_event3`.
  pub event_received :
      (b : ℕ) (chunk : Bytes)
      → length bs + length (b ∷ chunk) ≤ raw_size
      → handle_client_event env (done (b ∷ chunk)) fd st false ≡ (
          handle_client_event3 env
            (put_chan st i (with_bytes chan (b ∷ chunk)))
            i
            (with_bytes chan (b ∷ chunk))
            (length bs + length (b ∷ chunk))
          >>= after_event i fd)
  unfolding handle_client_event2
  event_received b chunk room = event_routed (done (b ∷ chunk)) false ∙ step
    where
      whole : take (raw_size - chan.recv_s) (b ∷ chunk) ≡ b ∷ chunk
      whole = take_all (raw_size - chan.recv_s) (b ∷ chunk) (omega arith)

      step : handle_client_event2 env (done (b ∷ chunk)) fd st i false ≡ (
          handle_client_event3 env
            (put_chan st i (with_bytes chan (b ∷ chunk)))
            i
            (with_bytes chan (b ∷ chunk))
            (length bs + length (b ∷ chunk))
          >>= after_event i fd)
      step = ground (arith, whole)

  module _ (b : ℕ) (chunk rest p : Bytes) (split : (bs ++ b ∷ chunk) ++ rest ≡ frame p) where
    sizes : length bs + length (b ∷ chunk) + length rest ≡ length p + 2
    sizes =
        omega (
          arith,
          length-append bs (b ∷ chunk),
          length-append (bs ++ b ∷ chunk) rest,
          ap length split,
        )

    -- The channel afterwards, with all bytes received so far.
    abbrev pub grown : Chan
    grown = record (with_bytes chan (b ∷ chunk)) { recv_s = length bs + length (b ∷ chunk) }

    pub grown-text : load_bytes grown.raw_buf 0 grown.recv_s ≡ bs ++ b ∷ chunk
    grown-text = rw (← count) (load-store_behind chan.raw_buf bs (b ∷ chunk) chan.recv_s text count)

    -- While a packet is not complete its bytes are kept: the event succeeds, the channel goes on
    -- serving its descriptor and has received what came before and the new bytes behind it, and
    -- nothing else of the state changes.
    pub event_waits :
        rest ≢ []
        → length p ≤ data_bufsiz
        → (handle_client_event env (done (b ∷ chunk)) fd st false
            ≡ ok (put_chan st i grown, success))
          × Connected (put_chan st i grown) i fd (bs ++ b ∷ chunk)
    unfolding after_event
    event_waits more small = (
      run,
      record {
        chan = grown;
        here = get_elem?-set_self st.chans i grown (lt_of_get_elem? st.chans i here);
        serves = serves;
        mapped = mapped;
        fd_lt = fd_lt;
        count = sym (length-append bs (b ∷ chunk));
        text = grown-text;
      },
    )
      where
        len : length (bs ++ b ∷ chunk) ≡ length bs + length (b ∷ chunk)
        len = length-append bs (b ∷ chunk)

        kept :
            handle_client_event3 env
              (put_chan st i (with_bytes chan (b ∷ chunk)))
              i
              (with_bytes chan (b ∷ chunk))
              (length bs + length (b ∷ chunk))
            ≡ ok (put_chan (put_chan st i (with_bytes chan (b ∷ chunk))) i grown, success)
        kept = rw (← len) (
            event3_waits env (put_chan st i (with_bytes chan (b ∷ chunk))) i
              (with_bytes chan (b ∷ chunk)) (bs ++ b ∷ chunk) rest p (rw len grown-text) split more
              small)

        run :
            handle_client_event env (done (b ∷ chunk)) fd st false
            ≡ ok (put_chan st i grown, success)
        run =
            event_received b chunk (omega (arith, sizes))
            ∙ rw kept (
                ap {B = Outcome (State × Ret)}
                  (λ (cs : List Chan). ok (record st { chans = cs }, success))
                  (set-set st.chans i (with_bytes chan (b ∷ chunk)) grown))
