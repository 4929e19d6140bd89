-- ===== src/Server/Tests.antt =====
-- The theorems on core/server.c at a concrete server with one channel and one thread.
use gnuweeb_bot.Base.{
  ℕ, zero, suc, ◌/◌, ◌%◌, ◌≡◌, refl, none, some, true, false, [], ◌∷◌, arith, length, replicate,
  length-replicate, Bytes, ok, crash, out_of_bounds, ◌==◌, if◌then◌else◌, ◌>>=◌, get_elem?,
}
use gnuweeb_bot.TStack.{TStack}
use gnuweeb_bot.TStack.Refine.{contents}
use gnuweeb_bot.Que.{Que, null}
use gnuweeb_bot.Que.Fifo.{Holds, cell}
use gnuweeb_bot.Server.State.{
  State, Chan, Thread, Ret, success, done, data_bufsiz, load_bytes, put_chan, close_fd,
  epoll_delete,
}
use gnuweeb_bot.Server.Submit.{SubmitEnv, submit_event}
use gnuweeb_bot.Server.Client.{handle_client_event, close_chan}
use gnuweeb_bot.Server.Accept.{AcceptEnv, run_acceptor}
use gnuweeb_bot.Server.Framing.{Connected, frame, grown, event_waits}
use gnuweeb_bot.Server.Delivery.{full, sealed, event_completes, event_overflow}
use gnuweeb_bot.Server.Handover.{Given, submit_event_free, submit_event_busy}
use gnuweeb_bot.Server.Fragments.{receive_all, parts_wait}
use gnuweeb_bot.Server.Slots.{SlotsOk}
use gnuweeb_bot.Server.Slots.Accept.{Accepts, run_acceptor-SlotsOk}
use gnuweeb_bot.Server.Slots.Close.{close_chan-SlotsOk}

abbrev idle_chan : Chan
idle_chan = record {
  is_online = false;
  chan_fd = none;
  chan_idx = 0;
  src_port = 0;
  src_ip = [];
  accepted_at = 0;
  recv_s = 0;
  raw_buf = λ _. 0;
}

-- The channel of the descriptor 5, with the first byte of a packet.
abbrev client_chan : Chan
client_chan = record idle_chan { is_online = true; chan_fd = some 5; recv_s = 1 }

abbrev idle_thread : Thread
idle_thread = record {
  thread_idx = 0;
  is_online = false;
  has_event = false;
  ev_from_sqe = false;
  pkt_len = 0;
  sqe_node = null;
  raw_buf = λ _. 0;
}

abbrev one_free : TStack
one_free = record { sp = 0; capacity = 1; arr = 0 ∷ [] }

abbrev none_free : TStack
none_free = record { sp = 1; capacity = 1; arr = 0 ∷ [] }

abbrev empty_que : Que
empty_que = record { heap = λ _. none; head = null; tail = null; count = 0; capacity = 2 }

-- The server before a client connects.
abbrev fresh : State
fresh = record {
  stop_el = false;
  tcp_fd = some 3;
  epl_fd = some 4;
  thread_c = 1;
  epl_map = λ _. 0;
  chans = idle_chan ∷ [];
  threads = idle_thread ∷ [];
  active_chan = 0;
  sqes = empty_que;
  chan_stk = one_free;
  thread_stk = one_free;
  actions = [];
}

-- The server with a client at the descriptor 5.
abbrev serving : State
serving = record fresh {
  epl_map = λ fd. if fd == 5 then 1 else 0;
  chans = client_chan ∷ [];
  active_chan = 1;
  chan_stk = none_free;
}

abbrev env : SubmitEnv
env = record { node = 64; pthread_create = done tt }

abbrev accept_env : AcceptEnv
accept_env = record {
  accept = done 5;
  addr_too_long = false;
  ntop = some (49 ∷ []);
  src_port = 4000;
  time = done 9;
  epoll_ctl = done tt;
}

client : Connected serving 0 5 (0 ∷ [])
client = record {
  chan = client_chan;
  here = refl;
  serves = refl;
  mapped = refl;
  fd_lt = omega arith;
  count = refl;
  text = refl;
}

-- A packet that fills the buffer, from a client that has sent nothing yet.
abbrev large : Bytes
large = replicate data_bufsiz 1

abbrev silent : State
silent = record serving { chans = record client_chan { recv_s = 0 } ∷ [] }

silent_client : Connected silent 0 5 []
silent_client = record {
  chan = record client_chan { recv_s = 0 };
  here = refl;
  serves = refl;
  mapped = refl;
  fd_lt = omega arith;
  count = refl;
  text = refl;
}

fresh-SlotsOk : SlotsOk fresh
fresh-SlotsOk = record {
  valid = omega arith;
  capacity = refl;
  many = refl;
  word = omega arith;
  distinct = (tt, tt);
  free = ((idle_chan, refl, refl), tt);
  mapped = λ fd m eq. ground arith;
  numbered = numbered;
  accounted = omega arith;
}
  where
    numbered : (m : ℕ) (c : Chan) → get_elem? (idle_chan ∷ []) m ≡ some c → c.chan_idx ≡ m
    numbered zero c eq = ground arith
    numbered (suc m) c eq = ground arith

serving-SlotsOk : SlotsOk serving
serving-SlotsOk = record {
  valid = omega arith;
  capacity = refl;
  many = refl;
  word = omega arith;
  distinct = tt;
  free = tt;
  mapped = mapped;
  numbered = numbered;
  accounted = omega arith;
}
  where
    mapped :
        (fd m : ℕ)
        → (if fd == 5 then 1 else 0) ≡ suc m
        → (c : Chan) × (get_elem? (client_chan ∷ []) m ≡ some c)
          × (c.chan_fd ≡ some fd)
          × (c.is_online ≡ true)
    mapped fd zero eq = (client_chan, refl, ground arith, refl)
    mapped fd (suc m) eq = ground arith

    numbered : (m : ℕ) (c : Chan) → get_elem? (client_chan ∷ []) m ≡ some c → c.chan_idx ≡ m
    numbered zero c eq = ground arith
    numbered (suc m) c eq = ground arith

-- The second and third byte of a packet of five.
event_waits_example :
    (handle_client_event env (done (3 ∷ 65 ∷ [])) 5 serving false
      ≡ ok (
        put_chan serving 0 (
            grown env serving 0 5
              (0 ∷ [])
              client
              3
              (65 ∷ [])
              (66 ∷ 67 ∷ [])
              (65 ∷ 66 ∷ 67 ∷ [])
              refl),
        success,
      ))
    × Connected
        (put_chan serving 0 (
          grown env serving 0 5
            (0 ∷ [])
            client
            3
            (65 ∷ [])
            (66 ∷ 67 ∷ [])
            (65 ∷ 66 ∷ 67 ∷ [])
            refl))
        0
        5
        (0 ∷ 3 ∷ 65 ∷ [])
event_waits_example =
    event_waits env serving 0 5 (0 ∷ []) client 3 (65 ∷ []) (66 ∷ 67 ∷ []) (65 ∷ 66 ∷ 67 ∷ []) refl
      (λ q. ground arith) (omega arith)

-- The rest of a packet of two data bytes.
abbrev whole : Chan
whole = full env serving 0 5 (0 ∷ []) client 2 (65 ∷ 66 ∷ []) (65 ∷ 66 ∷ []) refl

event_completes_example : handle_client_event env (done (2 ∷ 65 ∷ 66 ∷ [])) 5 serving false ≡ (
    submit_event env (put_chan (put_chan serving 0 whole) 0 (sealed whole 2)) (sealed whole 2) 2
    >>= λ r. close_chan r.0 0 5)
event_completes_example =
    event_completes env serving 0 5 (0 ∷ []) client 2 (65 ∷ 66 ∷ []) (65 ∷ 66 ∷ []) refl
      (omega arith)

event_overflow_example :
    handle_client_event env (done (frame large)) 5 silent false ≡ crash out_of_bounds
event_overflow_example =
    event_overflow env silent 0 5 [] silent_client (length large / 256)
      ((length large % 256) ∷ large) large refl (length-replicate {A = ℕ} data_bufsiz 1)

submit_event_free_example :
    (st : State) × (ret : Ret) × (submit_event env fresh client_chan 1 ≡ ok (st, ret))
    × Given client_chan 1 0 [] fresh st
submit_event_free_example =
    submit_event_free env fresh client_chan 1 (omega arith) 0 [] idle_thread refl refl (omega arith)

submit_event_busy_example :
    (st : State) × (submit_event env (record fresh { thread_stk = none_free }) client_chan 1
      ≡ ok (st, success))
    × Holds st.sqes (cell empty_que 64 (load_bytes client_chan.raw_buf 0 3) 3 ∷ [])
    × (st.chans ≡ fresh.chans)
    × (st.threads ≡ fresh.threads)
submit_event_busy_example =
    submit_event_busy env (record fresh { thread_stk = none_free }) client_chan 1 (omega arith) []
      refl (ground arith) (omega arith) (omega arith) refl

run_acceptor-SlotsOk_example : Accepts (done 5) (run_acceptor accept_env fresh)
run_acceptor-SlotsOk_example =
    run_acceptor-SlotsOk accept_env fresh fresh-SlotsOk (λ fd eq. ground arith)

close_chan-SlotsOk_example :
    (st : State) × (close_chan serving 0 5 ≡ ok (st, success))
    × SlotsOk st
    × (contents st.chan_stk ≡ 0 ∷ [])
    × (st.epl_map 5 ≡ 0)
    × (st.actions ≡ close_fd 5 ∷ epoll_delete 5 ∷ [])
close_chan-SlotsOk_example = close_chan-SlotsOk serving 5 0 serving-SlotsOk (omega arith) refl

-- Two more parts of a packet of three data bytes, of which the last is missing.
parts_wait_example :
    (st : State) × (receive_all env 5 serving ((3, []) ∷ (65, 66 ∷ []) ∷ []) ≡ ok st)
    × Connected st 0 5 (0 ∷ 3 ∷ 65 ∷ 66 ∷ [])
parts_wait_example =
    parts_wait env 0 5 (67 ∷ []) (65 ∷ 66 ∷ 67 ∷ []) (λ q. ground arith) (omega arith)
      ((3, []) ∷ (65, 66 ∷ []) ∷ []) serving (0 ∷ []) client refl
