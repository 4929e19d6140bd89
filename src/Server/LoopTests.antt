-- ===== src/Server/LoopTests.antt =====
-- The theorems on the set-up and on the work of the threads, at a concrete server with one channel
-- and one thread.
use gnuweeb_bot.Base.{◌≡◌, ◌↔◌, refl, none, some, true, false, [], ◌∷◌, arith, ok, codes, get_elem?}
use gnuweeb_bot.TStack.{TStack}
use gnuweeb_bot.TStack.Refine.{contents}
use gnuweeb_bot.Que.{Que, Heap, write, node, null}
use gnuweeb_bot.Que.Chain.{Cell}
use gnuweeb_bot.Que.Fifo.{Holds}
use gnuweeb_bot.Base.Int.{pos}
use gnuweeb_bot.Server.State.{State, Thread, success, failed}
use gnuweeb_bot.Server.Submit.{dispatch_sqe, host_u16}
use gnuweeb_bot.Server.Setup.{
  Cfg, InitEnv, validate_cfg, init_state, zero_chan, zero_thread, thread_answers, first_fail,
}
use gnuweeb_bot.Server.Started.{Ready, init_state-Ready}
use gnuweeb_bot.Server.Config.{Usable, validate_cfg-Usable}
use gnuweeb_bot.Server.Loop.{finish_event}
use gnuweeb_bot.Server.Work.{Works, dispatch_sqe_lem, finish_event_lem}

-- A packet of one byte, in the node 64.
abbrev packet : Cell
packet = (64, null, 3, 1 ∷ 0 ∷ 65 ∷ 0 ∷ [])

abbrev one_node : Heap
one_node = write (λ _. none) 64 (some (node null null 3 (1 ∷ 0 ∷ 65 ∷ 0 ∷ [])))

abbrev waiting : Que
waiting = record { heap = one_node; head = 64; tail = 64; count = 1; capacity = 2 }

waiting-Holds : Holds waiting (packet ∷ [])
waiting-Holds = ground arith

abbrev one_free : TStack
one_free = record { sp = 0; capacity = 1; arr = 0 ∷ [] }

abbrev server : State
server = record {
  stop_el = false;
  tcp_fd = some 3;
  epl_fd = some 4;
  thread_c = 1;
  epl_map = λ _. 0;
  chans = zero_chan ∷ [];
  threads = zero_thread ∷ [];
  active_chan = 0;
  sqes = waiting;
  chan_stk = one_free;
  thread_stk = one_free;
  actions = [];
}

-- The thread 0 works on the packet.
abbrev worker : Thread
worker = record zero_thread {
  has_event = true;
  ev_from_sqe = true;
  pkt_len = host_u16 (1 ∷ 0 ∷ 65 ∷ 0 ∷ []);
  sqe_node = 64;
}

abbrev working : State
working = record server {
  threads = worker ∷ [];
  thread_stk = record { sp = 1; capacity = 1; arr = 0 ∷ [] };
  sqes = record waiting { head = null; tail = null; count = 0 };
}

working-Works : Works packet [] 0 [] working
working-Works = record {
  thread = worker;
  here = refl;
  has_event = refl;
  from_queue = refl;
  node_is = refl;
  len = refl;
  valid = omega arith;
  free = refl;
  queue = ground arith;
  apart = tt;
  real = omega arith;
  allocated = (null, refl);
}

dispatch_sqe_lem_example :
    (st : State) × (dispatch_sqe (failed 11) server ≡ ok st) × Works packet [] 0 [] st
dispatch_sqe_lem_example =
    dispatch_sqe_lem (failed 11) server packet [] 0 [] zero_thread (omega arith) refl refl
      waiting-Holds

finish_event_lem_example :
    (st : State) × (finish_event working 0 ≡ ok (st, true))
    × (contents st.thread_stk ≡ working-Works.thread.thread_idx ∷ [])
    × Holds st.sqes []
    × (st.sqes.heap 64 ≡ none)
    × ((t : Thread) × (get_elem? st.threads 0 ≡ some t)
        × (t.has_event ≡ false)
        × (t.sqe_node ≡ null))
finish_event_lem_example = finish_event_lem working packet [] 0 [] working-Works refl (omega arith)

abbrev all_well : InitEnv
all_well = record {
  chans_ok = true;
  threads_ok = true;
  map_ok = true;
  chan_stk_ok = true;
  thread_stk_ok = true;
  thread_lock = λ _. success;
  thread_cond = λ _. success;
  locks = success ∷ success ∷ success ∷ success ∷ success ∷ [];
}

threads_well : first_fail (thread_answers all_well 0 1) ≡ success
unfolding thread_answers
threads_well = refl

init_state-Ready_example : (st : State) × (init_state all_well server ≡ ok (st, success)) × Ready st
init_state-Ready_example =
    init_state-Ready all_well server (omega arith) refl refl refl refl refl threads_well refl

abbrev cfg : Cfg
cfg = record {
  bind_addr = some (codes "::1");
  bind_port = 80;
  backlog = pos 5;
  token = some (codes "t");
  thread_c = 4;
  use_db = false;
  mysql_host = none;
  mysql_user = none;
  mysql_db = none;
}

validate_cfg-Usable_example : (validate_cfg cfg ≡ success) ↔ Usable cfg
validate_cfg-Usable_example = validate_cfg-Usable cfg
