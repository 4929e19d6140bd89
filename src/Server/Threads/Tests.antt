-- ===== src/Server/Threads/Tests.antt =====
-- Steps of a server with two threads, and the theorems at them.
use gnuweeb_bot.Base.{
  ◌≡◌, ℕ, zero, suc, refl, none, some, true, false, [], ◌∷◌, arith, ok, get_elem?,
}
use gnuweeb_bot.TStack.{TStack, tss_pop}
use gnuweeb_bot.Que.{Que, Heap, write, node, null, que_dequeue}
use gnuweeb_bot.Server.State.{State, Chan, Thread, done, spawn_thread}
use gnuweeb_bot.Server.Submit.{dispatch_sqe, host_u16, wake}
use gnuweeb_bot.Server.Setup.{zero_chan, zero_thread, reset_thread, new_threads}
use gnuweeb_bot.Server.Loop.{end_thread}
use gnuweeb_bot.Server.Slots.{SlotsOk}
use gnuweeb_bot.Server.Started.{Ready}
use gnuweeb_bot.Server.Threads.{dispatches, Steps, here, by_loop, elsewhere}
use gnuweeb_bot.Server.Threads.Idle.{ThreadsOk}
use gnuweeb_bot.Server.Threads.Kept.{Steps-ThreadsOk, LoopStep-keeps}

abbrev two_free : TStack
two_free = record { sp = 0; capacity = 2; arr = 0 ∷ 1 ∷ [] }

abbrev chan_at : ℕ → Chan
chan_at i = record zero_chan { chan_idx = i }

abbrev thread_at : ℕ → Thread
thread_at i = reset_thread zero_thread i

abbrev no_queue : Que
no_queue = record { heap = λ _. none; head = null; tail = null; count = 0; capacity = 2 }

abbrev server : State
server = record {
  stop_el = false;
  tcp_fd = some 3;
  epl_fd = some 4;
  thread_c = 2;
  epl_map = λ _. 0;
  chans = chan_at 0 ∷ chan_at 1 ∷ [];
  threads = thread_at 0 ∷ thread_at 1 ∷ [];
  active_chan = 0;
  sqes = no_queue;
  chan_stk = two_free;
  thread_stk = two_free;
  actions = [];
}

-- Two packets of one byte wait, in the nodes 64 and 96.
abbrev two_nodes : Heap
two_nodes =
    write (write (λ _. none) 64 (some (node 96 null 3 (1 ∷ 0 ∷ 65 ∷ 0 ∷ [])))) 96
      (some (node null 64 3 (1 ∷ 0 ∷ 66 ∷ 0 ∷ [])))

abbrev queued : State
queued = record server {
  sqes = record { heap = two_nodes; head = 64; tail = 96; count = 2; capacity = 2 };
}

numbered : (m : ℕ) (c : Chan) → get_elem? server.chans m ≡ some c → c.chan_idx ≡ m
numbered zero c at = ground arith
numbered (suc zero) c at = ground arith
numbered (suc (suc m)) c at = ground arith

server-SlotsOk : SlotsOk server
server-SlotsOk = record {
  valid = omega arith;
  capacity = refl;
  many = refl;
  word = omega arith;
  distinct = ground arith;
  free = ((chan_at 0, refl, refl), ((chan_at 1, refl, refl), tt));
  mapped = λ fd m e. absurd (ground arith);
  numbered = numbered;
  accounted = omega arith;
}

server-Ready : Ready server
unfolding new_threads
server-Ready = record {
  slots = server-SlotsOk;
  free_chans = refl;
  valid = omega arith;
  free_threads = refl;
  unmapped = λ fd. refl;
  queue = ground arith;
  nobody = refl;
  new = refl;
}

-- The thread with the packet of the node.
abbrev busy : ℕ → ℕ → Thread
busy i p = record (thread_at i) {
  has_event = true;
  ev_from_sqe = true;
  pkt_len = host_u16 (1 ∷ 0 ∷ []);
  sqe_node = p;
}

abbrev one_busy : State
one_busy = record queued {
  sqes = record { heap = two_nodes; head = 96; tail = 96; count = 1; capacity = 2 };
  threads = busy 0 64 ∷ thread_at 1 ∷ [];
  thread_stk = record two_free { sp = 1 };
  actions = spawn_thread 0 ∷ [];
}

abbrev both_busy : State
both_busy = record one_busy {
  sqes = record { heap = two_nodes; head = null; tail = null; count = 0; capacity = 2 };
  threads = busy 0 64 ∷ busy 1 96 ∷ [];
  thread_stk = record two_free { sp = 2 };
  actions = spawn_thread 1 ∷ spawn_thread 0 ∷ [];
}

first_dispatch : dispatch_sqe (done tt) queued ≡ ok one_busy
unfolding dispatch_sqe tss_pop que_dequeue wake
first_dispatch = refl

second_dispatch : dispatch_sqe (done tt) one_busy ≡ ok both_busy
unfolding dispatch_sqe tss_pop que_dequeue wake
second_dispatch = refl

-- The number of a thread that ends with an event is in no stack any more, and nobody has the event.
event_lost :
    end_thread one_busy 0 ≡ ok (record one_busy { threads = thread_at 0 ∷ thread_at 1 ∷ [] })
unfolding end_thread
event_lost = refl

to_one_busy : Steps server one_busy
to_one_busy =
    elsewhere {st₁ = queued} refl refl (by_loop (dispatches (done tt) first_dispatch) here)

Steps-ThreadsOk_example : ThreadsOk one_busy.threads one_busy.thread_stk
Steps-ThreadsOk_example = Steps-ThreadsOk server one_busy server-Ready to_one_busy

LoopStep-keeps_example : get_elem? both_busy.threads 0 ≡ some (busy 0 64)
LoopStep-keeps_example =
    LoopStep-keeps server one_busy both_busy 0 (busy 0 64) server-Ready to_one_busy
      (dispatches (done tt) second_dispatch) refl refl
