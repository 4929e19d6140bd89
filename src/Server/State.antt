-- ===== src/Server/State.antt =====
-- The state of core/server.c (include/gwbot/gwbot.h), what a system call may answer, and the
-- accesses to the arrays that the handlers share.
use gnuweeb_bot.Base.{
  ℕ, zero, suc, ◌+◌, ◌%◌, ◌^◌, Bool, false, Option, none, some, List, [], ◌∷◌, ◌==◌, if◌then◌else◌,
  get_elem?, set, Bytes, Outcome, ok, crash, out_of_bounds,
}
use gnuweeb_bot.TStack.{TStack}
use gnuweeb_bot.Que.{Que, Ptr}

-- The int that a handler returns: 0, or -e for an errno e (values of Linux).
pub data Ret : Type 0 where
  success : Ret
  fail : ℕ → Ret

abbrev pub e2big : ℕ
e2big = 7

abbrev pub eagain : ℕ
eagain = 11

abbrev pub einval : ℕ
einval = 22

abbrev pub eoverflow : ℕ
eoverflow = 75

abbrev pub enetdown : ℕ
enetdown = 100

abbrev pub einprogress : ℕ
einprogress = 115

-- What a system call answers: a value, or -1 with an errno.
pub data Sys {ℓ} (A : Type ℓ) : Type ℓ where
  done : A → Sys A
  failed : ℕ → Sys A

-- The calls by which the server acts on descriptors and threads, in the order they are made.
pub data Action : Type 0 where
  close_fd epoll_add epoll_delete shutdown_fd : ℕ → Action
  signal_thread spawn_thread : ℕ → Action

-- CHPKT_DATA_BUFSIZ, `offsetof(struct chan_pkt, data)`, `sizeof(struct chan_pkt)`
abbrev pub data_bufsiz : ℕ
data_bufsiz = 0x6000

abbrev pub data_offset : ℕ
data_offset = 2

abbrev pub raw_size : ℕ
raw_size = 0x6002

abbrev pub epl_map_size : ℕ
epl_map_size = 0xffff

-- IPV4_L
abbrev pub ipv4_l : ℕ
ipv4_l = 16

-- A byte array; accesses are checked against its size where they are made.
abbrev pub Memory : Type 0
Memory = ℕ → ℕ

-- `memcpy` of a text to an offset.
abbrev pub store_bytes : Memory → ℕ → Bytes → Memory
store_bytes m off [] = m
store_bytes m off (b ∷ bs) = store_bytes (λ i. if i == off then b else m i) (off + 1) bs

-- The first `n` bytes from an offset on.
abbrev pub load_bytes : Memory → ℕ → ℕ → Bytes
load_bytes m off zero = []
load_bytes m off (suc n) = m off ∷ load_bytes m (off + 1) n

-- `struct gwbot_chan`; `none` is the descriptor -1.
pub record Chan : Type 0 where
  pub is_online : Bool
  pub chan_fd : Option ℕ
  pub chan_idx : ℕ
  pub src_port : ℕ
  pub src_ip : Bytes
  pub accepted_at : ℕ
  pub recv_s : ℕ
  pub raw_buf : Memory

-- `struct gwbot_thread`, without its lock and condition.
pub record Thread : Type 0 where
  pub thread_idx : ℕ
  pub is_online : Bool
  pub has_event : Bool
  pub ev_from_sqe : Bool
  pub pkt_len : ℕ
  pub sqe_node : Ptr
  pub raw_buf : Memory

-- `struct gwbot_state`, `thread_c` of its configuration, and the actions taken, the last first.
pub record State : Type 0 where
  pub stop_el : Bool
  pub tcp_fd : Option ℕ
  pub epl_fd : Option ℕ
  pub thread_c : ℕ
  pub epl_map : Memory
  pub chans : List Chan
  pub threads : List Thread
  pub active_chan : ℕ
  pub sqes : Que
  pub chan_stk : TStack
  pub thread_stk : TStack
  pub actions : List Action

abbrev pub act : Action → State → State
act a st = record st { actions = a ∷ st.actions }

-- `state->chans[i]`
abbrev pub load_chan : State → ℕ → Outcome Chan
load_chan st i = elim (get_elem? st.chans i) [ none ↦ crash out_of_bounds | some c ↦ ok c ]

abbrev pub put_chan : State → ℕ → Chan → State
put_chan st i c = record st { chans = set st.chans i c }

-- `state->threads[i]`
abbrev pub load_thread : State → ℕ → Outcome Thread
load_thread st i = elim (get_elem? st.threads i) [ none ↦ crash out_of_bounds | some t ↦ ok t ]

abbrev pub put_thread : State → ℕ → Thread → State
put_thread st i t = record st { threads = set st.threads i t }

unfoldable pub reset_chan : Chan → ℕ → Chan
reset_chan c i = record c {
  chan_fd = none;
  chan_idx = i % 2 ^ 16;
  accepted_at = 0;
  recv_s = 0;
  is_online = false;
}
