-- ===== src/Que.antt =====
-- include/gwbot/lib/que.h: the bounded queue of packets that wait for a thread, a linked list.
pub mod Chain
pub mod Fifo
pub mod Destroy
mod Tests
use gnuweeb_bot.Base.{
  ℕ, zero, suc, ◌+◌, ◌-◌, ◌%◌, ◌^◌, not, Option, none, some, ◌++◌, [], ◌∷◌, leb, ◌==◌,
  if◌then◌else◌, take, Bytes, Outcome, ok, crash, assertion, out_of_bounds, out_of_fuel, check,
  ◌>>=◌, ◌>>◌,
}

-- An address; 0 is NULL.
abbrev pub Ptr : Type 0
Ptr = ℕ

abbrev pub null : Ptr
null = 0

-- `struct que_node`.
pub record Node : Type 0 where
  pub next : Ptr
  pub prev : Ptr
  pub len : ℕ
  pub data' : Bytes

-- The allocated nodes.
abbrev pub Heap : Type 0
Heap = Ptr → Option Node

abbrev pub write : Heap → Ptr → Option Node → Heap
write h p c q = if p == q then c else h q

-- `struct que_master`, and the memory that its nodes live in.
pub record Que : Type 0 where
  pub heap : Heap
  pub head : Ptr
  pub tail : Ptr
  pub count : ℕ
  pub capacity : ℕ

pub que_init : Que → ℕ → Que
que_init q capacity = record q { head = null; tail = null; count = 0; capacity = capacity }

pub que_count : Que → ℕ
que_count q = q.count

-- The node that `que_enqueue` returns, or NULL with an errno.
pub data Enqueued : Type 0 where
  enqueued : Ptr → Enqueued
  refused : ℕ → Enqueued

-- errno values of Linux
abbrev pub eagain : ℕ
eagain = 11

abbrev pub enomem : ℕ
enomem = 12

-- A read of `*p`.
abbrev pub load : Que → Ptr → Outcome Node
load q p = elim (q.heap p) [ none ↦ crash out_of_bounds | some n ↦ ok n ]

abbrev pub node : Ptr → Ptr → ℕ → Bytes → Node
node next prev len bytes = record { next = next; prev = prev; len = len; data' = bytes }

-- The branches of `que_enqueue` behind `memcpy`: an empty queue, and `tail->next = node`.
first : Que → Ptr → ℕ → Bytes → Outcome Que
first q p len bytes = do
  check (q.tail == null) assertion
  ok (record q { heap = write q.heap p (some (node null null len bytes)); head = p; tail = p })

append : Que → Ptr → ℕ → Bytes → Outcome Que
append q p len bytes = do
  check (not (q.tail == null)) assertion
  let q' = record q { heap = write q.heap p (some (node null q.tail len bytes)) }
  t ← load q' q.tail
  ok (record q' { heap = write q'.heap q.tail (some (record t { next = p })); tail = p })

-- `p` is what `aligned_alloc` returns. The bytes end with the 0 that the code adds.
pub que_enqueue : Que → (p : Ptr) → Bytes → ℕ → Outcome (Que × Enqueued)
unfolding first append
que_enqueue q p bytes len =
    if leb q.capacity q.count
    then ok (q, refused eagain)
    else if p == null
    then ok (q, refused enomem)
    else do
      let stored = take len bytes ++ 0 ∷ []
      q' ← if q.head == null then first q p len stored else append q p len stored
      ok (record q' { count = (q'.count + 1) % 2 ^ 32 }, enqueued p)

-- The result is the first node, or NULL.
unfoldable pub que_dequeue : Que → Outcome (Que × Ptr)
que_dequeue q =
    if q.count == 0
    then (do check (q.head == null) assertion; check (q.tail == null) assertion; ok (q, null))
    else do
      n ← load q q.head
      if n.next == null
          then (do
            check (q.count == 1) assertion
            check (q.head == q.tail) assertion
            ok (record q { head = null; tail = null; count = q.count - 1 }, q.head))
          else ok (record q { head = n.next; count = q.count - 1 }, q.head)

-- `free(node)`; freeing NULL does nothing.
pub que_node_destroy : Que → Ptr → Outcome Que
que_node_destroy q p =
    if p == null then ok q else (load q p >>= λ _. ok (record q { heap = write q.heap p none }))

-- `while (head)` of `que_destroy`, on fuel.
destroy_from : ℕ → Que → Ptr → Outcome Que
destroy_from zero q p = crash out_of_fuel
destroy_from (suc k) q p =
    if p == null then ok q else do n ← load q p; q' ← que_node_destroy q p; destroy_from k q' n.next

pub que_destroy : Que → Outcome Que
unfolding destroy_from que_node_destroy
que_destroy q = do
  q' ← if q.count == 0 then ok q else destroy_from (q.count + 1) q q.head
  ok (que_init q' 0)
