-- ===== src/Queue.antt =====
-- The queue of heap objects of gc.c as it stands in memory: linked nodes with q_head and q_tail.
pub mod Nodes
pub mod Refine
use precision_gc.Base.{ℕ, Bool, false, ◌||◌, List, [], ◌∷◌, ◌==◌, if◌then◌else◌}
use precision_gc.Types.{Run, done, abort}

-- The nodes: the fields heap_object and next of struct q_node at each address, and the addresses that
-- liballocs's private allocator has handed out.
pub record NodeStore : Type 0 where
  pub heap_object : ℕ → ℕ
  pub next : ℕ → ℕ
  pub used : List ℕ

abbrev pub contains : ℕ → List ℕ → Bool
contains a [] = false
contains a (b ∷ bs) = (a == b) || contains a bs

abbrev pub is_used : NodeStore → ℕ → Bool
is_used s a = contains a s.used

pub record Queue : Type 0 where
  pub store : NodeStore
  pub q_head : ℕ
  pub q_tail : ℕ

unfoldable pub set_object : NodeStore → ℕ → ℕ → NodeStore
set_object s node w = record s { heap_object = λ a. if a == node then w else s.heap_object a }

unfoldable pub set_next : NodeStore → ℕ → ℕ → NodeStore
set_next s node w = record s { next = λ a. if a == node then w else s.next a }

module _ (private_malloc : NodeStore → ℕ × NodeStore)
    (private_free : ℕ → NodeStore → NodeStore) where
  unfoldable pub enqueue_heap_queue_node : ℕ → Queue → Run Queue
  unfolding set_object set_next
  enqueue_heap_queue_node heap_pointer q =
      let (node, s) = private_malloc q.store in
      let filled = set_next (set_object s node heap_pointer) node 0 in
      if q.q_tail == 0
      then (if q.q_head == 0
          then done (record { store = filled; q_head = node; q_tail = node })
          else abort)
      else done (record q { store = set_next filled q.q_tail node; q_tail = node })

  unfoldable pub dequeue_heap_queue_node : Queue → Queue
  dequeue_heap_queue_node q =
      if q.q_head == 0
      then q
      else (let head = q.store.next q.q_head in
          record {
            store = private_free q.q_head q.store;
            q_head = head;
            q_tail = if head == 0 then 0 else q.q_tail;
          })
