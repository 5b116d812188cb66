-- ===== src/Samples/Nodes.antt =====
-- The queue of heap objects with an allocator that hands out the address behind those in use.
use precision_gc.Base.{
  ℕ, ◌+◌, ◌≡◌, ◌≢◌, refl, false, ◌≤◌, ◌<◌, List, [], ◌∷◌, arith, ◌==◌, if◌then◌else◌,
}
use precision_gc.Types.{done}
use precision_gc.Trace.{dequeue}
use precision_gc.Queue.{
  NodeStore, Queue, contains, enqueue_heap_queue_node, dequeue_heap_queue_node,
}
use precision_gc.Queue.Nodes.{PrivateLaws, Holds}
use precision_gc.Queue.Refine.{enqueue-Holds, dequeue-Holds}

-- more than all of them
abbrev above : List ℕ → ℕ
above [] = 1
above (b ∷ bs) = b + above bs

abbrev without : ℕ → List ℕ → List ℕ
without p [] = []
without p (b ∷ bs) = if b == p then without p bs else b ∷ without p bs

contains-above : (a : ℕ) (bs : List ℕ) → above bs ≤ a → contains a bs ≡ false
contains-above a [] h = refl
contains-above a (b ∷ bs) h = ground (arith, contains-above a bs, above-positive bs)
  where
    above-positive : (cs : List ℕ) → 0 < above cs
    above-positive [] = omega arith
    above-positive (c ∷ cs) = omega (arith, above-positive cs)

above-ne : (bs : List ℕ) → above bs ≢ 0
above-ne [] = omega arith
above-ne (b ∷ bs) = omega (arith, above-ne bs)

contains-without :
    (p a : ℕ) (bs : List ℕ) → contains a (without p bs) ≡ (if a == p then false else contains a bs)
contains-without p a [] = ground arith
contains-without p a (b ∷ bs) = ground (arith, contains-without p a bs)

abbrev private_malloc : NodeStore → ℕ × NodeStore
private_malloc s = (above s.used, record s { used = above s.used ∷ s.used })

abbrev private_free : ℕ → NodeStore → NodeStore
private_free p s = record s { used = without p s.used }

laws : PrivateLaws private_malloc private_free
laws = record {
  ne_null = λ s. above-ne s.used;
  fresh = λ s. contains-above (above s.used) s.used (omega arith);
  malloc_used = λ s a. ground arith;
  malloc_keeps = λ s a on. (refl, refl);
  free_used = λ s p a. contains-without p a s.used;
  free_keeps = λ s p a ne on. (refl, refl);
}

-- nodes 1 and 2, the second the last one
abbrev two : Queue
two = record {
  store = record {
    heap_object = λ a. a + 70;
    next = λ a. if a == 1 then 2 else 0;
    used = 1 ∷ 2 ∷ [];
  };
  q_head = 1;
  q_tail = 2;
}

two-Holds : Holds two (71 ∷ 72 ∷ [])
two-Holds = record {
  nodes = record { addr = 1; object = 71 } ∷ record { addr = 2; object = 72 } ∷ [];
  links =
      (refl, omega arith, refl, refl, (omega arith, tt), (refl, omega arith, refl, refl, tt, refl));
  last = refl;
  objects_eq = refl;
}

enqueue-Holds_example :
    (t : Queue) × (enqueue_heap_queue_node private_malloc private_free 73 two ≡ done t)
    × Holds t (71 ∷ 72 ∷ 73 ∷ [])
enqueue-Holds_example =
    enqueue-Holds private_malloc private_free laws 73 two (71 ∷ 72 ∷ []) two-Holds

dequeue-Holds_example :
    Holds (dequeue_heap_queue_node private_malloc private_free two) (dequeue (71 ∷ 72 ∷ []))
    × (◌≡◌ {A = List ℕ} (71 ∷ 72 ∷ []) []
        → dequeue_heap_queue_node private_malloc private_free two ≡ two)
dequeue-Holds_example = dequeue-Holds private_malloc private_free laws two (71 ∷ 72 ∷ []) two-Holds
