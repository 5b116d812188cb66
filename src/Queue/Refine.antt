-- ===== src/Queue/Refine.antt =====
-- The linked nodes of the queue, against the list of their objects.
use precision_gc.Base.{
  ℕ, ◌≡◌, ◌≢◌, refl, true, List, [], ◌∷◌, ◌++◌, arith, All, ◌==◌, if◌then◌else◌, ==_ne, ==_iff,
  ==_self, ap, ◌∙◌, sym, subst,
}
use precision_gc.Types.{done}
use precision_gc.Trace.{dequeue}
use precision_gc.Queue.{
  NodeStore, Queue, is_used, set_object, set_next, enqueue_heap_queue_node, dequeue_heap_queue_node,
}
use precision_gc.Queue.Nodes.{
  PrivateLaws, Node, Links, IsLast, objects, Holds, objects-append, Links-append,
}

last_used :
    (s : NodeStore) (p t : ℕ) (n : Node) (ns : List Node)
    → Links s p (n ∷ ns)
    → IsLast t (n ∷ ns)
    → (t ≢ 0) × (is_used s t ≡ true)
last_used s p t n [] (e, nn, on, _, _, _) last = (omega arith, rw (last ∙ sym e) on)
last_used s p t n (k ∷ ns) (_, _, _, _, _, rest) last = last_used s (s.next p) t k ns rest last

-- nodes other than the freed one
kept-Links :
    (s u : NodeStore) (f : ℕ)
    → ((a : ℕ)
        → a ≢ f
        → is_used s a ≡ true
        → (is_used u a ≡ true) × (u.heap_object a ≡ s.heap_object a) × (u.next a ≡ s.next a))
    → (p : ℕ) (ns : List Node) → Links s p ns
    → All (λ k. f ≢ k.addr) ns
    → Links u p ns
kept-Links s u f same p [] h far = h
kept-Links s u f same p (n ∷ ns) (e, nn, on, ob, ne, rest) (off, far) =
    let (on', ob', nx) = same p (omega arith) on in
    (
      e,
      nn,
      on',
      ob' ∙ ob,
      ne,
      subst (λ c. Links u c ns) (sym nx) (kept-Links s u f same (s.next p) ns rest far),
    )

module _ (private_malloc : NodeStore → ℕ × NodeStore) (private_free : ℕ → NodeStore → NodeStore)
    (laws : PrivateLaws private_malloc private_free) where
  -- the new node
  module _ (s : NodeStore) (o : ℕ) where
    abbrev node : ℕ
    node = (private_malloc s).0

    abbrev filled : NodeStore
    filled = set_next (set_object (private_malloc s).1 node o) node 0

    abbrev new : Node
    new = record { addr = node; object = o }

    filled-Links : Links filled node (new ∷ [])
    unfolding set_next set_object
    filled-Links = (
      refl,
      laws.ne_null s,
      laws.malloc_used s node ∙ rw (==_self node) refl,
      rw (==_self node) refl,
      tt,
      rw (==_self node) refl,
    )

    linked-Links : (t : ℕ) → t ≢ node → Links (set_next filled t node) node (new ∷ [])
    unfolding set_next set_object
    linked-Links t ne = (
      refl,
      laws.ne_null s,
      laws.malloc_used s node ∙ rw (==_self node) refl,
      rw (==_self node) refl,
      tt,
      rw (==_ne node t (λ e. ne (sym e)), ==_self node) refl,
    )

    others :
        (t a : ℕ)
        → is_used s a ≡ true
        → (is_used (set_next filled t node) a ≡ true)
          × ((set_next filled t node).heap_object a ≡ s.heap_object a)
          × ((set_next filled t node).next a ≡ (if a == t then node else s.next a))
    unfolding set_next set_object
    others t a on =
        let ne : a ≢ node = λ e. cc (ap (is_used s) e, laws.fresh s) in
        let keeps = laws.malloc_keeps s a on in
        rw (==_ne a node ne)
          (laws.malloc_used s a ∙ rw (==_ne a node ne) on, keeps.0, rw keeps.1 refl)

  enqueue_nodes :
      (p : ℕ) (q : Queue) (ns : List Node)
      → Links q.store q.q_head ns
      → IsLast q.q_tail ns
      → (t : Queue) × (enqueue_heap_queue_node private_malloc private_free p q ≡ done t)
        × (ks : List Node) × Links t.store t.q_head ks
        × IsLast t.q_tail ks
        × (objects ks ≡ objects ns ++ p ∷ [])
  unfolding enqueue_heap_queue_node
  enqueue_nodes p q [] links last = (
    record { store = filled q.store p; q_head = node q.store p; q_tail = node q.store p },
    rw (last, links) refl,
    new q.store p ∷ [],
    filled-Links q.store p,
    refl,
    refl,
  )
  enqueue_nodes p q (n ∷ ns) links last =
      let s = q.store in
      let (ne, on) = last_used s q.q_head q.q_tail n ns links last in
      let (links', last') =
        Links-append s (set_next (filled s p) q.q_tail (node s p)) q.q_tail (new s p)
          (others s p q.q_tail) (laws.fresh s)
          (linked-Links s p q.q_tail (λ e. cc (ap (is_used s) e, laws.fresh s))) q.q_head n ns links
          last in
      (
        record q { store = set_next (filled s p) q.q_tail (node s p); q_tail = node s p },
        rw (==_ne q.q_tail 0 ne) refl,
        (n ∷ ns) ++ new s p ∷ [],
        links',
        last',
        objects-append (n ∷ ns) (new s p ∷ []),
      )

  freed :
      (s : NodeStore) (p a : ℕ)
      → a ≢ p
      → is_used s a ≡ true
      → (is_used (private_free p s) a ≡ true)
        × ((private_free p s).heap_object a ≡ s.heap_object a)
        × ((private_free p s).next a ≡ s.next a)
  freed s p a ne on =
      let keeps = laws.free_keeps s p a ne on in
      (laws.free_used s p a ∙ rw (==_ne a p ne) on, keeps.0, keeps.1)

  dequeue_nodes :
      (q : Queue) (ns : List Node)
      → Links q.store q.q_head ns
      → IsLast q.q_tail ns
      → Holds (dequeue_heap_queue_node private_malloc private_free q) (dequeue (objects ns))
  unfolding dequeue_heap_queue_node dequeue
  dequeue_nodes q [] links last =
      rw ((==_iff q.q_head 0).1 links)
        (record { nodes = []; links = links; last = last; objects_eq = refl })
  dequeue_nodes q (n ∷ []) (e, nn, on, ob, ne, rest) last =
      rw (==_ne q.q_head 0 nn, rest)
        (record { nodes = []; links = refl; last = refl; objects_eq = refl })
  dequeue_nodes q (n ∷ (k ∷ ns)) (e, nn, on, ob, ne, rest) last =
      rw (==_ne q.q_head 0 nn, ==_ne (q.store.next q.q_head) 0 rest.1)
        (record {
          nodes = k ∷ ns;
          links =
              kept-Links q.store _ q.q_head (freed q.store q.q_head) (q.store.next q.q_head)
                (k ∷ ns) rest ne;
          last = last;
          objects_eq = refl;
        })

  -- Enqueueing in a queue that holds a list of objects puts the object behind them, and no assertion
  -- fails.
  pub enqueue-Holds :
      (p : ℕ) (q : Queue) (os : List ℕ)
      → Holds q os
      → (t : Queue) × (enqueue_heap_queue_node private_malloc private_free p q ≡ done t)
        × Holds t (os ++ p ∷ [])
  enqueue-Holds p q os h =
      let (t, runs, ks, links, last, same) = enqueue_nodes p q h.nodes h.links h.last in
      (
        t,
        runs,
        record {
          nodes = ks;
          links = links;
          last = last;
          objects_eq = same ∙ ap (λ l. l ++ p ∷ []) h.objects_eq;
        },
      )

  dequeue_nothing :
      (q : Queue) (ns : List Node)
      → Links q.store q.q_head ns
      → objects ns ≡ []
      → dequeue_heap_queue_node private_malloc private_free q ≡ q
  unfolding dequeue_heap_queue_node
  dequeue_nothing q [] links none = rw ((==_iff q.q_head 0).1 links) refl
  dequeue_nothing q (n ∷ ns) links none = absurd (cc none)

  -- Dequeueing takes the first object of the list away, and leaves an empty queue and its node store
  -- exactly as they were.
  pub dequeue-Holds :
      (q : Queue) (os : List ℕ)
      → Holds q os
      → Holds (dequeue_heap_queue_node private_malloc private_free q) (dequeue os)
        × (os ≡ [] → dequeue_heap_queue_node private_malloc private_free q ≡ q)
  dequeue-Holds q os h = (
    subst (λ l. Holds (dequeue_heap_queue_node private_malloc private_free q) (dequeue l))
        h.objects_eq (dequeue_nodes q h.nodes h.links h.last),
    λ none. dequeue_nothing q h.nodes h.links (h.objects_eq ∙ none),
  )
