-- ===== src/Queue/Nodes.antt =====
-- When linked nodes hold a list of heap objects.
use precision_gc.Base.{
  ℕ, ◌≡◌, ◌≢◌, refl, true, false, List, [], ◌∷◌, ◌++◌, arith, All, ◌==◌, if◌then◌else◌, ==_ne,
  ==_iff, ap, sym, subst, All-append, ◌∙◌,
}
use precision_gc.Queue.{NodeStore, Queue, is_used}

-- What is asked of liballocs's __private_malloc and __private_free: a new node is not NULL and was not
-- in use, and neither call touches another node in use.
pub record PrivateLaws (private_malloc : NodeStore → ℕ × NodeStore)
    (private_free : ℕ → NodeStore → NodeStore) : Type 0 where
  pub ne_null : (s : NodeStore) → (private_malloc s).0 ≢ 0
  pub fresh : (s : NodeStore) → is_used s (private_malloc s).0 ≡ false
  pub malloc_used :
      (s : NodeStore) (a : ℕ)
      → is_used (private_malloc s).1 a ≡ (if a == (private_malloc s).0 then true else is_used s a)
  pub malloc_keeps :
      (s : NodeStore) (a : ℕ)
      → is_used s a ≡ true
      → ((private_malloc s).1.heap_object a ≡ s.heap_object a)
        × ((private_malloc s).1.next a ≡ s.next a)
  pub free_used :
      (s : NodeStore) (p a : ℕ)
      → is_used (private_free p s) a ≡ (if a == p then false else is_used s a)
  pub free_keeps :
      (s : NodeStore) (p a : ℕ)
      → a ≢ p
      → is_used s a ≡ true
      → ((private_free p s).heap_object a ≡ s.heap_object a)
        × ((private_free p s).next a ≡ s.next a)

-- A node: its address and its object.
pub record Node : Type 0 where
  pub addr : ℕ
  pub object : ℕ

-- From `p` the next pointers lead through different nodes in use to NULL.
abbrev pub Links : NodeStore → ℕ → List Node → Type 0
Links s p [] = p ≡ 0
Links s p (n ∷ ns) =
    (p ≡ n.addr)
    × (p ≢ 0)
    × (is_used s p ≡ true)
    × (s.heap_object p ≡ n.object)
    × All (λ k. p ≢ k.addr) ns
    × Links s (s.next p) ns

-- The last of the nodes, or NULL.
abbrev pub IsLast : ℕ → List Node → Type 0
IsLast t [] = t ≡ 0
IsLast t (n ∷ []) = t ≡ n.addr
IsLast t (n ∷ (k ∷ ns)) = IsLast t (k ∷ ns)

abbrev pub objects : List Node → List ℕ
objects [] = []
objects (n ∷ ns) = n.object ∷ objects ns

-- The queue holds these objects, in this order.
pub record Holds (q : Queue) (os : List ℕ) : Type 0 where
  pub nodes : List Node
  pub links : Links q.store q.q_head nodes
  pub last : IsLast q.q_tail nodes
  pub objects_eq : objects nodes ≡ os

pub ne_last :
    (a t : ℕ) (n : Node) (ns : List Node)
    → All (λ k. a ≢ k.addr) (n ∷ ns)
    → IsLast t (n ∷ ns)
    → a ≢ t
ne_last a t n [] (ne, _) l = omega arith
ne_last a t n (k ∷ ns) (_, ne) l = ne_last a t k ns ne l

pub objects-append : (ns ks : List Node) → objects (ns ++ ks) ≡ objects ns ++ objects ks
objects-append [] ks = refl
objects-append (n ∷ ns) ks = ap (λ os. n.object ∷ os) (objects-append ns ks)

module _ (s : NodeStore) where
  pub Links-append :
      (u : NodeStore) (t : ℕ) (new : Node)
      → ((a : ℕ)
          → is_used s a ≡ true
          → (is_used u a ≡ true)
            × (u.heap_object a ≡ s.heap_object a)
            × (u.next a ≡ (if a == t then new.addr else s.next a)))
      → is_used s new.addr ≡ false
      → Links u new.addr (new ∷ [])
      → (p : ℕ) (n : Node) (ns : List Node) → Links s p (n ∷ ns)
      → IsLast t (n ∷ ns)
      → Links u p ((n ∷ ns) ++ new ∷ []) × IsLast new.addr ((n ∷ ns) ++ new ∷ [])
  Links-append u t new same fresh end p n [] (e, nn, on, ob, _, rest) last =
      let (on', ob', nx) = same p on in
      let goes : u.next p ≡ new.addr = nx ∙ rw ((==_iff p t).1 (e ∙ sym last)) refl in
      (
        (
          e,
          nn,
          on',
          ob' ∙ ob,
          ((λ h. cc (ap (is_used s) h)), tt),
          subst (λ c. Links u c (new ∷ [])) (sym goes) end,
        ),
        refl,
      )
  Links-append u t new same fresh end p n (k ∷ ns) (e, nn, on, ob, ne, rest) last =
      let (on', ob', nx) = same p on in
      let (links, ends) = Links-append u t new same fresh end (s.next p) k ns rest last in
      let goes : u.next p ≡ s.next p = nx ∙ rw (==_ne p t (ne_last p t k ns ne last)) refl in
      (
        (
          e,
          nn,
          on',
          ob' ∙ ob,
          All-append (λ j. p ≢ j.addr) (k ∷ ns) (new ∷ []) ne ((λ h. cc (ap (is_used s) h)), tt),
          subst (λ c. Links u c ((k ∷ ns) ++ new ∷ [])) (sym goes) links,
        ),
        ends,
      )
