-- ===== src/Tree/Linking.antt =====
-- The two loops of `add` in src/NLinkedTree.cpp.
use order_processor.Common.{
  ◌≡◌, refl, ◌∙◌, sym, ap, true, Option, none, some, is_some, List, [], ◌∷◌, arith, ◌==◌, contains,
  insert_key, contains-insert_key, if◌then◌else◌, update, Bool-cases, Option-cases, subst, ==_iff,
  inl, inr,
}
use order_processor.Model.Ids.{IdT}
use order_processor.Acid.Objects.{Object}
use order_processor.Tree.Defs.{Node, link_objects, attach, last, set_used, insert_parent, add_child}
use order_processor.Tree.Invariant.{
  has_object, NoRepeats, parents_of, uses, node_parents, node_uses, update_at, update_off,
}

-- The users of the objects after the first loop.
pub link_objects-users :
    (key : IdT) (os : List Object) (used : Object → List IdT) (ps : List IdT) (o : Object)
    → NoRepeats os
    → (link_objects key os used ps).0 o
      ≡ (if has_object o os then insert_key key (used o) else used o)
unfolding link_objects
link_objects-users key [] used ps o d = refl
link_objects-users key (p ∷ os) used ps o d = ground (
  arith,
  link_objects-users key os (set_used used p (insert_key key (used p)))
      (insert_parent (last (used p)) ps) o d.1,
)

insert_parent-keeps :
    (q : IdT) (p : Option IdT) (ps : List IdT)
    → contains q ps ≡ true
    → contains q (insert_parent p ps) ≡ true
insert_parent-keeps q none ps h = h
insert_parent-keeps q (some p) ps h = ground (arith, contains-insert_key p q ps)

link_objects-keeps :
    (key : IdT) (os : List Object) (used : Object → List IdT) (ps : List IdT) (q : IdT)
    → contains q ps ≡ true
    → contains q (link_objects key os used ps).1 ≡ true
unfolding link_objects
link_objects-keeps key [] used ps q h = h
link_objects-keeps key (p ∷ os) used ps q h =
    link_objects-keeps key os (set_used used p (insert_key key (used p)))
      (insert_parent (last (used p)) ps) q (insert_parent-keeps q (last (used p)) ps h)

-- The last user of each object is among the parents.
pub link_objects-last :
    (key : IdT) (os : List Object) (used : Object → List IdT) (ps : List IdT) (o : Object) (q : IdT)
    → NoRepeats os
    → has_object o os ≡ true
    → last (used o) ≡ some q
    → contains q (link_objects key os used ps).1 ≡ true
unfolding link_objects
link_objects-last key [] used ps o q d m l = cc
link_objects-last key (p ∷ os) used ps o q d m l = ground (
  arith,
  contains-insert_key q q ps,
  link_objects-keeps key os (set_used used p (insert_key key (used p)))
      (insert_parent (last (used p)) ps) q,
  link_objects-last key os (set_used used p (insert_key key (used p)))
      (insert_parent (last (used p)) ps) o q d.1,
)

module _ {ℓ} {V : Type ℓ} where
  -- The second loop changes the children only.
  abbrev pub SameNodes : (IdT → Option (Node V)) → (IdT → Option (Node V)) → IdT → Type 0
  SameNodes keys keys' k =
      (is_some (keys' k) ≡ is_some (keys k))
      × (parents_of keys' k ≡ parents_of keys k)
      × ((o : Object) → uses keys' k o ≡ uses keys k o)

  SameNodes-trans :
      (f g h : IdT → Option (Node V)) (k : IdT)
      → SameNodes g h k
      → SameNodes f g k
      → SameNodes f h k
  SameNodes-trans f g h k b a = (b.0 ∙ a.0, b.1 ∙ a.1, λ o. b.2 o ∙ a.2 o)

  add_child-SameNodes :
      (key p : IdT) (n : Node V) (keys : IdT → Option (Node V)) (k : IdT)
      → keys p ≡ some n
      → SameNodes keys (update keys p (some (add_child key n))) k
  add_child-SameNodes key p n keys k e = elim (Bool-cases (p == k)) [
    | inl h ↦
        let e' : keys k ≡ some n = subst (λ x. keys x ≡ some n) ((==_iff p k).0 h) e in
        let f = update_at keys p k (some (add_child key n)) h in
        (
          ap is_some f ∙ sym (ap is_some e'),
          ap node_parents f ∙ sym (ap node_parents e'),
          λ o. ap (node_uses o) f ∙ sym (ap (node_uses o) e'),
        )
    | inr h ↦
        let f = update_off keys p k (some (add_child key n)) h in
        (ap is_some f, ap node_parents f, λ o. ap (node_uses o) f)
  ]

  pub attach-SameNodes :
      (key : IdT) (ps : List IdT) (keys : IdT → Option (Node V)) (k : IdT)
      → SameNodes keys (attach key ps keys).0 k
  unfolding attach
  attach-SameNodes key [] keys k = (refl, refl, λ o. refl)
  attach-SameNodes key (p ∷ ps) keys k = elim (Option-cases (keys p)) [
    | inl e ↦ rw (e, attach) (attach-SameNodes key ps keys k)
    | inr (n, e) ↦
        let keys' : IdT → Option (Node V) = update keys p (some (add_child key n)) in
        rw (e, attach)
          (SameNodes-trans keys keys' (attach key ps keys').0 k (attach-SameNodes key ps keys' k)
            (add_child-SameNodes key p n keys k e))
  ]

  pub attach-parents :
      (key : IdT) (ps : List IdT) (keys : IdT → Option (Node V)) (q : IdT)
      → contains q ps ≡ true
      → is_some (keys q) ≡ true
      → contains q (attach key ps keys).1 ≡ true
  unfolding attach
  attach-parents key [] keys q m s = cc
  attach-parents key (p ∷ ps) keys q m s = elim (Option-cases (keys p)) [
    | inl e ↦ rw (e, attach) (attach-parents key ps keys q (ground arith) s)
    | inr (n, e) ↦
        let keys' : IdT → Option (Node V) = update keys p (some (add_child key n)) in
        rw (e, attach)
          (ground (
            arith,
            contains-insert_key p q (attach key ps keys').1,
            attach-parents key ps keys' q,
            add_child-SameNodes key p n keys q e,
          ))
  ]
