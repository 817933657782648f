-- ===== src/Tree/Growth.antt =====
-- `add` of src/NLinkedTree.cpp keeps the tree linked.
use order_processor.Common.{
  ℕ, ◌<◌, ◌≡◌, refl, ◌∙◌, sym, ap, true, false, ◌&&◌, Option, some, is_some, List, [], ◌∷◌, arith,
  ◌==◌, ◌||◌, ltb, contains, insert_key, contains-insert_key, IsAscending, if◌then◌else◌, update,
  Bool-cases, subst, ==-refl, inl, inr,
}
use order_processor.Model.Ids.{IdT}
use order_processor.Acid.Objects.{Object}
use order_processor.Tree.Defs.{
  Node, Tree, is_nil, link_objects, attach, add, last, push_root, count_root,
}
use order_processor.Tree.Chains.{
  Chained, AllBelow, AllBelow-contains, last-contains, insert_key-IsAscending, Chained-elsewhere,
  Chained-insert, HasNoRepeats, HasNoRepeats-append, contains-append,
}
use order_processor.Tree.Invariant.{
  has_object, NoRepeats, parents_of, uses, root_at, node_parents, node_uses, node_uses-none,
  node_uses-some, update_at, update_off, IsLinked,
}
use order_processor.Tree.Linking.{
  SameNodes, link_objects-users, link_objects-last, attach-SameNodes, attach-parents,
}

contains-push_root :
    (key k : IdT) (ps root : List IdT)
    → (key == k) ≡ false
    → contains k (push_root key ps root) ≡ contains k root
contains-push_root key k [] root h = ground (arith, contains-append k key root)
contains-push_root key k (p ∷ ps) root h = refl

counted :
    (key : IdT) (ps root : List IdT)
    → contains key root ≡ false
    → (contains key (push_root key ps root) ≡ ltb 0 (count_root ps))
      × (contains key (push_root key ps root) ≡ is_nil ps)
counted key [] root h =
    (ground (arith, contains-append key key root), ground (arith, contains-append key key root))
counted key (p ∷ ps) root h = (h, h)

module _ {ℓ} {V : Type ℓ} where
  -- The tree after the addition of a key that is not there.
  module _ (key : IdT) (value : V) (depend : List Object) (ready : ℕ) (t : Tree V) (v : IsLinked t)
      (d : NoRepeats depend) (above : (k : IdT) → is_some (t.keys k) ≡ true → k < key) where
    fresh : is_some (t.keys key) ≡ false
    fresh = elim (Bool-cases (is_some (t.keys key))) [
      | inl h ↦ absurd (omega (arith, above key h))
      | inr h ↦ h
    ]

    parent_keys : List IdT
    parent_keys = (link_objects key depend t.used_in []).1

    used : Object → List IdT
    used = (link_objects key depend t.used_in []).0

    node : Node V
    unfolding parent_keys
    node = record {
      value = value;
      depends = depend;
      parents = (attach key parent_keys t.keys).1;
      children = [];
    }

    keys : IdT → Option (Node V)
    unfolding parent_keys node
    keys = update (attach key parent_keys t.keys).0 key (some node)

    added : Tree V
    unfolding used keys parent_keys
    added = record t { root = push_root key parent_keys t.root; keys = keys; used_in = used }

    add-added : (add key value depend ready t).0 ≡ added
    unfolding add used keys parent_keys added node
    add-added = rw fresh refl

    key_at : (k : IdT) → (key == k) ≡ true → keys k ≡ some node
    unfolding keys
    key_at k h = update_at (attach key parent_keys t.keys).0 key k (some node) h

    key_off : (k : IdT) → (key == k) ≡ false → SameNodes t.keys keys k
    unfolding keys
    key_off k h =
        let f = update_off (attach key parent_keys t.keys).0 key k (some node) h in
        let same = attach-SameNodes key parent_keys t.keys k in
        (ap is_some f ∙ same.0, ap node_parents f ∙ same.1, λ o. ap (node_uses o) f ∙ same.2 o)

    added_uses :
        (k : IdT) (o : Object)
        → uses keys k o ≡ (if key == k then has_object o depend else uses t.keys k o)
    unfolding node
    added_uses k o = elim (Bool-cases (key == k)) [
      | inl h ↦ ap (node_uses o) (key_at k h) ∙ rw h
      | inr h ↦ (key_off k h).2 o ∙ rw h
    ]

    no_use : (o : Object) → contains key (t.used_in o) ≡ false
    no_use o = v.users o key ∙ node_uses-none o (t.keys key) fresh

    users_below : (o : Object) → AllBelow key (t.used_in o)
    users_below o =
        AllBelow-contains key (t.used_in o)
          (λ x m. above x (node_uses-some o (t.keys x) (sym (v.users o x) ∙ m)))

    used_at :
        (o : Object)
        → used o ≡ (if has_object o depend then insert_key key (t.used_in o) else t.used_in o)
    unfolding used
    used_at o = link_objects-users key depend t.used_in [] o d

    added_users : (o : Object) (k : IdT) → contains k (used o) ≡ uses keys k o
    added_users o k = ground (
      arith,
      used_at o,
      added_uses k o,
      v.users o k,
      no_use o,
      contains-insert_key key k (t.used_in o),
    )

    added_ordered : (o : Object) → IsAscending (used o)
    added_ordered o = elim (Bool-cases (has_object o depend)) [
      | inl h ↦ rw (used_at o) (rw h (insert_key-IsAscending key (t.used_in o) (v.ordered o)))
      | inr h ↦ rw (used_at o) (rw h (v.ordered o))
    ]

    last_parent :
        (o : Object) (p : IdT)
        → has_object o depend ≡ true
        → last (t.used_in o) ≡ some p
        → contains p (parents_of keys key) ≡ true
    unfolding node parent_keys
    last_parent o p m l = rw (ap node_parents (key_at key (==-refl key))) (
        attach-parents key parent_keys t.keys p
          (link_objects-last key depend t.used_in [] o p d m l)
          (node_uses-some o (t.keys p) (sym (v.users o p) ∙ last-contains (t.used_in o) p l)))

    old-Chained : (o : Object) → Chained (parents_of keys) (t.used_in o)
    old-Chained o =
        Chained-elsewhere (parents_of t.keys) (parents_of keys) key (t.used_in o)
          (λ y h. (key_off y h).1) (no_use o) (v.chained o)

    added-Chained : (o : Object) → Chained (parents_of keys) (used o)
    added-Chained o = elim (Bool-cases (has_object o depend)) [
      | inl h ↦ rw (used_at o) (
          rw h (
            Chained-insert (parents_of keys) key (t.used_in o) (users_below o)
              (λ p l. last_parent o p h l) (old-Chained o)))
      | inr h ↦ rw (used_at o) (rw h (old-Chained o))
    ]

    no_root : contains key t.root ≡ false
    no_root = ground (arith, v.root key, fresh)

    -- The root's list, the node and its parents as they bear on the root.
    root_same :
        (k : IdT) (root : List IdT) (keys' : IdT → Option (Node V))
        → contains k root ≡ contains k t.root
        → SameNodes t.keys keys' k
        → (if contains k root then is_some (keys' k) && is_nil (parents_of keys' k) else true)
          ≡ true
    root_same k root keys' c same =
        (λ i. if c i then same.0 i && is_nil (same.1 i) else true) ∙ v.root k

    root_new :
        (k : IdT) (ps : List IdT)
        → (key == k) ≡ true
        → (if contains k (push_root key ps t.root) then is_nil (attach key ps t.keys).1 else true)
          ≡ true
    unfolding attach
    root_new k [] h = ground arith
    root_new k (p ∷ ps) h = ground (arith, no_root)

    added_root : (k : IdT) → root_at added k ≡ true
    unfolding added
    added_root k = elim (Bool-cases (key == k)) [
      | inl h ↦
          (λ i.
            if contains k (push_root key parent_keys t.root)
            then is_some (key_at k h i) && is_nil (node_parents (key_at k h i))
            else true)
          ∙ unfold node in root_new k parent_keys h
      | inr h ↦ root_same k _ keys (contains-push_root key k parent_keys t.root h) (key_off k h)
    ]

    added_once : (ps : List IdT) → HasNoRepeats (push_root key ps t.root)
    added_once [] = HasNoRepeats-append key t.root v.once no_root
    added_once (p ∷ ps) = v.once

    added-IsLinked : IsLinked added
    unfolding added
    added-IsLinked = record {
      users = added_users;
      ordered = added_ordered;
      chained = added-Chained;
      root = added_root;
      once = added_once parent_keys;
    }

  -- A linked tree stays linked when a transaction is added whose key is above those in the tree and
  -- whose objects are all different, and the addition succeeds.
  pub add-IsLinked :
      (key : IdT) (value : V) (depend : List Object) (ready : ℕ) (t : Tree V)
      → IsLinked t
      → NoRepeats depend
      → ((k : IdT) → is_some (t.keys k) ≡ true → k < key)
      → IsLinked (add key value depend ready t).0 × ((add key value depend ready t).1 ≡ true)
  unfolding add
  add-IsLinked key value depend ready t v d above = (
    subst IsLinked (sym (add-added key value depend ready t v d above))
        (added-IsLinked key value depend ready t v d above),
    rw (fresh key value depend ready t v d above) refl,
  )

  -- The keys after the addition, and the new one is at the root exactly if it is counted as ready.
  pub add-keys :
      (key : IdT) (value : V) (depend : List Object) (ready : ℕ) (t : Tree V)
      → IsLinked t
      → NoRepeats depend
      → ((k : IdT) → is_some (t.keys k) ≡ true → k < key)
      → (k : IdT)
      → is_some ((add key value depend ready t).0.keys k) ≡ ((key == k) || is_some (t.keys k))
  unfolding added
  add-keys key value depend ready t v d above k =
      ap (λ u. is_some (u.keys k)) (add-added key value depend ready t v d above)
      ∙ elim (Bool-cases (key == k)) [
        | inl h ↦ ap is_some (key_at key value depend ready t v d above k h) ∙ rw h refl
        | inr h ↦ (key_off key value depend ready t v d above k h).0 ∙ rw h refl
      ]

  pub add-ready :
      (key : IdT) (value : V) (depend : List Object) (ready : ℕ) (t : Tree V)
      → IsLinked t
      → NoRepeats depend
      → ((k : IdT) → is_some (t.keys k) ≡ true → k < key)
      → (contains key (add key value depend ready t).0.root
          ≡ ltb 0 (add key value depend ready t).2)
        × (contains key (add key value depend ready t).0.root
            ≡ is_nil (link_objects key depend t.used_in []).1)
  unfolding add
  add-ready key value depend ready t v d above =
      let f = fresh key value depend ready t v d above in
      rw f (
        counted key (link_objects key depend t.used_in []).1 t.root
          (no_root key value depend ready t v d above))
