-- ===== src/Tree/Removal.antt =====
-- `remove` of src/NLinkedTree.cpp keeps the tree linked.
use order_processor.Common.{
  ◌≡◌, refl, ◌∙◌, sym, ap, subst, true, false, not, ◌&&◌, Option, none, some, is_some, List, [],
  ◌∷◌, arith, ◌==◌, erase_key, erase_first, contains, contains-erase_key, if◌then◌else◌, Bool-cases,
  inl, inr, All, update, ==_iff, IsAscending,
}
use order_processor.Model.Ids.{IdT}
use order_processor.Acid.Objects.{Object}
use order_processor.Tree.Defs.{Node, Tree, no_key, is_nil}
use order_processor.Tree.Remove.{
  ChildElement, relink, unlink_objects, neighbours, remove, remove_node, remove_by, remove_links,
  step_back,
}
use order_processor.Tree.Chains.{Chained, HasNoRepeats}
use order_processor.Tree.Gaps.{
  Bridge, Chained-mono, Chained-erase, erase_key-IsAscending, IsOther, neighbours-others,
}
use order_processor.Tree.Unlinking.{
  HasParent, Noted, unlink_objects-users, unlink_objects-Noted, unlink_objects-children,
  neighbours-HasParent,
}
use order_processor.Tree.Rounds.{
  IsApart, IsRooted, relink-nodes, relink-uses, relink-keeps, relink-links, relink-root,
}
use order_processor.Tree.Invariant.{
  has_object, parents_of, uses, IsLinked, node_parents, node_uses, node_uses-none, node_uses-some,
  update_at, update_off,
}

contains-erase_first :
    (k j : IdT) (xs : List IdT)
    → HasNoRepeats xs
    → contains j (erase_first k xs) ≡ (not (k == j) && contains j xs)
contains-erase_first k j [] d = ground arith
contains-erase_first k j (x ∷ xs) d = ground (arith, contains-erase_first k j xs d.1)

HasNoRepeats-erase_first :
    (k : IdT) (xs : List IdT) → HasNoRepeats xs → HasNoRepeats (erase_first k xs)
HasNoRepeats-erase_first k [] d = tt
HasNoRepeats-erase_first k (x ∷ xs) d =
    ground (arith, HasNoRepeats-erase_first k xs d.1, contains-erase_first k x xs d.1)

module _ {ℓ} {V : Type ℓ} where
  -- The removal of a transaction at the root, whose node is `n`.
  module _ (key : IdT) (t : Tree V) (n : Node V) (v : IsLinked t)
      (zero_key : is_some (t.keys no_key) ≡ false) (at_root : contains key t.root ≡ true)
      (here : t.keys key ≡ some n) where
    elements : List ChildElement
    elements = (unlink_objects key n.depends t.used_in []).1

    used : Object → List IdT
    used = (unlink_objects key n.depends t.used_in []).0

    others : IdT → Option (Node V)
    others = update t.keys key none

    keys : IdT → Option (Node V)
    unfolding elements others
    keys = (relink key elements (others, erase_first key t.root, 0)).0

    root : List IdT
    unfolding elements others
    root = (relink key elements (others, erase_first key t.root, 0)).1

    no_parents : parents_of t.keys key ≡ []
    no_parents = ground (arith, v.root key)

    other_key : (k : IdT) → (key == k) ≡ false → others k ≡ t.keys k
    unfolding others
    other_key k h = update_off t.keys key k none h

    this_key : (k : IdT) → (key == k) ≡ true → others k ≡ none
    unfolding others
    this_key k h = update_at t.keys key k none h

    removed_uses : (k : IdT) (o : Object) → uses keys k o ≡ (not (key == k) && uses t.keys k o)
    unfolding keys
    removed_uses k o =
        relink-uses key elements others (erase_first key t.root) 0 k o
        ∙ elim (Bool-cases (key == k)) [
          | inl h ↦ ap (node_uses o) (this_key k h) ∙ rw h refl
          | inr h ↦ ap (node_uses o) (other_key k h) ∙ rw h refl
        ]

    key_uses : (o : Object) → contains key (t.used_in o) ≡ has_object o n.depends
    key_uses o = v.users o key ∙ ap (node_uses o) here

    used_at :
        (o : Object)
        → used o ≡ (if has_object o n.depends then erase_key key (t.used_in o) else t.used_in o)
    unfolding used
    used_at o = unlink_objects-users key n.depends t.used_in [] o

    removed_users : (o : Object) (k : IdT) → contains k (used o) ≡ uses keys k o
    removed_users o k = ground (
      arith,
      used_at o,
      removed_uses k o,
      v.users o k,
      key_uses o,
      contains-erase_key key k (t.used_in o),
    )

    removed_ordered : (o : Object) → IsAscending (used o)
    removed_ordered o = elim (Bool-cases (has_object o n.depends)) [
      | inl h ↦ rw (used_at o) (rw h (erase_key-IsAscending key (t.used_in o) (v.ordered o)))
      | inr h ↦ rw (used_at o) (rw h (v.ordered o))
    ]

    keep :
        (x y : IdT)
        → (x == key) ≡ false
        → contains x (parents_of t.keys y) ≡ true
        → contains x (parents_of keys y) ≡ true
    unfolding keys
    keep x y h m = elim (Bool-cases (key == y)) [
      | inl e ↦
          let q : parents_of t.keys y ≡ [] =
            ap (parents_of t.keys) (sym ((==_iff key y).0 e)) ∙ no_parents in
          absurd (cc (subst (λ l. contains x l ≡ true) q m))
      | inr e ↦
          relink-keeps key elements others (erase_first key t.root) 0 x y h
            (rw (ap node_parents (other_key y e)) m)
    ]

    nonzero : (o : Object) → contains no_key (t.used_in o) ≡ false
    nonzero o = v.users o no_key ∙ node_uses-none o (t.keys no_key) zero_key

    others_some :
        (o : Object) (x : IdT)
        → IsOther key (t.used_in o) x
        → (x == no_key) ≡ false
        → is_some (others x) ≡ true
    others_some o x h z =
        ap is_some (other_key x (ground arith))
        ∙ node_uses-some o (t.keys x) (sym (v.users o x) ∙ ground arith)

    links_over :
        (o : Object) (c p : IdT)
        → Noted (c, p) elements
        → IsOther key (t.used_in o) c
        → IsOther key (t.used_in o) p
        → Bridge (parents_of keys) (c, p)
    unfolding keys
    links_over o c p m hc hp = elim (Bool-cases (not (c == no_key) && not (p == no_key))) [
      | inl b ↦
          let zc : (c == no_key) ≡ false = ground arith in
          let zp : (p == no_key) ≡ false = ground arith in
          rw b (
            relink-links key elements others (erase_first key t.root) 0 c p (rw b at m) zc zp
              (ground arith) (others_some o c hc zc) (others_some o p hp zp))
      | inr b ↦ rw b
    ]

    gap_closed :
        (o : Object)
        → has_object o n.depends ≡ true
        → Bridge (parents_of keys) (neighbours key (t.used_in o))
    unfolding elements
    gap_closed o h =
        let (c, p) = neighbours-others key (t.used_in o) (v.ordered o) in
        links_over o (neighbours key (t.used_in o)).0 (neighbours key (t.used_in o)).1
          (unlink_objects-Noted key n.depends t.used_in [] o h) c p

    removed-Chained : (o : Object) → Chained (parents_of keys) (used o)
    removed-Chained o = elim (Bool-cases (has_object o n.depends)) [
      | inl h ↦ rw (used_at o) (
          rw h (
            Chained-erase (parents_of t.keys) (parents_of keys) key keep (t.used_in o) (nonzero o)
              (v.ordered o) (v.chained o) (gap_closed o h)))
      | inr h ↦ rw (used_at o) (
          rw h (
            Chained-mono (parents_of t.keys) (parents_of keys) key keep (t.used_in o)
              (key_uses o ∙ h) (v.chained o)))
    ]

    rooted : IsRooted others (erase_first key t.root)
    rooted k =
        let c = contains-erase_first key k t.root v.once in
        elim (Bool-cases (key == k)) [
          | inl h ↦ (λ i.
              if (c ∙ (λ j. not (h j) && contains k t.root)) i
              then is_some (others k) && is_nil (parents_of others k)
              else true)
          | inr h ↦
              (λ i.
                if (c ∙ (λ j. not (h j) && contains k t.root)) i
                then is_some (other_key k h i) && is_nil (node_parents (other_key k h i))
                else true)
              ∙ v.root k
        ]

    apart :
        (es : List ChildElement)
        → All (λ e. HasParent (parents_of t.keys) key e.child) es
        → All (IsApart (erase_first key t.root)) es
    apart [] h = tt
    apart (e ∷ es) h = (
      ground (arith, h.0, v.root e.child, contains-erase_first key e.child t.root v.once),
      apart es h.1,
    )

    removed_root : IsRooted keys root × HasNoRepeats root
    unfolding keys root elements
    removed_root =
        let (s, a) =
          unlink_objects-children (parents_of t.keys) key n.depends t.used_in []
            (λ o. neighbours-HasParent (parents_of t.keys) key (t.used_in o) (v.chained o)) tt tt in
        relink-root key 0 elements others (erase_first key t.root) 0 s (apart elements a) rooted
          (HasNoRepeats-erase_first key t.root v.once)

    removed : Tree V
    unfolding used keys root
    removed = record t {
      root = root;
      keys = keys;
      used_in = used;
      current = step_back key t.root t.current;
    }

    removed_keys : (k : IdT) → is_some (keys k) ≡ (not (key == k) && is_some (t.keys k))
    unfolding keys
    removed_keys k =
        relink-nodes key elements others (erase_first key t.root) 0 k
        ∙ elim (Bool-cases (key == k)) [
          | inl h ↦ ap is_some (this_key k h) ∙ rw h refl
          | inr h ↦ ap is_some (other_key k h) ∙ rw h refl
        ]

    removed-IsLinked : IsLinked removed
    unfolding removed
    removed-IsLinked = record {
      users = removed_users;
      ordered = removed_ordered;
      chained = removed-Chained;
      root = removed_root.0;
      once = removed_root.1;
    }

    node_removed :
        (ps l : List IdT)
        → ps ≡ []
        → contains key l ≡ true
        → ((remove_by key n t ps l).0 ≡ removed) × ((remove_by key n t ps l).1 ≡ true)
    unfolding remove_by remove_links removed used keys root elements others
    node_removed [] [] e m = absurd (cc m)
    node_removed [] (r ∷ rs) e m = (refl, refl)
    node_removed (p ∷ ps) l e m = absurd (cc e)

    remove-removed : ((remove key t).0 ≡ removed) × ((remove key t).1 ≡ true)
    unfolding remove_node remove removed
    remove-removed =
        rw (here, remove)
          (node_removed n.parents t.root (sym (ap node_parents here) ∙ no_parents) at_root)

  remove_here :
      (key : IdT) (t : Tree V)
      → IsLinked t
      → is_some (t.keys no_key) ≡ false
      → contains key t.root ≡ true
      → (n : Option (Node V)) → t.keys key ≡ n
      → is_some n ≡ true
      → IsLinked (remove key t).0 × ((remove key t).1 ≡ true)
  remove_here key t v z r none e s = cc
  remove_here key t v z r (some n) e s =
      let (f, g) = remove-removed key t n v z r e in
      (subst IsLinked (sym f) (removed-IsLinked key t n v z r e), g)

  -- A linked tree, in which the empty id is no key, stays linked when a transaction at the root is
  -- removed, and the removal succeeds.
  pub remove-IsLinked :
      (key : IdT) (t : Tree V)
      → IsLinked t
      → is_some (t.keys no_key) ≡ false
      → contains key t.root ≡ true
      → IsLinked (remove key t).0 × ((remove key t).1 ≡ true)
  remove-IsLinked key t v z r =
      remove_here key t v z r (t.keys key) refl (ground (arith, v.root key))

  remove_keys_here :
      (key : IdT) (t : Tree V)
      → IsLinked t
      → is_some (t.keys no_key) ≡ false
      → contains key t.root ≡ true
      → (n : Option (Node V)) → t.keys key ≡ n
      → is_some n ≡ true
      → (k : IdT) → is_some ((remove key t).0.keys k) ≡ (not (key == k) && is_some (t.keys k))
  unfolding removed
  remove_keys_here key t v z r none e s k = cc
  remove_keys_here key t v z r (some n) e s k =
      ap (λ u. is_some (u.keys k)) (remove-removed key t n v z r e).0
      ∙ removed_keys key t n v z r e k

  pub remove-keys :
      (key : IdT) (t : Tree V)
      → IsLinked t
      → is_some (t.keys no_key) ≡ false
      → contains key t.root ≡ true
      → (k : IdT) → is_some ((remove key t).0.keys k) ≡ (not (key == k) && is_some (t.keys k))
  remove-keys key t v z r =
      remove_keys_here key t v z r (t.keys key) refl (ground (arith, v.root key))
