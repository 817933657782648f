-- ===== src/Tree/Relinking.antt =====
-- The second loop of `remove` in src/NLinkedTree.cpp.
use order_processor.Common.{
  ℕ, ◌≡◌, refl, ◌∙◌, sym, ap, Bool, true, false, not, ◌&&◌, Option, none, some, is_some, List, [],
  ◌∷◌, ◌++◌, ◌==◌, if◌then◌else◌, Bool-cases, inl, inr, ==_iff, ==-refl,
}
use order_processor.Model.Ids.{IdT}
use order_processor.Acid.Objects.{Object}
use order_processor.Tree.Defs.{Node, no_key, is_nil}
use order_processor.Tree.Remove.{
  ChildElement, relink_one, relink_child, drop_from, drop_child, new_parents, has_parent, more_of,
}
use order_processor.Tree.Linking.{SameNodes}
use order_processor.Tree.Invariant.{
  parents_of, uses, node_parents, node_uses, update_at, update_off,
}

module _ {ℓ} {V : Type ℓ} where
  drop_child-same :
      (key : IdT) (n : Option (Node V))
      → (is_some (drop_child key n) ≡ is_some n)
        × (node_parents (drop_child key n) ≡ node_parents n)
        × ((o : Object) → node_uses o (drop_child key n) ≡ node_uses o n)
  drop_child-same key none = (refl, refl, λ o. refl)
  drop_child-same key (some n) = (refl, refl, λ o. refl)

  drop_from-SameNodes :
      (key p : IdT) (keys : IdT → Option (Node V)) (k : IdT)
      → SameNodes keys (drop_from key p keys) k
  unfolding drop_from
  drop_from-SameNodes key p keys k = elim (Bool-cases (p == no_key)) [
    | inl z ↦ rw z (refl, refl, λ o. refl)
    | inr z ↦ rw z (elim (Bool-cases (p == k)) [
      | inl h ↦
          let f = update_at keys p k (drop_child key (keys p)) h in
          let e = ap keys ((==_iff p k).0 h) in
          let d = drop_child-same key (keys p) in
          (
            ap is_some f ∙ d.0 ∙ ap is_some e,
            ap node_parents f ∙ d.1 ∙ ap node_parents e,
            λ o. ap (node_uses o) f ∙ d.2 o ∙ ap (node_uses o) e,
          )
      | inr h ↦
          let f = update_off keys p k (drop_child key (keys p)) h in
          (ap is_some f, ap node_parents f, λ o. ap (node_uses o) f)
    ])
  ]

  -- Whether a round changes a child.
  abbrev pub moves : ChildElement → (IdT → Option (Node V)) → Bool
  moves e keys = not (e.child == no_key) && is_some (keys e.child)

  -- What a round makes of the nodes and the root's list.
  pub record Round (key : IdT) (e : ChildElement) (more : Bool) (keys keys' : IdT → Option (Node V))
      (root root' : List IdT) : Type 0 where
    pub nodes : (k : IdT) → is_some (keys' k) ≡ is_some (keys k)
    pub objects : (k : IdT) (o : Object) → uses keys' k o ≡ uses keys k o
    pub parents :
        (k : IdT)
        → parents_of keys' k ≡ (
            if moves e keys && (e.child == k)
            then new_parents key e.parent (has_parent e.parent keys) (parents_of keys k)
            else parents_of keys k)
    pub roots : root' ≡ (
        if moves e keys
          && (not (has_parent e.parent keys) && (is_nil (parents_of keys' e.child) && not more))
        then root ++ e.child ∷ []
        else root)

  still-Round :
      (key : IdT) (e : ChildElement) (more : Bool) (keys keys' : IdT → Option (Node V))
      (root : List IdT)
      → ((k : IdT) → SameNodes keys keys' k)
      → moves e keys ≡ false
      → Round key e more keys keys' root root
  still-Round key e more keys keys' root same m = record {
    nodes = λ k. (same k).0;
    objects = λ k o. (same k).2 o;
    parents = λ k. (same k).1 ∙ (λ i.
        if sym m i && (e.child == k)
        then new_parents key e.parent (has_parent e.parent keys) (parents_of keys k)
        else parents_of keys k);
    roots = λ i.
        if sym m i
          && (not (has_parent e.parent keys) && (is_nil (parents_of keys' e.child) && not more))
        then root ++ e.child ∷ []
        else root;
  }

  moved-Round :
      (key : IdT) (e : ChildElement) (has more : Bool) (c : Node V)
      (keys keys' : IdT → Option (Node V)) (root : List IdT) (ready : ℕ)
      → ((k : IdT) → SameNodes keys keys' k)
      → keys' e.child ≡ some c
      → moves e keys ≡ true
      → has ≡ has_parent e.parent keys
      → let r = relink_child key e has more (some c) (keys', root, ready) in
        Round key e more keys r.0 root r.1
  unfolding relink_child
  moved-Round key e has more c keys keys' root ready same f m h =
      let ps = new_parents key e.parent has c.parents in
      let c' : Node V = record c { parents = ps } in
      let at = λ (k : IdT) (b : (e.child == k) ≡ true). update_at keys' e.child k (some c') b in
      let off = λ (k : IdT) (b : (e.child == k) ≡ false). update_off keys' e.child k (some c') b in
      let node =
        λ (k : IdT) (b : (e.child == k) ≡ true). sym f ∙ ap keys' ((==_iff e.child k).0 b) in
      record {
        nodes = λ k. elim (Bool-cases (e.child == k)) [
          | inl b ↦ ap is_some (at k b) ∙ ap is_some (node k b) ∙ (same k).0
          | inr b ↦ ap is_some (off k b) ∙ (same k).0
        ];
        objects = λ k o. elim (Bool-cases (e.child == k)) [
          | inl b ↦ ap (node_uses o) (at k b) ∙ ap (node_uses o) (node k b) ∙ (same k).2 o
          | inr b ↦ ap (node_uses o) (off k b) ∙ (same k).2 o
        ];
        parents = λ k. elim (Bool-cases (e.child == k)) [
          | inl b ↦
              ap node_parents (at k b)
              ∙ (λ i. new_parents key e.parent (h i) ((ap node_parents (node k b) ∙ (same k).1) i))
              ∙ (λ i.
                  if sym m i && sym b i
                  then new_parents key e.parent (has_parent e.parent keys) (parents_of keys k)
                  else parents_of keys k)
          | inr b ↦ ap node_parents (off k b) ∙ (same k).1 ∙ (λ i.
              if sym m i && sym b i
              then new_parents key e.parent (has_parent e.parent keys) (parents_of keys k)
              else parents_of keys k)
        ];
        roots = λ i.
            if sym m i
              && (not (h i)
                  && (is_nil (sym (ap node_parents (at e.child (==-refl e.child))) i) && not more))
            then root ++ e.child ∷ []
            else root;
      }

  moves-some :
      (e : ChildElement) (keys keys' : IdT → Option (Node V)) (n : Option (Node V))
      → is_some (keys' e.child) ≡ is_some (keys e.child)
      → keys' e.child ≡ n
      → (e.child == no_key) ≡ false
      → moves e keys ≡ is_some n
  moves-some e keys keys' n s f z = λ i. not (z i) && (sym s ∙ ap is_some f) i

  child-Round :
      (key : IdT) (e : ChildElement) (has more : Bool) (n : Option (Node V))
      (keys keys' : IdT → Option (Node V)) (root : List IdT) (ready : ℕ)
      → ((k : IdT) → SameNodes keys keys' k)
      → keys' e.child ≡ n
      → (e.child == no_key) ≡ false
      → has ≡ has_parent e.parent keys
      → let r = relink_child key e has more n (keys', root, ready) in
        Round key e more keys r.0 root r.1
  child-Round key e has more none keys keys' root ready same f z h =
      unfold relink_child in
      still-Round key e more keys keys' root same
        (moves-some e keys keys' none (same e.child).0 f z)
  child-Round key e has more (some c) keys keys' root ready same f z h =
      moved-Round key e has more c keys keys' root ready same f
        (moves-some e keys keys' (some c) (same e.child).0 f z) h

  pub relink_one-Round :
      (key : IdT) (e : ChildElement) (rest : List ChildElement) (keys : IdT → Option (Node V))
      (root : List IdT) (ready : ℕ)
      → let r = relink_one key e rest (keys, root, ready) in
        Round key e (more_of e.child rest) keys r.0 root r.1
  unfolding relink_one
  relink_one-Round key e rest keys root ready = elim (Bool-cases (e.child == no_key)) [
    | inl z ↦ rw z (
        still-Round key e (more_of e.child rest) keys (drop_from key e.parent keys) root
          (drop_from-SameNodes key e.parent keys) (λ i. not (z i) && is_some (keys e.child)))
    | inr z ↦ rw z (
        child-Round key e (has_parent e.parent keys) (more_of e.child rest) _ keys
          (drop_from key e.parent keys) root ready (drop_from-SameNodes key e.parent keys) refl z
          refl)
  ]
