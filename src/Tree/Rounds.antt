-- ===== src/Tree/Rounds.antt =====
-- All rounds of the second loop of `remove` in src/NLinkedTree.cpp.
use order_processor.Common.{
  ℕ, ◌<◌, ◌≡◌, refl, ◌∙◌, sym, subst, Bool, true, false, not, ◌&&◌, Option, is_some, List, [], ◌∷◌,
  ◌++◌, arith, ◌==◌, erase_key, contains, contains-erase_key, contains-insert_key, if◌then◌else◌,
  Bool-cases, ◌⊎◌, inl, inr, All, ==-refl,
}
use order_processor.Model.Ids.{IdT}
use order_processor.Acid.Objects.{Object}
use order_processor.Tree.Defs.{Node, no_key, is_nil}
use order_processor.Tree.Remove.{ChildElement, relink_one, relink, new_parents, has_parent, more_of}
use order_processor.Tree.Chains.{HasNoRepeats, HasNoRepeats-append, contains-append}
use order_processor.Tree.Unlinking.{element_in, ChildrenFrom}
use order_processor.Tree.Relinking.{Round, relink_one-Round, moves}
use order_processor.Tree.Invariant.{parents_of, uses}

new_parents-keeps :
    (key p x : IdT) (has : Bool) (ps : List IdT)
    → (x == key) ≡ false
    → contains x ps ≡ true
    → contains x (new_parents key p has ps) ≡ true
new_parents-keeps key p x has ps n h =
    ground (arith, contains-insert_key p x (erase_key key ps), contains-erase_key key x ps)

new_parents-adds : (key p : IdT) (ps : List IdT) → contains p (new_parents key p true ps) ≡ true
new_parents-adds key p ps = ground (arith, contains-insert_key p p (erase_key key ps))

-- A child that is in front of all of an element's is not among those behind.
none_behind :
    (c b : IdT) (es : List ChildElement)
    → c < b
    → ChildrenFrom b es
    → All (λ e. (c == e.child) ≡ false) es
none_behind c b [] h s = tt
none_behind c b (e ∷ es) h s = (ground arith, none_behind c e.child es (omega (arith, s.0)) s.1)

no_more :
    (c : IdT) (es : List ChildElement)
    → ChildrenFrom c es
    → more_of c es ≡ false
    → All (λ e. (c == e.child) ≡ false) es
no_more c [] s h = tt
no_more c (e ∷ es) s h = (h, none_behind c e.child es (ground arith) s.1)

-- The child of an element is not at the root.
abbrev pub IsApart : List IdT → ChildElement → Type 0
IsApart root e = (if e.child == no_key then true else not (contains e.child root)) ≡ true

IsApart-append :
    (c : IdT) (root : List IdT) (es : List ChildElement)
    → All (λ e. (c == e.child) ≡ false) es
    → All (IsApart root) es
    → All (IsApart (root ++ c ∷ [])) es
IsApart-append c root [] n a = tt
IsApart-append c root (e ∷ es) n a =
    (ground (arith, contains-append e.child c root), IsApart-append c root es n.1 a.1)

module _ {ℓ} {V : Type ℓ} where
  -- A key at the root has a node, and no parents.
  abbrev pub IsRooted : (IdT → Option (Node V)) → List IdT → Type 0
  IsRooted keys root =
      (k : IdT)
      → (if contains k root then is_some (keys k) && is_nil (parents_of keys k) else true) ≡ true

  module _ (key : IdT) (e : ChildElement) (more : Bool) (keys keys' : IdT → Option (Node V))
      (root root' : List IdT) (r : Round key e more keys keys' root root') where
    Round-keeps :
        (x k : IdT)
        → (x == key) ≡ false
        → contains x (parents_of keys k) ≡ true
        → contains x (parents_of keys' k) ≡ true
    Round-keeps x k n h = ground (
      arith,
      r.parents k,
      new_parents-keeps key e.parent x (has_parent e.parent keys) (parents_of keys k),
    )

    Round-links :
        (e.child == no_key) ≡ false
        → (e.parent == no_key) ≡ false
        → is_some (keys e.child) ≡ true
        → is_some (keys e.parent) ≡ true
        → contains e.parent (parents_of keys' e.child) ≡ true
    Round-links c p sc sp =
        let m : moves e keys ≡ true = λ i. not (c i) && sc i in
        let h : has_parent e.parent keys ≡ true = λ i. not (p i) && sp i in
        let q : parents_of keys' e.child ≡ new_parents key e.parent true (parents_of keys e.child) =
          r.parents e.child ∙ (λ i.
            if m i && ==-refl e.child i
            then new_parents key e.parent (h i) (parents_of keys e.child)
            else parents_of keys e.child) in
        rw q (new_parents-adds key e.parent (parents_of keys e.child))

    -- The child joins the root, or nothing does.
    Joins : Type 0
    Joins =
        (moves e keys ≡ true)
        × (is_nil (parents_of keys' e.child) ≡ true)
        × (more ≡ false)
        × (root' ≡ root ++ e.child ∷ [])

    Round-cases : (root' ≡ root) ⊎ Joins
    unfolding Joins
    Round-cases =
        elim (Bool-cases (
          moves e keys
          && (not (has_parent e.parent keys) && (is_nil (parents_of keys' e.child) && not more)))) [
            | inl h ↦ inr (
              ground arith,
              ground arith,
              ground arith,
              r.roots ∙ (λ i. if h i then root ++ e.child ∷ [] else root),
            )
            | inr h ↦ inl (r.roots ∙ (λ i. if h i then root ++ e.child ∷ [] else root))
          ]

    old_root : IsApart root e → IsRooted keys root → IsRooted keys' root
    old_root a v k = ground (arith, r.parents k, r.nodes k, v k)

    Round-IsRooted : IsApart root e → IsRooted keys root → IsRooted keys' root'
    unfolding Joins
    Round-IsRooted a v = elim Round-cases [
      | inl h ↦ subst (IsRooted keys') (sym h) (old_root a v)
      | inr (m, n, _, h) ↦
          subst (IsRooted keys') (sym h)
            (λ k. ground (arith, old_root a v k, contains-append k e.child root, r.nodes e.child))
    ]

    Round-once : IsApart root e → HasNoRepeats root → HasNoRepeats root'
    unfolding Joins
    Round-once a d = elim Round-cases [
      | inl h ↦ subst HasNoRepeats (sym h) d
      | inr (m, n, _, h) ↦
          subst HasNoRepeats (sym h) (HasNoRepeats-append e.child root d (ground arith))
    ]

    Round-IsApart :
        (es : List ChildElement)
        → ChildrenFrom e.child es
        → more ≡ more_of e.child es
        → All (IsApart root) es
        → All (IsApart root') es
    unfolding Joins
    Round-IsApart es s m a = elim Round-cases [
      | inl h ↦ subst (λ l. All (IsApart l) es) (sym h) a
      | inr (_, n, none_left, h) ↦
          subst (λ l. All (IsApart l) es) (sym h)
            (IsApart-append e.child root es (no_more e.child es s (sym m ∙ none_left)) a)
    ]

  pub relink-nodes :
      (key : IdT) (es : List ChildElement) (keys : IdT → Option (Node V)) (root : List IdT)
      (ready : ℕ) (k : IdT)
      → is_some ((relink key es (keys, root, ready)).0 k) ≡ is_some (keys k)
  unfolding relink
  relink-nodes key [] keys root ready k = refl
  relink-nodes key (e ∷ es) keys root ready k =
      let (keys', root', ready') = relink_one key e es (keys, root, ready) in
      relink-nodes key es keys' root' ready' k ∙ (relink_one-Round key e es keys root ready).nodes k

  pub relink-uses :
      (key : IdT) (es : List ChildElement) (keys : IdT → Option (Node V)) (root : List IdT)
      (ready : ℕ) (k : IdT) (o : Object)
      → uses (relink key es (keys, root, ready)).0 k o ≡ uses keys k o
  unfolding relink
  relink-uses key [] keys root ready k o = refl
  relink-uses key (e ∷ es) keys root ready k o =
      let (keys', root', ready') = relink_one key e es (keys, root, ready) in
      relink-uses key es keys' root' ready' k o
      ∙ (relink_one-Round key e es keys root ready).objects k o

  pub relink-keeps :
      (key : IdT) (es : List ChildElement) (keys : IdT → Option (Node V)) (root : List IdT)
      (ready : ℕ) (x k : IdT)
      → (x == key) ≡ false
      → contains x (parents_of keys k) ≡ true
      → contains x (parents_of (relink key es (keys, root, ready)).0 k) ≡ true
  unfolding relink
  relink-keeps key [] keys root ready x k n h = h
  relink-keeps key (e ∷ es) keys root ready x k n h =
      let (keys', root', ready') = relink_one key e es (keys, root, ready) in
      relink-keeps key es keys' root' ready' x k n (
        Round-keeps key e (more_of e.child es) keys keys' root root'
          (relink_one-Round key e es keys root ready) x k n h)

  -- Between the two ends of every element there is a link behind the loop.
  pub relink-links :
      (key : IdT) (es : List ChildElement) (keys : IdT → Option (Node V)) (root : List IdT)
      (ready : ℕ) (c p : IdT)
      → element_in c p es ≡ true
      → (c == no_key) ≡ false
      → (p == no_key) ≡ false
      → (p == key) ≡ false
      → is_some (keys c) ≡ true
      → is_some (keys p) ≡ true
      → contains p (parents_of (relink key es (keys, root, ready)).0 c) ≡ true
  unfolding relink
  relink-links key [] keys root ready c p m nc np n sc sp = cc
  relink-links key (e ∷ es) keys root ready c p m nc np n sc sp =
      let (keys', root', ready') = relink_one key e es (keys, root, ready) in
      let r = relink_one-Round key e es keys root ready in
      elim (Bool-cases ((e.child == c) && (e.parent == p))) [
        | inl h ↦
            let a : e.child ≡ c = ground arith in
            let b : e.parent ≡ p = ground arith in
            relink-keeps key es keys' root' ready' p c n (
              subst (λ x. contains x (parents_of keys' c) ≡ true) b
                (subst (λ x. contains e.parent (parents_of keys' x) ≡ true) a
                  (Round-links key e (more_of e.child es) keys keys' root root' r
                    (subst (λ x. (x == no_key) ≡ false) (sym a) nc)
                    (subst (λ x. (x == no_key) ≡ false) (sym b) np)
                    (subst (λ x. is_some (keys x) ≡ true) (sym a) sc)
                    (subst (λ x. is_some (keys x) ≡ true) (sym b) sp))))
        | inr h ↦
            relink-links key es keys' root' ready' c p (ground arith) nc np n (r.nodes c ∙ sc)
              (r.nodes p ∙ sp)
      ]

  -- The root's list behind the loop.
  pub relink-root :
      (key b : IdT) (es : List ChildElement) (keys : IdT → Option (Node V)) (root : List IdT)
      (ready : ℕ)
      → ChildrenFrom b es
      → All (IsApart root) es
      → IsRooted keys root
      → HasNoRepeats root
      → let r = relink key es (keys, root, ready) in IsRooted r.0 r.1 × HasNoRepeats r.1
  unfolding relink
  relink-root key b [] keys root ready s a v d = (v, d)
  relink-root key b (e ∷ es) keys root ready s a v d =
      let (keys', root', ready') = relink_one key e es (keys, root, ready) in
      let r = relink_one-Round key e es keys root ready in
      let more = more_of e.child es in
      relink-root key e.child es keys' root' ready' s.1
        (Round-IsApart key e more keys keys' root root' r es s.1 refl a.1)
        (Round-IsRooted key e more keys keys' root root' r a.0 v)
        (Round-once key e more keys keys' root root' r a.0 d)
