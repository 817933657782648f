-- ===== src/Tree/Invariant.antt =====
-- What ties the users of an object to the parents of a node in the tree of src/NLinkedTree.cpp.
use order_processor.Common.{
  ◌≡◌, ◌≢◌, refl, ◌∙◌, sym, Bool, true, false, ◌&&◌, Option, none, some, is_some, List, [], ◌∷◌,
  ite, arith, ◌==◌, contains, IsAscending, if◌then◌else◌, update,
}
use order_processor.Model.Ids.{IdT}
use order_processor.Acid.Objects.{Object, Object-discrete}
use order_processor.Tree.Defs.{Node, Tree, is_nil}
use order_processor.Tree.Chains.{Chained, Chained-first, HasNoRepeats}

abbrev pub has_object : Object → List Object → Bool
has_object o [] = false
has_object o (p ∷ ps) = ite (Object-discrete p o) true (has_object o ps)

-- No object twice.
abbrev pub NoRepeats : List Object → Type 0
NoRepeats [] = Unit {0}
NoRepeats (o ∷ os) = (has_object o os ≡ false) × NoRepeats os

same_head : (x y : IdT) (xs ys : List IdT) → x ∷ xs ≡ y ∷ ys → x ≡ y
same_head x y xs ys e = cc

module _ {ℓ} {V : Type ℓ} where
  abbrev pub node_parents : Option (Node V) → List IdT
  node_parents none = []
  node_parents (some n) = n.parents

  abbrev pub node_uses : Object → Option (Node V) → Bool
  node_uses o none = false
  node_uses o (some n) = has_object o n.depends

  abbrev pub parents_of : (IdT → Option (Node V)) → IdT → List IdT
  parents_of keys k = node_parents (keys k)

  -- Whether a transaction of the tree uses an object.
  abbrev pub uses : (IdT → Option (Node V)) → IdT → Object → Bool
  uses keys k o = node_uses o (keys k)

  pub node_uses-none :
      (o : Object) (n : Option (Node V)) → is_some n ≡ false → node_uses o n ≡ false
  node_uses-none o none h = refl
  node_uses-none o (some n) h = cc

  pub node_uses-some : (o : Object) (n : Option (Node V)) → node_uses o n ≡ true → is_some n ≡ true
  node_uses-some o none h = cc
  node_uses-some o (some n) h = refl

  -- A change at one key, at that key and elsewhere.
  pub update_at :
      (m : IdT → Option (Node V)) (k j : IdT) (x : Option (Node V))
      → (k == j) ≡ true
      → update m k x j ≡ x
  update_at m k j x h = rw h refl

  pub update_off :
      (m : IdT → Option (Node V)) (k j : IdT) (x : Option (Node V))
      → (k == j) ≡ false
      → update m k x j ≡ m j
  update_off m k j x h = rw h refl

  -- A key at the root has a node without parents.
  abbrev pub root_at : Tree V → IdT → Bool
  root_at t k =
      if contains k t.root then is_some (t.keys k) && is_nil (parents_of t.keys k) else true

  pub record IsLinked (t : Tree V) : Type ℓ where
    pub users : (o : Object) (k : IdT) → contains k (t.used_in o) ≡ uses t.keys k o
    pub ordered : (o : Object) → IsAscending (t.used_in o)
    pub chained : (o : Object) → Chained (parents_of t.keys) (t.used_in o)
    pub root : (k : IdT) → root_at t k ≡ true
    pub once : HasNoRepeats t.root

  root_first :
      (t : Tree V) (o : Object) (k : IdT)
      → IsLinked t
      → contains k t.root ≡ true
      → uses t.keys k o ≡ true
      → (ys : List IdT) × (t.used_in o ≡ k ∷ ys)
  root_first t o k v r u =
      Chained-first (parents_of t.keys) k (t.used_in o) (v.chained o) (v.users o k ∙ u)
        (ground (arith, v.root k))

  shared_root :
      (t : Tree V) (o : Object) (j k : IdT)
      → IsLinked t
      → contains j t.root ≡ true
      → contains k t.root ≡ true
      → uses t.keys j o ≡ true
      → uses t.keys k o ≡ true
      → j ≡ k
  shared_root t o j k v rj rk uj uk =
      let (xs, e) = root_first t o j v rj uj in
      let (ys, f) = root_first t o k v rk uk in same_head j k xs ys (sym e ∙ f)

  -- In a linked tree, no object is used by two different transactions at the root: those that are
  -- ready to be executed do not disturb one another.
  pub root-disjoint :
      (t : Tree V) (o : Object) (j k : IdT)
      → IsLinked t
      → contains j t.root ≡ true
      → contains k t.root ≡ true
      → j ≢ k
      → (uses t.keys j o && uses t.keys k o) ≡ false
  root-disjoint t o j k v rj rk n = ground (arith, shared_root t o j k v rj rk)
