-- ===== src/Tree/Unlinking.antt =====
-- The first loop of `remove` in src/NLinkedTree.cpp.
use order_processor.Common.{
  ℕ, ◌≤◌, ◌≡◌, subst, refl, Bool, true, false, not, ◌&&◌, ◌||◌, List, [], ◌∷◌, arith, ◌==◌,
  erase_key, contains, contains-erase_key, if◌then◌else◌, Bool-cases, inl, inr, All,
}
use mathlib.Core.Logic.{if_neg}
use order_processor.Model.Ids.{IdT}
use order_processor.Acid.Objects.{Object, Object-discrete}
use order_processor.Tree.Defs.{no_key, set_used}
use order_processor.Tree.Remove.{
  neighbours_after, neighbours, ChildElement, insert_element, note_element, element_lt,
  unlink_objects,
}
use order_processor.Tree.Chains.{Chained}
use order_processor.Tree.Gaps.{erase_key-absent}
use order_processor.Tree.Invariant.{has_object}

erase_key-twice : (k : ℕ) (xs : List IdT) → erase_key k (erase_key k xs) ≡ erase_key k xs
erase_key-twice k xs =
    erase_key-absent k (erase_key k xs) (ground (arith, contains-erase_key k k xs))

-- The users of the objects after the loop.
pub unlink_objects-users :
    (key : IdT) (os : List Object) (used : Object → List IdT) (cs : List ChildElement) (o : Object)
    → (unlink_objects key os used cs).0 o
      ≡ (if has_object o os then erase_key key (used o) else used o)
unfolding unlink_objects
unlink_objects-users key [] used cs o = refl
unlink_objects-users key (p ∷ os) used cs o = ground (
  arith,
  erase_key-twice key (used o),
  unlink_objects-users key os (set_used used p (erase_key key (used p)))
      (note_element (neighbours key (used p)) cs) o,
)

abbrev pub element_in : IdT → IdT → List ChildElement → Bool
element_in c p [] = false
element_in c p (e ∷ es) = ((e.child == c) && (e.parent == p)) || element_in c p es

element_in-insert_element :
    (c p : IdT) (e : ChildElement) (cs : List ChildElement)
    → element_in c p (insert_element e cs)
      ≡ (((e.child == c) && (e.parent == p)) || element_in c p cs)
unfolding insert_element
element_in-insert_element c p e [] = refl
element_in-insert_element c p e (x ∷ xs) = ground (arith, element_in-insert_element c p e xs)

-- The children of the elements do not fall.
abbrev pub ChildrenFrom : IdT → List ChildElement → Type 0
ChildrenFrom c [] = Unit {0}
ChildrenFrom c (e ∷ es) = (c ≤ e.child) × ChildrenFrom e.child es

insert_element-ChildrenFrom :
    (c : IdT) (e : ChildElement) (cs : List ChildElement)
    → c ≤ e.child
    → ChildrenFrom c cs
    → ChildrenFrom c (insert_element e cs)
unfolding insert_element
insert_element-ChildrenFrom c e [] h s = (h, tt)
insert_element-ChildrenFrom c e (x ∷ xs) h s =
    ground (arith, insert_element-ChildrenFrom x.child e xs)

insert_element-All :
    (P : ChildElement → Type 0) (e : ChildElement) (cs : List ChildElement)
    → P e
    → All P cs
    → All P (insert_element e cs)
unfolding insert_element
insert_element-All P e [] h a = (h, tt)
insert_element-All P e (x ∷ xs) h a = elim (Bool-cases (element_lt e x)) [
  | inl l ↦ rw l (h, a)
  | inr l ↦ elim (Bool-cases (element_lt x e)) [
    | inl g ↦ rw (l, g) (a.0, insert_element-All P e xs h a.1)
    | inr g ↦ rw (l, g) a
  ]
]

-- Whether an element for two neighbours, if both are keys, is there.
abbrev pub Noted : IdT × IdT → List ChildElement → Type 0
Noted (c, p) cs =
    (if not (c == no_key) && not (p == no_key) then element_in c p cs else true) ≡ true

note_element-Noted : (n : IdT × IdT) (cs : List ChildElement) → Noted n (note_element n cs)
note_element-Noted (c, p) cs =
    ground (arith, element_in-insert_element c p (record { child = c; parent = p }) cs)

note_element-keeps :
    (n m : IdT × IdT) (cs : List ChildElement) → Noted m cs → Noted m (note_element n cs)
note_element-keeps (c, p) (c', p') cs h =
    ground (arith, element_in-insert_element c' p' (record { child = c; parent = p }) cs)

unlink_objects-keeps :
    (key : IdT) (os : List Object) (used : Object → List IdT) (cs : List ChildElement)
    (m : IdT × IdT)
    → Noted m cs
    → Noted m (unlink_objects key os used cs).1
unfolding unlink_objects
unlink_objects-keeps key [] used cs m h = h
unlink_objects-keeps key (p ∷ os) used cs m h =
    unlink_objects-keeps key os (set_used used p (erase_key key (used p)))
      (note_element (neighbours key (used p)) cs) m
      (note_element-keeps (neighbours key (used p)) m cs h)

-- The neighbours of the key among the users of each object.
pub unlink_objects-Noted :
    (key : IdT) (os : List Object) (used : Object → List IdT) (cs : List ChildElement) (o : Object)
    → has_object o os ≡ true
    → Noted (neighbours key (used o)) (unlink_objects key os used cs).1
unfolding unlink_objects
unlink_objects-Noted key [] used cs o m = cc
unlink_objects-Noted key (p ∷ os) used cs o m = elim (Object-discrete p o) [
  | yes e ↦
      subst (λ q. Noted (neighbours key (used q)) (unlink_objects key (p ∷ os) used cs).1) e
        (unlink_objects-keeps key os (set_used used p (erase_key key (used p)))
          (note_element (neighbours key (used p)) cs) (neighbours key (used p))
          (note_element-Noted (neighbours key (used p)) cs))
  | no n ↦
      subst (λ s. Noted (neighbours key s) (unlink_objects key (p ∷ os) used cs).1)
        (if_neg (Object-discrete p o) n _ _)
        (unlink_objects-Noted key os (set_used used p (erase_key key (used p)))
          (note_element (neighbours key (used p)) cs) o (ground arith))
]

-- A child of an element is a key with the removed key among its parents, or no key.
abbrev pub HasParent : (IdT → List IdT) → IdT → IdT → Type 0
HasParent f key c = (if c == no_key then true else contains key (f c)) ≡ true

neighbours_after-HasParent :
    (f : IdT → List IdT) (key p : IdT) (xs : List IdT)
    → Chained f xs
    → HasParent f key (neighbours_after p key xs).0
unfolding neighbours_after
neighbours_after-HasParent f key p [] c = refl
neighbours_after-HasParent f key p (x ∷ []) c = ground arith
neighbours_after-HasParent f key p (x ∷ y ∷ ys) c =
    ground (arith, neighbours_after-HasParent f key x (y ∷ ys) c.1)

neighbours-erased :
    (key p : IdT) (xs : List IdT)
    → contains key xs ≡ false
    → neighbours_after p key xs ≡ (no_key, no_key)
unfolding neighbours_after
neighbours-erased key p [] h = refl
neighbours-erased key p (x ∷ xs) h = ground (arith, neighbours-erased key x xs)

abbrev AreChildren : (IdT → List IdT) → IdT → (Object → List IdT) → Type 0
AreChildren f key used = (o : Object) → HasParent f key (neighbours key (used o)).0

still_children :
    (f : IdT → List IdT) (key : IdT) (used : Object → List IdT) (p : Object)
    → AreChildren f key used
    → AreChildren f key (set_used used p (erase_key key (used p)))
unfolding neighbours
still_children f key used p h o = ground (
  arith,
  h o,
  neighbours-erased key no_key (erase_key key (used p)),
  contains-erase_key key key (used p),
)

note_element-ChildrenFrom :
    (n : IdT × IdT) (cs : List ChildElement)
    → ChildrenFrom 0 cs
    → ChildrenFrom 0 (note_element n cs)
note_element-ChildrenFrom (c, p) cs s =
    ground
      (arith, insert_element-ChildrenFrom 0 (record { child = c; parent = p }) cs (omega arith))

note_element-All :
    (P : IdT → Type 0) (n : IdT × IdT) (cs : List ChildElement)
    → P n.0
    → All (λ e. P e.child) cs
    → All (λ e. P e.child) (note_element n cs)
note_element-All P (c, p) cs h a = elim (Bool-cases ((c == no_key) && (p == no_key))) [
  | inl z ↦ rw z a
  | inr z ↦ rw z (insert_element-All (λ e. P e.child) (record { child = c; parent = p }) cs h a)
]

pub unlink_objects-children :
    (f : IdT → List IdT) (key : IdT) (os : List Object) (used : Object → List IdT)
    (cs : List ChildElement)
    → ((o : Object) → HasParent f key (neighbours key (used o)).0)
    → ChildrenFrom 0 cs
    → All (λ e. HasParent f key e.child) cs
    → ChildrenFrom 0 (unlink_objects key os used cs).1
      × All (λ e. HasParent f key e.child) (unlink_objects key os used cs).1
unfolding unlink_objects
unlink_objects-children f key [] used cs h s a = (s, a)
unlink_objects-children f key (p ∷ os) used cs h s a =
    unlink_objects-children f key os (set_used used p (erase_key key (used p)))
      (note_element (neighbours key (used p)) cs) (still_children f key used p h)
      (note_element-ChildrenFrom (neighbours key (used p)) cs s)
      (note_element-All (HasParent f key) (neighbours key (used p)) cs (h p) a)

pub neighbours-HasParent :
    (f : IdT → List IdT) (key : IdT) (xs : List IdT)
    → Chained f xs
    → HasParent f key (neighbours key xs).0
unfolding neighbours
neighbours-HasParent f key xs c = neighbours_after-HasParent f key no_key xs c
