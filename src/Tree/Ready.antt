-- ===== src/Tree/Ready.antt =====
-- When `add` of src/NLinkedTree.cpp counts the new transaction as ready to be executed.
use order_processor.Common.{◌≡◌, refl, Bool, true, false, ◌&&◌, List, [], ◌∷◌, arith, insert_key}
use order_processor.Model.Ids.{IdT}
use order_processor.Acid.Objects.{Object}
use order_processor.Tree.Defs.{last, link_objects, set_used, insert_parent, is_nil}
use order_processor.Tree.Invariant.{has_object, NoRepeats}

-- Whether no transaction is noted as a user of one of the objects.
abbrev pub are_unused : List Object → (Object → List IdT) → Bool
are_unused [] used = true
are_unused (o ∷ os) used = is_nil (used o) && are_unused os used

are_unused-set_used :
    (p : Object) (s : List IdT) (os : List Object) (used : Object → List IdT)
    → has_object p os ≡ false
    → are_unused os (set_used used p s) ≡ are_unused os used
are_unused-set_used p s [] used h = refl
are_unused-set_used p s (o ∷ os) used h = ground (arith, are_unused-set_used p s os used)

insert_key-nonempty : (k : IdT) (ps : List IdT) → is_nil (insert_key k ps) ≡ false
unfolding insert_key
insert_key-nonempty k [] = refl
insert_key-nonempty k (p ∷ ps) = ground arith

insert_parent-nil : (l ps : List IdT) → is_nil (insert_parent (last l) ps) ≡ (is_nil l && is_nil ps)
insert_parent-nil [] ps = refl
insert_parent-nil (x ∷ []) ps = insert_key-nonempty x ps
insert_parent-nil (x ∷ y ∷ ys) ps = insert_parent-nil (y ∷ ys) ps

pub link_objects-nil :
    (key : IdT) (os : List Object) (used : Object → List IdT) (ps : List IdT)
    → NoRepeats os
    → is_nil (link_objects key os used ps).1 ≡ (is_nil ps && are_unused os used)
unfolding link_objects
link_objects-nil key [] used ps d = ground arith
link_objects-nil key (p ∷ os) used ps d = ground (
  arith,
  link_objects-nil key os (set_used used p (insert_key key (used p)))
      (insert_parent (last (used p)) ps) d.1,
  insert_parent-nil (used p) ps,
  are_unused-set_used p (insert_key key (used p)) os used d.0,
)
