-- ===== src/Acid/Related.antt =====
-- `getRelatedObjects` of src/TransactionScope.cpp: the objects that the operations of a transaction
-- name, for the dependencies between transactions.
use order_processor.Common.{
  ℕ, ◌≤◌, ◌≡◌, refl, Bool, true, false, not, ◌&&◌, ◌||◌, Option, none, some, List, [], ◌∷◌, ◌++◌,
  ◌==◌, if◌then◌else◌, length, arith, subst, length-append, Bool-cases, inl, inr,
}
use mathlib.Core.Path.{fun_ext}
use order_processor.Model.Ids.{IdT, is_valid_id}
use order_processor.Acid.Objects.{Object, ObjectType, order_object, instrument_object}
use order_processor.Acid.Operation.{Operation}

-- `DEPENDANT_OBJECT_LIMIT`
abbrev pub object_limit : ℕ
object_limit = 10

-- Whether an object of the list has the id; the types are not compared.
abbrev pub has_id : IdT → List Object → Bool
has_id k [] = false
has_id k (o ∷ os) = (k == o.id) || has_id k os

-- One of the two blocks of the loop's body; `none` is the exception.
unfoldable pub note_object : IdT → ObjectType → List Object → Option (List Object)
note_object k type os =
    if is_valid_id k && not (has_id k os)
    then if length os == object_limit
      then none
      else some (os ++ record { id = k; type = type } ∷ [])
    else some os

abbrev pub then_note : IdT → ObjectType → Option (List Object) → Option (List Object)
then_note k type none = none
then_note k type (some os) = note_object k type os

module _ {ℓ} {S : Type ℓ} where
  -- The body of the loop.
  unfoldable pub note_operation : Operation S → List Object → Option (List Object)
  unfolding note_object
  note_operation op os =
      then_note op.related_id instrument_object (note_object op.object_id order_object os)

  unfoldable pub related_from : List (Operation S) → List Object → Option (List Object)
  related_from [] os = some os
  related_from (op ∷ ops) os = elim (note_operation op os) [
    | none ↦ none
    | some os' ↦ related_from ops os'
  ]

  -- `getRelatedObjects`
  unfoldable pub get_related_objects : List (Operation S) → Option (List Object)
  unfolding related_from
  get_related_objects ops = related_from ops []

  -- The valid ids that the operations name.
  abbrev pub names : IdT → List (Operation S) → Bool
  names k [] = false
  names k (op ∷ ops) = (k == op.object_id) || ((k == op.related_id) || names k ops)

abbrev pub HaveDistinctIds : List Object → Type 0
HaveDistinctIds [] = Unit {0}
HaveDistinctIds (o ∷ os) = (has_id o.id os ≡ false) × HaveDistinctIds os

-- What a list of objects is after ids were noted: `named` says which.
pub record Notes (named : IdT → Bool) (os os' : List Object) : Type 0 where
  pub distinct : HaveDistinctIds os'
  pub bounded : length os' ≤ object_limit
  pub ids : (k : IdT) → has_id k os' ≡ (has_id k os || (is_valid_id k && named k))

-- Eleven ids at least: ten objects with different ids that were there or were named, and a valid id
-- that was named besides.
pub record TooMany (named : IdT → Bool) (os : List Object) : Type 0 where
  pub seen : List Object
  pub next : IdT
  pub distinct : HaveDistinctIds seen
  pub full : length seen ≡ object_limit
  pub known : (k : IdT) → (has_id k seen && not (has_id k os || (is_valid_id k && named k))) ≡ false
  pub valid : is_valid_id next ≡ true
  pub is_named : named next ≡ true
  pub new : has_id next seen ≡ false

abbrev pub Noting : (IdT → Bool) → List Object → Option (List Object) → Type 0
Noting named os none = TooMany named os
Noting named os (some os') = Notes named os os'

has_id-append :
    (k : IdT) (os : List Object) (o : Object)
    → has_id k (os ++ o ∷ []) ≡ (has_id k os || (k == o.id))
has_id-append k [] o = ground arith
has_id-append k (p ∷ os) o = ground (arith, has_id-append k os o)

HaveDistinctIds-append :
    (os : List Object) (o : Object)
    → HaveDistinctIds os
    → has_id o.id os ≡ false
    → HaveDistinctIds (os ++ o ∷ [])
HaveDistinctIds-append [] o d h = (refl, tt)
HaveDistinctIds-append (p ∷ os) o d h =
    (ground (arith, has_id-append p.id os o), HaveDistinctIds-append os o d.1 (ground arith))

note_object-Noting :
    (j : IdT) (type : ObjectType) (os : List Object)
    → HaveDistinctIds os
    → length os ≤ object_limit
    → Noting (λ k. k == j) os (note_object j type os)
unfolding note_object
note_object-Noting j type os d b = elim (Bool-cases (is_valid_id j && not (has_id j os))) [
  | inl new ↦ elim (Bool-cases (length os == object_limit)) [
    | inl full ↦
        rw (new, note_object)
          (rw full (record {
            seen = os;
            next = j;
            distinct = d;
            full = ground arith;
            known = λ k. ground arith;
            valid = ground arith;
            is_named = ground arith;
            new = ground arith;
          }))
    | inr room ↦
        rw (new, note_object)
          (rw room (record {
            distinct = HaveDistinctIds-append os _ d (ground arith);
            bounded = ground (arith, length-append os (record { id = j; type = type } ∷ []));
            ids = λ k. ground (arith, has_id-append k os (record { id = j; type = type }));
          }))
  ]
  | inr old ↦ rw (old, note_object) (record { distinct = d; bounded = b; ids = λ k. ground arith })
]

-- Two steps after one another.
module _ (named also : IdT → Bool) (os : List Object) where
  Noting-fails : TooMany named os → TooMany (λ k. named k || also k) os
  Noting-fails t = record {
    seen = t.seen;
    next = t.next;
    distinct = t.distinct;
    full = t.full;
    known = λ k. ground (arith, t.known k);
    valid = t.valid;
    is_named = ground (arith, t.is_named);
    new = t.new;
  }

  Noting-then :
      (os' : List Object) (r : Option (List Object))
      → Notes named os os'
      → Noting also os' r
      → Noting (λ k. named k || also k) os r
  Noting-then os' none n t = record {
    seen = t.seen;
    next = t.next;
    distinct = t.distinct;
    full = t.full;
    known = λ k. ground (arith, t.known k, n.ids k);
    valid = t.valid;
    is_named = ground (arith, t.is_named);
    new = t.new;
  }
  Noting-then os' (some os'') n m = record {
    distinct = m.distinct;
    bounded = m.bounded;
    ids = λ k. ground (arith, m.ids k, n.ids k);
  }

then_note-Noting :
    (named : IdT → Bool) (os : List Object) (j : IdT) (type : ObjectType) (r : Option (List Object))
    → Noting named os r
    → Noting (λ k. named k || (k == j)) os (then_note j type r)
then_note-Noting named os j type none t = Noting-fails named (λ k. k == j) os t
then_note-Noting named os j type (some os') n =
    Noting-then named (λ k. k == j) os os' _ n (note_object-Noting j type os' n.distinct n.bounded)

module _ {ℓ} {S : Type ℓ} where
  named_by : Operation S → IdT → Bool
  named_by op k = (k == op.object_id) || (k == op.related_id)

  note_operation-Noting :
      (op : Operation S) (os : List Object)
      → HaveDistinctIds os
      → length os ≤ object_limit
      → Noting (named_by op) os (note_operation op os)
  unfolding note_operation named_by
  note_operation-Noting op os d b =
      then_note-Noting (λ k. k == op.object_id) os op.related_id instrument_object _
        (note_object-Noting op.object_id order_object os d b)

  names_step :
      (op : Operation S) (ops : List (Operation S)) (k : IdT)
      → (named_by op k || names k ops) ≡ names k (op ∷ ops)
  unfolding named_by
  names_step op ops k = ground arith

  related_from-step :
      (op : Operation S) (ops : List (Operation S)) (os : List Object) (r : Option (List Object))
      → ((os' : List Object)
          → HaveDistinctIds os'
          → length os' ≤ object_limit
          → Noting (λ k. names k ops) os' (related_from ops os'))
      → Noting (named_by op) os r
      → note_operation op os ≡ r
      → Noting (λ k. named_by op k || names k ops) os (related_from (op ∷ ops) os)
  unfolding related_from
  related_from-step op ops os none ih t e =
      rw (e, related_from) (Noting-fails (named_by op) (λ k. names k ops) os t)
  related_from-step op ops os (some os') ih n e =
      rw (e, related_from)
        (Noting-then (named_by op) (λ k. names k ops) os os' _ n (ih os' n.distinct n.bounded))

  related_from-Noting :
      (ops : List (Operation S)) (os : List Object)
      → HaveDistinctIds os
      → length os ≤ object_limit
      → Noting (λ k. names k ops) os (related_from ops os)
  unfolding related_from
  related_from-Noting [] os d b = record { distinct = d; bounded = b; ids = λ k. ground arith }
  related_from-Noting (op ∷ ops) os d b =
      subst (λ named. Noting named os (related_from (op ∷ ops) os)) (fun_ext (names_step op ops))
        (related_from-step op ops os (note_operation op os)
          (λ os' d' b'. related_from-Noting ops os' d' b') (note_operation-Noting op os d b) refl)

  -- The objects of a transaction have different ids, ten at most, and their ids are the valid ids
  -- that its operations name as the object or as the related one. The call throws only if there are
  -- ten different such ids and one more.
  pub get_related_objects-Noting :
      (ops : List (Operation S)) → Noting (λ k. names k ops) [] (get_related_objects ops)
  unfolding get_related_objects
  get_related_objects-Noting ops = related_from-Noting ops [] tt (omega arith)
