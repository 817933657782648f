-- ===== src/Manager/Addition.antt =====
-- `addTransaction` of src/TransactionMgr.cpp: the new transaction, and the call of the observer.
use order_processor.Common.{
  ℕ, suc, ◌+◌, ◌^◌, ◌<◌, ◌≡◌, refl, sym, ◌∙◌, false, ◌&&◌, ◌||◌, Option, none, some, is_some, List,
  [], ◌∷◌, arith, ◌==◌, contains, if◌then◌else◌, subst, ap,
}
use order_processor.Model.Ids.{IdT, make_id, get_id}
use order_processor.Acid.Objects.{Object}
use order_processor.Acid.Operation.{Operation}
use order_processor.Acid.Scope.{Scope}
use order_processor.Acid.Related.{
  get_related_objects, get_related_objects-Noting, has_id, HaveDistinctIds, Noting, names,
}
use order_processor.Tree.Invariant.{NoRepeats, has_object}
use order_processor.Tree.Growth.{add-keys, add-ready}
use order_processor.Tree.Ready.{are_unused, link_objects-nil}
use order_processor.Manager.Defs.{Manager, insert_transaction, insert_related, add_transaction}
use order_processor.Manager.Sound.{IsSound, above, insert-IsSound}

has_object-id : (o : Object) (os : List Object) → has_id o.id os ≡ false → has_object o os ≡ false
has_object-id o [] h = refl
has_object-id o (p ∷ ps) h = ground (arith, has_object-id o ps)

NoRepeats-ids : (os : List Object) → HaveDistinctIds os → NoRepeats os
NoRepeats-ids [] d = tt
NoRepeats-ids (o ∷ os) d = (has_object-id o os d.0, NoRepeats-ids os d.1)

module _ {ℓ} {S : Type ℓ} where
  -- What an addition leaves: the transaction under its new id, beside those that were there. It is
  -- ready exactly if none of its objects has a user, and then an observer gets one call.
  pub record Added (now : ℕ) (s : Scope (Operation S)) (m m' : Manager S) : Type ℓ where
    pub objects : List Object
    pub related : get_related_objects s.operations ≡ some objects
    pub ready : contains (make_id m.counter now) m'.tree.root ≡ are_unused objects m.tree.used_in
    pub sound : IsSound m'.tree m'.counter
    pub keys :
        (j : IdT)
        → is_some (m'.tree.keys j) ≡ ((make_id m.counter now == j) || is_some (m.tree.keys j))
    pub calls : m'.announced ≡ (
        if contains (make_id m.counter now) m'.tree.root && m.observed
        then suc m.announced
        else m.announced)

  insert-Added :
      (now : ℕ) (s : Scope (Operation S)) (m : Manager S)
      → IsSound m.tree m.counter
      → m.counter + 1 < 2 ^ 64
      → (os : List Object) → NoRepeats os
      → get_related_objects s.operations ≡ some os
      → Added now s m (insert_transaction now s os m)
  unfolding insert_transaction get_id
  insert-Added now s m v c os d related =
      let k = make_id m.counter now in
      let s' : Scope (Operation S) = record s { id = k } in
      let above = above m.tree m.counter now v c in
      let ready = add-ready k s' os 0 m.tree v.linked d above in
      record {
        sound = insert-IsSound m.tree m.counter now v c s' os d;
        keys = add-keys k s' os 0 m.tree v.linked d above;
        calls = ap (λ b. if b && m.observed then suc m.announced else m.announced) (sym ready.0);
        objects = os;
        related = related;
        ready = ready.1 ∙ link_objects-nil k os m.tree.used_in [] d;
      }

  insert_related-Added :
      (now : ℕ) (s : Scope (Operation S)) (m m' : Manager S)
      → IsSound m.tree m.counter
      → m.counter + 1 < 2 ^ 64
      → (os : Option (List Object)) → Noting (λ k. names k s.operations) [] os
      → get_related_objects s.operations ≡ os
      → insert_related now s m os ≡ some m'
      → Added now s m m'
  insert_related-Added now s m m' v c none n f e = absurd (cc e)
  insert_related-Added now s m m' v c (some os) n f e =
      let q : insert_transaction now s os m ≡ m' = cc in
      subst (Added now s m) q (insert-Added now s m v c os (NoRepeats-ids os n.distinct) f)

  pub add_transaction-Added :
      (now : ℕ) (s : Scope (Operation S)) (m m' : Manager S)
      → IsSound m.tree m.counter
      → m.counter + 1 < 2 ^ 64
      → add_transaction now s m ≡ some m'
      → Added now s m m'
  unfolding add_transaction
  add_transaction-Added now s m m' v c e =
      insert_related-Added now s m m' v c (get_related_objects s.operations)
        (get_related_objects-Noting s.operations) refl e
