-- ===== src/Store/Linked.antt =====
-- The two maps of the storage in src/OrderStorage.cpp name the same objects.
use order_processor.Common.{
  ℕ, ◌<◌, ◌≡◌, refl, inl, inr, Option-cases, Bool-cases, [], ◌∷◌, ◌++◌, if◌then◌else◌, ite, ◌==◌,
  true, none, some, is_some, arith, OnSome,
}
use order_processor.Model.Ids.{IdT, is_valid_id, get_id}
use order_processor.Model.Order.{Order, RawData, RawData-discrete}
use order_processor.Store.Defs.{
  Address, Storage, StoreError, same_order_id, empty_cl_order_id, same_cl_order_id, Result, ok, err,
  refusal, enter, choose_id, save, restore, locate_by_order_id, locate_by_cl_order_id,
}

-- A map's entry is an object of the storage that has the key and is in the other map too.
pub record IsLinked (s : Storage) : Type 0 where
  pub ids :
      (k : IdT)
      → OnSome
          (λ a.
            (a < s.fresh)
            × ((s.cells a).order_id ≡ k)
            × (s.by_cl_id (s.cells a).cl_order_id ≡ some a))
          (s.by_id k)
  pub cl_ids :
      (c : RawData)
      → OnSome
          (λ a.
            (a < s.fresh) × ((s.cells a).cl_order_id ≡ c) × (s.by_id (s.cells a).order_id ≡ some a))
          (s.by_cl_id c)

module _ (o : Order) (s : Storage) (v : IsLinked s) where
  pub enter-IsLinked :
      s.by_id o.order_id ≡ none → s.by_cl_id o.cl_order_id ≡ none → IsLinked (enter o s)
  unfolding enter
  enter-IsLinked i c = record {
    ids = λ k. ground (arith, v.ids k);
    cl_ids = λ j. ground (arith, v.cl_ids j);
  }

-- What a successful insertion of an order, with the id that it got, changes.
pub record Entered (o : Order) (s s' : Storage) (a : Address) : Type 0 where
  pub linked : IsLinked s'
  pub new_address : a ≡ s.fresh
  pub ids :
      (k : IdT)
      → locate_by_order_id k s' ≡ (if k == o.order_id then some a else locate_by_order_id k s)
  pub cl_ids :
      (c : RawData)
      → locate_by_cl_order_id c s'
        ≡ ite (RawData-discrete o.cl_order_id c) (some a) (locate_by_cl_order_id c s)
  pub cells_at : (b : Address) → s'.cells b ≡ (if b == a then o else s.cells b)
  pub saver : s'.saved ≡ (if s.has_saver then s.saved ++ o ∷ [] else s.saved)

enter-Entered :
    (o : Order) (s : Storage)
    → IsLinked s
    → s.by_id o.order_id ≡ none
    → s.by_cl_id o.cl_order_id ≡ none
    → Entered o s (enter o s) s.fresh
unfolding enter locate_by_order_id locate_by_cl_order_id
enter-Entered o s v i c = record {
  linked = enter-IsLinked o s v i c;
  new_address = refl;
  ids = λ k. ground arith;
  cl_ids = λ j. ground arith;
  cells_at = λ b. ground arith;
  saver = refl;
}

-- Why an order is refused, in the order of the checks.
abbrev pub Refused : Order → Storage → StoreError → Type 0
Refused o s same_order_id = (is_valid_id o.order_id ≡ true) × (is_some (s.by_id o.order_id) ≡ true)
Refused o s empty_cl_order_id = o.cl_order_id.bytes ≡ []
Refused o s same_cl_order_id = is_some (s.by_cl_id o.cl_order_id) ≡ true

refusal-Refused : (o : Order) (s : Storage) (e : StoreError) → refusal o s ≡ some e → Refused o s e
unfolding refusal
refusal-Refused o s same_order_id h = ground arith
refusal-Refused o s empty_cl_order_id h = ground arith
refusal-Refused o s same_cl_order_id h = ground arith

accepted :
    (o : Order) (s : Storage)
    → refusal o s ≡ none
    → (is_valid_id o.order_id ≡ true → s.by_id o.order_id ≡ none)
      × (s.by_cl_id o.cl_order_id ≡ none)
unfolding refusal
accepted o s h = ground arith

abbrev pub Saved : Order → ℕ → ℕ → Storage → Result (Address × ℕ × Storage) → Type 0
Saved o now counter s (err e) = Refused o s e
Saved o now counter s (ok (a, counter', s')) =
    let (k, next) = choose_id o.order_id now counter in
    (counter' ≡ next) × Entered (record o { order_id = k }) s s' a

-- In a linked storage, where the generator's next id is not taken, `save` fails only for a valid id
-- that is taken, an empty client id or a client id that is taken. Otherwise the copy is a new object,
-- with the order's id if that is valid and else the generated one; both of its keys lead to it, every
-- other key and object is as before, the storage stays linked, and the copy goes to the saver if
-- there is one. The generator advances only if its id was used.
pub save-Saved :
    (o : Order) (now counter : ℕ) (s : Storage)
    → IsLinked s
    → s.by_id (get_id now counter).0 ≡ none
    → Saved o now counter s (save o now counter s)
unfolding save choose_id
save-Saved o now counter s v free = elim (Option-cases (refusal o s)) [
  | inr (e, h) ↦ rw (h, save) (refusal-Refused o s e h)
  | inl h ↦
      rw (h, save)
        (elim (Bool-cases (is_valid_id o.order_id)) [
          | inl t ↦ (refl, enter-Entered _ s v (ground (arith, accepted o s h)) (accepted o s h).1)
          | inr f ↦ (refl, enter-Entered _ s v (ground arith) (accepted o s h).1)
        ])
]

abbrev pub Restored : Order → Storage → Result Storage → Type 0
Restored o s (err e) = Refused o s e
Restored o s (ok s') = Entered o s s' s.fresh

-- In a linked storage `restore` of an order with a valid id fails only if the id is taken, or the
-- client id is empty or taken. Otherwise the order is a new object that both of its keys lead to,
-- every other key and object is as before, the storage stays linked, and the order goes to the saver
-- if there is one.
pub restore-Restored :
    (o : Order) (s : Storage)
    → IsLinked s
    → is_valid_id o.order_id ≡ true
    → Restored o s (restore o s)
unfolding restore
restore-Restored o s v t = elim (Option-cases (refusal o s)) [
  | inr (e, h) ↦ rw (h, restore) (refusal-Refused o s e h)
  | inl h ↦ rw (h, restore) (enter-Entered o s v ((accepted o s h).0 t) (accepted o s h).1)
]
