-- ===== src/Subscr/Groups.antt =====
-- The sets and the groups of `SubscrManager` in src/SubscrManager.cpp.
use order_processor.Common.{
  ℕ, ◌<◌, ◌≤◌, ◌≡◌, ◌∙◌, Bool, true, false, Option, none, some, List, [], ◌∷◌, arith, ltb, ◌==◌,
  ite, Bool-cases, inl, inr,
}
use order_processor.Model.Ids.{IdT}
use order_processor.Model.Order.{Text}
use order_processor.Filters.Values.{Text-discrete}
use order_processor.Subscr.Defs.{
  SubscriptionInfo, insert_info, SubscriptionsGroup, no_group, Subscribers, change_group,
  erase_group, insert_in_group,
}

-- Subscriptions of one subscriber, with ids that were given already.
abbrev pub Entered : ℕ → IdT → List SubscriptionInfo → Type 0
Entered n k [] = Unit
Entered n k (x ∷ xs) = (x.id < n) × (x.handler_id ≡ k) × Entered n k xs

abbrev pub EnteredGroup : ℕ → IdT → SubscriptionsGroup → Type 0
EnteredGroup n k g = ((t : Text) → Entered n k (g.grouped t)) × Entered n k g.general

-- Each subscriber is known to the map by handlers.
abbrev pub EnteredAll : ℕ → (IdT → Bool) → Subscribers → Type 0
EnteredAll n f [] = Unit
EnteredAll n f ((j, g) ∷ gs) = (f j ≡ true) × EnteredGroup n j g × EnteredAll n f gs

pub no_group-Entered : (n : ℕ) (k : IdT) → EnteredGroup n k no_group
no_group-Entered n k = (λ t. tt, tt)

insert-Entered :
    (m n : ℕ) (k : IdT) (x : SubscriptionInfo) (xs : List SubscriptionInfo)
    → m ≤ x.id
    → x.id < n
    → x.handler_id ≡ k
    → Entered m k xs
    → Entered n k (insert_info x xs)
unfolding insert_info
insert-Entered m n k x [] h l e v = (l, e, tt)
insert-Entered m n k x (y ∷ ys) h l e v =
    let (a, b, c) = v in
    let p : ltb x.id y.id ≡ false = ground arith in
    let q : ltb y.id x.id ≡ true = ground arith in
    let rest = insert-Entered m n k x ys h l e c in rw p (rw q (omega arith, b, rest))

widen-Entered :
    (m n : ℕ) (k : IdT) (xs : List SubscriptionInfo) → m ≤ n → Entered m k xs → Entered n k xs
widen-Entered m n k [] h v = tt
widen-Entered m n k (x ∷ xs) h v = (omega (arith, v.0), v.1, widen-Entered m n k xs h v.2)

widen_group-Entered :
    (m n : ℕ) (k : IdT) (g : SubscriptionsGroup) → m ≤ n → EnteredGroup m k g → EnteredGroup n k g
widen_group-Entered m n k g h v =
    (λ t. widen-Entered m n k (g.grouped t) h (v.0 t), widen-Entered m n k g.general h v.1)

pub widen_all-Entered :
    (m n : ℕ) (f f' : IdT → Bool) (gs : Subscribers)
    → m ≤ n
    → ((j : IdT) → f j ≡ true → f' j ≡ true)
    → EnteredAll m f gs
    → EnteredAll n f' gs
widen_all-Entered m n f f' [] h i v = tt
widen_all-Entered m n f f' ((j, g) ∷ gs) h i v =
    (i j v.0, widen_group-Entered m n j g h v.1, widen_all-Entered m n f f' gs h i v.2)

ite-Entered :
    (n : ℕ) (k : IdT) {P : Type 0} (d : Dec P) (xs ys : List SubscriptionInfo)
    → Entered n k xs
    → Entered n k ys
    → Entered n k (ite d xs ys)
ite-Entered n k (yes p) xs ys u v = u
ite-Entered n k (no p) xs ys u v = v

insert_in_group-Entered :
    (m n : ℕ) (k : IdT) (o : Option Text) (x : SubscriptionInfo) (g : SubscriptionsGroup)
    → m ≤ x.id
    → x.id < n
    → x.handler_id ≡ k
    → EnteredGroup m k g
    → EnteredGroup n k (insert_in_group o x g)
insert_in_group-Entered m n k none x g h l e v = (
  λ t. widen-Entered m n k (g.grouped t) (omega arith) (v.0 t),
  insert-Entered m n k x g.general h l e v.1,
)
insert_in_group-Entered m n k (some t) x g h l e v = (
  λ s.
      ite-Entered n k (Text-discrete s t) _ _ (insert-Entered m n k x (g.grouped s) h l e (v.0 s))
        (widen-Entered m n k (g.grouped s) (omega arith) (v.0 s)),
  widen-Entered m n k g.general (omega arith) v.1,
)

pub change_group-Entered :
    (m n : ℕ) (f f' : IdT → Bool) (k : IdT) (o : Option Text) (x : SubscriptionInfo)
    (gs : Subscribers)
    → m ≤ x.id
    → x.id < n
    → x.handler_id ≡ k
    → f' k ≡ true
    → ((j : IdT) → f j ≡ true → f' j ≡ true)
    → EnteredAll m f gs
    → EnteredAll n f' (change_group k (insert_in_group o x) gs)
unfolding change_group
change_group-Entered m n f f' k o x [] h l e y i v =
    (y, insert_in_group-Entered m n k o x no_group h l e (no_group-Entered m k), tt)
change_group-Entered m n f f' k o x ((j, g) ∷ gs) h l e y i v =
    let all = widen_all-Entered m n f f' ((j, g) ∷ gs) (omega arith) i v in
    let rest = change_group-Entered m n f f' k o x gs h l e y i v.2 in
    elim (Bool-cases (ltb k j)) [
      | inl p ↦
          rw p (y, insert_in_group-Entered m n k o x no_group h l e (no_group-Entered m k), all)
      | inr p ↦ elim (Bool-cases (ltb j k)) [
        | inl q ↦ rw p (rw q (all.0, all.1, rest))
        | inr q ↦
            let s : k ≡ j = ground arith in
            rw p (rw q (all.0, insert_in_group-Entered m n j o x g h l (e ∙ s) v.1, all.2))
      ]
    ]

pub erase_group-Entered :
    (n : ℕ) (f f' : IdT → Bool) (k : IdT) (gs : Subscribers)
    → ((j : IdT) → f j ≡ true → f' j ≡ true)
    → EnteredAll n f gs
    → EnteredAll n f' (erase_group k gs)
unfolding erase_group
erase_group-Entered n f f' k [] i v = tt
erase_group-Entered n f f' k ((j, g) ∷ gs) i v =
    let rest = erase_group-Entered n f f' k gs i v.2 in
    elim (Bool-cases (j == k)) [ inl p ↦ rw p rest | inr p ↦ rw p (i j v.0, v.1, rest) ]
