-- ===== src/Subscr/Listed.antt =====
-- Which subscribers `getSubscribers` in src/SubscrManager.cpp finds.
use order_processor.Common.{
  ℕ, ◌≤◌, ◌≡◌, refl, sym, ap, ◌∙◌, Bool, true, false, not, ◌&&◌, ◌||◌, Option, none, some, List, [],
  ◌∷◌, arith, ltb, ◌==◌, if◌then◌else◌, ite, contains, Bool-cases, inl, inr,
}
use order_processor.Model.Ids.{IdT}
use order_processor.Model.Order.{Text}
use order_processor.Filters.Values.{Text-discrete}
use order_processor.Filters.Orders.{OrderEntry, OrderFilter, match}
use order_processor.Subscr.Defs.{
  SubscriptionInfo, insert_info, SubscriptionsGroup, no_group, Subscribers, change_group,
  erase_group, insert_in_group, first_match, match_group, push, subscribers_in, symbol_of,
}
use order_processor.Subscr.Groups.{Entered, EnteredGroup, EnteredAll, no_group-Entered}

module _ (regex_match : Text → Text → Bool) (e : OrderEntry) where
  abbrev pub any_match : List SubscriptionInfo → Bool
  any_match [] = false
  any_match (x ∷ xs) = match regex_match x.filter e || any_match xs

  abbrev pub group_hit : SubscriptionsGroup → Bool
  group_hit g = any_match (g.grouped e.order.instrument.symbol) || any_match g.general

  -- Some subscription of a subscriber matches.
  abbrev pub listed : IdT → Subscribers → Bool
  listed h [] = false
  listed h ((j, g) ∷ gs) = ((j == h) && group_hit g) || listed h gs

  first_match-any :
      (n : ℕ) (k : IdT) (xs : List SubscriptionInfo)
      → Entered n k xs
      → first_match regex_match e xs ≡ (if any_match xs then some k else none)
  unfolding first_match
  first_match-any n k [] v = refl
  first_match-any n k (x ∷ xs) v = ground (arith, v, first_match-any n k xs v.2)

  match_group-hit :
      (n : ℕ) (k : IdT) (g : SubscriptionsGroup)
      → EnteredGroup n k g
      → match_group regex_match e g ≡ (if group_hit g then some k else none)
  unfolding match_group
  match_group-hit n k g v = ground (
    arith,
    first_match-any n k (g.grouped e.order.instrument.symbol) (v.0 e.order.instrument.symbol),
    first_match-any n k g.general v.1,
  )

  contains-push :
      (h k : IdT) (b : Bool) (ks : List IdT)
      → contains h (push regex_match (if b then some k else none) ks)
        ≡ (((k == h) && b) || contains h ks)
  contains-push h k b ks = ground arith

  pub contains-subscribers_in :
      (n : ℕ) (f : IdT → Bool) (h : IdT) (gs : Subscribers)
      → EnteredAll n f gs
      → contains h (subscribers_in regex_match e gs) ≡ listed h gs
  unfolding subscribers_in
  contains-subscribers_in n f h [] v = refl
  contains-subscribers_in n f h ((j, g) ∷ gs) v =
      ap (λ o. contains h (push regex_match o (subscribers_in regex_match e gs)))
        (match_group-hit n j g v.1)
      ∙ contains-push h j (group_hit g) (subscribers_in regex_match e gs)
      ∙ ap (λ b. ((j == h) && group_hit g) || b) (contains-subscribers_in n f h gs v.2)

  any_match-insert :
      (n : ℕ) (k : IdT) (x : SubscriptionInfo) (xs : List SubscriptionInfo)
      → n ≤ x.id
      → Entered n k xs
      → any_match (insert_info x xs) ≡ (match regex_match x.filter e || any_match xs)
  unfolding insert_info
  any_match-insert n k x [] l v = refl
  any_match-insert n k x (y ∷ ys) l v =
      let p : ltb x.id y.id ≡ false = ground (arith, v.0) in
      let q : ltb y.id x.id ≡ true = ground (arith, v.0) in
      rw p (rw q (ground (arith, any_match-insert n k x ys l v.2)))

  -- A filter that stands under the symbol of an instrument matches only orders with that symbol.
  abbrev pub Pinned : OrderFilter → Type 0
  Pinned f =
      (t : Text)
      → symbol_of f ≡ some t
      → match regex_match f e ≡ true
      → t ≡ e.order.instrument.symbol

  any-ite :
      (s t : Text) (d : Dec (s ≡ t)) (b : Bool) (xs ys : List SubscriptionInfo)
      → (b ≡ true → s ≡ t)
      → any_match ys ≡ (b || any_match xs)
      → any_match (ite d ys xs) ≡ (b || any_match xs)
  any-ite s t (yes p) b xs ys h q = q
  any-ite s t (no p) true xs ys h q = absurd (p (h refl))
  any-ite s t (no p) false xs ys h q = refl

  group_hit-insert :
      (n : ℕ) (k : IdT) (o : Option Text) (x : SubscriptionInfo) (g : SubscriptionsGroup)
      → n ≤ x.id
      → ((t : Text)
          → o ≡ some t
          → match regex_match x.filter e ≡ true
          → t ≡ e.order.instrument.symbol)
      → EnteredGroup n k g
      → group_hit (insert_in_group o x g) ≡ (match regex_match x.filter e || group_hit g)
  group_hit-insert n k none x g l p v = ground (arith, any_match-insert n k x g.general l v.1)
  group_hit-insert n k (some t) x g l p v =
      let s = e.order.instrument.symbol in
      ground (
        arith,
        any-ite s t (Text-discrete s t) (match regex_match x.filter e) (g.grouped s)
            (insert_info x (g.grouped s)) (λ m. sym (p t refl m))
            (any_match-insert n k x (g.grouped s) l (v.0 s)),
      )

  new_group-hit :
      (n : ℕ) (k : IdT) (o : Option Text) (x : SubscriptionInfo)
      → n ≤ x.id
      → ((t : Text)
          → o ≡ some t
          → match regex_match x.filter e ≡ true
          → t ≡ e.order.instrument.symbol)
      → group_hit (insert_in_group o x no_group) ≡ match regex_match x.filter e
  new_group-hit n k o x l p =
      ground (arith, group_hit-insert n k o x no_group l p (no_group-Entered n k))

  pub listed-change_group :
      (n : ℕ) (f : IdT → Bool) (h k : IdT) (o : Option Text) (x : SubscriptionInfo)
      (gs : Subscribers)
      → n ≤ x.id
      → ((t : Text)
          → o ≡ some t
          → match regex_match x.filter e ≡ true
          → t ≡ e.order.instrument.symbol)
      → EnteredAll n f gs
      → listed h (change_group k (insert_in_group o x) gs)
        ≡ (((k == h) && match regex_match x.filter e) || listed h gs)
  unfolding change_group
  listed-change_group n f h k o x [] l p v = rw (new_group-hit n k o x l p) refl
  listed-change_group n f h k o x ((j, g) ∷ gs) l p v =
      let fresh = new_group-hit n k o x l p in
      let old = group_hit-insert n j o x g l p v.1 in
      let rest = listed-change_group n f h k o x gs l p v.2 in
      elim (Bool-cases (ltb k j)) [
        | inl a ↦ rw a (ground (arith, fresh))
        | inr a ↦ elim (Bool-cases (ltb j k)) [
          | inl b ↦ rw a (rw b (ground (arith, rest)))
          | inr b ↦ let s : k ≡ j = ground arith in rw a (rw b (rw s (ground (arith, old))))
        ]
      ]

  pub listed-erase_group :
      (h k : IdT) (gs : Subscribers) → listed h (erase_group k gs) ≡ (not (k == h) && listed h gs)
  unfolding erase_group
  listed-erase_group h k [] = ground arith
  listed-erase_group h k ((j, g) ∷ gs) = ground (arith, listed-erase_group h k gs)
