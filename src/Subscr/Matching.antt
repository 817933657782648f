-- ===== src/Subscr/Matching.antt =====
-- The subscribers of an order that `SubscrManager` in src/SubscrManager.cpp finds, after any calls.
use order_processor.Common.{
  ℕ, ◌+◌, ◌*◌, ◌^◌, ◌<◌, ◌≡◌, refl, sym, ap, subst, ◌∙◌, Bool, true, false, not, ◌&&◌, ◌||◌, Option,
  none, some, is_some, List, [], ◌∷◌, arith, ◌==◌, ==-refl, ==_iff, contains, Bool-cases,
  Option-cases, inl, inr, ◌⊎◌, update,
}
use order_processor.Model.Ids.{IdT, date_limit}
use order_processor.Model.Order.{Text}
use order_processor.Filters.Orders.{OrderEntry, OrderFilter, match}
use order_processor.Subscr.Defs.{
  SubscriptionInfo, Subscribers, erase_group, SubscrManager, new_subscr_manager, add_subscription,
  remove_subscriptions, symbol_of, get_subscribers,
}
use order_processor.Subscr.Groups.{EnteredAll, change_group-Entered, erase_group-Entered}
use order_processor.Subscr.Listed.{
  listed, Pinned, contains-subscribers_in, listed-change_group, listed-erase_group,
}

-- A call of the manager.
pub data Request : Type 0 where
  subscribe : Text → OrderFilter → IdT → Request
  unsubscribe : IdT → Request

abbrev pub serve : Request → SubscrManager → SubscrManager
serve (subscribe name f k) m = add_subscription name f k m
serve (unsubscribe k) m = remove_subscriptions k m

-- The manager after requests, of which the last one comes first.
abbrev pub served : List Request → SubscrManager
served [] = new_subscr_manager
served (r ∷ rs) = serve r (served rs)

abbrev is_known : SubscrManager → IdT → Bool
is_known m k = is_some (m.by_handler k)

record IsEntered (n : ℕ) (m : SubscrManager) : Type 0 where
  counter : m.counter ≡ n
  groups : EnteredAll (n * date_limit) (is_known m) m.by_subscriber

known-update :
    (k : IdT) (f : IdT → Option (List SubscriptionInfo)) (l : List SubscriptionInfo) (j : IdT)
    → is_some (f j) ≡ true
    → is_some (update f k (some l) j) ≡ true
known-update k f l j h = ground arith

add-IsEntered :
    (n : ℕ) (name : Text) (f : OrderFilter) (k : IdT) (m : SubscrManager)
    → n + 1 < 2 ^ 64
    → IsEntered n m
    → IsEntered (n + 1) (add_subscription name f k m)
unfolding add_subscription
add-IsEntered n name f k m h v = record {
  counter = omega (arith, v.counter);
  groups =
      change_group-Entered (n * date_limit) ((n + 1) * date_limit) (is_known m) _ k (symbol_of f) _
        m.by_subscriber (omega (arith, v.counter)) (omega (arith, v.counter)) refl
        (rw (==-refl k) refl) (known-update k m.by_handler _) v.groups;
}

without : IdT → SubscrManager → SubscrManager
without k m = record m {
  by_subscriber = erase_group k m.by_subscriber;
  by_handler = update m.by_handler k (some []);
}

-- Nothing changes for a subscriber that never had a subscription.
remove-without :
    (k : IdT) (m : SubscrManager)
    → ((m.by_handler k ≡ none) × (remove_subscriptions k m ≡ m))
      ⊎ (remove_subscriptions k m ≡ without k m)
unfolding remove_subscriptions without
remove-without k m = elim (Option-cases (m.by_handler k)) [
  | inl e ↦ inl (e, rw (e, remove_subscriptions) refl)
  | inr (l, e) ↦ inr (rw (e, remove_subscriptions) refl)
]

without-IsEntered :
    (n : ℕ) (k : IdT) (m : SubscrManager) → IsEntered n m → IsEntered n (without k m)
unfolding without
without-IsEntered n k m v = record {
  counter = v.counter;
  groups =
      erase_group-Entered (n * date_limit) (is_known m) _ k m.by_subscriber
        (known-update k m.by_handler []) v.groups;
}

remove-IsEntered :
    (n : ℕ) (k : IdT) (m : SubscrManager) → IsEntered n m → IsEntered n (remove_subscriptions k m)
remove-IsEntered n k m v = elim (remove-without k m) [
  | inl (_, e) ↦ subst (IsEntered n) (sym e) v
  | inr e ↦ subst (IsEntered n) (sym e) (without-IsEntered n k m v)
]

-- How many of the requests are subscriptions, and the first id.
abbrev pub next_number : List Request → ℕ
next_number [] = 1
next_number (subscribe name f k ∷ rs) = next_number rs + 1
next_number (unsubscribe k ∷ rs) = next_number rs

served-IsEntered :
    (rs : List Request) → next_number rs < 2 ^ 64 → IsEntered (next_number rs) (served rs)
served-IsEntered [] h = record { counter = refl; groups = tt }
served-IsEntered (subscribe name f k ∷ rs) h =
    add-IsEntered (next_number rs) name f k (served rs) h (served-IsEntered rs (omega arith))
served-IsEntered (unsubscribe k ∷ rs) h =
    remove-IsEntered (next_number rs) k (served rs) (served-IsEntered rs h)

module _ (regex_match : Text → Text → Bool) (e : OrderEntry) where
  -- Whether a subscriber wants the order: it has subscribed with a filter that matches since it last
  -- unsubscribed.
  abbrev pub wanted : IdT → List Request → Bool
  wanted h [] = false
  wanted h (subscribe name f k ∷ rs) = ((k == h) && match regex_match f e) || wanted h rs
  wanted h (unsubscribe k ∷ rs) = not (k == h) && wanted h rs

  abbrev pub AllPinned : List Request → Type 0
  AllPinned [] = Unit {0}
  AllPinned (subscribe name f k ∷ rs) = Pinned regex_match e f × AllPinned rs
  AllPinned (unsubscribe k ∷ rs) = AllPinned rs

  unknown-listed :
      (n : ℕ) (f : IdT → Bool) (k : IdT) (gs : Subscribers)
      → f k ≡ false
      → EnteredAll n f gs
      → listed regex_match e k gs ≡ false
  unknown-listed n f k [] h v = refl
  unknown-listed n f k ((j, g) ∷ gs) h v =
      let other : (j == k) ≡ false = elim (Bool-cases (j == k)) [
        | inl p ↦ absurd (cc (sym v.0 ∙ ap f ((==_iff j k).0 p) ∙ h))
        | inr p ↦ p
      ] in
      rw other (unknown-listed n f k gs h v.2)

  remove-listed :
      (n : ℕ) (h k : IdT) (m : SubscrManager)
      → IsEntered n m
      → listed regex_match e h (remove_subscriptions k m).by_subscriber
        ≡ (not (k == h) && listed regex_match e h m.by_subscriber)
  unfolding without
  remove-listed n h k m v = elim (remove-without k m) [
    | inr q ↦
        ap (λ m. listed regex_match e h m.by_subscriber) q
        ∙ listed-erase_group regex_match e h k m.by_subscriber
    | inl (u, q) ↦ ap (λ m. listed regex_match e h m.by_subscriber) q ∙ elim (Bool-cases (k == h)) [
      | inr p ↦ rw p refl
      | inl p ↦ rw p (
          unknown-listed (n * date_limit) (is_known m) h m.by_subscriber
            (ap is_some (ap m.by_handler (sym ((==_iff k h).0 p)) ∙ u)) v.groups)
    ]
  ]

  listed-wanted :
      (h : IdT) (rs : List Request)
      → next_number rs < 2 ^ 64
      → AllPinned rs
      → listed regex_match e h (served rs).by_subscriber ≡ wanted h rs
  unfolding add_subscription
  listed-wanted h [] l p = refl
  listed-wanted h (subscribe name f k ∷ rs) l p =
      let v = served-IsEntered rs (omega arith) in
      listed-change_group regex_match e (next_number rs * date_limit) (is_known (served rs)) h k
        (symbol_of f) _ (served rs).by_subscriber (omega (arith, v.counter)) p.0 v.groups
      ∙ ap (λ b. ((k == h) && match regex_match f e) || b) (listed-wanted h rs (omega arith) p.1)
  listed-wanted h (unsubscribe k ∷ rs) l p =
      remove-listed (next_number rs) h k (served rs) (served-IsEntered rs l)
      ∙ ap (λ b. not (k == h) && b) (listed-wanted h rs l p)

  -- After any requests, the last one first, the subscribers that an order goes to are those that have
  -- subscribed with a filter that matches it since they last unsubscribed. The conditions: the
  -- counter of the subscriptions does not wrap around, and each filter that stands under the symbol of an
  -- instrument matches this order only if it has that symbol.
  pub get_subscribers-wanted :
      (h : IdT) (rs : List Request)
      → next_number rs < 2 ^ 64
      → AllPinned rs
      → contains h (get_subscribers regex_match e (served rs)) ≡ wanted h rs
  get_subscribers-wanted h rs l p =
      let v = served-IsEntered rs l in
      contains-subscribers_in regex_match e (next_number rs * date_limit) (is_known (served rs)) h
        (served rs).by_subscriber v.groups
      ∙ listed-wanted h rs l p
