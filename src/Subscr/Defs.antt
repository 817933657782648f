-- ===== src/Subscr/Defs.antt =====
-- `SubscrManager` in src/SubscrManager.h and src/SubscrManager.cpp.
use order_processor.Common.{
  ℕ, ◌+◌, ◌%◌, ◌^◌, Bool, Option, none, some, List, [], ◌∷◌, ◌++◌, ltb, ◌==◌, if◌then◌else◌, ite,
  update,
}
use order_processor.Model.Ids.{IdT, make_id}
use order_processor.Model.Order.{Text}
use order_processor.Filters.Values.{Text-discrete}
use order_processor.Filters.Orders.{OrderEntry, OrderFilter, match, get_instrument}

-- `SubscriptionInfo` of the type `ORDER_SUBSCRIPTION`, the only one that the manager makes. Its filter is
-- not null, since `addSubscription` follows the pointer.
pub record SubscriptionInfo : Type 0 where
  pub id : IdT
  pub name : Text
  pub filter : OrderFilter
  pub handler_id : IdT

-- A set of subscriptions, by their ids
unfoldable pub insert_info : SubscriptionInfo → List SubscriptionInfo → List SubscriptionInfo
insert_info x [] = x ∷ []
insert_info x (y ∷ ys) =
    let rest = insert_info x ys in
    if ltb x.id y.id then x ∷ y ∷ ys else if ltb y.id x.id then y ∷ rest else y ∷ ys

-- `SubscriptionsGroup`. The instruments are grouped by their symbols, and a symbol without a group has no
-- subscriptions.
pub record SubscriptionsGroup : Type 0 where
  pub grouped : Text → List SubscriptionInfo
  pub general : List SubscriptionInfo

abbrev pub no_group : SubscriptionsGroup
no_group = record { grouped = λ t. []; general = [] }

-- The orders' group of each subscriber, by the ids of the subscribers.
abbrev pub Subscribers : Type 0
Subscribers = List (IdT × SubscriptionsGroup)

-- The subscriber's group is found or made, then changed.
unfoldable pub change_group :
    IdT → (SubscriptionsGroup → SubscriptionsGroup) → Subscribers → Subscribers
change_group k f [] = (k, f no_group) ∷ []
change_group k f ((j, g) ∷ gs) =
    let rest = change_group k f gs in
    if ltb k j
    then (k, f no_group) ∷ (j, g) ∷ gs
    else if ltb j k
    then (j, g) ∷ rest
    else (j, f g) ∷ gs

unfoldable pub erase_group : IdT → Subscribers → Subscribers
erase_group k [] = []
erase_group k ((j, g) ∷ gs) = let rest = erase_group k gs in if j == k then rest else (j, g) ∷ rest

pub record SubscrManager : Type 0 where
  pub counter : ℕ
  pub available : List SubscriptionInfo
  pub by_subscriber : Subscribers
  pub by_handler : IdT → Option (List SubscriptionInfo)

abbrev pub new_subscr_manager : SubscrManager
new_subscr_manager = record {
  counter = 1;
  available = [];
  by_subscriber = [];
  by_handler = λ k. none;
}

abbrev pub insert_general : SubscriptionInfo → SubscriptionsGroup → SubscriptionsGroup
insert_general x g = record g { general = insert_info x g.general }

abbrev pub insert_grouped : Text → SubscriptionInfo → SubscriptionsGroup → SubscriptionsGroup
insert_grouped t x g = record g {
  grouped = λ s. ite (Text-discrete s t) (insert_info x (g.grouped s)) (g.grouped s);
}

-- With the instrument of the filter, if it has one.
abbrev pub insert_in_group :
    Option Text → SubscriptionInfo → SubscriptionsGroup → SubscriptionsGroup
insert_in_group none x g = insert_general x g
insert_in_group (some t) x g = insert_grouped t x g

abbrev pub list_of : Option (List SubscriptionInfo) → List SubscriptionInfo
list_of none = []
list_of (some l) = l

abbrev pub symbol_of : OrderFilter → Option Text
unfolding get_instrument
symbol_of f = elim (get_instrument f) [ none ↦ none | some i ↦ some i.symbol ]

unfoldable pub add_subscription : Text → OrderFilter → IdT → SubscrManager → SubscrManager
unfolding insert_info change_group get_instrument
add_subscription name filter handler m =
    let x : SubscriptionInfo = record {
      id = make_id m.counter 0;
      name = name;
      filter = filter;
      handler_id = handler;
    } in
    record {
      counter = (m.counter + 1) % 2 ^ 64;
      available = insert_info x m.available;
      by_subscriber = change_group handler (insert_in_group (symbol_of filter) x) m.by_subscriber;
      by_handler = update m.by_handler handler (some (list_of (m.by_handler handler) ++ x ∷ []));
    }

-- The filters of the removed subscriptions are deleted; the set `available` keeps them.
unfoldable pub remove_subscriptions : IdT → SubscrManager → SubscrManager
unfolding erase_group
remove_subscriptions handler m = elim (m.by_handler handler) [
  | none ↦ m
  | some l ↦ record m {
    by_subscriber = erase_group handler m.by_subscriber;
    by_handler = update m.by_handler handler (some []);
  }
]

module _ (regex_match : Text → Text → Bool) where
  -- The first subscription of a set that matches, if there is one.
  unfoldable pub first_match : OrderEntry → List SubscriptionInfo → Option IdT
  unfolding match
  first_match e [] = none
  first_match e (x ∷ xs) =
      let rest = first_match e xs in
      if match regex_match x.filter e then some x.handler_id else rest

  abbrev pub or_else : Option IdT → Option IdT → Option IdT
  or_else none o = o
  or_else (some k) o = some k

  unfoldable pub match_group : OrderEntry → SubscriptionsGroup → Option IdT
  unfolding first_match
  match_group e g =
      or_else (first_match e (g.grouped e.order.instrument.symbol)) (first_match e g.general)

  abbrev pub push : Option IdT → List IdT → List IdT
  push none ks = ks
  push (some k) ks = k ∷ ks

  -- `getSubscribers`
  unfoldable pub subscribers_in : OrderEntry → Subscribers → List IdT
  unfolding match_group
  subscribers_in e [] = []
  subscribers_in e ((j, g) ∷ gs) = let rest = subscribers_in e gs in push (match_group e g) rest

  abbrev pub get_subscribers : OrderEntry → SubscrManager → List IdT
  get_subscribers e m = subscribers_in e m.by_subscriber
