-- ===== src/Processor/Follows.antt =====
-- The events that a match of src/OrderMatcher.cpp defers, where the stored orders can be traded.
use order_processor.Common.{
  ℕ, ◌<◌, ◌≡◌, sym, subst, ap, ◌∙◌, true, some, List, [], ◌∷◌, arith, ltb, if◌then◌else◌,
  Bool-cases, Option-cases, inl, inr,
}
use order_processor.Model.Ids.{IdT, is_valid_id}
use order_processor.Store.Defs.{Address, Storage, locate_by_order_id}
use order_processor.Model.Order.{is_market}
use order_processor.Book.Side as Side
use order_processor.Book.Side.{Entry, Answer}
use order_processor.Book.Defs as Book
use order_processor.Matching.Defs as Matching
use order_processor.Matching.Defs.{
  TradeParams, Deferred, find_opposite, compare_with, opposite, match_found, match_order,
  give_up_on, trade_with,
}
use order_processor.Matching.Outcome.{invalid_none, trade_with-fills}
use order_processor.Processor.Endless.{chain}

abbrev left_of : Storage → Address → ℕ
left_of s a = (s.cells a).leaves_qty

-- Nothing, a cancellation, the last trade of an order, or a trade that takes all of the other order
-- and leaves something of this one.
pub data Follows (s : Storage) : List Deferred → Type 0 where
  nothing : Follows s []
  cancels : (a : Address) → Follows s (Deferred.cancel a ∷ [])
  ends : (a : Address) (t : TradeParams) → Follows s (Deferred.execution a (t ∷ []) ∷ [])
  goes_on :
      (j k : IdT) (a : Address) (t : TradeParams)
      → s.by_id j ≡ some a
      → s.by_id k ≡ some t.order
      → 0 < t.last_qty
      → t.last_qty ≡ (s.cells t.order).leaves_qty
      → t.last_qty < (s.cells a).leaves_qty
      → Follows s (chain a t)

find-taken :
    (f : IdT → Answer) (es : List Entry)
    → is_valid_id (Side.find f es) ≡ true
    → (f (Side.find f es)).taken ≡ true
unfolding Side.find
find-taken f [] h = absurd (ground (arith, invalid_none, h))
find-taken f (e ∷ es) h = ground (arith, invalid_none, find-taken f es)

give_up-Follows : (a : Address) (s : Storage) → Follows s (give_up_on a s)
unfolding give_up_on
give_up-Follows a s = elim (Bool-cases (is_market (s.cells a).ord_type)) [
  | inl e ↦ rw e (cancels a)
  | inr e ↦ rw e nothing
]

trade-Follows :
    (j k : IdT) (a c : Address) (s : Storage) {es : List Deferred}
    → s.by_id j ≡ some a
    → s.by_id k ≡ some c
    → 0 < (s.cells c).leaves_qty
    → trade_with a c s ≡ Matching.ok es
    → Follows s es
trade-Follows j k a c s {es = es} sa sc l e = elim (trade_with-fills a c s) [
  | inl (_, _, f) ↦ absurd (cc)
  | inr (t, rest, f, o, _, qa, qc, q, g) ↦
      elim (Bool-cases (ltb (s.cells c).leaves_qty (s.cells a).leaves_qty)) [
        | inl b ↦
            let r : rest ≡ Deferred.match_again a ∷ [] =
              g ∙ ap (λ x. if x then Deferred.match_again a ∷ [] else []) b in
            let w : es ≡ chain a t = cc in
            let n : t.last_qty ≡ (s.cells c).leaves_qty = ground arith in
            subst (Follows s) (sym w) (
              goes_on j k a t sa (sc ∙ ap some (sym o)) (omega (arith, n))
                (n ∙ ap (left_of s) (sym o)) (ground (arith, n)))
        | inr b ↦
            let r : rest ≡ [] = g ∙ ap (λ x. if x then Deferred.match_again a ∷ [] else []) b in
            let w : es ≡ Deferred.execution a (t ∷ []) ∷ [] = cc in
            subst (Follows s) (sym w) (ends a t)
      ]
]

taken-open :
    (a c : Address) (k : IdT) (s : Storage)
    → s.by_id k ≡ some c
    → (find_opposite (s.cells a) s k).taken ≡ true
    → 0 < (s.cells c).leaves_qty
unfolding find_opposite compare_with locate_by_order_id
taken-open a c k s e h = ground (arith, e, h)

found-Follows :
    (j k : IdT) (a : Address) (s : Storage) {es : List Deferred}
    → s.by_id j ≡ some a
    → (is_valid_id k ≡ true → (find_opposite (s.cells a) s k).taken ≡ true)
    → match_found a k s ≡ Matching.ok es
    → Follows s es
unfolding match_found locate_by_order_id
found-Follows j k a s {es = es} sa h e = elim (Bool-cases (is_valid_id k)) [
  | inr n ↦
      let w : es ≡ give_up_on a s = ground arith in subst (Follows s) (sym w) (give_up-Follows a s)
  | inl y ↦ elim (Option-cases (s.by_id k)) [
    | inl n ↦ absurd (ground arith)
    | inr (c, m) ↦ trade-Follows j k a c s sa m (taken-open a c k s m (h y)) (ground arith)
  ]
]

searched-Follows :
    (j : IdT) (a : Address) (s : Storage) (r : Book.Result (List Entry)) {es : List Deferred}
    → s.by_id j ≡ some a
    → (elim (Book.map_ok (Side.find (find_opposite (s.cells a) s)) r) [
      | Book.err e ↦ Matching.err (Matching.from_book e)
      | Book.ok k ↦ match_found a k s
    ])
      ≡ Matching.ok es
    → Follows s es
searched-Follows j a s (Book.err e) sa q = absurd (cc q)
searched-Follows j a s (Book.ok l) sa q =
    let f = find_opposite (s.cells a) s in found-Follows j (Side.find f l) a s sa (find-taken f l) q

-- The events of a match that does not throw, for a stored order.
pub match_order-Follows :
    (j : IdT) (a : Address) (s : Storage) (b : Book.Book) {es : List Deferred}
    → s.by_id j ≡ some a
    → match_order a s b ≡ Matching.ok es
    → Follows s es
unfolding match_order Book.find
match_order-Follows j a s b sa e =
    searched-Follows j a s (Book.entries_of b (s.cells a).instrument.id (opposite (s.cells a).side))
      sa e
