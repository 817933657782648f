-- ===== src/Subscr/Pinning.antt =====
-- Filters of src/OrderFilter.cpp that stand under the symbol of an instrument only if they ask for it.
use order_processor.Common.{◌≡◌, sym, ◌∙◌, Bool, true, false, ◌&&◌, some, [], ◌∷◌, arith, ite}
use order_processor.Model.Order.{Text}
use order_processor.Filters.Values.{string_equal, Text-discrete}
use order_processor.Filters.Entries.{symbol}
use order_processor.Filters.Orders.{OrderEntry, OrderFilter, match, get_instrument}
use order_processor.Subscr.Listed.{Pinned}

true-holds : {P : Type 0} (d : Dec P) → ite d true false ≡ true → P
true-holds (yes p) h = p
true-holds (no p) h = absurd (cc h)

&&-left : (a b : Bool) → (a && b) ≡ true → a ≡ true
&&-left a b h = ground arith

some-equal : (s t : Text) → some s ≡ some t → s ≡ t
some-equal s t h = cc h

module _ (regex_match : Text → Text → Bool) (e : OrderEntry) where
  -- A filter without a part for the instrument.
  pub general-Pinned :
      (f : OrderFilter) → Pinned regex_match e (record f { instrument_filter = [] })
  unfolding get_instrument
  general-Pinned f t h m = absurd (cc h)

  -- A filter whose part for the instrument is one symbol.
  pub symbol-Pinned :
      (s : Text) (f : OrderFilter)
      → Pinned regex_match e (record f { instrument_filter = symbol (string_equal s) ∷ [] })
  unfolding get_instrument match
  symbol-Pinned s f t h m =
      let a =
        true-holds (Text-discrete e.order.instrument.symbol s) (&&-left _ true (&&-left _ _ m)) in
      sym (some-equal s t h) ∙ sym a
