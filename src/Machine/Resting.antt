-- ===== src/Machine/Resting.antt =====
-- An accepted limit order stands in the order book exactly while its state says so.
use order_processor.Common.{
  ◌≡◌, refl, ap, sym, subst, ◌∙◌, inl, inr, Bool, true, false, ◌&&◌, ◌||◌, Bool-cases, some, [],
  arith,
}
use order_processor.Model.Ids.{IdT}
use order_processor.Store.Defs.{Address}
use order_processor.Book.Defs as Book
use order_processor.Machine.States.{State, Event, Trigger, kind}
use order_processor.Machine.Context.{Work, order_at}
use order_processor.Machine.Dispatch.{
  Machine, Reaction, unhandled, moved, failed, react, in_zone1, in_zone2, second_zone, both_zones,
  dispatch, dispatch_idle,
}
use order_processor.Machine.Standing.{
  is_active, is_filled, book_steps, Fits, Follows, After, Admits, plain,
}
use order_processor.Machine.MainZone as Main
use order_processor.Machine.CancelZone.{
  is_foreign, foreign-unhandled, is_waiting, is_canceled, waiting-unhandled, Canceled, AfterCancel,
  cancel-After,
}

-- An accepted limit order that is neither canceled nor replaced, before a transaction.
pub record Stands (a : Address) (m : Machine) : Type 0 where
  pub fits : Fits a m.zone1 m.work
  pub waiting : is_waiting m.zone2 ≡ true
  pub fresh : m.work.operations ≡ []
  pub held :
      is_active m.zone1 ≡ true
      → (c : Book.Book) × (Book.remove (order_at a m.work) m.work.book ≡ Book.ok c)

-- After an event: in the main zone, or canceled or replaced.
abbrev pub Settled : Bool → Address → Machine → Machine → Type 0
Settled true a m m' =
    (m'.zone2 ≡ State.cncl_replaced)
    × (m'.zone1 ≡ m.zone1)
    × (book_steps a (is_active m.zone1) m'.work.operations ≡ some false)
    × (m'.work.book ≡ m.work.book)
Settled false a m m' =
    (is_waiting m'.zone2 ≡ true)
    × Fits a m'.zone1 m'.work
    × Follows (is_active m.zone1 && is_filled m'.zone1) a m.zone1 m.work m'.zone1 m'.work

main-After :
    (a : Address) (m : Machine) (t : Trigger) (k : IdT) (b : Bool)
    → Stands a m
    → is_foreign (kind t) ≡ false
    → Admits t
    → After a m.zone1 m.work (react m.zone1 (plain t k b) m.work)
main-After a m (Trigger.order_rejected x) k b s h d =
    Main.reject-After a m.work k b s.fresh m.zone1 x s.fits
main-After a m Trigger.expired k b s h d = Main.expire-After a m.work k b s.fresh m.zone1 s.fits
main-After a m Trigger.finished k b s h d = Main.finish-After a m.work k b s.fresh m.zone1 s.fits
main-After a m Trigger.suspended k b s h d = Main.suspend-After a m.work k b s.fresh m.zone1 s.fits
main-After a m Trigger.new_day k b s h d = Main.restore-After a m.work k b s.fresh m.zone1 s.fits
main-After a m Trigger.continue k b s h d = Main.continue-After a m.work k b s.fresh m.zone1 s.fits
main-After a m (Trigger.trade_crct_cncl c) k b s h d =
    Main.correct-After a m.work k b s.fresh m.zone1 c s.fits d
main-After a m (Trigger.trade_execution t) k b s h d =
    Main.fill-After a m.work k b s.fresh m.zone1 t s.fits s.held
main-After a m _ k b s h d = absurd (cc)

-- The other zone takes no event that the main zone may take.
second_skips :
    (m : Machine) (t : Trigger) (k : IdT) (b : Bool)
    → is_waiting m.zone2 ≡ true
    → is_foreign (kind t) ≡ false
    → second_zone (plain t k b) m ≡ m
second_skips m t k b h g =
    ap (λ r. in_zone2 r m) (waiting-unhandled m.zone2 (plain t k b) m.work h g)

is_waiting_open : (s : State) → is_waiting s ≡ true → is_canceled s ≡ false
is_waiting_open s h = ground arith

not_both : (s : State) → (is_active s && is_filled s) ≡ false
not_both s = ground arith

-- Nothing for the book has happened.
module _ (a : Address) (m : Machine) (s : Stands a m) where
  stays :
      (w : Work)
      → Fits a m.zone1 w
      → w.operations ≡ []
      → w.book ≡ m.work.book
      → Settled false a m (record m { work = w })
  unfolding book_steps
  stays w f o b = (
    s.waiting,
    f,
    subst (λ x. Follows x a m.zone1 m.work m.zone1 w) (sym (not_both m.zone1))
        (ap (book_steps a (is_active m.zone1)) o, b),
  )

  module _ (t : Trigger) (k : IdT) (b : Bool) (own : is_foreign (kind t) ≡ false) where
    settle_main :
        (r : Reaction) → After a m.zone1 m.work r → Settled false a m (in_zone1 r (plain t k b) m)
    settle_main unhandled h =
        subst (Settled false a m) (sym (second_skips m t k b s.waiting own))
          (stays m.work s.fits s.fresh refl)
    settle_main (moved z w) h =
        subst (Settled false a m)
          (sym (second_skips (record m { zone1 = z; work = w }) t k b s.waiting own))
          (s.waiting, h.0, h.1)
    settle_main (failed w) h = stays w h.0 h.1 h.2

  settle_moved :
      (z : State) (w : Work) (c : Bool)
      → is_canceled z ≡ c
      → (is_waiting z || is_canceled z) ≡ true
      → Canceled c a m.zone1 m.work w
      → Settled c a m (record m { zone2 = z; work = w }) × (w.posted ≡ [])
  settle_moved z w true e o (h, g, i) = ((cncl z e, refl, h, g), i)
    where
      cncl : (z : State) → is_canceled z ≡ true → z ≡ State.cncl_replaced
      cncl z e = ground arith
  settle_moved z w false e o (f, h, g) = (
    (
      ground arith,
      f,
      subst (λ x. Follows x a m.zone1 m.work m.zone1 w) (sym (not_both m.zone1)) (h, g),
    ),
    f.idle,
  )

  settle_cancel :
      (r : Reaction)
      → AfterCancel a m.zone1 m.work r
      → Settled (is_canceled (in_zone2 r m).zone2) a m (in_zone2 r m)
        × ((in_zone2 r m).work.posted ≡ [])
  settle_cancel unhandled h = (
    subst (λ x. Settled x a m m) (sym (is_waiting_open m.zone2 s.waiting))
        (stays m.work s.fits s.fresh refl),
    s.fits.idle,
  )
  settle_cancel (moved z w) (o, h) = settle_moved z w (is_canceled z) refl o h
  settle_cancel (failed w) (f, h, g) = (
    subst (λ x. Settled x a m (record m { work = w })) (sym (is_waiting_open m.zone2 s.waiting))
        (stays w f h g),
    f.idle,
  )

  both_zones-Settled :
      (t : Trigger) (k : IdT) (b : Bool)
      → Admits t
      → let m' = both_zones (plain t k b) m in
        Settled (is_canceled m'.zone2) a m m' × (m'.work.posted ≡ [])
  unfolding both_zones
  both_zones-Settled t k b d = elim (Bool-cases (is_foreign (kind t))) [
    | inl f ↦
        subst
          (λ r.
            let m' = in_zone1 r (plain t k b) m in
            Settled (is_canceled m'.zone2) a m m' × (m'.work.posted ≡ []))
          (sym (foreign-unhandled m.zone1 (plain t k b) m.work s.fits.started f))
          (settle_cancel (react m.zone2 (plain t k b) m.work)
            (cancel-After a m.zone1 m.work k b s.fresh m.zone2 t s.fits s.waiting))
    | inr o ↦
        let h =
          settle_main t k b o (react m.zone1 (plain t k b) m.work) (main-After a m t k b s o d) in
        let m' = in_zone1 (react m.zone1 (plain t k b) m.work) (plain t k b) m in
        (subst (λ x. Settled x a m m') (sym (is_waiting_open m'.zone2 h.0)) h, h.1.idle)
  ]

module _ (process : Event → Machine → Machine)
    (documented : (e : Event) (m : Machine) → process e m ≡ dispatch e m) where
  -- An accepted limit order that is neither canceled nor replaced, and that the book holds while its state
  -- is New or PartFill, gets an event at the start of a transaction, with no other event waiting: any event
  -- that is no test of the table and no correction that leaves nothing open. Unless the event cancels or
  -- replaces the order, its status is still that of its state, it has an open quantity in the states New,
  -- PartFill, DoneForDay and Suspended, and none if it is filled. In any case the operations add the order
  -- to the book and remove it from there in turn, from where it stood before the event, and end with the
  -- order in the book exactly if its state is New or PartFill and it is not canceled or replaced, and the
  -- book itself is as before; but a fill of all that is left takes the order out of the book at once, with no
  -- such operation. The dispatch of Boost MSM is that of its documentation.
  pub process-Settled :
      (a : Address) (m : Machine) (t : Trigger) (k : IdT) (b : Bool)
      → Stands a m
      → Admits t
      → Settled (is_canceled (process (plain t k b) m).zone2) a m (process (plain t k b) m)
  process-Settled a m t k b s d =
      let (h, i) = both_zones-Settled a m s t k b d in
      subst (λ m'. Settled (is_canceled m'.zone2) a m m')
        (sym (documented (plain t k b) m ∙ dispatch_idle (plain t k b) m i)) h
