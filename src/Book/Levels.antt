-- ===== src/Book/Levels.antt =====
-- `getSnapshot` of src/OrderBookImpl.cpp: what each level of the snapshot counts.
use order_processor.Common.{
  ℕ, ◌+◌, ◌%◌, ◌<◌, ◌≡◌, refl, true, Option, none, some, List, [], ◌∷◌, arith, inl, inr,
  Option-cases, ◌==◌, if◌then◌else◌,
}
use order_processor.Model.Ids.{IdT}
use order_processor.Model.Order.{Order, qty_limit}
use order_processor.Book.Side.{Entry, Direction, ascend, descend, before}
use order_processor.Book.Defs.{Book, Group, Level, Snapshot, bump, aggregate, get_snapshot}

-- The levels stand in the order of the map, each price once.
abbrev pub Beyond : Direction → ℕ → List Level → Type 0
Beyond d p [] = Unit {0}
Beyond d p (l ∷ ls) = (before d p l.price ≡ true) × Beyond d l.price ls

abbrev pub AreDistinct : Direction → List Level → Type 0
AreDistinct d [] = Unit {0}
AreDistinct d (l ∷ ls) = Beyond d l.price ls

-- The quantity and the number of orders that the levels show at a price.
abbrev pub qty_at : ℕ → List Level → ℕ
qty_at p [] = 0
qty_at p (l ∷ ls) = if l.price == p then l.total_qty else qty_at p ls

abbrev pub count_at : ℕ → List Level → ℕ
count_at p [] = 0
count_at p (l ∷ ls) = if l.price == p then l.order_count else count_at p ls

bump-Beyond :
    (d : Direction) (r p qty : ℕ) (ls : List Level)
    → before d r p ≡ true
    → Beyond d r ls
    → Beyond d r (bump d p qty ls)
unfolding bump
bump-Beyond d r p qty [] h b = (h, tt)
bump-Beyond ascend r p qty (l ∷ ls) h b = ground (arith, bump-Beyond ascend l.price p qty ls)
bump-Beyond descend r p qty (l ∷ ls) h b = ground (arith, bump-Beyond descend l.price p qty ls)

bump-AreDistinct :
    (d : Direction) (p qty : ℕ) (ls : List Level)
    → AreDistinct d ls
    → AreDistinct d (bump d p qty ls)
unfolding bump
bump-AreDistinct d p qty [] b = tt
bump-AreDistinct ascend p qty (l ∷ ls) b = ground (arith, bump-Beyond ascend l.price p qty ls)
bump-AreDistinct descend p qty (l ∷ ls) b = ground (arith, bump-Beyond descend l.price p qty ls)

qty_at-Beyond :
    (d : Direction) (p r : ℕ) (ls : List Level)
    → before d p r ≡ true
    → Beyond d r ls
    → (qty_at p ls ≡ 0) × (count_at p ls ≡ 0)
qty_at-Beyond d p r [] h b = (refl, refl)
qty_at-Beyond ascend p r (l ∷ ls) h b = ground (arith, qty_at-Beyond ascend p l.price ls)
qty_at-Beyond descend p r (l ∷ ls) h b = ground (arith, qty_at-Beyond descend p l.price ls)

Beyond-tail : (d : Direction) (l : Level) (ls : List Level) → Beyond d l.price ls → AreDistinct d ls
Beyond-tail d l [] b = tt
Beyond-tail d l (m ∷ ls) b = b.1

-- A level gains the order's quantity, modulo the width of `QuantityT`.
qty_at-bump :
    (d : Direction) (p qty q : ℕ) (ls : List Level)
    → AreDistinct d ls
    → (qty_at q (bump d p qty ls)
        ≡ (if p == q then (qty_at q ls + qty) % qty_limit else qty_at q ls))
      × (count_at q (bump d p qty ls)
          ≡ (if p == q then (count_at q ls + 1) % qty_limit else count_at q ls))
unfolding bump
qty_at-bump d p qty q [] b = ground arith
qty_at-bump ascend p qty q (l ∷ ls) b = ground (
  arith,
  qty_at-bump ascend p qty q ls (Beyond-tail ascend l ls b),
  qty_at-Beyond ascend p l.price ls,
)
qty_at-bump descend p qty q (l ∷ ls) b = ground (
  arith,
  qty_at-bump descend p qty q ls (Beyond-tail descend l ls b),
  qty_at-Beyond descend p l.price ls,
)

-- The leaves of the located orders at a price, and their number.
abbrev pub leaves_of : Option Order → ℕ
leaves_of none = 0
leaves_of (some o) = o.leaves_qty

abbrev pub one_of : Option Order → ℕ
one_of none = 0
one_of (some o) = 1

abbrev pub resting : (IdT → Option Order) → ℕ → List Entry → ℕ
resting locate p [] = 0
resting locate p (e ∷ es) =
    (if e.price == p then leaves_of (locate e.id) else 0) + resting locate p es

abbrev pub orders_at : (IdT → Option Order) → ℕ → List Entry → ℕ
orders_at locate p [] = 0
orders_at locate p (e ∷ es) =
    (if e.price == p then one_of (locate e.id) else 0) + orders_at locate p es

pub record Shows (d : Direction) (locate : IdT → Option Order) (levels : List Level)
    (es : List Entry) (result : List Level) : Type 0 where
  pub distinct : AreDistinct d result
  pub quantities : (p : ℕ) → qty_at p result ≡ (qty_at p levels + resting locate p es) % qty_limit
  pub counts : (p : ℕ) → count_at p result ≡ (count_at p levels + orders_at locate p es) % qty_limit

abbrev IsNarrow : List Level → Type 0
IsNarrow levels = (p : ℕ) → (qty_at p levels < qty_limit) × (count_at p levels < qty_limit)

bump-IsNarrow :
    (d : Direction) (p qty : ℕ) (ls : List Level)
    → AreDistinct d ls
    → IsNarrow ls
    → IsNarrow (bump d p qty ls)
bump-IsNarrow d p qty ls b n q = ground (arith, qty_at-bump d p qty q ls b, n q)

aggregate-Shows :
    (d : Direction) (locate : IdT → Option Order) (levels : List Level) (es : List Entry)
    → AreDistinct d levels
    → IsNarrow levels
    → Shows d locate levels es (aggregate d locate levels es)
unfolding aggregate
aggregate-Shows d locate levels [] b n = record {
  distinct = b;
  quantities = λ p. ground (arith, n p);
  counts = λ p. ground (arith, n p);
}
aggregate-Shows d locate levels (e ∷ es) b n = elim (Option-cases (locate e.id)) [
  | inl m ↦
      let ih = aggregate-Shows d locate levels es b n in
      rw (m, aggregate)
        (record {
          distinct = ih.distinct;
          quantities = λ p. ground (arith, ih.quantities p);
          counts = λ p. ground (arith, ih.counts p);
        })
  | inr (o, m) ↦
      let ls = bump d e.price o.leaves_qty levels in
      let ih =
        aggregate-Shows d locate ls es (bump-AreDistinct d e.price o.leaves_qty levels b)
          (bump-IsNarrow d e.price o.leaves_qty levels b n) in
      rw (m, aggregate)
        (record {
          distinct = ih.distinct;
          quantities =
              λ p. ground (arith, ih.quantities p, qty_at-bump d e.price o.leaves_qty p levels b);
          counts = λ p. ground (arith, ih.counts p, qty_at-bump d e.price o.leaves_qty p levels b);
        })
]

abbrev pub SnapshotOf : (IdT → Option Order) → Option Group → Snapshot → Type 0
SnapshotOf locate none r = r ≡ record { bids = []; asks = [] }
SnapshotOf locate (some g) r =
    Shows descend locate [] g.buys r.bids × Shows ascend locate [] g.sells r.asks

none_IsNarrow : IsNarrow []
none_IsNarrow p = (omega arith, omega arith)

-- Each side of the snapshot of a registered instrument has one level for a price, in the order of
-- the side, whose quantity and count are those of the located orders at that price, modulo the 32
-- bits of the fields; the snapshot of any other instrument is empty.
pub get_snapshot-SnapshotOf :
    (i : IdT) (locate : IdT → Option Order) (b : Book)
    → SnapshotOf locate (b.groups i) (get_snapshot i locate b)
unfolding get_snapshot
get_snapshot-SnapshotOf i locate b = elim (Option-cases (b.groups i)) [
  | inl e ↦ rw (e, get_snapshot) refl
  | inr (g, e) ↦
      rw (e, get_snapshot)
        (
          aggregate-Shows descend locate [] g.buys tt none_IsNarrow,
          aggregate-Shows ascend locate [] g.sells tt none_IsNarrow,
        )
]
