-- ===== src/Processor/Totals.antt =====
-- What is left of the orders that the processor in src/Processor.cpp works on.
use order_processor.Common.{
  ℕ, zero, suc, ◌+◌, ◌<◌, ◌≤◌, subst, arith, ==_iff, ◌==◌, Bool-cases, inl, inr,
}
use order_processor.Store.Defs.{Address}
use order_processor.Machine.Trading.{leaves}
use order_processor.Processor.Desk.{Desk}

-- What is left of the order at an address.
abbrev pub open_qty : Desk → Address → ℕ
open_qty d c = leaves c d.machine.work

-- The orders below an address together.
unfoldable pub total : ℕ → (Address → ℕ) → ℕ
total zero f = 0
total (suc n) f = total n f + f n

pub total-le : (n : ℕ) (f g : Address → ℕ) → ((c : Address) → f c ≤ g c) → total n f ≤ total n g
unfolding total
total-le zero f g h = omega arith
total-le (suc n) f g h = omega (arith, total-le n f g h, h n)

pub total-lt :
    (n : ℕ) (f g : Address → ℕ) (c : Address)
    → ((b : Address) → f b ≤ g b)
    → c < n
    → f c < g c
    → total n f < total n g
unfolding total
total-lt zero f g c h b l = absurd (omega arith)
total-lt (suc n) f g c h b l = elim (Bool-cases (c == n)) [
  | inl e ↦
      let q : f n < g n = subst (λ x. f x < g x) ((==_iff c n).0 e) l in
      omega (arith, total-le n f g h, q)
  | inr e ↦ omega (arith, total-lt n f g c h (ground arith) l, h n)
]
