-- ===== src/Acid/Arena.antt =====
-- The bump allocator `arenaAllocate` of src/TransactionScope.cpp.
use native.Mathlib.Nat.{mod-lt, mod-add-mod, add-mod-mod, mod_self}
use order_processor.Common.{
  ℕ, ◌+◌, ◌-◌, ◌%◌, ◌^◌, ◌≤◌, ◌<◌, ◌≡◌, sym, ap, ◌∙◌, ◌⊎◌, inl, inr, Bool-cases, ltb, none, some,
  arith,
}
use order_processor.Acid.Scope.{Scope, arena_allocate, arena_size}

-- The offset, padded up to the alignment, is a multiple of it.
padded_aligned :
    (offset align : ℕ) → 0 < align → (offset + (align - offset % align) % align) % align ≡ 0
padded_aligned offset align h =
    add-mod-mod offset (align - offset % align) align
    ∙ sym (mod-add-mod offset align (align - offset % align))
    ∙ ap (λ t. t % align) (omega (arith, mod-lt offset h))
    ∙ mod_self align

-- A block of the arena: it begins at a multiple of the alignment, at or behind the offset, which it
-- moves to its own end, within the arena.
pub record Block {ℓ} {A : Type ℓ} (size align : ℕ) (sc sc' : Scope A) (start : ℕ) : Type 0 where
  pub aligned : start % align ≡ 0
  pub behind : sc.arena_offset ≤ start
  pub end : start + size ≡ sc'.arena_offset
  pub fits : sc'.arena_offset ≤ arena_size

-- For sizes and alignments that cannot overflow, an allocation returns a block, or `nullptr` and
-- leaves the arena alone; it does the latter only if the padded block does not fit.
pub arena_allocate-Block {ℓ} :
    {A : Type ℓ} (size align : ℕ) (sc : Scope A)
    → 0 < align
    → align ≤ 2 ^ 32
    → size ≤ 2 ^ 32
    → sc.arena_offset ≤ arena_size
    → ((start : ℕ) × (sc' : Scope A) × (arena_allocate size align sc ≡ (some start, sc'))
        × Block size align sc sc' start)
      ⊎ ((arena_allocate size align sc ≡ (none, sc))
          × (arena_size < sc.arena_offset + (align - sc.arena_offset % align) % align + size))
unfolding arena_allocate
arena_allocate-Block size align sc pos small_align small_size within =
    let padding = (align - sc.arena_offset % align) % align in
    let bound : padding < align = mod-lt (align - sc.arena_offset % align) pos in
    let exact : (sc.arena_offset + padding + size) % 2 ^ 64 ≡ sc.arena_offset + padding + size =
      omega arith in
    elim (Bool-cases (ltb arena_size ((sc.arena_offset + padding + size) % 2 ^ 64))) [
      | inl full ↦ inr (ground arith, ground arith)
      | inr free ↦ inl (
        sc.arena_offset + padding,
        record sc { arena_offset = (sc.arena_offset + padding + size) % 2 ^ 64 },
        ground arith,
        record {
          aligned = padded_aligned sc.arena_offset align pos;
          behind = omega arith;
          end = sym exact;
          fits = ground arith;
        },
      )
    ]
