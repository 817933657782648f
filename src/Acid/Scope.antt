-- ===== src/Acid/Scope.antt =====
-- The operations and stages of `TransactionScope`, src/TransactionScope.cpp, and its arena.
use order_processor.Common.{
  ℕ, ◌+◌, ◌-◌, ◌%◌, ◌^◌, Option, none, some, List, [], ◌∷◌, ◌++◌, ltb, leb, length, get_elem?, take,
  if◌then◌else◌,
}
use order_processor.Model.Ids.{IdT}

-- `A` is the type of the operations.
pub record Scope {ℓ} (A : Type ℓ) : Type ℓ where
  pub operations : List A
  pub boundaries : List ℕ
  pub id : IdT
  pub arena_offset : ℕ

-- `pop_back`
abbrev pub pop_back {ℓ} : {B : Type ℓ} → List B → List B
pop_back [] = []
pop_back (x ∷ []) = []
pop_back (x ∷ y ∷ ys) = x ∷ pop_back (y ∷ ys)

-- The loop of `removeLastOperation`: pops boundaries from the back while they are at least `n`.
unfoldable pub trim : ℕ → List ℕ → List ℕ
trim n [] = []
trim n (b ∷ bs) = elim (trim n bs) [ [] ↦ if leb n b then [] else b ∷ [] | c ∷ cs ↦ b ∷ c ∷ cs ]

-- `ARENA_SIZE`
abbrev pub arena_size : ℕ
arena_size = 2048

module _ {ℓ} {A : Type ℓ} where
  abbrev pub empty_scope : Scope A
  empty_scope = record { operations = []; boundaries = []; id = 0; arena_offset = 0 }

  -- `reset`
  unfoldable pub reset : Scope A → Scope A
  reset sc = record sc { operations = []; boundaries = []; id = 0; arena_offset = 0 }

  -- `addOperation`
  unfoldable pub add_operation : A → Scope A → Scope A
  add_operation op sc = record sc { operations = sc.operations ++ op ∷ [] }

  -- `removeLastOperation`
  unfoldable pub remove_last_operation : Scope A → Scope A
  unfolding trim
  remove_last_operation sc = elim sc.operations [
    | [] ↦ sc
    | op ∷ ops ↦ record sc {
      operations = pop_back (op ∷ ops);
      boundaries = trim (length ops) sc.boundaries;
    }
  ]

  -- `startNewStage`: the id of the stage, and the scope.
  unfoldable pub start_new_stage : Scope A → ℕ × Scope A
  start_new_stage sc =
      (length sc.boundaries, record sc { boundaries = sc.boundaries ++ length sc.operations ∷ [] })

  -- `removeStage`; `none` is the exception for an id that is no stage.
  unfoldable pub remove_stage : ℕ → Scope A → Option (Scope A)
  remove_stage stage sc = elim (get_elem? sc.boundaries stage) [
    | none ↦ none
    | some start ↦
        some (record sc {
          operations = take start sc.operations;
          boundaries = take stage sc.boundaries;
        })
  ]

  -- `arenaAllocate`: where the block begins in the arena, or `none` for `nullptr`. The arithmetic is
  -- that of a 64-bit `size_t`.
  unfoldable pub arena_allocate : ℕ → ℕ → Scope A → Option ℕ × Scope A
  arena_allocate size align sc =
      let padding = (align - sc.arena_offset % align) % align in
      let new_offset = (sc.arena_offset + padding + size) % 2 ^ 64 in
      if ltb arena_size new_offset
      then (none, sc)
      else (some (sc.arena_offset + padding), record sc { arena_offset = new_offset })
