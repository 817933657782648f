-- ===== src/Acid/Stages.antt =====
-- Stages and the arena of `TransactionScope`, src/TransactionScope.cpp.
use order_processor.Common.{
  ℕ, zero, suc, ◌≤◌, ◌<◌, ◌≡◌, refl, ap, subst, ◌∙◌, Option, none, some, List, [], ◌∷◌, ◌++◌,
  length, get_elem?, take, take-append, length-append, arith, Option-cases, inl, inr, OnSome,
}
use mathlib.Core.List.{append-nil, append_assoc}
use order_processor.Acid.Scope.{
  Scope, add_operation, remove_last_operation, start_new_stage, remove_stage, reset, trim, pop_back,
}

module _ {ℓ} {A : Type ℓ} where
  -- `addOperation`, for the operations of a list.
  unfoldable pub add_all : List A → Scope A → Scope A
  add_all [] sc = sc
  add_all (op ∷ ops) sc = add_all ops (add_operation op sc)

  add_all-operations :
      (ops : List A) (sc : Scope A)
      → ((add_all ops sc).operations ≡ sc.operations ++ ops)
        × ((add_all ops sc).boundaries ≡ sc.boundaries)
  unfolding add_all add_operation
  add_all-operations [] sc = (simp append-nil, refl)
  add_all-operations (op ∷ ops) sc =
      let (h, k) = add_all-operations ops (add_operation op sc) in
      (h ∙ append_assoc sc.operations (op ∷ []) ops, k)

get_elem?-append {ℓ} :
    {A : Type ℓ} (xs : List A) (x : A) → get_elem? (xs ++ x ∷ []) (length xs) ≡ some x
get_elem?-append [] x = refl
get_elem?-append (y ∷ xs) x = get_elem?-append xs x

module _ {ℓ} {A : Type ℓ} where
  remove_stage_at :
      (stage start : ℕ) (sc : Scope A)
      → get_elem? sc.boundaries stage ≡ some start
      → remove_stage stage sc
        ≡ some (record sc {
          operations = take start sc.operations;
          boundaries = take stage sc.boundaries;
        })
  unfolding remove_stage
  remove_stage_at stage start sc e = rw (e, remove_stage)

  -- Removing a stage takes back exactly the operations that were added since it was started, and the
  -- stage itself.
  pub remove_stage-start_new_stage :
      (ops : List A) (sc : Scope A)
      → let (stage, started) = start_new_stage sc in
        (sc' : Scope A) × (remove_stage stage (add_all ops started) ≡ some sc')
        × (sc'.operations ≡ sc.operations)
        × (sc'.boundaries ≡ sc.boundaries)
  unfolding start_new_stage
  remove_stage-start_new_stage ops sc =
      let started : Scope A = record sc {
        boundaries = sc.boundaries ++ length sc.operations ∷ [];
      } in
      let (o, b) = add_all-operations ops started in
      let n = length sc.operations in
      let k = length sc.boundaries in
      (
        _,
        remove_stage_at k n (add_all ops started) (rw b (get_elem?-append sc.boundaries n)),
        rw o (take-append sc.operations ops),
        rw b (take-append sc.boundaries (n ∷ [])),
      )

-- Stage boundaries ascend from `lo` to at most `n`.
abbrev pub Ascends : ℕ → ℕ → List ℕ → Type 0
Ascends lo n [] = lo ≤ n
Ascends lo n (b ∷ bs) = (lo ≤ b) × Ascends b n bs

Ascends-mono : (lo n m : ℕ) (bs : List ℕ) → n ≤ m → Ascends lo n bs → Ascends lo m bs
Ascends-mono lo n m [] h a = omega arith
Ascends-mono lo n m (b ∷ bs) h a = (a.0, Ascends-mono b n m bs h a.1)

Ascends-append : (lo n : ℕ) (bs : List ℕ) → Ascends lo n bs → Ascends lo n (bs ++ n ∷ [])
Ascends-append lo n [] a = (a, omega arith)
Ascends-append lo n (b ∷ bs) a = (a.0, Ascends-append b n bs a.1)

Ascends-le : (lo n : ℕ) (bs : List ℕ) → Ascends lo n bs → lo ≤ n
Ascends-le lo n [] a = a
Ascends-le lo n (b ∷ bs) a = omega (arith, Ascends-le b n bs a.1)

trim_all : (lo n : ℕ) (bs : List ℕ) → n < lo → Ascends lo (suc n) bs → trim n bs ≡ []
unfolding trim
trim_all lo n [] h a = refl
trim_all lo n (b ∷ bs) h a = rw (trim_all b n bs (omega arith) a.1, trim) (ground arith)

Ascends-trim : (lo n : ℕ) (bs : List ℕ) → lo ≤ n → Ascends lo (suc n) bs → Ascends lo n (trim n bs)
unfolding trim
Ascends-trim lo n [] h a = h
Ascends-trim lo n (b ∷ bs) h a = ground (arith, Ascends-trim b n bs, trim_all b n bs)

Ascends-take :
    (lo n k start : ℕ) (bs : List ℕ)
    → Ascends lo n bs
    → get_elem? bs k ≡ some start
    → Ascends lo start (take k bs) × (start ≤ n)
Ascends-take lo n k start [] a e = cc
Ascends-take lo n zero start (b ∷ bs) a e = ground (arith, Ascends-le b n bs a.1)
Ascends-take lo n (suc k) start (b ∷ bs) a e =
    let (t, h) = Ascends-take b n k start bs a.1 e in ((a.0, t), h)

module _ {ℓ} {A : Type ℓ} where
  length-pop_back : (x : A) (xs : List A) → length (pop_back (x ∷ xs)) ≡ length xs
  length-pop_back x [] = refl
  length-pop_back x (y ∷ ys) = ap suc (length-pop_back y ys)

  length-take_le : (n : ℕ) (xs : List A) → n ≤ length xs → length (take n xs) ≡ n
  length-take_le zero xs h = refl
  length-take_le (suc n) [] h = omega arith
  length-take_le (suc n) (x ∷ xs) h = ap suc (length-take_le n xs (omega arith))

  -- The stages of a scope begin one after the other, within its operations.
  abbrev pub IsStaged : Scope A → Type 0
  IsStaged sc = Ascends 0 (length sc.operations) sc.boundaries

-- The calls of the interface `Scope`, and `reset`.
pub data Call {ℓ} (A : Type ℓ) : Type ℓ where
  adds : A → Call A
  removes_last starts_stage resets : Call A
  removes_stage : ℕ → Call A

module _ {ℓ} {A : Type ℓ} where
  -- A call that throws leaves the scope as it was.
  abbrev after : Scope A → Option (Scope A) → Scope A
  after sc none = sc
  after sc (some sc') = sc'

  unfoldable pub call : Call A → Scope A → Scope A
  call (adds op) sc = add_operation op sc
  call removes_last sc = remove_last_operation sc
  call starts_stage sc = (start_new_stage sc).1
  call resets sc = reset sc
  call (removes_stage k) sc = after sc (remove_stage k sc)

  remove_last-IsStaged : (sc : Scope A) → IsStaged sc → IsStaged (remove_last_operation sc)
  unfolding remove_last_operation
  remove_last-IsStaged sc v = go sc.operations refl
    where
      go : (ops : List A) → sc.operations ≡ ops → IsStaged (remove_last_operation sc)
      go [] e = rw (e, remove_last_operation) v
      go (op ∷ ops) e =
          rw (e, remove_last_operation)
            (rw (length-pop_back op ops) (
              Ascends-trim 0 (length ops) sc.boundaries (omega arith)
                (subst (λ l. Ascends 0 (length l) sc.boundaries) e v)))

  remove_stage-IsStaged : (k : ℕ) (sc : Scope A) → IsStaged sc → OnSome IsStaged (remove_stage k sc)
  unfolding remove_stage
  remove_stage-IsStaged k sc v = elim (Option-cases (get_elem? sc.boundaries k)) [
    | inl e ↦ rw (e, remove_stage) tt
    | inr (start, e) ↦
        let (t, h) = Ascends-take 0 (length sc.operations) k start sc.boundaries v e in
        rw (e, remove_stage) (rw (length-take_le start sc.operations h) t)
  ]

  -- Where the stages begin one after the other and within the operations, they still do after any
  -- call of the scope's interface and after `reset`.
  pub call-IsStaged : (c : Call A) (sc : Scope A) → IsStaged sc → IsStaged (call c sc)
  unfolding call
  call-IsStaged (adds op) sc v =
      unfold add_operation in
      Ascends-mono 0 (length sc.operations) _ sc.boundaries
        (omega (arith, length-append sc.operations (op ∷ []))) v
  call-IsStaged removes_last sc v = remove_last-IsStaged sc v
  call-IsStaged starts_stage sc v =
      unfold start_new_stage in Ascends-append 0 (length sc.operations) sc.boundaries v
  call-IsStaged resets sc v = unfold reset in omega arith
  call-IsStaged (removes_stage k) sc v = ground (arith, remove_stage-IsStaged k sc v)
