-- ===== src/Codec/Cutting.antt =====
-- What the readers make of the bytes that the writers give, whole or cut off.
use order_processor.Common.{
  ℕ, zero, suc, ◌+◌, ◌<◌, ◌≤◌, ◌^◌, ◌≡◌, refl, sym, ap, ◌∙◌, none, [], ◌∷◌, ◌++◌, length,
  length-append, arith, ◌⊎◌, inl, inr,
}
use order_processor.Model.Ids.{IdT}
use order_processor.Codec.Bytes.{
  Bytes, DecodeError, err, Reader, continue, ◌>>=◌, ◌>>◌, pure, put, push_byte, take_int, or_fail,
  read_or, read_int, mark, need, put_id, restore_id, put_zones, restore_zones, dotted, dot,
}
use order_processor.Codec.Reading.{
  Reads, Reads-put, Reads-id, Reads-zones, Reads-field, Reads-map, Reads-dot, length-put,
}

-- Where bytes are missing, from `x` on: the reader throws, or it reads the mark `c` behind the end.
abbrev Cut : {A : Type 0} → ℕ → Reader A → Bytes → Type 0
Cut c p bs =
    (front back : Bytes) (x : ℕ)
    → bs ≡ front ++ (x ∷ back)
    → (p front ≡ err DecodeError.too_small) ⊎ ((p front ≡ err DecodeError.overread) × (x ≡ c))

pub record Decodes {A : Type 0} (p : Reader A) (bs : Bytes) (v : A) : Type 0 where
  pub reads : Reads p bs v
  pub cut : Cut b'.' p bs

-- Where the first missing byte of two fields is.
abbrev Split : Bytes → Bytes → Bytes → Bytes → ℕ → Type 0
Split bs cs front back x =
    ((m : Bytes) × (bs ≡ front ++ (x ∷ m)))
    ⊎ ((m : Bytes) × (front ≡ bs ++ m) × (cs ≡ m ++ (x ∷ back)))

split :
    (bs cs front back : Bytes) (x : ℕ) → bs ++ cs ≡ front ++ (x ∷ back) → Split bs cs front back x
split [] cs front back x e = inr (front, refl, e)
split (b ∷ bs) cs [] back x e = let q : b ≡ x = cc in inl (bs, ap (λ y. y ∷ bs) q)
split (b ∷ bs) cs (y ∷ front) back x e =
    let q : b ≡ y = cc in
    let r : bs ++ cs ≡ front ++ (x ∷ back) = cc in
    elim (split bs cs front back x r) [
      | inl (m, h) ↦ inl (m, ap (λ z. z ∷ bs) q ∙ ap (λ l. y ∷ l) h)
      | inr (m, h, g) ↦ inr (m, ap (λ z. z ∷ front) (sym q) ∙ ap (λ l. b ∷ l) h, g)
    ]

Cut-bind :
    {A B : Type 0} (c : ℕ) (p : Reader A) (f : A → Reader B) (bs cs : Bytes) (v : A)
    → Reads p bs v
    → Cut c p bs
    → Cut c (f v) cs
    → Cut c (p >>= f) (bs ++ cs)
unfolding ◌>>=◌
Cut-bind c p f bs cs v r h g front back x e = elim (split bs cs front back x e) [
  | inl (m, q) ↦ elim (h front m x q) [
    | inl a ↦ inl (ap (λ t. continue t f) a)
    | inr (a, b) ↦ inr (ap (λ t. continue t f) a, b)
  ]
  | inr (m, q, s) ↦
      let whole : continue (p front) f ≡ f v m =
        ap (λ t. continue (p t) f) q ∙ ap (λ t. continue t f) (r m) in
      elim (g m back x s) [ inl a ↦ inl (whole ∙ a) | inr (a, b) ↦ inr (whole ∙ a, b) ]
]

length-below : (bs front back : Bytes) (x : ℕ) → bs ≡ front ++ (x ∷ back) → length front < length bs
length-below bs front back x e = omega (arith, ap length e, length-append front (x ∷ back))

take_int-none : (w : ℕ) (bs : Bytes) → length bs < w → take_int w bs ≡ none
unfolding take_int
take_int-none zero bs h = absurd (omega arith)
take_int-none (suc w) [] h = refl
take_int-none (suc w) (b ∷ bs) h = ap (push_byte b) (take_int-none w bs (omega arith))

pub Decodes-put : (w n : ℕ) → n < 256 ^ w → Decodes (read_int w) (put w n) n
unfolding read_or
Decodes-put w n h = record {
  reads = Reads-put DecodeError.too_small w n h;
  cut = λ front back x e.
      let l = length-below (put w n) front back x e in
      inl (
        ap (or_fail DecodeError.too_small) (take_int-none w front (omega (arith, length-put w n))));
}

need-too_small : (n : ℕ) (bs : Bytes) → length bs < n → need n bs ≡ err DecodeError.too_small
unfolding need
need-too_small n bs h = ground arith

-- The size is checked first.
Cut-need :
    {A : Type 0} (n : ℕ) (p : Reader A) (bs : Bytes) → length bs ≤ n → Cut b'.' (need n >> p) bs
unfolding ◌>>=◌ ◌>>◌
Cut-need n p bs h front back x e =
    let l = length-below bs front back x e in
    inl (ap (λ t. continue t (λ a. p)) (need-too_small n front (omega arith)))

length-pair : (w u a b c : ℕ) → length (put w a ++ c ∷ put u b) ≡ w + suc u
length-pair w u a b c =
    omega (arith, length-append (put w a) (c ∷ put u b), length-put w a, length-put u b)

pub Decodes-id : (k : IdT) → k < 2 ^ 96 → Decodes restore_id (put_id k) k
unfolding restore_id put_id
Decodes-id k h = record { reads = Reads-id k h; cut = Cut-need 13 _ (put_id k) (omega arith) }

pub Decodes-zones :
    (z1 z2 : ℕ) → z1 < 2 ^ 32 → z2 < 2 ^ 32 → Decodes restore_zones (put_zones z1 z2) (z1, z2)
unfolding restore_zones put_zones
Decodes-zones z1 z2 h g = record {
  reads = Reads-zones z1 z2 h g;
  cut = Cut-need 9 _ (put_zones z1 z2) (omega arith);
}

-- The mark behind a field.
Cut-mark : {A : Type 0} (a : A) → Cut b'.' (mark b'.' >> pure a) (b'.' ∷ [])
unfolding mark ◌>>=◌ ◌>>◌
Cut-mark a [] back x e = inr (refl, cc)
Cut-mark a (y ∷ []) back x e = absurd (cc)
Cut-mark a (y ∷ z ∷ front) back x e = absurd (cc)

Decodes-dot :
    {A : Type 0} (p : Reader A) (bs : Bytes) (v : A)
    → Decodes p bs v
    → Decodes (dotted p) (dot bs) v
unfolding dotted
Decodes-dot p bs v d = record {
  reads = Reads-dot p bs v d.reads;
  cut = Cut-bind b'.' p (λ a. mark b'.' >> pure a) bs (b'.' ∷ []) v d.reads d.cut (Cut-mark v);
}

-- A field, and what is read behind it.
pub Decodes-field :
    {A B : Type 0} (p : Reader A) (f : A → Reader B) (bs cs : Bytes) (v : A) (u : B)
    → Decodes p bs v
    → Decodes (f v) cs u
    → Decodes (dotted p >>= f) (dot bs ++ cs) u
Decodes-field p f bs cs v u d e =
    let first = Decodes-dot p bs v d in
    record {
      reads = Reads-field p f bs cs v u d.reads e.reads;
      cut = Cut-bind b'.' (dotted p) f (dot bs) cs v first.reads first.cut e.cut;
    }

pub Decodes-map :
    {A B : Type 0} (p : Reader A) (f : A → B) (bs : Bytes) (v : A)
    → Decodes p bs v
    → Decodes (p >>= λ a. pure (f a)) bs (f v)
unfolding ◌>>=◌
Decodes-map p f bs v d = record {
  reads = Reads-map p f bs v d.reads;
  cut = λ front back x e. elim (d.cut front back x e) [
    | inl a ↦ inl (ap (λ t. continue t (λ a. pure (f a))) a)
    | inr (a, b) ↦ inr (ap (λ t. continue t (λ a. pure (f a))) a, b)
  ];
}
