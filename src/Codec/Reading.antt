-- ===== src/Codec/Reading.antt =====
-- What the readers make of the bytes that the writers give.
use order_processor.Common.{
  ℕ, zero, suc, ◌+◌, ◌/◌, ◌%◌, ◌^◌, ◌≤◌, ◌<◌, ◌≡◌, refl, ap, ◌∙◌, some, [], ◌∷◌, ◌++◌, length,
  length-append, ltb, ==-refl, subst, false, arith, if◌then◌else◌,
}
use mathlib.Core.List.{append-nil, append_assoc}
use order_processor.Model.Ids.{IdT, make_id, id_field, date_field}
use order_processor.Model.Order.{Text}
use order_processor.Codec.Bytes.{
  Bytes, DecodeError, ok, err, Reader, continue, ◌>>=◌, ◌>>◌, pure, put, push_byte, take_int,
  or_fail, read_or, read_int, mark, need, put_id, restore_id, put_zones, restore_zones, keep_byte,
  take_bytes, read_bytes, put_text, restore_text, dotted, dot,
}

-- The reader takes exactly these bytes, whatever stands behind them, and gives the value.
abbrev pub Reads : {A : Type 0} → Reader A → Bytes → A → Type 0
Reads {A} p bs v = (rest : Bytes) → p (bs ++ rest) ≡ ok (v, rest)

pub Reads-bind :
    {A B : Type 0} (p : Reader A) (f : A → Reader B) (bs cs : Bytes) (v : A) (u : B)
    → Reads p bs v
    → Reads (f v) cs u
    → Reads (p >>= f) (bs ++ cs) u
unfolding ◌>>=◌
Reads-bind p f bs cs v u h g rest =
    ap (λ r. continue r f) (ap p (append_assoc bs cs rest) ∙ h (cs ++ rest)) ∙ g rest

pub Reads-pure : {A : Type 0} (v : A) → Reads (pure v) [] v
unfolding pure
Reads-pure v rest = refl

take_int-put :
    (w n : ℕ) (rest : Bytes) → n < 256 ^ w → take_int w (put w n ++ rest) ≡ some (n, rest)
unfolding take_int put
take_int-put zero n rest h = ground arith
take_int-put (suc w) n rest h =
    ap (push_byte (n % 256)) (take_int-put w (n / 256) rest (omega arith))
    ∙ ap (λ (m : ℕ). some (m, rest)) (omega arith)

pub Reads-put : (e : DecodeError) (w n : ℕ) → n < 256 ^ w → Reads (read_or e w) (put w n) n
unfolding read_or
Reads-put e w n h rest = ap (or_fail e) (take_int-put w n rest h)

pub Reads-dot :
    {A : Type 0} (p : Reader A) (bs : Bytes) (v : A) → Reads p bs v → Reads (dotted p) (dot bs) v
unfolding dotted mark ◌>>=◌ ◌>>◌ pure
Reads-dot p bs v h rest =
    ap (λ r. continue r (λ a. mark b'.' >>= λ u. pure a))
      (ap p (append_assoc bs (b'.' ∷ []) rest) ∙ h (b'.' ∷ rest))

pub length-put : (w n : ℕ) → length (put w n) ≡ w
unfolding put
length-put zero n = refl
length-put (suc w) n = ap suc (length-put w (n / 256))

not_below : (m n : ℕ) → n ≤ m → ltb m n ≡ false
not_below m n h = ground arith

-- A size that is checked before it is read.
Reads-need :
    {A : Type 0} (n : ℕ) (p : Reader A) (bs : Bytes) (v : A)
    → n ≤ length bs
    → Reads p bs v
    → Reads (need n >> p) bs v
unfolding need ◌>>=◌ ◌>>◌
Reads-need n p bs v h g rest =
    ap (λ t. continue (if t then err DecodeError.too_small else ok (tt, bs ++ rest)) (λ a. p))
      (not_below (length (bs ++ rest)) n (omega (arith, length-append bs rest, h)))
    ∙ g rest

Reads-mark :
    {A : Type 0} (c : ℕ) (p : Reader A) (bs : Bytes) (v : A)
    → Reads p bs v
    → Reads (mark c >> p) (c ∷ bs) v
unfolding mark ◌>>=◌ ◌>>◌
Reads-mark c p bs v h rest =
    ap (λ t. continue (if t then ok (tt, bs ++ rest) else err DecodeError.missed_mark) (λ a. p))
      (==-refl c)
    ∙ h rest

pub Reads-map :
    {A B : Type 0} (p : Reader A) (f : A → B) (bs : Bytes) (v : A)
    → Reads p bs v
    → Reads (p >>= λ a. pure (f a)) bs (f v)
unfolding ◌>>=◌ pure
Reads-map p f bs v h rest = ap (λ r. continue r (λ a. pure (f a))) (h rest)

-- Two numbers with a mark between them, after the check of their size.
Reads-pair :
    {A : Type 0} (w u a b : ℕ) (c : ℕ) (f : ℕ → ℕ → A)
    → a < 256 ^ w
    → b < 256 ^ u
    → Reads
        (need (w + suc u) >> (read_int w >>= λ x. mark c >> (read_int u >>= λ y. pure (f x y))))
        (put w a ++ c ∷ put u b)
        (f a b)
Reads-pair w u a b c f h g =
    Reads-need (w + suc u) (read_int w >>= λ x. mark c >> (read_int u >>= λ y. pure (f x y)))
      (put w a ++ c ∷ put u b) (f a b)
      (omega (arith, length-append (put w a) (c ∷ put u b), length-put w a, length-put u b))
      (Reads-bind (read_int w) (λ x. mark c >> (read_int u >>= λ y. pure (f x y))) (put w a)
        (c ∷ put u b) a (f a b) (Reads-put DecodeError.too_small w a h)
        (Reads-mark c (read_int u >>= λ y. pure (f a y)) (put u b) (f a b)
          (Reads-map (read_int u) (f a) (put u b) b (Reads-put DecodeError.too_small u b g))))

pub Reads-id : (k : IdT) → k < 2 ^ 96 → Reads restore_id (put_id k) k
unfolding restore_id put_id
Reads-id k h =
    let same : make_id (id_field k) (date_field k) ≡ k = omega arith in
    subst (Reads restore_id (put_id k)) same (
      Reads-pair 4 8 (date_field k) (id_field k) b':' (λ date id. make_id id date) (omega arith)
        (omega arith))

pub Reads-zones :
    (z1 z2 : ℕ) → z1 < 2 ^ 32 → z2 < 2 ^ 32 → Reads restore_zones (put_zones z1 z2) (z1, z2)
unfolding restore_zones put_zones
Reads-zones z1 z2 h g = Reads-pair 4 4 z1 z2 b':' (λ x y. (x, y)) (omega arith) (omega arith)

take_bytes-append : (s rest : Bytes) → take_bytes (length s) (s ++ rest) ≡ some (s, rest)
unfolding take_bytes
take_bytes-append [] rest = refl
take_bytes-append (b ∷ s) rest = ap (keep_byte b) (take_bytes-append s rest)

pub Reads-bytes : (s : Bytes) → Reads (read_bytes (length s)) s s
unfolding read_bytes
Reads-bytes s rest = ap (or_fail DecodeError.too_small) (take_bytes-append s rest)

pub Reads-text : (s : Text) → length s < 2 ^ 64 → Reads restore_text (put_text s) s
unfolding restore_text put_text
Reads-text s h =
    Reads-bind (read_or DecodeError.overread 8) read_bytes (put 8 (length s)) s (length s) s
      (Reads-put DecodeError.overread 8 (length s) h) (Reads-bytes s)

-- A field, and what is read behind it.
pub Reads-field :
    {A B : Type 0} (p : Reader A) (f : A → Reader B) (bs cs : Bytes) (v : A) (u : B)
    → Reads p bs v
    → Reads (f v) cs u
    → Reads (dotted p >>= f) (dot bs ++ cs) u
Reads-field p f bs cs v u h g = Reads-bind (dotted p) f (dot bs) cs v u (Reads-dot p bs v h) g

pub Reads-last :
    {A B : Type 0} (p : Reader A) (f : A → B) (bs : Bytes) (v : A)
    → Reads p bs v
    → Reads (p >>= λ a. pure (f a)) (bs ++ []) (f v)
Reads-last p f bs v h = rw append-nil (Reads-map p f bs v h)
