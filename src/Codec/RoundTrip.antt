-- ===== src/Codec/RoundTrip.antt =====
-- What is encoded is decoded.
use order_processor.Common.{
  ℕ, suc, false, ◌∙◌, ◌^◌, ◌<◌, ◌≡◌, ap, [], ◌∷◌, ◌++◌, length, All, arith, ◌==◌, if◌then◌else◌,
}
use order_processor.Model.Order.{Text, Instrument, Clearing, RawData}
use order_processor.Codec.Bytes.{
  Bytes, DecodeError, ok, pure, put, read_int, put_text, restore_text, read_bytes,
}
use order_processor.Codec.Entries.{
  AccountRecord, encode_account, decode_account, encode_clearing, decode_clearing,
  encode_instrument, decode_instrument, encode_raw_data, decode_raw_data, read_some,
}
use order_processor.Codec.Reading.{
  Reads, Reads-put, Reads-text, Reads-bytes, Reads-pure, Reads-field, Reads-last,
}

-- A text whose size is a `size_t`.
abbrev pub IsText : Text → Type 0
IsText s = length s < 2 ^ 64

Reads-account :
    (a : AccountRecord)
    → IsText a.account
    → IsText a.firm
    → a.type < 2 ^ 32
    → Reads (decode_account a.id) (encode_account a) a
unfolding encode_account decode_account
Reads-account a h g t =
    Reads-field restore_text _ (put_text a.account) _ a.account a (Reads-text a.account h) (
      Reads-field restore_text _ (put_text a.firm) _ a.firm a (Reads-text a.firm g) (
        Reads-last (read_int 4) _ (put 4 a.type) a.type
          (Reads-put DecodeError.too_small 4 a.type (omega arith))))

Reads-clearing : (c : Clearing) → IsText c.firm → Reads (decode_clearing c.id) (encode_clearing c) c
unfolding encode_clearing decode_clearing
Reads-clearing c h = Reads-last restore_text _ (put_text c.firm) c.firm (Reads-text c.firm h)

Reads-instrument :
    (i : Instrument)
    → IsText i.symbol
    → IsText i.security_id
    → IsText i.security_id_source
    → Reads (decode_instrument i.id) (encode_instrument i) i
unfolding encode_instrument decode_instrument
Reads-instrument i h g t =
    Reads-field restore_text _ (put_text i.symbol) _ i.symbol i (Reads-text i.symbol h) (
      Reads-field restore_text _ (put_text i.security_id) _ i.security_id i
        (Reads-text i.security_id g)
        (Reads-last restore_text _ (put_text i.security_id_source) i.security_id_source
          (Reads-text i.security_id_source t)))

suc-ne-zero : (n : ℕ) → (suc n == 0) ≡ false
suc-ne-zero n = ground arith

Reads-some : (s : Bytes) → Reads (read_some (length s)) s s
unfolding read_some
Reads-some [] rest = Reads-pure [] rest
Reads-some (b ∷ s) rest =
    ap (λ t. (if t then pure [] else read_bytes (length (b ∷ s))) (b ∷ s ++ rest))
      (suc-ne-zero (length s))
    ∙ Reads-bytes (b ∷ s) rest

Reads-raw_data :
    (d : RawData)
    → d.type < 2 ^ 32
    → length d.bytes < 2 ^ 32
    → Reads decode_raw_data (encode_raw_data d) d
unfolding encode_raw_data decode_raw_data
Reads-raw_data d h g =
    Reads-field (read_int 4) _ (put 4 d.type) _ d.type d
      (Reads-put DecodeError.too_small 4 d.type (omega arith))
      (Reads-field (read_int 4) _ (put 4 (length d.bytes)) _ (length d.bytes) d
        (Reads-put DecodeError.too_small 4 (length d.bytes) (omega arith))
        (Reads-last (read_some (length d.bytes)) _ d.bytes d.bytes (Reads-some d.bytes)))

-- An account, a clearing, an instrument and a raw datum are encoded, whose texts are below 2 ^ 64 bytes long
-- and whose other numbers have 4 bytes. Each decoder gives its entry back, and stops before whatever
-- follows the encoding.
pub decode-encode :
    (a : AccountRecord) (c : Clearing) (i : Instrument) (d : RawData) (rest : Bytes)
    → All IsText
        (a.account ∷ a.firm ∷ c.firm ∷ i.symbol ∷ i.security_id ∷ i.security_id_source ∷ [])
    → All (λ n. n < 2 ^ 32) (a.type ∷ d.type ∷ length d.bytes ∷ [])
    → (decode_account a.id (encode_account a ++ rest) ≡ ok (a, rest))
      × (decode_clearing c.id (encode_clearing c ++ rest) ≡ ok (c, rest))
      × (decode_instrument i.id (encode_instrument i ++ rest) ≡ ok (i, rest))
      × (decode_raw_data (encode_raw_data d ++ rest) ≡ ok (d, rest))
decode-encode a c i d rest (ta, (tf, (tc, (ts, (ti, (tj, _)))))) (na, (nd, (nl, _))) = (
  Reads-account a ta tf na rest,
  Reads-clearing c tc rest,
  Reads-instrument i ts ti tj rest,
  Reads-raw_data d nd nl rest,
)
