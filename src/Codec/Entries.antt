-- ===== src/Codec/Entries.antt =====
-- src/AccountCodec.cpp, src/ClearingCodec.cpp, src/InstrumentCodec.cpp and src/RawDataCodec.cpp. The id of an
-- entry is not part of its bytes; it is handed over beside them.
use order_processor.Common.{ℕ, [], ◌∷◌, length, ◌==◌, if◌then◌else◌}
use order_processor.Model.Ids.{IdT}
use order_processor.Model.Order.{Text, Instrument, Clearing, RawData}
use order_processor.Codec.Bytes.{
  Bytes, Reader, ◌>>=◌, pure, put, read_int, read_bytes, put_text, restore_text, dotted, dot,
  concat,
}

-- `AccountEntry`, with the number of its type: `memcpy` makes any number an `AccountType`.
pub record AccountRecord : Type 0 where
  pub account : Text
  pub firm : Text
  pub id : IdT
  pub type : ℕ

unfoldable pub encode_account : AccountRecord → Bytes
encode_account a = concat (dot (put_text a.account) ∷ dot (put_text a.firm) ∷ put 4 a.type ∷ [])

unfoldable pub decode_account : IdT → Reader AccountRecord
decode_account id = do
  account ← dotted restore_text
  firm ← dotted restore_text
  type ← read_int 4
  pure (record { account = account; firm = firm; id = id; type = type })

unfoldable pub encode_clearing : Clearing → Bytes
encode_clearing c = concat (put_text c.firm ∷ [])

unfoldable pub decode_clearing : IdT → Reader Clearing
decode_clearing id = do firm ← restore_text; pure (record { firm = firm; id = id })

unfoldable pub encode_instrument : Instrument → Bytes
encode_instrument i =
    concat
      (dot (put_text i.symbol) ∷ dot (put_text i.security_id) ∷ put_text i.security_id_source ∷ [])

unfoldable pub decode_instrument : IdT → Reader Instrument
decode_instrument id = do
  symbol ← dotted restore_text
  security_id ← dotted restore_text
  security_id_source ← restore_text
  pure (record {
    symbol = symbol;
    security_id = security_id;
    security_id_source = security_id_source;
    id = id;
  })

-- The bytes of a raw datum are read only if there are any.
unfoldable pub encode_raw_data : RawData → Bytes
encode_raw_data d = concat (dot (put 4 d.type) ∷ dot (put 4 (length d.bytes)) ∷ d.bytes ∷ [])

unfoldable pub read_some : ℕ → Reader Bytes
read_some n = if n == 0 then pure [] else read_bytes n

unfoldable pub decode_raw_data : Reader RawData
unfolding read_some
decode_raw_data = do
  type ← dotted (read_int 4)
  size ← dotted (read_int 4)
  bytes ← read_some size
  pure (record { type = type; bytes = bytes })
