-- ===== src/Examples/Codecs.antt =====
-- The theorems on the codecs at concrete entries.
use order_processor.Common.{ℕ, ◌≡◌, ◌⊎◌, refl, arith, [], ◌∷◌, ◌++◌, take}
use order_processor.Model.Ids.{make_id}
use order_processor.Model.Order.{RawData}
use order_processor.Codec.Bytes.{Bytes, DecodeError, ok, err, put, put_id, put_zones}
use order_processor.Codec.Entries.{
  AccountRecord, encode_account, decode_account, encode_clearing, decode_clearing,
  encode_instrument, decode_instrument, encode_raw_data, decode_raw_data,
}
use order_processor.Codec.Orders.{
  OrderRecord, encode_numbers, encode_times, encode_order, decode_order,
}
use order_processor.Codec.RoundTrip.{decode-encode}
use order_processor.Codec.Stored.{decode_order-encode_order, cut_order-undecoded}
use order_processor.Examples.Data.{clearing, instrument}

abbrev order : OrderRecord
order = record {
  order_id = make_id 4 1;
  instrument = make_id 7 1;
  account = make_id 8 1;
  clearing = make_id 9 1;
  destination = 0;
  exec_instruct = 2 ∷ [];
  cl_order_id = make_id 10 1;
  orig_cl_order_id = 0;
  source = make_id 11 1;
  executions = 0;
  orig_order_id = 0;
  creation_time = 1000;
  last_update_time = 1001;
  expire_time = 0;
  settl_date = 0;
  price = 4607182418800017408;
  stop_px = 0;
  avg_px = 0;
  day_avg_px = 0;
  status = 5;
  side = 1;
  ord_type = 2;
  tif = 1;
  settl_type = 1;
  capacity = 2;
  currency = 1;
  min_qty = 0;
  order_qty = 300;
  leaves_qty = 300;
  cum_qty = 0;
  day_order_qty = 0;
  day_cum_qty = 0;
  zone1 = 2;
  zone2 = 8;
}

decode_order-encode_order_example :
    decode_order order.order_id (encode_order order ++ 7 ∷ [])
    ≡ ok (record order { exec_instruct = [] }, 7 ∷ [])
decode_order-encode_order_example =
    decode_order-encode_order order (7 ∷ []) (omega arith) (omega arith) (omega arith)

abbrev account : AccountRecord
account = record { account = b'a' ∷ []; firm = b'f' ∷ []; id = make_id 8 1; type = 1 }

abbrev raw_data : RawData
raw_data = record { type = 1; bytes = 5 ∷ 6 ∷ [] }

decode-encode_example :
    (decode_account account.id (encode_account account ++ []) ≡ ok (account, []))
    × (decode_clearing clearing.id (encode_clearing clearing ++ []) ≡ ok (clearing, []))
    × (decode_instrument instrument.id (encode_instrument instrument ++ []) ≡ ok (instrument, []))
    × (decode_raw_data (encode_raw_data raw_data ++ []) ≡ ok (raw_data, []))
decode-encode_example =
    decode-encode account clearing instrument raw_data [] (omega arith) (omega arith)

-- The last byte is missing.
abbrev front : Bytes
front = take 271 (encode_order order)

abbrev missing : ℕ
missing = 0

cut_order-undecoded_example :
    (decode_order order.order_id front ≡ err DecodeError.too_small)
    ⊎ ((decode_order order.order_id front ≡ err DecodeError.overread) × (missing ≡ b'.'))
unfolding encode_order encode_times encode_numbers put put_id put_zones
cut_order-undecoded_example =
    cut_order-undecoded order front [] missing (omega arith) (omega arith) (omega arith) refl
