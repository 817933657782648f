-- ===== src/Codec/Stored.antt =====
-- Orders that are encoded, whole or cut off: src/OrderCodec.cpp.
use order_processor.Common.{ℕ, ◌^◌, ◌<◌, ◌≡◌, [], ◌∷◌, ◌++◌, All, arith, ◌⊎◌}
use order_processor.Model.Ids.{IdT}
use order_processor.Codec.Bytes.{
  Bytes, DecodeError, ok, Reader, ◌>>=◌, put, read_int, put_id, restore_id, put_zones,
  restore_zones, dotted, dot, err,
}
use order_processor.Codec.Orders.{
  OrderRecord, ids, longs, words, encode_numbers, encode_times, encode_order, decode_numbers,
  decode_times, decode_order,
}
use order_processor.Codec.Cutting.{
  Decodes, Decodes-map, Decodes-field, Decodes-put, Decodes-id, Decodes-zones,
}

module _ {B : Type 0} (f : ℕ → Reader B) (cs : Bytes) (u : B) where
  id_field :
      (k : IdT)
      → k < 2 ^ 96
      → Decodes (f k) cs u
      → Decodes (dotted restore_id >>= f) (dot (put_id k) ++ cs) u
  id_field k h g = Decodes-field restore_id f (put_id k) cs k u (Decodes-id k h) g

  long_field :
      (n : ℕ)
      → n < 2 ^ 64
      → Decodes (f n) cs u
      → Decodes (dotted (read_int 8) >>= f) (dot (put 8 n) ++ cs) u
  long_field n h g = Decodes-field (read_int 8) f (put 8 n) cs n u (Decodes-put 8 n (omega arith)) g

  word_field :
      (n : ℕ)
      → n < 2 ^ 32
      → Decodes (f n) cs u
      → Decodes (dotted (read_int 4) >>= f) (dot (put 4 n) ++ cs) u
  word_field n h g = Decodes-field (read_int 4) f (put 4 n) cs n u (Decodes-put 4 n (omega arith)) g

Decodes-numbers :
    (r val : OrderRecord)
    → All (λ n. n < 2 ^ 32) (words r)
    → Decodes (decode_numbers val) (encode_numbers r) (record r {
      order_id = val.order_id;
      instrument = val.instrument;
      account = val.account;
      clearing = val.clearing;
      destination = val.destination;
      exec_instruct = val.exec_instruct;
      cl_order_id = val.cl_order_id;
      orig_cl_order_id = val.orig_cl_order_id;
      source = val.source;
      executions = val.executions;
      orig_order_id = val.orig_order_id;
      creation_time = val.creation_time;
      last_update_time = val.last_update_time;
      expire_time = val.expire_time;
      settl_date = val.settl_date;
      price = val.price;
      stop_px = val.stop_px;
      avg_px = val.avg_px;
      day_avg_px = val.day_avg_px;
    })
unfolding encode_numbers decode_numbers
Decodes-numbers r val
      (
        h0,
        (h1, (h2, (h3, (h4, (h5, (h6, (h7, (h8, (h9, (h10, (h11, (h12, (h13, (h14, _)))))))))))))),
      ) =
    word_field _ _ _ r.status h0 (
      word_field _ _ _ r.side h1 (
        word_field _ _ _ r.ord_type h2 (
          word_field _ _ _ r.tif h3 (
            word_field _ _ _ r.settl_type h4 (
              word_field _ _ _ r.capacity h5 (
                word_field _ _ _ r.currency h6 (
                  word_field _ _ _ r.min_qty h7 (
                    word_field _ _ _ r.order_qty h8 (
                      word_field _ _ _ r.leaves_qty h9 (
                        word_field _ _ _ r.cum_qty h10 (
                          word_field _ _ _ r.day_order_qty h11 (
                            word_field _ _ _ r.day_cum_qty h12 (
                              Decodes-map restore_zones _ (put_zones r.zone1 r.zone2)
                                (r.zone1, r.zone2)
                                (Decodes-zones r.zone1 r.zone2 h13 h14))))))))))))))

Decodes-times :
    (r val : OrderRecord)
    → r.orig_order_id < 2 ^ 96
    → All (λ n. n < 2 ^ 64) (longs r)
    → All (λ n. n < 2 ^ 32) (words r)
    → Decodes (decode_times val) (encode_times r) (record r {
      order_id = val.order_id;
      instrument = val.instrument;
      account = val.account;
      clearing = val.clearing;
      destination = val.destination;
      exec_instruct = val.exec_instruct;
      cl_order_id = val.cl_order_id;
      orig_cl_order_id = val.orig_cl_order_id;
      source = val.source;
      executions = val.executions;
    })
unfolding encode_times decode_times
Decodes-times r val k (h0, (h1, (h2, (h3, (h4, (h5, (h6, (h7, _)))))))) w =
    id_field _ _ _ r.orig_order_id k (
      long_field _ _ _ r.creation_time h0 (
        long_field _ _ _ r.last_update_time h1 (
          long_field _ _ _ r.expire_time h2 (
            long_field _ _ _ r.settl_date h3 (
              long_field _ _ _ r.price h4 (
                long_field _ _ _ r.stop_px h5 (
                  long_field _ _ _ r.avg_px h6
                    (long_field _ _ _ r.day_avg_px h7 (Decodes-numbers r _ w)))))))))

Decodes-order :
    (r : OrderRecord)
    → All (λ k. k < 2 ^ 96) (ids r)
    → All (λ n. n < 2 ^ 64) (longs r)
    → All (λ n. n < 2 ^ 32) (words r)
    → Decodes (decode_order r.order_id) (encode_order r) (record r { exec_instruct = [] })
unfolding encode_order decode_order
Decodes-order r (h0, (h1, (h2, (h3, (h4, (h5, (h6, (h7, (h8, _))))))))) l w =
    id_field _ _ _ r.instrument h0 (
      id_field _ _ _ r.account h1 (
        id_field _ _ _ r.clearing h2 (
          id_field _ _ _ r.destination h3 (
            id_field _ _ _ r.cl_order_id h4 (
              id_field _ _ _ r.orig_cl_order_id h5 (
                id_field _ _ _ r.source h6
                  (id_field _ _ _ r.executions h7 (Decodes-times r _ h8 l w))))))))

-- An order is encoded whose ids have 12 bytes, whose times and prices have 8 and whose other numbers have
-- 4. The decoder gives every field of the order back but the instructions, of which it gives none, and
-- stops before whatever follows the encoding.
pub decode_order-encode_order :
    (r : OrderRecord) (rest : Bytes)
    → All (λ k. k < 2 ^ 96) (ids r)
    → All (λ n. n < 2 ^ 64) (longs r)
    → All (λ n. n < 2 ^ 32) (words r)
    → decode_order r.order_id (encode_order r ++ rest) ≡ ok (record r { exec_instruct = [] }, rest)
decode_order-encode_order r rest i l w = (Decodes-order r i l w).reads rest

-- An order as above is encoded, and bytes at the end of the encoding are missing. The decoder returns no
-- order: it throws because the buffer is too small, except where the first missing byte is a mark behind
-- a field. There it reads behind the end of the buffer.
pub cut_order-undecoded :
    (r : OrderRecord) (front back : Bytes) (x : ℕ)
    → All (λ k. k < 2 ^ 96) (ids r)
    → All (λ n. n < 2 ^ 64) (longs r)
    → All (λ n. n < 2 ^ 32) (words r)
    → encode_order r ≡ front ++ (x ∷ back)
    → (decode_order r.order_id front ≡ err DecodeError.too_small)
      ⊎ ((decode_order r.order_id front ≡ err DecodeError.overread) × (x ≡ b'.'))
cut_order-undecoded r front back x i l w e = (Decodes-order r i l w).cut front back x e
