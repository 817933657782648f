-- ===== src/Codec/Orders.antt =====
-- src/OrderCodec.cpp: the fields of an order one after the other, each but the last with a mark behind it.
use order_processor.Common.{◌++◌, ℕ, List, [], ◌∷◌}
use order_processor.Model.Ids.{IdT}
use order_processor.Codec.Bytes.{
  Bytes, Reader, ◌>>=◌, pure, put, read_int, put_id, restore_id, put_zones, restore_zones, dotted,
  dot,
}

-- `OrderEntry` as it is stored: the ids of the entries that it refers to, prices as the 8 bytes of a double,
-- enumerations as their numbers,
-- the numbers of the instructions, and the numbers of the two states. No codec writes the instructions.
pub record OrderRecord : Type 0 where
  pub order_id : IdT
  pub instrument : IdT
  pub account : IdT
  pub clearing : IdT
  pub destination : IdT
  pub exec_instruct : List ℕ
  pub cl_order_id : IdT
  pub orig_cl_order_id : IdT
  pub source : IdT
  pub executions : IdT
  pub orig_order_id : IdT
  pub creation_time : ℕ
  pub last_update_time : ℕ
  pub expire_time : ℕ
  pub settl_date : ℕ
  pub price : ℕ
  pub stop_px : ℕ
  pub avg_px : ℕ
  pub day_avg_px : ℕ
  pub status : ℕ
  pub side : ℕ
  pub ord_type : ℕ
  pub tif : ℕ
  pub settl_type : ℕ
  pub capacity : ℕ
  pub currency : ℕ
  pub min_qty : ℕ
  pub order_qty : ℕ
  pub leaves_qty : ℕ
  pub cum_qty : ℕ
  pub day_order_qty : ℕ
  pub day_cum_qty : ℕ
  pub zone1 : ℕ
  pub zone2 : ℕ

-- Fields one after the other, and what follows them.
abbrev pub put_fields : List Bytes → Bytes → Bytes
put_fields [] tail = tail
put_fields (bs ∷ bss) tail = bs ++ put_fields bss tail

-- `encode`, into a string or a buffer: both write the same bytes.
unfoldable pub encode_numbers : OrderRecord → Bytes
encode_numbers r =
    put_fields
      (dot (put 4 r.status)
        ∷ dot (put 4 r.side)
        ∷ dot (put 4 r.ord_type)
        ∷ dot (put 4 r.tif)
        ∷ dot (put 4 r.settl_type)
        ∷ dot (put 4 r.capacity)
        ∷ dot (put 4 r.currency)
        ∷ dot (put 4 r.min_qty)
        ∷ dot (put 4 r.order_qty)
        ∷ dot (put 4 r.leaves_qty)
        ∷ dot (put 4 r.cum_qty)
        ∷ dot (put 4 r.day_order_qty)
        ∷ dot (put 4 r.day_cum_qty)
        ∷ [])
      (put_zones r.zone1 r.zone2)

unfoldable pub encode_times : OrderRecord → Bytes
encode_times r =
    put_fields
      (dot (put_id r.orig_order_id)
        ∷ dot (put 8 r.creation_time)
        ∷ dot (put 8 r.last_update_time)
        ∷ dot (put 8 r.expire_time)
        ∷ dot (put 8 r.settl_date)
        ∷ dot (put 8 r.price)
        ∷ dot (put 8 r.stop_px)
        ∷ dot (put 8 r.avg_px)
        ∷ dot (put 8 r.day_avg_px)
        ∷ [])
      (encode_numbers r)

unfoldable pub encode_order : OrderRecord → Bytes
encode_order r =
    put_fields
      (dot (put_id r.instrument)
        ∷ dot (put_id r.account)
        ∷ dot (put_id r.clearing)
        ∷ dot (put_id r.destination)
        ∷ dot (put_id r.cl_order_id)
        ∷ dot (put_id r.orig_cl_order_id)
        ∷ dot (put_id r.source)
        ∷ dot (put_id r.executions)
        ∷ [])
      (encode_times r)

-- `decode`: the order is made after the ids, and its fields are filled in turn.
unfoldable pub decode_numbers : OrderRecord → Reader OrderRecord
decode_numbers val = do
  status ← dotted (read_int 4)
  side ← dotted (read_int 4)
  ord_type ← dotted (read_int 4)
  tif ← dotted (read_int 4)
  settl_type ← dotted (read_int 4)
  capacity ← dotted (read_int 4)
  currency ← dotted (read_int 4)
  min_qty ← dotted (read_int 4)
  order_qty ← dotted (read_int 4)
  leaves_qty ← dotted (read_int 4)
  cum_qty ← dotted (read_int 4)
  day_order_qty ← dotted (read_int 4)
  day_cum_qty ← dotted (read_int 4)
  zones ← restore_zones
  pure (record val {
    status = status;
    side = side;
    ord_type = ord_type;
    tif = tif;
    settl_type = settl_type;
    capacity = capacity;
    currency = currency;
    min_qty = min_qty;
    order_qty = order_qty;
    leaves_qty = leaves_qty;
    cum_qty = cum_qty;
    day_order_qty = day_order_qty;
    day_cum_qty = day_cum_qty;
    zone1 = zones.0;
    zone2 = zones.1;
  })

unfoldable pub decode_times : OrderRecord → Reader OrderRecord
decode_times val = do
  orig_order_id ← dotted restore_id
  creation_time ← dotted (read_int 8)
  last_update_time ← dotted (read_int 8)
  expire_time ← dotted (read_int 8)
  settl_date ← dotted (read_int 8)
  price ← dotted (read_int 8)
  stop_px ← dotted (read_int 8)
  avg_px ← dotted (read_int 8)
  day_avg_px ← dotted (read_int 8)
  decode_numbers (record val {
    orig_order_id = orig_order_id;
    creation_time = creation_time;
    last_update_time = last_update_time;
    expire_time = expire_time;
    settl_date = settl_date;
    price = price;
    stop_px = stop_px;
    avg_px = avg_px;
    day_avg_px = day_avg_px;
  })

-- The order has no instructions, and the fields that are not decoded yet are 0.
unfoldable pub decode_order : IdT → Reader OrderRecord
decode_order id = do
  instrument ← dotted restore_id
  account ← dotted restore_id
  clearing ← dotted restore_id
  destination ← dotted restore_id
  cl_order_id ← dotted restore_id
  orig_cl_order_id ← dotted restore_id
  source ← dotted restore_id
  executions ← dotted restore_id
  decode_times (record {
    order_id = id;
    instrument = instrument;
    account = account;
    clearing = clearing;
    destination = destination;
    exec_instruct = [];
    cl_order_id = cl_order_id;
    orig_cl_order_id = orig_cl_order_id;
    source = source;
    executions = executions;
    orig_order_id = 0;
    creation_time = 0;
    last_update_time = 0;
    expire_time = 0;
    settl_date = 0;
    price = 0;
    stop_px = 0;
    avg_px = 0;
    day_avg_px = 0;
    status = 0;
    side = 0;
    ord_type = 0;
    tif = 0;
    settl_type = 0;
    capacity = 0;
    currency = 0;
    min_qty = 0;
    order_qty = 0;
    leaves_qty = 0;
    cum_qty = 0;
    day_order_qty = 0;
    day_cum_qty = 0;
    zone1 = 0;
    zone2 = 0;
  })

-- The ids of 12 bytes, the numbers of 8 bytes and those of 4 bytes, in the order of their fields.
abbrev pub ids : OrderRecord → List ℕ
ids r =
    r.instrument ∷ r.account ∷ r.clearing ∷ r.destination ∷ r.cl_order_id ∷ r.orig_cl_order_id
    ∷ r.source ∷ r.executions ∷ r.orig_order_id ∷ []

abbrev pub longs : OrderRecord → List ℕ
longs r =
    r.creation_time ∷ r.last_update_time ∷ r.expire_time ∷ r.settl_date ∷ r.price ∷ r.stop_px
    ∷ r.avg_px ∷ r.day_avg_px ∷ []

abbrev pub words : OrderRecord → List ℕ
words r =
    r.status ∷ r.side ∷ r.ord_type ∷ r.tif ∷ r.settl_type ∷ r.capacity ∷ r.currency ∷ r.min_qty
    ∷ r.order_qty ∷ r.leaves_qty ∷ r.cum_qty ∷ r.day_order_qty ∷ r.day_cum_qty ∷ r.zone1 ∷ r.zone2
    ∷ []
