-- ===== src/Codec/Bytes.antt =====
-- Numbers, ids and texts in a buffer: `IdT` of src/DataModelDef.cpp, `OrderStatePersistence` of
-- src/OrderStateMachineImpl.cpp and src/StringTCodec.cpp. A number of w bytes has its lowest byte first,
-- as `memcpy` gives it on the machines that the source is built for; a double is its 8 bytes.
use order_processor.Common.{
  ℕ, zero, suc, ◌+◌, ◌*◌, ◌/◌, ◌%◌, Option, none, some, List, [], ◌∷◌, ◌++◌, length, ltb, ◌==◌,
  if◌then◌else◌,
}
use order_processor.Model.Ids.{IdT, make_id, id_field, date_field}
use order_processor.Model.Order.{Text}

abbrev pub Bytes : Type 0
Bytes = List ℕ

-- The exceptions: the buffer is too small, or a mark is missing. `overread` is no exception: the source reads
-- behind the end of the buffer there, which has no defined result, and goes on with what it finds in
-- the memory. The model says no more of such a call, and stops.
pub data DecodeError : Type 0 where
  too_small missed_mark overread : DecodeError

pub data Result {ℓ} (A : Type ℓ) : Type ℓ where
  ok : A → Result A
  err : DecodeError → Result A

-- A reader takes the bytes from `p` on, and gives what it read and the bytes behind it.
abbrev pub Reader : Type 0 → Type 0
Reader A = Bytes → Result (A × Bytes)

abbrev pub continue : {A B : Type 0} → Result (A × Bytes) → (A → Reader B) → Result (B × Bytes)
continue (ok (a, bs)) f = f a bs
continue (err e) f = err e

abbrev pub or_fail : {A : Type 0} → DecodeError → Option (A × Bytes) → Result (A × Bytes)
or_fail e none = err e
or_fail e (some r) = ok r

infixl 5 ◌>>=◌ ◌>>◌
unfoldable pub ◌>>=◌ : {A B : Type 0} → Reader A → (A → Reader B) → Reader B
◌>>=◌ p f bs = continue (p bs) f

unfoldable pub ◌>>◌ : {A B : Type 0} → Reader A → Reader B → Reader B
unfolding ◌>>=◌
p >> q = p >>= λ a. q

unfoldable pub pure : {A : Type 0} → A → Reader A
pure a bs = ok (a, bs)

unfoldable pub put : ℕ → ℕ → Bytes
put zero n = []
put (suc w) n = (n % 256) ∷ put w (n / 256)

abbrev pub push_byte : ℕ → Option (ℕ × Bytes) → Option (ℕ × Bytes)
push_byte b none = none
push_byte b (some (n, bs)) = some (b + 256 * n, bs)

unfoldable pub take_int : ℕ → Bytes → Option (ℕ × Bytes)
take_int zero bs = some (0, bs)
take_int (suc w) [] = none
take_int (suc w) (b ∷ bs) = push_byte b (take_int w bs)

-- A number of w bytes, with the check of the size before it; without, the bytes behind the end are read.
unfoldable pub read_or : DecodeError → ℕ → Reader ℕ
unfolding take_int
read_or e w bs = or_fail e (take_int w bs)

abbrev pub read_int : ℕ → Reader ℕ
read_int = read_or too_small

-- The mark behind a field. The size is not checked for it: behind the end, the result is not defined.
unfoldable pub mark : ℕ → Reader (Unit {0})
mark c [] = err overread
mark c (b ∷ bs) = if b == c then ok (tt, bs) else err missed_mark

unfoldable pub need : ℕ → Reader (Unit {0})
need n bs = if ltb (length bs) n then err too_small else ok (tt, bs)

-- `IdT::serialize` and `IdT::restore`
unfoldable pub put_id : IdT → Bytes
unfolding put
put_id k = put 4 (date_field k) ++ b':' ∷ put 8 (id_field k)

unfoldable pub restore_id : Reader IdT
unfolding ◌>>=◌ ◌>>◌ pure need read_or mark
restore_id = do need 13; date ← read_int 4; mark b':'; id ← read_int 8; pure (make_id id date)

-- `OrderStatePersistence::serialize` and `restore`: the numbers of the two states.
unfoldable pub put_zones : ℕ → ℕ → Bytes
unfolding put
put_zones zone1 zone2 = put 4 zone1 ++ b':' ∷ put 4 zone2

unfoldable pub restore_zones : Reader (ℕ × ℕ)
unfolding ◌>>=◌ ◌>>◌ pure need read_or mark
restore_zones = do need 9; zone1 ← read_int 4; mark b':'; zone2 ← read_int 4; pure (zone1, zone2)

abbrev pub keep_byte : ℕ → Option (Bytes × Bytes) → Option (Bytes × Bytes)
keep_byte b none = none
keep_byte b (some (xs, bs)) = some (b ∷ xs, bs)

-- The next n bytes, and what is behind them.
unfoldable pub take_bytes : ℕ → Bytes → Option (Bytes × Bytes)
take_bytes zero bs = some ([], bs)
take_bytes (suc n) [] = none
take_bytes (suc n) (b ∷ bs) = keep_byte b (take_bytes n bs)

unfoldable pub read_bytes : ℕ → Reader Bytes
unfolding take_bytes
read_bytes n bs = or_fail too_small (take_bytes n bs)

-- `StringTCodec::serialize` and `restore`: an assertion says that the size of the text is there.
unfoldable pub put_text : Text → Bytes
unfolding put
put_text s = put 8 (length s) ++ s

unfoldable pub restore_text : Reader Text
unfolding ◌>>=◌ read_or read_bytes
restore_text = read_or overread 8 >>= λ n. read_bytes n

-- A field, and the `.` that ends it.
unfoldable pub dotted : {A : Type 0} → Reader A → Reader A
unfolding ◌>>=◌ ◌>>◌ pure mark
dotted p = do a ← p; mark b'.'; pure a

abbrev pub dot : Bytes → Bytes
dot bs = bs ++ b'.' ∷ []

abbrev pub concat : List Bytes → Bytes
concat [] = []
concat (bs ∷ bss) = bs ++ concat bss
