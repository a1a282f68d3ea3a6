-- ===== src/NativeProto/Encoder.antt =====
-- The encoder of internal/nativeproto/protocol.go. A method appends to the buffer; it is modelled
-- by the bytes that it appends, and successive calls by `++`.
use monofs.Prelude.{
  ℕ, zero, suc, ◌+◌, ◌-◌, ◌*◌, ◌/◌, ◌%◌, ◌^◌, ◌<◌, ◌≡◌, refl, ap, Bool, true, false, List, [], ◌∷◌,
  ◌++◌, arith, length,
}
use monofs.Prelude.Int.{ℤ, pos, negsuc}
use native.Mathlib.Nat.{pow-suc}

-- `binary.LittleEndian.PutUint16`, `PutUint32` and `PutUint64` at n = 2, 4 and 8.
unfoldable pub put_le : ℕ → ℕ → List ℕ
put_le zero v = []
put_le (suc n) v = (v % 256) ∷ put_le n (v / 256)

-- `binary.LittleEndian.Uint16`, `Uint32` and `Uint64`.
unfoldable pub le_value : List ℕ → ℕ
le_value [] = 0
le_value (b ∷ bs) = b + 256 * le_value bs

pub length-put_le : (n v : ℕ) → length (put_le n v) ≡ n
unfolding put_le
length-put_le zero v = refl
length-put_le (suc n) v = ap suc (length-put_le n (v / 256))

pub le_value-put_le : (n v : ℕ) → v < 256 ^ n → le_value (put_le n v) ≡ v
unfolding put_le le_value
le_value-put_le zero v h = omega arith
le_value-put_le (suc n) v h =
    omega (arith, le_value-put_le n (v / 256) (omega (arith, pow-suc 256 n)))

unfoldable pub u8 : ℕ → List ℕ
u8 v = v ∷ []

unfoldable pub u16 : ℕ → List ℕ
unfolding put_le
u16 v = put_le 2 v

unfoldable pub u32 : ℕ → List ℕ
unfolding put_le
u32 v = put_le 4 v

unfoldable pub u64 : ℕ → List ℕ
unfolding put_le
u64 v = put_le 8 v

-- `uint64(v)` of an int64: the two's complement.
unfoldable pub to_u64 : ℤ → ℕ
to_u64 (pos n) = n
to_u64 (negsuc n) = 2 ^ 64 - 1 - n

unfoldable pub i64 : ℤ → List ℕ
unfolding to_u64
i64 v = u64 (to_u64 v)

unfoldable pub bool : Bool → List ℕ
bool true = u8 1
bool false = u8 0

unfoldable pub object_id : List ℕ → List ℕ
object_id id = id

unfoldable pub str : List ℕ → List ℕ
str v = u32 (length v) ++ v
