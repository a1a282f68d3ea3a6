-- ===== src/NativeProto/Decoder.antt =====
-- The decoder of internal/nativeproto/protocol.go. Its state is the part of the frame that is not
-- read yet, `data[off:]`. The one error, io.ErrUnexpectedEOF, is `none`.
use monofs.Prelude.{
  ℕ, ◌-◌, ◌^◌, Bool, not, Option, none, some, List, [], ◌∷◌, length, take, drop, ltb, ◌==◌,
  if◌then◌else◌,
}
use monofs.Prelude.Int.{ℤ, pos, negsuc}
use monofs.NativeProto.Encoder.{le_value}

abbrev pub Decode : Type 0 → Type 0
Decode A = List ℕ → Option (A × List ℕ)

infixl 5 ◌>>=◌
unfoldable pub ◌>>=◌ : {A B : Type 0} → Decode A → (A → Decode B) → Decode B
◌>>=◌ m f d = elim (m d) [ none ↦ none | some (a, rest) ↦ f a rest ]

unfoldable pub pure : {A : Type 0} → A → Decode A
pure a d = some (a, d)

-- `len(d.data) - d.off`
unfoldable pub remaining : List ℕ → ℕ
remaining d = length d

-- The guard, the read and the step forward that the methods share.
unfoldable pub fixed : {A : Type 0} → ℕ → (List ℕ → A) → Decode A
unfolding remaining
fixed n f d = if ltb (remaining d) n then none else some (f (take n d), drop n d)

unfoldable pub first : List ℕ → ℕ
first [] = 0
first (b ∷ bs) = b

unfoldable pub u8 : Decode ℕ
unfolding fixed first
u8 = fixed 1 first

unfoldable pub u16 : Decode ℕ
unfolding fixed le_value
u16 = fixed 2 le_value

unfoldable pub u32 : Decode ℕ
unfolding fixed le_value
u32 = fixed 4 le_value

unfoldable pub u64 : Decode ℕ
unfolding fixed le_value
u64 = fixed 8 le_value

-- `int64(v)` of a uint64.
unfoldable pub to_i64 : ℕ → ℤ
to_i64 v = if ltb v (2 ^ 63) then pos v else negsuc (2 ^ 64 - 1 - v)

unfoldable pub i64 : Decode ℤ
unfolding ◌>>=◌ pure to_i64
i64 = do v ← u64; pure (to_i64 v)

unfoldable pub bool : Decode Bool
unfolding ◌>>=◌ pure
bool = do v ← u8; pure (not (v == 0))

unfoldable pub object_id : Decode (List ℕ)
unfolding fixed
object_id = fixed 16 (λ id. id)

unfoldable pub str : Decode (List ℕ)
unfolding ◌>>=◌ fixed
str = do size ← u32; fixed size (λ v. v)
