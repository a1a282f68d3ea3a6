-- ===== src/NativeProto/Reads.antt =====
-- What it means that a decoder reads an encoding, with one rule for each way to build both.
use monofs.Prelude.{
  ℕ, ◌-◌, ◌^◌, ◌<◌, ◌≤◌, ◌≡◌, refl, subst, ◌==◌, inl, inr, Bool, true, false, not, none, some, List,
  [], ◌∷◌, ◌++◌, arith, length, take, ltb, length-append, take-append, drop-append, take-append_lt,
  take-append_add, length-take, append-nil, append_assoc, Bool-cases, ltb→lt,
}
use monofs.Prelude.Int.{ℤ, pos, negsuc}
use monofs.NativeProto.Encoder
use monofs.NativeProto.Encoder.{put_le, le_value, length-put_le, le_value-put_le, to_u64}
use monofs.NativeProto.Decoder
use monofs.NativeProto.Decoder.{Decode, ◌>>=◌, pure, fixed, first, to_i64}

-- `d` reads `a` from the bytes `bs`, whatever follows them, and refuses every proper prefix.
pub record Reads {A : Type 0} (d : Decode A) (bs : List ℕ) (a : A) : Type 0 where
  pub whole : (rest : List ℕ) → d (bs ++ rest) ≡ some (a, rest)
  pub cut : (k : ℕ) → k < length bs → d (take k bs) ≡ none

pub pure-Reads : {A : Type 0} (a : A) → Reads (pure a) [] a
unfolding pure
pure-Reads a = record { whole = λ rest. refl; cut = λ k h. absurd (omega arith) }

module _ {A B : Type 0} {d : Decode A} {bs : List ℕ} {a : A} (f : A → Decode B) {cs : List ℕ}
    {b : B} where
  bind_cut :
      Reads d bs a
      → Reads (f a) cs b
      → (k : ℕ) → k < length (bs ++ cs)
      → (d >>= f) (take k (bs ++ cs)) ≡ none
  unfolding ◌>>=◌
  bind_cut r s k h = elim (Bool-cases (ltb k (length bs))) [
    | inl e ↦ rw (take-append_lt k bs cs (ltb→lt _ _ e)) (rw (r.cut k (ltb→lt _ _ e), ◌>>=◌))
    | inr e ↦
        let le : length bs ≤ k = ground arith in
        rw (take-append_add k (k - length bs) bs cs (omega arith)) (
          rw (r.whole (take (k - length bs) cs), ◌>>=◌)
            (s.cut (k - length bs) (omega (arith, length-append bs cs))))
  ]

  pub bind-Reads : Reads d bs a → Reads (f a) cs b → Reads (d >>= f) (bs ++ cs) b
  unfolding ◌>>=◌
  bind-Reads r s = record {
    whole = λ rest. rw (append_assoc bs cs rest) (rw (r.whole (cs ++ rest), ◌>>=◌) (s.whole rest));
    cut = λ k h. bind_cut r s k h;
  }

module _ {A : Type 0} (f : List ℕ → A) (bs : List ℕ) where
  fixed_whole : (rest : List ℕ) → fixed (length bs) f (bs ++ rest) ≡ some (f bs, rest)
  unfolding fixed
  fixed_whole rest =
      let enough : ltb (length (bs ++ rest)) (length bs) ≡ false =
        ground (arith, length-append bs rest) in
      rw enough (rw (take-append bs rest, drop-append bs rest))

  fixed_cut : (k : ℕ) → k < length bs → fixed (length bs) f (take k bs) ≡ none
  unfolding fixed
  fixed_cut k h =
      let short : ltb (length (take k bs)) (length bs) ≡ true = ground (arith, length-take k bs) in
      rw short

  pub fixed-Reads : (n : ℕ) → length bs ≡ n → Reads (fixed n f) bs (f bs)
  fixed-Reads n e =
      subst (λ m. Reads (fixed m f) bs (f bs)) e (record { whole = fixed_whole; cut = fixed_cut })

-- A fixed-size field whose bytes stand for `v`.
value-Reads :
    {A : Type 0} (n : ℕ) (f : List ℕ → A) (bs : List ℕ) (v : A)
    → length bs ≡ n
    → f bs ≡ v
    → Reads (fixed n f) bs v
value-Reads n f bs v e e' = subst (λ w. Reads (fixed n f) bs w) e' (fixed-Reads f bs n e)

pub u8-Reads : (v : ℕ) → Reads Decoder.u8 (Encoder.u8 v) v
unfolding Decoder.u8 Encoder.u8
u8-Reads v = fixed-Reads first (v ∷ []) 1 refl

pub u16-Reads : (v : ℕ) → v < 2 ^ 16 → Reads Decoder.u16 (Encoder.u16 v) v
unfolding Decoder.u16 Encoder.u16
u16-Reads v h = value-Reads 2 le_value (put_le 2 v) v (length-put_le 2 v) (le_value-put_le 2 v h)

pub u32-Reads : (v : ℕ) → v < 2 ^ 32 → Reads Decoder.u32 (Encoder.u32 v) v
unfolding Decoder.u32 Encoder.u32
u32-Reads v h = value-Reads 4 le_value (put_le 4 v) v (length-put_le 4 v) (le_value-put_le 4 v h)

pub u64-Reads : (v : ℕ) → v < 2 ^ 64 → Reads Decoder.u64 (Encoder.u64 v) v
unfolding Decoder.u64 Encoder.u64
u64-Reads v h = value-Reads 8 le_value (put_le 8 v) v (length-put_le 8 v) (le_value-put_le 8 v h)

-- The range of an int64.
abbrev pub IsI64 : ℤ → Type 0
IsI64 (pos n) = n < 2 ^ 63
IsI64 (negsuc n) = n < 2 ^ 63

to_u64-lt : (v : ℤ) → IsI64 v → to_u64 v < 2 ^ 64
unfolding to_u64
to_u64-lt (pos n) h = omega arith
to_u64-lt (negsuc n) h = omega arith

pub to_i64-to_u64 : (v : ℤ) → IsI64 v → to_i64 (to_u64 v) ≡ v
unfolding to_i64 to_u64
to_i64-to_u64 (pos n) h = ground arith
to_i64-to_u64 (negsuc n) h = ground arith

-- The last step of a `do` block, once its value is known.
pub return-Reads :
    {A B : Type 0} {d : Decode A} {bs : List ℕ} {a : A} (f : A → B) (b : B)
    → Reads d bs a
    → f a ≡ b
    → Reads (d >>= λ x. pure (f x)) bs b
return-Reads {d = d} {bs = bs} {a = a} f b r e =
    subst (λ cs. Reads (d >>= λ x. pure (f x)) cs b) (append-nil bs)
      (bind-Reads (λ x. pure (f x)) r (subst (λ y. Reads (pure (f a)) [] y) e (pure-Reads (f a))))

pub i64-Reads : (v : ℤ) → IsI64 v → Reads Decoder.i64 (Encoder.i64 v) v
unfolding Decoder.i64 Encoder.i64
i64-Reads v h = return-Reads to_i64 v (u64-Reads (to_u64 v) (to_u64-lt v h)) (to_i64-to_u64 v h)

pub bool-Reads : (v : Bool) → Reads Decoder.bool (Encoder.bool v) v
unfolding Decoder.bool Encoder.bool
bool-Reads true = return-Reads (λ n. not (n == 0)) true (u8-Reads 1) refl
bool-Reads false = return-Reads (λ n. not (n == 0)) false (u8-Reads 0) refl

pub object_id-Reads :
    (id : List ℕ) → length id ≡ 16 → Reads Decoder.object_id (Encoder.object_id id) id
unfolding Decoder.object_id Encoder.object_id
object_id-Reads id h = fixed-Reads (λ v. v) id 16 h

-- A string is read back if its length fits the 32-bit prefix.
pub str-Reads : (v : List ℕ) → length v < 2 ^ 32 → Reads Decoder.str (Encoder.str v) v
unfolding Decoder.str Encoder.str
str-Reads v h =
    bind-Reads (λ size. fixed size (λ w. w)) (u32-Reads (length v) h)
      (fixed-Reads (λ w. w) v (length v) refl)
