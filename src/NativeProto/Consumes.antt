-- ===== src/NativeProto/Consumes.antt =====
-- How much of a frame the decoders of internal/nativeproto/protocol.go use up, and the room that the
-- decoder of a listing allocates.
use monofs.Prelude.{
  ℕ, zero, suc, ◌+◌, ◌*◌, ◌-◌, ◌≤◌, ◌≡◌, refl, sym, subst, not, ◌==◌, ltb, inl, inr, Option, none,
  some, List, length, arith, Bool-cases, length-drop,
}
use monofs.NativeProto.Decoder
use monofs.NativeProto.Encoder.{le_value}
use monofs.NativeProto.Decoder.{Decode, ◌>>=◌, pure, fixed, first}
use monofs.NativeProto.Replies.{
  DirEntry, ReadDirResponse, ReadDirHead, decode_entry, decode_entries, counted, counted_refused,
  counted_kept, decode_read_dir_head, with_entries, read_dir_from, read_dir,
  decode_read_dir_response,
}

-- Where `d` succeeds, it has used up `n` bytes at least.
pub record Consumes {A : Type 0} (n : ℕ) (d : Decode A) : Type 0 where
  pub used :
      (s : List ℕ) (a : A) (rest : List ℕ) → d s ≡ some (a, rest) → length rest + n ≤ length s

pure-Consumes : {A : Type 0} (a : A) → Consumes 0 (pure a)
unfolding pure
pure-Consumes a = record { used = λ s b rest e. ground arith }

fixed-Consumes : {A : Type 0} (n : ℕ) (f : List ℕ → A) → Consumes n (fixed n f)
unfolding fixed
fixed-Consumes n f = record { used = λ s a rest e. ground (arith, length-drop n s) }

weaken : {A : Type 0} {d : Decode A} (k n : ℕ) → k ≤ n → Consumes n d → Consumes k d
weaken k n h c = record { used = λ s a rest e. omega (arith, c.used s a rest e) }

-- A block that succeeds ran both its parts.
module _ {A B : Type 0} (m : Decode A) (f : A → Decode B) where
  parts :
      (o : Option (A × List ℕ)) (s : List ℕ) (b : B) (rest : List ℕ)
      → m s ≡ o
      → elim o [ none ↦ none | some (a, r) ↦ f a r ] ≡ some (b, rest)
      → (a : A) × (r : List ℕ) × (m s ≡ some (a, r)) × (f a r ≡ some (b, rest))
  parts none s b rest p e = absurd (ground arith)
  parts (some (a, r)) s b rest p e = (a, r, p, e)

  >>=-eq-some :
      (s : List ℕ) (b : B) (rest : List ℕ)
      → (m >>= f) s ≡ some (b, rest)
      → (a : A) × (r : List ℕ) × (m s ≡ some (a, r)) × (f a r ≡ some (b, rest))
  unfolding ◌>>=◌
  >>=-eq-some s b rest e = parts (m s) s b rest refl e

  bind-Consumes :
      (k n : ℕ) → Consumes k m → ((a : A) → Consumes n (f a)) → Consumes (k + n) (m >>= f)
  bind-Consumes k n cm cf = record {
    used = λ s b rest e.
        let (a, r, p, q) = >>=-eq-some s b rest e in
        omega (arith, cm.used s a r p, (cf a).used r b rest q);
  }

str-Consumes : Consumes 4 Decoder.str
unfolding Decoder.str Decoder.u32
str-Consumes =
    bind-Consumes (fixed 4 le_value) (λ size. fixed size (λ v. v)) 4 0 (fixed-Consumes 4 le_value)
      (λ size. weaken 0 size (omega arith) (fixed-Consumes size (λ v. v)))

bool-Consumes : Consumes 1 Decoder.bool
unfolding Decoder.bool Decoder.u8
bool-Consumes =
    bind-Consumes (fixed 1 first) (λ v. pure (not (v == 0))) 1 0 (fixed-Consumes 1 first)
      (λ v. pure-Consumes (not (v == 0)))

u32-Consumes : Consumes 4 Decoder.u32
unfolding Decoder.u32
u32-Consumes = fixed-Consumes 4 le_value

u64-Consumes : Consumes 8 Decoder.u64
unfolding Decoder.u64
u64-Consumes = fixed-Consumes 8 le_value

entry-Consumes : Consumes 32 decode_entry
unfolding decode_entry Decoder.object_id
entry-Consumes = bind-Consumes Decoder.str _ 4 28 str-Consumes λ name.
    bind-Consumes (fixed 16 (λ v. v)) _ 16 12 (fixed-Consumes 16 (λ v. v)) λ id.
      bind-Consumes Decoder.u64 _ 8 4 u64-Consumes
        λ ino. bind-Consumes Decoder.u32 _ 4 0 u32-Consumes λ mode. pure-Consumes _

-- A loop of `n` rounds returns `n` entries, and uses up 32 bytes for each.
entries_used :
    (n : ℕ) (s : List ℕ) (es : List DirEntry) (rest : List ℕ)
    → decode_entries n s ≡ some (es, rest)
    → (length es ≡ n) × (length rest + 32 * n ≤ length s)
unfolding decode_entries pure
entries_used zero s es rest e = ground arith
entries_used (suc n) s es rest e =
    let (entry, r, p, q) = >>=-eq-some decode_entry _ s es rest e in
    let (tail, r', p', q') = >>=-eq-some (decode_entries n) _ r es rest q in
    let ih = entries_used n r tail r' p' in
    let room = entry-Consumes.used s entry r p in ground arith

head-Consumes : Consumes 17 decode_read_dir_head
unfolding decode_read_dir_head
head-Consumes = bind-Consumes Decoder.u32 _ 4 13 u32-Consumes λ dir_ttl_ms.
    bind-Consumes Decoder.u64 _ 8 5 u64-Consumes λ next_cookie.
      bind-Consumes Decoder.bool _ 1 4 bool-Consumes
        λ eof. bind-Consumes Decoder.u32 _ 4 0 u32-Consumes λ count. pure-Consumes _

-- The room for entries is filled by a decoder that returns a listing, from 32 bytes for each entry
-- behind 17 bytes.
abbrev pub Filled : ℕ → ℕ → Option ReadDirResponse → Type 0
Filled size room none = Unit
Filled size room (some m) = (length m.entries ≡ room) × (17 + 32 * length m.entries ≤ size)

module _ (size : ℕ) (head : ReadDirHead) (rest : List ℕ) (whole : length rest + 17 ≤ size) where
  with_entries-Filled :
      (o : Option (List DirEntry × List ℕ))
      → decode_entries head.count rest ≡ o
      → Filled size head.count (with_entries head o)
  with_entries-Filled none p = _
  with_entries-Filled (some (entries, left)) p =
      let used = entries_used head.count rest entries left p in
      (used.0, omega (arith, used.0, used.1, whole))

  Bounded : ℕ × Option (List DirEntry × List ℕ) → Type 0
  Bounded out = (out.0 ≤ size - 17) × Filled size out.0 (with_entries head out.1)

  counted-Bounded : Bounded (counted head.count rest)
  unfolding Bounded
  counted-Bounded = elim (Bool-cases (ltb (length rest) head.count)) [
    | inl e ↦ subst Bounded (sym (counted_refused head.count rest e)) (omega arith, _)
    | inr e ↦
        subst Bounded (sym (counted_kept head.count rest e))
          (ground (arith, e, whole), with_entries-Filled _ refl)
  ]

read_dir_from-Filled :
    (bytes : List ℕ) (o : Option (ReadDirHead × List ℕ))
    → decode_read_dir_head bytes ≡ o
    → ((read_dir_from o).0 ≤ length bytes - 17)
      × Filled (length bytes) (read_dir_from o).0 (read_dir_from o).1
unfolding read_dir_from Bounded
read_dir_from-Filled bytes none p = (omega arith, _)
read_dir_from-Filled bytes (some (head, rest)) p =
    counted-Bounded (length bytes) head rest (head-Consumes.used bytes head rest p)

-- Whatever the frame, and whatever number of entries it claims, the decoder of a listing allocates
-- room for at most as many entries as the frame has bytes behind the first 17. Where it returns a
-- listing of n entries, n is the room that it allocated, and the frame has 17 + 32 * n bytes at
-- least.
pub read_dir-Filled :
    (bytes : List ℕ)
    → ((read_dir bytes).0 ≤ length bytes - 17)
      × Filled (length bytes) (read_dir bytes).0 (decode_read_dir_response bytes)
unfolding read_dir decode_read_dir_response
read_dir-Filled bytes = read_dir_from-Filled bytes (decode_read_dir_head bytes) refl
