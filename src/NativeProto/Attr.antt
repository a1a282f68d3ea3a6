-- ===== src/NativeProto/Attr.antt =====
-- File attributes on the wire (encodeAttr, decodeAttr of internal/nativeproto/protocol.go), and the
-- frame's decoding from a byte slice.
use monofs.Prelude.{
  ℕ, ◌-◌, ◌^◌, ◌<◌, ◌≡◌, refl, inl, inr, Option, none, some, List, ◌++◌, arith, length, take, ltb,
  ltb→lt, if◌then◌else◌, Bool-cases, take-append_lt, take-append_add,
}
use monofs.Prelude.Int.{ℤ}
use monofs.NativeProto.Encoder
use monofs.NativeProto.Decoder
use monofs.NativeProto.Decoder.{Decode, ◌>>=◌, pure}
use monofs.NativeProto.Reads.{
  Reads, IsI64, bind-Reads, return-Reads, u32-Reads, u64-Reads, i64-Reads,
}

pub record Attr : Type 0 where
  pub ino : ℕ  -- uint64
  pub mode : ℕ  -- uint32
  pub size : ℕ  -- uint64
  pub mtime : ℤ  -- int64
  pub atime : ℤ  -- int64
  pub ctime : ℤ  -- int64
  pub nlink : ℕ  -- uint32
  pub uid : ℕ  -- uint32
  pub gid : ℕ  -- uint32

-- The ranges of the Go types of a `Attr`.
pub record IsAttr (m : Attr) : Type 0 where
  pub ino : m.ino < 2 ^ 64
  pub mode : m.mode < 2 ^ 32
  pub size : m.size < 2 ^ 64
  pub mtime : IsI64 m.mtime
  pub atime : IsI64 m.atime
  pub ctime : IsI64 m.ctime
  pub nlink : m.nlink < 2 ^ 32
  pub uid : m.uid < 2 ^ 32
  pub gid : m.gid < 2 ^ 32

unfoldable pub encode_attr : Attr → List ℕ
encode_attr m =
    Encoder.u64 m.ino
    ++ (Encoder.u32 m.mode
        ++ (Encoder.u64 m.size
            ++ (Encoder.i64 m.mtime
                ++ (Encoder.i64 m.atime
                    ++ (Encoder.i64 m.ctime
                        ++ (Encoder.u32 m.nlink ++ (Encoder.u32 m.uid ++ Encoder.u32 m.gid)))))))

unfoldable pub decode_attr : Decode Attr
decode_attr = do
  ino ← Decoder.u64
  mode ← Decoder.u32
  size ← Decoder.u64
  mtime ← Decoder.i64
  atime ← Decoder.i64
  ctime ← Decoder.i64
  nlink ← Decoder.u32
  uid ← Decoder.u32
  gid ← Decoder.u32
  pure (record {
    ino = ino;
    mode = mode;
    size = size;
    mtime = mtime;
    atime = atime;
    ctime = ctime;
    nlink = nlink;
    uid = uid;
    gid = gid;
  })

pub attr-Reads : (m : Attr) → IsAttr m → Reads decode_attr (encode_attr m) m
unfolding decode_attr encode_attr
attr-Reads m h = bind-Reads _ (u64-Reads m.ino h.ino) (
    bind-Reads _ (u32-Reads m.mode h.mode) (
      bind-Reads _ (u64-Reads m.size h.size) (
        bind-Reads _ (i64-Reads m.mtime h.mtime) (
          bind-Reads _ (i64-Reads m.atime h.atime) (
            bind-Reads _ (i64-Reads m.ctime h.ctime) (
              bind-Reads _ (u32-Reads m.nlink h.nlink) (
                bind-Reads _ (u32-Reads m.uid h.uid)
                  (return-Reads _ m (u32-Reads m.gid h.gid) refl))))))))

-- `dec := decoder{data: data}`, and the value without what was not read.
unfoldable pub run : {A : Type 0} → Decode A → List ℕ → Option A
unfolding ◌>>=◌ pure
run d bytes = elim (d bytes) [ none ↦ none | some (a, rest) ↦ some a ]

pub run-Reads :
    {A : Type 0} {d : Decode A} {bs : List ℕ} {a : A} (k : ℕ) (rest : List ℕ)
    → Reads d bs a
    → run d (take k (bs ++ rest)) ≡ (if ltb k (length bs) then none else some a)
unfolding run
run-Reads {d = d} {bs = bs} k rest r = elim (Bool-cases (ltb k (length bs))) [
  | inl e ↦ rw (e, take-append_lt k bs rest (ltb→lt _ _ e)) (rw (r.cut k (ltb→lt _ _ e), run))
  | inr e ↦
      rw (e, take-append_add k (k - length bs) bs rest (ground arith))
        (rw (r.whole (take (k - length bs) rest), run))
]
