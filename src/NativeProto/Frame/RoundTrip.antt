-- ===== src/NativeProto/Frame/RoundTrip.antt =====
-- Frames that WriteFrame writes are those that ReadFrame reads: internal/nativeproto/protocol.go.
use monofs.Prelude.{
  subst, ap, ◌∙◌, append-nil, ℕ, ◌+◌, ◌-◌, ◌^◌, ◌<◌, ◌≤◌, ◌≡◌, refl, Bool, false, ◌||◌, inl, inr,
  Option, none, some, List, [], ◌∷◌, ◌++◌, length, take, ltb, ◌==◌, if◌then◌else◌, ok, err, arith,
  Bool-cases, length-append, take-append, drop-append, append_assoc, take-append_add,
  take-append_lt, length-take, ltb→lt,
}
use monofs.NativeProto.Encoder
use monofs.NativeProto.Encoder.{le_value, le_value-put_le, length-put_le}
use monofs.NativeProto.Frame.{
  frame_magic, version1, header_size, max_frame_bytes, Header, eof, unexpected_eof, read_full,
  parse_header, header_error, read_body, with_body, after_header, read_frame, seal, header_bytes,
  Write, WriteError, too_large, write_frame,
}

-- The ranges of the Go types of the fields that a caller of WriteFrame sets.
pub record IsHeader (h : Header) : Type 0 where
  pub opcode : h.opcode < 2 ^ 16
  pub flags : h.flags < 2 ^ 32
  pub request_id : h.request_id < 2 ^ 64
  pub session_id : h.session_id < 2 ^ 64
  pub status : h.status < 2 ^ 32
  pub reserved : h.reserved < 2 ^ 32
  pub generation : h.generation < 2 ^ 64

pub length-header_bytes : (h : Header) → length (header_bytes h) ≡ header_size
unfolding header_bytes Encoder.u16 Encoder.u32 Encoder.u64
length-header_bytes h = refl

-- Every field stands where ReadFrame looks for it.
parse_header-header_bytes :
    (h : Header) (body : List ℕ)
    → IsHeader h
    → length body ≤ max_frame_bytes
    → parse_header (header_bytes (seal h body)) ≡ seal h body
unfolding parse_header header_bytes seal Encoder.u16 Encoder.u32 Encoder.u64
parse_header-header_bytes h body v fits = λ i. record {
  magic = frame_magic;
  version = version1;
  opcode = le_value-put_le 2 h.opcode v.opcode i;
  flags = le_value-put_le 4 h.flags v.flags i;
  header_len = header_size;
  body_len = le_value-put_le 4 (length body) (omega arith) i;
  request_id = le_value-put_le 8 h.request_id v.request_id i;
  session_id = le_value-put_le 8 h.session_id v.session_id i;
  status = le_value-put_le 4 h.status v.status i;
  reserved = le_value-put_le 4 h.reserved v.reserved i;
  generation = le_value-put_le 8 h.generation v.generation i;
}

read_full-append :
    (n : ℕ) (bs rest : List ℕ) → length bs ≡ n → read_full n (bs ++ rest) ≡ ok (bs, rest)
unfolding read_full
read_full-append n [] rest e = ground arith
read_full-append n (b ∷ bs) rest e =
    subst (λ m. read_full m (b ∷ (bs ++ rest)) ≡ ok (b ∷ bs, rest)) e
      (ground (arith, length-append bs rest, take-append bs rest, drop-append bs rest))

-- A slice filled in part gives the error that io.ReadFull documents.
read_full_short :
    (n : ℕ) (bs : List ℕ)
    → length bs < n
    → read_full n bs ≡ err (if length bs == 0 then eof else unexpected_eof)
unfolding read_full
read_full_short n bs h = ground arith

header_error-seal :
    (h : Header) (body : List ℕ) → length body ≤ max_frame_bytes → header_error (seal h body) ≡ none
unfolding header_error seal
header_error-seal h body fits = ground arith

-- With its header read, a frame goes on by its body.
read_frame_body :
    (h : Header) (body rest : List ℕ)
    → IsHeader h
    → length body ≤ max_frame_bytes
    → read_frame (header_bytes (seal h body) ++ rest) ≡ read_body (seal h body) rest none
unfolding read_frame
read_frame_body h body rest v fits =
    ap after_header (
      read_full-append header_size (header_bytes (seal h body)) rest
        (length-header_bytes (seal h body)))
    ∙ ap (λ hdr. read_body hdr rest (header_error hdr)) (parse_header-header_bytes h body v fits)
    ∙ ap (read_body (seal h body) rest) (header_error-seal h body fits)

-- With its header read and its body at hand, the frame is complete.
read_body_whole :
    (h : Header) (body rest : List ℕ)
    → read_body (seal h body) (body ++ rest) none ≡ ok (seal h body, body, rest)
unfolding read_body seal
read_body_whole h body rest =
    ap (with_body (seal h body)) (read_full-append (length body) body rest refl)

read_body_short :
    (h : Header) (body part : List ℕ)
    → length part < length body
    → read_body (seal h body) part none ≡ err (if length part == 0 then eof else unexpected_eof)
unfolding read_body seal
read_body_short h body part short =
    ap (with_body (seal h body)) (read_full_short (length body) part short)

-- The bytes that reach a writer for a frame.
abbrev frame : Header → List ℕ → List ℕ
frame h body = header_bytes (seal h body) ++ body

-- A writer that keeps what it is given, and never fails.
abbrev pub buffer : Write ⊥ (List ℕ)
buffer bs w = (none, w ++ bs)

-- WriteFrame to a buffer: a body above the limit is refused and nothing is written; any other is
-- appended behind its header.
pub write_frame-buffer :
    (h : Header) (body out : List ℕ)
    → write_frame buffer h body out ≡ (
        if ltb max_frame_bytes (length body)
        then (some (too_large (length body)), out)
        else (none, out ++ (header_bytes (seal h body) ++ body)))
unfolding write_frame
write_frame-buffer h [] out = rw (append-nil (header_bytes (seal h [])))
write_frame-buffer h (b ∷ bs) out = rw (append_assoc out (header_bytes (seal h (b ∷ bs))) (b ∷ bs))

written :
    (h : Header) (body : List ℕ)
    → length body ≤ max_frame_bytes
    → (write_frame buffer h body []).1 ≡ frame h body
written h body fits =
    let small : ltb max_frame_bytes (length body) ≡ false = ground arith in
    ap (λ (p : Option (WriteError ⊥) × List ℕ). p.1) (write_frame-buffer h body []) ∙ rw small

-- What WriteFrame puts into an empty buffer, followed by any other bytes, ReadFrame reads back: the
-- header with the magic, version and lengths filled in, the body, and the bytes behind the frame.
-- The body is within the limit and the header's fields within their types.
pub read_frame-write_frame :
    (h : Header) (body rest : List ℕ)
    → IsHeader h
    → length body ≤ max_frame_bytes
    → read_frame ((write_frame buffer h body []).1 ++ rest) ≡ ok (seal h body, body, rest)
read_frame-write_frame h body rest v fits =
    rw (written h body fits, append_assoc (header_bytes (seal h body)) body rest)
      (read_frame_body h body (body ++ rest) v fits ∙ read_body_whole h body rest)

cut_header :
    (h : Header) (body : List ℕ) (k : ℕ)
    → k < header_size
    → read_frame (take k (frame h body)) ≡ err (if k == 0 then eof else unexpected_eof)
unfolding read_frame
cut_header h body k lt =
    let inside : k < length (header_bytes (seal h body)) =
      rw (length-header_bytes (seal h body)) lt in
    let size : length (take k (header_bytes (seal h body))) ≡ k =
      length-take k (header_bytes (seal h body)) (omega arith) in
    rw (take-append_lt k (header_bytes (seal h body)) body inside) (
      ap after_header
        (read_full_short header_size (take k (header_bytes (seal h body))) (omega arith))
      ∙ rw size)

cut_body :
    (h : Header) (body : List ℕ) (k : ℕ)
    → IsHeader h
    → length body ≤ max_frame_bytes
    → header_size ≤ k
    → k < header_size + length body
    → read_frame (take k (frame h body)) ≡ err (if k == header_size then eof else unexpected_eof)
cut_body h body k v fits ge lt =
    let part = take (k - header_size) body in
    let size : length part ≡ k - header_size = length-take (k - header_size) body (omega arith) in
    rw
      (take-append_add k (k - header_size) (header_bytes (seal h body)) body
        (omega (arith, length-header_bytes (seal h body))))
      (read_frame_body h body part v fits
        ∙ read_body_short h body part (omega arith)
        ∙ ap (λ (b : Bool). err (if b then eof else unexpected_eof)) (ground (arith, size)))

-- A frame that is cut off is never accepted. The error is io.EOF where the cut is before the first
-- byte, and also where it is exactly behind the header of a frame that has a body; anywhere else
-- it is io.ErrUnexpectedEOF.
pub read_frame_cut :
    (h : Header) (body : List ℕ) (k : ℕ)
    → IsHeader h
    → length body ≤ max_frame_bytes
    → k < length (write_frame buffer h body []).1
    → read_frame (take k (write_frame buffer h body []).1)
      ≡ err (if k == 0 || k == header_size then eof else unexpected_eof)
read_frame_cut h body k v fits lt =
    rw (written h body fits) (elim (Bool-cases (ltb k header_size)) [
      | inl e ↦
          cut_header h body k (ltb→lt _ _ e)
          ∙ ap (λ (b : Bool). err (if b then eof else unexpected_eof)) (ground arith)
      | inr e ↦
          cut_body h body k v fits (ground arith) (
            omega (
              arith,
              rw (written h body fits) at lt,
              length-append (header_bytes (seal h body)) body,
              length-header_bytes (seal h body),
            ))
          ∙ ap (λ (b : Bool). err (if b then eof else unexpected_eof)) (ground arith)
    ])
