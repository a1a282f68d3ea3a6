-- ===== src/NativeProto/RoundTrip/Replies.antt =====
-- The replies of internal/nativeproto/protocol.go whose length depends on their content: what the
-- encoders write and the decoders read.
use monofs.Prelude.{
  Option, ap, append_assoc, ◌∙◌, sym, subst, ℕ, ◌^◌, ◌<◌, ◌≤◌, ◌≡◌, refl, Bool, true, false, inl,
  inr, none, some, List, [], ◌∷◌, ◌++◌, length, take, ltb, if◌then◌else◌, arith, Bool-cases, All,
  length-append,
}
use monofs.NativeProto.Encoder
use monofs.NativeProto.Encoder.{length-put_le}
use monofs.NativeProto.Decoder.{Decode, ◌>>=◌, pure}
use monofs.NativeProto.Attr.{run, attr-Reads, run-Reads}
use monofs.NativeProto.Reads.{
  Reads, pure-Reads, bind-Reads, return-Reads, fixed-Reads, u32-Reads, u64-Reads, bool-Reads,
  object_id-Reads, str-Reads,
}
use monofs.NativeProto.Replies.{
  zero_attr, zero_id, LookupResponse, IsLookupResponse, found_part, encode_lookup_response,
  decode_found_part, decode_lookup_response, DirEntry, IsDirEntry, ReadDirResponse,
  IsReadDirResponse, encode_entry, encode_entries, encode_read_dir_response, decode_entry,
  decode_entries, counted, counted_refused, counted_kept, ReadDirHead, decode_read_dir_head,
  with_entries, read_dir_from, read_dir, decode_read_dir_response, ReadResponse,
  encode_read_response, decode_read_response,
}

-- What a lookup reply keeps on the wire: the object only where one was found.
abbrev pub sent : Bool → LookupResponse → LookupResponse
sent found m = if found then m else record m { object_id = zero_id; attr = zero_attr }

found_part-Reads :
    (b : Bool) (m : LookupResponse)
    → m.found ≡ b
    → IsLookupResponse m
    → Reads (decode_found_part b m.entry_ttl_ms) (found_part b m) (sent b m)
unfolding decode_found_part found_part
found_part-Reads true m e h =
    bind-Reads _ (object_id-Reads m.object_id h.object_id)
      (return-Reads _ m (attr-Reads m.attr h.attr) (λ i. record m { found = sym e i }))
found_part-Reads false m e h =
    subst (λ r. Reads (decode_found_part false m.entry_ttl_ms) [] r)
      (λ i. record {
        found = sym e i;
        entry_ttl_ms = m.entry_ttl_ms;
        object_id = zero_id;
        attr = zero_attr;
      })
      (pure-Reads _)

-- Cut the encoding of a `LookupResponse`, with anything behind it, at any byte: the decoder
-- refuses a cut inside the encoding. After any other it returns the reply, whose object and
-- attributes are zero where none was found.
pub decode_lookup_response-encode :
    (m : LookupResponse) (rest : List ℕ) (k : ℕ)
    → IsLookupResponse m
    → decode_lookup_response (take k (encode_lookup_response m ++ rest))
      ≡ (if ltb k (length (encode_lookup_response m)) then none else some (sent m.found m))
unfolding decode_lookup_response encode_lookup_response
decode_lookup_response-encode m rest k h = run-Reads k rest (
    bind-Reads _ (bool-Reads m.found)
      (bind-Reads _ (u32-Reads m.entry_ttl_ms h.entry_ttl_ms) (found_part-Reads m.found m refl h)))

entry-Reads : (e : DirEntry) → IsDirEntry e → Reads decode_entry (encode_entry e) e
unfolding decode_entry encode_entry
entry-Reads e h = bind-Reads _ (str-Reads e.name h.name) (
    bind-Reads _ (object_id-Reads e.object_id h.object_id)
      (bind-Reads _ (u64-Reads e.ino h.ino) (return-Reads _ e (u32-Reads e.mode h.mode) refl)))

entries-Reads :
    (es : List DirEntry)
    → All IsDirEntry es
    → Reads (decode_entries (length es)) (encode_entries es) es
unfolding decode_entries encode_entries
entries-Reads [] h = pure-Reads []
entries-Reads (e ∷ es) h =
    bind-Reads _ (entry-Reads e h.0)
      (return-Reads (λ r. e ∷ r) (e ∷ es) (entries-Reads es h.1) refl)

encode_entry_pos : (e : DirEntry) → 1 ≤ length (encode_entry e)
unfolding encode_entry Encoder.str Encoder.u32
encode_entry_pos e = omega arith

length-le-encode_entries : (es : List DirEntry) → length es ≤ length (encode_entries es)
unfolding encode_entries
length-le-encode_entries [] = omega arith
length-le-encode_entries (e ∷ es) = omega (
  arith,
  encode_entry_pos e,
  length-le-encode_entries es,
  length-append (encode_entry e) (encode_entries es),
)

-- The entries behind the guard, as a decoder.
abbrev decode_counted : ℕ → Decode (List DirEntry)
unfolding counted
decode_counted count d = (counted count d).1

-- The guard on the count lets every encoded listing through.
counted-Reads :
    (es : List DirEntry)
    → All IsDirEntry es
    → Reads (decode_counted (length es)) (encode_entries es) es
unfolding decode_counted
counted-Reads es h = record {
  whole = λ rest.
      let fits : ltb (length (encode_entries es ++ rest)) (length es) ≡ false =
        ground (arith, length-append (encode_entries es) rest, length-le-encode_entries es) in
      ap (λ o. o.1) (counted_kept _ _ fits) ∙ (entries-Reads es h).whole rest;
  cut = λ k lt. elim (Bool-cases (ltb (length (take k (encode_entries es))) (length es))) [
    | inl e ↦ ap (λ o. o.1) (counted_refused _ _ e)
    | inr e ↦ ap (λ o. o.1) (counted_kept _ _ e) ∙ (entries-Reads es h).cut k lt
  ];
}

abbrev head_of : ReadDirResponse → ReadDirHead
head_of m = record {
  dir_ttl_ms = m.dir_ttl_ms;
  next_cookie = m.next_cookie;
  eof = m.eof;
  count = length m.entries;
}

abbrev encode_head : ReadDirResponse → List ℕ
encode_head m =
    Encoder.u32 m.dir_ttl_ms
    ++ (Encoder.u64 m.next_cookie ++ (Encoder.bool m.eof ++ Encoder.u32 (length m.entries)))

head-Reads :
    (m : ReadDirResponse)
    → IsReadDirResponse m
    → Reads decode_read_dir_head (encode_head m) (head_of m)
unfolding decode_read_dir_head
head-Reads m h = bind-Reads _ (u32-Reads m.dir_ttl_ms h.dir_ttl_ms) (
    bind-Reads _ (u64-Reads m.next_cookie h.next_cookie) (
      bind-Reads _ (bool-Reads m.eof)
        (return-Reads _ (head_of m) (u32-Reads (length m.entries) h.count) refl)))

-- The decoder as one block, for its result.
abbrev listing_of : ReadDirHead → List DirEntry → ReadDirResponse
listing_of head entries = record {
  dir_ttl_ms = head.dir_ttl_ms;
  next_cookie = head.next_cookie;
  eof = head.eof;
  entries = entries;
}

abbrev read_listing : Decode ReadDirHead → Decode ReadDirResponse
unfolding decode_counted ◌>>=◌ pure
read_listing head = do h ← head; entries ← decode_counted h.count; pure (listing_of h entries)

with_entries_lem :
    (head : ReadDirHead) (o : Option (List DirEntry × List ℕ))
    → with_entries head o ≡ run ((λ d. o) >>= λ entries. pure (listing_of head entries)) []
unfolding run ◌>>=◌ pure
with_entries_lem head none = refl
with_entries_lem head (some (entries, rest)) = refl

read_dir_from_lem :
    (o : Option (ReadDirHead × List ℕ)) → (read_dir_from o).1 ≡ run (read_listing (λ d. o)) []
unfolding decode_counted ◌>>=◌ pure read_listing read_dir_from run
read_dir_from_lem none = refl
read_dir_from_lem (some (head, rest)) = with_entries_lem head (counted head.count rest).1

decode_read_dir_response-run :
    (bytes : List ℕ)
    → decode_read_dir_response bytes ≡ run (read_listing decode_read_dir_head) bytes
unfolding decode_read_dir_response read_dir run read_listing ◌>>=◌
decode_read_dir_response-run bytes = read_dir_from_lem (decode_read_dir_head bytes)

encode_read_dir_response_parts :
    (m : ReadDirResponse) → encode_head m ++ encode_entries m.entries ≡ encode_read_dir_response m
unfolding encode_read_dir_response
encode_read_dir_response_parts m = rw (
  append_assoc (Encoder.u32 m.dir_ttl_ms),
  append_assoc (Encoder.u64 m.next_cookie),
  append_assoc (Encoder.bool m.eof),
)

read_listing-Reads :
    (m : ReadDirResponse)
    → IsReadDirResponse m
    → Reads (read_listing decode_read_dir_head) (encode_read_dir_response m) m
unfolding read_listing ◌>>=◌
read_listing-Reads m h =
    subst (λ bs. Reads (read_listing decode_read_dir_head) bs m) (encode_read_dir_response_parts m)
      (bind-Reads _ (head-Reads m h) (return-Reads _ m (counted-Reads m.entries h.entries) refl))

-- Cut the encoding of a `ReadDirResponse`, with anything behind it, at any byte: the decoder
-- refuses a cut inside the encoding, and returns the response after any other.
pub decode_read_dir_response-encode :
    (m : ReadDirResponse) (rest : List ℕ) (k : ℕ)
    → IsReadDirResponse m
    → decode_read_dir_response (take k (encode_read_dir_response m ++ rest))
      ≡ (if ltb k (length (encode_read_dir_response m)) then none else some m)
decode_read_dir_response-encode m rest k h =
    decode_read_dir_response-run (take k (encode_read_dir_response m ++ rest))
    ∙ run-Reads k rest (read_listing-Reads m h)

-- Cut the encoding of a `ReadResponse` of fewer than 2 ^ 32 bytes, with anything behind it, at
-- any byte: the decoder refuses a cut inside the encoding, and returns the response after any
-- other.
pub decode_read_response-encode :
    (m : ReadResponse) (rest : List ℕ) (k : ℕ)
    → length m.bytes < 2 ^ 32
    → decode_read_response (take k (encode_read_response m ++ rest))
      ≡ (if ltb k (length (encode_read_response m)) then none else some m)
unfolding decode_read_response encode_read_response
decode_read_response-encode m rest k h = run-Reads k rest (
    bind-Reads _ (bool-Reads m.eof) (
      bind-Reads _ (u32-Reads (length m.bytes) h)
        (return-Reads _ m (fixed-Reads (λ v. v) m.bytes (length m.bytes) refl) refl)))
