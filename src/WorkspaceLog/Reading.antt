-- ===== src/WorkspaceLog/Reading.antt =====
-- Reading the log of internal/storage/workspacestore/wal.go after an append or a deletion.
use monofs.Prelude.{
  ℕ, ◌+◌, ◌<◌, ◌≤◌, Bool, true, false, ◌&&◌, Option, none, some, List, [], ◌∷◌, ◌++◌, All, ltb, leb,
  ◌==◌, if◌then◌else◌, append-nil, append_assoc, ◌≡◌, refl, sym, ap, ◌∙◌, arith,
}
use monofs.WorkspaceLog.{
  Codec, WalEntry, Segment, LogDir, WalWriter, WalError, AppendOutcome, appended, open_fails,
  write_fails, max_line_size, active_list, list_segments, write_line, rotate_segment, write_rotated,
  append_line, append, keep_entry, read_lines, read_segments, insert_by_seq, sort_by_seq,
  max_segment_size,
}

-- The sequence numbers rise.
abbrev pub Ascending : {B : Type 0} → List (WalEntry B) → Type 0
Ascending [] = Unit
Ascending (e ∷ es) = All (λ x. e.seq < x.seq) es × Ascending es

-- The number of every entry is below a bound.
abbrev pub Below : {B : Type 0} → ℕ → List (WalEntry B) → Type 0
Below n es = All (λ e. e.seq < n) es

All-snoc :
    {B : Type 0} (n : ℕ) (xs : List (WalEntry B)) (e : WalEntry B)
    → All (λ y. n < y.seq) xs
    → n < e.seq
    → All (λ y. n < y.seq) (xs ++ e ∷ [])
All-snoc n [] e a l = (l, _)
All-snoc n (y ∷ ys) e (a, more) l = (a, All-snoc n ys e more l)

pub Ascending-snoc :
    {B : Type 0} (es : List (WalEntry B)) (e : WalEntry B)
    → Ascending es
    → Below e.seq es
    → Ascending (es ++ e ∷ [])
Ascending-snoc [] e h b = (_, _)
Ascending-snoc (x ∷ es) e (hx, h) (bx, b) = (All-snoc x.seq es e hx bx, Ascending-snoc es e h b)

pub Below-append :
    {B : Type 0} (n : ℕ) (xs ys : List (WalEntry B)) → Below n xs → Below n ys → Below n (xs ++ ys)
Below-append n [] ys h k = k
Below-append n (x ∷ xs) ys (hx, h) k = (hx, Below-append n xs ys h k)

pub Below-le : {B : Type 0} (n m : ℕ) (xs : List (WalEntry B)) → n ≤ m → Below n xs → Below m xs
Below-le n m [] l h = _
Below-le n m (x ∷ xs) l (hx, h) = (omega arith, Below-le n m xs l h)

module _ {B : Type 0} (size : B → ℕ) (entry_json : Codec B (WalEntry B)) where
  -- A line that a scan gets past.
  abbrev pub Fits : B → Type 0
  Fits l = (0 < size l) × (size l < max_line_size)

  abbrev pub AllFit : List (Segment B) → Type 0
  AllFit ss = All (λ s. All Fits s.lines) ss

  insert_by_seq-first :
      (e : WalEntry B) (es : List (WalEntry B))
      → All (λ x. e.seq < x.seq) es
      → insert_by_seq size entry_json e es ≡ e ∷ es
  insert_by_seq-first e [] h = refl
  insert_by_seq-first e (x ∷ xs) (hx, h) = ground arith

  pub sort_by_seq-Ascending :
      (es : List (WalEntry B)) → Ascending es → sort_by_seq size entry_json es ≡ es
  unfolding sort_by_seq
  sort_by_seq-Ascending [] h = refl
  sort_by_seq-Ascending (e ∷ es) (he, h) =
      ap (insert_by_seq size entry_json e) (sort_by_seq-Ascending es h)
      ∙ insert_by_seq-first e es he

  -- A line behind lines that fit is read behind what they hold.
  read_lines-snoc :
      (ls : List B) (l : B) (e : WalEntry B)
      → All Fits ls
      → Fits l
      → entry_json.unmarshal l ≡ some e
      → (read_lines size entry_json (ls ++ l ∷ [])).0 ≡ (read_lines size entry_json ls).0 ++ e ∷ []
  unfolding read_lines
  read_lines-snoc [] l e h (p, q) u =
      let short : leb max_line_size (size l) ≡ false = ground arith in
      let full : (size l == 0) ≡ false = ground arith in rw (short, full, u) refl
  read_lines-snoc (k ∷ ks) l e ((p, q), h) f u =
      let short : leb max_line_size (size k) ≡ false = ground arith in
      let full : (size k == 0) ≡ false = ground arith in
      rw (short, full)
        (keeps (entry_json.unmarshal k) ((read_lines size entry_json (ks ++ l ∷ [])).0)
          ((read_lines size entry_json ks).0) (read_lines-snoc ks l e h f u))
    where
      keeps :
          (o : Option (WalEntry B)) (xs ys : List (WalEntry B))
          → xs ≡ ys ++ e ∷ []
          → keep_entry size entry_json o xs ≡ keep_entry size entry_json o ys ++ e ∷ []
      keeps none xs ys p = p
      keeps (some x) xs ys p = ap (λ zs. x ∷ zs) p

  pub read_segments-append :
      (ss ts : List (Segment B))
      → read_segments size entry_json (ss ++ ts)
        ≡ read_segments size entry_json ss ++ read_segments size entry_json ts
  unfolding read_segments
  read_segments-append [] ts = refl
  read_segments-append (s ∷ ss) ts =
      ap (λ es. (read_lines size entry_json s.lines).0 ++ es) (read_segments-append ss ts)
      ∙ sym (append_assoc (read_lines size entry_json s.lines).0 _ _)

  pub All-split : (ss ts : List (Segment B)) → AllFit (ss ++ ts) → AllFit ss × AllFit ts
  All-split [] ts h = (_, h)
  All-split (s ∷ ss) ts (hs, h) = let (a, b) = All-split ss ts h in ((hs, a), b)

  pub All-join : (ss ts : List (Segment B)) → AllFit ss → AllFit ts → AllFit (ss ++ ts)
  All-join [] ts a b = b
  All-join (s ∷ ss) ts (hs, a) b = (hs, All-join ss ts a b)

  lines-snoc : (ls : List B) (l : B) → All Fits ls → Fits l → All Fits (ls ++ l ∷ [])
  lines-snoc [] l h f = (f, _)
  lines-snoc (k ∷ ks) l (hk, h) f = (hk, lines-snoc ks l h f)

  -- What an Append without an error does to the directory: one more entry is read at its end.
  abbrev pub Grows : WalEntry B → List (Segment B) → LogDir B × WalWriter × Option WalError → Type 0
  Grows e ss (d, w, some x) = Unit
  Grows e ss (d, w, none) =
      (read_segments size entry_json (list_segments d) ≡ read_segments size entry_json ss ++ e ∷ [])
      × AllFit (list_segments d)

  last-Grows :
      (c : List (Segment B)) (s : Segment B) (l : B) (e : WalEntry B)
      → AllFit (c ++ s ∷ [])
      → Fits l
      → entry_json.unmarshal l ≡ some e
      → (read_segments size entry_json (c ++ record s { lines = s.lines ++ l ∷ [] } ∷ [])
          ≡ read_segments size entry_json (c ++ s ∷ []) ++ e ∷ [])
        × AllFit (c ++ record s { lines = s.lines ++ l ∷ [] } ∷ [])
  unfolding read_segments
  last-Grows c s l e h f u =
      let (hc, (hs, _)) = All-split c (s ∷ []) h in
      let old = (read_lines size entry_json s.lines).0 in
      (
        read_segments-append c (record s { lines = s.lines ++ l ∷ [] } ∷ [])
            ∙ ap (λ es. read_segments size entry_json c ++ es)
                (append-nil _
                  ∙ read_lines-snoc s.lines l e hs f u
                  ∙ ap (λ es. es ++ e ∷ []) (sym (append-nil old)))
            ∙ sym (append_assoc (read_segments size entry_json c) (old ++ []) (e ∷ []))
            ∙ ap (λ es. es ++ e ∷ []) (sym (read_segments-append c (s ∷ []))),
        All-join c _ hc (lines-snoc s.lines l hs f, _),
      )

  write_line-Grows :
      (outcome : AppendOutcome) (c : List (Segment B)) (o : Option (Segment B)) (w : WalWriter)
      (l : B) (e : WalEntry B)
      → AllFit (c ++ active_list o)
      → Fits l
      → entry_json.unmarshal l ≡ some e
      → Grows e
          (c ++ active_list o)
          (write_line size entry_json outcome l o (record { closed = c; active = o }) w)
  unfolding list_segments
  write_line-Grows outcome c none w l e h f u = _
  write_line-Grows appended c (some s) w l e h f u = last-Grows c s l e h f u
  write_line-Grows open_fails c (some s) w l e h f u = last-Grows c s l e h f u
  write_line-Grows write_fails c (some s) w l e h f u = _

  first-Grows :
      (ss : List (Segment B)) (n : ℕ) (l : B) (e : WalEntry B)
      → AllFit ss
      → Fits l
      → entry_json.unmarshal l ≡ some e
      → (read_segments size entry_json (ss ++ record { idx = n; lines = l ∷ [] } ∷ [])
          ≡ read_segments size entry_json ss ++ e ∷ [])
        × AllFit (ss ++ record { idx = n; lines = l ∷ [] } ∷ [])
  unfolding read_segments read_lines
  first-Grows ss n l e h f u = (
    read_segments-append ss (record { idx = n; lines = l ∷ [] } ∷ [])
        ∙ ap (λ es. read_segments size entry_json ss ++ es)
            (append-nil _ ∙ read_lines-snoc [] l e _ f u),
    All-join ss _ h ((f, _), _),
  )

  rotated-Grows :
      (outcome : AppendOutcome) (c : List (Segment B)) (o : Option (Segment B)) (w : WalWriter)
      (l : B) (e : WalEntry B)
      → AllFit (c ++ active_list o)
      → Fits l
      → entry_json.unmarshal l ≡ some e
      → Grows e (c ++ active_list o) (
          write_rotated size entry_json outcome l
            (rotate_segment size entry_json outcome (record { closed = c; active = o }) w))
  unfolding list_segments rotate_segment
  rotated-Grows appended c o w l e h f u =
      first-Grows (c ++ active_list o) (w.segment_idx + 1) l e h f u
  rotated-Grows open_fails c o w l e h f u = _
  rotated-Grows write_fails c o w l e h f u = _

  pub append-Grows :
      (outcome : AppendOutcome) (e : WalEntry B) (l : B) (d : LogDir B) (w : WalWriter)
      → entry_json.marshal e ≡ some l
      → AllFit (list_segments d)
      → Fits l
      → entry_json.unmarshal l ≡ some e
      → Grows e (list_segments d) (append size entry_json outcome e d w)
  unfolding append append_line list_segments
  append-Grows outcome e l d w m h f u =
      rw m (split (ltb 0 w.segment_size && ltb max_segment_size (w.segment_size + (size l + 1))))
    where
      split :
          (b : Bool)
          → Grows e (d.closed ++ active_list d.active) (
              if b
              then write_rotated size entry_json outcome l
                  (rotate_segment size entry_json outcome d w)
              else write_line size entry_json outcome l d.active d w)
      split true = rotated-Grows outcome d.closed d.active w l e h f u
      split false = write_line-Grows outcome d.closed d.active w l e h f u

  -- An entry that cannot be encoded is not logged, and that is an error.
  pub append-Grows_unencoded :
      (outcome : AppendOutcome) (e : WalEntry B) (d : LogDir B) (w : WalWriter)
      → entry_json.marshal e ≡ none
      → Grows e (list_segments d) (append size entry_json outcome e d w)
  unfolding append append_line
  append-Grows_unencoded outcome e d w m = rw m _
