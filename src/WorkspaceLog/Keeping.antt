-- ===== src/WorkspaceLog/Keeping.antt =====
-- What a start and a deletion leave of the log of internal/storage/workspacestore/wal.go.
use monofs.Prelude.{
  ℕ, suc, ◌<◌, Bool, true, false, not, List, [], ◌∷◌, ◌++◌, filter, ltb, Bool-cases, ◌≡◌, refl, sym,
  ap, subst, inl, inr, arith,
}
use monofs.WorkspaceLog.{
  Codec, WalEntry, Segment, LogDir, split_last, active_list, list_segments, new_wal_writer,
  read_lines, read_segments, is_deleted, delete_segments_below, replay_entries,
}
use monofs.WorkspaceLog.Reading.{
  Below, Ascending, Below-append, AllFit, read_segments-append, All-split, All-join,
  sort_by_seq-Ascending,
}

-- The entries above a number.
abbrev pub above : {B : Type 0} → ℕ → List (WalEntry B) → List (WalEntry B)
above n es = filter (λ e. ltb n e.seq) es

pub above_none : {B : Type 0} (n : ℕ) (es : List (WalEntry B)) → Below (suc n) es → above n es ≡ []
above_none n [] h = refl
above_none n (e ∷ es) (he, h) =
    let under : ltb n e.seq ≡ false = ground arith in simp (under, above_none n es h)

pub above-snoc :
    {B : Type 0} (n : ℕ) (es : List (WalEntry B)) (e : WalEntry B)
    → n < e.seq
    → above n (es ++ e ∷ []) ≡ above n es ++ e ∷ []
above-snoc n [] e h = let over : ltb n e.seq ≡ true = ground arith in simp over
above-snoc n (x ∷ es) e h = elim (Bool-cases (ltb n x.seq)) [
  | inl t ↦ simp (t, above-snoc n es e h)
  | inr f ↦ simp (f, above-snoc n es e h)
]

pub Below-above :
    {B : Type 0} (n m : ℕ) (es : List (WalEntry B)) → Below m es → Below m (above n es)
Below-above n m [] h = _
Below-above n m (x ∷ es) (hx, h) = elim (Bool-cases (ltb n x.seq)) [
  | inl t ↦ simp t (hx, Below-above n m es h)
  | inr f ↦ simp f (Below-above n m es h)
]

Below-split :
    {B : Type 0} (n : ℕ) (xs ys : List (WalEntry B)) → Below n (xs ++ ys) → Below n xs × Below n ys
Below-split n [] ys h = (_, h)
Below-split n (x ∷ xs) ys (hx, h) = let (a, b) = Below-split n xs ys h in ((hx, a), b)

module _ {B : Type 0} (size : B → ℕ) (entry_json : Codec B (WalEntry B)) where
  abbrev pub reads : List (Segment B) → List (WalEntry B)
  reads ss = read_segments size entry_json ss

  Below-reads-filter :
      (n : ℕ) (q : Segment B → Bool) (ss : List (Segment B))
      → Below n (reads ss)
      → Below n (reads (filter q ss))
  unfolding read_segments
  Below-reads-filter n q [] h = h
  Below-reads-filter n q (s ∷ ss) h =
      let (hs, hss) = Below-split n (read_lines size entry_json s.lines).0 (reads ss) h in
      elim (Bool-cases (q s)) [
        | inl t ↦ simp t (Below-append n _ _ hs (Below-reads-filter n q ss hss))
        | inr f ↦ simp f (Below-reads-filter n q ss hss)
      ]

  AllFit-filter :
      (q : Segment B → Bool) (ss : List (Segment B))
      → AllFit size entry_json ss
      → AllFit size entry_json (filter q ss)
  AllFit-filter q [] h = _
  AllFit-filter q (s ∷ ss) (hs, h) = elim (Bool-cases (q s)) [
    | inl t ↦ simp t (hs, AllFit-filter q ss h)
    | inr f ↦ simp f (AllFit-filter q ss h)
  ]

  -- A deletion leaves no other entries than there were.
  pub delete-Below :
      (removable : ℕ → Bool) (below n : ℕ) (d : LogDir B)
      → Below n (reads (list_segments d))
      → Below n (reads (list_segments (delete_segments_below size entry_json removable below d)))
  unfolding list_segments delete_segments_below
  delete-Below removable below n d h =
      let q = λ (s : Segment B). not (is_deleted size entry_json removable below s) in
      let split = read_segments-append size entry_json d.closed (active_list d.active) in
      let (hc, ha) =
        Below-split n (reads d.closed) (reads (active_list d.active)) (subst (Below n) split h) in
      subst (Below n)
        (sym (read_segments-append size entry_json (filter q d.closed) (active_list d.active)))
        (Below-append n _ _ (Below-reads-filter n q d.closed hc) ha)

  pub delete-AllFit :
      (removable : ℕ → Bool) (below : ℕ) (d : LogDir B)
      → AllFit size entry_json (list_segments d)
      → AllFit size entry_json
          (list_segments (delete_segments_below size entry_json removable below d))
  unfolding list_segments delete_segments_below
  delete-AllFit removable below d h =
      let (hc, ha) = All-split size entry_json d.closed (active_list d.active) h in
      All-join size entry_json _ _
        (AllFit-filter (λ s. not (is_deleted size entry_json removable below s)) d.closed hc) ha

  -- A start finds the entries that were there.
  split_last-reads :
      (ss : List (Segment B))
      → AllFit size entry_json ss
      → (reads ((split_last ss).0 ++ (split_last ss).1 ∷ []) ≡ reads ss)
        × AllFit size entry_json ((split_last ss).0 ++ (split_last ss).1 ∷ [])
  unfolding split_last read_segments read_lines
  split_last-reads [] h = (refl, (_, _))
  split_last-reads (s ∷ []) h = (refl, h)
  split_last-reads (s ∷ t ∷ ts) (hs, h) =
      let (r, f) = split_last-reads (t ∷ ts) h in
      (ap (λ es. (read_lines size entry_json s.lines).0 ++ es) r, (hs, f))

  pub new_wal_writer-reads :
      (d : LogDir B)
      → AllFit size entry_json (list_segments d)
      → (reads (list_segments (new_wal_writer size entry_json d).0) ≡ reads (list_segments d))
        × AllFit size entry_json (list_segments (new_wal_writer size entry_json d).0)
  unfolding new_wal_writer list_segments
  new_wal_writer-reads d h = split_last-reads (d.closed ++ active_list d.active) h

  -- The replay is what is read above the number, where that rises.
  pub replay_entries-above :
      (n : ℕ) (d : LogDir B)
      → Ascending (above n (reads (list_segments d)))
      → replay_entries size entry_json n d ≡ above n (reads (list_segments d))
  unfolding replay_entries
  replay_entries-above n d h = sort_by_seq-Ascending size entry_json _ h
