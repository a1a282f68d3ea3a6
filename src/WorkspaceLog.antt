-- ===== src/WorkspaceLog.antt =====
-- The write-ahead log of workspace state: internal/storage/workspacestore/wal.go. A segment file is
-- the list of its lines, each of an abstract type `B` of values as json.Marshal writes them, which a
-- RawMessage inside another value keeps as they are; JSON is a parameter. The directory holds the
-- closed segments in the order of their indexes and the active one behind them.
pub mod Reading
pub mod Keeping
use monofs.Prelude.{
  ℕ, ◌+◌, ◌*◌, Bool, true, false, not, ◌&&◌, ◌||◌, Option, none, some, List, [], ◌∷◌, ◌++◌, length,
  filter, all, ltb, leb, ◌==◌, if◌then◌else◌, Text,
}
use monofs.Prelude.Int.{ℤ}

-- `EntityKind` and `WalOp` are strings.
pub data EntityKind : Type 0 where
  kind_job kind_bundle kind_audit kind_ledger : EntityKind
  other_kind : Text → EntityKind

pub data WalOp : Type 0 where
  op_upsert op_insert : WalOp
  other_op : Text → WalOp

-- json.Marshal and json.Unmarshal, whose errors are `none`.
pub record Codec (B A : Type 0) : Type 0 where
  pub marshal : A → Option B
  pub unmarshal : B → Option A

pub record WalEntry (B : Type 0) : Type 0 where
  pub seq : ℕ
  pub ts : ℤ
  pub op : WalOp
  pub kind : EntityKind
  pub payload : B

abbrev pub max_segment_size : ℕ
max_segment_size = 64 * 1024 * 1024

-- The limit of the scanner's buffer.
abbrev pub max_line_size : ℕ
max_line_size = 16 * 1024 * 1024

pub record Segment (B : Type 0) : Type 0 where
  pub idx : ℕ
  pub lines : List B

-- The active segment is `none` where its file could not be opened.
pub record LogDir (B : Type 0) : Type 0 where
  pub closed : List (Segment B)
  pub active : Option (Segment B)

pub record WalWriter : Type 0 where
  pub segment_idx : ℕ
  pub segment_size : ℕ

-- How the system calls of an Append end: the opening of the next segment, where one is due, and the
-- write, which leaves no part of a line where it fails.
pub data AppendOutcome : Type 0 where
  appended : AppendOutcome
  open_fails : AppendOutcome
  write_fails : AppendOutcome

pub data WalError : Type 0 where
  marshal_failed rotate_failed write_failed : WalError

module _ {B : Type 0} where
  -- `existing[len(existing)-1]`, or the first segment.
  unfoldable pub split_last : List (Segment B) → List (Segment B) × Segment B
  split_last [] = ([], record { idx = 1; lines = [] })
  split_last (s ∷ []) = ([], s)
  split_last (s ∷ t ∷ ts) = let (init, last) = split_last (t ∷ ts) in (s ∷ init, last)

  -- The listing of the directory, by index.
  abbrev pub active_list : Option (Segment B) → List (Segment B)
  active_list none = []
  active_list (some s) = s ∷ []

  unfoldable pub list_segments : LogDir B → List (Segment B)
  list_segments d = d.closed ++ active_list d.active

module _ {B : Type 0} (size : B → ℕ) (entry_json : Codec B (WalEntry B)) where
  unfoldable pub file_size : List B → ℕ
  file_size [] = 0
  file_size (l ∷ ls) = size l + 1 + file_size ls

  unfoldable pub segments_size : List (Segment B) → ℕ
  unfolding file_size
  segments_size [] = 0
  segments_size (s ∷ ss) = file_size s.lines + segments_size ss

  unfoldable pub total_size : LogDir B → ℕ
  unfolding segments_size list_segments
  total_size d = segments_size (list_segments d)

  abbrev pub opened_last : List (Segment B) × Segment B → LogDir B × WalWriter
  unfolding file_size
  opened_last (init, last) = (
    record { closed = init; active = some last },
    record { segment_idx = last.idx; segment_size = file_size last.lines },
  )

  unfoldable pub new_wal_writer : LogDir B → LogDir B × WalWriter
  unfolding opened_last split_last list_segments
  new_wal_writer d = opened_last (split_last (list_segments d))

  -- Opening the next segment; where that fails, the old file is closed all the same.
  abbrev pub rotate_segment :
      AppendOutcome → LogDir B → WalWriter → LogDir B × WalWriter × Option WalError
  unfolding list_segments
  rotate_segment open_fails d w = (
    record { closed = list_segments d; active = none },
    record w { segment_idx = w.segment_idx + 1 },
    some rotate_failed,
  )
  rotate_segment appended d w = (
    record {
      closed = list_segments d;
      active = some (record { idx = w.segment_idx + 1; lines = [] });
    },
    record { segment_idx = w.segment_idx + 1; segment_size = 0 },
    none,
  )
  rotate_segment write_fails d w = (
    record {
      closed = list_segments d;
      active = some (record { idx = w.segment_idx + 1; lines = [] });
    },
    record { segment_idx = w.segment_idx + 1; segment_size = 0 },
    none,
  )

  -- A write to a file that is closed fails.
  abbrev pub write_line :
      AppendOutcome
      → B
      → Option (Segment B)
      → LogDir B
      → WalWriter
      → LogDir B × WalWriter × Option WalError
  write_line outcome line none d w = (d, w, some write_failed)
  write_line appended line (some s) d w = (
    record d { active = some (record s { lines = s.lines ++ line ∷ [] }) },
    record w { segment_size = w.segment_size + (size line + 1) },
    none,
  )
  write_line open_fails line (some s) d w = (
    record d { active = some (record s { lines = s.lines ++ line ∷ [] }) },
    record w { segment_size = w.segment_size + (size line + 1) },
    none,
  )
  write_line write_fails line (some s) d w = (d, w, some write_failed)

  abbrev pub write_rotated :
      AppendOutcome
      → B
      → LogDir B × WalWriter × Option WalError
      → LogDir B × WalWriter × Option WalError
  write_rotated outcome line (d, w, some e) = (d, w, some e)
  write_rotated outcome line (d, w, none) = write_line outcome line d.active d w

  abbrev pub append_line :
      AppendOutcome → Option B → LogDir B → WalWriter → LogDir B × WalWriter × Option WalError
  unfolding rotate_segment
  append_line outcome none d w = (d, w, some marshal_failed)
  append_line outcome (some line) d w =
      if ltb 0 w.segment_size && ltb max_segment_size (w.segment_size + (size line + 1))
      then write_rotated outcome line (rotate_segment outcome d w)
      else write_line outcome line d.active d w

  -- `Append`.
  unfoldable pub append :
      AppendOutcome → WalEntry B → LogDir B → WalWriter → LogDir B × WalWriter × Option WalError
  unfolding append_line
  append outcome entry d w = append_line outcome (entry_json.marshal entry) d w

  -- `readSegmentEntries`: the entries, and whether the scan ended at a line that is too long. Empty
  -- lines and lines that do not decode are skipped.
  abbrev pub keep_entry : Option (WalEntry B) → List (WalEntry B) → List (WalEntry B)
  keep_entry none es = es
  keep_entry (some e) es = e ∷ es

  unfoldable pub read_lines : List B → List (WalEntry B) × Bool
  read_lines [] = ([], false)
  read_lines (l ∷ ls) =
      let (es, too_long) = read_lines ls in
      if leb max_line_size (size l)
      then ([], true)
      else if size l == 0
      then (es, too_long)
      else (keep_entry (entry_json.unmarshal l) es, too_long)

  -- The error of a line that is too long counts as recoverable: what was read before it is used.
  unfoldable pub read_segments : List (Segment B) → List (WalEntry B)
  unfolding read_lines
  read_segments [] = []
  read_segments (s ∷ ss) = (read_lines s.lines).0 ++ read_segments ss

  -- `sort.Slice` by sequence number; no two entries share one, so that it leaves no order open.
  abbrev pub insert_by_seq : WalEntry B → List (WalEntry B) → List (WalEntry B)
  insert_by_seq e [] = e ∷ []
  insert_by_seq e (x ∷ xs) =
      let rest = insert_by_seq e xs in if leb e.seq x.seq then e ∷ x ∷ xs else x ∷ rest

  unfoldable pub sort_by_seq : List (WalEntry B) → List (WalEntry B)
  sort_by_seq [] = []
  sort_by_seq (e ∷ es) = insert_by_seq e (sort_by_seq es)

  unfoldable pub replay_entries : ℕ → LogDir B → List (WalEntry B)
  unfolding sort_by_seq read_segments list_segments
  replay_entries above d =
      sort_by_seq (filter (λ e. ltb above e.seq) (read_segments (list_segments d)))

  -- Whether a closed segment goes: `removable` says which files os.Remove can remove.
  unfoldable pub is_deleted : (ℕ → Bool) → ℕ → Segment B → Bool
  unfolding read_lines
  is_deleted removable below s =
      let (es, too_long) = read_lines s.lines in
      not too_long && (all (λ e. leb e.seq below) es && (ltb 0 (length es) && removable s.idx))

  unfoldable pub delete_segments_below : (ℕ → Bool) → ℕ → LogDir B → LogDir B
  unfolding is_deleted
  delete_segments_below removable below d = record d {
    closed = filter (λ s. not (is_deleted removable below s)) d.closed;
  }
