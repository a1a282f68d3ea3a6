-- ===== src/WorkspaceRecovery.antt =====
-- Compaction and recovery of workspace state: compact, recover and New of
-- internal/storage/workspacestore/store.go. A Go map is read out in the order of the list; that
-- order is open, and what is read out goes into a map again. Reading a file that is there succeeds.
pub mod Forget
pub mod Loading
pub mod Invariant
pub mod Changes
pub mod Compacting
pub mod Restart
pub mod Lives
use monofs.Prelude.{
  ℕ, ◌+◌, ◌-◌, ◌%◌, ◌^◌, Bool, true, false, not, ◌||◌, Option, none, some, List, [], ◌∷◌, ◌++◌,
  filter, ltb, leb, ◌==◌, if◌then◌else◌, Text, text_eq, Result, ok, err,
}
use monofs.Prelude.Int.{ℤ}
use monofs.WorkspaceLog.{
  WalEntry, WalWriter, EntityKind, kind_job, kind_bundle, kind_audit, kind_ledger, other_kind,
  WalOp, op_upsert, op_insert, other_op, total_size, new_wal_writer, replay_entries,
  delete_segments_below,
}
use monofs.WorkspaceStore.{
  BundleMetadata, AuditEvent, Contents, Checkpoint, CompactedSnapshot, StoreJson, Disk,
  WorkspaceStore, StoreError, snapshot_missing, snapshot_corrupt, snapshot_version, encode_failed,
  snapshot_write_failed, checkpoint_write_failed, CompactOutcome, snapshot_fails, checkpoint_fails,
  compacts, put_by, bundle_key, no_contents, seq_after, seq_before, put_job, put_bundle, add_audit,
  add_ledger,
}

-- The file of a number, the first that was put; writing replaces it.
unfoldable pub find_file : {B : Type 0} → ℕ → List (ℕ × B) → Option B
find_file n [] = none
find_file n ((k, b) ∷ fs) = let rest = find_file n fs in if k == n then some b else rest

-- Which segments of the log, and which snapshots, os.Remove can remove.
pub record Removable : Type 0 where
  pub segment_files : ℕ → Bool
  pub snapshot_files : ℕ → Bool

module _ {B Job : Type 0} (json : StoreJson B Job) where
  abbrev pub put_decoded :
      {A : Type 0}
      → (A → Contents B Job → Contents B Job)
      → Option A
      → Contents B Job
      → Option (Contents B Job)
  put_decoded put none c = none
  put_decoded put (some a) c = some (put a c)

  -- What an entry does to the contents; `none` where the loop goes on to the next entry, an
  -- operation that does not fit the kind or data that does not decode.
  abbrev pub apply_kind : EntityKind → WalOp → WalEntry B → Contents B Job → Option (Contents B Job)
  apply_kind kind_job op_upsert e c = put_decoded (put_job json) (json.of_job.unmarshal e.payload) c
  apply_kind kind_job op_insert e c = none
  apply_kind kind_job (other_op t) e c = none
  apply_kind kind_bundle op_upsert e c =
      put_decoded (put_bundle json) (json.of_bundle.unmarshal e.payload) c
  apply_kind kind_bundle op_insert e c = none
  apply_kind kind_bundle (other_op t) e c = none
  apply_kind kind_audit op_insert e c =
      put_decoded (add_audit json e.seq) (json.of_audit.unmarshal e.payload) c
  apply_kind kind_audit op_upsert e c = none
  apply_kind kind_audit (other_op t) e c = none
  apply_kind kind_ledger op_insert e c = some (add_ledger json e.payload c)
  apply_kind kind_ledger op_upsert e c = none
  apply_kind kind_ledger (other_op t) e c = none
  apply_kind (other_kind k) op e c = some c

  abbrev pub recovered : ℕ → Option (Contents B Job) → Contents B Job × ℕ → Contents B Job × ℕ
  recovered seq none (c, next) = (c, next)
  recovered seq (some c') (c, next) = (c', if leb next seq then seq_after seq else next)

  -- The loop of `recover`, on the contents and `nextSeq`.
  unfoldable pub replay_all : List (WalEntry B) → Contents B Job × ℕ → Contents B Job × ℕ
  replay_all [] state = state
  replay_all (e ∷ es) (c, next) =
      replay_all es (recovered e.seq (apply_kind e.kind e.op e c) (c, next))

  -- The jobs of a snapshot that decode.
  abbrev pub put_job_bytes : Option Job → Contents B Job → Contents B Job
  put_job_bytes none c = c
  put_job_bytes (some j) c = put_job json j c

  unfoldable pub load_jobs : List B → Contents B Job → Contents B Job
  unfolding put_by
  load_jobs [] c = c
  load_jobs (b ∷ bs) c = load_jobs bs (put_job_bytes (json.of_job.unmarshal b) c)

  unfoldable pub load_bundles : List BundleMetadata → Contents B Job → Contents B Job
  unfolding put_by
  load_bundles [] c = c
  load_bundles (b ∷ bs) c = load_bundles bs (put_bundle json b c)

  abbrev pub load_contents : CompactedSnapshot B → Contents B Job
  unfolding load_jobs load_bundles
  load_contents snap =
      record (load_bundles snap.snapshot_bundles (load_jobs snap.snapshot_jobs no_contents)) {
        audit_events = snap.snapshot_audit;
        ledger_entries = snap.snapshot_ledger;
      }

  abbrev pub load_decoded :
      ℕ → Option (CompactedSnapshot B) → ℕ → Result StoreError (Contents B Job × ℕ)
  unfolding load_contents
  load_decoded file none next = err (snapshot_corrupt file)
  load_decoded file (some snap) next =
      if snap.version == 1
      then ok (
        load_contents snap,
        if leb next snap.checkpoint_seq then seq_after snap.checkpoint_seq else next,
      )
      else err (snapshot_version snap.version)

  abbrev pub load_found : ℕ → Option B → ℕ → Result StoreError (Contents B Job × ℕ)
  unfolding load_decoded
  load_found file none next = err (snapshot_missing file)
  load_found file (some bytes) next = load_decoded file (json.of_snapshot.unmarshal bytes) next

  abbrev pub file_of : Checkpoint → Option ℕ → ℕ
  file_of chk none = chk.last_compacted_seq
  file_of chk (some file) = file

  -- `loadSnapshot` for a store that starts empty.
  abbrev pub load_snapshot : Checkpoint → Disk B → ℕ → Result StoreError (Contents B Job × ℕ)
  unfolding load_found find_file
  load_snapshot chk d next =
      if chk.last_compacted_seq == 0
      then ok (no_contents, next)
      else load_found (file_of chk chk.snapshot_file)
          (find_file (file_of chk chk.snapshot_file) d.snapshots) next

  abbrev pub past_checkpoint :
      ℕ → Result StoreError (Contents B Job × ℕ) → Result StoreError (Contents B Job × ℕ × ℕ)
  past_checkpoint last (err e) = err e
  past_checkpoint last (ok (c, next)) = ok (c, last, if leb next last then seq_after last else next)

  -- The contents and the numbers with which the replay starts: from which entry on, and `nextSeq`.
  abbrev pub checkpointed : Option Checkpoint → Disk B → Result StoreError (Contents B Job × ℕ × ℕ)
  unfolding load_snapshot
  checkpointed none d = ok (no_contents, 0, 1)
  checkpointed (some chk) d = past_checkpoint chk.last_compacted_seq (load_snapshot chk d 1)

  -- `loadCheckpoint`: a corrupt file counts as none.
  abbrev pub read_checkpoint : Option B → Option Checkpoint
  read_checkpoint none = none
  read_checkpoint (some bytes) = json.of_checkpoint.unmarshal bytes

  unfoldable pub load_base : Disk B → Result StoreError (Contents B Job × ℕ × ℕ)
  unfolding checkpointed
  load_base d = checkpointed (read_checkpoint d.checkpoint_file) d

  abbrev pub replayed :
      ℕ
      → Result StoreError (Contents B Job × ℕ × ℕ)
      → Disk B
      → Result StoreError (WorkspaceStore B Job × Disk B)
  unfolding replay_all replay_entries new_wal_writer
  replayed threshold (err e) d = err e
  replayed threshold (ok (base, from, next)) d =
      let (log, writer) = new_wal_writer json.line_size json.of_entry d.log in
      let (c, next') =
        replay_all (replay_entries json.line_size json.of_entry from log) (base, next) in
      ok (
        record {
          compaction_threshold = threshold;
          next_seq = next';
          contents = c;
          wal = some writer;
        },
        record d { log = log },
      )

  -- `New` on a state directory.
  unfoldable pub new_store : ℕ → Disk B → Result StoreError (WorkspaceStore B Job × Disk B)
  unfolding replayed load_base
  new_store threshold d = replayed threshold (load_base d) d

  abbrev pub keep_bytes : Option B → List B → List B
  keep_bytes none bs = bs
  keep_bytes (some b) bs = b ∷ bs

  unfoldable pub snapshot_all : List Job → List B
  snapshot_all [] = []
  snapshot_all (j ∷ js) = keep_bytes (json.of_job.marshal j) (snapshot_all js)

  unfoldable pub take_snapshot : ℤ → ℕ → Contents B Job → CompactedSnapshot B
  unfolding snapshot_all
  take_snapshot now seq c = record {
    version = 1;
    created_unix = now;
    checkpoint_seq = seq;
    snapshot_jobs = snapshot_all c.jobs;
    snapshot_bundles = c.bundles;
    snapshot_audit = c.audit_events;
    snapshot_ledger = c.ledger_entries;
  }

  -- `cleanupOldSnapshots`: `removable` says which snapshots os.Remove can remove.
  abbrev pub cleanup_old_snapshots : (ℕ → Bool) → ℕ → List (ℕ × B) → List (ℕ × B)
  cleanup_old_snapshots removable current files =
      filter (λ (f : ℕ × B). f.0 == current || not (removable f.0)) files

  -- The file that `writeSnapshot` leaves, by its renaming.
  abbrev pub put_snapshot : ℕ → B → Disk B → Disk B
  put_snapshot seq bytes d = record d { snapshots = (seq, bytes) ∷ d.snapshots }

  -- Writing the checkpoint, and dropping what it makes superfluous.
  abbrev pub write_checkpoint :
      CompactOutcome → Removable → ℕ → Option B → Disk B → Disk B × Option StoreError
  unfolding delete_segments_below
  write_checkpoint outcome removable seq none d = (d, some encode_failed)
  write_checkpoint snapshot_fails removable seq (some bytes) d = (d, some snapshot_write_failed)
  write_checkpoint checkpoint_fails removable seq (some bytes) d = (d, some checkpoint_write_failed)
  write_checkpoint compacts removable seq (some bytes) d = (
    record d {
      checkpoint_file = some bytes;
      snapshots = cleanup_old_snapshots removable.snapshot_files seq d.snapshots;
      log = delete_segments_below json.line_size json.of_entry removable.segment_files seq d.log;
    },
    none,
  )

  abbrev pub write_snapshot :
      CompactOutcome → Removable → ℕ → Option B → Disk B → Disk B × Option StoreError
  unfolding write_checkpoint
  write_snapshot outcome removable seq none d = (d, some encode_failed)
  write_snapshot snapshot_fails removable seq (some bytes) d = (d, some snapshot_write_failed)
  write_snapshot checkpoint_fails removable seq (some bytes) d =
      (put_snapshot seq bytes d, some checkpoint_write_failed)
  write_snapshot compacts removable seq (some bytes) d =
      write_checkpoint compacts removable seq
        (json.of_checkpoint.marshal (record { last_compacted_seq = seq; snapshot_file = some seq }))
        (put_snapshot seq bytes d)

  abbrev pub compact_from :
      CompactOutcome
      → Removable
      → ℤ
      → ℕ
      → WorkspaceStore B Job
      → Disk B
      → Disk B × Option StoreError
  unfolding write_snapshot take_snapshot
  compact_from outcome removable now seq s d =
      if ltb seq 1
      then (d, none)
      else write_snapshot outcome removable seq
          (json.of_snapshot.marshal (take_snapshot now seq s.contents)) d

  -- `compact`, which leaves the store in memory as it is.
  abbrev pub compact_wal :
      Option WalWriter
      → CompactOutcome
      → Removable
      → ℤ
      → WorkspaceStore B Job
      → Disk B
      → Disk B × Option StoreError
  unfolding compact_from total_size
  compact_wal none outcome removable now s d = (d, none)
  compact_wal (some w) outcome removable now s d =
      if ltb (total_size json.line_size json.of_entry d.log) s.compaction_threshold
      then (d, none)
      else compact_from outcome removable now (seq_before s.next_seq) s d

  unfoldable pub compact :
      CompactOutcome → Removable → ℤ → WorkspaceStore B Job → Disk B → Disk B × Option StoreError
  unfolding compact_wal
  compact outcome removable now s d = compact_wal s.wal outcome removable now s d
