-- ===== src/WorkspaceStore.antt =====
-- The store of workspace state: internal/storage/workspacestore/{types, store}.go. It keeps jobs,
-- bundles, audit events and ledger entries in memory, logs each change, and is rebuilt at a start
-- from a snapshot and the log. The methods run one after the other here. `Job` stands for the
-- generated message WorkspaceSyncJob, `B` for encoded values; JSON is a parameter.

use monofs.Prelude.{
  ℕ, ◌+◌, ◌-◌, ◌%◌, ◌^◌, Bool, Option, none, some, List, [], ◌∷◌, ◌++◌, filter, length,
  if◌then◌else◌, Text, text_eq,
}
use monofs.Prelude.Int.{ℤ}
use monofs.WorkspaceLog.{
  Codec, WalEntry, WalWriter, LogDir, AppendOutcome, WalError, EntityKind, kind_job, kind_bundle,
  kind_audit, kind_ledger, WalOp, op_upsert, op_insert, append,
}

pub record BundleMetadata : Type 0 where
  pub bundle_id : Text
  pub workspace_id : Text
  pub bundle_kind : Text
  pub byte_size : ℤ
  pub repo_count : ℤ
  pub local_commit_ids : List Text
  pub created_at_unix : ℤ
  pub expires_at_unix : ℤ
  pub discard_reason : Text
  pub job_id : Text

pub record AuditEvent : Type 0 where
  pub workspace_id : Text
  pub job_id : Text
  pub bundle_id : Text
  pub local_commit_id : Text
  pub actor_principal_id : Text
  pub decision : Text
  pub reason_code : Text
  pub timestamp : ℤ
  pub correlation_id : Text
  pub audit_seq : ℕ

-- What the store keeps, its maps as lists without a key twice.
pub record Contents (B Job : Type 0) : Type 0 where
  pub jobs : List Job
  pub bundles : List BundleMetadata
  pub audit_events : List AuditEvent
  pub ledger_entries : List B

-- A snapshot file is named after the sequence number in its name.
pub record Checkpoint : Type 0 where
  pub last_compacted_seq : ℕ
  pub snapshot_file : Option ℕ

pub record CompactedSnapshot (B : Type 0) : Type 0 where
  pub version : ℕ
  pub created_unix : ℤ
  pub checkpoint_seq : ℕ
  pub snapshot_jobs : List B
  pub snapshot_bundles : List BundleMetadata
  pub snapshot_audit : List AuditEvent
  pub snapshot_ledger : List B

pub record StoreJson (B Job : Type 0) : Type 0 where
  pub line_size : B → ℕ
  pub id_of_job : Job → Text
  pub of_job : Codec B Job
  pub of_bundle : Codec B BundleMetadata
  pub of_audit : Codec B AuditEvent
  pub of_entry : Codec B (WalEntry B)
  pub of_snapshot : Codec B (CompactedSnapshot B)
  pub of_checkpoint : Codec B Checkpoint

-- The checkpoint file, the snapshot files by their numbers, and the log.
pub record Disk (B : Type 0) : Type 0 where
  pub checkpoint_file : Option B
  pub snapshots : List (ℕ × B)
  pub log : LogDir B

pub record WorkspaceStore (B Job : Type 0) : Type 0 where
  pub compaction_threshold : ℕ
  pub next_seq : ℕ  -- uint64
  pub contents : Contents B Job
  pub wal : Option WalWriter

pub data StoreError : Type 0 where
  encode_failed : StoreError
  wal_failed : WalError → StoreError
  snapshot_missing snapshot_corrupt : ℕ → StoreError
  snapshot_version : ℕ → StoreError
  snapshot_write_failed checkpoint_write_failed : StoreError

-- How the writing of the snapshot and of the checkpoint ends; both go by a temporary file.
pub data CompactOutcome : Type 0 where
  snapshot_fails checkpoint_fails compacts : CompactOutcome

-- A map's `m[key] = value`, the key being part of the value.
unfoldable pub put_by {ℓ} : {A : Type ℓ} → (A → Text) → A → List A → List A
put_by key a [] = a ∷ []
put_by key a (x ∷ xs) =
    let rest = put_by key a xs in if text_eq (key x) (key a) then a ∷ xs else x ∷ rest

unfoldable pub find_by {ℓ} : {A : Type ℓ} → (A → Text) → Text → List A → Option A
find_by key k [] = none
find_by key k (x ∷ xs) = let rest = find_by key k xs in if text_eq (key x) k then some x else rest

abbrev pub bundle_key : BundleMetadata → Text
bundle_key b = b.bundle_id

abbrev pub no_contents : {B Job : Type 0} → Contents B Job
no_contents = record { jobs = []; bundles = []; audit_events = []; ledger_entries = [] }

-- `nextSeq++` and `nextSeq - 1` on uint64.
abbrev pub seq_after : ℕ → ℕ
seq_after n = (n + 1) % 2 ^ 64

abbrev pub seq_before : ℕ → ℕ
seq_before n = (n + 2 ^ 64 - 1) % 2 ^ 64

module _ {B Job : Type 0} (json : StoreJson B Job) where
  abbrev pub put_job : Job → Contents B Job → Contents B Job
  unfolding put_by
  put_job j c = record c { jobs = put_by json.id_of_job j c.jobs }

  abbrev pub put_bundle : BundleMetadata → Contents B Job → Contents B Job
  unfolding put_by
  put_bundle b c = record c { bundles = put_by bundle_key b c.bundles }

  abbrev pub add_audit : ℕ → AuditEvent → Contents B Job → Contents B Job
  add_audit seq e c = record c {
    audit_events = c.audit_events ++ record e { audit_seq = seq } ∷ [];
  }

  abbrev pub add_ledger : B → Contents B Job → Contents B Job
  add_ledger entry c = record c { ledger_entries = c.ledger_entries ++ entry ∷ [] }

  -- A change in memory takes a sequence number, and its entry goes to the log, if there is one.
  abbrev pub logged :
      LogDir B × WalWriter × Option WalError
      → WorkspaceStore B Job
      → Disk B
      → WorkspaceStore B Job × Disk B × Option StoreError
  logged (l, w, none) s d = (record s { wal = some w }, record d { log = l }, none)
  logged (l, w, some e) s d = (record s { wal = some w }, record d { log = l }, some (wal_failed e))

  abbrev pub write_wal :
      AppendOutcome
      → WalEntry B
      → Option WalWriter
      → WorkspaceStore B Job
      → Disk B
      → WorkspaceStore B Job × Disk B × Option StoreError
  unfolding append
  write_wal outcome entry none s d = (s, d, none)
  write_wal outcome entry (some w) s d =
      logged (append json.line_size json.of_entry outcome entry d.log w) s d

  abbrev pub change :
      AppendOutcome
      → ℤ
      → WalOp
      → EntityKind
      → Option B
      → Contents B Job
      → WorkspaceStore B Job
      → Disk B
      → WorkspaceStore B Job × Disk B × Option StoreError
  unfolding write_wal
  change outcome now op kind none contents s d = (s, d, some encode_failed)
  change outcome now op kind (some payload) contents s d =
      write_wal outcome
        (record { seq = s.next_seq; ts = now; op = op; kind = kind; payload = payload }) s.wal
        (record s { next_seq = seq_after s.next_seq; contents = contents }) d

  unfoldable pub upsert_job :
      AppendOutcome
      → ℤ
      → Job
      → WorkspaceStore B Job
      → Disk B
      → WorkspaceStore B Job × Disk B × Option StoreError
  unfolding change put_job
  upsert_job outcome now j s d =
      change outcome now op_upsert kind_job (json.of_job.marshal j) (put_job j s.contents) s d

  unfoldable pub upsert_bundle :
      AppendOutcome
      → ℤ
      → BundleMetadata
      → WorkspaceStore B Job
      → Disk B
      → WorkspaceStore B Job × Disk B × Option StoreError
  unfolding change put_bundle
  upsert_bundle outcome now b s d =
      change outcome now op_upsert kind_bundle (json.of_bundle.marshal b) (put_bundle b s.contents)
        s d

  unfoldable pub insert_audit :
      AppendOutcome
      → ℤ
      → AuditEvent
      → WorkspaceStore B Job
      → Disk B
      → WorkspaceStore B Job × Disk B × Option StoreError
  unfolding change
  insert_audit outcome now e s d =
      change outcome now op_insert kind_audit (json.of_audit.marshal e)
        (add_audit s.next_seq e s.contents) s d

  unfoldable pub insert_ledger :
      AppendOutcome
      → ℤ
      → B
      → WorkspaceStore B Job
      → Disk B
      → WorkspaceStore B Job × Disk B × Option StoreError
  unfolding change
  insert_ledger outcome now entry s d =
      change outcome now op_insert kind_ledger (some entry) (add_ledger entry s.contents) s d

  unfoldable pub get_job : Text → WorkspaceStore B Job → Option Job
  unfolding find_by
  get_job id s = find_by json.id_of_job id s.contents.jobs

  unfoldable pub get_bundle : Text → WorkspaceStore B Job → Option BundleMetadata
  unfolding find_by
  get_bundle id s = find_by bundle_key id s.contents.bundles

  abbrev pub keep_jobs : Option (Job → Bool) → List Job → List Job
  keep_jobs none js = js
  keep_jobs (some keep) js = filter keep js

  unfoldable pub list_jobs : Option (Job → Bool) → WorkspaceStore B Job → List Job
  list_jobs keep s = keep_jobs keep s.contents.jobs

  unfoldable pub job_count : WorkspaceStore B Job → ℕ
  job_count s = length s.contents.jobs

  unfoldable pub list_audit_events : WorkspaceStore B Job → List AuditEvent
  list_audit_events s = s.contents.audit_events
