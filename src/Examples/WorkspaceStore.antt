-- ===== src/Examples/WorkspaceStore.antt =====
-- A state directory of internal/storage/workspacestore with changes, a compaction and a restart. An
-- encoded value is the value itself.
use monofs.Prelude.{
  ℕ, not, ◌==◌, true, Option, none, some, List, [], ◌∷◌, map, Text, codes, ◌≡◌, refl, ap, ap₂,
  subst, Result, ok, err, arith,
}
use mathlib.Core.Option.{some-injective}
use monofs.Prelude.Int.{ℤ, pos}
use monofs.WorkspaceLog.{WalEntry, WalOp, EntityKind, appended}
use monofs.WorkspaceStore.{
  BundleMetadata, AuditEvent, Checkpoint, CompactedSnapshot, StoreJson, Disk, WorkspaceStore,
  StoreError, no_contents, compacts, upsert_job, insert_audit, insert_ledger,
}
use monofs.WorkspaceRecovery.{Removable, new_store, compact}
use monofs.WorkspaceRecovery.Forget.{Faithful, LinesFit, no_seq}
use monofs.WorkspaceRecovery.Lives.{
  Call, job_call, audit_call, ledger_call, compact_call, restart_call, run_calls, empty_disk,
  Recovers, run_calls-Recovers,
}

data Json : Type 0 where
  job_json : Text → Json
  bundle_json : BundleMetadata → Json
  audit_json : AuditEvent → Json
  entry_json : ℕ → ℤ → WalOp → EntityKind → Json → Json
  snapshot_json : ℕ → ℤ → ℕ → Json → List BundleMetadata → List AuditEvent → Json → Json
  checkpoint_json : Checkpoint → Json
  none_json : Json
  more_json : Json → Json → Json

abbrev array : List Json → Json
array [] = none_json
array (j ∷ js) = more_json j (array js)

abbrev elements : Json → List Json
elements (job_json j) = []
elements (bundle_json b) = []
elements (audit_json e) = []
elements (entry_json n t o k p) = []
elements (snapshot_json v t n js bs es ls) = []
elements (checkpoint_json c) = []
elements none_json = []
elements (more_json j js) = j ∷ elements js

elements-array : (js : List Json) → elements (array js) ≡ js
elements-array [] = refl
elements-array (j ∷ js) = ap (λ xs. j ∷ xs) (elements-array js)

abbrev json_of_entry : WalEntry Json → Json
json_of_entry e = entry_json e.seq e.ts e.op e.kind e.payload

abbrev json_of_snapshot : CompactedSnapshot Json → Json
json_of_snapshot s =
    snapshot_json s.version s.created_unix s.checkpoint_seq (array s.snapshot_jobs)
      s.snapshot_bundles s.snapshot_audit (array s.snapshot_ledger)

abbrev job_of : Json → Option Text
job_of (job_json j) = some j
job_of (bundle_json b) = none
job_of (audit_json e) = none
job_of (entry_json n t o k p) = none
job_of (snapshot_json v t n js bs es ls) = none
job_of (checkpoint_json c) = none
job_of none_json = none
job_of (more_json j js) = none

abbrev bundle_of : Json → Option BundleMetadata
bundle_of (job_json j) = none
bundle_of (bundle_json b) = some b
bundle_of (audit_json e) = none
bundle_of (entry_json n t o k p) = none
bundle_of (snapshot_json v t n js bs es ls) = none
bundle_of (checkpoint_json c) = none
bundle_of none_json = none
bundle_of (more_json j js) = none

abbrev audit_of : Json → Option AuditEvent
audit_of (job_json j) = none
audit_of (bundle_json b) = none
audit_of (audit_json e) = some (no_seq e)
audit_of (entry_json n t o k p) = none
audit_of (snapshot_json v t n js bs es ls) = none
audit_of (checkpoint_json c) = none
audit_of none_json = none
audit_of (more_json j js) = none

abbrev entry_of : Json → Option (WalEntry Json)
entry_of (job_json j) = none
entry_of (bundle_json b) = none
entry_of (audit_json e) = none
entry_of (entry_json n t o k p) = some (record { seq = n; ts = t; op = o; kind = k; payload = p })
entry_of (snapshot_json v t n js bs es ls) = none
entry_of (checkpoint_json c) = none
entry_of none_json = none
entry_of (more_json j js) = none

abbrev snapshot_of : Json → Option (CompactedSnapshot Json)
snapshot_of (job_json j) = none
snapshot_of (bundle_json b) = none
snapshot_of (audit_json e) = none
snapshot_of (entry_json n t o k p) = none
snapshot_of (snapshot_json v t n js bs es ls) = some (record {
  version = v;
  created_unix = t;
  checkpoint_seq = n;
  snapshot_jobs = elements js;
  snapshot_bundles = bs;
  snapshot_audit = map no_seq es;
  snapshot_ledger = elements ls;
})
snapshot_of (checkpoint_json c) = none
snapshot_of none_json = none
snapshot_of (more_json j js) = none

abbrev checkpoint_of : Json → Option Checkpoint
checkpoint_of (job_json j) = none
checkpoint_of (bundle_json b) = none
checkpoint_of (audit_json e) = none
checkpoint_of (entry_json n t o k p) = none
checkpoint_of (snapshot_json v t n js bs es ls) = none
checkpoint_of (checkpoint_json c) = some c
checkpoint_of none_json = none
checkpoint_of (more_json j js) = none

abbrev json : StoreJson Json Text
json = record {
  line_size = λ b. 100;
  id_of_job = λ j. j;
  of_job = record { marshal = λ j. some (job_json j); unmarshal = job_of };
  of_bundle = record { marshal = λ b. some (bundle_json b); unmarshal = bundle_of };
  of_audit = record { marshal = λ e. some (audit_json e); unmarshal = audit_of };
  of_entry = record { marshal = λ e. some (json_of_entry e); unmarshal = entry_of };
  of_snapshot = record { marshal = λ s. some (json_of_snapshot s); unmarshal = snapshot_of };
  of_checkpoint = record { marshal = λ c. some (checkpoint_json c); unmarshal = checkpoint_of };
}

-- Decoding what a total encoding gives.
decodes :
    {A : Type 0} (encode : A → Json) (decode : Json → Option A) (after : A → A)
    → ((a : A) → decode (encode a) ≡ some (after a))
    → (a : A) (b : Json) → some (encode a) ≡ some b
    → decode b ≡ some (after a)
decodes encode decode after h a b e =
    subst (λ x. decode x ≡ some (after a)) (some-injective (encode a) b e) (h a)

abbrev without_seqs : CompactedSnapshot Json → CompactedSnapshot Json
without_seqs s = record s { snapshot_audit = map no_seq s.snapshot_audit }

snapshot_decodes :
    (s : CompactedSnapshot Json) → snapshot_of (json_of_snapshot s) ≡ some (without_seqs s)
snapshot_decodes s =
    ap₂ (λ js ls. some (record (without_seqs s) { snapshot_jobs = js; snapshot_ledger = ls }))
      (elements-array s.snapshot_jobs) (elements-array s.snapshot_ledger)

json-Faithful : Faithful json
json-Faithful = record {
  gives_job = decodes job_json job_of (λ j. j) (λ j. refl);
  gives_bundle = decodes bundle_json bundle_of (λ b. b) (λ b. refl);
  gives_audit = decodes audit_json audit_of no_seq (λ e. refl);
  gives_entry = decodes json_of_entry entry_of (λ e. e) (λ e. refl);
  gives_snapshot = decodes json_of_snapshot snapshot_of without_seqs snapshot_decodes;
  gives_checkpoint = decodes checkpoint_json checkpoint_of (λ c. c) (λ c. refl);
}

json-LinesFit : LinesFit json
json-LinesFit e l m = (omega arith, omega arith)

abbrev approval : AuditEvent
approval = record {
  workspace_id = codes "ws";
  job_id = codes "sync";
  bundle_id = [];
  local_commit_id = [];
  actor_principal_id = codes "ann";
  decision = codes "allow";
  reason_code = [];
  timestamp = pos 7;
  correlation_id = [];
  audit_seq = 0;
}

-- One segment of the log cannot be removed.
abbrev removable : Removable
removable = record { segment_files = λ n. not (n == 1); snapshot_files = λ n. true }

-- Two changes, a compaction, two changes and a restart.
abbrev calls : List (Call Json Text)
calls =
    job_call appended (pos 1) (codes "sync")
    ∷ audit_call appended (pos 2) approval
    ∷ compact_call compacts removable (pos 3)
    ∷ audit_call appended (pos 4) approval
    ∷ ledger_call appended (pos 5) (job_json [])
    ∷ restart_call 0
    ∷ job_call appended (pos 6) (codes "sync")
    ∷ []

abbrev numbers : List AuditEvent → List ℕ
numbers [] = []
numbers (e ∷ es) = e.audit_seq ∷ numbers es

abbrev numbers_of : Result StoreError (WorkspaceStore Json Text × Disk Json) → List ℕ
numbers_of (err e) = []
numbers_of (ok (s, d)) = numbers s.contents.audit_events

abbrev state_of :
    Result StoreError (WorkspaceStore Json Text × Disk Json) → WorkspaceStore Json Text × Disk Json
state_of (err e) = (
  record { compaction_threshold = 0; next_seq = 0; contents = no_contents; wal = none },
  empty_disk,
)
state_of (ok state) = state

-- Audit event 2 lost its number to the compaction and the restart, event 3 has kept it.
numbers_after : numbers_of (run_calls json calls (new_store json 0 empty_disk)) ≡ 0 ∷ 3 ∷ []
unfolding run_calls new_store upsert_job insert_audit compact insert_ledger
numbers_after = refl

abbrev after : WorkspaceStore Json Text × Disk Json
unfolding run_calls new_store upsert_job insert_audit compact insert_ledger
after = state_of (run_calls json calls (new_store json 0 empty_disk))

run_calls-Recovers_example : Recovers json after.0 (new_store json 0 after.1)
unfolding run_calls new_store upsert_job insert_audit compact insert_ledger
run_calls-Recovers_example =
    run_calls-Recovers json json-Faithful json-LinesFit calls 0 0 after.0 after.1 (omega arith) refl
