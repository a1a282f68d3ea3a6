-- ===== src/WorkspaceRecovery/Lives.antt =====
-- The lives of a state directory of internal/storage/workspacestore/store.go: starts, changes and
-- compactions in any order. A method's error ends a life; an error of the compaction is only logged.
use monofs.Prelude.{
  ℕ, suc, ◌+◌, ◌^◌, ◌<◌, ◌≤◌, Option, none, some, List, [], ◌∷◌, length, ◌≡◌, refl, sym, subst,
  arith, inl, Result, ok, err,
}
use monofs.Prelude.Int.{ℤ}
use monofs.WorkspaceLog.{
  AppendOutcome, WalOp, EntityKind, kind_job, kind_bundle, kind_audit, kind_ledger, append,
  op_upsert, op_insert, list_segments, new_wal_writer, split_last, read_segments, read_lines,
  replay_entries, sort_by_seq,
}
use monofs.WorkspaceStore.{
  BundleMetadata, AuditEvent, Contents, StoreJson, Disk, WorkspaceStore, StoreError, CompactOutcome,
  put_by, no_contents, put_job, put_bundle, add_audit, add_ledger, change, upsert_job,
  upsert_bundle, insert_audit, insert_ledger,
}
use monofs.WorkspaceRecovery.{Removable, replay_all, replayed, load_base, new_store, compact}
use monofs.WorkspaceRecovery.Forget.{
  Faithful, LinesFit, Repeats, forget_seqs, job-Repeats, bundle-Repeats, audit-Repeats,
  ledger-Repeats,
}
use monofs.WorkspaceRecovery.Loading.{IsKept, put_job-IsKept, put_bundle-IsKept}
use monofs.WorkspaceRecovery.Invariant.{IsRecoverable}
use monofs.WorkspaceRecovery.Changes.{Leaves, change-Leaves}
use monofs.WorkspaceRecovery.Compacting.{compact-IsRecoverable}
use monofs.WorkspaceRecovery.Restart.{IsKept-jobs, restart}

-- What happens to a state directory, with the outcomes of the system calls.
pub data Call (B Job : Type 0) : Type 0 where
  job_call : AppendOutcome → ℤ → Job → Call B Job
  bundle_call : AppendOutcome → ℤ → BundleMetadata → Call B Job
  audit_call : AppendOutcome → ℤ → AuditEvent → Call B Job
  ledger_call : AppendOutcome → ℤ → B → Call B Job
  compact_call : CompactOutcome → Removable → ℤ → Call B Job
  restart_call : ℕ → Call B Job

abbrev pub empty_disk : {B : Type 0} → Disk B
empty_disk = record {
  checkpoint_file = none;
  snapshots = [];
  log = record { closed = []; active = none };
}

module _ {B Job : Type 0} (json : StoreJson B Job) where
  abbrev pub succeeded :
      WorkspaceStore B Job × Disk B × Option StoreError
      → Result StoreError (WorkspaceStore B Job × Disk B)
  succeeded (s, d, none) = ok (s, d)
  succeeded (s, d, some e) = err e

  unfoldable pub perform :
      Call B Job → WorkspaceStore B Job × Disk B → Result StoreError (WorkspaceStore B Job × Disk B)
  perform (job_call outcome now j) (s, d) = succeeded (upsert_job json outcome now j s d)
  perform (bundle_call outcome now b) (s, d) = succeeded (upsert_bundle json outcome now b s d)
  perform (audit_call outcome now e) (s, d) = succeeded (insert_audit json outcome now e s d)
  perform (ledger_call outcome now e) (s, d) = succeeded (insert_ledger json outcome now e s d)
  perform (compact_call outcome removable now) (s, d) =
      ok (s, (compact json outcome removable now s d).0)
  perform (restart_call threshold) (s, d) = new_store json threshold d

  unfoldable pub run_calls :
      List (Call B Job)
      → Result StoreError (WorkspaceStore B Job × Disk B)
      → Result StoreError (WorkspaceStore B Job × Disk B)
  unfolding perform
  run_calls calls (err e) = err e
  run_calls [] (ok state) = ok state
  run_calls (c ∷ calls) (ok state) = run_calls calls (perform c state)

  -- What a start gives: the contents that were in memory, up to the numbers of audit events.
  abbrev pub Recovers :
      WorkspaceStore B Job → Result StoreError (WorkspaceStore B Job × Disk B) → Type 0
  Recovers s (err e) = ⊥
  Recovers s (ok (s', d')) =
      (forget_seqs s'.contents ≡ forget_seqs s.contents) × (s'.next_seq ≡ s.next_seq)

module _ {B Job : Type 0} (json : StoreJson B Job) (faithful : Faithful json) where
  -- What a call that returns no error leaves.
  abbrev Lives : ℕ → Result StoreError (WorkspaceStore B Job × Disk B) → Type 0
  Lives n (err e) = Unit
  Lives n (ok (s, d)) = IsRecoverable json faithful s d × (s.next_seq ≤ n)

  Lives-le :
      (n m : ℕ) (r : Result StoreError (WorkspaceStore B Job × Disk B))
      → n ≤ m
      → Lives n r
      → Lives m r
  Lives-le n m (err e) l h = _
  Lives-le n m (ok (s, d)) l (inv, b) = (inv, omega arith)

  succeeded-Lives :
      (n : ℕ) (r : WorkspaceStore B Job × Disk B × Option StoreError)
      → Leaves json faithful n r
      → Lives (suc n) (succeeded json r)
  succeeded-Lives n (s, d, none) h = h
  succeeded-Lives n (s, d, some e) h = _

  -- A change whose payload may not encode.
  change-Lives :
      (fit : LinesFit json) (outcome : AppendOutcome) (now : ℤ) (op : WalOp) (kind : EntityKind)
      (o : Option B) (after : Contents B Job) (s : WorkspaceStore B Job) (d : Disk B)
      → IsRecoverable json faithful s d
      → s.next_seq + 1 < 2 ^ 64
      → ((payload : B)
          → o ≡ some payload
          → Repeats json
              (record { seq = s.next_seq; ts = now; op = op; kind = kind; payload = payload })
              s.contents
              after
            × IsKept json faithful after)
      → Lives (suc s.next_seq) (succeeded json (change json outcome now op kind o after s d))
  unfolding append
  change-Lives fit outcome now op kind none after s d inv b h = _
  change-Lives fit outcome now op kind (some payload) after s d inv b h =
      let (rep, kept) = h payload refl in
      succeeded-Lives s.next_seq (change json outcome now op kind (some payload) after s d)
        (change-Leaves json faithful fit outcome now op kind payload after s d inv b rep kept)

  perform-Lives :
      (fit : LinesFit json) (c : Call B Job) (s : WorkspaceStore B Job) (d : Disk B)
      → IsRecoverable json faithful s d
      → s.next_seq + 1 < 2 ^ 64
      → Lives (suc s.next_seq) (perform json c (s, d))
  unfolding perform upsert_job upsert_bundle insert_audit insert_ledger put_by
  perform-Lives fit (job_call outcome now j) s d inv b =
      change-Lives fit outcome now op_upsert kind_job _ (put_job json j s.contents) s d inv b
        (λ p e. (
          job-Repeats json faithful j p s.next_seq now s.contents e,
          put_job-IsKept json faithful j s.contents (p, e) inv.kept,
        ))
  perform-Lives fit (bundle_call outcome now m) s d inv b =
      change-Lives fit outcome now op_upsert kind_bundle _ (put_bundle json m s.contents) s d inv b
        (λ p e. (
          bundle-Repeats json faithful m p s.next_seq now s.contents e,
          put_bundle-IsKept json faithful m s.contents inv.kept,
        ))
  perform-Lives fit (audit_call outcome now a) s d inv b =
      change-Lives fit outcome now op_insert kind_audit _ (add_audit json s.next_seq a s.contents) s
        d inv b
        (λ p e. (
          audit-Repeats json faithful a p s.next_seq now s.contents e,
          IsKept-jobs json faithful s.contents _ refl refl inv.kept,
        ))
  perform-Lives fit (ledger_call outcome now e) s d inv b = succeeded-Lives s.next_seq _ (
      change-Leaves json faithful fit outcome now op_insert kind_ledger e
        (add_ledger json e s.contents) s d inv b
        (ledger-Repeats json faithful e s.next_seq now s.contents)
        (IsKept-jobs json faithful s.contents _ refl refl inv.kept))
  perform-Lives fit (compact_call outcome removable now) s d inv b =
      (compact-IsRecoverable json faithful outcome removable now s d inv (omega arith), omega arith)
  perform-Lives fit (restart_call threshold) s d inv b =
      let (s', d', starts, again, same, next) = restart json faithful threshold s d inv in
      subst (Lives (suc s.next_seq)) (sym starts) (again, omega arith)

  run_calls-Lives :
      (fit : LinesFit json) (calls : List (Call B Job)) (n : ℕ)
      (r : Result StoreError (WorkspaceStore B Job × Disk B))
      → Lives n r
      → n + length calls < 2 ^ 64
      → Lives (n + length calls) (run_calls json calls r)
  unfolding run_calls
  run_calls-Lives fit calls n (err e) h b = _
  run_calls-Lives fit [] n (ok (s, d)) (inv, le) b = (inv, omega arith)
  run_calls-Lives fit (c ∷ calls) n (ok (s, d)) (inv, le) b =
      Lives-le (suc s.next_seq + length calls) (n + length (c ∷ calls)) _ (omega arith) (
        run_calls-Lives fit calls (suc s.next_seq) (perform json c (s, d))
          (perform-Lives fit c s d inv (omega arith)) (omega arith))

  -- The first start on an empty directory.
  fresh-IsRecoverable : (threshold : ℕ) → Lives 1 (new_store json threshold empty_disk)
  unfolding new_store replayed load_base new_wal_writer split_last list_segments read_segments
      read_lines replay_entries sort_by_seq replay_all
  fresh-IsRecoverable threshold = (
    record {
      base = no_contents;
      from = 0;
      start = 1;
      restored = no_contents;
      loads = refl;
      replays = refl;
      same = refl;
      rising = _;
      bounded = _;
      ahead = omega arith;
      fits = (_, _);
      kept = record { distinct_jobs = _; distinct_bundles = _; encodes = _ };
      writer = record { segment_idx = 1; segment_size = 0 };
      has_wal = refl;
      source = inl refl;
    },
    omega arith,
  )

  -- A state directory that starts empty and on which no method has returned an error recovers, at the
  -- next start, the jobs, the bundles, the ledger entries and the audit events in memory, but for the
  -- sequence numbers of the audit events, and the next sequence number: whatever changes, restarts
  -- and compactions there have been, in which order, and however the compactions have ended. JSON
  -- gives back what it encodes, no line of the log reaches the limit of the scanner, and the
  -- sequence numbers stay below 2 ^ 64.
  pub run_calls-Recovers :
      LinesFit json
      → (calls : List (Call B Job)) (first next : ℕ) (s : WorkspaceStore B Job) (d : Disk B)
      → length calls + 1 < 2 ^ 64
      → run_calls json calls (new_store json first empty_disk) ≡ ok (s, d)
      → Recovers json s (new_store json next d)
  run_calls-Recovers fit calls first next s d b r =
      let lives =
        run_calls-Lives fit calls 1 (new_store json first empty_disk) (fresh-IsRecoverable first)
          (omega arith) in
      let (inv, le) : Lives (1 + length calls) (ok (s, d)) =
        subst (Lives (1 + length calls)) r lives in
      let (s', d', starts, again, same, number) = restart json faithful next s d inv in
      subst (Recovers json s) (sym starts) (same, number)
