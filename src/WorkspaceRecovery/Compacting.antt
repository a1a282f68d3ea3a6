-- ===== src/WorkspaceRecovery/Compacting.antt =====
-- Compaction keeps what a start recovers: compact of internal/storage/workspacestore/store.go,
-- however far it gets.
use monofs.Prelude.{
  ℕ, suc, ◌+◌, ◌^◌, ◌<◌, true, false, Option, none, some, List, [], ◌∷◌, map, ltb, leb, ◌==◌,
  Bool-cases, ◌≡◌, refl, sym, ap, ap₂, subst, ◌∙◌, inl, inr, arith, ok,
}
use monofs.Prelude.Int.{ℤ}
use monofs.WorkspaceLog.{list_segments, total_size}
use monofs.WorkspaceLog.Reading.{Ascending, Below, AllFit}
use monofs.WorkspaceLog.Keeping.{above, above_none, delete-Below, delete-AllFit}
use monofs.WorkspaceStore.{
  AuditEvent, Contents, StoreJson, Disk, WorkspaceStore, CompactOutcome, snapshot_fails,
  checkpoint_fails, compacts, seq_before,
}
use monofs.WorkspaceRecovery.{
  Removable, find_file, replay_all, load_decoded, load_found, load_snapshot, past_checkpoint,
  checkpointed, read_checkpoint, load_base, take_snapshot, write_checkpoint, write_snapshot,
  compact_from, compact_wal, compact,
}
use monofs.WorkspaceRecovery.Forget.{Faithful, no_seq, forget_seqs}
use monofs.WorkspaceRecovery.Loading.{IsKept, load_contents-take_snapshot}
use monofs.WorkspaceRecovery.Invariant.{IsRecoverable, entries}
use monofs.WorkspaceRecovery.Changes.{seq_after_lem}

pub no_seq_twice : (es : List AuditEvent) → map no_seq (map no_seq es) ≡ map no_seq es
no_seq_twice [] = refl
no_seq_twice (e ∷ es) = ap (λ xs. no_seq e ∷ xs) (no_seq_twice es)

module _ {B Job : Type 0} (json : StoreJson B Job) (faithful : Faithful json) where
  -- A snapshot of contents that the checkpoint names.
  Holds : ℕ → Contents B Job → Disk B → Type 0
  Holds seq c d =
      (now : ℤ) × (bytes : B) × (json.of_snapshot.marshal (take_snapshot json now seq c)
        ≡ some bytes)
      × (find_file seq d.snapshots ≡ some bytes)

  Holds-load_snapshot :
      (seq : ℕ) (c : Contents B Job) (d : Disk B)
      → 0 < seq
      → seq + 1 < 2 ^ 64
      → IsKept json faithful c
      → Holds seq c d
      → load_snapshot json (record { last_compacted_seq = seq; snapshot_file = some seq }) d 1
        ≡ ok (forget_seqs c, suc seq)
  unfolding Holds load_snapshot find_file take_snapshot
  Holds-load_snapshot seq c d p b kept (now, bytes, m, f) =
      let some_seq : (seq == 0) ≡ false = ground arith in
      let over : leb 1 seq ≡ true = ground arith in
      rw some_seq (
        ap (λ o. load_found json seq o 1) f
        ∙ ap (λ o. load_decoded json seq o 1)
            (faithful.gives_snapshot (take_snapshot json now seq c) bytes m)
        ∙ rw over (
            ap₂ (λ (x : Contents B Job) (n : ℕ). ok (x, n))
              (load_contents-take_snapshot json faithful now seq c kept)
              (seq_after_lem json faithful seq b)))

  -- A start that finds such a snapshot has nothing to replay.
  Holds-IsRecoverable :
      (seq : ℕ) (s : WorkspaceStore B Job) (d d' : Disk B)
      → IsRecoverable json faithful s d
      → 0 < seq
      → s.next_seq ≡ suc seq
      → s.next_seq < 2 ^ 64
      → read_checkpoint json d'.checkpoint_file
        ≡ some (record { last_compacted_seq = seq; snapshot_file = some seq })
      → Holds seq s.contents d'
      → Below s.next_seq (entries json faithful d')
      → AllFit json.line_size json.of_entry (list_segments d'.log)
      → IsRecoverable json faithful s d'
  unfolding load_base checkpointed replay_all
  Holds-IsRecoverable seq s d d' inv p q b r h under fit =
      let none_left : above seq (entries json faithful d') ≡ [] =
        above_none seq _ (subst (λ n. Below n (entries json faithful d')) q under) in
      let newer : leb (suc seq) seq ≡ false = ground arith in
      record {
        base = forget_seqs s.contents;
        from = seq;
        start = suc seq;
        restored = forget_seqs s.contents;
        loads =
            ap (λ o. checkpointed json o d') r
            ∙ ap (past_checkpoint json seq)
                (Holds-load_snapshot seq s.contents d' p (omega arith) inv.kept h)
            ∙ rw newer refl;
        replays =
            ap (λ es. replay_all json es (forget_seqs s.contents, suc seq)) none_left
            ∙ ap (λ n. (forget_seqs s.contents, n)) (sym q);
        same =
            ap (λ es. record s.contents { audit_events = es })
              (no_seq_twice s.contents.audit_events);
        rising = subst Ascending (sym none_left) _;
        bounded = under;
        ahead = omega arith;
        fits = fit;
        kept = inv.kept;
        writer = inv.writer;
        has_wal = inv.has_wal;
        source = inr (p, r);
      }

  -- Another snapshot does nothing to a start that loads what it did.
  same_base-IsRecoverable :
      (files : List (ℕ × B)) (s : WorkspaceStore B Job) (d : Disk B)
      → IsRecoverable json faithful s d
      → load_base json (record d { snapshots = files }) ≡ load_base json d
      → IsRecoverable json faithful s (record d { snapshots = files })
  same_base-IsRecoverable files s d inv h = record {
    base = inv.base;
    from = inv.from;
    start = inv.start;
    restored = inv.restored;
    loads = h ∙ inv.loads;
    replays = inv.replays;
    same = inv.same;
    rising = inv.rising;
    bounded = inv.bounded;
    ahead = inv.ahead;
    fits = inv.fits;
    kept = inv.kept;
    writer = inv.writer;
    has_wal = inv.has_wal;
    source = inv.source;
  }

  -- A file behind one of another number is found as before.
  load_snapshot-other :
      (from seq : ℕ) (bytes : B) (d : Disk B)
      → (seq == from) ≡ false
      → load_snapshot json
          (record { last_compacted_seq = from; snapshot_file = some from })
          (record d { snapshots = (seq, bytes) ∷ d.snapshots })
          1
        ≡ load_snapshot json (record { last_compacted_seq = from; snapshot_file = some from }) d 1
  unfolding load_snapshot find_file
  load_snapshot-other from seq bytes d h = rw h refl

  -- A snapshot that no checkpoint names yet, or whose number one names already.
  put_snapshot-IsRecoverable :
      (now : ℤ) (seq : ℕ) (bytes : B) (s : WorkspaceStore B Job) (d : Disk B)
      → IsRecoverable json faithful s d
      → 0 < seq
      → s.next_seq ≡ suc seq
      → s.next_seq < 2 ^ 64
      → json.of_snapshot.marshal (take_snapshot json now seq s.contents) ≡ some bytes
      → IsRecoverable json faithful s (record d { snapshots = (seq, bytes) ∷ d.snapshots })
  unfolding load_base checkpointed find_file Holds
  put_snapshot-IsRecoverable now seq bytes s d inv p q b m =
      let files : List (ℕ × B) = (seq, bytes) ∷ d.snapshots in
      elim inv.source [
        | inl none_read ↦ same_base-IsRecoverable files s d inv (
            ap (λ o. checkpointed json o (record d { snapshots = files })) none_read
            ∙ sym (ap (λ o. checkpointed json o d) none_read))
        | inr (z, r) ↦ elim (Bool-cases (seq == inv.from)) [
          | inl t ↦
              let seq_from : seq ≡ inv.from = ground arith in
              Holds-IsRecoverable seq s d (record d { snapshots = files }) inv p q b
                (r
                  ∙ ap (λ n. some (record { last_compacted_seq = n; snapshot_file = some n }))
                      (sym seq_from))
                (
                  now,
                  bytes,
                  m,
                  let same_number : (seq == seq) ≡ true = ground arith in rw same_number refl,
                )
                inv.bounded inv.fits
          | inr f ↦ same_base-IsRecoverable files s d inv (
              ap (λ o. checkpointed json o (record d { snapshots = files })) r
              ∙ ap (past_checkpoint json inv.from) (load_snapshot-other inv.from seq bytes d f)
              ∙ sym (ap (λ o. checkpointed json o d) r))
        ]
      ]

  -- The checkpoint is written and what it makes superfluous is dropped.
  checkpoint-IsRecoverable :
      (removable : Removable) (now : ℤ) (seq : ℕ) (bytes chk : B) (s : WorkspaceStore B Job)
      (d : Disk B)
      → IsRecoverable json faithful s d
      → 0 < seq
      → s.next_seq ≡ suc seq
      → s.next_seq < 2 ^ 64
      → json.of_snapshot.marshal (take_snapshot json now seq s.contents) ≡ some bytes
      → json.of_checkpoint.marshal (record { last_compacted_seq = seq; snapshot_file = some seq })
        ≡ some chk
      → IsRecoverable json faithful s
          (write_checkpoint json compacts removable seq
            (some chk)
            (record d { snapshots = (seq, bytes) ∷ d.snapshots })).0
  unfolding find_file Holds write_checkpoint
  checkpoint-IsRecoverable removable now seq bytes chk s d inv p q b m k =
      let same_number : (seq == seq) ≡ true = ground arith in
      Holds-IsRecoverable seq s d _ inv p q b (faithful.gives_checkpoint _ chk k)
        (now, bytes, m, rw (same_number, same_number) refl)
        (delete-Below json.line_size json.of_entry removable.segment_files seq s.next_seq d.log
          inv.bounded)
        (delete-AllFit json.line_size json.of_entry removable.segment_files seq d.log inv.fits)

  written-IsRecoverable :
      (outcome : CompactOutcome) (removable : Removable) (now : ℤ) (seq : ℕ) (o : Option B)
      (s : WorkspaceStore B Job) (d : Disk B)
      → IsRecoverable json faithful s d
      → 0 < seq
      → s.next_seq ≡ suc seq
      → s.next_seq < 2 ^ 64
      → json.of_snapshot.marshal (take_snapshot json now seq s.contents) ≡ o
      → IsRecoverable json faithful s (write_snapshot json outcome removable seq o d).0
  unfolding write_snapshot write_checkpoint
  written-IsRecoverable outcome removable now seq none s d inv p q b m = inv
  written-IsRecoverable snapshot_fails removable now seq (some bytes) s d inv p q b m = inv
  written-IsRecoverable checkpoint_fails removable now seq (some bytes) s d inv p q b m =
      put_snapshot-IsRecoverable now seq bytes s d inv p q b m
  written-IsRecoverable compacts removable now seq (some bytes) s d inv p q b m =
      go
        (json.of_checkpoint.marshal (record { last_compacted_seq = seq; snapshot_file = some seq }))
        refl
    where
      go :
          (o : Option B)
          → json.of_checkpoint.marshal
              (record { last_compacted_seq = seq; snapshot_file = some seq })
            ≡ o
          → IsRecoverable json faithful s
              (write_checkpoint json compacts removable seq o
                (record d { snapshots = (seq, bytes) ∷ d.snapshots })).0
      go none k = put_snapshot-IsRecoverable now seq bytes s d inv p q b m
      go (some chk) k = checkpoint-IsRecoverable removable now seq bytes chk s d inv p q b m k

  -- However a compaction ends, a start recovers the contents in memory as before.
  pub compact-IsRecoverable :
      (outcome : CompactOutcome) (removable : Removable) (now : ℤ) (s : WorkspaceStore B Job)
      (d : Disk B)
      → IsRecoverable json faithful s d
      → s.next_seq < 2 ^ 64
      → IsRecoverable json faithful s (compact json outcome removable now s d).0
  unfolding compact compact_wal compact_from
  compact-IsRecoverable outcome removable now s d inv b =
      subst (λ o. IsRecoverable json faithful s (compact_wal json o outcome removable now s d).0)
        (sym inv.has_wal)
        (elim (Bool-cases
          (ltb (total_size json.line_size json.of_entry d.log) s.compaction_threshold)) [
            | inl t ↦ rw t inv
            | inr f ↦ rw f (elim (Bool-cases (ltb (seq_before s.next_seq) 1)) [
              | inl t ↦ rw t inv
              | inr g ↦ rw g (
                  written-IsRecoverable outcome removable now (seq_before s.next_seq) _ s d inv
                    (ground arith) (let ahead : inv.from < s.next_seq = inv.ahead in omega arith) b
                    refl)
            ])
          ])
