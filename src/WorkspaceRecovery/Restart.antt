-- ===== src/WorkspaceRecovery/Restart.antt =====
-- A start finds what was in memory: New of internal/storage/workspacestore/store.go.
use monofs.Prelude.{ℕ, All, some, ◌≡◌, refl, sym, ap, subst, ◌∙◌, ok}
use monofs.WorkspaceLog.{list_segments, new_wal_writer, replay_entries}
use monofs.WorkspaceLog.Reading.{Ascending, Below}
use monofs.WorkspaceLog.Keeping.{above, reads, new_wal_writer-reads, replay_entries-above}
use monofs.WorkspaceStore.{Contents, StoreJson, Disk, WorkspaceStore, bundle_key}
use monofs.WorkspaceRecovery.{replay_all, replayed, new_store}
use monofs.WorkspaceRecovery.Forget.{Faithful, forget_seqs}
use monofs.WorkspaceRecovery.Loading.{Distinct, Encodes, IsKept}
use monofs.WorkspaceRecovery.Invariant.{IsRecoverable, entries, load_base-log}

module _ {B Job : Type 0} (json : StoreJson B Job) (faithful : Faithful json) where
  pub IsKept-jobs :
      (c c' : Contents B Job)
      → c'.jobs ≡ c.jobs
      → c'.bundles ≡ c.bundles
      → IsKept json faithful c
      → IsKept json faithful c'
  IsKept-jobs c c' p q k = record {
    distinct_jobs = subst (Distinct json.id_of_job) (sym p) k.distinct_jobs;
    distinct_bundles = subst (Distinct bundle_key) (sym q) k.distinct_bundles;
    encodes = subst (All (Encodes json faithful)) (sym p) k.encodes;
  }

  IsKept-forget :
      (c c' : Contents B Job)
      → forget_seqs c' ≡ forget_seqs c
      → IsKept json faithful c
      → IsKept json faithful c'
  IsKept-forget c c' h k =
      IsKept-jobs c c' (ap (λ (x : Contents B Job). x.jobs) h)
        (ap (λ (x : Contents B Job). x.bundles) h) k

  -- A start succeeds.
  pub restart :
      (threshold : ℕ) (s : WorkspaceStore B Job) (d : Disk B)
      → IsRecoverable json faithful s d
      → (s' : WorkspaceStore B Job) × (d' : Disk B) × (new_store json threshold d ≡ ok (s', d'))
        × IsRecoverable json faithful s' d'
        × (forget_seqs s'.contents ≡ forget_seqs s.contents)
        × (s'.next_seq ≡ s.next_seq)
  unfolding new_store replayed
  restart threshold s d inv =
      let (log, writer) = new_wal_writer json.line_size json.of_entry d.log in
      let (same_entries, fit) = new_wal_writer-reads json.line_size json.of_entry d.log inv.fits in
      let same_above : above inv.from (reads json.line_size json.of_entry (list_segments log))
          ≡ above inv.from (entries json faithful d) =
        ap (above inv.from) same_entries in
      let rises = subst Ascending (sym same_above) inv.rising in
      let replays : replay_all json (replay_entries json.line_size json.of_entry inv.from log)
            (inv.base, inv.start)
          ≡ (inv.restored, s.next_seq) =
        ap (λ es. replay_all json es (inv.base, inv.start))
          (replay_entries-above json.line_size json.of_entry inv.from log rises ∙ same_above)
        ∙ inv.replays in
      let s' : WorkspaceStore B Job = record {
        compaction_threshold = threshold;
        next_seq = s.next_seq;
        contents = inv.restored;
        wal = some writer;
      } in
      (
        s',
        record d { log = log },
        ap (λ r. replayed json threshold r d) inv.loads
            ∙ ap
                (λ (r : Contents B Job × ℕ). ok (
                  record {
                    compaction_threshold = threshold;
                    next_seq = r.1;
                    contents = r.0;
                    wal = some writer;
                  },
                  record d { log = log },
                ))
                replays,
        record {
          base = inv.base;
          from = inv.from;
          start = inv.start;
          restored = inv.restored;
          loads = load_base-log json faithful log d ∙ inv.loads;
          replays = ap (λ es. replay_all json es (inv.base, inv.start)) same_above ∙ inv.replays;
          same = refl;
          rising = rises;
          bounded = subst (Below s.next_seq) (sym same_entries) inv.bounded;
          ahead = inv.ahead;
          fits = fit;
          kept = IsKept-forget s.contents inv.restored inv.same inv.kept;
          writer = writer;
          has_wal = refl;
          source = inv.source;
        },
        inv.same,
        refl,
      )
