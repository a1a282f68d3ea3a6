-- ===== src/WorkspaceRecovery/Invariant.antt =====
-- What holds between the store in memory and its disk while internal/storage/workspacestore/store.go
-- runs: a start would find what is in memory.
use monofs.Prelude.{
  ℕ, ◌<◌, true, Option, none, some, List, [], ◌∷◌, ◌++◌, leb, if◌then◌else◌, ◌≡◌, ◌⊎◌, refl, ap,
  ◌∙◌, arith, ok,
}
use monofs.WorkspaceLog.{WalEntry, WalWriter, LogDir, list_segments}
use monofs.WorkspaceLog.Reading.{Ascending, Below, AllFit}
use monofs.WorkspaceLog.Keeping.{above, reads}
use monofs.WorkspaceStore.{Contents, Checkpoint, StoreJson, Disk, WorkspaceStore, seq_after}
use monofs.WorkspaceRecovery.{
  apply_kind, recovered, replay_all, load_snapshot, checkpointed, read_checkpoint, load_base,
}
use monofs.WorkspaceRecovery.Forget.{Faithful, forget_seqs}
use monofs.WorkspaceRecovery.Loading.{IsKept}

module _ {B Job : Type 0} (json : StoreJson B Job) (faithful : Faithful json) where
  -- The entries of the log, oldest first.
  abbrev pub entries : Disk B → List (WalEntry B)
  entries d = reads json.line_size json.of_entry (list_segments d.log)

  -- Which checkpoint the disk has: none, or one whose snapshot goes up to `from`.
  abbrev pub CheckpointAt : ℕ → Disk B → Type 0
  CheckpointAt from d =
      (read_checkpoint json d.checkpoint_file ≡ none)
      ⊎ ((0 < from)
          × (read_checkpoint json d.checkpoint_file
              ≡ some (record { last_compacted_seq = from; snapshot_file = some from })))

  -- The disk recovers the contents in memory, up to the numbers of audit events, and the next
  -- sequence number.
  pub record IsRecoverable (s : WorkspaceStore B Job) (d : Disk B) : Type 0 where
    pub base : Contents B Job
    pub from : ℕ
    pub start : ℕ
    pub restored : Contents B Job
    pub loads : load_base json d ≡ ok (base, from, start)
    pub replays : replay_all json (above from (entries d)) (base, start) ≡ (restored, s.next_seq)
    pub same : forget_seqs restored ≡ forget_seqs s.contents
    pub rising : Ascending (above from (entries d))
    pub bounded : Below s.next_seq (entries d)
    pub ahead : from < s.next_seq
    pub fits : AllFit json.line_size json.of_entry (list_segments d.log)
    pub kept : IsKept json faithful s.contents
    pub writer : WalWriter
    pub has_wal : s.wal ≡ some writer
    pub source : CheckpointAt from d

  pub replay_all-snoc :
      (es : List (WalEntry B)) (e : WalEntry B) (state : Contents B Job × ℕ)
      → replay_all json (es ++ e ∷ []) state
        ≡ recovered json e.seq
            (apply_kind json e.kind e.op e (replay_all json es state).0)
            (replay_all json es state)
  unfolding replay_all
  replay_all-snoc [] e (c, next) = refl
  replay_all-snoc (x ∷ es) e (c, next) =
      replay_all-snoc es e (recovered json x.seq (apply_kind json x.kind x.op x c) (c, next))

  -- The log is no part of what a checkpoint loads.
  checkpointed-log :
      (o : Option Checkpoint) (l : LogDir B) (d : Disk B)
      → checkpointed json o (record d { log = l }) ≡ checkpointed json o d
  unfolding checkpointed load_snapshot
  checkpointed-log none l d = refl
  checkpointed-log (some chk) l d = refl

  pub load_base-log :
      (l : LogDir B) (d : Disk B) → load_base json (record d { log = l }) ≡ load_base json d
  unfolding load_base
  load_base-log l d = checkpointed-log (read_checkpoint json d.checkpoint_file) l d

  -- The entry of a change that was logged is replayed to what the change did in memory.
  pub replays-snoc :
      (es : List (WalEntry B)) (e : WalEntry B) (state : Contents B Job × ℕ) (k k' : Contents B Job)
      → replay_all json es state ≡ (k, e.seq)
      → apply_kind json e.kind e.op e k ≡ some k'
      → replay_all json (es ++ e ∷ []) state ≡ (k', seq_after e.seq)
  replays-snoc es e state k k' r a =
      replay_all-snoc es e state
      ∙ ap
          (λ (st : Contents B Job × ℕ).
            recovered json e.seq (apply_kind json e.kind e.op e st.0) st)
          r
      ∙ ap (λ o. recovered json e.seq o (k, e.seq)) a
      ∙ ap (λ t. (k', if t then seq_after e.seq else e.seq))
          (let t : leb e.seq e.seq ≡ true = ground arith in t)
