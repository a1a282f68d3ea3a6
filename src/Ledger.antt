-- ===== src/Ledger.antt =====
-- The workspace ledger and its write-ahead log: internal/router/workspaceledger/ledger.go, and
-- ReplayLedgerEntries of internal/storage/workspacestore/store.go, which drives its recovery. The
-- JSON of a message is a parameter; each method holds the lock while it changes the tables.
pub mod Replay
use monofs.Prelude.{
  ℕ, Option, none, some, List, [], ◌∷◌, ◌++◌, Result, ok, err, Text, codes, text_eq, if◌then◌else◌,
  ◌≡◌,
}
use monofs.LedgerQuery.{LocalCommit, PushOutcome, RefreshEvent, Tables}

-- json.Marshal with its error ignored, and json.Unmarshal.
pub record Json {ℓ} (A : Type ℓ) : Type ℓ where
  pub marshal : A → List ℕ
  pub unmarshal : List ℕ → Option A

pub record LedgerRecord : Type 0 where
  pub table : Text
  pub row : List ℕ

pub record LedgerJson : Type 0 where
  pub of_commit : Json LocalCommit
  pub of_outcome : Json PushOutcome
  pub of_refresh : Json RefreshEvent
  pub of_record : Json LedgerRecord

-- `WALWriter`; the error of InsertLedger is ignored, so only its effect is here.
pub record WalWriter {ℓ} (W : Type ℓ) : Type ℓ where
  pub insert_ledger : List ℕ → W → W

-- A nil `wal` is `none`.
pub record Ledger {ℓ} (W : Type ℓ) : Type ℓ where
  pub wal : Option W
  pub tables : Tables

abbrev no_tables : Tables
no_tables = record { commits = []; outcomes = []; refreshes = [] }

abbrev table_commits : Text
table_commits = codes "local_commits"

abbrev table_outcomes : Text
table_outcomes = codes "push_outcomes"

abbrev table_refreshes : Text
table_refreshes = codes "refresh_events"

-- The entry that an insertion writes to the log.
pub data Insertion : Type 0 where
  commit : LocalCommit → Insertion
  outcome : PushOutcome → Insertion
  refresh_event : RefreshEvent → Insertion

module _ {ℓ} {W : Type ℓ} where
  unfoldable pub new : Ledger W
  new = record { wal = none; tables = no_tables }

  unfoldable pub new_with_wal : W → Ledger W
  new_with_wal w = record { wal = some w; tables = no_tables }

  unfoldable pub insert_commit_locked : LocalCommit → Ledger W → Ledger W
  insert_commit_locked c l = record l {
    tables = record (l.tables) { commits = l.tables.commits ++ c ∷ [] };
  }

  unfoldable pub insert_outcome_locked : PushOutcome → Ledger W → Ledger W
  insert_outcome_locked o l = record l {
    tables = record (l.tables) { outcomes = l.tables.outcomes ++ o ∷ [] };
  }

  unfoldable pub insert_refresh_locked : RefreshEvent → Ledger W → Ledger W
  insert_refresh_locked r l = record l {
    tables = record (l.tables) { refreshes = l.tables.refreshes ++ r ∷ [] };
  }

module _ (json : LedgerJson) where
  abbrev pub commit_record : LocalCommit → LedgerRecord
  commit_record c = record { table = table_commits; row = json.of_commit.marshal c }

  abbrev pub outcome_record : PushOutcome → LedgerRecord
  outcome_record o = record { table = table_outcomes; row = json.of_outcome.marshal o }

  abbrev pub refresh_record : RefreshEvent → LedgerRecord
  refresh_record r = record { table = table_refreshes; row = json.of_refresh.marshal r }

  module _ {ℓ} {W : Type ℓ} where
    abbrev pub log : WalWriter W → LedgerRecord → Option W → Option W
    log writer rec none = none
    log writer rec (some w) = some (writer.insert_ledger (json.of_record.marshal rec) w)

    unfoldable pub insert_commit : WalWriter W → LocalCommit → Ledger W → Ledger W
    unfolding insert_commit_locked
    insert_commit writer c l =
        insert_commit_locked c (record l { wal = log writer (commit_record c) l.wal })

    unfoldable pub insert_push_outcome : WalWriter W → PushOutcome → Ledger W → Ledger W
    unfolding insert_outcome_locked
    insert_push_outcome writer o l =
        insert_outcome_locked o (record l { wal = log writer (outcome_record o) l.wal })

    unfoldable pub insert_refresh_event : WalWriter W → RefreshEvent → Ledger W → Ledger W
    unfolding insert_refresh_locked
    insert_refresh_event writer r l =
        insert_refresh_locked r (record l { wal = log writer (refresh_record r) l.wal })

    unfoldable pub insert : WalWriter W → Insertion → Ledger W → Ledger W
    unfolding insert_commit insert_push_outcome insert_refresh_event
    insert writer (commit c) l = insert_commit writer c l
    insert writer (outcome o) l = insert_push_outcome writer o l
    insert writer (refresh_event r) l = insert_refresh_event writer r l

    -- What json.Unmarshal leaves of a row is inserted, or its error is returned (`none`).
    abbrev pub put_row {κ} :
        {A : Type κ} → (A → Ledger W → Ledger W) → Option A → Ledger W → Option (Ledger W)
    put_row put none l = none
    put_row put (some a) l = some (put a l)

    unfoldable pub replay_record : LedgerRecord → Ledger W → Option (Ledger W)
    unfolding insert_commit_locked insert_outcome_locked insert_refresh_locked
    replay_record rec l =
        if text_eq rec.table table_commits
        then put_row insert_commit_locked (json.of_commit.unmarshal rec.row) l
        else if text_eq rec.table table_outcomes
        then put_row insert_outcome_locked (json.of_outcome.unmarshal rec.row) l
        else if text_eq rec.table table_refreshes
        then put_row insert_refresh_locked (json.of_refresh.unmarshal rec.row) l
        else some l

    abbrev pub replay_decoded : Option LedgerRecord → Ledger W → Option (Ledger W)
    unfolding replay_record
    replay_decoded none l = none
    replay_decoded (some rec) l = replay_record rec l

    unfoldable pub replay_from_wal : List ℕ → Ledger W → Option (Ledger W)
    unfolding replay_decoded
    replay_from_wal entry l = replay_decoded (json.of_record.unmarshal entry) l

    -- ReplayLedgerEntries, which stops at the first error, with ReplayFromWAL as its callback.
    abbrev pub replay_rest : (Ledger W → Option (Ledger W)) → Option (Ledger W) → Option (Ledger W)
    replay_rest next none = none
    replay_rest next (some l) = next l

    unfoldable pub replay_ledger_entries : List (List ℕ) → Ledger W → Option (Ledger W)
    unfolding replay_from_wal
    replay_ledger_entries [] l = some l
    replay_ledger_entries (e ∷ es) l = replay_rest (replay_ledger_entries es) (replay_from_wal e l)
