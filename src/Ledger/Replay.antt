-- ===== src/Ledger/Replay.antt =====
-- Recovery of the ledger of internal/router/workspaceledger/ledger.go from its log.
use monofs.Prelude.{
  ℕ, Option, none, some, List, [], ◌∷◌, ◌++◌, map, append-nil, append_assoc, All, text_eq, ◌≡◌,
  refl, sym, ap, ◌∙◌,
}
use monofs.Ledger.{
  Json, LedgerJson, LedgerRecord, WalWriter, Ledger, Insertion, commit, outcome, refresh_event, new,
  new_with_wal, insert, commit_record, outcome_record, refresh_record, replay_record,
  replay_from_wal, replay_ledger_entries, replay_rest, replay_decoded, put_row, log,
  insert_commit_locked, insert_outcome_locked, insert_refresh_locked,
}

-- A log that keeps what InsertLedger appends, oldest first.
pub record Keeps {ℓ} {W : Type ℓ} (writer : WalWriter W) : Type ℓ where
  pub entries : W → List (List ℕ)
  pub entries-insert_ledger :
      (entry : List ℕ) (w : W) → entries (writer.insert_ledger entry w) ≡ entries w ++ entry ∷ []

-- JSON gives a value back.
abbrev pub Survives {ℓ} : {A : Type ℓ} → Json A → A → Type ℓ
Survives json a = json.unmarshal (json.marshal a) ≡ some a

module _ (json : LedgerJson) where
  abbrev pub record_of : Insertion → LedgerRecord
  record_of (commit c) = commit_record json c
  record_of (outcome o) = outcome_record json o
  record_of (refresh_event r) = refresh_record json r

  -- JSON gives back what an insertion logs: the record, and the message in it.
  abbrev pub InsertionSurvives : Insertion → Type 0
  InsertionSurvives (commit c) =
      Survives json.of_record (commit_record json c) × Survives json.of_commit c
  InsertionSurvives (outcome o) =
      Survives json.of_record (outcome_record json o) × Survives json.of_outcome o
  InsertionSurvives (refresh_event r) =
      Survives json.of_record (refresh_record json r) × Survives json.of_refresh r

  module _ {ℓ} {W : Type ℓ} (writer : WalWriter W) where
    unfoldable pub insert_all : List Insertion → Ledger W → Ledger W
    unfolding insert
    insert_all [] l = l
    insert_all (i ∷ is) l = insert_all is (insert json writer i l)

    abbrev pub without_wal : Ledger W → Ledger W
    without_wal l = record l { wal = none }

    -- Replaying one logged insertion does to the tables what the insertion did.
    replay_from_wal-insert :
        (i : Insertion) (l : Ledger W)
        → InsertionSurvives i
        → replay_from_wal json (json.of_record.marshal (record_of i)) (without_wal l)
          ≡ some (without_wal (insert json writer i l))
    unfolding replay_from_wal replay_record insert text_eq
    replay_from_wal-insert (commit c) l (r, s) =
        ap (λ o. replay_decoded json o (without_wal l)) r
        ∙ ap (λ o. put_row json insert_commit_locked o (without_wal l)) s
    replay_from_wal-insert (outcome o) l (r, s) =
        ap (λ d. replay_decoded json d (without_wal l)) r
        ∙ ap (λ d. put_row json insert_outcome_locked d (without_wal l)) s
    replay_from_wal-insert (refresh_event e) l (r, s) =
        ap (λ o. replay_decoded json o (without_wal l)) r
        ∙ ap (λ o. put_row json insert_refresh_locked o (without_wal l)) s

    -- The log of a list of insertions.
    abbrev logged : List Insertion → List (List ℕ)
    logged is = map (λ i. json.of_record.marshal (record_of i)) is

    replay-logged :
        (is : List Insertion) (l : Ledger W)
        → All InsertionSurvives is
        → replay_ledger_entries json (logged is) (without_wal l)
          ≡ some (without_wal (insert_all is l))
    unfolding replay_ledger_entries insert_all
    replay-logged [] l h = refl
    replay-logged (i ∷ is) l (h, hs) =
        ap (replay_rest json (replay_ledger_entries json (logged is)))
          (replay_from_wal-insert i l h)
        ∙ replay-logged is (insert json writer i l) hs

    module _ (keeps : Keeps writer) where
      -- What stands in the log of a ledger; nothing if it has none.
      abbrev pub log_entries : Option W → List (List ℕ)
      log_entries none = []
      log_entries (some w) = keeps.entries w

      wal-insert :
          (i : Insertion) (l : Ledger W) (w : W)
          → l.wal ≡ some w
          → (insert json writer i l).wal
            ≡ some (writer.insert_ledger (json.of_record.marshal (record_of i)) w)
      unfolding insert
      wal-insert (commit c) l w e = ap (log json writer (commit_record json c)) e
      wal-insert (outcome o) l w e = ap (log json writer (outcome_record json o)) e
      wal-insert (refresh_event r) l w e = ap (log json writer (refresh_record json r)) e

      log_entries-insert_all :
          (is : List Insertion) (l : Ledger W) (w : W)
          → l.wal ≡ some w
          → log_entries (insert_all is l).wal ≡ keeps.entries w ++ logged is
      unfolding insert_all
      log_entries-insert_all [] l w e = ap log_entries e ∙ sym (append-nil (keeps.entries w))
      log_entries-insert_all (i ∷ is) l w e =
          let entry = json.of_record.marshal (record_of i) in
          log_entries-insert_all is (insert json writer i l) (writer.insert_ledger entry w)
            (wal-insert i l w e)
          ∙ ap (λ es. es ++ logged is) (keeps.entries-insert_ledger entry w)
          ∙ append_assoc (keeps.entries w) (entry ∷ []) (logged is)

      -- A ledger that starts with an empty log comes back from it: replaying what any insertions,
      -- one after the other, have logged gives a new ledger their tables, in the same order. The
      -- log keeps what it is given, and JSON gives back what is logged.
      pub replay-insert_all :
          (w : W) (is : List Insertion)
          → keeps.entries w ≡ []
          → All InsertionSurvives is
          → replay_ledger_entries json (log_entries (insert_all is (new_with_wal w)).wal) new
            ≡ some (without_wal (insert_all is (new_with_wal w)))
      unfolding new new_with_wal
      replay-insert_all w is empty h =
          ap (λ es. replay_ledger_entries json es new)
            (log_entries-insert_all is (new_with_wal w) w refl ∙ ap (λ es. es ++ logged is) empty)
          ∙ replay-logged is (new_with_wal w) h
