-- ===== src/Examples/Ledger.antt =====
-- A workspace ledger of internal/router/workspaceledger/ledger.go with two commits and a refresh.
use monofs.Prelude.{
  ℕ, ◌*◌, ◌≤◌, Bool, Option, none, some, List, [], ◌∷◌, ◌++◌, length, take, drop, if◌then◌else◌,
  ltb, ◌==◌, Text, codes, ◌≡◌, refl, Result, ok, err,
}
use monofs.Prelude.Int.{pos}
use monofs.LedgerQuery.{
  LocalCommit, RefreshEvent, QueryLedgerRequest, Tables, all_kinds, commits_only, LedgerResultKind,
  query, collect, effective_page_size,
}
use monofs.LedgerQuery.Pages.{returned, query-page}
use monofs.Ledger.{
  LedgerJson, LedgerRecord, WalWriter, Insertion, commit, refresh_event, new, new_with_wal,
  replay_ledger_entries,
}
use monofs.Ledger.Replay.{Keeps, insert_all, without_wal, log_entries, replay-insert_all}

abbrev commit_at : ℕ → LocalCommit
commit_at t = record {
  local_commit_id = codes "c";
  workspace_id = codes "ws";
  principal_id = codes "ann";
  repo_storage_id = codes "repo";
  author_name = [];
  author_email = [];
  message = [];
  message_full = [];
  files_changed = pos 1;
  additions = pos 2;
  deletions = pos 0;
  parent_commit_id = [];
  timestamp_unix = pos t;
}

abbrev refreshed_at : ℕ → RefreshEvent
refreshed_at t = record {
  refresh_event_id = codes "r";
  workspace_id = codes "ws";
  repo_storage_id = codes "repo";
  previous_upstream_hash = [];
  new_upstream_hash = [];
  incoming_commits = pos 3;
  timestamp_unix = pos t;
}

abbrev tables : Tables
tables = record {
  commits = commit_at 10 ∷ commit_at 20 ∷ [];
  outcomes = [];
  refreshes = refreshed_at 15 ∷ [];
}

abbrev since : ℕ → ℕ → LedgerResultKind → QueryLedgerRequest
since after page kind = record {
  workspace_id = codes "ws";
  principal_id = [];
  repo_storage_id = [];
  local_commit_id = [];
  job_id = [];
  push_status = [];
  branch = [];
  created_after = pos after;
  created_before = pos 0;
  page_size = pos page;
  page_token = [];
  result_kind = kind;
}

late_commits : (query (since 12 5 commits_only) tables).commits ≡ commit_at 20 ∷ []
unfolding query monofs.Prelude.text_eq
late_commits = refl

-- A page of one record holds one of each table.
more_than_a_page : returned (query (since 0 1 all_kinds) tables) ≡ 2
unfolding query monofs.Prelude.text_eq
more_than_a_page = refl

query-page_example :
    (returned (query (since 0 1 all_kinds) tables) ≤ 3 * 1)
    × ((returned (query (since 0 1 all_kinds) tables) ≤ 3)
        × (1 ≤ returned (query (since 0 1 all_kinds) tables)))
unfolding effective_page_size collect monofs.Prelude.text_eq
query-page_example = query-page (since 0 1 all_kinds) tables

-- A log in memory, and JSON that gives back these messages.
abbrev in_memory : WalWriter (List (List ℕ))
in_memory = record { insert_ledger = λ entry es. es ++ entry ∷ [] }

abbrev keeps_all : Keeps in_memory
keeps_all = record { entries = λ es. es; entries-insert_ledger = λ entry es. refl }

abbrev decode_record : List ℕ → Option LedgerRecord
decode_record [] = none
decode_record (n ∷ bs) = some (record { table = take n bs; row = drop n bs })

abbrev toy_json : LedgerJson
toy_json = record {
  of_commit = record { marshal = λ c. 1 ∷ []; unmarshal = λ bs. some (commit_at 10) };
  of_outcome = record { marshal = λ o. 2 ∷ []; unmarshal = λ bs. none };
  of_refresh = record { marshal = λ r. 3 ∷ []; unmarshal = λ bs. some (refreshed_at 15) };
  of_record = record {
    marshal = λ r. length r.table ∷ r.table ++ r.row;
    unmarshal = decode_record;
  };
}

abbrev insertions : List Insertion
insertions = commit (commit_at 10) ∷ refresh_event (refreshed_at 15) ∷ []

replay-insert_all_example :
    replay_ledger_entries toy_json
      (log_entries toy_json in_memory keeps_all
        (insert_all toy_json in_memory insertions (new_with_wal [])).wal)
      new
    ≡ some (
        without_wal toy_json in_memory (insert_all toy_json in_memory insertions (new_with_wal [])))
replay-insert_all_example =
    replay-insert_all toy_json in_memory keeps_all [] insertions refl
      ((refl, refl), ((refl, refl), _))
