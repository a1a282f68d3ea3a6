-- ===== src/LedgerQuery.antt =====
-- Queries on the workspace ledger: Query of internal/router/workspaceledger/ledger.go. The records
-- and the request are the messages of api/proto/monofs.proto.
pub mod Pages
use monofs.Prelude.{
  ℕ, ◌+◌, Bool, true, false, not, ◌&&◌, ◌||◌, List, [], ◌∷◌, length, take, filter, leb, ltb, ◌==◌,
  if◌then◌else◌, Text, text_eq, is_empty,
}
use monofs.Prelude.Int.{ℤ, pos, negsuc, int_lt, to_int32}

pub record LocalCommit : Type 0 where
  pub local_commit_id : Text
  pub workspace_id : Text
  pub principal_id : Text
  pub repo_storage_id : Text
  pub author_name : Text
  pub author_email : Text
  pub message : Text
  pub message_full : Text
  pub files_changed : ℤ
  pub additions : ℤ
  pub deletions : ℤ
  pub parent_commit_id : Text
  pub timestamp_unix : ℤ

pub record PushOutcome : Type 0 where
  pub push_outcome_id : Text
  pub job_id : Text
  pub workspace_id : Text
  pub repo_storage_id : Text
  pub branch : Text
  pub push_mode : Text
  pub branch_strategy : Text
  pub upstream_commit_hash : Text
  pub local_commit_ids : List Text
  pub status : Text
  pub error_message : Text
  pub pr_url : Text
  pub timestamp_unix : ℤ

pub record RefreshEvent : Type 0 where
  pub refresh_event_id : Text
  pub workspace_id : Text
  pub repo_storage_id : Text
  pub previous_upstream_hash : Text
  pub new_upstream_hash : Text
  pub incoming_commits : ℤ
  pub timestamp_unix : ℤ

-- A protobuf enum is open: `other` is a number with no name.
pub data LedgerResultKind : Type 0 where
  unspecified : LedgerResultKind
  all_kinds : LedgerResultKind
  commits_only : LedgerResultKind
  push_outcomes_only : LedgerResultKind
  refresh_events_only : LedgerResultKind
  other : ℤ → LedgerResultKind

pub record QueryLedgerRequest : Type 0 where
  pub workspace_id : Text
  pub principal_id : Text
  pub repo_storage_id : Text
  pub local_commit_id : Text
  pub job_id : Text
  pub push_status : Text
  pub branch : Text
  pub created_after : ℤ
  pub created_before : ℤ
  pub page_size : ℤ
  pub page_token : Text
  pub result_kind : LedgerResultKind

pub record QueryLedgerResponse : Type 0 where
  pub commits : List LocalCommit
  pub push_outcomes : List PushOutcome
  pub refresh_events : List RefreshEvent
  pub next_page_token : Text
  pub total_matches : ℤ

-- The three tables of `Ledger`.
pub record Tables : Type 0 where
  pub commits : List LocalCommit
  pub outcomes : List PushOutcome
  pub refreshes : List RefreshEvent

-- `want != "" && have != want`.
abbrev pub differs : Text → Text → Bool
differs want have = not (is_empty want) && not (text_eq have want)

-- `a > 0 && t < a` and `b > 0 && t > b`.
abbrev pub too_early : ℤ → ℤ → Bool
too_early a t = int_lt (pos 0) a && int_lt t a

abbrev pub too_late : ℤ → ℤ → Bool
too_late b t = int_lt (pos 0) b && int_lt b t

unfoldable pub matches_commit_filters : QueryLedgerRequest → LocalCommit → Bool
matches_commit_filters req c =
    if differs req.workspace_id c.workspace_id
    then false
    else if differs req.principal_id c.principal_id
    then false
    else if differs req.repo_storage_id c.repo_storage_id
    then false
    else if differs req.local_commit_id c.local_commit_id
    then false
    else if too_early req.created_after c.timestamp_unix
    then false
    else not (too_late req.created_before c.timestamp_unix)

unfoldable pub matches_outcome_filters : QueryLedgerRequest → PushOutcome → Bool
matches_outcome_filters req o =
    if differs req.workspace_id o.workspace_id
    then false
    else if differs req.job_id o.job_id
    then false
    else if differs req.repo_storage_id o.repo_storage_id
    then false
    else if differs req.push_status o.status
    then false
    else if differs req.branch o.branch
    then false
    else if too_early req.created_after o.timestamp_unix
    then false
    else not (too_late req.created_before o.timestamp_unix)

unfoldable pub matches_refresh_filters : QueryLedgerRequest → RefreshEvent → Bool
matches_refresh_filters req r =
    if differs req.workspace_id r.workspace_id
    then false
    else if differs req.repo_storage_id r.repo_storage_id
    then false
    else if too_early req.created_after r.timestamp_unix
    then false
    else not (too_late req.created_before r.timestamp_unix)

abbrev pub wants_commits : LedgerResultKind → Bool
wants_commits all_kinds = true
wants_commits commits_only = true
wants_commits unspecified = true
wants_commits push_outcomes_only = false
wants_commits refresh_events_only = false
wants_commits (other n) = false

abbrev pub wants_outcomes : LedgerResultKind → Bool
wants_outcomes all_kinds = true
wants_outcomes push_outcomes_only = true
wants_outcomes unspecified = true
wants_outcomes commits_only = false
wants_outcomes refresh_events_only = false
wants_outcomes (other n) = false

abbrev pub wants_refreshes : LedgerResultKind → Bool
wants_refreshes all_kinds = true
wants_refreshes refresh_events_only = true
wants_refreshes unspecified = true
wants_refreshes commits_only = false
wants_refreshes push_outcomes_only = false
wants_refreshes (other n) = false

-- The three loops.
unfoldable pub collect : QueryLedgerRequest → Tables → Tables
unfolding matches_commit_filters matches_outcome_filters matches_refresh_filters
collect req l = record {
  commits =
      if wants_commits req.result_kind then filter (matches_commit_filters req) l.commits else [];
  outcomes =
      if wants_outcomes req.result_kind
      then filter (matches_outcome_filters req) l.outcomes
      else [];
  refreshes =
      if wants_refreshes req.result_kind
      then filter (matches_refresh_filters req) l.refreshes
      else [];
}

unfoldable pub effective_page_size : ℤ → ℕ
effective_page_size (pos n) = if n == 0 then 50 else n
effective_page_size (negsuc n) = 50

abbrev pub limit_slice {ℓ} : {A : Type ℓ} → List A → ℕ → List A
limit_slice s limit = if leb (length s) limit then s else take limit s

abbrev pub size : Tables → ℕ
size t = length t.commits + length t.outcomes + length t.refreshes

-- `if total > pageSize`.
unfoldable pub limited : ℕ → Tables → Tables
limited page t =
    if ltb page (size t)
    then record {
      commits = limit_slice t.commits page;
      outcomes = limit_slice t.outcomes page;
      refreshes = limit_slice t.refreshes page;
    }
    else t

abbrev pub respond : Tables → ℕ → QueryLedgerResponse
respond t total = record {
  commits = t.commits;
  push_outcomes = t.outcomes;
  refresh_events = t.refreshes;
  next_page_token = [];
  total_matches = to_int32 total;
}

unfoldable pub query : QueryLedgerRequest → Tables → QueryLedgerResponse
unfolding collect effective_page_size limited to_int32
query req l =
    let found = collect req l in
    respond (limited (effective_page_size req.page_size) found) (size found)
