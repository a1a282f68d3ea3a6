-- ===== src/MergeRequest.antt =====
-- The store of proposals: internal/router/mergerequest/store.go. The lock serialises the methods, so
-- each is one step. The proposals are an association list by id. The ownership checker is a
-- parameter, and the time is an argument of the methods that read the clock.
pub mod Reviews
pub mod Calls
use monofs.Prelude.{
  ℕ, zero, suc, ◌+◌, ◌/◌, ◌%◌, ltb, Bool, true, false, not, Option, none, some, List, [], ◌∷◌, ◌++◌,
  Result, ok, err, filter, if◌then◌else◌, Text, codes, text_eq, is_empty, has_text, ◌&&◌, ◌||◌,
}
use monofs.Prelude.Int.{ℤ}
use monofs.Authz.{Identity, principal_id}

pub data State : Type 0 where
  state_open : State
  state_approved : State
  state_merged : State
  state_rejected : State

pub record Proposal : Type 0 where
  pub id : Text
  pub partition : Text
  pub paths : List Text
  pub author : Text
  pub title : Text
  pub description : Text
  pub state : State
  pub approvals : List Text
  pub created_at : ℤ
  pub updated_at : ℤ

-- OwnsAll says whether all paths are owned and which are not, or fails.
pub record OwnershipChecker : Type 0 where
  pub owns_all : List Text → Identity → Result Text (Bool × List Text)

pub record Store : Type 0 where
  pub proposals : List Proposal
  pub owners : Option OwnershipChecker
  pub seq : ℕ

pub data RequestError : Type 0 where
  author_required : RequestError
  path_required : RequestError
  approver_required : RequestError
  not_found : Text → RequestError
  wrong_state : Text → State → RequestError
  own_proposal : RequestError
  no_checker : RequestError
  check_failed : Text → RequestError
  not_owner : Text → List Text → RequestError

-- `%d`; a number has at most as many digits as it counts, and one more where it is 0.
unfoldable pub digits : ℕ → ℕ → Text → Text
digits zero n text = text
digits (suc fuel) n text =
    let more = digits fuel (n / 10) ((48 + n % 10) ∷ text) in
    if ltb n 10 then (48 + n % 10) ∷ text else more

unfoldable pub proposal_id : ℕ → Text
unfolding digits
proposal_id n = codes "mr-" ++ digits (suc n) n []

unfoldable pub find_proposal : Text → List Proposal → Option Proposal
find_proposal id [] = none
find_proposal id (p ∷ ps) =
    let rest = find_proposal id ps in if text_eq p.id id then some p else rest

-- `proposals[p.ID] = p`, and the writing through a pointer that stands in the map.
unfoldable pub put_proposal : Proposal → List Proposal → List Proposal
put_proposal p [] = p ∷ []
put_proposal p (q ∷ qs) =
    let rest = put_proposal p qs in if text_eq q.id p.id then p ∷ qs else q ∷ rest

unfoldable pub new_store : Option OwnershipChecker → Store
new_store owners = record { proposals = []; owners = owners; seq = 0 }

-- The checks that come first, and what is done behind them.
abbrev pub opened : ℤ → Text → Text → List Text → Text → Text → ℕ → Proposal
unfolding proposal_id
opened now author partition paths title description seq = record {
  id = proposal_id seq;
  partition = partition;
  paths = paths;
  author = author;
  title = title;
  description = description;
  state = state_open;
  approvals = [];
  created_at = now;
  updated_at = now;
}

unfoldable pub store_proposal : Proposal → ℕ → Store → Store × Result RequestError Proposal
unfolding put_proposal
store_proposal p seq s = (record s { proposals = put_proposal p s.proposals; seq = seq }, ok p)

unfoldable pub create :
    ℤ → Text → Text → List Text → Text → Text → Store → Store × Result RequestError Proposal
unfolding opened store_proposal
create now author partition [] title description s =
    (s, err (if is_empty author then author_required else path_required))
create now author partition (path ∷ paths) title description s =
    let p = opened now author partition (path ∷ paths) title description (suc s.seq) in
    if is_empty author then (s, err author_required) else store_proposal p (suc s.seq) s

unfoldable pub get : Text → Store → Option Proposal
unfolding find_proposal
get id s = find_proposal id s.proposals

-- The order of a Go map's entries is open; this is the order in which they were put.
unfoldable pub list_proposals : Text → Store → List Proposal
list_proposals partition s =
    filter (λ p. is_empty partition || text_eq p.partition partition) s.proposals

-- A nil error is `none`.
abbrev pub owner_error : Identity → Result Text (Bool × List Text) → Option RequestError
unfolding principal_id
owner_error id (err e) = some (check_failed e)
owner_error id (ok (true, unowned)) = none
owner_error id (ok (false, unowned)) = some (not_owner (principal_id id) unowned)

abbrev pub require_owner : Option OwnershipChecker → Proposal → Identity → Option RequestError
unfolding owner_error
require_owner none p id = some no_checker
require_owner (some owners) p id = owner_error id (owners.owns_all p.paths id)

abbrev pub is_open : State → Bool
is_open state_open = true
is_open state_approved = false
is_open state_merged = false
is_open state_rejected = false

abbrev pub is_approved : State → Bool
is_approved state_open = false
is_approved state_approved = true
is_approved state_merged = false
is_approved state_rejected = false

abbrev pub is_merged : State → Bool
is_merged state_open = false
is_merged state_approved = false
is_merged state_merged = true
is_merged state_rejected = false

-- A step on a proposal that was found, behind its checks.
abbrev pub step : Option RequestError → Proposal → Store → Store × Result RequestError Proposal
unfolding put_proposal
step (some e) p s = (s, err e)
step none p s = (record s { proposals = put_proposal p s.proposals }, ok p)

unfoldable pub approve_error : Option OwnershipChecker → Proposal → Identity → Option RequestError
unfolding require_owner principal_id
approve_error owners p approver =
    if not (is_open p.state)
    then some (wrong_state p.id p.state)
    else if text_eq (principal_id approver) p.author
    then some own_proposal
    else require_owner owners p approver

unfoldable pub approved_by : ℤ → Text → Proposal → Proposal
approved_by now approver p = record p {
  approvals = if has_text approver p.approvals then p.approvals else p.approvals ++ approver ∷ [];
  state = state_approved;
  updated_at = now;
}

unfoldable pub merge_error : Option OwnershipChecker → Proposal → Identity → Option RequestError
unfolding require_owner
merge_error owners p merger =
    if not (is_approved p.state)
    then some (wrong_state p.id p.state)
    else require_owner owners p merger

unfoldable pub reject_error : Option OwnershipChecker → Proposal → Identity → Option RequestError
unfolding require_owner
reject_error owners p by =
    if is_merged p.state then some (wrong_state p.id p.state) else require_owner owners p by

unfoldable pub approve_found :
    ℤ → Text → Identity → Option Proposal → Store → Store × Result RequestError Proposal
unfolding step approve_error approved_by principal_id
approve_found now id approver none s = (s, err (not_found id))
approve_found now id approver (some p) s =
    step (approve_error s.owners p approver) (approved_by now (principal_id approver) p) s

unfoldable pub approve : ℤ → Text → Identity → Store → Store × Result RequestError Proposal
unfolding approve_found find_proposal principal_id
approve now id approver s =
    if is_empty (principal_id approver)
    then (s, err approver_required)
    else approve_found now id approver (find_proposal id s.proposals) s

unfoldable pub merge_found :
    ℤ → Text → Identity → Option Proposal → Store → Store × Result RequestError Proposal
unfolding step merge_error
merge_found now id merger none s = (s, err (not_found id))
merge_found now id merger (some p) s =
    step (merge_error s.owners p merger) (record p { state = state_merged; updated_at = now }) s

unfoldable pub merge : ℤ → Text → Identity → Store → Store × Result RequestError Proposal
unfolding merge_found find_proposal
merge now id merger s = merge_found now id merger (find_proposal id s.proposals) s

unfoldable pub reject_found :
    ℤ → Text → Identity → Option Proposal → Store → Store × Result RequestError Proposal
unfolding step reject_error
reject_found now id by none s = (s, err (not_found id))
reject_found now id by (some p) s =
    step (reject_error s.owners p by) (record p { state = state_rejected; updated_at = now }) s

unfoldable pub reject : ℤ → Text → Identity → Store → Store × Result RequestError Proposal
unfolding reject_found find_proposal
reject now id by s = reject_found now id by (find_proposal id s.proposals) s
