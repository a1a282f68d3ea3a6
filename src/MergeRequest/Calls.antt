-- ===== src/MergeRequest/Calls.antt =====
-- All that can happen to the store of proposals: internal/router/mergerequest/store.go.
use monofs.Prelude.{
  suc, Bool, true, false, Option, List, [], ◌∷◌, Result, err, if◌then◌else◌, Text, is_empty,
  has_text, refl,
}
use monofs.Prelude.Int.{ℤ}
use monofs.Authz.{Identity, principal_id}
use monofs.MergeRequest.{
  Proposal, Store, RequestError, author_required, approver_required, OwnershipChecker,
  find_proposal, new_store, opened, store_proposal, create, approve_found, approve, merge, reject,
}
use monofs.MergeRequest.Reviews.{
  AllReviewed, put_proposal-All, find_proposal-FoundReviewed, approve_found-AllReviewed,
  merge_found-AllReviewed, reject_found-AllReviewed,
}

-- A call of one of the methods that change the store, with the time at which it is made.
pub data Call : Type 0 where
  creates : ℤ → Text → Text → List Text → Text → Text → Call
  approves : ℤ → Text → Identity → Call
  merges : ℤ → Text → Identity → Call
  rejects : ℤ → Text → Identity → Call

unfoldable pub called : Call → Store → Store
unfolding create approve merge reject
called (creates now author partition paths title description) s =
    (create now author partition paths title description s).0
called (approves now id approver) s = (approve now id approver s).0
called (merges now id merger) s = (merge now id merger s).0
called (rejects now id by) s = (reject now id by s).0

unfoldable pub called_all : List Call → Store → Store
unfolding called
called_all [] s = s
called_all (c ∷ cs) s = called_all cs (called c s)

if_error :
    (b : Bool) (e : RequestError) (s : Store) (r : Store × Result RequestError Proposal)
    → AllReviewed s
    → AllReviewed r.0
    → AllReviewed (if b then (s, err e) else r).0
if_error true e s r hs hr = hs
if_error false e s r hs hr = hr

called-AllReviewed : (c : Call) (s : Store) → AllReviewed s → AllReviewed (called c s)
unfolding called create store_proposal approve merge reject has_text
called-AllReviewed (creates now author partition [] title description) s hs = hs
called-AllReviewed (creates now author partition (path ∷ paths) title description) s hs =
    let p = opened now author partition (path ∷ paths) title description (suc s.seq) in
    if_error (is_empty author) author_required s (store_proposal p (suc s.seq) s) hs
      (put_proposal-All p s.proposals (refl, refl) hs)
called-AllReviewed (approves now id approver) s hs =
    let o = find_proposal id s.proposals in
    if_error (is_empty (principal_id approver)) approver_required s
      (approve_found now id approver o s) hs
      (approve_found-AllReviewed now id approver o s hs
        (find_proposal-FoundReviewed id s.proposals hs))
called-AllReviewed (merges now id merger) s hs =
    merge_found-AllReviewed now id merger (find_proposal id s.proposals) s hs
      (find_proposal-FoundReviewed id s.proposals hs)
called-AllReviewed (rejects now id by) s hs =
    reject_found-AllReviewed now id by (find_proposal id s.proposals) s hs
      (find_proposal-FoundReviewed id s.proposals hs)

called_all-AllReviewed :
    (cs : List Call) (s : Store) → AllReviewed s → AllReviewed (called_all cs s)
unfolding called_all
called_all-AllReviewed [] s hs = hs
called_all-AllReviewed (c ∷ cs) s hs =
    called_all-AllReviewed cs (called c s) (called-AllReviewed c s hs)

-- Whatever calls a new store takes, in whatever order, of each of its proposals: the author is never
-- among those who approved it, and a proposal that is approved or merged was approved by someone.
pub new_store-AllReviewed :
    (owners : Option OwnershipChecker) (cs : List Call)
    → AllReviewed (called_all cs (new_store owners))
unfolding new_store
new_store-AllReviewed owners cs = called_all-AllReviewed cs (new_store owners) _
