-- ===== src/Examples/MergeRequest.antt =====
-- Proposals of internal/router/mergerequest/store.go under two owners.
use monofs.Prelude.{some, List, [], ◌∷◌, Text, codes, text_eq, ◌≡◌, refl, ok, err, ◌||◌}
use monofs.Prelude.Int.{pos}
use monofs.Authz.{Identity}
use monofs.MergeRequest.{
  Store, OwnershipChecker, new_store, create, approve, merge, proposal_id, own_proposal,
  wrong_state, state_open,
}
use monofs.MergeRequest.Calls.{Call, creates, approves, merges, called_all, new_store-AllReviewed}
use monofs.MergeRequest.Reviews.{AllReviewed}

abbrev person : Text → Identity
person name = record { subject = name; email = []; groups = []; client_id = [] }

abbrev owners : OwnershipChecker
owners = record {
  owns_all =
      λ paths id. ok (text_eq id.subject (codes "ann") || text_eq id.subject (codes "bob"), paths);
}

abbrev calls : List Call
calls =
    creates (pos 10) (codes "ann") (codes "web") (codes "web/a" ∷ []) [] []
    ∷ approves (pos 20) (codes "mr-1") (person (codes "ann"))
    ∷ approves (pos 30) (codes "mr-1") (person (codes "bob"))
    ∷ merges (pos 40) (codes "mr-1") (person (codes "ann"))
    ∷ []

twelfth_id : proposal_id 12 ≡ codes "mr-12"
unfolding proposal_id
twelfth_id = refl

abbrev with_proposal : Store
with_proposal =
    (create (pos 10) (codes "ann") (codes "web") (codes "web/a" ∷ []) [] []
      (new_store (some owners))).0

no_own_approval :
    (approve (pos 20) (codes "mr-1") (person (codes "ann")) with_proposal).1 ≡ err own_proposal
unfolding approve create new_store text_eq
no_own_approval = refl

no_merge_before_approval :
    (merge (pos 20) (codes "mr-1") (person (codes "bob")) with_proposal).1
    ≡ err (wrong_state (codes "mr-1") state_open)
unfolding merge create new_store text_eq
no_merge_before_approval = refl

new_store-AllReviewed_example : AllReviewed (called_all calls (new_store (some owners)))
new_store-AllReviewed_example = new_store-AllReviewed (some owners) calls
