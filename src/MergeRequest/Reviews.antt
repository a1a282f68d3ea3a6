-- ===== src/MergeRequest/Reviews.antt =====
-- A proposal of internal/router/mergerequest/store.go is merged only after a review.
use monofs.Prelude.{
  Bool, true, false, not, Option, none, some, List, [], ◌∷◌, ◌++◌, All, if◌then◌else◌, Text,
  text_eq, has_text, Bool-cases, ◌||◌, ◌≡◌, refl, ◌∙◌, inl, inr, arith,
}
use monofs.Prelude.Int.{ℤ}
use monofs.Authz.{Identity, principal_id}
use monofs.MergeRequest.{
  State, state_open, state_approved, state_merged, state_rejected, Proposal, Store, RequestError,
  wrong_state, own_proposal, is_open, OwnershipChecker, find_proposal, put_proposal, is_approved,
  require_owner, step, approve_error, approved_by, merge_error, reject_error, approve_found,
  merge_found, reject_found,
}

abbrev pub backed : State → List Text → Bool
backed state_open approvals = true
backed state_rejected approvals = true
backed state_approved [] = false
backed state_approved (a ∷ approvals) = true
backed state_merged [] = false
backed state_merged (a ∷ approvals) = true

-- The author is not among those who approved, and where the proposal is approved or merged, someone
-- approved it.
abbrev pub IsReviewed : Proposal → Type 0
IsReviewed p = (has_text p.author p.approvals ≡ false) × (backed p.state p.approvals ≡ true)

abbrev pub AllReviewed : Store → Type 0
AllReviewed s = All IsReviewed s.proposals

pub put_proposal-All :
    (p : Proposal) (ps : List Proposal)
    → IsReviewed p
    → All IsReviewed ps
    → All IsReviewed (put_proposal p ps)
unfolding put_proposal
put_proposal-All p [] h hs = (h, _)
put_proposal-All p (q ∷ qs) h (hq, hs) = elim (Bool-cases (text_eq q.id p.id)) [
  | inl t ↦ simp t (h, hs)
  | inr f ↦ simp f (hq, put_proposal-All p qs h hs)
]

abbrev pub FoundReviewed : Option Proposal → Type 0
FoundReviewed none = Unit
FoundReviewed (some p) = IsReviewed p

pub find_proposal-FoundReviewed :
    (id : Text) (ps : List Proposal) → All IsReviewed ps → FoundReviewed (find_proposal id ps)
unfolding find_proposal
find_proposal-FoundReviewed id [] hs = _
find_proposal-FoundReviewed id (q ∷ qs) (hq, hs) = elim (Bool-cases (text_eq q.id id)) [
  | inl t ↦ simp t hq
  | inr f ↦ simp f (find_proposal-FoundReviewed id qs hs)
]

step-AllReviewed :
    (o : Option RequestError) (p : Proposal) (s : Store)
    → AllReviewed s
    → (o ≡ none → IsReviewed p)
    → AllReviewed (step o p s).0
unfolding step
step-AllReviewed (some e) p s hs h = hs
step-AllReviewed none p s hs h = put_proposal-All p s.proposals (h refl) hs

has_text-append :
    (t x : Text) (xs : List Text) → has_text t (xs ++ x ∷ []) ≡ (has_text t xs || text_eq x t)
unfolding has_text
has_text-append t x [] = ground arith
has_text-append t x (y ∷ ys) = ground (arith, has_text-append t x ys)

backed-append : (xs : List Text) (x : Text) → backed state_approved (xs ++ x ∷ []) ≡ true
backed-append [] x = refl
backed-append (y ∷ ys) x = refl

backed-has_text :
    (xs : List Text) (x : Text) → has_text x xs ≡ true → backed state_approved xs ≡ true
unfolding has_text
backed-has_text [] x h = h
backed-has_text (y ∷ ys) x h = refl

approved_by-IsReviewed :
    (now : ℤ) (approver : Text) (p : Proposal)
    → text_eq approver p.author ≡ false
    → IsReviewed p
    → IsReviewed (approved_by now approver p)
unfolding approved_by
approved_by-IsReviewed now approver p e (h, b) = elim (Bool-cases (has_text approver p.approvals)) [
  | inl t ↦ simp t (h, backed-has_text p.approvals approver t)
  | inr f ↦ simp f (
    has_text-append p.author approver p.approvals ∙ ground arith,
    backed-append p.approvals approver,
  )
]

-- What the checks of an approval say where they find no error.
approve_error-author :
    (owners : Option OwnershipChecker) (p : Proposal) (approver : Identity)
    → approve_error owners p approver ≡ none
    → text_eq (principal_id approver) p.author ≡ false
unfolding approve_error
approve_error-author owners p approver h =
    go (is_open p.state) (text_eq (principal_id approver) p.author)
      (require_owner owners p approver) h
  where
    go :
        (opened_yet own : Bool) (o : Option RequestError)
        → (if not opened_yet
            then some (wrong_state p.id p.state)
            else if own
            then some own_proposal
            else o)
          ≡ none
        → own ≡ false
    go false own o h = absurd cc
    go true true o h = absurd cc
    go true false o h = refl

checked :
    (b : Bool) (e : RequestError) (o : Option RequestError)
    → (if not b then some e else o) ≡ none
    → b ≡ true
checked true e o h = refl
checked false e o h = absurd cc

backed-merged :
    (state : State) (approvals : List Text)
    → is_approved state ≡ true
    → backed state approvals ≡ true
    → backed state_merged approvals ≡ true
backed-merged state_open approvals e b = absurd (ground arith)
backed-merged state_merged approvals e b = b
backed-merged state_rejected approvals e b = absurd (ground arith)
backed-merged state_approved [] e b = b
backed-merged state_approved (a ∷ approvals) e b = b

pub approve_found-AllReviewed :
    (now : ℤ) (id : Text) (approver : Identity) (o : Option Proposal) (s : Store)
    → AllReviewed s
    → FoundReviewed o
    → AllReviewed (approve_found now id approver o s).0
unfolding approve_found
approve_found-AllReviewed now id approver none s hs h = hs
approve_found-AllReviewed now id approver (some p) s hs h =
    step-AllReviewed (approve_error s.owners p approver) (approved_by now (principal_id approver) p)
      s hs
      (λ e.
        approved_by-IsReviewed now (principal_id approver) p
          (approve_error-author s.owners p approver e) h)

pub merge_found-AllReviewed :
    (now : ℤ) (id : Text) (merger : Identity) (o : Option Proposal) (s : Store)
    → AllReviewed s
    → FoundReviewed o
    → AllReviewed (merge_found now id merger o s).0
unfolding merge_found merge_error
merge_found-AllReviewed now id merger none s hs h = hs
merge_found-AllReviewed now id merger (some p) s hs (h, b) =
    step-AllReviewed (merge_error s.owners p merger)
      (record p { state = state_merged; updated_at = now }) s hs
      (λ e. (
        h,
        backed-merged p.state p.approvals
            (checked (is_approved p.state) (wrong_state p.id p.state)
              (require_owner s.owners p merger) e)
            b,
      ))

pub reject_found-AllReviewed :
    (now : ℤ) (id : Text) (by : Identity) (o : Option Proposal) (s : Store)
    → AllReviewed s
    → FoundReviewed o
    → AllReviewed (reject_found now id by o s).0
unfolding reject_found
reject_found-AllReviewed now id by none s hs h = hs
reject_found-AllReviewed now id by (some p) s hs (h, b) =
    step-AllReviewed (reject_error s.owners p by)
      (record p { state = state_rejected; updated_at = now }) s hs (λ e. (h, refl))
