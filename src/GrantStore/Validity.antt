-- ===== src/GrantStore/Validity.antt =====
-- Every grant in the store of pkg/authz/grants.go is valid.
use monofs.Prelude.{Option, none, some, List, [], ◌∷◌, ◌++◌, All, ◌≡◌, refl}
use monofs.GrantStore.{
  Grant, GrantError, GrantStore, Disk, Outcome, GrantsJson, validate, first_error, first_invalid,
  unless_invalid, add, replace,
}

-- Add or Replace, and how the system calls of its saving end.
pub data Change : Type 0 where
  adds : Outcome → Grant → Change
  replaces : Outcome → List Grant → Change

-- The grants pass Validate, as those of a new store with no file do.
abbrev pub IsValid : GrantStore → Type 0
IsValid s = All (λ g. validate g ≡ none) s.grants

All-append :
    (gs : List Grant) (g : Grant)
    → All (λ x. validate x ≡ none) gs
    → validate g ≡ none
    → All (λ x. validate x ≡ none) (gs ++ g ∷ [])
All-append [] g h e = (e, _)
All-append (x ∷ gs) g (p, h) e = (p, All-append gs g h e)

first_error-none :
    (o later : Option GrantError) → first_error o later ≡ none → (o ≡ none) × (later ≡ none)
first_error-none none later h = (refl, h)
first_error-none (some e) later h = absurd cc

first_invalid-All : (gs : List Grant) → first_invalid gs ≡ none → All (λ g. validate g ≡ none) gs
unfolding first_invalid
first_invalid-All [] h = _
first_invalid-All (g ∷ gs) h =
    let (here, rest) = first_error-none (validate g) (first_invalid gs) h in
    (here, first_invalid-All gs rest)

module _ (json : GrantsJson) where
  -- The store after a change, whatever became of the file.
  abbrev pub changed : Change → GrantStore × Disk → GrantStore × Disk
  unfolding add replace
  changed (adds outcome g) (s, d) = let (s', (d', e)) = add json outcome g s d in (s', d')
  changed (replaces outcome gs) (s, d) = let (s', (d', e)) = replace json outcome gs s d in (s', d')

  abbrev pub change_all : List Change → GrantStore × Disk → GrantStore × Disk
  unfolding changed
  change_all [] state = state
  change_all (c ∷ cs) state = change_all cs (changed c state)

  unless_invalid-IsValid :
      (o : Option GrantError) (outcome : Outcome) (gs : List Grant) (s : GrantStore) (d : Disk)
      → IsValid s
      → (o ≡ none → All (λ g. validate g ≡ none) gs)
      → IsValid (unless_invalid json o outcome gs s d).0
  unfolding unless_invalid
  unless_invalid-IsValid (some e) outcome gs s d h f = h
  unless_invalid-IsValid none outcome gs s d h f = f refl

  changed-IsValid :
      (c : Change) (s : GrantStore) (d : Disk) → IsValid s → IsValid (changed c (s, d)).0
  unfolding changed add replace
  changed-IsValid (adds outcome g) s d h =
      unless_invalid-IsValid (validate g) outcome (s.grants ++ g ∷ []) s d h
        (All-append s.grants g h)
  changed-IsValid (replaces outcome gs) s d h =
      unless_invalid-IsValid (first_invalid gs) outcome gs s d h (first_invalid-All gs)

  -- Every grant of the store is valid after any sequence of Add and Replace, whichever of them are
  -- refused and whichever writes fail, if every grant was valid before.
  pub change_all-IsValid :
      (cs : List Change) (s : GrantStore) (d : Disk) → IsValid s → IsValid (change_all cs (s, d)).0
  unfolding change_all
  change_all-IsValid [] s d h = h
  change_all-IsValid (c ∷ cs) s d h =
      let (s', d') = changed c (s, d) in change_all-IsValid cs s' d' (changed-IsValid c s d h)
