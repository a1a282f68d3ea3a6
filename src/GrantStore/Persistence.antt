-- ===== src/GrantStore/Persistence.antt =====
-- What is on disk after Add and Replace of pkg/authz/grants.go.
use monofs.Prelude.{
  ℕ, Bool, true, false, Option, none, some, List, [], ◌∷◌, ◌++◌, ok, is_empty, if◌then◌else◌, ◌≡◌,
  ◌⊎◌, refl, ap, inl, inr,
}
use monofs.GrantStore.{
  Grant, GrantError, GrantStore, Disk, Outcome, write_fails, rename_fails, succeeds, GrantsJson,
  encode_failed, write_failed, replace_failed, save_bytes, save_locked, unless_invalid,
  set_and_save, add, replace, load_file, load_decoded, validate, first_invalid,
}

-- JSON gives back the grants that it encodes.
abbrev pub Survives : GrantsJson → List Grant → Type 0
Survives json gs =
    (bytes : List ℕ) → json.marshal_indent gs ≡ some bytes → json.unmarshal bytes ≡ some gs

-- Either no error is returned, and a store that starts from the file has the grants of this one; or
-- an error is returned, and the file is the one before.
abbrev pub Durable : GrantsJson → Disk → GrantStore × (Disk × Option GrantError) → Type 0
Durable json before (s, (after, e)) =
    ((e ≡ none)
      × ((fresh : GrantStore)
          → load_file json after.file fresh ≡ ok (record fresh { grants = s.grants })))
    ⊎ ((reason : GrantError) × ((e ≡ some reason) × (after.file ≡ before.file)))

module _ (json : GrantsJson) where
  save_bytes-Durable :
      (outcome : Outcome) (o : Option (List ℕ)) (s : GrantStore) (d : Disk)
      → json.marshal_indent s.grants ≡ o
      → Survives json s.grants
      → Durable json d (s, save_bytes outcome o d)
  save_bytes-Durable outcome none s d e h = inr (encode_failed, (refl, refl))
  save_bytes-Durable (write_fails left) (some bytes) s d e h = inr (write_failed, (refl, refl))
  save_bytes-Durable rename_fails (some bytes) s d e h = inr (replace_failed, (refl, refl))
  save_bytes-Durable succeeds (some bytes) s d e h =
      inl (refl, λ fresh. ap (λ o. load_decoded json o fresh) (h bytes e))

  unless_path_empty :
      (b : Bool) (outcome : Outcome) (s : GrantStore) (d : Disk)
      → b ≡ false
      → Survives json s.grants
      → Durable json d
          (s, if b then (d, none) else save_bytes outcome (json.marshal_indent s.grants) d)
  unless_path_empty true outcome s d e h = absurd cc
  unless_path_empty false outcome s d e h =
      save_bytes-Durable outcome (json.marshal_indent s.grants) s d refl h

  unless_invalid-Durable :
      (o : Option GrantError) (outcome : Outcome) (gs : List Grant) (s : GrantStore) (d : Disk)
      → is_empty s.persist_path ≡ false
      → Survives json gs
      → Durable json d (unless_invalid json o outcome gs s d)
  unfolding unless_invalid set_and_save save_locked
  unless_invalid-Durable (some reason) outcome gs s d e h = inr (reason, (refl, refl))
  unless_invalid-Durable none outcome gs s d e h =
      unless_path_empty (is_empty s.persist_path) outcome (record s { grants = gs }) d e h

  -- Add and Replace on a store with a file: however its writing and renaming end, either the call
  -- returns no error and a store that starts from the file has the same grants, or it returns an
  -- error and the file is still the one before. JSON gives back the grants that are saved.
  pub changes-Durable :
      (outcome : Outcome) (g : Grant) (gs : List Grant) (s : GrantStore) (d : Disk)
      → is_empty s.persist_path ≡ false
      → Survives json (s.grants ++ g ∷ [])
      → Survives json gs
      → Durable json d (add json outcome g s d) × Durable json d (replace json outcome gs s d)
  unfolding add replace
  changes-Durable outcome g gs s d e h h' = (
    unless_invalid-Durable (validate g) outcome (s.grants ++ g ∷ []) s d e h,
    unless_invalid-Durable (first_invalid gs) outcome gs s d e h',
  )
