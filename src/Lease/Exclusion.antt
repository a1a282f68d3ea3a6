-- ===== src/Lease/Exclusion.antt =====
-- Who may hold the lease: tryAcquire of pkg/repowatch/lease.go takes nothing from a holder
-- whose lease has not expired.
use monofs.Prelude.{
  ℕ, Bool, true, false, Option, none, some, Bool-cases, ◌≡◌, ◌≢◌, ◌⊎◌, refl, sym, ap, ◌∙◌, inl, inr,
  Result, ok, err,
}
use monofs.Lease.{
  LeaseConfig, LeaseSpec, LeaseObject, LeaseApi, TimeFormat, held_by_other, taken, lease_object,
  acquire_found, written, try_acquire,
}

-- What the API server documents: a PUT succeeds only on the version of the object that it names, and
-- gives it another version; a POST succeeds only where there is no object.
pub record Optimistic {E S : Type 0} (api : LeaseApi E S) : Type 0 where
  pub put_current :
      (obj : LeaseObject) (s s' : S)
      → api.put_lease obj s ≡ ok s'
      → (old : LeaseObject) × (api.get_lease s ≡ ok (some old))
        × (old.resource_version ≡ obj.resource_version)
  pub put_stored :
      (obj : LeaseObject) (s s' : S)
      → api.put_lease obj s ≡ ok s'
      → (new : LeaseObject) × (api.get_lease s' ≡ ok (some new))
        × (new.spec ≡ obj.spec)
        × (new.resource_version ≢ obj.resource_version)
  pub post_absent :
      (obj : LeaseObject) (s s' : S) → api.post_lease obj s ≡ ok s' → api.get_lease s ≡ ok none
  pub post_stored :
      (obj : LeaseObject) (s s' : S)
      → api.post_lease obj s ≡ ok s'
      → (new : LeaseObject) × (api.get_lease s' ≡ ok (some new)) × (new.spec ≡ obj.spec)

module _ (time : TimeFormat) {E S : Type 0} (api : LeaseApi E S) (optimistic : Optimistic api) where
  -- Nobody holds the lease, or the elector itself does, or it has expired.
  abbrev pub IsFree : LeaseConfig → ℕ → S → Type 0
  IsFree c now s =
      (api.get_lease s ≡ ok none)
      ⊎ ((lease : LeaseObject) × (api.get_lease s ≡ ok (some lease))
          × (held_by_other time c now lease ≡ false))

  abbrev pub IsHeldBy : LeaseConfig → S → Type 0
  IsHeldBy c s =
      (lease : LeaseObject) × (api.get_lease s ≡ ok (some lease))
      × (lease.spec.holder_identity ≡ c.lease_identity)

  -- A version names one object: that of the later state is the one that was read.
  abbrev pub NamesOne : S → S → Type 0
  NamesOne read s =
      (a b : LeaseObject)
      → api.get_lease read ≡ ok (some a)
      → api.get_lease s ≡ ok (some b)
      → a.resource_version ≡ b.resource_version
      → a ≡ b

  -- What tryAcquire does, by its result.
  abbrev pub Outcome : LeaseConfig → ℕ → S → S → Result E (Bool × S) → Type 0
  Outcome c now read s (err e) = Unit
  Outcome c now read s (ok (false, s')) =
      (s' ≡ s)
      × ((lease : LeaseObject) × (api.get_lease read ≡ ok (some lease))
          × (held_by_other time c now lease ≡ true))
  Outcome c now read s (ok (true, s')) = IsFree c now s × IsHeldBy c s'

  post-Outcome :
      (c : LeaseConfig) (now : ℕ) (read s : S) (r : Result E S)
      → api.post_lease (lease_object time c now now) s ≡ r
      → Outcome c now read s (written time api r)
  unfolding lease_object
  post-Outcome c now read s (err e) p = _
  post-Outcome c now read s (ok s') p =
      let (new, stored, same) = optimistic.post_stored (lease_object time c now now) s s' p in
      (
        inl (optimistic.post_absent (lease_object time c now now) s s' p),
        (new, stored, ap (λ (x : LeaseSpec). x.holder_identity) same),
      )

  put-Outcome :
      (c : LeaseConfig) (now : ℕ) (read s : S) (lease : LeaseObject) (r : Result E S)
      → NamesOne read s
      → api.get_lease read ≡ ok (some lease)
      → held_by_other time c now lease ≡ false
      → api.put_lease (taken time c now lease) s ≡ r
      → Outcome c now read s (written time api r)
  unfolding taken lease_object
  put-Outcome c now read s lease (err e) one g f p = _
  put-Outcome c now read s lease (ok s') one g f p =
      let (old, current, version) = optimistic.put_current (taken time c now lease) s s' p in
      let (new, stored, same, other) = optimistic.put_stored (taken time c now lease) s s' p in
      (
        inr (
          lease,
          current ∙ ap (λ l. ok (some l)) (sym (one lease old g current (sym version))),
          f,
        ),
        (new, stored, ap (λ (x : LeaseSpec). x.holder_identity) same),
      )

  found-Outcome :
      (c : LeaseConfig) (now : ℕ) (read s : S) (r : Result E (Option LeaseObject))
      → NamesOne read s
      → api.get_lease read ≡ r
      → Outcome c now read s (acquire_found time api c now r s)
  unfolding acquire_found
  found-Outcome c now read s (err e) one g = _
  found-Outcome c now read s (ok none) one g = post-Outcome c now read s _ refl
  found-Outcome c now read s (ok (some lease)) one g =
      elim (Bool-cases (held_by_other time c now lease)) [
        | inl t ↦ rw t (refl, (lease, g, t))
        | inr f ↦ rw f (put-Outcome c now read s lease _ one g f refl)
      ]

  -- tryAcquire takes the lease only where, at the moment of its write, there is no lease, or nobody or
  -- the elector itself holds it, or it has expired; then the elector holds it. Where the elector finds
  -- that another holds a lease that has not expired, it writes nothing. The state of the server at the
  -- write may be another than at the read; the server checks versions as it documents, and a version
  -- names one object.
  pub try_acquire-Outcome :
      (c : LeaseConfig) (now : ℕ) (read s : S)
      → NamesOne read s
      → Outcome c now read s (try_acquire time api c now read s)
  unfolding try_acquire
  try_acquire-Outcome c now read s one = found-Outcome c now read s (api.get_lease read) one refl
