-- ===== src/Lease/Winner.antt =====
-- Electors whose acquisitions overlap: tryAcquire of pkg/repowatch/lease.go reads the lease and
-- writes it later, and other electors and clients write in between.
use monofs.Prelude.{
  ℕ, Bool, true, false, Option, none, some, Bool-cases, Text, ◌≡◌, ◌≢◌, refl, sym, subst, inl, inr,
  Result, ok, err, text_eq,
}
use monofs.Lease.{
  LeaseConfig, LeaseObject, LeaseApi, TimeFormat, holder, held_by_other, taken, acquire_found,
  written, try_acquire, renewed_to, renew_found, renew,
}
use monofs.Lease.Exclusion.{Optimistic}

module _ {E S : Type 0} (api : LeaseApi E S) where
  -- A write of the lease, by an elector or by any other client, that the server accepts.
  pub data LeaseWrite (s : S) (s' : S) : Type 0 where
    puts : (obj : LeaseObject) → api.put_lease obj s ≡ ok s' → LeaseWrite s s'
    posts : (obj : LeaseObject) → api.post_lease obj s ≡ ok s' → LeaseWrite s s'

  pub data LeaseWrites (s : S) : S → Type 0 where
    unwritten : LeaseWrites s s
    then : {t u : S} → LeaseWrites s t → LeaseWrite t u → LeaseWrites s u

  -- The server gives every object that it stores a version that it has not used before. `Used s v` says
  -- that it has given out the version `v` before the state `s`.
  pub record Versions : Type 1 where
    pub Used : S → Text → Type 0
    pub current_used :
        (s : S) (lease : LeaseObject)
        → api.get_lease s ≡ ok (some lease)
        → Used s lease.resource_version
    pub stays_used : (s s' : S) (v : Text) → LeaseWrite s s' → Used s v → Used s' v
    pub stored_unused :
        (s s' : S) (new : LeaseObject)
        → LeaseWrite s s'
        → api.get_lease s' ≡ ok (some new)
        → ¬ Used s new.resource_version

  -- The writes of the electors are such writes.
  module _ (time : TimeFormat) where
    written-ok : (r : Result E S) (s' : S) → written time api r ≡ ok (true, s') → r ≡ ok s'
    written-ok (err e) s' h = cc
    written-ok (ok s) s' h = cc

    acquire_found-LeaseWrite :
        (a : LeaseConfig) (now : ℕ) (s s' : S) (r : Result E (Option LeaseObject))
        → acquire_found time api a now r s ≡ ok (true, s')
        → LeaseWrite s s'
    unfolding acquire_found
    acquire_found-LeaseWrite a now s s' (err e) h = absurd (refused h)
      where
        refused : Path (Result E (Bool × S)) (err e) (ok (true, s')) → ⊥
        refused p = cc
    acquire_found-LeaseWrite a now s s' (ok none) h = posts _ (written-ok _ s' h)
    acquire_found-LeaseWrite a now s s' (ok (some lease)) h =
        elim (Bool-cases (held_by_other time a now lease)) [
          | inl t ↦ absurd (not_false s s' (rw t at h))
          | inr f ↦ puts _ (written-ok _ s' (rw f at h))
        ]
      where
        not_false : (x y : S) → Path (Result E (Bool × S)) (ok (false, x)) (ok (true, y)) → ⊥
        not_false x y e = cc

    try_acquire-LeaseWrite :
        (a : LeaseConfig) (now : ℕ) (read s s' : S)
        → try_acquire time api a now read s ≡ ok (true, s')
        → LeaseWrite s s'
    unfolding try_acquire
    try_acquire-LeaseWrite a now read s s' h =
        acquire_found-LeaseWrite a now s s' (api.get_lease read) h

    renewed-ok : (r : Result E S) (s' : S) → renewed_to time api r ≡ ok s' → r ≡ ok s'
    renewed-ok (err e) s' h = cc
    renewed-ok (ok s) s' h = cc

    renew_found-LeaseWrite :
        (a : LeaseConfig) (now : ℕ) (s s' : S) (r : Result E (Option LeaseObject))
        → renew_found time api a now r s ≡ ok s'
        → LeaseWrite s s'
    unfolding renew_found
    renew_found-LeaseWrite a now s s' (err e) h = absurd (refused h)
      where
        refused : Path (Result (Option E) S) (err (some e)) (ok s') → ⊥
        refused p = cc
    renew_found-LeaseWrite a now s s' (ok none) h = absurd (refused h)
      where
        refused : Path (Result (Option E) S) (err none) (ok s') → ⊥
        refused p = cc
    renew_found-LeaseWrite a now s s' (ok (some lease)) h =
        elim (Bool-cases (text_eq (holder time lease) a.lease_identity)) [
          | inl t ↦ puts _ (renewed-ok _ s' (rw t at h))
          | inr f ↦ absurd (refused (rw f at h))
        ]
      where
        refused : Path (Result (Option E) S) (err none) (ok s') → ⊥
        refused p = cc

    pub renew-LeaseWrite :
        (a : LeaseConfig) (now : ℕ) (read s s' : S)
        → renew time api a now read s ≡ ok s'
        → LeaseWrite s s'
    unfolding renew
    renew-LeaseWrite a now read s s' h = renew_found-LeaseWrite a now s s' (api.get_lease read) h

module _ {E S : Type 0} (api : LeaseApi E S) (optimistic : Optimistic api)
    (versions : Versions api) where
  IsPresent : S → Type 0
  IsPresent s = (lease : LeaseObject) × (api.get_lease s ≡ ok (some lease))

  LeaseWrite-IsPresent : (s s' : S) → LeaseWrite api s s' → IsPresent s'
  unfolding IsPresent
  LeaseWrite-IsPresent s s' (puts obj e) =
      let (new, stored, same, other) = optimistic.put_stored obj s s' e in (new, stored)
  LeaseWrite-IsPresent s s' (posts obj e) =
      let (new, stored, same) = optimistic.post_stored obj s s' e in (new, stored)

  LeaseWrites-IsPresent : {s t : S} → IsPresent s → LeaseWrites api s t → IsPresent t
  LeaseWrites-IsPresent h unwritten = h
  LeaseWrites-IsPresent h (then {t = t} {u = u} ws w) = LeaseWrite-IsPresent t u w

  LeaseWrites-Used :
      {s t : S} (v : Text) → versions.Used s v → LeaseWrites api s t → versions.Used t v
  LeaseWrites-Used v h unwritten = h
  LeaseWrites-Used v h (then {t = t} {u = u} ws w) =
      versions.stays_used t u v w (LeaseWrites-Used v h ws)

  -- The version `v` has been given out, and the lease has another one.
  record IsPast (v : Text) (s : S) : Type 0 where
    used : versions.Used s v
    other : (lease : LeaseObject) → api.get_lease s ≡ ok (some lease) → lease.resource_version ≢ v

  LeaseWrite-IsPast : (v : Text) (s s' : S) → versions.Used s v → LeaseWrite api s s' → IsPast v s'
  LeaseWrite-IsPast v s s' h w = record {
    used = versions.stays_used s s' v w h;
    other = λ lease g same.
        versions.stored_unused s s' lease w g (subst (λ x. versions.Used s x) (sym same) h);
  }

  LeaseWrites-IsPast : {s t : S} (v : Text) → IsPast v s → LeaseWrites api s t → IsPast v t
  LeaseWrites-IsPast v h unwritten = h
  LeaseWrites-IsPast v h (then {t = t} {u = u} ws w) =
      LeaseWrite-IsPast v t u (LeaseWrites-IsPast v h ws).used w

  module _ (time : TimeFormat) where
    abbrev pub Fails : Result E (Bool × S) → Type 0
    Fails (err e) = Unit
    Fails (ok (false, s')) = Unit
    Fails (ok (true, s')) = ⊥

    post-Fails :
        (obj lease : LeaseObject) (s : S) (r : Result E S)
        → api.get_lease s ≡ ok (some lease)
        → api.post_lease obj s ≡ r
        → Fails (written time api r)
    post-Fails obj lease s (err e) g p = _
    post-Fails obj lease s (ok s') g p = let absent = optimistic.post_absent obj s s' p in cc

    put-Fails :
        (obj : LeaseObject) (s : S) (r : Result E S)
        → IsPast obj.resource_version s
        → api.put_lease obj s ≡ r
        → Fails (written time api r)
    put-Fails obj s (err e) past p = _
    put-Fails obj s (ok s') past p =
        let (old, current, version) = optimistic.put_current obj s s' p in
        absurd (past.other old current version)

    -- The write of an elector fails where the lease has been written since the elector read it.
    found-Fails :
        (b : LeaseConfig) (now : ℕ) (read s s1 s2 : S) (r : Result E (Option LeaseObject))
        → api.get_lease read ≡ r
        → LeaseWrites api read s
        → LeaseWrite api s s1
        → LeaseWrites api s1 s2
        → Fails (acquire_found time api b now r s2)
    unfolding acquire_found taken IsPresent
    found-Fails b now read s s1 s2 (err e) g before w after = _
    found-Fails b now read s s1 s2 (ok none) g before w after =
        let (lease, there) = LeaseWrites-IsPresent (LeaseWrite-IsPresent s s1 w) after in
        post-Fails _ lease s2 _ there refl
    found-Fails b now read s s1 s2 (ok (some lease)) g before w after =
        let v = lease.resource_version in
        let used = LeaseWrites-Used v (versions.current_used read lease g) before in
        elim (Bool-cases (held_by_other time b now lease)) [
          | inl t ↦ rw t _
          | inr f ↦
              rw f (
                put-Fails _ s2 _ (LeaseWrites-IsPast v (LeaseWrite-IsPast v s s1 used w) after)
                  refl)
        ]

    -- Where one elector acquires the lease between the read and the write of another's tryAcquire, the
    -- other does not acquire it, whatever the clocks of both say, and whatever the first had read: the
    -- same state as the other, or another one. Any electors and clients may have written the lease any
    -- number of times before the acquisition and after it. The server checks versions as it documents,
    -- and gives no version twice; the lease is not deleted between the read and the write.
    pub try_acquire-Fails :
        (a b : LeaseConfig) (now now' : ℕ) (read_a read_b s s1 s2 : S)
        → LeaseWrites api read_b s
        → try_acquire time api a now read_a s ≡ ok (true, s1)
        → LeaseWrites api s1 s2
        → Fails (try_acquire time api b now' read_b s2)
    unfolding try_acquire
    try_acquire-Fails a b now now' read_a read_b s s1 s2 before acquires after =
        found-Fails b now' read_b s s1 s2 (api.get_lease read_b) refl before
          (try_acquire-LeaseWrite api time a now read_a s s1 acquires) after
