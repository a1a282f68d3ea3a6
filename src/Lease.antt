-- ===== src/Lease.antt =====
-- The leader lease: pkg/repowatch/lease.go. The Kubernetes API server is a parameter, with a state of
-- its own, and so are the formats of the package time. Instants and durations are in nanoseconds.
pub mod Exclusion
pub mod Winner
use monofs.Prelude.{
  ℕ, zero, suc, ◌+◌, ◌*◌, ◌/◌, Bool, true, false, not, ◌&&◌, List, [], ◌∷◌, Option, none, some, ltb,
  leb, ◌==◌, if◌then◌else◌, Text, codes, text_eq, trim_space, is_empty, Result, ok, err,
}
use monofs.Prelude.Int.{ℤ, pos, negsuc, to_int64, to_uint64}

abbrev pub default_lease_duration : ℤ
default_lease_duration = pos (15 * 1000000000)

abbrev pub default_lease_renew : ℤ
default_lease_renew = pos (5 * 1000000000)

-- The fields that the election goes by.
pub record LeaseConfig : Type 0 where
  pub lease_namespace : Text
  pub lease_name : Text
  pub lease_identity : Text
  pub lease_duration : ℤ
  pub lease_renew : ℤ
  pub api_server : Text

unfoldable pub enabled : LeaseConfig → Bool
unfolding trim_space
enabled c = not (is_empty (trim_space c.api_server)) && not (is_empty (trim_space c.lease_name))

abbrev pub or_default : ℤ → ℤ → ℤ
or_default (pos zero) d = d
or_default (pos (suc n)) d = pos (suc n)
or_default (negsuc n) d = d

-- `NewElector` without its HTTP client: `identity` is that of the pod or the host.
unfoldable pub new_elector : Text → LeaseConfig → Option LeaseConfig
unfolding enabled
new_elector identity c =
    if enabled c
    then some (record c {
      lease_namespace = if is_empty c.lease_namespace then codes "default" else c.lease_namespace;
      lease_identity = if is_empty c.lease_identity then identity else c.lease_identity;
      lease_duration = or_default c.lease_duration default_lease_duration;
      lease_renew = or_default c.lease_renew default_lease_renew;
    })
    else none

-- The parts of a leaseObject: its name and version, and its specification.
pub record LeaseSpec : Type 0 where
  pub holder_identity : Text
  pub duration_seconds : ℤ
  pub acquire_time : Text
  pub renew_time : Text
  pub lease_transitions : ℤ

pub record LeaseObject : Type 0 where
  pub object_name : Text
  pub object_namespace : Text
  pub resource_version : Text
  pub spec : LeaseSpec

-- `Format` and `Parse` of the package time: the layout with microseconds, and RFC 3339.
pub record TimeFormat : Type 0 where
  pub format_micro : ℕ → Text
  pub parse_micro : Text → Option ℕ
  pub parse_nano : Text → Option ℕ

-- The three requests: getLease, whose answer is `none` for status 404, and writeLease by POST and PUT.
pub record LeaseApi (E S : Type 0) : Type 0 where
  pub get_lease : S → Result E (Option LeaseObject)
  pub post_lease : LeaseObject → S → Result E S
  pub put_lease : LeaseObject → S → Result E S

abbrev pub first_some {ℓ} : {A : Type ℓ} → Option A → Option A → Option A
first_some none o = o
first_some (some a) o = some a

module _ (time : TimeFormat) where
  unfoldable pub parse_lease_time : Text → Option ℕ
  parse_lease_time value = first_some (time.parse_micro value) (time.parse_nano value)

  abbrev pub format_parsed : Option ℕ → ℕ → Text
  format_parsed none fallback = time.format_micro fallback
  format_parsed (some t) fallback = time.format_micro t

  unfoldable pub normalize_lease_time : Text → ℕ → Text
  unfolding parse_lease_time
  normalize_lease_time value fallback = format_parsed (parse_lease_time value) fallback

  -- `time.Duration(seconds) * time.Second` on int64, and the default where that is not positive.
  abbrev pub duration_of : ℤ → ℕ
  duration_of (pos zero) = 15 * 1000000000
  duration_of (pos (suc n)) = suc n
  duration_of (negsuc n) = 15 * 1000000000

  abbrev pub nanoseconds : ℤ → ℤ
  unfolding to_int64 to_uint64
  nanoseconds seconds = to_int64 (to_uint64 seconds * 1000000000)

  abbrev pub expired_at : Option ℕ → ℤ → ℕ → Bool
  unfolding to_int64 to_uint64
  expired_at none seconds now = true
  expired_at (some renewed) seconds now = ltb (renewed + duration_of (nanoseconds seconds)) now

  unfoldable pub holder : LeaseObject → Text
  unfolding trim_space
  holder lease = trim_space lease.spec.holder_identity

  -- `leaseExpired`.
  unfoldable pub lease_expired : LeaseObject → ℕ → Bool
  unfolding holder parse_lease_time expired_at
  lease_expired lease now =
      if is_empty (holder lease)
      then true
      else expired_at (parse_lease_time lease.spec.renew_time) lease.spec.duration_seconds now

  -- `int(d.Seconds())`, towards 0.
  abbrev pub negated : ℕ → ℤ
  negated zero = pos 0
  negated (suc n) = negsuc n

  abbrev pub whole_seconds : ℤ → ℤ
  whole_seconds (pos n) = pos (n / 1000000000)
  whole_seconds (negsuc n) = negated (suc n / 1000000000)

  -- `leaseObject`, whose version and transitions are left at zero.
  unfoldable pub lease_object : LeaseConfig → ℕ → ℕ → LeaseObject
  lease_object c acquire renew = record {
    object_name = c.lease_name;
    object_namespace = c.lease_namespace;
    resource_version = [];
    spec = record {
      holder_identity = c.lease_identity;
      duration_seconds = whole_seconds c.lease_duration;
      acquire_time = time.format_micro acquire;
      renew_time = time.format_micro renew;
      lease_transitions = pos 0;
    };
  }

  -- Whether the lease is left to another holder.
  unfoldable pub held_by_other : LeaseConfig → ℕ → LeaseObject → Bool
  unfolding holder lease_expired text_eq
  held_by_other c now lease =
      not (is_empty (holder lease))
      && (not (text_eq (holder lease) c.lease_identity) && not (lease_expired lease now))

  abbrev pub next_transitions : Bool → ℤ → ℤ
  unfolding to_int64 to_uint64
  next_transitions same n = if same then n else to_int64 (to_uint64 n + 1)

  abbrev pub with_spec : Text → ℤ → Text → LeaseObject → LeaseObject
  with_spec acquire transitions version obj = record obj {
    resource_version = version;
    spec = record obj.spec { acquire_time = acquire; lease_transitions = transitions };
  }

  -- What tryAcquire writes over a lease that it takes.
  unfoldable pub taken : LeaseConfig → ℕ → LeaseObject → LeaseObject
  unfolding holder text_eq normalize_lease_time next_transitions lease_object
  taken c now lease =
      let same = text_eq (holder lease) c.lease_identity in
      with_spec
        (normalize_lease_time (if same then lease.spec.acquire_time else time.format_micro now) now)
        (next_transitions same lease.spec.lease_transitions) lease.resource_version
        (lease_object c now now)

  module _ {E S : Type 0} (api : LeaseApi E S) where
    abbrev pub written : Result E S → Result E (Bool × S)
    written (err e) = err e
    written (ok s) = ok (true, s)

    abbrev pub acquire_found :
        LeaseConfig → ℕ → Result E (Option LeaseObject) → S → Result E (Bool × S)
    unfolding held_by_other taken lease_object
    acquire_found c now (err e) s = err e
    acquire_found c now (ok none) s = written (api.post_lease (lease_object c now now) s)
    acquire_found c now (ok (some lease)) s =
        if held_by_other c now lease
        then ok (false, s)
        else written (api.put_lease (taken c now lease) s)

    -- `tryAcquire`, which reads the server in one state and writes to it in a later one.
    unfoldable pub try_acquire : LeaseConfig → ℕ → S → S → Result E (Bool × S)
    unfolding acquire_found
    try_acquire c now read s = acquire_found c now (api.get_lease read) s

    -- The errors of renew are those of the API and that the lease is not held any more.
    abbrev pub renewed_to : Result E S → Result (Option E) S
    renewed_to (err e) = err (some e)
    renewed_to (ok s) = ok s

    abbrev pub renew_found :
        LeaseConfig → ℕ → Result E (Option LeaseObject) → S → Result (Option E) S
    unfolding holder text_eq normalize_lease_time lease_object
    renew_found c now (err e) s = err (some e)
    renew_found c now (ok none) s = err none
    renew_found c now (ok (some lease)) s =
        if text_eq (holder lease) c.lease_identity
        then renewed_to (
            api.put_lease
              (with_spec (normalize_lease_time lease.spec.acquire_time now)
                lease.spec.lease_transitions lease.resource_version (lease_object c now now))
              s)
        else err none

    unfoldable pub renew : LeaseConfig → ℕ → S → S → Result (Option E) S
    unfolding renew_found
    renew c now read s = renew_found c now (api.get_lease read) s

-- `renewLoop` on how its renewals end: after how many it gives the lease up, if it does.
abbrev pub one_later : Option ℕ → Option ℕ
one_later none = none
one_later (some n) = some (suc n)

unfoldable pub renew_loop : ℕ → List Bool → Option ℕ
renew_loop failures [] = none
renew_loop failures (true ∷ rest) = one_later (renew_loop 0 rest)
renew_loop failures (false ∷ rest) =
    let later = one_later (renew_loop (suc failures) rest) in
    if leb 2 (suc failures) then some 1 else later
