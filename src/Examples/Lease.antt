-- ===== src/Examples/Lease.antt =====
-- Two electors of pkg/repowatch/lease.go at a server whose versions grow longer.
use monofs.Prelude.{
  ℕ, zero, suc, Bool, true, false, Option, none, some, [], ◌∷◌, length, Text, codes, text_eq,
  text_eq_sound, ◌≤◌, ◌≡◌, ◌≢◌, refl, sym, ap, ◌∙◌, arith, Result, ok, err,
}
use monofs.Prelude.Int.{pos}
use monofs.Lease.{LeaseConfig, LeaseObject, LeaseApi, TimeFormat, try_acquire, renew, renew_loop}
use monofs.Lease.Exclusion.{Optimistic, Outcome, try_acquire-Outcome}
use monofs.Lease.Winner.{
  LeaseWrite, puts, posts, LeaseWrites, unwritten, then, Versions, renew-LeaseWrite, Fails,
  try_acquire-Fails,
}

-- Instants are written in unary.
abbrev ticks : ℕ → Text
ticks zero = []
ticks (suc n) = 49 ∷ ticks n

abbrev time : TimeFormat
time = record { format_micro = ticks; parse_micro = λ t. some (length t); parse_nano = λ t. none }

abbrev versioned : Text → LeaseObject → LeaseObject
versioned v obj = record obj { resource_version = v }

abbrev put_over : Bool → LeaseObject → Result ℕ (Option LeaseObject)
put_over true obj = ok (some (versioned (118 ∷ obj.resource_version) obj))
put_over false obj = err 409

abbrev put : LeaseObject → Option LeaseObject → Result ℕ (Option LeaseObject)
put obj none = err 404
put obj (some old) = put_over (text_eq old.resource_version obj.resource_version) obj

abbrev post : LeaseObject → Option LeaseObject → Result ℕ (Option LeaseObject)
post obj none = ok (some (versioned (codes "v") obj))
post obj (some old) = err 409

abbrev api : LeaseApi ℕ (Option LeaseObject)
api = record { get_lease = λ s. ok s; post_lease = post; put_lease = put }

longer : (v : Text) → 118 ∷ v ≢ v
longer v e = let n : suc (length v) ≡ length v = ap length e in absurd (omega arith)

state_of : Result ℕ (Option LeaseObject) → Option LeaseObject
state_of (err e) = none
state_of (ok s) = s

stored :
    (obj : LeaseObject) (b : Bool) (s' : Option LeaseObject)
    → put_over b obj ≡ ok s'
    → (b ≡ true) × (s' ≡ some (versioned (118 ∷ obj.resource_version) obj))
unfolding state_of
stored obj true s' h = (refl, sym (ap state_of h))
stored obj false s' h = cc

api-Optimistic : Optimistic api
unfolding state_of
api-Optimistic = record {
  put_current = current;
  put_stored = put_stores;
  post_absent = absent;
  post_stored = post_stores;
}
  where
    current :
        (obj : LeaseObject) (s s' : Option LeaseObject)
        → put obj s ≡ ok s'
        → (old : LeaseObject) × (Path (Result ℕ (Option LeaseObject)) (ok s) (ok (some old)))
          × (old.resource_version ≡ obj.resource_version)
    current obj none s' h = cc
    current obj (some old) s' h =
        let (same, e) = stored obj (text_eq old.resource_version obj.resource_version) s' h in
        (old, refl, text_eq_sound old.resource_version obj.resource_version same)

    put_stores :
        (obj : LeaseObject) (s s' : Option LeaseObject)
        → put obj s ≡ ok s'
        → (new : LeaseObject) × (Path (Result ℕ (Option LeaseObject)) (ok s') (ok (some new)))
          × (new.spec ≡ obj.spec)
          × (new.resource_version ≢ obj.resource_version)
    put_stores obj none s' h = cc
    put_stores obj (some old) s' h =
        let (same, e) = stored obj (text_eq old.resource_version obj.resource_version) s' h in
        (versioned (118 ∷ obj.resource_version) obj, ap ok e, refl, longer obj.resource_version)

    absent :
        (obj : LeaseObject) (s s' : Option LeaseObject)
        → post obj s ≡ ok s'
        → Path (Result ℕ (Option LeaseObject)) (ok s) (ok none)
    absent obj none s' h = refl
    absent obj (some old) s' h = cc

    post_stores :
        (obj : LeaseObject) (s s' : Option LeaseObject)
        → post obj s ≡ ok s'
        → (new : LeaseObject) × (Path (Result ℕ (Option LeaseObject)) (ok s') (ok (some new)))
          × (new.spec ≡ obj.spec)
    post_stores obj none s' h = (versioned (codes "v") obj, sym h, refl)
    post_stores obj (some old) s' h = cc

abbrev elector : Text → LeaseConfig
elector name = record {
  lease_namespace = codes "default";
  lease_name = codes "watch";
  lease_identity = name;
  lease_duration = pos 15000000000;
  lease_renew = pos 5000000000;
  api_server = codes "https://k8s";
}

abbrev acquired : Result ℕ (Bool × Option LeaseObject) → Option LeaseObject
acquired (err e) = none
acquired (ok (b, s)) = s

abbrev after_a : Option LeaseObject
after_a = acquired (try_acquire time api (elector (codes "a")) 5 none none)

abbrev lease_of : LeaseObject → Result ℕ (Option LeaseObject) → LeaseObject
lease_of other (err e) = other
lease_of other (ok none) = other
lease_of other (ok (some lease)) = lease

try_acquire-Outcome_example :
    Outcome time api api-Optimistic
      (elector (codes "b"))
      7
      after_a
      after_a
      (try_acquire time api (elector (codes "b")) 7 after_a after_a)
try_acquire-Outcome_example =
    try_acquire-Outcome time api api-Optimistic (elector (codes "b")) 7 after_a after_a
      (λ a b p q v. ap (lease_of a) (sym p ∙ q))

-- Another elector's lease is left alone until it has expired.
b_waits : try_acquire time api (elector (codes "b")) 7 after_a after_a ≡ ok (false, after_a)
unfolding try_acquire
b_waits = refl

gives_up : renew_loop 0 (true ∷ false ∷ true ∷ false ∷ false ∷ true ∷ []) ≡ some 5
unfolding renew_loop
gives_up = refl

grown : Option LeaseObject → ℕ
grown none = 0
grown (some lease) = length lease.resource_version

stored_version : (s s' : Option LeaseObject) → LeaseWrite api s s' → grown s' ≡ suc (grown s)
unfolding grown state_of
stored_version none s' (puts obj h) = cc
stored_version (some old) s' (puts obj h) =
    let (same, e) = stored obj (text_eq old.resource_version obj.resource_version) s' h in
    ap grown e
    ∙ ap (λ v. suc (length v)) (sym (text_eq_sound old.resource_version obj.resource_version same))
stored_version none s' (posts obj h) = ap (λ r. grown (state_of r)) (sym h)
stored_version (some old) s' (posts obj h) = cc

grown_read :
    (s : Option LeaseObject) (lease : LeaseObject)
    → Path (Result ℕ (Option LeaseObject)) (ok s) (ok (some lease))
    → grown s ≡ length lease.resource_version
unfolding grown state_of
grown_read s lease g = ap (λ r. grown (state_of r)) g

api-Versions : Versions api
api-Versions = record {
  Used = λ s v. length v ≤ grown s;
  current_used = λ s lease g. omega (arith, grown_read s lease g);
  stays_used = λ s s' v w h. omega (arith, h, stored_version s s' w);
  stored_unused = λ s s' new w g h. omega (arith, h, stored_version s s' w, grown_read s' new g);
}

-- A lease that its holder has given back.
abbrev released : Option LeaseObject
released = some (record {
  object_name = codes "watch";
  object_namespace = codes "default";
  resource_version = codes "v";
  spec = record {
    holder_identity = [];
    duration_seconds = pos 15;
    acquire_time = [];
    renew_time = [];
    lease_transitions = pos 3;
  };
})

-- Both read it, a acquires it and renews it, and then b writes.
abbrev a_acquires : Option LeaseObject
a_acquires = acquired (try_acquire time api (elector (codes "a")) 5 released released)

abbrev state_after :
    Option LeaseObject → Result (Option ℕ) (Option LeaseObject) → Option LeaseObject
state_after s (err e) = s
state_after s (ok s') = s'

abbrev a_renews : Option LeaseObject
a_renews = state_after a_acquires (renew time api (elector (codes "a")) 9 a_acquires a_acquires)

acquires : try_acquire time api (elector (codes "a")) 5 released released ≡ ok (true, a_acquires)
unfolding try_acquire
acquires = refl

renews : renew time api (elector (codes "a")) 9 a_acquires a_acquires ≡ ok a_renews
unfolding try_acquire renew
renews = refl

renewal : LeaseWrites api a_acquires a_renews
renewal =
    then unwritten
      (renew-LeaseWrite api time (elector (codes "a")) 9 a_acquires a_acquires a_renews renews)

try_acquire-Fails_example :
    Fails api api-Optimistic api-Versions time
      (try_acquire time api (elector (codes "b")) 6 released a_renews)
try_acquire-Fails_example =
    try_acquire-Fails api api-Optimistic api-Versions time (elector (codes "a"))
      (elector (codes "b")) 5 6 released released released a_acquires a_renews unwritten acquires
      renewal

-- The server answers with a conflict.
b_fails : try_acquire time api (elector (codes "b")) 6 released a_renews ≡ err 409
unfolding try_acquire renew
b_fails = refl
