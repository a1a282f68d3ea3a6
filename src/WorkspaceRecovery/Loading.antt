-- ===== src/WorkspaceRecovery/Loading.antt =====
-- What loadSnapshot of internal/storage/workspacestore/store.go makes of a snapshot that compact wrote.
use monofs.Prelude.{
  ℕ, false, some, List, [], ◌∷◌, ◌++◌, All, map, Text, text_eq, text_eq_sound, Bool-cases, ◌≡◌,
  refl, sym, ap, ap₂, subst, ◌∙◌, inl, inr, append_assoc, append-nil,
}
use monofs.Prelude.Int.{ℤ}
use monofs.WorkspaceStore.{
  BundleMetadata, Contents, StoreJson, put_by, bundle_key, no_contents, put_job, put_bundle,
}
use monofs.WorkspaceRecovery.{
  put_job_bytes, load_jobs, load_bundles, load_contents, snapshot_all, take_snapshot,
}
use monofs.WorkspaceRecovery.Forget.{Faithful, no_seq, forget_seqs}

-- No two elements share a key.
module _ {ℓ} {A : Type ℓ} (key : A → Text) where
  abbrev pub Differ : A → A → Type 0
  Differ x y = text_eq (key x) (key y) ≡ false

  abbrev pub Distinct : List A → Type 0
  Distinct [] = Unit
  Distinct (x ∷ xs) = All (λ y. Differ x y) xs × Distinct xs

  -- A key that is new goes to the end.
  put_by-new : (a : A) (xs : List A) → All (λ x. Differ x a) xs → put_by key a xs ≡ xs ++ a ∷ []
  unfolding put_by
  put_by-new a [] h = refl
  put_by-new a (x ∷ xs) (e, h) = rw e (ap (λ l. x ∷ l) (put_by-new a xs h))

  All-put_by :
      (x a : A) (ys : List A)
      → Differ x a
      → All (λ y. Differ x y) ys
      → All (λ y. Differ x y) (put_by key a ys)
  unfolding put_by
  All-put_by x a [] e h = (e, _)
  All-put_by x a (y ∷ ys) e (hy, h) = elim (Bool-cases (text_eq (key y) (key a))) [
    | inl t ↦ rw t (e, h)
    | inr f ↦ rw f (hy, All-put_by x a ys e h)
  ]

  All-key :
      (x a : A) (ys : List A) → key x ≡ key a → All (λ y. Differ x y) ys → All (λ y. Differ a y) ys
  All-key x a [] e h = _
  All-key x a (y ∷ ys) e (hy, h) = (ap (λ k. text_eq k (key y)) (sym e) ∙ hy, All-key x a ys e h)

  pub put_by-Distinct : (a : A) (xs : List A) → Distinct xs → Distinct (put_by key a xs)
  unfolding put_by
  put_by-Distinct a [] h = (_, _)
  put_by-Distinct a (x ∷ xs) (hx, h) = elim (Bool-cases (text_eq (key x) (key a))) [
    | inl t ↦ rw t (All-key x a xs (text_eq_sound (key x) (key a) t) hx, h)
    | inr f ↦ rw f (All-put_by x a xs f hx, put_by-Distinct a xs h)
  ]

  -- In a list without a key twice, the elements before one have other keys.
  Distinct-before :
      (xs : List A) (a : A) (ys : List A) → Distinct (xs ++ a ∷ ys) → All (λ x. Differ x a) xs
  Distinct-before [] a ys h = _
  Distinct-before (x ∷ xs) a ys (hx, h) = (middle xs hx, Distinct-before xs a ys h)
    where
      middle : (zs : List A) → All (λ y. Differ x y) (zs ++ a ∷ ys) → Differ x a
      middle [] (p, q) = p
      middle (z ∷ zs) (p, q) = middle zs q

  -- Putting the elements one by one behind others.
  abbrev pub put_all : List A → List A → List A
  put_all [] acc = acc
  put_all (x ∷ xs) acc = put_all xs (put_by key x acc)

  pub put_all-Distinct : (xs acc : List A) → Distinct (acc ++ xs) → put_all xs acc ≡ acc ++ xs
  put_all-Distinct [] acc h = sym (append-nil acc)
  put_all-Distinct (x ∷ xs) acc h =
      let e = put_by-new x acc (Distinct-before acc x xs h) in
      ap (put_all xs) e
      ∙ put_all-Distinct xs (acc ++ x ∷ []) (subst Distinct (sym (append_assoc acc (x ∷ []) xs)) h)
      ∙ append_assoc acc (x ∷ []) xs

module _ {B Job : Type 0} (json : StoreJson B Job) (faithful : Faithful json) where
  -- The contents as the store keeps them: no key twice, and every job can be encoded.
  abbrev pub Encodes : Job → Type 0
  Encodes j = (b : B) × (json.of_job.marshal j ≡ some b)

  pub record IsKept (c : Contents B Job) : Type 0 where
    pub distinct_jobs : Distinct json.id_of_job c.jobs
    pub distinct_bundles : Distinct bundle_key c.bundles
    pub encodes : All Encodes c.jobs

  put_by-Encodes :
      (j : Job) (js : List Job)
      → Encodes j
      → All Encodes js
      → All Encodes (put_by json.id_of_job j js)
  unfolding put_by
  put_by-Encodes j [] h hs = (h, _)
  put_by-Encodes j (k ∷ ks) h (hk, hs) =
      elim (Bool-cases (text_eq (json.id_of_job k) (json.id_of_job j))) [
        | inl t ↦ rw t (h, hs)
        | inr f ↦ rw f (hk, put_by-Encodes j ks h hs)
      ]

  pub put_job-IsKept :
      (j : Job) (c : Contents B Job) → Encodes j → IsKept c → IsKept (put_job json j c)
  unfolding put_by
  put_job-IsKept j c h k = record {
    distinct_jobs = put_by-Distinct json.id_of_job j c.jobs k.distinct_jobs;
    distinct_bundles = k.distinct_bundles;
    encodes = put_by-Encodes j c.jobs h k.encodes;
  }

  pub put_bundle-IsKept :
      (m : BundleMetadata) (c : Contents B Job) → IsKept c → IsKept (put_bundle json m c)
  unfolding put_by
  put_bundle-IsKept m c k = record {
    distinct_jobs = k.distinct_jobs;
    distinct_bundles = put_by-Distinct bundle_key m c.bundles k.distinct_bundles;
    encodes = k.encodes;
  }

  load_jobs-snapshot_all :
      (js : List Job) (c : Contents B Job)
      → All Encodes js
      → load_jobs json (snapshot_all json js) c
        ≡ record c { jobs = put_all json.id_of_job js c.jobs }
  unfolding load_jobs snapshot_all put_by
  load_jobs-snapshot_all [] c h = refl
  load_jobs-snapshot_all (j ∷ js) c ((b, e), h) = rw e (
      ap (λ o. load_jobs json (snapshot_all json js) (put_job_bytes json o c))
        (faithful.gives_job j b e)
      ∙ load_jobs-snapshot_all js (put_job json j c) h)

  load_bundles-all :
      (bs : List BundleMetadata) (c : Contents B Job)
      → load_bundles json bs c ≡ record c { bundles = put_all bundle_key bs c.bundles }
  unfolding load_bundles put_by
  load_bundles-all [] c = refl
  load_bundles-all (b ∷ bs) c = load_bundles-all bs (put_bundle json b c)

  -- Loading gives back what was kept, but for the numbers of the audit events.
  pub load_contents-take_snapshot :
      (now : ℤ) (seq : ℕ) (c : Contents B Job)
      → IsKept c
      → load_contents json (record (take_snapshot json now seq c) {
        snapshot_audit = map no_seq (take_snapshot json now seq c).snapshot_audit;
      })
        ≡ forget_seqs c
  unfolding take_snapshot load_jobs load_bundles put_by
  load_contents-take_snapshot now seq c k =
      ap
        (λ (x : Contents B Job). record (load_bundles json c.bundles x) {
          audit_events = map no_seq c.audit_events;
          ledger_entries = c.ledger_entries;
        })
        (load_jobs-snapshot_all c.jobs no_contents k.encodes)
      ∙ ap
          (λ (x : Contents B Job). record x {
            audit_events = map no_seq c.audit_events;
            ledger_entries = c.ledger_entries;
          })
          (load_bundles-all c.bundles
            (record no_contents { jobs = put_all json.id_of_job c.jobs [] }))
      ∙ ap₂ (λ js bs. record (forget_seqs c) { jobs = js; bundles = bs })
          (put_all-Distinct json.id_of_job c.jobs [] k.distinct_jobs)
          (put_all-Distinct bundle_key c.bundles [] k.distinct_bundles)
