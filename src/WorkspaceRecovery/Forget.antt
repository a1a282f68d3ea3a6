-- ===== src/WorkspaceRecovery/Forget.antt =====
-- What JSON keeps of the workspace state of internal/storage/workspacestore: everything but the
-- sequence numbers of audit events, whose field has the tag `json:"-"`.
use monofs.Prelude.{ℕ, some, List, [], ◌∷◌, ◌++◌, map, ◌≡◌, refl, sym, ap, ◌∙◌}
use mathlib.Core.List.{map-append}
use monofs.Prelude.Int.{ℤ}
use monofs.WorkspaceLog.{
  WalEntry, kind_job, kind_bundle, kind_audit, kind_ledger, op_upsert, op_insert,
}
use monofs.WorkspaceLog.Reading.{Fits}
use monofs.WorkspaceStore.{
  BundleMetadata, AuditEvent, Contents, Checkpoint, CompactedSnapshot, StoreJson, put_by, put_job,
  put_bundle, add_audit, add_ledger,
}
use monofs.WorkspaceRecovery.{put_decoded, apply_kind}

abbrev pub no_seq : AuditEvent → AuditEvent
no_seq e = record e { audit_seq = 0 }

abbrev pub forget_seqs : {B Job : Type 0} → Contents B Job → Contents B Job
forget_seqs c = record c { audit_events = map no_seq c.audit_events }

-- JSON gives back what it encodes, up to those numbers.
pub record Faithful {B Job : Type 0} (json : StoreJson B Job) : Type 0 where
  pub gives_job :
      (j : Job) (b : B) → json.of_job.marshal j ≡ some b → json.of_job.unmarshal b ≡ some j
  pub gives_bundle :
      (m : BundleMetadata) (b : B)
      → json.of_bundle.marshal m ≡ some b
      → json.of_bundle.unmarshal b ≡ some m
  pub gives_audit :
      (e : AuditEvent) (b : B)
      → json.of_audit.marshal e ≡ some b
      → json.of_audit.unmarshal b ≡ some (no_seq e)
  pub gives_entry :
      (e : WalEntry B) (b : B)
      → json.of_entry.marshal e ≡ some b
      → json.of_entry.unmarshal b ≡ some e
  pub gives_snapshot :
      (s : CompactedSnapshot B) (b : B)
      → json.of_snapshot.marshal s ≡ some b
      → json.of_snapshot.unmarshal b
        ≡ some (record s { snapshot_audit = map no_seq s.snapshot_audit })
  pub gives_checkpoint :
      (c : Checkpoint) (b : B)
      → json.of_checkpoint.marshal c ≡ some b
      → json.of_checkpoint.unmarshal b ≡ some c

-- Every line of the log is within the limit of the scanner that reads it.
abbrev pub LinesFit : {B Job : Type 0} → StoreJson B Job → Type 0
LinesFit {B} json =
    (e : WalEntry B) (l : B)
    → json.of_entry.marshal e ≡ some l
    → Fits json.line_size json.of_entry l

-- An entry that does to any contents what a change did to those in memory, up to the numbers.
abbrev pub Repeats :
    {B Job : Type 0} → StoreJson B Job → WalEntry B → Contents B Job → Contents B Job → Type 0
Repeats {B} {Job} json e before after =
    (c : Contents B Job)
    → forget_seqs c ≡ forget_seqs before
    → (c' : Contents B Job) × (apply_kind json e.kind e.op e c ≡ some c')
      × (forget_seqs c' ≡ forget_seqs after)

module _ {B Job : Type 0} (json : StoreJson B Job) (faithful : Faithful json) where
  pub job-Repeats :
      (j : Job) (b : B) (n : ℕ) (now : ℤ) (c : Contents B Job)
      → json.of_job.marshal j ≡ some b
      → Repeats json
          (record { seq = n; ts = now; op = op_upsert; kind = kind_job; payload = b })
          c
          (put_job json j c)
  unfolding put_by
  job-Repeats j b n now c m k h = (
    put_job json j k,
    ap (λ o. put_decoded json (put_job json) o k) (faithful.gives_job j b m),
    ap (put_job json j) h,
  )

  pub bundle-Repeats :
      (m : BundleMetadata) (b : B) (n : ℕ) (now : ℤ) (c : Contents B Job)
      → json.of_bundle.marshal m ≡ some b
      → Repeats json
          (record { seq = n; ts = now; op = op_upsert; kind = kind_bundle; payload = b })
          c
          (put_bundle json m c)
  unfolding put_by
  bundle-Repeats m b n now c e k h = (
    put_bundle json m k,
    ap (λ o. put_decoded json (put_bundle json) o k) (faithful.gives_bundle m b e),
    ap (put_bundle json m) h,
  )

  pub audit-Repeats :
      (a : AuditEvent) (b : B) (n : ℕ) (now : ℤ) (c : Contents B Job)
      → json.of_audit.marshal a ≡ some b
      → Repeats json
          (record { seq = n; ts = now; op = op_insert; kind = kind_audit; payload = b })
          c
          (add_audit json n a c)
  audit-Repeats a b n now c e k h = (
    add_audit json n (no_seq a) k,
    ap (λ o. put_decoded json (add_audit json n) o k) (faithful.gives_audit a b e),
    forget-add_audit (no_seq a) k ∙ ap grow h ∙ sym (forget-add_audit a c),
  )
    where
      grow : Contents B Job → Contents B Job
      grow x = record x { audit_events = x.audit_events ++ no_seq a ∷ [] }

      with_audit : Contents B Job → List AuditEvent → Contents B Job
      with_audit y es = record y { audit_events = es }

      forget-add_audit :
          (x : AuditEvent) (y : Contents B Job)
          → forget_seqs (add_audit json n x y) ≡ record (forget_seqs y) {
            audit_events = (forget_seqs y).audit_events ++ no_seq x ∷ [];
          }
      forget-add_audit x y =
          ap (with_audit y) (map-append no_seq y.audit_events (record x { audit_seq = n } ∷ []))

  pub ledger-Repeats :
      (b : B) (n : ℕ) (now : ℤ) (c : Contents B Job)
      → Repeats json
          (record { seq = n; ts = now; op = op_insert; kind = kind_ledger; payload = b })
          c
          (add_ledger json b c)
  ledger-Repeats b n now c k h = (add_ledger json b k, refl, ap (add_ledger json b) h)
