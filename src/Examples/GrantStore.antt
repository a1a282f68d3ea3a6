-- ===== src/Examples/GrantStore.antt =====
-- A store of pkg/authz/grants.go that starts empty and has a file.
use monofs.Prelude.{
  ℕ, Bool, true, false, Option, none, some, List, [], ◌∷◌, Text, codes, ◌≡◌, refl, Result, ok, err,
}
use monofs.Authz.{Identity, action_view, action_modify}
use monofs.Prelude.{ok, false}
use monofs.GrantStore.{
  new_grant_store, Grant, GrantStore, Disk, rename_fails, succeeds, GrantsJson, add, replace,
  can_act, validate, subject_or_group,
}
use monofs.GrantStore.Validity.{Change, adds, replaces, change_all, change_all-IsValid, IsValid}
use monofs.GrantStore.Persistence.{Durable, changes-Durable}

abbrev ann_views : Grant
ann_views = record {
  subject = codes "ann";
  group = [];
  partition = codes "*";
  role = codes "viewer";
}

abbrev of_both : Grant
of_both = record {
  subject = codes "ann";
  group = codes "sre";
  partition = codes "web";
  role = codes "viewer";
}

abbrev ann : Identity
ann = record { subject = codes "ann"; email = []; groups = []; client_id = [] }

abbrev store : GrantStore
store = record { grants = []; persist_path = codes "grants.json" }

abbrev disk : Disk
disk = record { file = none; tmp = none }

-- JSON that knows one list of grants.
abbrev toy_json : GrantsJson
toy_json = record {
  marshal_indent = λ gs. some (1 ∷ []);
  unmarshal = λ bytes. some (ann_views ∷ []);
}

refuses_both : validate of_both ≡ some subject_or_group
unfolding validate
refuses_both = refl

ann_can_view :
    can_act (λ c. c) (add toy_json succeeds ann_views store disk).0 ann (codes "web") action_view
    ≡ true
unfolding can_act add monofs.Prelude.text_eq
ann_can_view = refl

ann_cannot_modify :
    can_act (λ c. c) (add toy_json succeeds ann_views store disk).0 ann (codes "web") action_modify
    ≡ false
unfolding can_act add monofs.Prelude.text_eq
ann_cannot_modify = refl

-- The grant stays in the store when its saving fails.
kept_in_memory : (add toy_json rename_fails ann_views store disk).0.grants ≡ ann_views ∷ []
unfolding add monofs.Prelude.text_eq
kept_in_memory = refl

abbrev changes : List Change
changes =
    adds rename_fails ann_views ∷ adds succeeds of_both ∷ replaces succeeds (ann_views ∷ []) ∷ []

change_all-IsValid_example : IsValid (change_all toy_json changes (store, disk)).0
change_all-IsValid_example = change_all-IsValid toy_json changes store disk _

changes-Durable_example :
    Durable toy_json disk (add toy_json succeeds ann_views store disk)
    × Durable toy_json disk (replace toy_json succeeds (ann_views ∷ []) store disk)
changes-Durable_example =
    changes-Durable toy_json succeeds ann_views (ann_views ∷ []) store disk refl (λ b e. refl)
      (λ b e. refl)

starts_from_file :
    new_grant_store toy_json false false
      (codes "grants.json")
      (add toy_json succeeds ann_views store disk).1.0
    ≡ ok (add toy_json succeeds ann_views store disk).0
unfolding new_grant_store add monofs.Prelude.text_eq
starts_from_file = refl
