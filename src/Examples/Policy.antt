-- ===== src/Examples/Policy.antt =====
-- A policy of pkg/authz/policy/policy.go with three grants and three bindings.
use monofs.Prelude.{
  ℕ, Bool, true, false, not, ◌&&◌, ◌||◌, ◌+◌, Option, none, some, List, [], ◌∷◌, leb, if◌then◌else◌,
  Text, codes, trim_space, ◌≡◌, refl,
}
use monofs.Authz.{Identity, is_anonymous}
use monofs.AwsBindings.{AwsBinding, index_aws_bindings, partition_for_aws}
use monofs.AwsBindings.Lookup.{scan, partition_for_aws-scan}
use monofs.Grants.{Grant, scope_partitions, scope_logs, signal_metrics, signal_logs}
use monofs.Policy.{
  Bundle, Policy, new, denied, can, can_see_partition, can_read_signal, visible_partitions, role_of,
  resolve_visible_partitions,
}
use monofs.Policy.Decisions.{decision, can-decision}
use monofs.Policy.Visible.{shows, can_see_partition-visible_partitions}
use monofs.Policy.Roles.{IsHighestRole, role_of-IsHighestRole}

abbrev ascii_fold : ℕ → ℕ
ascii_fold c = if leb 65 c && leb c 90 then c + 32 else c

abbrev bob : Identity
bob = record {
  subject = codes "u-1";
  email = codes "Bob@example.com";
  groups = codes "SRE" ∷ [];
  client_id = [];
}

abbrev nobody : Identity
nobody = record { subject = []; email = codes "Bob@example.com"; groups = []; client_id = [] }

abbrev sre : Grant
sre = record {
  group = codes "sre";
  user = [];
  client = [];
  partitions = codes "web" ∷ codes "db" ∷ [];
  logs = codes "*" ∷ [];
  traces = [];
  monofs_paths = [];
  role = codes "viewer";
  deny = [];
}

abbrev bob_grant : Grant
bob_grant = record {
  group = [];
  user = codes "bob@example.com";
  client = [];
  partitions = codes "db" ∷ [];
  logs = [];
  traces = [];
  monofs_paths = [];
  role = codes "maintainer";
  deny = codes "traces" ∷ [];
}

abbrev robot_grant : Grant
robot_grant = record {
  group = [];
  user = [];
  client = codes "robot";
  partitions = codes "*" ∷ [];
  logs = [];
  traces = [];
  monofs_paths = [];
  role = codes "admin";
  deny = [];
}

abbrev in_web : AwsBinding
in_web = record { partition = codes "web"; account = codes "123"; region = codes "us" }

abbrev in_db : AwsBinding
in_db = record { partition = codes "db"; account = codes "123"; region = [] }

abbrev in_edge : AwsBinding
in_edge = record { partition = codes " edge "; account = []; region = codes "eu" }

abbrev bindings : List AwsBinding
bindings = in_web ∷ in_db ∷ in_edge ∷ []

abbrev bundle : Bundle
bundle = record {
  format_version = 1;
  version = [];
  generated_at = [];
  defaults = record { partitions = false; logs = false; traces = true; monofs_paths = false };
  grants = sre ∷ bob_grant ∷ robot_grant ∷ [];
  aws_bindings = bindings;
  catalog_digest = [];
}

abbrev policy : Policy
policy = new bundle

sees_web : can_see_partition ascii_fold policy bob (codes "web") ≡ true
unfolding can_see_partition new monofs.Prelude.text_eq
sees_web = refl

sees_no_mail : can_see_partition ascii_fold policy bob (codes "mail") ≡ false
unfolding can_see_partition new monofs.Prelude.text_eq
sees_no_mail = refl

nobody_sees_nothing : can_see_partition ascii_fold policy nobody (codes "web") ≡ false
unfolding can_see_partition
nobody_sees_nothing = refl

nobody_sees_metrics : can_read_signal ascii_fold policy nobody (codes "web") signal_metrics ≡ true
unfolding can_read_signal monofs.Prelude.text_eq
nobody_sees_metrics = refl

reads_all_logs : can_read_signal ascii_fold policy bob (codes "mail") signal_logs ≡ true
unfolding can_read_signal monofs.Prelude.text_eq new
reads_all_logs = refl

lists_sorted : visible_partitions ascii_fold policy bob ≡ (codes "db" ∷ codes "web" ∷ [], false)
unfolding visible_partitions new monofs.Prelude.text_eq
lists_sorted = refl

resolves_sorted :
    resolve_visible_partitions ascii_fold policy bob [] ≡ codes "db" ∷ codes "web" ∷ []
unfolding resolve_visible_partitions new monofs.Prelude.text_eq
resolves_sorted = refl

maintains_db : role_of ascii_fold policy bob (codes "db") ≡ codes "maintainer"
unfolding role_of new monofs.Prelude.text_eq
maintains_db = refl

exact_before_account :
    partition_for_aws policy.index (codes "123") (codes "us") ≡ some (codes "web")
unfolding partition_for_aws new monofs.Prelude.text_eq
exact_before_account = refl

account_before_region :
    partition_for_aws policy.index (codes "123 ") (codes "eu") ≡ some (codes "db")
unfolding partition_for_aws new monofs.Prelude.text_eq
account_before_region = refl

can-decision_example :
    can ascii_fold policy bob scope_logs (codes "mail")
    ≡ (not (is_anonymous bob) && decision ascii_fold policy bob scope_logs (codes "mail"))
can-decision_example = can-decision ascii_fold policy bob scope_logs (codes "mail")

can_see_partition-visible_partitions_example :
    can_see_partition ascii_fold policy bob (codes "web") ≡ (
      shows (visible_partitions ascii_fold policy bob) (codes "web")
      || (not (is_anonymous bob)
          && (not (denied ascii_fold policy bob scope_partitions)
              && policy.bundle.defaults.partitions)))
can_see_partition-visible_partitions_example =
    can_see_partition-visible_partitions ascii_fold policy bob (codes "web")

role_of-IsHighestRole_example :
    IsHighestRole ascii_fold policy bob (codes "db") (codes "maintainer")
unfolding role_of new monofs.Prelude.text_eq
role_of-IsHighestRole_example = role_of-IsHighestRole ascii_fold policy bob (codes "db")

partition_for_aws-scan_example :
    partition_for_aws (index_aws_bindings bindings) (codes "123") (codes "eu")
    ≡ scan bindings (codes "123") (codes "eu")
unfolding monofs.Prelude.has_nul trim_space
partition_for_aws-scan_example =
    partition_for_aws-scan bindings (codes "123") (codes "eu") refl refl
