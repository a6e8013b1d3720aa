-- ===== src/Examples/Clouds.antt =====
-- The theorems on configurations, merges and reconciled clouds, each at a concrete input.
use xcplane.Common.{
  refl, true, none, some, List, [], ◌∷◌, Outcome, ok, err, inl, All, pair_eq, string_eq, nat_eq,
}
use xcplane.Naming.{codes, byte_len, is_proper, is_proper_subdomain}
use xcplane.Ip.{is_global}
use xcplane.Actions.{sort_unique, action_id}
use xcplane.Server.{KetServer, Cloud}
use xcplane.Config.{parse_cloud_config}
use xcplane.Config.Steps.{ConfigError}
use xcplane.Config.Accepted.{IsValid, parse_cloud_config-IsValid}
use xcplane.Cloudflare.{CfZone, Answers, get_cf_zone, to_lowercase}
use xcplane.Cloudflare.Zone.{IsChoice, get_cf_zone_lem}
use xcplane.Reconcile.Merge.{rebase}
use xcplane.Reconcile.Merge.Laws.{SameIdentity}
use xcplane.Reconcile.Cloud.{World, last_named, reconcile_cloud}
use xcplane.Reconcile.Cloud.Origins.{IsReconciled, reconcile_cloud-IsReconciled}
use xcplane.Reconcile.Cloud.Identity.{reconcile_cloud-SameIdentity}
use xcplane.Examples.{declared, settings, draws, digest, running, old_cloud, new_cloud}

abbrev cloud_of : Outcome ConfigError Cloud → Cloud
cloud_of (ok c) = c
cloud_of (err e) = old_cloud

abbrev parsed : Cloud
unfolding parse_cloud_config
parsed = cloud_of (parse_cloud_config digest draws (declared ∷ []) settings)

parse_cloud_config-IsValid_example : IsValid settings.inbound_set (declared ∷ []) parsed
unfolding parse_cloud_config parsed is_proper codes is_global is_proper_subdomain byte_len
parse_cloud_config-IsValid_example =
    parse_cloud_config-IsValid digest draws (declared ∷ []) settings {cloud = parsed} refl

abbrev pub zone : CfZone
zone = record { id = "zone"; name = "example.org"; account_name = "me"; account_id = "1" }

abbrev pub answers : Answers
answers = record {
  zones = zone ∷ [];
  cf_ruleset = λ s z. ok "ruleset";
  cf_rule = λ s z r. ok "rule";
  block_list = λ c. ok "list";
}

get_cf_zone_lem_example :
    IsChoice (zone ∷ []) (to_lowercase (codes running.domain)) (get_cf_zone (zone ∷ []) running)
get_cf_zone_lem_example = get_cf_zone_lem (zone ∷ []) running

abbrev pub cloud_or_old : {E : Type 0} → Outcome E Cloud → Cloud
cloud_or_old (ok c) = c
cloud_or_old (err e) = old_cloud

abbrev pub world : World
world = record {
  answers = answers;
  can_remove = λ n. true;
  run = λ task. ok true;
  finish = λ tasks. tasks;
  names = "alpha" ∷ [];
}

abbrev reconciled : Cloud
unfolding reconcile_cloud
reconciled =
    cloud_or_old (reconcile_cloud world old_cloud new_cloud rebase (some []) none []).outcome

reconcile_cloud-IsReconciled_example :
    All (IsReconciled rebase old_cloud new_cloud) reconciled.servers
unfolding reconciled reconcile_cloud sort_unique action_id
reconcile_cloud-IsReconciled_example =
    reconcile_cloud-IsReconciled world old_cloud new_cloud rebase (some []) none []
      {result = reconciled} refl refl

abbrev pub first_of : List KetServer → KetServer
first_of [] = declared
first_of (s ∷ servers) = s

reconcile_cloud-SameIdentity_example :
    SameIdentity running.secrets (first_of reconciled.servers).secrets
unfolding reconciled reconcile_cloud sort_unique action_id
reconcile_cloud-SameIdentity_example =
    reconcile_cloud-SameIdentity world old_cloud new_cloud rebase (some []) none []
      {result = reconciled} (first_of reconciled.servers) running refl refl (inl refl)
      (unfold last_named in refl) refl
