-- ===== src/Reconcile/Cloud/Origins.antt =====
-- Where the servers of a reconciled cloud come from (`reconcile_cloud` of src/cloud/reconcile.rs).
use xcplane.Common.{
  ℕ, String, false, Option, none, some, List, [], ◌∷◌, Map, Outcome, ok, err, ok_or, insert_new,
  is_empty, map, find?, ◌≡◌, refl, >>=-eq-ok, ok-injective, subst, ap, All, All-append, string_eq,
  str_eq,
}
use xcplane.Ip.{ip_eq}
use xcplane.Server.{CfState, AnsibleConn, KetServer, Cloud}
use xcplane.Config.Inbounds.{inbound_pair}
use xcplane.Cloudflare.{CfError, prepare_cloudflare_state}
use xcplane.Cloudflare.States.{ArePrepared, prepare_cloudflare_state-ArePrepared}
use xcplane.Reconcile.Merge.{
  ReconMode, rebase, reload, remap, ReconError, merge_server, domain_in_use, ip_in_use,
  no_rebase_data,
}
use xcplane.Reconcile.RebaseData.{RebaseData}
use xcplane.Reconcile.Deploy.{deploy_rebase}
use xcplane.Reconcile.Cloud.{
  World, Used, Pass, last_named, merge_one, merge_round, all_servers, shared, with_connection,
  apply_rebase, from_cf, after_merge, after_deletion, connected, next_cloud, reconcile_cloud,
}

-- A server of the merged cloud: one that only the new cloud has, or the merge of the two versions.
pub data Origin (mode : ReconMode) (old new : Cloud) (s : KetServer) : Type 0 where
  added :
      (n : String)
      → last_named n old.servers ≡ none
      → last_named n new.servers ≡ some s
      → Origin mode old new s
  merged :
      (n : String) (o t : KetServer)
      → last_named n old.servers ≡ some o
      → last_named n new.servers ≡ some t
      → merge_server mode o t (map inbound_pair new.settings.inbound_set) ≡ ok s
      → Origin mode old new s

-- The server with, it may be, another connection and another Cloudflare state.
pub record Kin (s t : KetServer) : Type 0 where
  pub conn : Option AnsibleConn
  pub state : Option CfState
  pub same : record s { ansible_conn = conn; cfstate = state } ≡ t

-- A server of the reconciled cloud.
abbrev pub IsReconciled : ReconMode → Cloud → Cloud → KetServer → Type 0
IsReconciled mode old new t = (s : KetServer) × Origin mode old new s × Kin s t

from_cf-eq-ok : (o : Outcome CfError Cloud) {c : Cloud} → from_cf o ≡ ok c → o ≡ ok c
unfolding from_cf
from_cf-eq-ok (ok c) h = cc
from_cf-eq-ok (err e) h = cc

Kin-connected : (o : Option KetServer) (s t : KetServer) → Kin s t → Kin s (connected o t)
unfolding connected
Kin-connected none s t kin = kin
Kin-connected (some u) s t kin = record {
  conn = u.ansible_conn;
  state = kin.state;
  same = ap (λ (x : KetServer). record x { ansible_conn = u.ansible_conn }) kin.same;
}

module _ (mode : ReconMode) (old new : Cloud) where
  abbrev set : List (String × ℕ)
  set = map inbound_pair new.settings.inbound_set

  merge_one-Origin :
      (n : String) (a b : Option KetServer) (pass : Pass) {after : Pass}
      → last_named n old.servers ≡ a
      → last_named n new.servers ≡ b
      → All (Origin mode old new) pass.merged
      → merge_one mode set a b pass ≡ ok after
      → All (Origin mode old new) after.merged
  unfolding merge_one
  merge_one-Origin n none (some s) pass {after} ha hb all h =
      let (domains, e, r1) =
        >>=-eq-ok (insert_new s.domain pass.used.domains (domain_in_use s.name)) _ h in
      let (ips, f, r2) = >>=-eq-ok (insert_new s.ip pass.used.ips (ip_in_use s.name)) _ r1 in
      subst (λ (p : Pass). All (Origin mode old new) p.merged)
        (ok-injective {E = ReconError} _ after r2)
        (All-append (Origin mode old new) pass.merged (s ∷ []) all (added n ha hb, tt))
  merge_one-Origin n (some o) (some t) pass {after} ha hb all h =
      let (s, e, r1) = >>=-eq-ok (merge_server mode o t set) _ h in
      subst (λ (p : Pass). All (Origin mode old new) p.merged)
        (ok-injective {E = ReconError} _ after r1)
        (All-append (Origin mode old new) pass.merged (s ∷ []) all (merged n o t ha hb e, tt))
  merge_one-Origin n (some o) none pass {after} ha hb all h =
      subst (λ (p : Pass). All (Origin mode old new) p.merged)
        (ok-injective {E = ReconError} pass after h) all
  merge_one-Origin n none none pass ha hb all h = cc

  merge_round-Origin :
      (names : List String) (pass : Pass) {after : Pass}
      → All (Origin mode old new) pass.merged
      → merge_round mode set (all_servers old new names) pass ≡ ok after
      → All (Origin mode old new) after.merged
  unfolding merge_round all_servers
  merge_round-Origin [] pass {after} all h =
      subst (λ (p : Pass). All (Origin mode old new) p.merged)
        (ok-injective {E = ReconError} pass after h) all
  merge_round-Origin (n ∷ names) pass all h =
      let (mid, e, rest) =
        >>=-eq-ok (merge_one mode set (last_named n old.servers) (last_named n new.servers) pass) _
          h in
      merge_round-Origin names mid
        (merge_one-Origin n (last_named n old.servers) (last_named n new.servers) pass {after = mid}
          refl refl all e)
        rest

  prepared-IsReconciled :
      (l m : List KetServer)
      → All (Origin mode old new) l
      → ArePrepared l m
      → All (IsReconciled mode old new) m
  prepared-IsReconciled [] [] all p = tt
  prepared-IsReconciled (s ∷ l) (t ∷ m) all p = (
    (s, all.0, record { conn = s.ansible_conn; state = some p.0.state; same = p.0.same }),
    prepared-IsReconciled l m all.1 p.1,
  )
  prepared-IsReconciled [] (t ∷ m) all p = elim p [ ]
  prepared-IsReconciled (s ∷ l) [] all p = elim p [ ]

  connected-IsReconciled :
      (updated l : List KetServer)
      → All (IsReconciled mode old new) l
      → All (IsReconciled mode old new) (map (with_connection updated) l)
  connected-IsReconciled updated [] all = tt
  connected-IsReconciled updated (t ∷ l) all =
      let (s, origin, kin) = all.0 in
      (
        (
          s,
          origin,
          unfold with_connection in
              Kin-connected (find? (λ (u : KetServer). str_eq u.name t.name) updated) s t kin,
        ),
        connected-IsReconciled updated l all.1,
      )

  apply_rebase-IsReconciled :
      (world : World) (m : ReconMode) (table : Option (Map RebaseData))
      (to_rebase : List (KetServer × KetServer)) (cloud : Cloud) {result : Cloud}
      → All (IsReconciled mode old new) cloud.servers
      → apply_rebase world m table to_rebase cloud ≡ ok result
      → All (IsReconciled mode old new) result.servers
  unfolding apply_rebase
  apply_rebase-IsReconciled world reload table to_rebase cloud {result} all h =
      subst (λ (c : Cloud). All (IsReconciled mode old new) c.servers)
        (ok-injective {E = ReconError} cloud result h) all
  apply_rebase-IsReconciled world remap table to_rebase cloud {result} all h =
      subst (λ (c : Cloud). All (IsReconciled mode old new) c.servers)
        (ok-injective {E = ReconError} cloud result h) all
  apply_rebase-IsReconciled world rebase table to_rebase cloud {result} all h =
      let (d, e, r1) = >>=-eq-ok (ok_or table no_rebase_data) _ h in
      let (updated, f, r2) =
        >>=-eq-ok (deploy_rebase world.run world.finish (map (shared cloud.servers) to_rebase) d) _
          r1 in
      subst (λ (c : Cloud). All (IsReconciled mode old new) c.servers)
        (ok-injective {E = ReconError} _ result r2)
        (connected-IsReconciled updated cloud.servers all)

  after_merge-IsReconciled :
      (world : World) (table : Option (Map RebaseData)) (cf_list : Option String)
      (dirs : List String) (merge : Outcome ReconError Pass) {result : Cloud}
      → ((pass : Pass) → merge ≡ ok pass → All (Origin mode old new) pass.merged)
      → (after_merge world new mode table cf_list dirs merge).outcome ≡ ok result
      → All (IsReconciled mode old new) result.servers
  unfolding after_merge
  after_merge-IsReconciled world table cf_list dirs (err e) all h = cc
  after_merge-IsReconciled world table cf_list dirs (ok pass) all h =
      let final : Cloud = record { servers = pass.merged; settings = new.settings } in
      let prepared = prepare_cloudflare_state world.answers final cf_list in
      let (cloud, e, rest) = >>=-eq-ok (from_cf prepared.1) _ h in
      let (settings, states) =
        prepare_cloudflare_state-ArePrepared world.answers final cf_list
          (from_cf-eq-ok prepared.1 e) in
      apply_rebase-IsReconciled world mode table pass.to_rebase cloud
        (prepared-IsReconciled pass.merged cloud.servers (all pass refl) states) rest

  after_deletion-IsReconciled :
      (world : World) (table : Option (Map RebaseData)) (cf_list : Option String)
      (dirs : List String) (deleted : Outcome ReconError Used) {result : Cloud}
      → (after_deletion world old new mode table cf_list dirs deleted).outcome ≡ ok result
      → All (IsReconciled mode old new) result.servers
  unfolding after_deletion
  after_deletion-IsReconciled world table cf_list dirs (err e) h = cc
  after_deletion-IsReconciled world table cf_list dirs (ok used) h =
      let start : Pass = record { used = used; merged = []; to_rebase = [] } in
      after_merge-IsReconciled world table cf_list dirs
        (merge_round mode set (all_servers old new world.names) start)
        (λ pass e. merge_round-Origin world.names start {after = pass} tt e) h

-- Where there is an old cloud, every server of the reconciled one is a server that only the new
-- cloud has or the merge, in the mode, of the two versions of a server; only its connection and its
-- Cloudflare state may differ.
pub reconcile_cloud-IsReconciled :
    (world : World) (old new : Cloud) (mode : ReconMode) (table : Option (Map RebaseData))
    (cf_list : Option String) (dirs : List String) {result : Cloud}
    → is_empty old.servers ≡ false
    → (reconcile_cloud world old new mode table cf_list dirs).outcome ≡ ok result
    → All (IsReconciled mode old new) result.servers
unfolding reconcile_cloud next_cloud
reconcile_cloud-IsReconciled world old new mode table cf_list dirs nonempty h =
    after_deletion-IsReconciled mode old new world table cf_list _ _ (rw nonempty at h)
