-- ===== src/Daemon/Next/Remaps.antt =====
-- A Remap that adds an inbound: from `remap_merge` (src/cloud/reconcile.rs) over `update_db`
-- (src/db.rs) to the start of a cycle (src/daemon/core.rs).
use xcplane.Common.{
  String, true, false, Option, none, some, List, [], ◌∷◌, Outcome, ok, lookup, map, is_some,
  is_empty, ◌≡◌, refl, sym, ap, subst, ◌∙◌, arith, In, All-In, inl, inr, ok-injective, Option-cases,
}
use xcplane.Server.{Inbound, KetServer, Cloud}
use xcplane.Config.Steps.{ConfigError}
use xcplane.Config.Inbounds.{inbound_pair}
use xcplane.Reconcile.Merge.{remap, ReconError, remap_merge, merge_server}
use xcplane.Reconcile.Merge.Laws.{merge_server-name}
use xcplane.Reconcile.Cloud.{World, last_named, reconcile_cloud}
use xcplane.Reconcile.Cloud.Origins.{
  Origin, added, merged, Kin, IsReconciled, reconcile_cloud-IsReconciled,
}
use xcplane.Reconcile.Cloud.Identity.{last_named-name, Kin-name, Kin-secrets}
use xcplane.Database.{Db, DbError, Run, done, failed}
use xcplane.Database.Setup.{create_db}
use xcplane.Database.Update.{update_db, put_groups, put_options}
use xcplane.Database.Update.Errors.{error_of, first_missing, first_error, put_groups-Fails}
use xcplane.Daemon.Next.{
  exit_remap, plain, update_failed, old_of, stored, apply_reconciled, start_at, start,
}

-- In a Remap the merge is the new version with the secrets of the old one.
Origin-remapped :
    (old new : Cloud) (s o b : KetServer)
    → Origin remap old new s
    → last_named s.name old.servers ≡ some o
    → last_named s.name new.servers ≡ some b
    → remap_merge o b ≡ s
Origin-remapped old new s o b (added n ha hb) h k =
    let name = last_named-name n new.servers {s = s} hb in
    let h' = subst (λ x. last_named x old.servers ≡ some o) name h in ground (arith, ha, h')
Origin-remapped old new s o b (merged n a c ha hc hm) h k =
    let set = map inbound_pair new.settings.inbound_set in
    let name =
      merge_server-name remap a c set n {merged = s} (last_named-name n old.servers {s = a} ha)
        (last_named-name n new.servers {s = c} hc) hm in
    let old_same : a ≡ o =
      ground (arith, ha, subst (λ x. last_named x old.servers ≡ some o) name h) in
    let new_same : c ≡ b =
      ground (arith, hc, subst (λ x. last_named x new.servers ≡ some b) name k) in
    let made : remap_merge a c ≡ s =
      ok-injective {E = ReconError} _ _ (unfold merge_server in hm) in
    subst (λ x. remap_merge x b ≡ s) old_same (subst (λ x. remap_merge a x ≡ s) new_same made)

first_missing-In :
    (s : KetServer) (l : List Inbound) (inb : Inbound)
    → In inb l
    → lookup inb.name s.secrets.mother_subids ≡ none
    → is_some (first_missing s l) ≡ true
first_missing-In s [] inb m h = elim m [ ]
first_missing-In s (x ∷ l) inb (inl e) h =
    let here : lookup x.name s.secrets.mother_subids ≡ none =
      ap (λ (y : Inbound). lookup y.name s.secrets.mother_subids) e ∙ h in
    rw here refl
first_missing-In s (x ∷ l) inb (inr m) h =
    elim (Option-cases (lookup x.name s.secrets.mother_subids)) [
      | inl p ↦ rw p refl
      | inr (subid, p) ↦ rw p (first_missing-In s l inb m h)
    ]

first_error-In :
    (l : List KetServer) (s : KetServer)
    → In s l
    → is_some (first_missing s s.inbounds) ≡ true
    → is_some (first_error l) ≡ true
first_error-In [] s m h = elim m [ ]
first_error-In (x ∷ l) s (inl e) h =
    let here : is_some (first_missing x x.inbounds) ≡ true =
      ap (λ (y : KetServer). is_some (first_missing y y.inbounds)) e ∙ h in
    ground (arith, here)
first_error-In (x ∷ l) s (inr m) h = ground (arith, first_error-In l s m h)

failed_run : (r : Run) → is_some (error_of r) ≡ true → (e : DbError) × (db : Db) × (r ≡ failed e db)
failed_run (done db) h = ground arith
failed_run (failed e db) h = (e, db, refl)

remapped_parts :
    (o b s t : KetServer)
    → remap_merge o b ≡ s
    → Kin s t
    → (o.secrets ≡ t.secrets) × (b.inbounds ≡ t.inbounds)
unfolding remap_merge
remapped_parts o b s t made kin = (
  ap (λ (x : KetServer). x.secrets) made ∙ Kin-secrets s t kin,
  ap (λ (x : KetServer). x.inbounds) made ∙ ap (λ (x : KetServer). x.inbounds) kin.same,
)

-- A Remap that adds an inbound to a server ends the daemon: the merge keeps the old mother sub-IDs,
-- which have none for the inbound, so the update of the database fails, and with it the start of
-- the cycle. The server was in the old cloud and the reconciliation is done.
pub start-remapped :
    (world : World) (config : String) (parsed : Outcome ConfigError Cloud) (old new : Cloud)
    (cf_list : Option String) (dirs : List String) (db : Option Db) {recon : Cloud}
    (t o b : KetServer) (inb : Inbound)
    → is_empty old.servers ≡ false
    → (reconcile_cloud world old new remap none cf_list dirs).outcome ≡ ok recon
    → In t recon.servers
    → last_named t.name old.servers ≡ some o
    → last_named t.name new.servers ≡ some b
    → In inb b.inbounds
    → lookup inb.name o.secrets.mother_subids ≡ none
    → (e : DbError) × (db' : Db) × (start world
          (ok config)
          parsed
          (plain exit_remap remap old new)
          cf_list
          dirs
          db
        ≡ update_failed e db')
unfolding start start_at old_of apply_reconciled stored update_db
start-remapped world config parsed old new cf_list dirs db {recon} t o b inb nonempty h m ho hb i
      absent =
    let all = reconcile_cloud-IsReconciled world old new remap none cf_list dirs nonempty h in
    let (s, origin, kin) = All-In (IsReconciled remap old new) recon.servers t all m in
    let name = sym (Kin-name s t kin) in
    let made =
      Origin-remapped old new s o b origin (subst (λ x. last_named x old.servers ≡ some o) name ho)
        (subst (λ x. last_named x new.servers ≡ some b) name hb) in
    let (secrets_eq, inbounds_eq) = remapped_parts o b s t made kin in
    let lost : lookup inb.name t.secrets.mother_subids ≡ none =
      subst (λ x. lookup inb.name x.mother_subids ≡ none) secrets_eq absent in
    let missing_here =
      first_missing-In t t.inbounds inb (subst (λ x. In inb x) inbounds_eq i) lost in
    let fails = put_groups-Fails recon.servers (put_options config recon (create_db db)) in
    let error : is_some
          (error_of (put_groups recon.servers (put_options config recon (create_db db))))
        ≡ true =
      ap is_some fails.error ∙ first_error-In recon.servers t m missing_here in
    let (e, db', r) =
      failed_run (put_groups recon.servers (put_options config recon (create_db db))) error in
    (e, db', rw (h, r) refl)
