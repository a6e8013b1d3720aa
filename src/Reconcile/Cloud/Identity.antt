-- ===== src/Reconcile/Cloud/Identity.antt =====
-- The identity of a Production server through `reconcile_cloud` of src/cloud/reconcile.rs.
use xcplane.Common.{
  String, false, Option, some, List, [], ◌∷◌, Map, ok, is_empty, map, ◌≡◌, arith, subst, ap, sym,
  In, All-In, eq_iff, inl, inr, Option-cases,
}
use xcplane.Server.{KetServer, Cloud, production}
use xcplane.Config.Inbounds.{inbound_pair}
use xcplane.Reconcile.Merge.{ReconMode}
use xcplane.Reconcile.Merge.Laws.{SameIdentity, merge_server-SameIdentity, merge_server-name}
use xcplane.Reconcile.RebaseData.{RebaseData}
use xcplane.Reconcile.Cloud.{World, last_named, reconcile_cloud}
use xcplane.Reconcile.Cloud.Origins.{
  Origin, added, merged, Kin, IsReconciled, reconcile_cloud-IsReconciled,
}

pub last_named-name :
    (n : String) (l : List KetServer) {s : KetServer} → last_named n l ≡ some s → s.name ≡ n
unfolding last_named
last_named-name n [] h = cc
last_named-name n (x ∷ l) {s} h = elim (Option-cases (last_named n l)) [
  | inl e ↦ ground (arith, e, eq_iff x.name n)
  | inr (y, e) ↦ last_named-name n l {s = s} (ground (arith, e))
]

Origin-SameIdentity :
    (mode : ReconMode) (old new : Cloud) (s o : KetServer)
    → Origin mode old new s
    → last_named s.name old.servers ≡ some o
    → o.state ≡ production
    → SameIdentity o.secrets s.secrets
Origin-SameIdentity mode old new s o (added n ha hb) h prod =
    let name = last_named-name n new.servers {s = s} hb in
    let k = subst (λ x. last_named x old.servers ≡ some o) name h in ground (arith, ha, k)
Origin-SameIdentity mode old new s o (merged n a b ha hb hm) h prod =
    let name =
      merge_server-name mode a b (map inbound_pair new.settings.inbound_set) n {merged = s}
        (last_named-name n old.servers {s = a} ha) (last_named-name n new.servers {s = b} hb) hm in
    let k = subst (λ x. last_named x old.servers ≡ some o) name h in
    let same : a ≡ o = ground (arith, ha, k) in
    subst (λ (x : KetServer). SameIdentity x.secrets s.secrets) same
      (merge_server-SameIdentity mode a b (map inbound_pair new.settings.inbound_set) {merged = s}
        (subst (λ (x : KetServer). x.state ≡ production) (sym same) prod) hm)

pub Kin-name : (s t : KetServer) → Kin s t → s.name ≡ t.name
Kin-name s t kin = ap (λ (x : KetServer). x.name) kin.same

pub Kin-secrets : (s t : KetServer) → Kin s t → s.secrets ≡ t.secrets
Kin-secrets s t kin = ap (λ (x : KetServer). x.secrets) kin.same

-- Whatever the mode, a server of the reconciled cloud that was Production in the old cloud has its
-- old secrets: endpoint, user, password, token, paths, and every mother sub-ID that there was.
pub reconcile_cloud-SameIdentity :
    (world : World) (old new : Cloud) (mode : ReconMode) (table : Option (Map RebaseData))
    (cf_list : Option String) (dirs : List String) {result : Cloud} (t o : KetServer)
    → is_empty old.servers ≡ false
    → (reconcile_cloud world old new mode table cf_list dirs).outcome ≡ ok result
    → In t result.servers
    → last_named t.name old.servers ≡ some o
    → o.state ≡ production
    → SameIdentity o.secrets t.secrets
reconcile_cloud-SameIdentity world old new mode table cf_list dirs {result} t o nonempty h m k
      prod =
    let all = reconcile_cloud-IsReconciled world old new mode table cf_list dirs nonempty h in
    let (s, origin, kin) = All-In (IsReconciled mode old new) result.servers t all m in
    subst (SameIdentity o.secrets) (Kin-secrets s t kin) (
      Origin-SameIdentity mode old new s o origin
        (subst (λ x. last_named x old.servers ≡ some o) (sym (Kin-name s t kin)) k) prod)
