-- ===== src/Daemon/Next/Sequences.antt =====
-- The loop of the daemon over its cycles (`daemonize` and `daemon_core`, src/daemon/core.rs): a
-- command is checked, and a cycle starts from what the check gives. The config file and the
-- database at each start are open. No setup or destruction ends within a cycle, so that the next
-- command finds the cloud of the start.
use xcplane.Common.{
  ◌⊎◌, String, Bool, false, Option, none, some, List, [], ◌∷◌, Outcome, ok, err, ◌≡◌, refl, sym, ap,
  subst, ◌∙◌, All, In, is_empty, string_eq, str_eq, Option-cases, Bool-cases, inl, inr, arith,
  eq_iff,
}
use xcplane.Server.{KetServer, Cloud, Secrets, production}
use xcplane.Config.Steps.{ConfigError}
use xcplane.Reconcile.Merge.{ReconError}
use xcplane.Reconcile.Merge.Laws.{SameIdentity, SameIdentity-refl}
use xcplane.Reconcile.Cloud.{World, Reconciled, reconcile_cloud, last_named}
use xcplane.Reconcile.Cloud.Identity.{reconcile_cloud-SameIdentity}
use xcplane.Database.{Db, DbError, Run, done, failed}
use xcplane.Database.Setup.{create_db}
use xcplane.Database.Update.{update_db}
use xcplane.Daemon.{TaskMap}
use xcplane.Daemon.Next.{
  DaemonComm, DaemonNext, next, check_and_backup, runs, old_of, stored, apply_reconciled, start_at,
  start,
}
use xcplane.Daemon.Next.Cycles.{check_and_backup-clouds}

-- The cycles from one cloud to another, with the clouds that they left, the last one first.
pub data Cycles : Cloud → List Cloud → Cloud → Type 0 where
  here : {a : Cloud} → Cycles a [] a
  cycle :
      {a b c : Cloud} {left : List Cloud} (world : World) (config : Outcome DbError String)
      (parsed : Outcome ConfigError Cloud) (backup : Bool) (order : List String)
      (names : String → List String) (tasks kept : TaskMap) (comm : DaemonComm) (init : DaemonNext)
      (cf_list : Option String) (dirs : List String) (db : Option Db) (db' : Db) (r : Reconciled)
      → Cycles a left b
      → check_and_backup parsed backup order names b tasks comm ≡ next init kept
      → start world config parsed init cf_list dirs db ≡ runs c db' r
      → Cycles a (b ∷ left) c

-- The cloud has the server, as a production unit.
abbrev pub IsProductionIn : String → Cloud → Type 0
IsProductionIn n c = (s : KetServer) × (last_named n c.servers ≡ some s) × (s.state ≡ production)

last_named-In :
    (n : String) (l : List KetServer) {t : KetServer}
    → last_named n l ≡ some t
    → In t l × (t.name ≡ n)
unfolding last_named
last_named-In n [] h = cc
last_named-In n (s ∷ l) {t} h = elim (Option-cases (last_named n l)) [
  | inr (x, p) ↦
      let same : some x ≡ some t = (rw p at h) in
      let (m, name) = last_named-In n l (p ∙ same) in (inr m, name)
  | inl p ↦ elim (Bool-cases (str_eq s.name n)) [
    | inl e ↦
        let same : some s ≡ some t = (rw (p, e) at h) in
        let at : s ≡ t = cc in
        (inl at, sym (ap (λ (x : KetServer). x.name) at) ∙ (eq_iff s.name n).0 e)
    | inr e ↦ let absurd : none ≡ some t = (rw (p, e) at h) in cc
  ]
]

SameIdentity-trans : (a b c : Secrets) → SameIdentity a b → SameIdentity b c → SameIdentity a c
SameIdentity-trans a b c p q = record {
  doh_endpoint = p.doh_endpoint ∙ q.doh_endpoint;
  xui_username = p.xui_username ∙ q.xui_username;
  xui_password = p.xui_password ∙ q.xui_password;
  xui_token = p.xui_token ∙ q.xui_token;
  xui_webpath = p.xui_webpath ∙ q.xui_webpath;
  xui_subpath = p.xui_subpath ∙ q.xui_subpath;
  xui_jsubpath = p.xui_jsubpath ∙ q.xui_jsubpath;
  subids = λ j v h. q.subids j v (p.subids j v h);
}

stored-cloud :
    (recon : Cloud) (r : Reconciled) (u : Run) {c : Cloud} {db' : Db} {q : Reconciled}
    → stored recon r u ≡ runs c db' q
    → recon ≡ c
unfolding stored
stored-cloud recon r (done db) h = cc
stored-cloud recon r (failed e db) h = cc

-- A cycle runs the old cloud, or what the reconciliation gave.
apply_reconciled-cloud :
    (config : Outcome DbError String) (old : Cloud) (db : Db) (r : Reconciled)
    (o : Outcome ReconError Cloud) {c : Cloud} {db' : Db} {q : Reconciled}
    → apply_reconciled config old db r o ≡ runs c db' q
    → (old ≡ c) ⊎ (o ≡ ok c)
unfolding apply_reconciled
apply_reconciled-cloud config old db r (err e) h = inl cc
apply_reconciled-cloud config old db r (ok recon) h =
    inr (ap ok (stored-cloud recon r (update_db config recon db) h))

start-cloud :
    (world : World) (config : Outcome DbError String) (parsed : Outcome ConfigError Cloud)
    (init : DaemonNext) (cf_list : Option String) (dirs : List String) (db : Option Db)
    {b new c : Cloud} {db' : Db} {r : Reconciled}
    → init.old_cloud ≡ some b
    → init.new_cloud ≡ some new
    → start world config parsed init cf_list dirs db ≡ runs c db' r
    → (b ≡ c)
      ⊎ ((reconcile_cloud world b new init.mode init.rebase_data cf_list dirs).outcome ≡ ok c)
unfolding start start_at old_of
start-cloud world config parsed init cf_list dirs db {b} {new} {c} {db'} {r} old fresh h =
    let q = reconcile_cloud world b new init.mode init.rebase_data cf_list dirs in
    let started : apply_reconciled config b (create_db db) q q.outcome ≡ runs c db' r =
      (rw (fresh, old) at h) in
    apply_reconciled-cloud config b (create_db db) q q.outcome started

nonempty-last_named :
    (n : String) (l : List KetServer) {s : KetServer} → last_named n l ≡ some s → is_empty l ≡ false
unfolding last_named
nonempty-last_named n [] h = cc
nonempty-last_named n (s ∷ l) h = refl

-- One cycle.
start-SameIdentity :
    (world : World) (config : Outcome DbError String) (parsed : Outcome ConfigError Cloud)
    (init : DaemonNext) (cf_list : Option String) (dirs : List String) (db : Option Db)
    {b new c : Cloud} {db' : Db} {r : Reconciled} (n : String) (s t : KetServer)
    → init.old_cloud ≡ some b
    → init.new_cloud ≡ some new
    → start world config parsed init cf_list dirs db ≡ runs c db' r
    → last_named n b.servers ≡ some s
    → s.state ≡ production
    → last_named n c.servers ≡ some t
    → SameIdentity s.secrets t.secrets
start-SameIdentity world config parsed init cf_list dirs db {b} {new} {c} n s t old fresh h in_b
      prod in_c =
    elim (start-cloud world config parsed init cf_list dirs db old fresh h) [
      | inl same ↦
          let again : some s ≡ some t =
            sym in_b ∙ ap (λ (x : Cloud). last_named n x.servers) same ∙ in_c in
          let at : s ≡ t = cc in
          subst (λ (x : KetServer). SameIdentity s.secrets x.secrets) at
            (SameIdentity-refl s.secrets)
      | inr made ↦
          let (member, name) = last_named-In n c.servers in_c in
          reconcile_cloud-SameIdentity world b new init.mode init.rebase_data cf_list dirs
            {result = c} t s (nonempty-last_named n b.servers in_b) made member
            (ap (λ x. last_named x b.servers) name ∙ in_b) prod
    ]

-- Whatever commands the daemon goes on with, in whatever modes, as long as no setup or destruction
-- ends within a cycle: a server that each of the clouds on
-- the way had as a production unit has, in the cloud that runs now, the secrets of the first cloud:
-- endpoint, user, password, token, paths, and every mother sub-ID that there was.
pub Cycles-SameIdentity :
    (n : String) {a c : Cloud} {left : List Cloud} (o t : KetServer)
    → Cycles a left c
    → All (IsProductionIn n) left
    → last_named n a.servers ≡ some o
    → last_named n c.servers ≡ some t
    → SameIdentity o.secrets t.secrets
Cycles-SameIdentity n o t here held in_a in_c =
    let again : some o ≡ some t = sym in_a ∙ in_c in
    let at : o ≡ t = cc in
    subst (λ (x : KetServer). SameIdentity o.secrets x.secrets) at (SameIdentity-refl o.secrets)
Cycles-SameIdentity n o t
      (cycle {b = b} world config parsed backup order names tasks kept comm init cf_list dirs db db'
        r before checked started)
      held in_a in_c =
    let (s, in_b, prod) = held.0 in
    let (old, fresh) = check_and_backup-clouds parsed backup order names b tasks comm checked in
    elim (Option-cases init.new_cloud) [
      | inl p ↦ ground (arith, p, fresh)
      | inr (new, p) ↦
          SameIdentity-trans o.secrets s.secrets t.secrets
            (Cycles-SameIdentity n o s before held.1 in_a in_b)
            (start-SameIdentity world config parsed init cf_list dirs db n s t old p started in_b
              prod in_c)
    ]
