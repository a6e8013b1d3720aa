-- ===== src/Daemon/Tasks/Expansion.antt =====
-- The server on which `expand_cloud` (src/cloud.rs) starts a full setup.
use xcplane.Common.{
  ◌≤◌, String, Bool, true, false, not, Option, none, some, List, [], ◌∷◌, ok, str_eq, eq_iff, ◌≡◌,
  refl, sym, ap, subst, ◌∙◌, arith, and_split, ok-injective, Bool-cases, Outcome-cases,
  Option-cases, is_some, inl, inr, all, find?, In, ◌&&◌,
}
use xcplane.Server.{KetServer, Cloud, offgrid, production, ServerState}
use xcplane.Daemon.{
  TaskEntry, full_setup, TaskHandle, detached, outputter, TaskMap, same_entry, handle_of,
  remove_task, spawn,
}
use xcplane.Daemon.Tasks.{
  TaskReply, provisioning, setup_is_running, TaskError, is_offgrid, is_fresh, check_given,
  final_server, given_server, pick_server, as_setup, setup_entry, start_setup, expand_cloud,
}
use xcplane.Daemon.Tasks.Setups.{
  setups, is_setup, setups-setup_entry, setups-remove_setup, same_entry_setup,
}
use xcplane.Database.Marks.{Site, mark_server_production}
use xcplane.Database.Marks.Agreement.{is_marked, mark_server_production-is_marked}

-- The command names no server, or this one.
pub IsAsked : Option String → KetServer → Type 0
IsAsked none s = Unit
IsAsked (some name) s = s.name ≡ name

pub record IsPicked (cloud : Cloud) (name : Option String) (s : KetServer) : Type 0 where
  pub in_cloud : In s cloud.servers
  pub fresh : is_fresh s ≡ true
  pub asked : IsAsked name s

find?-In :
    (p : KetServer → Bool) (l : List KetServer) {s : KetServer}
    → find? p l ≡ some s
    → In s l × (p s ≡ true)
find?-In p [] h = cc
find?-In p (x ∷ l) {s} h = elim (Bool-cases (p x)) [
  | inl q ↦
      let first : some x ≡ some s = (rw q at h) in
      let same : x ≡ s = cc in (inl same, subst (λ y. p y ≡ true) same q)
  | inr q ↦
      let rest : find? p l ≡ some s = (rw q at h) in let (i, e) = find?-In p l rest in (inr i, e)
]

check_given-is_fresh :
    (name : String) (s : KetServer) (state : ServerState) (enabled : Bool) (token : Option String)
    {t : KetServer}
    → check_given name s state enabled token ≡ ok t
    → (s ≡ t) × ((is_offgrid state && (enabled && not (is_some token))) ≡ true)
unfolding check_given
check_given-is_fresh name s state false token h = cc
check_given-is_fresh name s offgrid true none h = (cc, refl)
check_given-is_fresh name s production true token h = cc
check_given-is_fresh name s offgrid true (some token) h = cc

pick_server-IsPicked :
    (cloud : Cloud) (name : Option String) {s : KetServer}
    → pick_server cloud name ≡ ok s
    → IsPicked cloud name s
unfolding pick_server final_server IsAsked given_server
pick_server-IsPicked cloud none {s} h = elim (Option-cases (find? is_fresh cloud.servers)) [
  | inl p ↦ let absurd = (rw p at h) in cc
  | inr (x, p) ↦
      let same : ok x ≡ ok s = (rw p at h) in
      let (i, e) = find?-In is_fresh cloud.servers p in
      subst (IsPicked cloud none) (ok-injective {E = TaskError} x s same)
        (record { in_cloud = i; fresh = e; asked = tt })
]
pick_server-IsPicked cloud (some name) {s} h =
    elim (Option-cases (find? (λ (x : KetServer). str_eq x.name name) cloud.servers)) [
      | inl p ↦ let absurd = (rw p at h) in cc
      | inr (x, p) ↦
          let given : check_given name x x.state x.enabled x.secrets.xui_token ≡ ok s =
            (rw p at h) in
          let (same, fresh) =
            check_given-is_fresh name x x.state x.enabled x.secrets.xui_token given in
          let (i, e) = find?-In (λ (y : KetServer). str_eq y.name name) cloud.servers p in
          subst (IsPicked cloud (some name)) same
            (record { in_cloud = i; fresh = fresh; asked = (eq_iff x.name name).0 e })
    ]

-- Every handle of the registry is of the first kind.
abbrev pub is_detached : TaskEntry × TaskHandle → Bool
is_detached (e, detached done) = true
is_detached (e, outputter done) = false

same_entry-is_setup :
    (e : TaskEntry) (s : KetServer) → is_setup e ≡ false → same_entry e (full_setup s) ≡ false
unfolding same_entry
same_entry-is_setup (full_setup t) s h = cc
same_entry-is_setup _ s h = refl

handle_of-spawn :
    (s : KetServer) (m : TaskMap)
    → setups m ≡ 0
    → handle_of (full_setup s) (spawn (full_setup s) m) ≡ some (detached false)
unfolding handle_of spawn
handle_of-spawn s [] h = ground (arith, same_entry_setup s)
handle_of-spawn s ((e, g) ∷ m) h =
    let other : same_entry e (full_setup s) ≡ false = same_entry-is_setup e s (ground (arith, h)) in
    let rest : setups m ≡ 0 = ground (arith, h) in rw (other, other) (handle_of-spawn s m rest)

as_setup-detached :
    (e : TaskEntry) (g : TaskHandle) {s : KetServer} {h : TaskHandle}
    → is_detached (e, g) ≡ true
    → as_setup e g ≡ some (s, h)
    → is_detached (full_setup s, h) ≡ true
unfolding as_setup
as_setup-detached (full_setup t) (detached done) {s} {h} d p =
    let same : detached done ≡ h = cc in subst (λ x. is_detached (full_setup s, x) ≡ true) same refl
as_setup-detached (full_setup t) (outputter done) d p = cc
as_setup-detached _ g d p = cc

setup_entry-detached :
    (m : TaskMap) {s : KetServer} {h : TaskHandle}
    → all is_detached m ≡ true
    → setup_entry m ≡ some (s, h)
    → is_detached (full_setup s, h) ≡ true
unfolding setup_entry
setup_entry-detached [] a p = cc
setup_entry-detached ((e, g) ∷ m) {s} {h} a p =
    let (here, rest) = and_split (is_detached (e, g)) (all is_detached m) a in
    elim (Option-cases (as_setup e g)) [
      | inl q ↦ setup_entry-detached m rest (rw q at p)
      | inr (x, q) ↦
          let first : some x ≡ some (s, h) = (rw q at p) in as_setup-detached e g here (q ∙ first)
    ]

start_setup-runs :
    (s : KetServer) (o : Option (KetServer × TaskHandle)) (m : TaskMap) {n : String} {m' : TaskMap}
    → setup_entry m ≡ o
    → setups m ≤ 1
    → all is_detached m ≡ true
    → start_setup s o m ≡ (provisioning n, m')
    → (s.name ≡ n) × (handle_of (full_setup s) m' ≡ some (detached false))
unfolding start_setup
start_setup-runs s none m {n} {m'} e h d p = (
  (let reply : provisioning s.name ≡ provisioning n = ap (λ (r : TaskReply × TaskMap). r.0) p in
      cc),
  ap (handle_of (full_setup s)) (sym (ap (λ (r : TaskReply × TaskMap). r.1) p))
      ∙ handle_of-spawn s m (setups-setup_entry m e),
)
start_setup-runs s (some (old, detached true)) m {n} {m'} e h d p = (
  (let reply : provisioning s.name ≡ provisioning n = ap (λ (r : TaskReply × TaskMap). r.0) p in
      cc),
  ap (handle_of (full_setup s)) (sym (ap (λ (r : TaskReply × TaskMap). r.1) p))
      ∙ handle_of-spawn s (remove_task (full_setup old) m)
          (ground (arith, h, setups-remove_setup m e)),
)
start_setup-runs s (some (old, detached false)) m e h d p =
    let absurd : setup_is_running old.name ≡ provisioning _ =
      ap (λ (r : TaskReply × TaskMap). r.0) p in
    cc
start_setup-runs s (some (old, outputter finished)) m e h d p =
    let absurd : false ≡ true = setup_entry-detached m d e in cc

-- A setup that `expand_cloud` answers for is registered and runs, on an enabled server of the cloud
-- that is off the grid and has no token, and that is the one the command names, if any; and when
-- the playbook succeeds, the server can be marked as a production unit as soon as it has a
-- connection and the config file is readable. The registry has at most one full setup before, and
-- its handles are of the first kind.
pub expand_cloud-IsPicked :
    (cloud : Cloud) (name : Option String) (m : TaskMap) {n : String} {m' : TaskMap}
    → setups m ≤ 1
    → all is_detached m ≡ true
    → expand_cloud cloud name m ≡ ok (provisioning n, m')
    → (s : KetServer) × (s.name ≡ n)
      × IsPicked cloud name s
      × (handle_of (full_setup s) m' ≡ some (detached false))
      × ((token : String) (site : Site)
          → is_marked (mark_server_production token (record site { server = s }))
            ≡ (is_some s.ansible_conn && is_some site.config))
unfolding expand_cloud
expand_cloud-IsPicked cloud name m {n} {m'} h d p = elim (Outcome-cases (pick_server cloud name)) [
  | inl (s, q) ↦
      let started : ok (start_setup s (setup_entry m) m) ≡ ok (provisioning n, m') = (rw q at p) in
      let (same, runs) =
        start_setup-runs s (setup_entry m) m refl h d (ok-injective {E = TaskError} _ _ started) in
      let picked = pick_server-IsPicked cloud name q in
      (
        s,
        same,
        picked,
        runs,
        λ token site.
            mark_server_production-is_marked token (record site { server = s })
            ∙ ground (arith, picked.fresh),
      )
  | inr (e, q) ↦ let absurd = (rw q at p) in cc
]
