-- ===== src/Daemon/Tasks/Setups.antt =====
-- The registry of src/daemon/core.rs never has two full setups.
use xcplane.Common.{
  ℕ, ◌+◌, ◌≤◌, ◌<◌, String, Bool, true, false, Option, none, some, List, [], ◌∷◌, if◌then◌else◌,
  str_eq, eq_iff, ◌≡◌, refl, subst, ◌∙◌, arith, Bool-cases, Outcome-cases, Option-cases, is_some,
  inl, inr, find?,
}
use xcplane.Server.{KetServer, Cloud, offgrid, production, ServerState}
use xcplane.Daemon.{
  TaskEntry, full_setup, destroy_server, TaskHandle, detached, outputter, is_finished, TaskMap,
  same_entry, same_server, handle_of, remove_task, spawn, finish,
}
use xcplane.Daemon.Tasks.{
  Change, expand, destroy, inquiry, ended, change, changes, after, pick_server, as_setup,
  setup_entry, start_setup, expand_cloud, start_destruction, destroy_checked,
  perform_server_destruction, setup_inquiry,
}

abbrev pub is_setup : TaskEntry → Bool
is_setup (full_setup s) = true
is_setup _ = false

-- The number of the full setups in the registry.
abbrev pub setups : TaskMap → ℕ
setups [] = 0
setups ((e, h) ∷ m) = (if is_setup e then 1 else 0) + setups m

pub same_entry_setup : (s : KetServer) → same_entry (full_setup s) (full_setup s) ≡ true
unfolding same_entry same_server
same_entry_setup s = ground (arith, eq_iff s.name s.name)

same_server_refl : (s : KetServer) → same_server s s ≡ true
unfolding same_server
same_server_refl s = ground (arith, eq_iff s.name s.name)

setups-remove_task : (e : TaskEntry) (m : TaskMap) → setups (remove_task e m) ≤ setups m
unfolding remove_task
setups-remove_task e [] = ground arith
setups-remove_task e ((f, h) ∷ m) = elim (Bool-cases (same_entry f e)) [
  | inl p ↦ rw p (ground (arith, setups-remove_task e m))
  | inr p ↦ rw p (ground (arith, setups-remove_task e m))
]

setups-spawn :
    (e : TaskEntry) (m : TaskMap) → setups (spawn e m) ≤ (if is_setup e then 1 else 0) + setups m
unfolding spawn
setups-spawn e [] = ground arith
setups-spawn e ((f, h) ∷ m) = elim (Bool-cases (same_entry f e)) [
  | inl p ↦ rw p (ground arith)
  | inr p ↦ rw p (ground (arith, setups-spawn e m))
]

setups-finish : (e : TaskEntry) (m : TaskMap) → setups (finish e m) ≡ setups m
unfolding finish
setups-finish e [] = refl
setups-finish e ((f, h) ∷ m) = elim (Bool-cases (same_entry f e)) [
  | inl p ↦ rw p (ground (arith, setups-finish e m))
  | inr p ↦ rw p (ground (arith, setups-finish e m))
]

as_setup-is_setup : (e : TaskEntry) (h : TaskHandle) → is_some (as_setup e h) ≡ is_setup e
unfolding as_setup
as_setup-is_setup (full_setup s) h = refl
as_setup-is_setup _ h = refl

as_setup-same :
    (e : TaskEntry) (g : TaskHandle) {s : KetServer} {h : TaskHandle}
    → as_setup e g ≡ some (s, h)
    → (same_entry e (full_setup s) ≡ true) × (is_setup e ≡ true)
unfolding as_setup same_entry
as_setup-same (full_setup t) g {s} {h} p =
    let same : t ≡ s = cc in (subst (λ x. same_server t x ≡ true) same (same_server_refl t), refl)
as_setup-same _ g p = cc

pub setups-setup_entry : (m : TaskMap) → setup_entry m ≡ none → setups m ≡ 0
unfolding setup_entry
setups-setup_entry [] p = refl
setups-setup_entry ((e, h) ∷ m) p = ground (arith, as_setup-is_setup e h, setups-setup_entry m)

-- The first full setup is removed.
pub setups-remove_setup :
    (m : TaskMap) {s : KetServer} {h : TaskHandle}
    → setup_entry m ≡ some (s, h)
    → setups (remove_task (full_setup s) m) < setups m
unfolding setup_entry remove_task
setups-remove_setup [] p = cc
setups-remove_setup ((e, g) ∷ m) {s} {h} p = elim (Option-cases (as_setup e g)) [
  | inl q ↦
      let rest : setup_entry m ≡ some (s, h) = (rw q at p) in
      let ih = setups-remove_setup m rest in
      elim (Bool-cases (same_entry e (full_setup s))) [
        | inl r ↦ rw r (ground (arith, ih))
        | inr r ↦ rw r (ground (arith, ih))
      ]
  | inr (x, q) ↦
      let first : some x ≡ some (s, h) = (rw q at p) in
      let (same, setup) = as_setup-same e g (q ∙ first) in
      rw (same, setup) (ground (arith, setups-remove_task (full_setup s) m))
]

setups-start_setup :
    (s : KetServer) (o : Option (KetServer × TaskHandle)) (m : TaskMap)
    → setup_entry m ≡ o
    → setups m ≤ 1
    → setups (start_setup s o m).1 ≤ 1
unfolding start_setup
setups-start_setup s none m e h =
    ground (arith, setups-spawn (full_setup s) m, setups-setup_entry m e)
setups-start_setup s (some (old, detached true)) m e h =
    ground
      (arith, setups-spawn (full_setup s) (remove_task (full_setup old) m), setups-remove_setup m e)
setups-start_setup s (some (old, detached false)) m e h = h
setups-start_setup s (some (old, outputter finished)) m e h = h

setups-start_destruction :
    (s : KetServer) (o : Option TaskHandle) (m : TaskMap)
    → setups (after m (start_destruction s o m)) ≤ setups m
unfolding start_destruction
setups-start_destruction s none m = ground (arith, setups-spawn (destroy_server s) m)
setups-start_destruction s (some h) m = elim (Bool-cases (is_finished h)) [
  | inl p ↦ rw p (ground arith)
  | inr p ↦ rw p (ground arith)
]

setups-destroy_checked :
    (s : KetServer) (state : ServerState) (enabled : Bool) (m : TaskMap)
    → setups (after m (destroy_checked s state enabled m)) ≤ setups m
unfolding destroy_checked
setups-destroy_checked s offgrid enabled m = ground arith
setups-destroy_checked s production false m = ground arith
setups-destroy_checked s production true m =
    setups-start_destruction s (handle_of (destroy_server s) m) m

setups-perform_server_destruction :
    (cloud : Cloud) (name : String) (m : TaskMap)
    → setups (after m (perform_server_destruction cloud name m)) ≤ setups m
unfolding perform_server_destruction
setups-perform_server_destruction cloud name m =
    elim (Option-cases (find? (λ (s : KetServer). str_eq s.name name) cloud.servers)) [
      | inl p ↦ rw p (ground arith)
      | inr (s, p) ↦ rw p (setups-destroy_checked s s.state s.enabled m)
    ]

setups-expand_cloud :
    (cloud : Cloud) (name : Option String) (m : TaskMap)
    → setups m ≤ 1
    → setups (after m (expand_cloud cloud name m)) ≤ 1
unfolding expand_cloud
setups-expand_cloud cloud name m h = elim (Outcome-cases (pick_server cloud name)) [
  | inl (s, p) ↦ rw p (setups-start_setup s (setup_entry m) m refl h)
  | inr (e, p) ↦ rw p h
]

setups-change : (m : TaskMap) (c : Change) → setups m ≤ 1 → setups (change m c) ≤ 1
unfolding change setup_inquiry
setups-change m (expand cloud name) h = setups-expand_cloud cloud name m h
setups-change m (destroy cloud name) h =
    ground (arith, h, setups-perform_server_destruction cloud name m)
setups-change m (inquiry e) h = ground (arith, h, setups-remove_task e m)
setups-change m (ended e) h = ground (arith, h, setups-finish e m)

-- Whatever commands come and tasks end, the registry has at most one full setup, when it had at
-- most one at first.
pub setups-changes : (m : TaskMap) (l : List Change) → setups m ≤ 1 → setups (changes m l) ≤ 1
unfolding changes
setups-changes m [] h = h
setups-changes m (c ∷ l) h = setups-changes (change m c) l (setups-change m c h)
