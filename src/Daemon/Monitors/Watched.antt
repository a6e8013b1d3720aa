-- ===== src/Daemon/Monitors/Watched.antt =====
-- Which services the monitors of src/daemon/core.rs watch.
use xcplane.Common.{
  ℕ, String, Bool, true, Option, none, some, List, [], ◌∷◌, ok, is_some, is_empty, ◌||◌, ◌&&◌, All,
  all, not, false, Bool-cases, eq_iff, inl, inr, ◌≡◌, refl, arith,
}
use xcplane.Server.{Inbound, KetServer, Cloud}
use xcplane.Server.Kind.{SvcKind, ssh, nginx, xray, svc_kind_eqb}
use xcplane.Server.Methods.{get_jsub}
use xcplane.Daemon.{
  SvcInfo, TaskEntry, ssh_monitor, nginx_monitor, xray_monitor, aggregator, xui_db_pruner,
  acme_checker, full_setup, destroy_server, TaskMap, TaskHandle, is_finished, same_entry, same_info,
  same_link, same_server, handle_of, spawn,
}
use xcplane.Daemon.Monitors.{
  Registry, watch, keep, ssh_info, nginx_info, xray_info, port_of, start_inbound, start_inbounds,
  start_server, start_servers, prod_servers, start_monitors,
}

-- The handle of a task that has not ended.
abbrev pub lives : Option TaskHandle → Bool
lives none = false
lives (some h) = not (is_finished h)

abbrev pub runs_in : TaskEntry → TaskMap → Bool
runs_in e m = lives (handle_of e m)

abbrev pub IsRunning : TaskEntry → TaskMap → Type 0
IsRunning e m = runs_in e m ≡ true

-- No task of the registry has ended.
abbrev pub all_live : TaskMap → Bool
all_live m = all (λ (row : TaskEntry × TaskHandle). not (is_finished row.1)) m

-- Nothing is stopped.
abbrev Keeps : TaskMap → TaskMap → Type 0
Keeps m m' = (e : TaskEntry) → IsRunning e m → IsRunning e m'

svc_kind_eqb_refl : (k : SvcKind) → svc_kind_eqb k k ≡ true
svc_kind_eqb_refl ssh = refl
svc_kind_eqb_refl nginx = refl
svc_kind_eqb_refl (xray n) = ground (arith, eq_iff n n)

same_server_refl : (s : KetServer) → same_server s s ≡ true
unfolding same_server
same_server_refl s = ground (arith, eq_iff s.name s.name)

same_link_refl : (l : Option String) → same_link l l ≡ true
unfolding same_link
same_link_refl none = refl
same_link_refl (some a) = ground (arith, eq_iff a a)

same_info_refl : (i : SvcInfo) → same_info i i ≡ true
unfolding same_info
same_info_refl i =
    rw (same_server_refl i.server, svc_kind_eqb_refl i.kind, same_link_refl i.link) (ground arith)

same_entry_refl : (e : TaskEntry) → same_entry e e ≡ true
unfolding same_entry
same_entry_refl (ssh_monitor i) = same_info_refl i
same_entry_refl (nginx_monitor i) = same_info_refl i
same_entry_refl (xray_monitor i) = same_info_refl i
same_entry_refl (full_setup s) = same_server_refl s
same_entry_refl (destroy_server s) = same_server_refl s
same_entry_refl (xui_db_pruner s) = same_server_refl s
same_entry_refl (acme_checker s) = same_server_refl s
same_entry_refl _ = refl

-- A task whose entry is there runs.
all_live-runs :
    (e : TaskEntry) (m : TaskMap)
    → all_live m ≡ true
    → is_some (handle_of e m) ≡ true
    → IsRunning e m
unfolding handle_of
all_live-runs e [] live h = ground (arith, h)
all_live-runs e ((f, g) ∷ m) live h = elim (Bool-cases (same_entry f e)) [
  | inl p ↦ rw p (ground (arith, live))
  | inr p ↦ rw p (all_live-runs e m (ground (arith, live)) (rw p at h))
]

spawn-IsRunning :
    (e : TaskEntry) (m : TaskMap) → is_some (handle_of e m) ≡ false → IsRunning e (spawn e m)
unfolding spawn handle_of is_finished
spawn-IsRunning e [] h = rw (same_entry_refl e) refl
spawn-IsRunning e ((f, g) ∷ m) h = elim (Bool-cases (same_entry f e)) [
  | inl p ↦ let bad : true ≡ false = (rw p at h) in cc
  | inr p ↦ rw (p, p) (spawn-IsRunning e m (rw p at h))
]

all_live-spawn : (e : TaskEntry) (m : TaskMap) → all_live m ≡ true → all_live (spawn e m) ≡ true
unfolding spawn is_finished
all_live-spawn e [] live = refl
all_live-spawn e ((f, g) ∷ m) live = elim (Bool-cases (same_entry f e)) [
  | inl p ↦ rw p live
  | inr p ↦ rw p (ground (arith, live, all_live-spawn e m))
]

spawn-Keeps : (e : TaskEntry) (m : TaskMap) → Keeps m (spawn e m)
unfolding spawn handle_of
spawn-Keeps e [] f h = ground (arith, h)
spawn-Keeps e ((g, j) ∷ m) f h = elim (Bool-cases (same_entry g e)) [
  | inl p ↦ rw p h
  | inr p ↦ rw p (elim (Bool-cases (same_entry g f)) [
    | inl q ↦ rw q (rw q at h)
    | inr q ↦ rw q (spawn-Keeps e m f (rw q at h))
  ])
]

-- The task runs, what ran runs on, and still no task has ended.
Started : TaskEntry → Registry → Registry → Type 0
Started e r r' = IsRunning e r'.tasks × Keeps r.tasks r'.tasks × (all_live r'.tasks ≡ true)

watch-Started : (e : TaskEntry) (r : Registry) → all_live r.tasks ≡ true → Started e r (watch e r)
unfolding watch Started
watch-Started e r live = elim (Bool-cases (is_some (handle_of e r.tasks))) [
  | inl p ↦ rw p (all_live-runs e r.tasks live p, (λ f h. h), live)
  | inr p ↦ rw p (spawn-IsRunning e r.tasks p, spawn-Keeps e r.tasks, all_live-spawn e r.tasks live)
]

keep-Started : (e : TaskEntry) (r : Registry) → all_live r.tasks ≡ true → Started e r (keep e r)
unfolding keep Started
keep-Started e r live = elim (Bool-cases (is_some (handle_of e r.tasks))) [
  | inl p ↦ rw p (all_live-runs e r.tasks live p, (λ f h. h), live)
  | inr p ↦ rw p (spawn-IsRunning e r.tasks p, spawn-Keeps e r.tasks, all_live-spawn e r.tasks live)
]

Keeps-and :
    (m m' : TaskMap) → Keeps m m' → (e : TaskEntry) → (runs_in e m && runs_in e m') ≡ runs_in e m
Keeps-and m m' k e = elim (Bool-cases (runs_in e m)) [
  | inl p ↦ rw (p, k e p) refl
  | inr p ↦ rw p refl
]

module _ (parse_url : String → Option String) where
  -- An inbound is monitored on some port, over its link.
  abbrev pub IsXrayWatched : TaskMap → KetServer → Inbound → Type 0
  IsXrayWatched m s inb = (port : ℕ) × IsRunning (xray_monitor (xray_info parse_url s inb port)) m

  -- SSH, Nginx and all inbounds of a server are monitored, its backups are pruned and its
  -- certificate is checked.
  pub record IsWatched (m : TaskMap) (s : KetServer) : Type 0 where
    pub ssh_runs : IsRunning (ssh_monitor (ssh_info s)) m
    pub nginx_runs : IsRunning (nginx_monitor (nginx_info s)) m
    pub xray_runs : All (IsXrayWatched m s) s.inbounds
    pub pruner_runs : IsRunning (xui_db_pruner s) m
    pub checker_runs : IsRunning (acme_checker s) m

  -- The inbounds of a server that have links.
  abbrev pub HasLinks : KetServer → List Inbound → Type 0
  HasLinks s l = All (λ (inb : Inbound). is_some (get_jsub parse_url inb s) ≡ true) l

  IsXrayWatched-Keeps :
      (m m' : TaskMap) (s : KetServer) (l : List Inbound)
      → Keeps m m'
      → All (IsXrayWatched m s) l
      → All (IsXrayWatched m' s) l
  IsXrayWatched-Keeps m m' s [] k h = tt
  IsXrayWatched-Keeps m m' s (inb ∷ l) k ((port, h), t) = (
    (port, k (xray_monitor (xray_info parse_url s inb port)) h),
    IsXrayWatched-Keeps m m' s l k t,
  )

  start_inbounds-Watched :
      (s : KetServer) (l : List Inbound) (r : Registry)
      → HasLinks s l
      → all_live r.tasks ≡ true
      → (r' : Registry) × (start_inbounds parse_url s l r ≡ ok r')
        × Keeps r.tasks r'.tasks
        × (all_live r'.tasks ≡ true)
        × All (IsXrayWatched r'.tasks s) l
  unfolding start_inbounds start_inbound Started
  start_inbounds-Watched s [] r h live = (r, refl, (λ e k. k), live, tt)
  start_inbounds-Watched s (inb ∷ l) r (link, links) live =
      let port = (port_of inb r.port).0 in
      let numbered : Registry = record r { port = (port_of inb r.port).1 } in
      let entry = xray_monitor (xray_info parse_url s inb port) in
      let (runs, kept, on) = watch-Started entry numbered live in
      let (r', eq, keeps, still, all) =
        start_inbounds-Watched s l (watch entry numbered) links on in
      (r', rw link eq, (λ e k. keeps e (kept e k)), still, ((port, keeps entry runs), all))

  IsWatched-Keeps : (m m' : TaskMap) (s : KetServer) → Keeps m m' → IsWatched m s → IsWatched m' s
  IsWatched-Keeps m m' s k w = record {
    ssh_runs = k (ssh_monitor (ssh_info s)) w.ssh_runs;
    nginx_runs = k (nginx_monitor (nginx_info s)) w.nginx_runs;
    xray_runs = IsXrayWatched-Keeps m m' s s.inbounds k w.xray_runs;
    pruner_runs = k (xui_db_pruner s) w.pruner_runs;
    checker_runs = k (acme_checker s) w.checker_runs;
  }

  start_server-Watched :
      (clients : String → Bool) (s : KetServer) (r : Registry)
      → clients s.name ≡ true
      → HasLinks s s.inbounds
      → all_live r.tasks ≡ true
      → (r' : Registry) × (start_server parse_url clients s r ≡ ok r')
        × Keeps r.tasks r'.tasks
        × (all_live r'.tasks ≡ true)
        × IsWatched r'.tasks s
  unfolding start_server Started
  start_server-Watched clients s r c links live =
      let r1 = watch (ssh_monitor (ssh_info s)) r in
      let (ssh_runs, k1, l1) = watch-Started (ssh_monitor (ssh_info s)) r live in
      let r2 = watch (nginx_monitor (nginx_info s)) r1 in
      let (nginx_runs, k2, l2) = watch-Started (nginx_monitor (nginx_info s)) r1 l1 in
      let (r3, eq, k3, l3, all) = start_inbounds-Watched s s.inbounds r2 links l2 in
      let (pruner, k4, l4) = keep-Started (xui_db_pruner s) r3 l3 in
      let r4 = keep (xui_db_pruner s) r3 in
      let (checker, k5, l5) = keep-Started (acme_checker s) r4 l4 in
      let late : Keeps r3.tasks (keep (acme_checker s) r4).tasks = λ e h. k5 e (k4 e h) in
      (
        keep (acme_checker s) r4,
        rw (c, eq) refl,
        (λ e h. late e (k3 e (k2 e (k1 e h)))),
        l5,
        record {
          ssh_runs =
              late (ssh_monitor (ssh_info s))
                (k3 (ssh_monitor (ssh_info s)) (k2 (ssh_monitor (ssh_info s)) ssh_runs));
          nginx_runs =
              late (nginx_monitor (nginx_info s)) (k3 (nginx_monitor (nginx_info s)) nginx_runs);
          xray_runs =
              IsXrayWatched-Keeps r3.tasks (keep (acme_checker s) r4).tasks s s.inbounds late all;
          pruner_runs = k5 (xui_db_pruner s) pruner;
          checker_runs = checker;
        },
      )

  -- The server has its client and all its inbounds have links.
  abbrev pub IsReady : (String → Bool) → KetServer → Type 0
  IsReady clients s = (clients s.name ≡ true) × HasLinks s s.inbounds

  start_servers-Watched :
      (clients : String → Bool) (servers : List KetServer) (r : Registry)
      → All (IsReady clients) servers
      → all_live r.tasks ≡ true
      → (r' : Registry) × (start_servers parse_url clients servers r ≡ ok r')
        × Keeps r.tasks r'.tasks
        × (all_live r'.tasks ≡ true)
        × All (IsWatched r'.tasks) servers
  unfolding start_servers
  start_servers-Watched clients [] r h live = (r, refl, (λ e k. k), live, tt)
  start_servers-Watched clients (s ∷ servers) r ((c, links), h) live =
      let (r1, eq, k1, l1, watched) = start_server-Watched clients s r c links live in
      let (r2, eq2, k2, l2, all) = start_servers-Watched clients servers r1 h l1 in
      (
        r2,
        rw (eq, eq2) refl,
        (λ e k. k2 e (k1 e k)),
        l2,
        (IsWatched-Keeps r1.tasks r2.tasks s k2 watched, all),
      )

  IsWatched-empty :
      (m : TaskMap) (servers : List KetServer) → is_empty servers ≡ true → All (IsWatched m) servers
  IsWatched-empty m [] h = tt
  IsWatched-empty m (s ∷ servers) h = ground (arith, h)

  -- When no task of the registry has ended, and each enabled Production server of the cloud has its
  -- client and for each of its inbounds a mother sub-ID with which the link is a URL, the monitors
  -- start: then the monitors of SSH, of Nginx and of all inbounds of each of those servers run, and
  -- so do the pruner of its backups and the checker of its certificate; all tasks that ran run on.
  -- If there is such a server the aggregator runs.
  pub start_monitors-IsWatched :
      (clients : String → Bool) (cloud : Cloud) (r : Registry)
      → All (IsReady clients) (prod_servers cloud)
      → all_live r.tasks ≡ true
      → (r' : Registry) × (start_monitors parse_url clients cloud r ≡ ok r')
        × All (IsWatched r'.tasks) (prod_servers cloud)
        × ((e : TaskEntry) → (runs_in e r.tasks && runs_in e r'.tasks) ≡ runs_in e r.tasks)
        × ((is_empty (prod_servers cloud) || runs_in aggregator r'.tasks) ≡ true)
  unfolding start_monitors Started
  start_monitors-IsWatched clients cloud r h live =
      elim (Bool-cases (is_empty (prod_servers cloud))) [
        | inl p ↦ (
          r,
          rw p refl,
          IsWatched-empty r.tasks (prod_servers cloud) p,
          Keeps-and r.tasks r.tasks (λ e k. k),
          rw p refl,
        )
        | inr p ↦
            let (runs, k1, l1) = keep-Started aggregator r live in
            let (r', eq, k2, l2, all) =
              start_servers-Watched clients (prod_servers cloud) (keep aggregator r) h l1 in
            (
              r',
              rw p eq,
              all,
              Keeps-and r.tasks r'.tasks (λ e k. k2 e (k1 e k)),
              rw (p, k2 aggregator runs) refl,
            )
      ]
