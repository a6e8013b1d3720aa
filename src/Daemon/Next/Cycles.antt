-- ===== src/Daemon/Next/Cycles.antt =====
-- The cycles of the daemon, src/daemon.rs and src/daemon/core.rs.
use xcplane.Common.{
  ℕ, none, is_ok, String, Bool, true, false, Option, some, List, [], Outcome, ok, err, Map, ◌≡◌,
  refl, ap, subst, ◌∙◌, All, Distinct, is_some, map, string_eq, Outcome-cases, Option-cases,
  ok-injective, inl, inr,
}
use xcplane.Server.{Cloud}
use xcplane.Config.Steps.{ConfigError}
use xcplane.Reconcile.Merge.{ReconMode, reload, remap, rebase, ReconError}
use xcplane.Reconcile.RebaseData.{RebaseData, RebaseError, create_rebase_data}
use xcplane.Reconcile.Cloud.{World, Reconciled, reconcile_cloud, last_named}
use xcplane.Database.{Db, DbError, Run, done, failed}
use xcplane.Database.Setup.{create_db}
use xcplane.Database.Load.{load_cloud}
use xcplane.Database.Update.{update_db, name_of}
use xcplane.Database.Update.Stored.{IsLinked}
use xcplane.Database.Load.Rows.{fits_server, find_server}
use xcplane.Database.Load.RoundTrip.{LoadedAs, load_cloud-update_db}
use xcplane.Daemon.{TaskMap}
use xcplane.Daemon.Next.{
  DaemonComm, restart, reload_comm, remap_comm, rebase_comm, DaemonNext, plain, exit_restart,
  exit_reload, exit_remap, Checked, next, bad_config, bad_rebase, no_backup, unsuitable, back_up,
  rebase_next, check_parsed, check_and_backup, LoopStep, prepares_again, continues, loop_step, runs,
  old_of, stored, apply_reconciled, start_at, start,
}

-- The mode of the next cycle, for the commands that ask for one.
abbrev pub mode_of : DaemonComm → Option ReconMode
mode_of restart = some reload
mode_of reload_comm = some reload
mode_of remap_comm = some remap
mode_of (rebase_comm forced) = some rebase
mode_of _ = none

-- Only a restart prepares the workspace again.
abbrev pub step_of : DaemonComm → LoopStep
step_of restart = prepares_again
step_of _ = continues

-- A Rebase has the comparison of the two clouds; no other command has one.
abbrev pub HasTable :
    DaemonComm
    → Cloud
    → Cloud
    → List String
    → (String → List String)
    → Option (Map RebaseData)
    → Type 0
HasTable (rebase_comm forced) curr new order names table =
    (t : Map RebaseData) × (create_rebase_data curr new forced order names ≡ ok t)
    × (table ≡ some t)
HasTable _ curr new order names table = table ≡ none

-- The cycle that a command asks for, from the running cloud to the one that the config file has.
pub record IsAsked (parsed : Outcome ConfigError Cloud) (order : List String)
    (names : String → List String) (curr : Cloud) (comm : DaemonComm) (n : DaemonNext)
    : Type 0 where
  pub new : Cloud
  pub read : parsed ≡ ok new
  pub old_is : n.old_cloud ≡ some curr
  pub new_is : n.new_cloud ≡ some new
  pub mode : mode_of comm ≡ some n.mode
  pub step : loop_step n.code ≡ step_of comm
  pub table : HasTable comm curr new order names n.rebase_data

-- What each answer to a command says of the config file, the backup, the command and the tasks.
pub CheckedFrom :
    Outcome ConfigError Cloud
    → Bool
    → List String
    → (String → List String)
    → Cloud
    → TaskMap
    → DaemonComm
    → Checked
    → Type 0
CheckedFrom parsed backup order names curr tasks comm (next n left) =
    IsAsked parsed order names curr comm n × (backup ≡ true) × (left ≡ [])
CheckedFrom parsed backup order names curr tasks comm (bad_config e left) =
    (parsed ≡ err e) × (left ≡ tasks)
CheckedFrom parsed backup order names curr tasks comm (bad_rebase e left) =
    (new : Cloud) × (forced : Bool) × (parsed ≡ ok new)
    × (comm ≡ rebase_comm forced)
    × (create_rebase_data curr new forced order names ≡ err e)
    × (left ≡ tasks)
CheckedFrom parsed backup order names curr tasks comm (no_backup left) =
    (is_ok parsed ≡ true) × (is_some (mode_of comm) ≡ true) × (backup ≡ false) × (left ≡ tasks)
CheckedFrom parsed backup order names curr tasks comm (unsuitable left) =
    (is_ok parsed ≡ true) × (mode_of comm ≡ none) × (left ≡ tasks)

back_up-CheckedFrom :
    (new curr : Cloud) (backup : Bool) (order : List String) (names : String → List String)
    (tasks : TaskMap) (comm : DaemonComm) (n : DaemonNext)
    → is_some (mode_of comm) ≡ true
    → IsAsked (ok new) order names curr comm n
    → CheckedFrom (ok new) backup order names curr tasks comm (back_up backup n tasks)
unfolding back_up CheckedFrom
back_up-CheckedFrom new curr false order names tasks comm n suits asked = (refl, suits, refl, refl)
back_up-CheckedFrom new curr true order names tasks comm n suits asked = (asked, refl, refl)

plain-CheckedFrom :
    (new curr : Cloud) (backup : Bool) (order : List String) (names : String → List String)
    (tasks : TaskMap) (comm : DaemonComm) (code : ℕ) (mode : ReconMode)
    → mode_of comm ≡ some mode
    → loop_step code ≡ step_of comm
    → HasTable comm curr new order names none
    → CheckedFrom
        (ok new)
        backup
        order
        names
        curr
        tasks
        comm
        (back_up backup (plain code mode curr new) tasks)
plain-CheckedFrom new curr backup order names tasks comm code mode suits step table =
    back_up-CheckedFrom new curr backup order names tasks comm (plain code mode curr new)
      (rw suits refl)
      (record {
        new = new;
        read = refl;
        old_is = refl;
        new_is = refl;
        mode = suits;
        step = step;
        table = table;
      })

rebase_next-CheckedFrom :
    (new curr : Cloud) (backup forced : Bool) (order : List String) (names : String → List String)
    (tasks : TaskMap) (o : Outcome RebaseError (Map RebaseData))
    → create_rebase_data curr new forced order names ≡ o
    → CheckedFrom
        (ok new)
        backup
        order
        names
        curr
        tasks
        (rebase_comm forced)
        (rebase_next backup curr new o tasks)
unfolding rebase_next CheckedFrom loop_step
rebase_next-CheckedFrom new curr backup forced order names tasks (err e) h =
    (new, forced, refl, refl, h, refl)
rebase_next-CheckedFrom new curr backup forced order names tasks (ok t) h =
    back_up-CheckedFrom new curr backup order names tasks (rebase_comm forced) _ refl (record {
      new = new;
      read = refl;
      old_is = refl;
      new_is = refl;
      mode = refl;
      step = refl;
      table = (t, h, refl);
    })

check_parsed-CheckedFrom :
    (new curr : Cloud) (backup : Bool) (order : List String) (names : String → List String)
    (tasks : TaskMap) (comm : DaemonComm)
    → CheckedFrom
        (ok new)
        backup
        order
        names
        curr
        tasks
        comm
        (check_parsed backup order names curr new tasks comm)
unfolding check_parsed CheckedFrom loop_step
check_parsed-CheckedFrom new curr backup order names tasks restart =
    plain-CheckedFrom new curr backup order names tasks restart exit_restart reload refl refl refl
check_parsed-CheckedFrom new curr backup order names tasks reload_comm =
    plain-CheckedFrom new curr backup order names tasks reload_comm exit_reload reload refl refl
      refl
check_parsed-CheckedFrom new curr backup order names tasks remap_comm =
    plain-CheckedFrom new curr backup order names tasks remap_comm exit_remap remap refl refl refl
check_parsed-CheckedFrom new curr backup order names tasks (rebase_comm forced) =
    rebase_next-CheckedFrom new curr backup forced order names tasks
      (create_rebase_data curr new forced order names) refl
check_parsed-CheckedFrom new curr backup order names tasks _ = (refl, refl, refl)

-- A command gives a cycle only when the config file parses, the backup is made, and it is a
-- Restart, a Reload, a Remap or a Rebase: then the cycle goes from the running cloud to that of the
-- file, in the mode of the command (a Restart reloads, and alone has the workspace prepared again),
-- with the comparison of the two clouds just for a Rebase, and all tasks are aborted. Each refusal
-- names what was missing, the error of the file or of the comparison with it, and leaves the tasks
-- alone.
pub check_and_backup-CheckedFrom :
    (parsed : Outcome ConfigError Cloud) (backup : Bool) (order : List String)
    (names : String → List String) (curr : Cloud) (tasks : TaskMap) (comm : DaemonComm)
    → CheckedFrom parsed backup order names curr tasks comm
        (check_and_backup parsed backup order names curr tasks comm)
unfolding check_and_backup CheckedFrom
check_and_backup-CheckedFrom (err e) backup order names curr tasks comm = (refl, refl)
check_and_backup-CheckedFrom (ok new) backup order names curr tasks comm =
    check_parsed-CheckedFrom new curr backup order names tasks comm

-- The clouds of the cycle that a check gives.
pub check_and_backup-clouds :
    (parsed : Outcome ConfigError Cloud) (backup : Bool) (order : List String)
    (names : String → List String) (curr : Cloud) (tasks : TaskMap) (comm : DaemonComm)
    {init : DaemonNext} {left : TaskMap}
    → check_and_backup parsed backup order names curr tasks comm ≡ next init left
    → (init.old_cloud ≡ some curr) × (is_some init.new_cloud ≡ true)
unfolding CheckedFrom
check_and_backup-clouds parsed backup order names curr tasks comm h =
    let (asked, made, aborted) =
      subst (CheckedFrom parsed backup order names curr tasks comm) h
        (check_and_backup-CheckedFrom parsed backup order names curr tasks comm) in
    (asked.old_is, rw asked.new_is refl)

stored-runs :
    (recon : Cloud) (r : Reconciled) (u : Run) {c : Cloud} {db' : Db} {q : Reconciled}
    → stored recon r u ≡ runs c db' q
    → u ≡ done db'
unfolding stored
stored-runs recon r (done db) {c} {db'} {q} h = let at : db ≡ db' = cc in ap done at
stored-runs recon r (failed e db) h = cc

stored-reconciled :
    (recon : Cloud) (r : Reconciled) (u : Run) {c : Cloud} {db' : Db} {q : Reconciled}
    → stored recon r u ≡ runs c db' q
    → r ≡ q
unfolding stored
stored-reconciled recon r (done db) h = cc
stored-reconciled recon r (failed e db) h = cc

apply_reconciled-runs :
    (config : Outcome DbError String) (old : Cloud) (db : Db) (r : Reconciled)
    (o : Outcome ReconError Cloud) {recon c : Cloud} {db' : Db} {q : Reconciled}
    → apply_reconciled config old db r o ≡ runs c db' q
    → o ≡ ok recon
    → update_db config recon db ≡ done db'
unfolding apply_reconciled
apply_reconciled-runs config old db r (err e) h p = cc
apply_reconciled-runs config old db r (ok cloud) {recon} {c} {db'} h p =
    subst (λ x. update_db config x db ≡ done db') (ok-injective {E = ReconError} cloud recon p)
      (stored-runs cloud r (update_db config cloud db) h)

apply_reconciled-r :
    (config : Outcome DbError String) (old : Cloud) (db : Db) (r : Reconciled)
    (o : Outcome ReconError Cloud) {c : Cloud} {db' : Db} {q : Reconciled}
    → apply_reconciled config old db r o ≡ runs c db' q
    → r ≡ q
unfolding apply_reconciled
apply_reconciled-r config old db r (err e) {c} {db'} {q} h = cc
apply_reconciled-r config old db r (ok cloud) {c} {db'} {q} h =
    stored-reconciled cloud r (update_db config cloud db) h

start_at-update_db :
    (world : World) (config : Outcome DbError String) (init : DaemonNext) (cf_list : Option String)
    (dirs : List String) (new : Cloud) (db : Db) {recon c : Cloud} {db' : Db} {r : Reconciled}
    → start_at world config init cf_list dirs new db ≡ runs c db' r
    → r.outcome ≡ ok recon
    → update_db config recon db ≡ done db'
unfolding start_at
start_at-update_db world config init cf_list dirs new db h o =
    let old = old_of init.old_cloud db in
    let q = reconcile_cloud world old new init.mode init.rebase_data cf_list dirs in
    let same = apply_reconciled-r config old db q q.outcome h in
    apply_reconciled-runs config old db q q.outcome h (ap (λ (x : Reconciled). x.outcome) same ∙ o)

start-update_db :
    (world : World) (config : Outcome DbError String) (parsed : Outcome ConfigError Cloud)
    (init : DaemonNext) (cf_list : Option String) (dirs : List String) (db : Option Db)
    {recon c : Cloud} {db' : Db} {r : Reconciled}
    → start world config parsed init cf_list dirs db ≡ runs c db' r
    → r.outcome ≡ ok recon
    → update_db config recon (create_db db) ≡ done db'
unfolding start
start-update_db world config parsed init cf_list dirs db h o = elim (Option-cases init.new_cloud) [
  | inr (new, p) ↦
      start_at-update_db world config init cf_list dirs new (create_db db) (rw p at h) o
  | inl p ↦ elim (Outcome-cases parsed) [
    | inl (new, q) ↦
        start_at-update_db world config init cf_list dirs new (create_db db) (rw (p, q) at h) o
    | inr (e, q) ↦ let absurd = (rw (p, q) at h) in cc
  ]
]

-- A cycle that reconciles and stores the cloud has in the database what it runs: the next start
-- of the daemon loads that server under each name. The database is linked before; in the
-- reconciled cloud the names are distinct and the numbers fit.
pub start-load_cloud :
    (world : World) (config : Outcome DbError String) (parsed : Outcome ConfigError Cloud)
    (init : DaemonNext) (cf_list : Option String) (dirs : List String) (db : Option Db)
    {recon : Cloud} {db' : Db} {r : Reconciled}
    → IsLinked (create_db db)
    → Distinct (map name_of recon.servers)
    → All (λ s. fits_server s ≡ true) recon.servers
    → start world config parsed init cf_list dirs db ≡ runs recon db' r
    → r.outcome ≡ ok recon
    → ((load_cloud db').settings ≡ recon.settings)
      × ((n : String)
          → LoadedAs (last_named n recon.servers) (find_server n (load_cloud db').servers))
start-load_cloud world config parsed init cf_list dirs db {recon} {db'} l d f h o =
    load_cloud-update_db config recon (create_db db) d l f
      (start-update_db world config parsed init cf_list dirs db h o)
