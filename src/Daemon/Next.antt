-- ===== src/Daemon/Next.antt =====
-- The cycles of the daemon: `check_and_backup` (src/daemon.rs), `daemonize` and the start of
-- `daemon_core` (src/daemon/core.rs). Whether the config file parses and the backup is made are
-- arguments, as are the answers that `create_rebase_data` and `reconcile_cloud` take.
pub mod Cycles
pub mod Sequences
pub mod Remaps
use xcplane.Common.{
  ℕ, String, Bool, true, false, Option, none, some, List, [], ◌∷◌, Outcome, ok, err, Map, nat_eqb,
  if◌then◌else◌, ◌||◌,
}
use xcplane.Server.{KetServer, Cloud}
use xcplane.Config.Steps.{ConfigError}
use xcplane.Reconcile.Merge.{ReconMode, reload, remap, rebase, ReconError}
use xcplane.Reconcile.RebaseData.{RebaseData, RebaseError, create_rebase_data}
use xcplane.Reconcile.Cloud.{World, Reconciled, reconcile_cloud}
use xcplane.Database.{Db, DbError, Run, done, failed}
use xcplane.Database.Setup.{create_db}
use xcplane.Database.Load.{load_cloud}
use xcplane.Database.Update.{update_db}
use xcplane.Daemon.{TaskEntry, TaskMap}

pub data DaemonComm : Type 0 where
  reload_comm remap_comm shutdown restart reset_fix clients unknown_comm : DaemonComm
  rebase_comm status_comm credentials_comm : Bool → DaemonComm
  expand_comm : Option String → DaemonComm
  setup_inquiry_comm : TaskEntry → DaemonComm
  destroy_comm : String → DaemonComm

abbrev pub exit_ok : ℕ
exit_ok = 0

abbrev pub exit_error : ℕ
exit_error = 1

abbrev pub exit_restart : ℕ
exit_restart = 20

abbrev pub exit_reload : ℕ
exit_reload = 21

abbrev pub exit_remap : ℕ
exit_remap = 22

abbrev pub exit_rebase : ℕ
exit_rebase = 23

pub record DaemonNext : Type 0 where
  pub code : ℕ
  pub mode : ReconMode
  pub old_cloud : Option Cloud
  pub new_cloud : Option Cloud
  pub rebase_data : Option (Map RebaseData)

-- `Daemon::init_state`
abbrev pub init_state : DaemonNext
init_state = record {
  code = 0;
  mode = reload;
  old_cloud = none;
  new_cloud = none;
  rebase_data = none;
}

-- The exit of a shutdown, or of a channel that was closed.
abbrev pub shutdown_exit : DaemonNext
shutdown_exit = record {
  code = exit_ok;
  mode = reload;
  old_cloud = none;
  new_cloud = none;
  rebase_data = none;
}

-- What a check gives: the next cycle with the registry emptied, a refusal that is sent back, or an
-- error that ends the daemon.
pub data Checked : Type 0 where
  next : DaemonNext → TaskMap → Checked
  bad_config : ConfigError → TaskMap → Checked
  bad_rebase : RebaseError → TaskMap → Checked
  no_backup unsuitable : TaskMap → Checked

-- `create_backup(..).await?`, then `abort_all`.
unfoldable pub back_up : Bool → DaemonNext → TaskMap → Checked
back_up false n tasks = no_backup tasks
back_up true n tasks = next n []

-- The next cycle without the data of a Rebase.
abbrev pub plain : ℕ → ReconMode → Cloud → Cloud → DaemonNext
plain code mode curr new = record {
  code = code;
  mode = mode;
  old_cloud = some curr;
  new_cloud = some new;
  rebase_data = none;
}

unfoldable pub rebase_next :
    Bool → Cloud → Cloud → Outcome RebaseError (Map RebaseData) → TaskMap → Checked
unfolding back_up
rebase_next backup curr new (err e) tasks = bad_rebase e tasks
rebase_next backup curr new (ok table) tasks =
    back_up backup
      (record {
        code = exit_rebase;
        mode = rebase;
        old_cloud = some curr;
        new_cloud = some new;
        rebase_data = some table;
      })
      tasks

unfoldable pub check_parsed :
    Bool → List String → (String → List String) → Cloud → Cloud → TaskMap → DaemonComm → Checked
unfolding rebase_next back_up
check_parsed backup order names curr new tasks restart =
    back_up backup (plain exit_restart reload curr new) tasks
check_parsed backup order names curr new tasks reload_comm =
    back_up backup (plain exit_reload reload curr new) tasks
check_parsed backup order names curr new tasks remap_comm =
    back_up backup (plain exit_remap remap curr new) tasks
check_parsed backup order names curr new tasks (rebase_comm forced) =
    rebase_next backup curr new (create_rebase_data curr new forced order names) tasks
check_parsed backup order names curr new tasks _ = unsuitable tasks

unfoldable pub check_and_backup :
    Outcome ConfigError Cloud
    → Bool
    → List String
    → (String → List String)
    → Cloud
    → TaskMap
    → DaemonComm
    → Checked
unfolding check_parsed
check_and_backup (err e) backup order names curr tasks comm = bad_config e tasks
check_and_backup (ok new) backup order names curr tasks comm =
    check_parsed backup order names curr new tasks comm

-- What `daemonize` does after a cycle.
pub data LoopStep : Type 0 where
  stops fails prepares_again continues unknown_code : LoopStep

unfoldable pub loop_step : ℕ → LoopStep
loop_step code =
    if nat_eqb code exit_ok
    then stops
    else if nat_eqb code exit_error
    then fails
    else if nat_eqb code exit_restart
    then prepares_again
    else if nat_eqb code exit_reload || (nat_eqb code exit_remap || nat_eqb code exit_rebase)
    then continues
    else unknown_code

-- What the start of a cycle leaves: the cloud that runs, the database, the directories of the
-- servers and the Cloudflare list; or the error that ends the daemon.
pub data Start : Type 0 where
  runs : Cloud → Db → Reconciled → Start
  parse_failed : ConfigError → Start
  update_failed : DbError → Db → Start

unfoldable pub old_of : Option Cloud → Db → Cloud
old_of none db = load_cloud db
old_of (some cloud) db = cloud

unfoldable pub stored : Cloud → Reconciled → Run → Start
stored recon r (done db) = runs recon db r
stored recon r (failed e db) = update_failed e db

-- The match on what `reconcile_cloud` gives.
unfoldable pub apply_reconciled :
    Outcome DbError String → Cloud → Db → Reconciled → Outcome ReconError Cloud → Start
unfolding stored
apply_reconciled config old db r (err e) = runs old db r
apply_reconciled config old db r (ok recon) = stored recon r (update_db config recon db)

unfoldable pub start_at :
    World → Outcome DbError String → DaemonNext → Option String → List String → Cloud → Db → Start
unfolding old_of apply_reconciled
start_at world config init cf_list dirs new db =
    let old = old_of init.old_cloud db in
    let r = reconcile_cloud world old new init.mode init.rebase_data cf_list dirs in
    apply_reconciled config old db r r.outcome

unfoldable pub start :
    World
    → Outcome DbError String
    → Outcome ConfigError Cloud
    → DaemonNext
    → Option String
    → List String
    → Option Db
    → Start
unfolding start_at
start world config parsed init cf_list dirs db = elim init.new_cloud [
  | some new ↦ start_at world config init cf_list dirs new (create_db db)
  | none ↦ elim parsed [
    | err e ↦ parse_failed e
    | ok new ↦ start_at world config init cf_list dirs new (create_db db)
  ]
]
