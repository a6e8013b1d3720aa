-- ===== src/Examples/Panels.antt =====
-- The theorems on the monitor's loop, the panel, the backups, the long tasks and the ports, each at
-- a concrete input.
use xcplane.Common.{
  ℕ, true, false, some, List, [], ◌∷◌, ◌++◌, Outcome, ok, err, ◌≡◌, ◌≢◌, ◌↔◌, refl, inl, inr, In,
  All, nat_eqb, nat_eq, if◌then◌else◌, string_eq, pair_eq,
}
use xcplane.Naming.{Text, codes, is_proper}
use xcplane.Server.{KetServer, offgrid, production}
use xcplane.Monitor.{SvcEntry}
use xcplane.Monitor.Loop.{
  crashed, Monitor, start_monitor, tick, reset_fix, ticked, panicked, joined, Reach, here, next,
  after_end,
}
use xcplane.Monitor.Loop.Checks.{IsSingle, IsHalted, Reach-IsSingle, Reach-IsHalted}
use xcplane.Monitor.Loop.Resets.{reset_fix-lost}
use xcplane.Panel.Session
use xcplane.Panel.Session.Logins.{holds, Reach-login}
use xcplane.Panel.Backups.{
  File, backup_name, is_backup, backups_of, newest_first, take, prune_to, last_xui_db,
  prune_xui_backups, delete_xui_backups,
}
use xcplane.Panel.Backups.Isolation.{backups_isolated}
use xcplane.Panel.Backups.Pruning.{AreNewestFirst, prune_to-take}
use xcplane.Examples.{running, declared, conn}
use xcplane.Examples.Checks.{entry, action_map}
use xcplane.Examples.Stores.{blank_db}
use xcplane.Examples.Daemons.{registry}
use xcplane.Database.Marks.{Site}
use xcplane.Database.Marks.Agreement.{remade, IsMarked}
use xcplane.Daemon.{full_setup, destroy_server, detached, TaskMap, remove_task}
use xcplane.Daemon.Operations.{Scene, reloads, reload_is_delayed, run_setup}
use xcplane.Daemon.Operations.Reloads.{some_run, run_setup-IsMarked}
use xcplane.Daemon.Monitors.{Registry, StartError}

abbrev begun : Monitor
begun = start_monitor entry action_map

abbrev checking : Monitor
checking = tick begun

abbrev reach_checking : Reach true 3 begun checking
unfolding start_monitor
reach_checking = next here (ticked refl refl)

Reach-IsSingle_example : IsSingle checking
Reach-IsSingle_example =
    Reach-IsSingle {auto_fix = true} {threshold = 3} entry action_map checking reach_checking

abbrev panicking : Monitor
panicking = record checking { checks = []; ended = crashed ∷ [] }

abbrev joined_panic : Monitor
joined_panic = record panicking { ended = [] }

abbrev reach_panicking : Reach true 3 begun panicking
unfolding tick start_monitor
reach_panicking = next reach_checking (panicked checking.map entry [] [] refl refl)

abbrev reach_joined : Reach true 3 panicking joined_panic
unfolding tick start_monitor after_end
reach_joined = next here (joined crashed [] [] refl refl)

Reach-IsHalted_example : IsHalted joined_panic
Reach-IsHalted_example =
    Reach-IsHalted {auto_fix = true} {threshold = 3} entry action_map panicking joined_panic
      reach_panicking (inl refl) reach_joined

abbrev spent : SvcEntry
spent = record entry { status = record entry.status { fix_try = 2 } }

abbrev busy : Monitor
busy = record {
  entry = spent;
  check_completed = false;
  checks = spent ∷ [];
  results = [];
  ended = [];
  sent = [];
  map = action_map;
}

reset_fix-lost_example :
    (n : Monitor) × Reach true 3 (reset_fix busy) n
    × (n.entry.status.fix_try ≡ 2)
    × (n.sent ≡ (reset_fix busy).sent ++ n.entry ∷ [])
    × (n.checks ≡ [])
    × (n.results ≡ [])
reset_fix-lost_example = reset_fix-lost true 3 2000 (ok true) spent busy refl refl refl refl

abbrev s0 : Session.Session
s0 = Session.start_session

abbrev s1 : Session.Session
s1 = Session.at s0 7 (Session.requested 0)

abbrev s2 : Session.Session
s2 = Session.at s1 7 (Session.refused 0)

abbrev s3 : Session.Session
s3 = Session.at s2 7 (Session.queued 0)

abbrev s4 : Session.Session
s4 = record (Session.at s3 7 (Session.locked 0)) { gate = some 7 }

abbrev s5 : Session.Session
s5 = Session.at s4 7 (Session.login 0)

abbrev reach_s5 : Session.Reach s0 s5
unfolding Session.start_session
reach_s5 =
    Session.next 7
      (Session.next 7
        (Session.next 7
          (Session.next 7 (Session.next 7 Session.here (Session.call refl refl))
            (Session.refuse 0 refl refl))
          (Session.queue 0 refl refl refl))
        (Session.lock 0 refl refl refl))
      (Session.enter 0 refl refl refl)

Reach-login_example :
    ((j : ℕ) → holds (s5.pc j) ≡ nat_eqb 7 j)
    × (s5.cookie_count ≡ 0)
    × ((Session.logged_in s5 7 0).cookie_count ≢ 0)
Reach-login_example = Reach-login s5 7 0 reach_s5 refl

abbrev date : Text
date = codes "2026-01-01_00-00-00"

abbrev own_backup : File
own_backup = record { name = backup_name (codes "alpha") date; created = 1 }

abbrev other_backup : File
other_backup = record { name = backup_name (codes "alpha_2") date; created = 2 }

abbrev backups : List File
backups = own_backup ∷ other_backup ∷ []

backups_isolated_example :
    In other_backup (delete_xui_backups (codes "alpha") backups)
    × In other_backup (prune_xui_backups (codes "alpha") backups)
    × (last_xui_db (codes "alpha") backups ≢ some other_backup.name)
    × All
        (λ (g : File). is_backup (codes "alpha") g.name ≡ false)
        (delete_xui_backups (codes "alpha") backups)
unfolding is_proper codes
backups_isolated_example =
    backups_isolated (codes "alpha") (codes "alpha_2") date backups other_backup refl refl (λ e. cc)
      (inr (inl refl)) refl

prune_to-take_example :
    (In own_backup (prune_to 1 (codes "alpha") backups)
      ↔ In own_backup (take 1 (newest_first (backups_of (codes "alpha") backups))))
    × AreNewestFirst (newest_first (backups_of (codes "alpha") backups))
unfolding is_backup backup_name codes
prune_to-take_example =
    prune_to-take 1 (codes "alpha") backups own_backup (refl, (refl, tt)) (inl refl) refl

abbrev running_tasks : TaskMap
running_tasks =
    (full_setup declared, detached false) ∷ (destroy_server running, detached false) ∷ []

abbrev other : KetServer
other = record running { name = "beta" }

abbrev fresh_site : Site
fresh_site = record {
  server = record declared { ansible_conn = some conn };
  db = blank_db;
  config = some (("alpha", offgrid) ∷ []);
  has_dir = true;
}

abbrev registry_of : Outcome StartError Registry → Registry
registry_of (ok r) = r
registry_of (err e) = registry

abbrev scene : Scene
scene = record { site = fresh_site; files = backups; tasks = running_tasks }

run_setup-IsMarked_example :
    (new : Site) × IsMarked production (some "token") scene.site new
    × (new.server
        ≡ remade production (some "token") scene.site.server.ssh_port conn scene.site.server)
    × (run_setup (some true) (some "token") scene ≡ (
      (if some_run (remove_task (full_setup scene.site.server) scene.tasks)
          then reload_is_delayed
          else reloads),
      record {
        site = new;
        files = delete_xui_backups (codes scene.site.server.name) scene.files;
        tasks = remove_task (full_setup scene.site.server) scene.tasks;
      },
    ))
run_setup-IsMarked_example = run_setup-IsMarked "token" scene refl refl refl
