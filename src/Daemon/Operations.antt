-- ===== src/Daemon/Operations.antt =====
-- `full_setup` and `destroy_server` (src/ansible.rs): what follows the run of the playbook. Its
-- result is an argument, `none` where the run itself is an error, as is the token in the file that
-- the playbook leaves, `none` where that cannot be read. Removing old backups succeeds.
pub mod Reloads
use xcplane.Common.{String, Bool, true, false, Option, none, some, List, if◌then◌else◌}
use xcplane.Naming.{codes}
use xcplane.Server.{KetServer}
use xcplane.Database.{DbError}
use xcplane.Database.Marks.{
  Site, Mark, marked, mark_failed, mark_server_production, mark_server_offgrid,
}
use xcplane.Panel.Backups.{File, delete_xui_backups}
use xcplane.Daemon.{TaskEntry, full_setup, destroy_server, TaskMap}
use xcplane.Daemon.Tasks.{setup_inquiry}

-- What the functions change: the server with its data, the backups and the registry of tasks.
pub record Scene : Type 0 where
  pub site : Site
  pub files : List File
  pub tasks : TaskMap

-- The task has asked for a Reload, leaves it to another task, has logged that the playbook failed,
-- or is itself an error.
pub data Verdict : Type 0 where
  reloads reload_is_delayed playbook_failed no_credentials : Verdict
  not_marked : DbError → Verdict

-- The inquiry, and the Reload when no other long task runs.
unfoldable pub inquire : TaskEntry → Scene → Verdict × Scene
unfolding setup_inquiry
inquire e scene =
    let (found, tasks) = setup_inquiry e scene.tasks in
    (if found then reload_is_delayed else reloads, record scene { tasks = tasks })

after_setup : Mark → Scene → Verdict × Scene
unfolding inquire delete_xui_backups
after_setup (mark_failed e site) scene = (not_marked e, record scene { site = site })
after_setup (marked site) scene =
    inquire (full_setup site.server) (record scene {
      site = site;
      files = delete_xui_backups (codes site.server.name) scene.files;
    })

after_playbook : Option String → Scene → Verdict × Scene
unfolding after_setup mark_server_production
after_playbook none scene = (no_credentials, scene)
after_playbook (some token) scene = after_setup (mark_server_production token scene.site) scene

unfoldable pub run_setup : Option Bool → Option String → Scene → Verdict × Scene
unfolding after_playbook
run_setup (some true) token scene = after_playbook token scene
run_setup _ token scene = (playbook_failed, scene)

after_destruction : Mark → Scene → Verdict × Scene
unfolding inquire
after_destruction (mark_failed e site) scene = (not_marked e, record scene { site = site })
after_destruction (marked site) scene =
    inquire (destroy_server site.server) (record scene { site = site })

unfoldable pub run_destruction : Option Bool → Scene → Verdict × Scene
unfolding after_destruction mark_server_offgrid
run_destruction (some true) scene = after_destruction (mark_server_offgrid scene.site) scene
run_destruction _ scene = (playbook_failed, scene)
