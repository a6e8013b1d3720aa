-- ===== src/Daemon/Operations/Reloads.antt =====
-- When the end of a full setup or a destruction reloads the daemon (src/ansible.rs).
use xcplane.Common.{
  String, Bool, true, false, Option, none, some, List, [], ◌∷◌, any, if◌then◌else◌, ◌≡◌, refl, ap,
  sym, subst, str_eq, string_eq, arith, Bool-cases, inl, inr,
}
use xcplane.Naming.{codes}
use xcplane.Server.{ServerState, KetServer, AnsibleConn, production}
use xcplane.Database.Marks.{Site}
use xcplane.Database.Marks.Agreement.{remade, IsMarked, mark_server_production-IsMarked}
use xcplane.Panel.Backups.{delete_xui_backups}
use xcplane.Daemon.{
  TaskEntry, full_setup, destroy_server, TaskHandle, detached, TaskMap, same_entry, same_server,
  handle_of, remove_task, finish, is_finished,
}
use xcplane.Daemon.Tasks.{is_long_running, setup_inquiry}
use xcplane.Daemon.Operations.{Scene, reloads, reload_is_delayed, inquire, run_setup}

abbrev pub some_run : TaskMap → Bool
some_run m = any is_long_running m

-- A task that has ended counts as little as one that has left.
is_long_running-ended : (e : TaskEntry) → is_long_running (e, detached true) ≡ false
unfolding is_long_running
is_long_running-ended (full_setup s) = refl
is_long_running-ended (destroy_server s) = refl
is_long_running-ended _ = refl

some_run-finish : (e : TaskEntry) (m : TaskMap) → some_run (finish e m) ≡ some_run (remove_task e m)
unfolding finish remove_task
some_run-finish e [] = refl
some_run-finish e ((f, h) ∷ m) = elim (Bool-cases (same_entry f e)) [
  | inl p ↦ rw p (ground (arith, is_long_running-ended f, some_run-finish e m))
  | inr p ↦ rw p (ground (arith, some_run-finish e m))
]

same_entry-destruction :
    (e : TaskEntry) (s t : KetServer)
    → same_entry e (destroy_server t) ≡ true
    → (same_entry e (full_setup s) ≡ false) × (is_long_running (e, detached false) ≡ true)
unfolding same_entry is_long_running is_finished
same_entry-destruction (destroy_server u) s t h = (refl, refl)
same_entry-destruction _ s t h = cc

some-injective : (g h : TaskHandle) → ◌≡◌ {A = Option TaskHandle} (some g) (some h) → g ≡ h
some-injective g h e = cc

-- A destruction that runs is seen by the inquiry of a full setup.
some_run-destruction :
    (s t : KetServer) (m : TaskMap)
    → handle_of (destroy_server t) m ≡ some (detached false)
    → some_run (remove_task (full_setup s) m) ≡ true
unfolding handle_of remove_task
some_run-destruction s t [] h = cc
some_run-destruction s t ((e, g) ∷ m) h = elim (Bool-cases (same_entry e (destroy_server t))) [
  | inl p ↦
      let (other, long) = same_entry-destruction e s t p in
      let runs : some g ≡ some (detached false) = (rw p at h) in
      let here : is_long_running (e, g) ≡ true =
        subst (λ x. is_long_running (e, x) ≡ true) (sym (some-injective g (detached false) runs))
          long in
      rw other (ground (arith, here))
  | inr p ↦
      let rest = some_run-destruction s t m (rw p at h) in
      elim (Bool-cases (same_entry e (full_setup s))) [
        | inl q ↦ rw q rest
        | inr q ↦ rw q (ground (arith, rest))
      ]
]

same_entry-setup :
    (e : TaskEntry) (a b : KetServer)
    → a.name ≡ b.name
    → same_entry e (full_setup a) ≡ same_entry e (full_setup b)
unfolding same_entry same_server
same_entry-setup (full_setup s) a b h = ap (str_eq s.name) h
same_entry-setup _ a b h = refl

-- The entry of a server is found by the name.
remove_task-setup :
    (a b : KetServer) (m : TaskMap)
    → a.name ≡ b.name
    → remove_task (full_setup a) m ≡ remove_task (full_setup b) m
unfolding remove_task
remove_task-setup a b [] h = refl
remove_task-setup a b ((e, g) ∷ m) h =
    ground (arith, same_entry-setup e a b h, remove_task-setup a b m h)

-- A full setup whose playbook succeeds, with a token, on a server that has a connection and no
-- token yet, while the config file is readable: the server is marked as a production unit, its old
-- backups are deleted, its task leaves the registry, and the task asks for a Reload exactly when no
-- other long task runs then.
pub run_setup-IsMarked :
    (token : String) (scene : Scene) {conn : AnsibleConn} {l : List (String × ServerState)}
    → scene.site.server.secrets.xui_token ≡ none
    → scene.site.server.ansible_conn ≡ some conn
    → scene.site.config ≡ some l
    → (new : Site) × IsMarked production (some token) scene.site new
      × (new.server
          ≡ remade production (some token) scene.site.server.ssh_port conn scene.site.server)
      × (run_setup (some true) (some token) scene ≡ (
        (if some_run (remove_task (full_setup scene.site.server) scene.tasks)
            then reload_is_delayed
            else reloads),
        record {
          site = new;
          files = delete_xui_backups (codes scene.site.server.name) scene.files;
          tasks = remove_task (full_setup scene.site.server) scene.tasks;
        },
      ))
unfolding run_setup inquire setup_inquiry
run_setup-IsMarked token scene fresh conn config =
    let (new, made, server, marks) =
      mark_server_production-IsMarked token scene.site fresh conn config in
    let same : new.server.name ≡ scene.site.server.name = ap (λ (x : KetServer). x.name) server in
    let tasks = remove_task-setup new.server scene.site.server scene.tasks same in
    (new, marks, server, rw made (rw (same, tasks) refl))
