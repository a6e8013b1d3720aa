-- ===== src/Examples/Sequences.antt =====
-- The theorem on the daemon's cycles, at two Reloads of a running cloud.
use xcplane.Common.{true, false, none, [], ◌∷◌, ok, refl}
use xcplane.Server.{Cloud}
use xcplane.Reconcile.Merge.{reload}
use xcplane.Reconcile.Merge.Laws.{SameIdentity}
use xcplane.Reconcile.Cloud.{reconcile_cloud, last_named}
use xcplane.Database.Update.{update_db}
use xcplane.Database.Setup.{create_db}
use xcplane.Daemon.Next.{Start, reload_comm, exit_reload, plain, check_and_backup, start}
use xcplane.Daemon.Next.Sequences.{Cycles, here, cycle, Cycles-SameIdentity}
use xcplane.Examples.Stores.{provisioned, provisioned_cloud}
use xcplane.Examples.Clouds.{world, first_of}
use xcplane.Examples.Daemons.{cloud_of, stored_db, reconciled_of}

abbrev disabled_cloud : Cloud
disabled_cloud = record provisioned_cloud { servers = record provisioned { enabled = false } ∷ [] }

abbrev first_start : Start
unfolding start
first_start =
    start world (ok "config") (ok disabled_cloud)
      (plain exit_reload reload provisioned_cloud disabled_cloud) none [] none

abbrev first_cloud : Cloud
unfolding start reconcile_cloud create_db update_db
first_cloud = cloud_of first_start

abbrev second_start : Start
unfolding start
second_start =
    start world (ok "config") (ok provisioned_cloud)
      (plain exit_reload reload first_cloud provisioned_cloud) none [] none

abbrev second_cloud : Cloud
unfolding start reconcile_cloud create_db update_db
second_cloud = cloud_of second_start

two_reloads : Cycles provisioned_cloud (first_cloud ∷ provisioned_cloud ∷ []) second_cloud
unfolding check_and_backup start reconcile_cloud create_db update_db first_cloud second_cloud
    first_start second_start
two_reloads =
    cycle world (ok "config") (ok provisioned_cloud) true [] (λ n. []) [] [] reload_comm
      (plain exit_reload reload first_cloud provisioned_cloud) none [] none (stored_db second_start)
      (reconciled_of second_start)
      (cycle world (ok "config") (ok disabled_cloud) true [] (λ n. []) [] [] reload_comm
        (plain exit_reload reload provisioned_cloud disabled_cloud) none [] none
        (stored_db first_start) (reconciled_of first_start) here refl refl)
      refl refl

Cycles-SameIdentity_example :
    SameIdentity provisioned.secrets (first_of second_cloud.servers).secrets
unfolding last_named first_cloud second_cloud start reconcile_cloud create_db update_db
Cycles-SameIdentity_example =
    Cycles-SameIdentity "alpha" provisioned (first_of second_cloud.servers) two_reloads
      ((first_of first_cloud.servers, refl, refl), ((provisioned, refl, refl), tt)) refl refl
