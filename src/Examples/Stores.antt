-- ===== src/Examples/Stores.antt =====
-- The theorems on the database, each at a concrete input.
use xcplane.Common.{
  ℕ, String, true, none, some, List, [], ◌∷◌, Outcome, ok, ◌>>=◌, get_or, map_option, string_eq,
  ◌≡◌, refl,
}
use xcplane.Server.{KetServer, Cloud, offgrid}
use xcplane.Server.Kind.{SvcKind, ssh, nginx}
use xcplane.Monitor.{SvcEntry, healthy, sick}
use xcplane.Database.{Db, DbError, db_of, missing_subid, StatRow}
use xcplane.Database.Tables.{Table, get}
use xcplane.Database.Setup.{create_db}
use xcplane.Database.Update.{to_row, update_db}
use xcplane.Database.Update.Stored.{IsLinked, Stored, update_db-Stored}
use xcplane.Database.Update.Errors.{error_of, first_error, update_db-error}
use xcplane.Database.Load.{load_cloud}
use xcplane.Database.Load.Rows.{find_server}
use xcplane.Database.Load.RoundTrip.{LoadedAs, load_cloud-update_db}
use xcplane.Database.Marks.{Site, mark_server_production, mark_server_offgrid, site_of}
use xcplane.Database.Marks.Sync.{
  IsSynced, Retired, mark_server_production-IsSynced, mark_server_offgrid-Retired,
}
use xcplane.Database.Status.{
  read_status_data, write_status_data, Event, received, tick, Aggregator, run_aggregator,
}
use xcplane.Database.Status.Batches.{settled, entries, last_status, run_aggregator-settled}
use xcplane.Reconcile.Cloud.{last_named}
use xcplane.Examples.{declared, running, settings, old_cloud, blank_secrets}

-- A production server with the sub-IDs of its inbounds.
abbrev pub provisioned : KetServer
provisioned = record running {
  secrets = record blank_secrets { mother_subids = ("tls1", "subid") ∷ [] };
}

abbrev pub provisioned_cloud : Cloud
provisioned_cloud = record { servers = provisioned ∷ []; settings = settings }

abbrev pub blank_db : Db
unfolding create_db
blank_db = create_db none

pub blank_db-IsLinked : IsLinked blank_db
unfolding blank_db
blank_db-IsLinked = record { inbounds = λ n g h. refl; stats = λ n k h. refl }

abbrev filled_db : Db
unfolding update_db blank_db
filled_db = db_of (update_db (ok "config") provisioned_cloud blank_db)

abbrev file : Outcome DbError String
file = ok "config"

update_db-Stored_example :
    (config : String) × (file ≡ ok config)
    × Stored config provisioned_cloud blank_db filled_db
    × IsLinked filled_db
unfolding update_db filled_db blank_db
update_db-Stored_example =
    update_db-Stored file provisioned_cloud blank_db (refl, tt) blank_db-IsLinked refl

load_cloud-update_db_example :
    ((load_cloud filled_db).settings ≡ provisioned_cloud.settings)
    × ((n : String)
        → LoadedAs
            (last_named n provisioned_cloud.servers)
            (find_server n (load_cloud filled_db).servers))
unfolding update_db filled_db blank_db
load_cloud-update_db_example =
    load_cloud-update_db (ok "config") provisioned_cloud blank_db (refl, tt) blank_db-IsLinked
      (refl, tt) refl

update_db-error_example :
    (error_of (update_db (ok "config") old_cloud blank_db) ≡ first_error old_cloud.servers)
    × ((n : String)
        → get n (db_of (update_db (ok "config") old_cloud blank_db)).servers
          ≡ map_option to_row (last_named n old_cloud.servers))
update_db-error_example = update_db-error "config" old_cloud blank_db blank_db-IsLinked

-- The error names the inbound without a sub-ID.
missing_example :
    error_of (update_db (ok "config") old_cloud blank_db) ≡ some (missing_subid "alpha" "tls1")
unfolding update_db blank_db
missing_example = refl

abbrev prepared : KetServer
prepared = record declared { ansible_conn = running.ansible_conn }

abbrev site : Site
unfolding to_row blank_db
site = record {
  server = prepared;
  db = record blank_db { servers = ("alpha", to_row prepared) ∷ [] };
  config = some (("alpha", offgrid) ∷ []);
  has_dir = true;
}

abbrev marked_site : Site
unfolding mark_server_production site
marked_site = site_of (mark_server_production "token" site)

mark_server_production-IsSynced_example : IsSynced marked_site
unfolding mark_server_production marked_site site
mark_server_production-IsSynced_example =
    mark_server_production-IsSynced "token" site (record { row = refl }) refl

abbrev destroyed_site : Site
unfolding mark_server_offgrid marked_site
destroyed_site = site_of (mark_server_offgrid marked_site)

mark_server_offgrid-Retired_example : Retired marked_site destroyed_site
unfolding mark_server_offgrid destroyed_site mark_server_production marked_site site to_row
mark_server_offgrid-Retired_example =
    mark_server_offgrid-Retired marked_site (record { row = refl }) refl

abbrev entry_of : SvcKind → ℕ → SvcEntry
entry_of kind count = record {
  server = running;
  kind = kind;
  status = record { health = sick; failed_count = count; failed_since = 0; fix_try = 0 };
}

abbrev events : List Event
events =
    received 2 (entry_of ssh 1)
    ∷ received 2 (entry_of nginx 1)
    ∷ received 2 (entry_of ssh 2)
    ∷ tick
    ∷ []

abbrev stats : Table (String × String) StatRow
stats =
    (("alpha", "ssh"), record { health = healthy; failed_count = 0; failed_since = 0; fix_try = 0 })
    ∷ []

abbrev waiting : Aggregator
waiting = record { stats_vec = []; stats = stats }

run_aggregator-settled_example :
    (settled (run_aggregator waiting events) ≡ write_status_data (entries events) (settled waiting))
    × (read_status_data "alpha" ssh (settled (run_aggregator waiting events)) ≡ (
        read_status_data "alpha" ssh (settled waiting) >>= λ old.
        ok (get_or (last_status "alpha" ssh (entries events)) old)))
run_aggregator-settled_example = run_aggregator-settled waiting events "alpha" ssh
