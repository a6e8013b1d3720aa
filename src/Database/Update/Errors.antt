-- ===== src/Database/Update/Errors.antt =====
-- When `update_db` (src/db.rs) fails, and what it has written by then.
use xcplane.Common.{
  String, Option, none, some, List, [], ◌∷◌, ok, lookup, string_eq, map_option, ◌≡◌, refl, or_else,
  ap, ◌∙◌, subst,
}
use xcplane.Server.{Inbound, KetServer, Cloud}
use xcplane.Database.{Db, DbError, missing_subid, Run, done, failed, and_run, db_of}
use xcplane.Database.Tables.{get}
use xcplane.Database.Update.{
  to_row, put_inbound, put_inbounds, put_server, put_groups, retain_inbounds, refresh_stats,
  put_options, update_db,
}
use xcplane.Database.Update.Stored.{IsLinked, put_options-PutOptions}
use xcplane.Reconcile.Cloud.{last_named}

abbrev pub error_of : Run → Option DbError
error_of (done db) = none
error_of (failed e db) = some e

abbrev pub missing : KetServer → Inbound → Option String → Option DbError
missing s inb none = some (missing_subid s.name inb.name)
missing s inb (some subid) = none

-- The first inbound of the server that has no mother sub-ID.
abbrev pub first_missing : KetServer → List Inbound → Option DbError
first_missing s [] = none
first_missing s (inb ∷ l) =
    or_else (missing s inb (lookup inb.name s.secrets.mother_subids)) (first_missing s l)

abbrev pub first_error : List KetServer → Option DbError
first_error [] = none
first_error (s ∷ l) = or_else (first_missing s s.inbounds) (first_error l)

-- The failure is as said, and the table of the servers is left alone.
pub record Fails (e : Option DbError) (db : Db) (r : Run) : Type 0 where
  pub error : error_of r ≡ e
  pub servers : (db_of r).servers ≡ db.servers

and_run-Fails :
    {e e' : Option DbError} {db : Db} (r : Run) (next : Db → Run)
    → Fails e db r
    → ((db' : Db) → Fails e' db' (next db'))
    → Fails (or_else e e') db (and_run r next)
and_run-Fails {e} {e'} {db} (done mid) next h k = record {
  error = (k mid).error ∙ ap (λ o. or_else o e') h.error;
  servers = (k mid).servers ∙ h.servers;
}
and_run-Fails {e} {e'} {db} (failed x mid) next h k = record {
  error = ap (λ o. or_else o e') h.error;
  servers = h.servers;
}

put_inbound-Fails :
    (s : KetServer) (inb : Inbound) (o : Option String) (db : Db)
    → Fails (missing s inb o) db (put_inbound s inb o db)
unfolding put_inbound
put_inbound-Fails s inb none db = record { error = refl; servers = refl }
put_inbound-Fails s inb (some subid) db = record { error = refl; servers = refl }

put_inbounds-Fails :
    (s : KetServer) (l : List Inbound) (db : Db)
    → Fails (first_missing s l) db (put_inbounds s l db)
unfolding put_inbounds
put_inbounds-Fails s [] db = record { error = refl; servers = refl }
put_inbounds-Fails s (inb ∷ l) db =
    and_run-Fails (put_inbound s inb (lookup inb.name s.secrets.mother_subids) db)
      (put_inbounds s l) (put_inbound-Fails s inb (lookup inb.name s.secrets.mother_subids) db)
      (put_inbounds-Fails s l)

or_else-none : {A : Type 0} (o : Option A) → or_else o none ≡ o
or_else-none none = refl
or_else-none (some a) = refl

put_server-Fails :
    (s : KetServer) (db : Db) → Fails (first_missing s s.inbounds) db (put_server s db)
unfolding put_server retain_inbounds refresh_stats
put_server-Fails s db =
    let inbounds = put_inbounds-Fails s s.inbounds (retain_inbounds s db) in
    subst (λ e. Fails e db (put_server s db)) (or_else-none (first_missing s s.inbounds))
      (and_run-Fails {e' = none} (put_inbounds s s.inbounds (retain_inbounds s db))
        (λ x. done (refresh_stats s x))
        (record { error = inbounds.error; servers = inbounds.servers })
        (λ x. record { error = refl; servers = refl }))

pub put_groups-Fails : (l : List KetServer) (db : Db) → Fails (first_error l) db (put_groups l db)
unfolding put_groups
put_groups-Fails [] db = record { error = refl; servers = refl }
put_groups-Fails (s ∷ l) db =
    and_run-Fails (put_server s db) (put_groups l) (put_server-Fails s db) (put_groups-Fails l)

-- Once the config file is read, `update_db` fails exactly when an inbound has no mother sub-ID,
-- with the error that names the first such inbound; and whether it fails or not, the table of the
-- servers has the cloud's servers then. The foreign keys hold before.
pub update_db-error :
    (config : String) (cloud : Cloud) (db : Db)
    → IsLinked db
    → (error_of (update_db (ok config) cloud db) ≡ first_error cloud.servers)
      × ((n : String)
          → get n (db_of (update_db (ok config) cloud db)).servers
            ≡ map_option to_row (last_named n cloud.servers))
unfolding update_db
update_db-error config cloud db l =
    let fails = put_groups-Fails cloud.servers (put_options config cloud db) in
    (
      fails.error,
      λ n. ap (get n) fails.servers ∙ (put_options-PutOptions config cloud db l).servers n,
    )
