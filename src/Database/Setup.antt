-- ===== src/Database/Setup.antt =====
-- src/db.rs: `create_db` and `restore_config`.
use xcplane.Common.{
  String, Bool, true, Option, none, some, [], Outcome, ok, err, if◌then◌else◌, map, string_eq, ◌≡◌,
  ap, Distinct,
}
use xcplane.Server.{Cloud}
use xcplane.Database.{Db, DbError, done}
use xcplane.Database.Update.{name_of, update_db}
use xcplane.Database.Update.Stored.{IsLinked, update_db-Stored}

-- A database that is there keeps its tables and its options.
unfoldable pub create_db : Option Db → Db
create_db (some db) = db
create_db none = record {
  cloud_config = "";
  settings = record {
    inbound_set = [];
    auto_fix = true;
    fix_threshold = 10;
    monitor_interval = 60;
  };
  servers = [];
  inbounds = [];
  stats = [];
}

pub data RestoreError : Type 0 where
  not_backed_up : RestoreError

-- The argument says what `trim().is_empty()` gives; the result is what is written to the config
-- file.
unfoldable pub restore_config : (String → Bool) → Db → Outcome RestoreError String
restore_config blank db = if blank db.cloud_config then err not_backed_up else ok db.cloud_config

-- What an `update_db` that succeeds has stored of the config file is what `restore_config` writes
-- back, unless it is blank, which is refused. The names in the cloud are distinct and the foreign
-- keys hold before.
restore_config-update_db :
    (blank : String → Bool) (file : Outcome DbError String) (cloud : Cloud) (db : Db) {db' : Db}
    → Distinct (map name_of cloud.servers)
    → IsLinked db
    → update_db file cloud db ≡ done db'
    → (config : String) × (file ≡ ok config)
      × (restore_config blank db' ≡ (if blank config then err not_backed_up else ok config))
unfolding restore_config
restore_config-update_db blank file cloud db d l h =
    let (config, read, stored, linked) = update_db-Stored file cloud db d l h in
    (config, read, ap (λ c. if blank c then err not_backed_up else ok c) stored.config_stored)
