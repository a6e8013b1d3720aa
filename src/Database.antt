-- ===== src/Database.antt =====
-- src/db.rs: the tables of the database. A table is a list of rows under its primary key; texts
-- that encode a value (an address, a country, a state, JSON, a Boolean) are that value, and an
-- `INTEGER` is a number that the reader casts to its width. The options are a record, since
-- `create_db` inserts each of the five keys and nothing deletes one.
pub mod Tables
pub mod Update
pub mod Load
pub mod Setup
pub mod Marks
pub mod Status
use xcplane.Common.{
  ℕ, String, Bool, true, false, Option, none, some, List, [], ◌∷◌, string_eq, pair_eq,
}
use xcplane.Ip.{IpAddr}
use xcplane.Server.{ServerState, Inbound, InboundKind, KetServer, CloudSettings}
use xcplane.Monitor.{SvcHealth}
use Tables.{Table}

-- A row of `servers` without its key, the name.
pub record ServerRow : Type 0 where
  pub ip : IpAddr
  pub domain : String
  pub region : String
  pub state : ServerState
  pub quota : ℕ
  pub enabled : Bool
  pub ssh_port : ℕ
  pub dns_subdomain : String
  pub ui_subdomain : String
  pub sub_subdomain : String
  pub health_path : String
  pub doh_endpoint : String
  pub xui_username : String
  pub xui_password : String
  pub xui_token : Option String
  pub xui_webpath : String
  pub xui_subpath : String
  pub xui_jsubpath : String
  pub cloudflare_proxied : Bool
  pub outbound_block : List String

-- A row of `inbounds` without its key, the server's name and the inbound's.
pub record InboundRow : Type 0 where
  pub port : ℕ
  pub kind : InboundKind
  pub traffic : ℕ
  pub expiry : ℕ
  pub comment : String
  pub mother_subid : String
  pub total_clients : ℕ

-- A row of `stats` without its key, the server's name and the service.
pub record StatRow : Type 0 where
  pub health : SvcHealth
  pub failed_count : ℕ
  pub failed_since : ℕ
  pub fix_try : ℕ

pub record Db : Type 0 where
  pub cloud_config : String
  pub settings : CloudSettings
  pub servers : Table String ServerRow
  pub inbounds : Table (String × String) InboundRow
  pub stats : Table (String × String) StatRow

pub data DbError : Type 0 where
  missing_subid : String → String → DbError
  config_unreadable no_conn token_set no_row dir_not_removed : DbError

-- What a call leaves: its statements are not in a transaction, so an error keeps the earlier ones.
pub data Run : Type 0 where
  done : Db → Run
  failed : DbError → Db → Run

abbrev pub and_run : Run → (Db → Run) → Run
and_run (done db) next = next db
and_run (failed e db) next = failed e db

abbrev pub db_of : Run → Db
db_of (done db) = db
db_of (failed e db) = db
