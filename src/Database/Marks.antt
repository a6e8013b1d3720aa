-- ===== src/Database/Marks.antt =====
-- src/db.rs: `mark_server_production` and `mark_server_offgrid`. The server is shared with the
-- running cloud; of the config file the array `servers` is kept, as names and states, and is `none`
-- when the file cannot be read or has no such array.
pub mod Agreement
pub mod Sync
use xcplane.Common.{
  ℕ, String, Bool, true, false, Option, none, some, List, [], ◌∷◌, if◌then◌else◌, string_eq, str_eq,
}
use xcplane.Server.{ServerState, production, offgrid, AnsibleConn, Secrets, KetServer}
use xcplane.Server.Methods.{ansible_port_default}
use xcplane.Database.{
  ServerRow, Db, DbError, no_conn, token_set, config_unreadable, dir_not_removed,
}
use xcplane.Database.Tables.{Table, update}

-- What the calls change: the server, the database, the states in the config file and the directory
-- of the server's data.
pub record Site : Type 0 where
  pub server : KetServer
  pub db : Db
  pub config : Option (List (String × ServerState))
  pub has_dir : Bool

-- An error keeps what was changed before it.
pub data Mark : Type 0 where
  marked : Site → Mark
  mark_failed : DbError → Site → Mark

abbrev pub and_mark : Mark → (Site → Mark) → Mark
and_mark (marked site) next = next site
and_mark (mark_failed e site) next = mark_failed e site

abbrev pub site_of : Mark → Site
site_of (marked site) = site
site_of (mark_failed e site) = site

-- `server.state.store(state)`
abbrev pub store_state : ServerState → Site → Site
store_state state site = record site { server = record site.server { state = state } }

-- `xui_token.0.set(token)?`: the cell is written once.
unfoldable pub set_token : String → Site → Mark
set_token token site = elim site.server.secrets.xui_token [
  | some old ↦ mark_failed token_set site
  | none ↦ marked (record site {
    server = record site.server { secrets = record site.server.secrets { xui_token = some token } };
  })
]

-- The connection of the server with another port.
unfoldable pub store_port : ℕ → Site → Mark
store_port port site = elim site.server.ansible_conn [
  | none ↦ mark_failed no_conn site
  | some conn ↦ marked (record site {
    server = record site.server {
      ansible_conn = some (record {
        ansible_host = conn.ansible_host;
        ansible_port = some port;
        ansible_user = conn.ansible_user;
        ansible_connection = none;
      });
    };
  })
]

-- `UPDATE servers SET state, xui_token WHERE name`
unfoldable pub update_row : ServerState → Option String → Site → Site
update_row state token site = record site {
  db = record site.db {
    servers =
        update site.server.name (λ (r : ServerRow). record r { state = state; xui_token = token })
          site.db.servers;
  };
}

-- `iter_mut().find(..)`: the first table of the name gets the state.
unfoldable pub set_config_state :
    String → ServerState → List (String × ServerState) → List (String × ServerState)
set_config_state n state [] = []
set_config_state n state ((m, old) ∷ l) =
    let rest = set_config_state n state l in if str_eq m n then (m, state) ∷ l else (m, old) ∷ rest

unfoldable pub write_config : ServerState → Site → Mark
unfolding set_config_state
write_config state site = elim site.config [
  | none ↦ mark_failed config_unreadable site
  | some l ↦ marked (record site { config = some (set_config_state site.server.name state l) })
]

unfoldable pub mark_server_production : String → Site → Mark
unfolding set_token store_port update_row write_config
mark_server_production token site = and_mark (set_token token (store_state production site)) (λ s1.
    and_mark (store_port s1.server.ssh_port s1)
      (λ s2. write_config production (update_row production (some token) s2)))

-- `remove_dir_all` of the server's data.
unfoldable pub remove_data : Site → Mark
remove_data site =
    if site.has_dir
    then marked (record site { has_dir = false })
    else mark_failed dir_not_removed site

unfoldable pub mark_server_offgrid : Site → Mark
unfolding store_port update_row write_config remove_data
mark_server_offgrid site =
    and_mark (store_port ansible_port_default (store_state offgrid site))
      (λ s1. and_mark (write_config offgrid (update_row offgrid none s1)) remove_data)
