-- ===== src/Database/Marks/Agreement.antt =====
-- What the marks of src/db.rs leave: the runtime server, its row and the config file.
use xcplane.Common.{
  ℕ, String, Bool, true, false, not, Option, none, some, List, [], ◌∷◌, if◌then◌else◌, string_eq,
  str_eq, eq_iff, ◌≡◌, refl, sym, ap, ◌∙◌, is_some, ◌&&◌, map_option, arith,
}
use xcplane.Server.{ServerState, production, offgrid, AnsibleConn, KetServer}
use xcplane.Server.Methods.{ansible_port_default}
use xcplane.Database.{ServerRow}
use xcplane.Database.Tables.{get}
use xcplane.Database.Tables.Laws.{get-update}
use xcplane.Database.Marks.{
  Site, Mark, marked, mark_failed, set_token, store_port, update_row, set_config_state,
  write_config, mark_server_production, remove_data, mark_server_offgrid,
}

abbrev pub is_marked : Mark → Bool
is_marked (marked site) = true
is_marked (mark_failed e site) = false

-- The server with another state, token and port.
abbrev pub remade : ServerState → Option String → ℕ → AnsibleConn → KetServer → KetServer
remade state token port conn s = record s {
  state = state;
  secrets = record s.secrets { xui_token = token };
  ansible_conn = some (record {
    ansible_host = conn.ansible_host;
    ansible_port = some port;
    ansible_user = conn.ansible_user;
    ansible_connection = none;
  });
}

get-set_config_state :
    (m n : String) (state : ServerState) (l : List (String × ServerState))
    → get n (set_config_state m state l)
      ≡ (if str_eq m n then map_option (λ old. state) (get n l) else get n l)
unfolding set_config_state
get-set_config_state m n state [] = ground arith
get-set_config_state m n state ((j, old) ∷ l) =
    ground (arith, eq_iff j m, eq_iff m n, eq_iff j n, get-set_config_state m n state l)

-- The row of the server and its entry in the config file are given the state and the token; nothing
-- else in them changes.
pub record IsMarked (state : ServerState) (token : Option String) (old new : Site) : Type 0 where
  pub rows :
      (n : String)
      → get n new.db.servers ≡ (
          if str_eq old.server.name n
          then map_option
              (λ (r : ServerRow). record r { state = state; xui_token = token })
              (get n old.db.servers)
          else get n old.db.servers)
  pub rest : record old.db { servers = new.db.servers } ≡ new.db
  pub states :
      (n : String)
      → map_option (λ l. get n l) new.config
        ≡ map_option
            (λ l. if str_eq old.server.name n then map_option (λ s. state) (get n l) else get n l)
            old.config

pub mark_server_production-is_marked :
    (token : String) (site : Site)
    → is_marked (mark_server_production token site) ≡ (
        not (is_some site.server.secrets.xui_token)
        && (is_some site.server.ansible_conn && is_some site.config))
unfolding mark_server_production set_token store_port update_row write_config
mark_server_production-is_marked token site = ground arith

pub mark_server_offgrid-is_marked :
    (site : Site)
    → is_marked (mark_server_offgrid site)
      ≡ (is_some site.server.ansible_conn && (is_some site.config && site.has_dir))
unfolding mark_server_offgrid store_port update_row write_config remove_data
mark_server_offgrid-is_marked site = ground arith

-- The site after the statements on the row and on the config file.
written : ServerState → Option String → KetServer → List (String × ServerState) → Site → Site
unfolding update_row
written state token server l site =
    record (update_row state token (record site { server = server })) {
      config = some (set_config_state server.name state l);
    }

written-IsMarked :
    (state : ServerState) (token : Option String) (server : KetServer)
    (l : List (String × ServerState)) (site : Site)
    → server.name ≡ site.server.name
    → site.config ≡ some l
    → IsMarked state token site (written state token server l site)
unfolding written update_row
written-IsMarked state token server l site name c = record {
  rows = λ n.
      get-update server.name n (λ (r : ServerRow). record r { state = state; xui_token = token })
        site.db.servers
      ∙ ap
          (λ m.
            if str_eq m n
            then map_option (λ (r : ServerRow). record r { state = state; xui_token = token })
                (get n site.db.servers)
            else get n site.db.servers)
          name;
  rest = refl;
  states = λ n. rw (c, sym name) (ap some (get-set_config_state server.name n state l));
}

-- A server that has no token yet and has a connection is marked as a production unit with the
-- token, when the config file is readable: its connection is to its SSH port from then on, and its
-- row and its entry in the config file get the state.
pub mark_server_production-IsMarked :
    (token : String) (site : Site) {conn : AnsibleConn} {l : List (String × ServerState)}
    → site.server.secrets.xui_token ≡ none
    → site.server.ansible_conn ≡ some conn
    → site.config ≡ some l
    → (new : Site) × (mark_server_production token site ≡ marked new)
      × (new.server ≡ remade production (some token) site.server.ssh_port conn site.server)
      × IsMarked production (some token) site new
unfolding mark_server_production set_token store_port write_config written
mark_server_production-IsMarked token site {conn} {l} t c f =
    let server = remade production (some token) site.server.ssh_port conn site.server in
    (
      written production (some token) server l site,
      rw (t, c, f) refl,
      refl,
      written-IsMarked production (some token) server l site refl f,
    )

-- A server that has a connection is marked as off the grid, when the config file is readable and
-- the directory of its data is there: its connection is to port 22 again, its row loses the token
-- and the directory goes; the running server keeps its token.
pub mark_server_offgrid-IsMarked :
    (site : Site) {conn : AnsibleConn} {l : List (String × ServerState)}
    → site.server.ansible_conn ≡ some conn
    → site.config ≡ some l
    → site.has_dir ≡ true
    → (new : Site) × (mark_server_offgrid site ≡ marked new)
      × (new.server
          ≡ remade offgrid site.server.secrets.xui_token ansible_port_default conn site.server)
      × (new.has_dir ≡ false)
      × IsMarked offgrid none site new
unfolding mark_server_offgrid store_port write_config written remove_data
mark_server_offgrid-IsMarked site {conn} {l} c f d =
    let server =
      remade offgrid site.server.secrets.xui_token ansible_port_default conn site.server in
    let marks = written-IsMarked offgrid none server l site refl f in
    (
      record (written offgrid none server l site) { has_dir = false },
      rw (c, f, d) refl,
      refl,
      refl,
      record { rows = marks.rows; rest = marks.rest; states = marks.states },
    )
