-- ===== src/Database/Update.antt =====
-- src/db.rs: `update_db`.
pub mod Rows
pub mod Groups
pub mod Stored
pub mod Errors
use xcplane.Common.{
  is_some, ℕ, String, Bool, true, false, not, Option, none, some, List, [], ◌∷◌, Outcome, ok, err,
  contains, is_empty, lookup, map, string_eq, pair_eq, str_eq, if◌then◌else◌, ◌&&◌, ◌||◌,
}
use xcplane.Server.{Inbound, KetServer, Cloud, CloudSettings}
use xcplane.Server.Methods.{svc_kinds_string}
use xcplane.Monitor.{unknown}
use xcplane.Database.{
  ServerRow, InboundRow, StatRow, Db, DbError, missing_subid, Run, done, failed, and_run,
}
use xcplane.Database.Tables.{Table, get, upsert, insert_missing, keep_rows}

unfoldable pub to_row : KetServer → ServerRow
to_row s = record {
  ip = s.ip;
  domain = s.domain;
  region = s.region;
  state = s.state;
  quota = s.quota;
  enabled = s.enabled;
  ssh_port = s.ssh_port;
  dns_subdomain = s.dns_subdomain;
  ui_subdomain = s.ui_subdomain;
  sub_subdomain = s.sub_subdomain;
  health_path = s.secrets.health_path;
  doh_endpoint = s.secrets.doh_endpoint;
  xui_username = s.secrets.xui_username;
  xui_password = s.secrets.xui_password;
  xui_token = s.secrets.xui_token;
  xui_webpath = s.secrets.xui_webpath;
  xui_subpath = s.secrets.xui_subpath;
  xui_jsubpath = s.secrets.xui_jsubpath;
  cloudflare_proxied = s.cloudflare_proxied;
  outbound_block = s.outbound_block;
}

unfoldable pub inbound_row : Inbound → String → InboundRow
inbound_row inb subid = record {
  port = inb.port;
  kind = inb.kind;
  traffic = inb.traffic;
  expiry = inb.expiry;
  comment = inb.comment;
  mother_subid = subid;
  total_clients = inb.total;
}

abbrev pub fresh_stat : StatRow
fresh_stat = record { health = unknown; failed_count = 0; failed_since = 0; fix_try = 0 }

-- `DELETE FROM servers WHERE NOT keep(name)`; the foreign keys of the other tables cascade.
unfoldable pub delete_servers : (String → Bool) → Db → Db
delete_servers keep db =
    let stays : String → Bool = λ n. not (is_some (get n db.servers) && not (keep n)) in
    record db {
      servers = keep_rows keep db.servers;
      inbounds = keep_rows (λ k. stays k.0) db.inbounds;
      stats = keep_rows (λ k. stays k.0) db.stats;
    }

unfoldable pub retain_servers : List String → Db → Db
unfolding delete_servers
retain_servers names db =
    if is_empty names then delete_servers (λ n. false) db else delete_servers (contains names) db

-- The loop that inserts or updates the servers.
unfoldable pub put_servers : List KetServer → Table String ServerRow → Table String ServerRow
unfolding to_row
put_servers [] t = t
put_servers (s ∷ servers) t = put_servers servers (upsert s.name (to_row s) t)

-- The rows of another server stay, and of this one those with the given second key.
abbrev pub of_server : String → List String → String × String → Bool
of_server n keys k = not (str_eq k.0 n) || contains keys k.1

put_inbound : KetServer → Inbound → Option String → Db → Run
unfolding inbound_row
put_inbound s inb none db = failed (missing_subid s.name inb.name) db
put_inbound s inb (some subid) db =
    done (record db { inbounds = upsert (s.name, inb.name) (inbound_row inb subid) db.inbounds })

-- The loop over the inbounds of a server.
unfoldable pub put_inbounds : KetServer → List Inbound → Db → Run
unfolding put_inbound
put_inbounds s [] db = done db
put_inbounds s (inb ∷ inbs) db =
    and_run (put_inbound s inb (lookup inb.name s.secrets.mother_subids) db) (put_inbounds s inbs)

-- The loop over the services of a server.
unfoldable pub put_stats :
    String → List String → Table (String × String) StatRow → Table (String × String) StatRow
put_stats n [] t = t
put_stats n (svc ∷ svcs) t = put_stats n svcs (insert_missing (n, svc) fresh_stat t)

abbrev pub group_name : Inbound → String
group_name inb = inb.name

unfoldable pub retain_inbounds : KetServer → Db → Db
retain_inbounds s db = record db {
  inbounds = keep_rows (of_server s.name (map group_name s.inbounds)) db.inbounds;
}

unfoldable pub refresh_stats : KetServer → Db → Db
unfolding put_stats svc_kinds_string
refresh_stats s db = record db {
  stats =
      put_stats s.name (svc_kinds_string s)
        (keep_rows (of_server s.name (svc_kinds_string s)) db.stats);
}

-- The body of the loop over the servers.
unfoldable pub put_server : KetServer → Db → Run
unfolding retain_inbounds put_inbounds refresh_stats
put_server s db =
    and_run (put_inbounds s s.inbounds (retain_inbounds s db)) (λ db'. done (refresh_stats s db'))

unfoldable pub put_groups : List KetServer → Db → Run
unfolding put_server
put_groups [] db = done db
put_groups (s ∷ servers) db = and_run (put_server s db) (put_groups servers)

abbrev pub name_of : KetServer → String
name_of s = s.name

-- The statements up to the loop over the groups.
unfoldable pub put_options : String → Cloud → Db → Db
unfolding retain_servers put_servers
put_options config cloud db =
    let kept =
      retain_servers (map name_of cloud.servers)
        (record db { cloud_config = config; settings = cloud.settings }) in
    record kept { servers = put_servers cloud.servers kept.servers }

-- The argument `config` is what reading the config file gives.
unfoldable pub update_db : Outcome DbError String → Cloud → Db → Run
unfolding put_options put_groups
update_db (err e) cloud db = failed e db
update_db (ok config) cloud db = put_groups cloud.servers (put_options config cloud db)
