-- ===== src/Database/Load.antt =====
-- src/db.rs: `load_cloud`.
pub mod Rows
pub mod RoundTrip
use xcplane.Common.{
  ℕ, ◌%◌, ◌^◌, String, Bool, true, false, Option, none, some, List, [], ◌∷◌, Map, or_insert, str_eq,
  string_eq, if◌then◌else◌,
}
use xcplane.Server.{Inbound, AnsibleConn, KetServer, Cloud}
use xcplane.Server.Methods.{root_user}
use xcplane.Database.{ServerRow, InboundRow, Db}
use xcplane.Database.Tables.{Table}

unfoldable pub load_inbound : String → InboundRow → Inbound
load_inbound name r = record {
  name = name;
  port = r.port % 2 ^ 16;
  kind = r.kind;
  total = r.total_clients % 2 ^ 16;
  traffic = r.traffic % 2 ^ 32;
  expiry = r.expiry % 2 ^ 16;
  comment = r.comment;
}

-- The rows of a server, in the order of the table.
unfoldable pub load_inbounds : String → Table (String × String) InboundRow → List Inbound
unfolding load_inbound
load_inbounds n [] = []
load_inbounds n (((server, name), r) ∷ t) =
    let rest = load_inbounds n t in if str_eq server n then load_inbound name r ∷ rest else rest

unfoldable pub load_subids : String → Table (String × String) InboundRow → Map String → Map String
load_subids n [] m = m
load_subids n (((server, name), r) ∷ t) m =
    load_subids n t (if str_eq server n then or_insert name r.mother_subid m else m)

unfoldable pub load_server : Table (String × String) InboundRow → String → ServerRow → KetServer
unfolding load_inbounds load_subids
load_server t n r = record {
  name = n;
  ip = r.ip;
  domain = r.domain;
  region = r.region;
  state = r.state;
  quota = r.quota % 2 ^ 16;
  enabled = r.enabled;
  ssh_port = r.ssh_port % 2 ^ 16;
  dns_subdomain = r.dns_subdomain;
  ui_subdomain = r.ui_subdomain;
  sub_subdomain = r.sub_subdomain;
  cloudflare_proxied = r.cloudflare_proxied;
  inbounds = load_inbounds n t;
  outbound_block = r.outbound_block;
  ansible_conn = some (record {
    ansible_host = some r.ip;
    ansible_port = some (r.ssh_port % 2 ^ 16);
    ansible_user = some root_user;
    ansible_connection = none;
  });
  secrets = record {
    health_path = r.health_path;
    doh_endpoint = r.doh_endpoint;
    xui_username = r.xui_username;
    xui_password = r.xui_password;
    xui_token = r.xui_token;
    xui_webpath = r.xui_webpath;
    xui_subpath = r.xui_subpath;
    xui_jsubpath = r.xui_jsubpath;
    mother_subids = load_subids n t [];
  };
  cfstate = none;
}

unfoldable pub load_servers :
    Table (String × String) InboundRow → Table String ServerRow → List KetServer
unfolding load_server
load_servers t [] = []
load_servers t ((n, r) ∷ rows) = load_server t n r ∷ load_servers t rows

unfoldable pub load_cloud : Db → Cloud
unfolding load_servers
load_cloud db = record { servers = load_servers db.inbounds db.servers; settings = db.settings }
