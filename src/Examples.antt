-- ===== src/Examples.antt =====
-- The concrete servers and clouds at which the theorems are applied.
mod Basics
mod Clouds
mod Rebases
mod Checks
mod Stores
mod Daemons
mod Panels
mod Playbooks
mod Accounts
mod Sequences
use xcplane.Common.{
  ℕ, String, Bool, true, false, Option, none, some, List, [], ◌∷◌, Outcome, ok, err,
}
use xcplane.Ip.{IpAddr, v4}
use xcplane.Server.{
  ServerState, offgrid, production, Inbound, vless_tcp_reality, vless_xhttp_tls, Secrets,
  AnsibleConn, CfState, KetServer, CloudSettings, Cloud,
}
use xcplane.Server.Draws.{Draws}

abbrev pub reality : Inbound
reality = record {
  name = "reality1";
  port = 8443;
  kind = vless_tcp_reality;
  total = 0;
  traffic = 0;
  expiry = 0;
  comment = "";
}

abbrev pub tls : Inbound
tls = record {
  name = "tls1";
  port = 2053;
  kind = vless_xhttp_tls;
  total = 0;
  traffic = 0;
  expiry = 0;
  comment = "";
}

abbrev pub blank_secrets : Secrets
blank_secrets = record {
  health_path = "";
  doh_endpoint = "";
  xui_username = "";
  xui_password = "";
  xui_token = none;
  xui_webpath = "";
  xui_subpath = "";
  xui_jsubpath = "";
  mother_subids = [];
}

-- 1.1.1.1
abbrev pub address : IpAddr
address = v4 0x01010101

abbrev pub declared : KetServer
declared = record {
  name = "alpha";
  ip = address;
  domain = "example.org";
  region = "";
  state = offgrid;
  quota = 1;
  enabled = true;
  ssh_port = 2222;
  dns_subdomain = "dns";
  ui_subdomain = "ui";
  sub_subdomain = "sub";
  cloudflare_proxied = false;
  inbounds = [];
  outbound_block = [];
  ansible_conn = none;
  secrets = blank_secrets;
  cfstate = none;
}

abbrev pub settings : CloudSettings
settings = record {
  inbound_set = reality ∷ tls ∷ [];
  auto_fix = true;
  fix_threshold = 3;
  monitor_interval = 5;
}

abbrev pub draws : ℕ → Draws
draws i = record {
  doh_endpoint = "doh";
  xui_username = "user";
  xui_password = "password";
  xui_webpath = "web";
  xui_subpath = "path";
  xui_jsubpath = "json";
  subid = λ j. "subid";
}

abbrev pub digest : String → String
digest s = "0123456789abcdef"

abbrev pub cf_state : CfState
cf_state = record {
  zone_name = "example.org";
  zone_id = "zone";
  too_deep = false;
  cloudflare_only = false;
  list_data = none;
}

abbrev pub conn : AnsibleConn
conn = record {
  ansible_host = some address;
  ansible_port = some 22;
  ansible_user = some "root";
  ansible_connection = none;
}

-- A Production server with one inbound, and its next declaration with another subdomain and one
-- more inbound.
abbrev pub running : KetServer
running = record declared {
  state = production;
  inbounds = tls ∷ [];
  ansible_conn = some conn;
  cfstate = some cf_state;
}

abbrev pub redeclared : KetServer
redeclared = record running { ui_subdomain = "panel"; inbounds = tls ∷ reality ∷ [] }

abbrev pub old_cloud : Cloud
old_cloud = record { servers = running ∷ []; settings = settings }

abbrev pub new_cloud : Cloud
new_cloud = record { servers = redeclared ∷ []; settings = settings }
