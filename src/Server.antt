-- ===== src/Server.antt =====
-- src/types.rs, src/cloud/server.rs, src/ansible.rs, src/cloudflare.rs: the records of a cloud and
-- of its servers. Runtime handles (`xui`, `login_gate`) are left out. A `url::Host`, a country and
-- a path are their texts. Where the source keeps the text of an IP address (`ansible_host`), the
-- model keeps the address.
pub mod Methods
pub mod Kind
pub mod Draws
use xcplane.Common.{
  ℕ, String, Bool, true, false, Option, none, some, List, [], ◌∷◌, Map, ◌≡◌, ◌↔◌, arith, Eq, ◌==◌,
  nat_eqb, str_eq, eq_iff, ◌&&◌,
}
use xcplane.Ip.{IpAddr}

pub data ServerState : Type 0 where
  offgrid production : ServerState

pub data InboundKind : Type 0 where
  vless_xhttp_reality vless_tcp_reality vless_xhttp_tls vless_ws_tls vless_grpc_tls : InboundKind

-- `#[derive(PartialEq)]`
abbrev pub kind_eqb : InboundKind → InboundKind → Bool
kind_eqb vless_xhttp_reality vless_xhttp_reality = true
kind_eqb vless_tcp_reality vless_tcp_reality = true
kind_eqb vless_xhttp_tls vless_xhttp_tls = true
kind_eqb vless_ws_tls vless_ws_tls = true
kind_eqb vless_grpc_tls vless_grpc_tls = true
kind_eqb _ _ = false

pub kind_eqb_iff : (a b : InboundKind) → (kind_eqb a b ≡ true) ↔ (a ≡ b)
kind_eqb_iff a b = ground arith

unfoldable pub cloudflare_compatible : InboundKind → Bool
cloudflare_compatible vless_xhttp_reality = false
cloudflare_compatible vless_tcp_reality = false
cloudflare_compatible vless_xhttp_tls = true
cloudflare_compatible vless_ws_tls = true
cloudflare_compatible vless_grpc_tls = true

pub record Inbound : Type 0 where
  pub name : String
  pub port : ℕ  -- u16
  pub kind : InboundKind
  pub total : ℕ  -- u16
  pub traffic : ℕ  -- u32
  pub expiry : ℕ  -- u16
  pub comment : String

-- `#[derive(PartialEq)]`
abbrev pub inbound_eqb : Inbound → Inbound → Bool
inbound_eqb a b =
    str_eq a.name b.name
    && (nat_eqb a.port b.port
        && (kind_eqb a.kind b.kind
            && (nat_eqb a.total b.total
                && (nat_eqb a.traffic b.traffic
                    && (nat_eqb a.expiry b.expiry && str_eq a.comment b.comment)))))

pub inbound_eqb_iff : (a b : Inbound) → (inbound_eqb a b ≡ true) ↔ (a ≡ b)
inbound_eqb_iff a b =
    ground (arith, eq_iff a.name b.name, eq_iff a.comment b.comment, kind_eqb_iff a.kind b.kind)

instance abbrev pub inbound_eq : Eq Inbound
inbound_eq = record { eqb = inbound_eqb; eqb_iff = inbound_eqb_iff }

pub record Secrets : Type 0 where
  pub health_path : String
  pub doh_endpoint : String
  pub xui_username : String
  pub xui_password : String
  pub xui_token : Option String  -- XuiToken, a OnceLock
  pub xui_webpath : String
  pub xui_subpath : String
  pub xui_jsubpath : String
  pub mother_subids : Map String

pub record AnsibleConn : Type 0 where
  pub ansible_host : Option IpAddr
  pub ansible_port : Option ℕ
  pub ansible_user : Option String
  pub ansible_connection : Option String

pub record CfListData : Type 0 where
  pub account_name : String
  pub account_id : String
  pub ruleset_id : String
  pub rule_id : String
  pub list_id : String

pub record CfState : Type 0 where
  pub zone_name : String
  pub zone_id : String
  pub too_deep : Bool
  pub cloudflare_only : Bool
  pub list_data : Option CfListData

pub record KetServer : Type 0 where
  pub name : String
  pub ip : IpAddr
  pub domain : String
  pub region : String
  pub state : ServerState
  pub quota : ℕ
  pub enabled : Bool
  pub ssh_port : ℕ
  pub dns_subdomain : String
  pub ui_subdomain : String
  pub sub_subdomain : String
  pub cloudflare_proxied : Bool
  pub inbounds : List Inbound
  pub outbound_block : List String
  pub ansible_conn : Option AnsibleConn
  pub secrets : Secrets
  pub cfstate : Option CfState

pub record CloudSettings : Type 0 where
  pub inbound_set : List Inbound
  pub auto_fix : Bool
  pub fix_threshold : ℕ  -- u64
  pub monitor_interval : ℕ  -- u64

pub record Cloud : Type 0 where
  pub servers : List KetServer
  pub settings : CloudSettings
