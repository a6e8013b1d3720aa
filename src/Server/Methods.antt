-- ===== src/Server/Methods.antt =====
-- src/cloud/server.rs, src/types.rs: what is computed from a server.
use Prim.Native.String.{◌++◌}
use xcplane.Common.{ℕ, String, Option, none, some, List, ◌∷◌, lookup, map, length}
use xcplane.Server.{ServerState, offgrid, production, Inbound, vless_tcp_reality, KetServer}
use xcplane.Server.Kind.{SvcKind, ssh, nginx, xray, super_name, to_string}

abbrev pub ansible_port_default : ℕ
ansible_port_default = 22

abbrev pub root_user : String
root_user = "root"

unfoldable pub svc_kinds : KetServer → List SvcKind
svc_kinds s = ssh ∷ nginx ∷ map (λ (inb : Inbound). xray inb.name) s.inbounds

unfoldable pub svc_num : KetServer → ℕ
unfolding svc_kinds
svc_num s = length (svc_kinds s)

unfoldable pub svc_kinds_string : KetServer → List String
unfolding svc_kinds
svc_kinds_string s = map to_string (svc_kinds s)

unfoldable pub dnshostname : KetServer → String
dnshostname s = s.dns_subdomain ++ ("." ++ s.domain)

unfoldable pub uihostname : KetServer → String
uihostname s = s.ui_subdomain ++ ("." ++ s.domain)

unfoldable pub subhostname : KetServer → String
subhostname s = s.sub_subdomain ++ ("." ++ s.domain)

unfoldable pub super_inbound : Inbound
super_inbound = record {
  name = super_name;
  port = 0;
  kind = vless_tcp_reality;
  total = 0;
  traffic = 0;
  expiry = 0;
  comment = "The super inbound";
}

-- The sublink of an inbound; `none` is either error: the mother sub-ID is absent, or `Url::parse`,
-- which is an argument, fails.
unfoldable pub get_jsub : (String → Option String) → Inbound → KetServer → Option String
unfolding subhostname
get_jsub parse_url inb s = elim (lookup inb.name s.secrets.mother_subids) [
  | none ↦ none
  | some subid ↦
      parse_url
        ("https://" ++ (subhostname s ++ ("/" ++ (s.secrets.xui_jsubpath ++ ("/" ++ subid)))))
]

-- The text that the health path is the digest of.
unfoldable pub health_seed : KetServer → String
health_seed s =
    "name="
    ++ (s.name
        ++ ("|domain="
            ++ (s.domain
                ++ ("|dsub="
                    ++ (s.dns_subdomain
                        ++ ("|usub=" ++ (s.ui_subdomain ++ ("|ssub=" ++ s.sub_subdomain))))))))

abbrev pub initial_port : ServerState → ℕ → ℕ
initial_port offgrid ssh_port = ansible_port_default
initial_port production ssh_port = ssh_port

unfoldable pub build_inventory : KetServer → KetServer
build_inventory s = record s {
  ansible_conn = some (record {
    ansible_host = some s.ip;
    ansible_port = some (initial_port s.state s.ssh_port);
    ansible_user = some root_user;
    ansible_connection = none;
  });
}
