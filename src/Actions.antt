-- ===== src/Actions.antt =====
-- src/ansible.rs: `AnsibleAction`, its order, and the task files of a run.
pub mod Sorting
use Prim.Native.String.{◌++◌ as append}
use xcplane.Common.{
  ℕ, ◌+◌, String, Bool, true, false, List, [], ◌∷◌, map, leb, nat_eqb, nat_eqb_iff, Eq, ◌≡◌, ◌↔◌,
  arith, if◌then◌else◌, refl, Option, none, some, ap, ok,
}

-- The order of the constructors is the order of priority; `ssh_setup` is the source's `SSH`.
pub data AnsibleAction : Type 0 where
  ports_check dns_reset basics cloudflare_del cloudflare acme nginx doh firewall_bootstrap
        outblocked_update base_setup full_setup nginx_restart nginx_restore_config xray_restart
        xray_restore_db bootstrap xui_auth del_inbound add_inbound panel_settings fail2ban firewall
        ssh_setup destroy_server :
      AnsibleAction

-- `a as usize`: the position in the declaration.
unfoldable pub action_id : AnsibleAction → ℕ
action_id ports_check = 0
action_id dns_reset = 1
action_id basics = 2
action_id cloudflare_del = 3
action_id cloudflare = 4
action_id acme = 5
action_id nginx = 6
action_id doh = 7
action_id firewall_bootstrap = 8
action_id outblocked_update = 9
action_id base_setup = 10
action_id full_setup = 11
action_id nginx_restart = 12
action_id nginx_restore_config = 13
action_id xray_restart = 14
action_id xray_restore_db = 15
action_id bootstrap = 16
action_id xui_auth = 17
action_id del_inbound = 18
action_id add_inbound = 19
action_id panel_settings = 20
action_id fail2ban = 21
action_id firewall = 22
action_id ssh_setup = 23
action_id destroy_server = 24

unfoldable pub taskname : AnsibleAction → String
taskname ports_check = "check_ports.yaml"
taskname dns_reset = "dns_reset.yaml"
taskname basics = "basics_install.yaml"
taskname cloudflare_del = "cloudflare_del.yaml"
taskname cloudflare = "cloudflare_setup.yaml"
taskname acme = "acme_get_cert.yaml"
taskname nginx = "nginx_setup.yaml"
taskname doh = "doh_setup.yaml"
taskname firewall_bootstrap = "firewall_bootstrap.yaml"
taskname outblocked_update = "outblocked_update.yaml"
taskname base_setup = "base_setup.yaml"
taskname full_setup = "full_setup.yaml"
taskname nginx_restart = "nginx_restart.yaml"
taskname nginx_restore_config = "nginx_restore_config.yaml"
taskname xray_restart = "xui_restart.yaml"
taskname xray_restore_db = "xui_restore_db.yaml"
taskname bootstrap = "bootstrap.yaml"
taskname xui_auth = "xui_auth.yaml"
taskname del_inbound = "xui_del_inbound.yaml"
taskname add_inbound = "xui_add_inbound.yaml"
taskname panel_settings = "xui_setup_panel.yaml"
taskname fail2ban = "fail2ban_setup.yaml"
taskname firewall = "firewall.yaml"
taskname ssh_setup = "ssh_setup.yaml"
taskname destroy_server = "destroy_server.yaml"

-- `Vec::sort` by the derived order, which compares positions.
unfoldable pub insert_sorted : AnsibleAction → List AnsibleAction → List AnsibleAction
insert_sorted a [] = a ∷ []
insert_sorted a (b ∷ l) =
    let rest = insert_sorted a l in if leb (action_id a) (action_id b) then a ∷ b ∷ l else b ∷ rest

unfoldable pub sort : List AnsibleAction → List AnsibleAction
unfolding insert_sorted
sort [] = []
sort (a ∷ l) = insert_sorted a (sort l)

-- `Vec::dedup`: of equal neighbours the first stays.
unfoldable pub dedup_after : AnsibleAction → List AnsibleAction → List AnsibleAction
dedup_after a [] = []
dedup_after a (b ∷ l) =
    let rest = dedup_after b l in if nat_eqb (action_id a) (action_id b) then rest else b ∷ rest

unfoldable pub dedup : List AnsibleAction → List AnsibleAction
unfolding dedup_after
dedup [] = []
dedup (a ∷ l) = a ∷ dedup_after a l

unfoldable pub sort_unique : List AnsibleAction → List AnsibleAction
unfolding sort dedup
sort_unique l = dedup (sort l)
