-- ===== src/Playbook/Vars.antt =====
-- What `write_ansible_vars` gives the playbook (src/ansible.rs).
use xcplane.Common.{
  ℕ, String, Bool, false, not, Option, none, some, List, map, contains, nat_eq, nat_eqb, str_eq,
  string_eq, any, In, ◌↔◌, if◌then◌else◌, ◌&&◌, ◌||◌, ◌≡◌,
}
use xcplane.Server.{Inbound, AnsibleConn, CfState, KetServer}
use xcplane.Server.Kind.{super_name}
use xcplane.Actions.{AnsibleAction, taskname, full_setup, xray_restore_db}
use xcplane.Actions.Sorting.{Rises, has_id}
use xcplane.Reconcile.RebaseData.{RebaseData}
use xcplane.Playbook.{
  has_action, AnsibleVars, is_other_port, new_ports, unbound_port, ui_port, subscription_port,
}

-- Whether one of the inbounds is on the port.
abbrev pub has_port : ℕ → List Inbound → Bool
has_port p l = any (λ (inb : Inbound). nat_eqb inb.port p) l

-- Whether the changes add an inbound on the port where none is removed.
abbrev pub is_added : ℕ → Option RebaseData → Bool
is_added p none = false
is_added p (some changes) =
    has_port p changes.added_inbounds && not (has_port p changes.removed_inbounds)

-- The ports that must be free on the server.
abbrev pub is_new_port : KetServer → AnsibleConn → Bool → Option RebaseData → ℕ → Bool
is_new_port s conn setup changes p =
    (is_other_port conn.ansible_port s.ssh_port && nat_eqb s.ssh_port p)
    || (if setup
        then nat_eqb unbound_port p || (nat_eqb ui_port p || nat_eqb subscription_port p)
        else is_added p changes)

-- What the variables say of the server, the actions and the changes.
pub record IsGiven (s : KetServer) (cf : CfState) (conn : AnsibleConn)
    (actions : List AnsibleAction) (changes : Option RebaseData) (backup : Option String)
    (vars : AnsibleVars) : Type 0 where
  pub order : List AnsibleAction
  pub tasks : vars.ansible_tasks ≡ map taskname order
  pub rises : Rises order
  pub same : (n : ℕ) → has_id n order ≡ has_id n actions
  pub setup : vars.full_setup ≡ has_action full_setup actions
  pub ports :
      (p : ℕ)
      → contains vars.new_ports p ≡ is_new_port s conn (has_action full_setup actions) changes p
  pub proxied : vars.cloudflare_proxied ≡ (s.cloudflare_proxied && not cf.too_deep)
  pub state : vars.cloudflare_state ≡ cf
  pub restored : vars.latest_backup ≡ (if has_action xray_restore_db actions then backup else none)
  pub inbounds :
      (inb : Inbound)
      → In inb vars.inbound_data ↔ (In inb s.inbounds × (str_eq inb.name super_name ≡ false))
