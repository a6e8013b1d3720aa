-- ===== src/Reconcile/Deploy/Planned.antt =====
-- The actions that `deploy_rebase` of src/cloud/reconcile.rs plans for a server.
use xcplane.Common.{
  ℕ, Bool, true, false, not, Option, none, some, List, [], ◌∷◌, ◌++◌, ok, is_empty, any, ◌≡◌, refl,
  ◌&&◌, ◌||◌, arith, if◌then◌else◌, ◌∙◌, ap, append-nil, append_assoc,
}
use xcplane.Server.{CfState, KetServer}
use xcplane.Actions.{
  AnsibleAction, ports_check, dns_reset, cloudflare_del, cloudflare, acme, nginx, doh,
  outblocked_update, xui_auth, del_inbound, add_inbound, panel_settings, fail2ban, firewall,
  ssh_setup, sort_unique, action_id, basics, firewall_bootstrap, base_setup, full_setup,
  nginx_restart, nginx_restore_config, xray_restart, xray_restore_db, bootstrap, destroy_server,
}
use xcplane.Actions.Sorting.{has_id, Rises, sort_unique_lem}
use xcplane.Reconcile.RebaseData.{RebaseData}
use xcplane.Reconcile.Deploy.{
  actions_if, ip_changed, domain_changed, dns_changed, ui_changed, sub_changed, ssh_port_changed,
  proxy_changed, outbound_changed, host_actions, inbound_actions, collected_actions,
  planned_actions,
}

has_id-append :
    (n : ℕ) (xs ys : List AnsibleAction) → has_id n (xs ++ ys) ≡ (has_id n xs || has_id n ys)
has_id-append n [] ys = refl
has_id-append n (x ∷ xs) ys = ground (arith, has_id-append n xs ys)

has_id-actions_if :
    (n : ℕ) (test : Bool) (l : List AnsibleAction)
    → has_id n (actions_if test l) ≡ (test && has_id n l)
has_id-actions_if n true l = refl
has_id-actions_if n false l = refl

abbrev pub removes : Option RebaseData → Bool
removes none = false
removes (some entry) = not (is_empty entry.removed_inbounds)

abbrev pub adds : Option RebaseData → Bool
adds none = false
adds (some entry) = not (is_empty entry.added_inbounds)

module _ (old new : KetServer) (old_cf new_cf : CfState) (entry : Option RebaseData) where
  -- The changes that call for an action, in the order of the function's tests.
  abbrev pub reasons : AnsibleAction → List Bool
  reasons ports_check = ssh_port_changed old new ∷ adds entry ∷ []
  reasons dns_reset = domain_changed old new ∷ dns_changed old new ∷ []
  reasons cloudflare_del =
      domain_changed old new ∷ dns_changed old new ∷ ui_changed old new ∷ sub_changed old new ∷ []
  reasons cloudflare =
      ip_changed old new
      ∷ domain_changed old new
      ∷ dns_changed old new
      ∷ ui_changed old new
      ∷ sub_changed old new
      ∷ proxy_changed old new old_cf new_cf
      ∷ []
  reasons acme = domain_changed old new ∷ []
  reasons nginx =
      domain_changed old new
      ∷ dns_changed old new
      ∷ ui_changed old new
      ∷ sub_changed old new
      ∷ proxy_changed old new old_cf new_cf
      ∷ []
  reasons doh = domain_changed old new ∷ dns_changed old new ∷ []
  reasons outblocked_update = outbound_changed old new ∷ []
  reasons xui_auth = sub_changed old new ∷ removes entry ∷ adds entry ∷ []
  reasons del_inbound = removes entry ∷ []
  reasons add_inbound = adds entry ∷ []
  reasons panel_settings = sub_changed old new ∷ []
  reasons fail2ban = ssh_port_changed old new ∷ proxy_changed old new old_cf new_cf ∷ []
  reasons firewall = proxy_changed old new old_cf new_cf ∷ []
  reasons ssh_setup = ssh_port_changed old new ∷ []
  reasons _ = []

-- Whether one of the tests holds.
abbrev pub or_all : List Bool → Bool
or_all l = any (λ test. test) l

-- The function as a list of blocks, each a test and the actions that it appends.
abbrev Blocks : Type 0
Blocks = List (Bool × List AnsibleAction)

abbrev actions_of : Blocks → List AnsibleAction
actions_of [] = []
actions_of ((test, l) ∷ blocks) = actions_if test l ++ actions_of blocks

abbrev tests_of : ℕ → Blocks → List Bool
tests_of n [] = []
tests_of n ((test, l) ∷ blocks) =
    let rest = tests_of n blocks in if has_id n l then test ∷ rest else rest

has_id-actions_of :
    (n : ℕ) (blocks : Blocks) → has_id n (actions_of blocks) ≡ or_all (tests_of n blocks)
has_id-actions_of n [] = refl
has_id-actions_of n ((true, l) ∷ blocks) =
    rw (has_id-append n l (actions_of blocks)) (ground (arith, has_id-actions_of n blocks))
has_id-actions_of n ((false, l) ∷ blocks) = ground (arith, has_id-actions_of n blocks)

module _ (old new : KetServer) (old_cf new_cf : CfState) (entry : Option RebaseData) where
  abbrev blocks : Blocks
  blocks =
      (ip_changed old new, cloudflare ∷ [])
      ∷ (domain_changed old new, dns_reset ∷ cloudflare_del ∷ cloudflare ∷ acme ∷ nginx ∷ doh ∷ [])
      ∷ (dns_changed old new, dns_reset ∷ cloudflare_del ∷ cloudflare ∷ nginx ∷ doh ∷ [])
      ∷ (ui_changed old new, cloudflare_del ∷ cloudflare ∷ nginx ∷ [])
      ∷ (sub_changed old new, cloudflare_del ∷ cloudflare ∷ nginx ∷ xui_auth ∷ panel_settings ∷ [])
      ∷ (ssh_port_changed old new, ports_check ∷ ssh_setup ∷ fail2ban ∷ [])
      ∷ (proxy_changed old new old_cf new_cf, cloudflare ∷ nginx ∷ fail2ban ∷ firewall ∷ [])
      ∷ (outbound_changed old new, outblocked_update ∷ [])
      ∷ (removes entry, xui_auth ∷ del_inbound ∷ [])
      ∷ (adds entry, ports_check ∷ xui_auth ∷ add_inbound ∷ [])
      ∷ []

  tests_of-reasons :
      (a : AnsibleAction) → tests_of (action_id a) blocks ≡ reasons old new old_cf new_cf entry a
  unfolding action_id
  tests_of-reasons ports_check = refl
  tests_of-reasons dns_reset = refl
  tests_of-reasons basics = refl
  tests_of-reasons cloudflare_del = refl
  tests_of-reasons cloudflare = refl
  tests_of-reasons acme = refl
  tests_of-reasons nginx = refl
  tests_of-reasons doh = refl
  tests_of-reasons firewall_bootstrap = refl
  tests_of-reasons outblocked_update = refl
  tests_of-reasons base_setup = refl
  tests_of-reasons full_setup = refl
  tests_of-reasons nginx_restart = refl
  tests_of-reasons nginx_restore_config = refl
  tests_of-reasons xray_restart = refl
  tests_of-reasons xray_restore_db = refl
  tests_of-reasons bootstrap = refl
  tests_of-reasons xui_auth = refl
  tests_of-reasons del_inbound = refl
  tests_of-reasons add_inbound = refl
  tests_of-reasons panel_settings = refl
  tests_of-reasons fail2ban = refl
  tests_of-reasons firewall = refl
  tests_of-reasons ssh_setup = refl
  tests_of-reasons destroy_server = refl

inbound_actions-blocks :
    (entry : Option RebaseData)
    → inbound_actions entry
      ≡ actions_of (
          (removes entry, xui_auth ∷ del_inbound ∷ [])
          ∷ (adds entry, ports_check ∷ xui_auth ∷ add_inbound ∷ [])
          ∷ [])
unfolding inbound_actions
inbound_actions-blocks none = refl
inbound_actions-blocks (some entry) = rw append-nil refl

collected_actions-blocks :
    (old new : KetServer) (old_cf new_cf : CfState) (entry : Option RebaseData)
    → collected_actions old new old_cf new_cf entry
      ≡ actions_of (blocks old new old_cf new_cf entry)
unfolding collected_actions host_actions
collected_actions-blocks old new old_cf new_cf entry =
    rw (inbound_actions-blocks entry) (simp append_assoc)

-- For a server with both Cloudflare states a Rebase plans a list of actions, in the order of
-- priority, each once, and an action is in it exactly when one of the changes that call for it has
-- happened.
pub planned_actions_lem :
    (old new : KetServer) (entry : Option RebaseData) (old_cf new_cf : CfState)
    → old.cfstate ≡ some old_cf
    → new.cfstate ≡ some new_cf
    → (actions : List AnsibleAction) × (planned_actions old new entry ≡ ok actions)
      × Rises actions
      × ((a : AnsibleAction)
          → has_id (action_id a) actions ≡ or_all (reasons old new old_cf new_cf entry a))
planned_actions_lem old new entry old_cf new_cf ho hn =
    let l = collected_actions old new old_cf new_cf entry in
    let (rises, same) = sort_unique_lem l in
    (
      sort_unique l,
      unfold planned_actions in rw (ho, hn) refl,
      rises,
      λ a.
          same (action_id a)
          ∙ ap (has_id (action_id a)) (collected_actions-blocks old new old_cf new_cf entry)
          ∙ has_id-actions_of (action_id a) (blocks old new old_cf new_cf entry)
          ∙ ap or_all (tests_of-reasons old new old_cf new_cf entry a),
    )
