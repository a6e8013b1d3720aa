-- ===== src/Cloudflare/Account.antt =====
-- The calls of src/cloudflare.rs that may change the account: `get_cf_ruleset`, `get_cf_rule` and
-- `prepare_cf_list`, each of which gets or creates, and `prepare_cloudflare_state` with them. The
-- service is an argument: what it answers on a state of the account, and the state after a POST.
-- An answer that is not a success, or does not parse, is an error. Its zones do not change.
pub mod Documented
pub mod Steps
pub mod Found
pub mod Gets
pub mod Settled
use xcplane.Common.{
  ℕ, String, Bool, true, false, Option, none, some, List, [], ◌∷◌, Outcome, ok, err, ok_or, any,
  find?, str_eq, if◌then◌else◌, ◌&&◌,
}
use xcplane.Server.{CfListData, KetServer, Cloud}
use xcplane.Cloudflare.{
  CfZone, CfError, no_list, no_rule, no_server, get_cf_zone, Answers, with_ids, with_state,
}

pub record CfList : Type 0 where
  pub id : String
  pub name : String
  pub description : String
  pub kind : String
  pub num_items : ℕ  -- u32

pub record CfRule : Type 0 where
  pub id : String
  pub action : String
  pub description : String
  pub enabled : Bool
  pub expression : String

pub record CfRuleSet : Type 0 where
  pub id : String
  pub kind : String
  pub name : String
  pub phase : String
  pub rules : List CfRule

-- `CFGetResponse<CFList>`
pub record ListsResponse : Type 0 where
  pub result : List CfList
  pub success : Bool

-- The bodies of the POST calls.
pub record ListBody : Type 0 where
  pub name : String
  pub description : String
  pub kind : String

pub record RuleBody : Type 0 where
  pub action : String
  pub expression : String
  pub description : String
  pub enabled : Bool

pub record RuleSetBody : Type 0 where
  pub name : String
  pub kind : String
  pub phase : String

-- What a call returns, and the account after it.
abbrev pub Call : Type 0 → Type 0 → Type 0
Call W A = W → Outcome CfError A × W

pub record Service (W : Type 0) : Type 0 where
  pub get_lists : String → W → Outcome CfError ListsResponse
  pub post_list : String → ListBody → Call W CfList
  pub get_rulesets : String → W → Outcome CfError (List CfRuleSet)
  pub post_ruleset : String → RuleSetBody → Call W CfRuleSet
  pub get_ruleset : String → String → W → Outcome CfError CfRuleSet
  pub post_rule : String → String → RuleBody → Call W CfRuleSet

module _ {W : Type 0} where
  abbrev pub go_on : {A B : Type 0} → Outcome CfError A × W → (A → Call W B) → Outcome CfError B × W
  go_on (ok a, w) next = next a w
  go_on (err e, w) next = (err e, w)

  infixl 5 ◌>>=◌
  abbrev pub ◌>>=◌ : {A B : Type 0} → Call W A → (A → Call W B) → Call W B
  (call >>= next) w = go_on (call w) next

  abbrev pub pure : {A : Type 0} → A → Call W A
  pure a w = (ok a, w)

  -- A step that leaves the account as it is.
  abbrev pub query : {A : Type 0} → (W → Outcome CfError A) → Call W A
  query get w = (get w, w)

  -- The value that was found, or the one that is created.
  abbrev pub found_or : {A : Type 0} → Option A → Call W A → Call W A
  found_or (some a) create = pure a
  found_or none create = create

abbrev pub is_zone_ruleset : CfRuleSet → Bool
is_zone_ruleset r = str_eq r.kind "zone" && str_eq r.phase "http_request_firewall_custom"

abbrev pub zone_ruleset : RuleSetBody
zone_ruleset = record { name = "xcplane"; kind = "zone"; phase = "http_request_firewall_custom" }

abbrev pub is_fail2ban_rule : CfRule → Bool
is_fail2ban_rule r =
    str_eq r.action "block" && (str_eq r.description "xcplane-managed fail2ban rule" && r.enabled)

abbrev pub fail2ban_rule : RuleBody
fail2ban_rule = record {
  action = "block";
  expression = "(ip.src in $xcplane)";
  description = "xcplane-managed fail2ban rule";
  enabled = true;
}

abbrev pub is_block_list : Bool → CfList → Bool
is_block_list success l =
    str_eq l.description "xcplane-managed blocklist" && (str_eq l.kind "ip" && success)

abbrev pub blocklist_body : ListBody
blocklist_body = record { name = "xcplane"; description = "xcplane-managed blocklist"; kind = "ip" }

pub first_server : List KetServer → Outcome CfError KetServer
first_server [] = err no_server
first_server (s ∷ servers) = ok s

list_or_kept : {W : Type 0} → Outcome CfError String × W → Option String → Option String × W
list_or_kept (ok id, w) old = (some id, w)
list_or_kept (err e, w) old = (old, w)

with_servers : Cloud → Outcome CfError (List KetServer) → Outcome CfError Cloud
with_servers cloud (ok servers) = ok (record cloud { servers = servers })
with_servers cloud (err e) = err e

module _ {W : Type 0} (service : Service W) where
  unfoldable pub get_cf_ruleset : String → Call W String
  get_cf_ruleset zone_id = do
    rulesets ← query (service.get_rulesets zone_id)
    the_ruleset ←
        found_or (find? is_zone_ruleset rulesets) (service.post_ruleset zone_id zone_ruleset)
    pure the_ruleset.id

  create_rule : KetServer → String → String → Call W CfRule
  create_rule s zone_id ruleset_id = do
    made ← service.post_rule zone_id ruleset_id fail2ban_rule
    query (λ w. ok_or (find? is_fail2ban_rule made.rules) (no_rule s.name))

  unfoldable pub get_cf_rule : KetServer → String → String → Call W String
  unfolding create_rule
  get_cf_rule s zone_id ruleset_id = do
    the_ruleset ← query (service.get_ruleset zone_id ruleset_id)
    the_rule ←
        found_or (find? is_fail2ban_rule the_ruleset.rules) (create_rule s zone_id ruleset_id)
    pure the_rule.id

  module _ (zones : List CfZone) where
    unfoldable pub prepare_cf_list : Cloud → Call W String
    unfolding first_server
    prepare_cf_list cloud = do
      first ← query (λ w. first_server cloud.servers)
      zone ← query (λ w. get_cf_zone zones first)
      lists ← query (service.get_lists zone.account_id)
      the_list ←
          found_or (find? (is_block_list lists.success) lists.result)
            (service.post_list zone.account_id blocklist_body)
      pure the_list.id

    -- `set_cf_state`: the list data, then the state.
    list_data_call : Option String → CfZone → KetServer → Bool → Call W (Option CfListData)
    unfolding get_cf_ruleset get_cf_rule
    list_data_call cf_list zone s false = pure none
    list_data_call cf_list zone s true = do
      ruleset_id ← get_cf_ruleset zone.id
      rule_id ← get_cf_rule s zone.id ruleset_id
      list_id ← query (λ w. ok_or cf_list no_list)
      pure (some (with_ids zone ruleset_id rule_id list_id))

    unfoldable pub set_state : Option String → KetServer → Call W KetServer
    unfolding list_data_call
    set_state cf_list s = do
      zone ← query (λ w. get_cf_zone zones s)
      data_of_list ← list_data_call cf_list zone s s.cloudflare_proxied
      pure (with_state zone data_of_list s)

    unfoldable pub set_states : Option String → List KetServer → Call W (List KetServer)
    unfolding set_state
    set_states cf_list [] = pure []
    set_states cf_list (s ∷ servers) = do
      s' ← set_state cf_list s
      rest ← set_states cf_list servers
      pure (s' ∷ rest)

    -- The block list of the daemon after the call.
    unfoldable pub list_after_call : Cloud → Option String → W → Option String × W
    unfolding list_or_kept prepare_cf_list
    list_after_call cloud old w =
        if any (λ (s : KetServer). s.cloudflare_proxied) cloud.servers
        then list_or_kept (prepare_cf_list cloud w) old
        else (old, w)

    unfoldable pub prepare_states :
        Cloud → Option String → W → Option String × Outcome CfError Cloud × W
    unfolding list_after_call set_states with_servers
    prepare_states cloud cf_list w =
        let (after, listed) = list_after_call cloud cf_list w in
        let (servers, w') = set_states after cloud.servers listed in
        (after, with_servers cloud servers, w')

    -- What each call would answer on a state of the account.
    unfoldable pub answers_of : W → Answers
    unfolding get_cf_ruleset get_cf_rule prepare_cf_list
    answers_of w = record {
      zones = zones;
      cf_ruleset = λ s zone_id. (get_cf_ruleset zone_id w).0;
      cf_rule = λ s zone_id ruleset_id. (get_cf_rule s zone_id ruleset_id w).0;
      block_list = λ cloud. (prepare_cf_list cloud w).0;
    }
