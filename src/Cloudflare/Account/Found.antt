-- ===== src/Cloudflare/Account/Found.antt =====
-- What the account shows of the lists, rulesets and rules (src/cloudflare.rs), and that it is kept.
use xcplane.Common.{
  String, true, none, some, List, ok, find?, str_eq, ◌&&◌, ◌≡◌, refl, arith, Bool-cases, inl, inr,
  ◌∙◌, ap₂, ap, subst, eq_iff,
}
use xcplane.Server.{KetServer, Cloud}
use xcplane.Cloudflare.{CfZone, get_cf_zone}
use xcplane.Cloudflare.Account.{
  CfList, CfRule, CfRuleSet, ListsResponse, ListBody, RuleSetBody, Service, is_zone_ruleset,
  is_fail2ban_rule, is_block_list, get_cf_ruleset, get_cf_rule, first_server, prepare_cf_list,
}
use xcplane.Cloudflare.Account.Documented.{ListPosted, RuleSetPosted, RulePosted}
use xcplane.Cloudflare.Account.Steps.{not_found}

module _ {W : Type 0} (service : Service W) where
  abbrev pub ListFound : W → String → String → Type 0
  ListFound w a id =
      (got : ListsResponse) × (l : CfList) × (service.get_lists a w ≡ ok got)
      × (find? (is_block_list got.success) got.result ≡ some l)
      × (l.id ≡ id)

  abbrev pub RuleSetFound : W → String → String → Type 0
  RuleSetFound w z id =
      (got : List CfRuleSet) × (r : CfRuleSet) × (service.get_rulesets z w ≡ ok got)
      × (find? is_zone_ruleset got ≡ some r)
      × (r.id ≡ id)

  abbrev pub RuleFound : W → String → String → String → Type 0
  RuleFound w z rs id =
      (got : CfRuleSet) × (r : CfRule) × (service.get_ruleset z rs w ≡ ok got)
      × (find? is_fail2ban_rule got.rules ≡ some r)
      × (r.id ≡ id)

  -- What is found in the first state of the account is found in the second.
  pub record Grows (w w' : W) : Type 0 where
    pub lists : (a id : String) → ListFound w a id → ListFound w' a id
    pub rulesets : (z id : String) → RuleSetFound w z id → RuleSetFound w' z id
    pub rules : (z rs id : String) → RuleFound w z rs id → RuleFound w' z rs id

  pub Grows-eq : {w w' : W} → w ≡ w' → Grows w w'
  Grows-eq {w} e =
      subst (Grows w) e
        (record { lists = λ a id f. f; rulesets = λ z id f. f; rules = λ z rs id f. f })

  pub settled_by : {w w' : W} → w ≡ w' → (Found : W → Type 0) → Found w → Found w' × Grows w w'
  settled_by stays Found found = (subst Found stays found, Grows-eq stays)

  pub Grows-trans : {u v w : W} → Grows u v → Grows v w → Grows u w
  Grows-trans g h = record {
    lists = λ a id f. h.lists a id (g.lists a id f);
    rulesets = λ z id f. h.rulesets z id (g.rulesets z id f);
    rules = λ z rs id f. h.rules z rs id (g.rules z rs id f);
  }

  pub get_cf_ruleset-found :
      (z : String) {w : W} {id : String}
      → RuleSetFound w z id
      → get_cf_ruleset service z w ≡ (ok id, w)
  unfolding get_cf_ruleset
  get_cf_ruleset-found z (got, r, shown, found, same) = rw (shown, found, same) refl

  pub get_cf_rule-found :
      (s : KetServer) (z rs : String) {w : W} {id : String}
      → RuleFound w z rs id
      → get_cf_rule service s z rs w ≡ (ok id, w)
  unfolding get_cf_rule
  get_cf_rule-found s z rs (got, r, shown, found, same) = rw (shown, found, same) refl

  pub Grows-ListPosted :
      (a : String) {body : ListBody} {w w' : W} {made : CfList} {got : ListsResponse}
      → ListPosted service a body w made w'
      → service.get_lists a w ≡ ok got
      → find? (is_block_list got.success) got.result ≡ none
      → Grows w w'
  Grows-ListPosted a {w = w} posted shown unfound = record {
    lists = λ b id (got', l, shows, found, same). elim (Bool-cases (str_eq a b)) [
      | inl e ↦ absurd (
          not_found (service.get_lists a w) (λ g. find? (is_block_list g.success) g.result)
            {got' = got'} shown unfound (ap (λ x. service.get_lists x w) ((eq_iff a b).0 e) ∙ shows)
            found)
      | inr e ↦ rw (posted.other_lists b e) (got', l, shows, found, same)
    ];
    rulesets = λ z id found. rw (posted.rulesets z) found;
    rules = λ z rs id found. rw (posted.rules z rs) found;
  }

  pub Grows-RuleSetPosted :
      (z : String) {body : RuleSetBody} {w w' : W} {made : CfRuleSet} {got : List CfRuleSet}
      → RuleSetPosted service z body w made w'
      → service.get_rulesets z w ≡ ok got
      → find? is_zone_ruleset got ≡ none
      → Grows w w'
  Grows-RuleSetPosted z {w = w} posted shown unfound = record {
    lists = λ a id found. rw (posted.lists a) found;
    rulesets = λ y id (got', r, shows, found, same). elim (Bool-cases (str_eq z y)) [
      | inl e ↦ absurd (
          not_found (service.get_rulesets z w) (find? is_zone_ruleset) {got' = got'} shown unfound
            (ap (λ x. service.get_rulesets x w) ((eq_iff z y).0 e) ∙ shows) found)
      | inr e ↦ rw (posted.other_rulesets y e) (got', r, shows, found, same)
    ];
    rules = λ y rs id (got, r, shows, found, same). (got, r, posted.rules y rs shows, found, same);
  }

  pub Grows-RulePosted :
      (z rs : String) {w w' : W} {made got : CfRuleSet}
      → RulePosted service z rs w made w'
      → service.get_ruleset z rs w ≡ ok got
      → find? is_fail2ban_rule got.rules ≡ none
      → Grows w w'
  Grows-RulePosted z rs {w = w} posted shown unfound = record {
    lists = λ a id found. rw (posted.lists a) found;
    rulesets = λ y id found. rw (posted.rulesets y) found;
    rules = λ y q id (got', r, shows, found, same). elim (Bool-cases (str_eq z y && str_eq rs q)) [
      | inl e ↦
          let same_zone : str_eq z y ≡ true = ground (arith, e) in
          let same_ruleset : str_eq rs q ≡ true = ground (arith, e) in
          absurd (
            not_found (service.get_ruleset z rs w) (λ g. find? is_fail2ban_rule g.rules)
              {got' = got'} shown unfound
              (ap₂ (λ x t. service.get_ruleset x t w) ((eq_iff z y).0 same_zone)
                  ((eq_iff rs q).0 same_ruleset)
                ∙ shows)
              found)
      | inr e ↦ rw (posted.other_rules y q e) (got', r, shows, found, same)
    ];
  }

  module _ (zones : List CfZone) where
    -- The list of the account of the cloud's first server.
    abbrev pub CloudListFound : W → Cloud → String → Type 0
    CloudListFound w cloud id =
        (s : KetServer) × (zone : CfZone) × (first_server cloud.servers ≡ ok s)
        × (get_cf_zone zones s ≡ ok zone)
        × ListFound w zone.account_id id

    pub prepare_cf_list-found :
        (cloud : Cloud) {w : W} {id : String}
        → CloudListFound w cloud id
        → prepare_cf_list service zones cloud w ≡ (ok id, w)
    unfolding prepare_cf_list
    prepare_cf_list-found cloud (s, zone, first, in_zone, (got, l, shown, found, same)) =
        rw (first, in_zone, shown, found, same) refl

    pub CloudListFound-Grows :
        {w w' : W}
        → Grows w w'
        → (cloud : Cloud) (id : String) → CloudListFound w cloud id
        → CloudListFound w' cloud id
    CloudListFound-Grows g cloud id (s, zone, first, in_zone, found) =
        (s, zone, first, in_zone, g.lists zone.account_id id found)
