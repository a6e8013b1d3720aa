-- ===== src/Cloudflare/Account/Gets.antt =====
-- What `get_cf_ruleset`, `get_cf_rule` and `prepare_cf_list` (src/cloudflare.rs) got or created is
-- found in the account after them.
use xcplane.Common.{String, true, List, ok, find?, ◌≡◌, inl, inr, ok_or, ◌∙◌, ok_or-eq-ok, subst}
use xcplane.Server.{KetServer, Cloud}
use xcplane.Cloudflare.{CfZone, get_cf_zone, no_rule}
use xcplane.Cloudflare.Account.{
  CfList, CfRule, CfRuleSet, Service, is_zone_ruleset, is_fail2ban_rule, is_block_list,
  zone_ruleset, fail2ban_rule, blocklist_body, get_cf_ruleset, create_rule, get_cf_rule,
  first_server, prepare_cf_list,
}
use xcplane.Cloudflare.Account.Documented.{find?-IsInserted, IsDocumented}
use xcplane.Cloudflare.Account.Steps.{
  >>=-eq-ok, query-eq-ok, pure_query, found_or-eq-ok, is_zone_ruleset_lem, is_block_list_lem,
}
use xcplane.Cloudflare.Account.Found.{
  ListFound, RuleSetFound, RuleFound, Grows, settled_by, CloudListFound, Grows-ListPosted,
  Grows-RuleSetPosted, Grows-RulePosted,
}

module _ {W : Type 0} (service : Service W) (documented : IsDocumented service) where
  pub get_cf_ruleset-Found :
      (z : String) {w w' : W} {id : String}
      → get_cf_ruleset service z w ≡ (ok id, w')
      → RuleSetFound service w' z id × Grows service w w'
  unfolding get_cf_ruleset
  get_cf_ruleset-Found z {w} {w'} {id} h =
      let (got, shown, r) = query-eq-ok (service.get_rulesets z) _ h in
      let (made, same, cases) =
        found_or-eq-ok (find? is_zone_ruleset got) (service.post_ruleset z zone_ruleset)
          (λ (x : CfRuleSet). x.id) r in
      elim cases [
        | inl (found, stays) ↦
            settled_by service stays (λ x. RuleSetFound service x z id)
              (got, made, shown, found, same)
        | inr (unfound, created) ↦
            let posted = documented.ruleset_posted z zone_ruleset w created in
            let (listed, got', shows, inserted, same_id, kind, phase) = posted.shown shown in
            (
              (
                got',
                listed,
                shows,
                find?-IsInserted is_zone_ruleset listed inserted unfound
                    (is_zone_ruleset_lem listed kind phase),
                same_id ∙ same,
              ),
              Grows-RuleSetPosted service z posted shown unfound,
            )
      ]

  pub get_cf_rule-Found :
      (s : KetServer) (z rs : String) {w w' : W} {id : String}
      → get_cf_rule service s z rs w ≡ (ok id, w')
      → RuleFound service w' z rs id × Grows service w w'
  unfolding get_cf_rule create_rule
  get_cf_rule-Found s z rs {w} {w'} {id} h =
      let (got, shown, r) = query-eq-ok (service.get_ruleset z rs) _ h in
      let (rule, same, cases) =
        found_or-eq-ok (find? is_fail2ban_rule got.rules) (create_rule service s z rs)
          (λ (x : CfRule). x.id) r in
      elim cases [
        | inl (found, stays) ↦
            settled_by service stays (λ x. RuleFound service x z rs id)
              (got, rule, shown, found, same)
        | inr (unfound, created) ↦
            let (made, u, posts, read) =
              >>=-eq-ok (service.post_rule z rs fail2ban_rule) _ created in
            let (taken, stays) =
              pure_query (λ x. ok_or (find? is_fail2ban_rule made.rules) (no_rule s.name)) read in
            let found = ok_or-eq-ok (find? is_fail2ban_rule made.rules) (no_rule s.name) taken in
            let posted =
              documented.rule_posted z rs fail2ban_rule w
                (subst (λ x. service.post_rule z rs fail2ban_rule w ≡ (ok made, x)) stays posts) in
            (
              (made, rule, posted.shown, found, same),
              Grows-RulePosted service z rs posted shown unfound,
            )
      ]

  pub prepare_cf_list-Found :
      (zones : List CfZone) (cloud : Cloud) {w w' : W} {id : String}
      → prepare_cf_list service zones cloud w ≡ (ok id, w')
      → CloudListFound service zones w' cloud id × Grows service w w'
  unfolding prepare_cf_list
  prepare_cf_list-Found zones cloud {w} {w'} {id} h =
      let (s, first, r1) = query-eq-ok (λ x. first_server cloud.servers) _ h in
      let (zone, in_zone, r2) = query-eq-ok (λ x. get_cf_zone zones s) _ r1 in
      let a = zone.account_id in
      let (got, shown, r3) = query-eq-ok (service.get_lists a) _ r2 in
      let (l, same, cases) =
        found_or-eq-ok (find? (is_block_list got.success) got.result)
          (service.post_list a blocklist_body) (λ (x : CfList). x.id) r3 in
      elim cases [
        | inl (found, stays) ↦
            let (kept, grows) =
              settled_by service stays (λ x. ListFound service x a id)
                (got, l, shown, found, same) in
            ((s, zone, first, in_zone, kept), grows)
        | inr (unfound, created) ↦
            let posted = documented.list_posted a blocklist_body w created in
            let (got', shows, inserted) = posted.shown shown in
            let holds = is_block_list_lem l posted.description posted.kind in
            let found =
              find?-IsInserted (is_block_list true) l inserted
                (rw (documented.success a w shown) at unfound) holds in
            (
              (
                s,
                zone,
                first,
                in_zone,
                (got', l, shows, (rw (documented.success a w' shows) found), same),
              ),
              Grows-ListPosted service a posted shown unfound,
            )
      ]
