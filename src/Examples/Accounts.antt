-- ===== src/Examples/Accounts.antt =====
-- An account in memory that behaves as the Cloudflare service is documented, and the theorem on it.
use xcplane.Common.{
  String, true, Option, none, some, List, ◌∷◌, [], Outcome, ok, ◌≡◌, refl, sym, ok-injective,
  if◌then◌else◌, str_eq, ◌&&◌, ap, subst, eq_iff,
}
use xcplane.Server.{Cloud}
use xcplane.Cloudflare.{CfError, get_cf_zone, prepare_cloudflare_state}
use xcplane.Cloudflare.Account.{
  CfList, CfRule, CfRuleSet, ListsResponse, ListBody, RuleBody, RuleSetBody, Service,
  prepare_cf_list, prepare_states, answers_of,
}
use xcplane.Cloudflare.Account.Documented.{ListPosted, RuleSetPosted, RulePosted, IsDocumented}
use xcplane.Cloudflare.Account.Settled.{prepare_states-again}
use xcplane.Examples.{running, old_cloud}
use xcplane.Examples.Clouds.{cloud_or_old, zone}

record Account : Type 0 where
  lists : String → List CfList
  rulesets : String → List CfRuleSet
  rules : String → String → List CfRule

abbrev put_at : {A : Type 0} → String → A → (String → List A) → String → List A
put_at a x f b = if str_eq a b then x ∷ f b else f b

abbrev made_list : ListBody → CfList
made_list body = record {
  id = "list";
  name = body.name;
  description = body.description;
  kind = body.kind;
  num_items = 0;
}

abbrev made_ruleset : RuleSetBody → CfRuleSet
made_ruleset body = record {
  id = "ruleset";
  kind = body.kind;
  name = body.name;
  phase = body.phase;
  rules = [];
}

abbrev made_rule : RuleBody → CfRule
made_rule body = record {
  id = "rule";
  action = body.action;
  description = body.description;
  enabled = body.enabled;
  expression = body.expression;
}

abbrev with_rules : String → List CfRule → CfRuleSet
with_rules id rules = record { id = id; kind = "zone"; name = ""; phase = ""; rules = rules }

abbrev rules_with : String → String → CfRule → Account → String → String → List CfRule
rules_with z r rule w y q = if str_eq z y && str_eq r q then rule ∷ w.rules y q else w.rules y q

abbrev in_memory : Service Account
in_memory = record {
  get_lists = λ a w. ok (record { result = w.lists a; success = true });
  post_list =
      λ a body w. (ok (made_list body), record w { lists = put_at a (made_list body) w.lists });
  get_rulesets = λ z w. ok (w.rulesets z);
  post_ruleset = λ z body w.
      (ok (made_ruleset body), record w { rulesets = put_at z (made_ruleset body) w.rulesets });
  get_ruleset = λ z r w. ok (with_rules r (w.rules z r));
  post_rule = λ z r body w. (
    ok (with_rules r (made_rule body ∷ w.rules z r)),
    record w { rules = rules_with z r (made_rule body) w },
  );
}

-- What holds of the result of a call that is known.
of_result :
    {A : Type 0} (P : A → Account → Type 0) {a b : A} {v w : Account}
    → ◌≡◌ {A = Outcome CfError A × Account} (ok a, v) (ok b, w)
    → P a v
    → P b w
of_result P {a} {b} {v} {w} h p =
    subst (λ x. P b x) (ap (λ r. r.1) h)
      (subst (λ x. P x v) (ok-injective {E = CfError} a b (ap (λ r. r.0) h)) p)

list_shown :
    (a : String) (body : ListBody) (w : Account)
    → ListPosted in_memory a body w (made_list body) (in_memory.post_list a body w).1
list_shown a body w = record {
  shown = λ {got} h.
      let same = ok-injective {E = CfError} _ got h in
      (
        record { result = made_list body ∷ w.lists a; success = true },
        rw ((eq_iff a a).1 refl) refl,
        record {
          front = [];
          back = w.lists a;
          old = sym (ap (λ (x : ListsResponse). x.result) same);
          new = refl;
        },
      );
  description = refl;
  kind = refl;
  other_lists = λ b e. rw e refl;
  rulesets = λ z. refl;
  rules = λ z r. refl;
}

ruleset_shown :
    (z : String) (body : RuleSetBody) (w : Account)
    → RuleSetPosted in_memory z body w (made_ruleset body) (in_memory.post_ruleset z body w).1
ruleset_shown z body w = record {
  shown = λ {got} h. (
    made_ruleset body,
    made_ruleset body ∷ w.rulesets z,
    rw ((eq_iff z z).1 refl) refl,
    record {
      front = [];
      back = w.rulesets z;
      old = sym (ok-injective {E = CfError} _ got h);
      new = refl;
    },
    refl,
    refl,
    refl,
  );
  lists = λ a. refl;
  other_rulesets = λ y e. rw e refl;
  rules = λ y r h. h;
}

rule_shown :
    (z r : String) (body : RuleBody) (w : Account)
    → RulePosted in_memory z r w
        (with_rules r (made_rule body ∷ w.rules z r))
        (in_memory.post_rule z r body w).1
rule_shown z r body w = record {
  shown = rw ((eq_iff z z).1 refl, (eq_iff r r).1 refl) refl;
  lists = λ a. refl;
  rulesets = λ y. refl;
  other_rules = λ y q e. rw e refl;
}

in_memory-IsDocumented : IsDocumented in_memory
in_memory-IsDocumented = record {
  success = λ a w {got} h.
      sym (ap (λ (x : ListsResponse). x.success) (ok-injective {E = CfError} _ got h));
  list_posted = λ a body w {made} {w'} h.
      of_result (λ m v. ListPosted in_memory a body w m v) h (list_shown a body w);
  ruleset_posted = λ z body w {made} {w'} h.
      of_result (λ m v. RuleSetPosted in_memory z body w m v) h (ruleset_shown z body w);
  rule_posted = λ z r body w {made} {w'} h.
      of_result (λ m v. RulePosted in_memory z r w m v) h (rule_shown z r body w);
}

abbrev proxied_cloud : Cloud
proxied_cloud = record old_cloud { servers = record running { cloudflare_proxied = true } ∷ [] }

abbrev blank : Account
blank = record { lists = λ a. []; rulesets = λ z. []; rules = λ z r. [] }

abbrev first_run : Option String × Outcome CfError Cloud × Account
unfolding prepare_states
first_run = prepare_states in_memory (zone ∷ []) proxied_cloud none blank

abbrev after_first : Account
unfolding prepare_states
after_first = first_run.2

prepare_states-again_example :
    (prepare_states in_memory (zone ∷ []) proxied_cloud none after_first
      ≡ (some "list", ok (cloud_or_old first_run.1), after_first))
    × (prepare_cloudflare_state (answers_of in_memory (zone ∷ []) after_first) proxied_cloud none
        ≡ (some "list", ok (cloud_or_old first_run.1)))
unfolding prepare_states prepare_cf_list get_cf_zone
prepare_states-again_example =
    prepare_states-again in_memory (zone ∷ []) in_memory-IsDocumented proxied_cloud none blank refl
      refl
