-- ===== src/Cloudflare/Account/Documented.antt =====
-- What src/cloudflare.rs relies on of the Cloudflare service: a GET shows what a POST created
-- beside what was there, and a POST changes nothing else.
use xcplane.Common.{
  String, Bool, true, false, none, some, List, ◌∷◌, ◌++◌, [], ok, find?, str_eq, ◌&&◌, ◌≡◌, refl,
  arith, Bool-cases, inl, inr,
}
use xcplane.Cloudflare.Account.{
  CfList, CfRuleSet, ListsResponse, ListBody, RuleBody, RuleSetBody, Service,
}

-- The second list is the first with one more element.
pub record IsInserted {A : Type 0} (x : A) (before after : List A) : Type 0 where
  pub front : List A
  pub back : List A
  pub old : before ≡ front ++ back
  pub new : after ≡ front ++ x ∷ back

find?-insert :
    {A : Type 0} (p : A → Bool) (x : A) (front back : List A)
    → find? p (front ++ back) ≡ none
    → p x ≡ true
    → find? p (front ++ x ∷ back) ≡ some x
find?-insert p x [] back unfound holds = rw holds refl
find?-insert p x (y ∷ front) back unfound holds = elim (Bool-cases (p y)) [
  | inl e ↦ ground (arith, unfound, e)
  | inr e ↦ rw e (find?-insert p x front back (rw e at unfound) holds)
]

pub find?-IsInserted :
    {A : Type 0} (p : A → Bool) (x : A) {before after : List A}
    → IsInserted x before after
    → find? p before ≡ none
    → p x ≡ true
    → find? p after ≡ some x
find?-IsInserted p x i unfound holds =
    rw i.new (find?-insert p x i.front i.back (rw i.old at unfound) holds)

module _ {W : Type 0} (service : Service W) where
  pub record ListPosted (a : String) (body : ListBody) (w : W) (made : CfList) (w' : W)
      : Type 0 where
    pub shown :
        {got : ListsResponse}
        → service.get_lists a w ≡ ok got
        → (got' : ListsResponse) × (service.get_lists a w' ≡ ok got')
          × IsInserted made got.result got'.result
    pub description : made.description ≡ body.description
    pub kind : made.kind ≡ body.kind
    pub other_lists :
        (b : String) → str_eq a b ≡ false → service.get_lists b w' ≡ service.get_lists b w
    pub rulesets : (z : String) → service.get_rulesets z w' ≡ service.get_rulesets z w
    pub rules : (z r : String) → service.get_ruleset z r w' ≡ service.get_ruleset z r w

  -- The list of the rulesets does not show their rules.
  pub record RuleSetPosted (z : String) (body : RuleSetBody) (w : W) (made : CfRuleSet) (w' : W)
      : Type 0 where
    pub shown :
        {got : List CfRuleSet}
        → service.get_rulesets z w ≡ ok got
        → (listed : CfRuleSet) × (got' : List CfRuleSet) × (service.get_rulesets z w' ≡ ok got')
          × IsInserted listed got got'
          × (listed.id ≡ made.id)
          × (listed.kind ≡ body.kind)
          × (listed.phase ≡ body.phase)
    pub lists : (a : String) → service.get_lists a w' ≡ service.get_lists a w
    pub other_rulesets :
        (y : String) → str_eq z y ≡ false → service.get_rulesets y w' ≡ service.get_rulesets y w
    pub rules :
        (y r : String) {d : CfRuleSet}
        → service.get_ruleset y r w ≡ ok d
        → service.get_ruleset y r w' ≡ ok d

  pub record RulePosted (z r : String) (w : W) (made : CfRuleSet) (w' : W) : Type 0 where
    pub shown : service.get_ruleset z r w' ≡ ok made
    pub lists : (a : String) → service.get_lists a w' ≡ service.get_lists a w
    pub rulesets : (y : String) → service.get_rulesets y w' ≡ service.get_rulesets y w
    pub other_rules :
        (y q : String)
        → (str_eq z y && str_eq r q) ≡ false
        → service.get_ruleset y q w' ≡ service.get_ruleset y q w

  pub record IsDocumented : Type 0 where
    pub success :
        (a : String) (w : W) {got : ListsResponse}
        → service.get_lists a w ≡ ok got
        → got.success ≡ true
    pub list_posted :
        (a : String) (body : ListBody) (w : W) {made : CfList} {w' : W}
        → service.post_list a body w ≡ (ok made, w')
        → ListPosted a body w made w'
    pub ruleset_posted :
        (z : String) (body : RuleSetBody) (w : W) {made : CfRuleSet} {w' : W}
        → service.post_ruleset z body w ≡ (ok made, w')
        → RuleSetPosted z body w made w'
    pub rule_posted :
        (z r : String) (body : RuleBody) (w : W) {made : CfRuleSet} {w' : W}
        → service.post_rule z r body w ≡ (ok made, w')
        → RulePosted z r w made w'
