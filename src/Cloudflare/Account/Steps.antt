-- ===== src/Cloudflare/Account/Steps.antt =====
-- The steps of a call on the account (src/cloudflare.rs) that succeeds.
use xcplane.Common.{
  String, true, Option, none, some, Outcome, ok, err, ◌≡◌, refl, arith, inl, inr, is_ok,
  ok-injective, ◌⊎◌, ap, subst,
}
use xcplane.Cloudflare.{CfError}
use xcplane.Cloudflare.Account.{
  Call, CfList, CfRuleSet, go_on, ◌>>=◌, pure, query, found_or, is_zone_ruleset, is_block_list,
  zone_ruleset, blocklist_body,
}

module _ {W : Type 0} where
  go_on-eq-ok :
      {A B : Type 0} (r : Outcome CfError A × W) (next : A → Call W B) {b : B} {w' : W}
      → go_on r next ≡ (ok b, w')
      → (a : A) × (v : W) × (r ≡ (ok a, v)) × (next a v ≡ (ok b, w'))
  go_on-eq-ok (ok a, v) next h = (a, v, refl, h)
  go_on-eq-ok (err e, v) next h = ground (arith, ap (λ p. is_ok p.0) h)

  -- Both steps of a call that succeeds succeed.
  pub >>=-eq-ok :
      {A B : Type 0} (call : Call W A) (next : A → Call W B) {w w' : W} {b : B}
      → (call >>= next) w ≡ (ok b, w')
      → (a : A) × (v : W) × (call w ≡ (ok a, v)) × (next a v ≡ (ok b, w'))
  >>=-eq-ok call next {w} h = go_on-eq-ok (call w) next h

  go_on-query :
      {A B : Type 0} (o : Outcome CfError A) (next : A → Call W B) {b : B} {w w' : W}
      → go_on (o, w) next ≡ (ok b, w')
      → (a : A) × (o ≡ ok a) × (next a w ≡ (ok b, w'))
  go_on-query (ok a) next h = (a, refl, h)
  go_on-query (err e) next h = ground (arith, ap (λ p. is_ok p.0) h)

  pub query-eq-ok :
      {A B : Type 0} (get : W → Outcome CfError A) (next : A → Call W B) {w w' : W} {b : B}
      → (query get >>= next) w ≡ (ok b, w')
      → (a : A) × (get w ≡ ok a) × (next a w ≡ (ok b, w'))
  query-eq-ok get next {w} h = go_on-query (get w) next h

  pub pure_query :
      {A : Type 0} (get : W → Outcome CfError A) {w w' : W} {a : A}
      → query get w ≡ (ok a, w')
      → (get w ≡ ok a) × (w ≡ w')
  pure_query get h = (ap (λ p. p.0) h, ap (λ p. p.1) h)

  pub pure-eq-ok :
      {A : Type 0} (a : A) {w w' : W} {b : A} → pure a w ≡ (ok b, w') → (a ≡ b) × (w ≡ w')
  pure-eq-ok a {b = b} h = (ok-injective {E = CfError} a b (ap (λ p. p.0) h), ap (λ p. p.1) h)

  -- Either the value was found, and the account is as before, or it was created.
  pub found_or-eq-ok :
      {A : Type 0} (o : Option A) (create : Call W A) (f : A → String) {w w' : W} {id : String}
      → (found_or o create >>= λ a. pure (f a)) w ≡ (ok id, w')
      → (a : A) × (f a ≡ id) × (((o ≡ some a) × (w ≡ w')) ⊎ ((o ≡ none) × (create w ≡ (ok a, w'))))
  found_or-eq-ok (some a) create f h =
      let (same, stay) = pure-eq-ok (f a) h in (a, same, inl (refl, stay))
  found_or-eq-ok none create f {w} {w'} h =
      let (a, v, made, r) = >>=-eq-ok create _ h in
      let (same, stay) = pure-eq-ok (f a) r in
      (a, same, inr (refl, subst (λ x. create w ≡ (ok a, x)) stay made))

-- What a lookup did not find in an answer, it does not find in the same answer.
pub not_found :
    {A B : Type 0} (o : Outcome CfError A) (f : A → Option B) {got got' : A} {b : B}
    → o ≡ ok got
    → f got ≡ none
    → o ≡ ok got'
    → f got' ≡ some b
    → ⊥
not_found o f shown unfound shows found = cc

pub is_zone_ruleset_lem :
    (r : CfRuleSet)
    → r.kind ≡ zone_ruleset.kind
    → r.phase ≡ zone_ruleset.phase
    → is_zone_ruleset r ≡ true
is_zone_ruleset_lem r kind phase = rw (kind, phase) refl

pub is_block_list_lem :
    (l : CfList)
    → l.description ≡ blocklist_body.description
    → l.kind ≡ blocklist_body.kind
    → is_block_list true l ≡ true
is_block_list_lem l description kind = rw (description, kind) refl
