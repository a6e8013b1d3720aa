-- ===== src/Cloudflare/Account/Settled.antt =====
-- `prepare_cloudflare_state` (src/cloudflare.rs) settles the account.
use xcplane.Common.{
  String, Bool, true, false, Option, none, some, List, ◌∷◌, [], Outcome, ok, err, ◌≡◌, refl, sym,
  ok-injective, arith, Bool-cases, inl, inr, ok_or, not, ◌||◌, any, is_ok, ap, ap₂, subst, ◌∙◌,
}
use xcplane.Server.{KetServer, Cloud, CfListData}
use xcplane.Cloudflare
use xcplane.Cloudflare.{
  CfError, CfZone, get_cf_zone, no_list, Answers, with_ids, with_state, list_data_of, set_cf_state,
  set_cf_states, prepare_cloudflare_state,
}
use xcplane.Cloudflare.Account.{
  Service, get_cf_ruleset, get_cf_rule, prepare_cf_list, list_data_call, set_state, set_states,
  list_or_kept, list_after_call, with_servers, prepare_states, answers_of,
}
use xcplane.Cloudflare.Account.Documented.{IsDocumented}
use xcplane.Cloudflare.Account.Steps.{>>=-eq-ok, query-eq-ok, pure-eq-ok}
use xcplane.Cloudflare.Account.Found.{
  Grows, Grows-eq, Grows-trans, get_cf_ruleset-found, get_cf_rule-found, prepare_cf_list-found,
  CloudListFound-Grows,
}
use xcplane.Cloudflare.Account.Gets.{get_cf_ruleset-Found, get_cf_rule-Found, prepare_cf_list-Found}

list_or_kept-eq-ok :
    {W : Type 0} (r : Outcome CfError String × W) (old : Option String) {l : Option String} {w' : W}
    → is_ok r.0 ≡ true
    → list_or_kept r old ≡ (l, w')
    → (id : String) × (l ≡ some id) × (r ≡ (ok id, w'))
unfolding list_or_kept
list_or_kept-eq-ok (ok id, w) old made h = (id, sym (ap (λ p. p.0) h), ap (λ p. (ok id, p.1)) h)
list_or_kept-eq-ok (err e, w) old made h = ground (arith, made)

with_servers-eq-ok :
    (cloud : Cloud) (o : Outcome CfError (List KetServer)) {result : Cloud}
    → with_servers cloud o ≡ ok result
    → (m : List KetServer) × (o ≡ ok m) × (record cloud { servers = m } ≡ result)
unfolding with_servers
with_servers-eq-ok cloud (ok m) {result} h =
    (m, refl, ok-injective {E = CfError} (record cloud { servers = m }) result h)
with_servers-eq-ok cloud (err e) h = cc

module _ {W : Type 0} (service : Service W) (zones : List CfZone) where
  prepare_states-eq :
      (cloud : Cloud) (cf_list : Option String) (w : W) {l : Option String} {m : List KetServer}
      {v w' : W}
      → list_after_call service zones cloud cf_list w ≡ (l, v)
      → set_states service zones l cloud.servers v ≡ (ok m, w')
      → prepare_states service zones cloud cf_list w ≡ (l, ok (record cloud { servers = m }), w')
  unfolding prepare_states with_servers
  prepare_states-eq cloud cf_list w p q = rw (p, q) refl

  prepare_states-eq-ok :
      (cloud : Cloud) (cf_list : Option String) (w : W) {l : Option String} {result : Cloud}
      {w' : W}
      → prepare_states service zones cloud cf_list w ≡ (l, ok result, w')
      → (v : W) × (m : List KetServer) × (list_after_call service zones cloud cf_list w ≡ (l, v))
        × (set_states service zones l cloud.servers v ≡ (ok m, w'))
        × (record cloud { servers = m } ≡ result)
  unfolding prepare_states
  prepare_states-eq-ok cloud cf_list w {l} {result} {w'} h =
      let r = list_after_call service zones cloud cf_list w in
      let q = set_states service zones r.0 cloud.servers r.1 in
      let same : r.0 ≡ l = ap (λ p. p.0) h in
      let (m, set, result_is) = with_servers-eq-ok cloud q.0 (ap (λ p. p.1) h) in
      (
        r.1,
        m,
        ap (λ x. (x, r.1)) same,
        subst (λ x. set_states service zones x cloud.servers r.1 ≡ (ok m, w')) same
            (ap₂ (λ x y. (x, y)) set (ap (λ p. p.2) h)),
        result_is,
      )

  -- Nothing is created, and the answers of each account that has grown give the same result.
  IsSettledData : W → Option String → CfZone → KetServer → Bool → Option CfListData → Type 0
  IsSettledData w cf_list zone s proxied d =
      (v : W)
      → Grows service w v
      → (list_data_call service zones cf_list zone s proxied v ≡ (ok d, v))
        × (list_data_of (answers_of service zones v) cf_list zone s proxied ≡ ok d)

  abbrev IsSettledServer : W → Option String → KetServer → KetServer → Type 0
  IsSettledServer w cf_list s t =
      (v : W)
      → Grows service w v
      → (set_state service zones cf_list s v ≡ (ok t, v))
        × (set_cf_state (answers_of service zones v) cf_list s ≡ ok t)

  abbrev AreSettled : W → Option String → List KetServer → List KetServer → Type 0
  AreSettled w cf_list l m =
      (v : W)
      → Grows service w v
      → (set_states service zones cf_list l v ≡ (ok m, v))
        × (set_cf_states (answers_of service zones v) cf_list l ≡ ok m)

  IsSettledList : W → Cloud → Option String → Option String → Type 0
  IsSettledList w cloud old l =
      (v : W)
      → Grows service w v
      → (list_after_call service zones cloud old v ≡ (l, v))
        × (Cloudflare.list_after (answers_of service zones v) cloud old ≡ l)

  module _ (documented : IsDocumented service) where
    list_data_call-IsSettledData :
        (cf_list : Option String) (zone : CfZone) (s : KetServer) (proxied : Bool) {w w' : W}
        {d : Option CfListData}
        → list_data_call service zones cf_list zone s proxied w ≡ (ok d, w')
        → IsSettledData w' cf_list zone s proxied d × Grows service w w'
    unfolding list_data_call list_data_of answers_of IsSettledData
    list_data_call-IsSettledData cf_list zone s false {w} {w'} {d} h =
        let (same, stay) = pure-eq-ok none h in
        ((λ v g. (ap (λ x. (ok x, v)) same, ap (λ x. ok x) same)), Grows-eq service stay)
    list_data_call-IsSettledData cf_list zone s true {w} {w'} {d} h =
        let (ruleset_id, w1, h1, r1) = >>=-eq-ok (get_cf_ruleset service zone.id) _ h in
        let (rule_id, w2, h2, r2) = >>=-eq-ok (get_cf_rule service s zone.id ruleset_id) _ r1 in
        let (list_id, listed, r3) = query-eq-ok (λ x. ok_or cf_list no_list) _ r2 in
        let (same, stay) = pure-eq-ok (some (with_ids zone ruleset_id rule_id list_id)) r3 in
        let (in_zone, g1) = get_cf_ruleset-Found service documented zone.id h1 in
        let (in_set, g2) = get_cf_rule-Found service documented s zone.id ruleset_id h2 in
        (
          (λ v g.
              let g' = Grows-trans service (Grows-eq service stay) g in
              let again =
                get_cf_ruleset-found service zone.id
                  (g'.rulesets zone.id ruleset_id (g2.rulesets zone.id ruleset_id in_zone)) in
              let again_rule =
                get_cf_rule-found service s zone.id ruleset_id
                  (g'.rules zone.id ruleset_id rule_id in_set) in
              (
                rw (again, again_rule, listed) (ap (λ x. (ok x, v)) same),
                rw (again, again_rule, listed) (ap (λ x. ok x) same),
              )),
          Grows-trans service g1 (Grows-trans service g2 (Grows-eq service stay)),
        )

    set_state-IsSettledServer :
        (cf_list : Option String) (s : KetServer) {w w' : W} {t : KetServer}
        → set_state service zones cf_list s w ≡ (ok t, w')
        → IsSettledServer w' cf_list s t × Grows service w w'
    unfolding set_state set_cf_state answers_of IsSettledData
    set_state-IsSettledServer cf_list s {w} {w'} {t} h =
        let (zone, in_zone, r1) = query-eq-ok (λ x. get_cf_zone zones s) _ h in
        let (d, w1, h1, r2) =
          >>=-eq-ok (list_data_call service zones cf_list zone s s.cloudflare_proxied) _ r1 in
        let (same, stay) = pure-eq-ok (with_state zone d s) r2 in
        let (settled, g1) = list_data_call-IsSettledData cf_list zone s s.cloudflare_proxied h1 in
        (
          (λ v g.
              let (again, answered) = settled v (Grows-trans service (Grows-eq service stay) g) in
              (
                rw (in_zone, again) (ap (λ x. (ok x, v)) same),
                rw (in_zone, answered) (ap (λ x. ok x) same),
              )),
          Grows-trans service g1 (Grows-eq service stay),
        )

    set_states-AreSettled :
        (cf_list : Option String) (l : List KetServer) {w w' : W} {m : List KetServer}
        → set_states service zones cf_list l w ≡ (ok m, w')
        → AreSettled w' cf_list l m × Grows service w w'
    unfolding set_states set_cf_states
    set_states-AreSettled cf_list [] h =
        let (same, stay) = pure-eq-ok [] h in
        ((λ v g. (ap (λ x. (ok x, v)) same, ap (λ x. ok x) same)), Grows-eq service stay)
    set_states-AreSettled cf_list (s ∷ l) {w} {w'} {m} h =
        let (t, w1, h1, r1) = >>=-eq-ok (set_state service zones cf_list s) _ h in
        let (rest, w2, h2, r2) = >>=-eq-ok (set_states service zones cf_list l) _ r1 in
        let (same, stay) = pure-eq-ok (t ∷ rest) r2 in
        let (first, g1) = set_state-IsSettledServer cf_list s h1 in
        let (others, g2) = set_states-AreSettled cf_list l h2 in
        (
          (λ v g.
              let g' = Grows-trans service (Grows-eq service stay) g in
              let (again, answered) = first v (Grows-trans service g2 g') in
              let (again_rest, answered_rest) = others v g' in
              (
                rw (again, again_rest) (ap (λ x. (ok x, v)) same),
                rw (answered, answered_rest) (ap (λ x. ok x) same),
              )),
          Grows-trans service g1 (Grows-trans service g2 (Grows-eq service stay)),
        )

    list_after_call-IsSettledList :
        (cloud : Cloud) (old : Option String) {w w' : W} {l : Option String}
        → (not (any (λ (s : KetServer). s.cloudflare_proxied) cloud.servers)
            || is_ok (prepare_cf_list service zones cloud w).0)
          ≡ true
        → list_after_call service zones cloud old w ≡ (l, w')
        → IsSettledList w' cloud old l × Grows service w w'
    unfolding list_after_call Cloudflare.list_after Cloudflare.list_or_old answers_of IsSettledList
    list_after_call-IsSettledList cloud old {w} {w'} {l} made h =
        elim (Bool-cases (any (λ (s : KetServer). s.cloudflare_proxied) cloud.servers)) [
          | inl e ↦
              let (id, same, listed) =
                list_or_kept-eq-ok (prepare_cf_list service zones cloud w) old (rw e at made)
                  (rw e at h) in
              let (found, grows) = prepare_cf_list-Found service documented zones cloud listed in
              (
                (λ v g.
                    let again =
                      prepare_cf_list-found service zones cloud
                        (CloudListFound-Grows service zones g cloud id found) in
                    (rw (e, again) (ap (λ x. (x, v)) (sym same)), rw (e, again) (sym same))),
                grows,
              )
          | inr e ↦
              let kept : (old, w) ≡ (l, w') = (rw e at h) in
              (
                (λ v g. (rw e (ap (λ p. (p.0, v)) kept), rw e (ap (λ p. p.0) kept))),
                Grows-eq service (ap (λ p. p.1) kept),
              )
        ]

    -- Let the service behave as documented. When the preparation succeeds, and the block list is
    -- got or created if a server wants the proxy, then the second preparation from the account that
    -- the first leaves creates nothing and gives the same list and the same cloud; and with what
    -- each call answers on that account, `prepare_cloudflare_state` of the fixed answers gives them
    -- too.
    pub prepare_states-again :
        (cloud : Cloud) (cf_list : Option String) (w : W) {l : Option String} {result : Cloud}
        {w' : W}
        → (not (any (λ (s : KetServer). s.cloudflare_proxied) cloud.servers)
            || is_ok (prepare_cf_list service zones cloud w).0)
          ≡ true
        → prepare_states service zones cloud cf_list w ≡ (l, ok result, w')
        → (prepare_states service zones cloud cf_list w' ≡ (l, ok result, w'))
          × (prepare_cloudflare_state (answers_of service zones w') cloud cf_list ≡ (l, ok result))
    unfolding prepare_cloudflare_state IsSettledList
    prepare_states-again cloud cf_list w {l} {result} {w'} made h =
        let (v, m, listed, set, same) = prepare_states-eq-ok cloud cf_list w h in
        let (list_again, g1) = list_after_call-IsSettledList cloud cf_list made listed in
        let (again, g2) = set_states-AreSettled l cloud.servers set in
        let (list_stays, list_answered) = list_again w' g2 in
        let (states_stay, states_answered) = again w' (Grows-eq service refl) in
        (
          prepare_states-eq cloud cf_list w' list_stays states_stay ∙ ap (λ c. (l, ok c, w')) same,
          rw (list_answered, states_answered) (ap (λ c. (l, ok c)) same),
        )
