-- ===== src/Cloudflare/States.antt =====
-- What `prepare_cloudflare_state` of src/cloudflare.rs stores in the servers.
use xcplane.Common.{
  is_some, String, Bool, true, false, Option, some, List, [], ◌∷◌, ok, ok_or, ◌≡◌, refl, arith,
  >>=-eq-ok, ok-injective, subst, ap,
}
use xcplane.Server.{CfState, CfListData, KetServer, Cloud}
use xcplane.Cloudflare.{
  CfError, CfZone, Answers, get_cf_zone, list_data_of, is_cloudflare_only, set_cf_state,
  set_cf_states, list_after, prepare_cloudflare_state,
}

-- The second server is the first with a Cloudflare state, which has the list data exactly when the
-- server wants the proxy.
pub record IsPrepared (s t : KetServer) : Type 0 where
  pub state : CfState
  pub same : record s { cfstate = some state } ≡ t
  pub only : state.cloudflare_only ≡ is_cloudflare_only s
  pub proxied : is_some state.list_data ≡ s.cloudflare_proxied

abbrev pub ArePrepared : List KetServer → List KetServer → Type 0
ArePrepared [] [] = Unit
ArePrepared (s ∷ l) (t ∷ m) = IsPrepared s t × ArePrepared l m
ArePrepared _ _ = ⊥

list_data_of-is_some :
    (answers : Answers) (cf_list : Option String) (zone : CfZone) (s : KetServer) (proxied : Bool)
    {d : Option CfListData}
    → list_data_of answers cf_list zone s proxied ≡ ok d
    → is_some d ≡ proxied
unfolding list_data_of
list_data_of-is_some answers cf_list zone s false h = ground arith
list_data_of-is_some answers cf_list zone s true h =
    let (ruleset_id, e, r1) = >>=-eq-ok (answers.cf_ruleset s zone.id) _ h in
    let (rule_id, f, r2) = >>=-eq-ok (answers.cf_rule s zone.id ruleset_id) _ r1 in
    let (list_id, g, r3) = >>=-eq-ok (ok_or cf_list _) _ r2 in ground (arith, r3)

set_cf_state-IsPrepared :
    (answers : Answers) (cf_list : Option String) (s : KetServer) {t : KetServer}
    → set_cf_state answers cf_list s ≡ ok t
    → IsPrepared s t
unfolding set_cf_state
set_cf_state-IsPrepared answers cf_list s {t} h =
    let (zone, e, r1) = >>=-eq-ok (get_cf_zone answers.zones s) _ h in
    let (d, f, r2) = >>=-eq-ok (list_data_of answers cf_list zone s s.cloudflare_proxied) _ r1 in
    record {
      state = _;
      same = ok-injective {E = CfError} _ t r2;
      only = refl;
      proxied = list_data_of-is_some answers cf_list zone s s.cloudflare_proxied f;
    }

set_cf_states-ArePrepared :
    (answers : Answers) (cf_list : Option String) (l : List KetServer) {m : List KetServer}
    → set_cf_states answers cf_list l ≡ ok m
    → ArePrepared l m
unfolding set_cf_states
set_cf_states-ArePrepared answers cf_list [] {m} h =
    subst (ArePrepared []) (ok-injective {E = CfError} [] m h) tt
set_cf_states-ArePrepared answers cf_list (s ∷ l) {m} h =
    let (t, e, r1) = >>=-eq-ok (set_cf_state answers cf_list s) _ h in
    let (rest, f, r2) = >>=-eq-ok (set_cf_states answers cf_list l) _ r1 in
    subst (ArePrepared (s ∷ l)) (ok-injective {E = CfError} (t ∷ rest) m r2)
      (set_cf_state-IsPrepared answers cf_list s e, set_cf_states-ArePrepared answers cf_list l f)

-- When the preparation succeeds, the cloud has the same settings and, in the same order, the same
-- servers, each with a Cloudflare state: its `cloudflare_only` is the test on the server's
-- inbounds, and it has the list data exactly when the server wants the proxy.
pub prepare_cloudflare_state-ArePrepared :
    (answers : Answers) (cloud : Cloud) (cf_list : Option String) {result : Cloud}
    → (prepare_cloudflare_state answers cloud cf_list).1 ≡ ok result
    → (cloud.settings ≡ result.settings) × ArePrepared cloud.servers result.servers
unfolding prepare_cloudflare_state
prepare_cloudflare_state-ArePrepared answers cloud cf_list {result} h =
    let (m, e, r) =
      >>=-eq-ok (set_cf_states answers (list_after answers cloud cf_list) cloud.servers) _ h in
    let same : record cloud { servers = m } ≡ result = ok-injective {E = CfError} _ result r in
    (
      ap (λ (c : Cloud). c.settings) same,
      subst (λ (c : Cloud). ArePrepared cloud.servers c.servers) same
          (set_cf_states-ArePrepared answers (list_after answers cloud cf_list) cloud.servers e),
    )
