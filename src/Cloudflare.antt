-- ===== src/Cloudflare.antt =====
-- src/cloudflare.rs: the choice of a zone, `set_cf_state`, `prepare_cloudflare_state`. The answers
-- of the Cloudflare service are arguments (`Answers`): its zones, the IDs of the ruleset and of the
-- rule of a server, and the ID of the block list. A domain and a zone name are ASCII texts, for
-- which `to_lowercase` is the ASCII lower case.
pub mod Zone
pub mod States
pub mod Account
use xcplane.Common.{
  is_some, ℕ, ◌+◌, String, Bool, true, false, not, Option, none, some, List, [], ◌∷◌, ◌++◌, Outcome,
  ok, err, ok_or, all, any, retain, is_subset, map, str_eq, nat_eq, ltb, leb, nat_eqb, ◌>>=◌,
  if◌then◌else◌, ◌&&◌, ◌||◌,
}
use xcplane.Naming.{text_eqb, Text, codes, byte_len, is_ascii_uppercase}
use xcplane.Server.{Inbound, CfState, CfListData, KetServer, Cloud, cloudflare_compatible}
use xcplane.Server.Kind.{super_name}

-- `CFZone` with its account.
pub record CfZone : Type 0 where
  pub id : String
  pub name : String
  pub account_name : String
  pub account_id : String

pub data CfError : Type 0 where
  no_zone : String → CfError
  no_list : CfError
  no_rule : String → CfError
  no_server : CfError  -- the index panics
  service : String → CfError  -- an error of the service

unfoldable pub to_lowercase : Text → Text
to_lowercase [] = []
to_lowercase (c ∷ s) = (if is_ascii_uppercase c then c + 32 else c) ∷ to_lowercase s

add_char : ℕ → Option Text → Option Text
add_char c none = none
add_char c (some s) = some (c ∷ s)

-- `s.strip_suffix(suffix)`
unfoldable pub strip_suffix : Text → Text → Option Text
unfolding text_eqb add_char
strip_suffix suffix [] = if text_eqb [] suffix then some [] else none
strip_suffix suffix (c ∷ s) =
    let rest = strip_suffix suffix s in if text_eqb (c ∷ s) suffix then some [] else add_char c rest

unfoldable pub zone_matches : Text → CfZone → Bool
unfolding text_eqb strip_suffix to_lowercase codes
zone_matches domain zone =
    let name = to_lowercase (codes zone.name) in
    text_eqb name domain || is_some (strip_suffix (b'.' ∷ name) domain)

-- `max_by_key(|zone| zone.name.len())`: of several greatest elements the last.
unfoldable pub longest : List CfZone → Option CfZone → Option CfZone
unfolding byte_len codes
longest [] best = best
longest (z ∷ zones) none = longest zones (some z)
longest (z ∷ zones) (some b) =
    let with_z = longest zones (some z) in
    let with_b = longest zones (some b) in
    if leb (byte_len (codes b.name)) (byte_len (codes z.name)) then with_z else with_b

unfoldable pub get_cf_zone : List CfZone → KetServer → Outcome CfError CfZone
unfolding zone_matches longest to_lowercase
get_cf_zone zones s =
    ok_or (longest (retain (zone_matches (to_lowercase (codes s.domain))) zones) none)
      (no_zone s.domain)

-- `s.split('.').count()`
unfoldable pub split_count : Text → ℕ
split_count [] = 1
split_count (c ∷ s) = if nat_eqb c b'.' then 1 + split_count s else split_count s

abbrev pub and_then {ℓ κ} : {A : Type ℓ} {B : Type κ} → Option A → (A → Option B) → Option B
and_then none f = none
and_then (some a) f = f a

-- `option.map(|s| s.split('.').count()).unwrap_or(0)`
count_or_zero : Option Text → ℕ
unfolding split_count
count_or_zero none = 0
count_or_zero (some s) = split_count s

unfoldable pub nested_subdomains : Text → Text → ℕ
unfolding strip_suffix count_or_zero
nested_subdomains domain zone_name =
    count_or_zero (and_then (strip_suffix zone_name domain) (strip_suffix (b'.' ∷ [])))

unfoldable pub is_too_deep : Text → Text → Bool
unfolding nested_subdomains
is_too_deep domain zone_name = ltb 0 (nested_subdomains domain zone_name)

abbrev pub cloudflare_sports : List ℕ
cloudflare_sports = 2053 ∷ 2083 ∷ 2087 ∷ 2096 ∷ 8443 ∷ []

-- The inbounds without the super inbound.
unfoldable pub proper_inbounds : KetServer → List Inbound
proper_inbounds s = retain (λ (inb : Inbound). not (str_eq inb.name super_name)) s.inbounds

unfoldable pub is_cloudflare_only : KetServer → Bool
unfolding proper_inbounds cloudflare_compatible
is_cloudflare_only s =
    is_subset (map (λ (inb : Inbound). inb.port) (proper_inbounds s)) cloudflare_sports
    && all (λ (inb : Inbound). cloudflare_compatible inb.kind) (proper_inbounds s)

pub record Answers : Type 0 where
  pub zones : List CfZone
  pub cf_ruleset : KetServer → String → Outcome CfError String
  pub cf_rule : KetServer → String → String → Outcome CfError String
  pub block_list : Cloud → Outcome CfError String

-- The list data of a server, from its zone and the IDs.
abbrev pub with_ids : CfZone → String → String → String → CfListData
with_ids zone ruleset_id rule_id list_id = record {
  account_name = zone.account_name;
  account_id = zone.account_id;
  ruleset_id = ruleset_id;
  rule_id = rule_id;
  list_id = list_id;
}

-- `self.cfstate.store(...)`
abbrev pub with_state : CfZone → Option CfListData → KetServer → KetServer
with_state zone list_data s = record s {
  cfstate = some (record {
    zone_name = zone.name;
    zone_id = zone.id;
    too_deep = is_too_deep (to_lowercase (codes s.domain)) (codes zone.name);
    cloudflare_only = is_cloudflare_only s;
    list_data = list_data;
  });
}

-- `cf_list_data`
list_data_of :
    Answers → Option String → CfZone → KetServer → Bool → Outcome CfError (Option CfListData)
list_data_of answers cf_list zone s false = ok none
list_data_of answers cf_list zone s true = do
  ruleset_id ← answers.cf_ruleset s zone.id
  rule_id ← answers.cf_rule s zone.id ruleset_id
  list_id ← ok_or cf_list no_list
  ok (some (with_ids zone ruleset_id rule_id list_id))

unfoldable pub set_cf_state : Answers → Option String → KetServer → Outcome CfError KetServer
unfolding get_cf_zone list_data_of is_too_deep is_cloudflare_only
set_cf_state answers cf_list s = do
  zone ← get_cf_zone answers.zones s
  list_data ← list_data_of answers cf_list zone s s.cloudflare_proxied
  ok (with_state zone list_data s)

-- The loop over the servers.
unfoldable pub set_cf_states :
    Answers → Option String → List KetServer → Outcome CfError (List KetServer)
unfolding set_cf_state
set_cf_states answers cf_list [] = ok []
set_cf_states answers cf_list (s ∷ servers) = do
  s' ← set_cf_state answers cf_list s
  rest ← set_cf_states answers cf_list servers
  ok (s' ∷ rest)

-- An error in the setup of the list is logged only.
list_or_old : Outcome CfError String → Option String → Option String
list_or_old (ok id) old = some id
list_or_old (err e) old = old

unfoldable pub list_after : Answers → Cloud → Option String → Option String
unfolding list_or_old
list_after answers cloud old =
    if any (λ (s : KetServer). s.cloudflare_proxied) cloud.servers
    then list_or_old (answers.block_list cloud) old
    else old

-- The block list after the call, and the cloud with its states.
unfoldable pub prepare_cloudflare_state :
    Answers → Cloud → Option String → Option String × Outcome CfError Cloud
unfolding list_after set_cf_states
prepare_cloudflare_state answers cloud cf_list =
    let after = list_after answers cloud cf_list in
    (
      after,
      set_cf_states answers after cloud.servers >>= λ servers.
          ok (record cloud { servers = servers }),
    )
