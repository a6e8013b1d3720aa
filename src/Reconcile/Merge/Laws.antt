-- ===== src/Reconcile/Merge/Laws.antt =====
-- What each reconciliation mode keeps of a server and what it takes.
use xcplane.Common.{
  ℕ, String, Bool, true, false, some, List, [], ◌∷◌, Map, lookup, or_insert, ok, err, is_subset,
  ◌≡◌, ◌⊎◌, inl, inr, refl, subst, arith, string_eq, nat_eq, pair_eq, or_else, lookup-or_insert,
  if◌then◌else◌,
}
use xcplane.Server.{ServerState, offgrid, production, Secrets, KetServer}
use xcplane.Reconcile.Merge.{
  reload_cases, rebase_cases, ReconMode, reload, remap, rebase, server_inbounds, reload_merge,
  remap_merge, merge_subids, rebase_secrets, rebase_merge, merge_server, inbounds_missing,
}

reload_cases-production :
    (a b : ServerState) (old new : KetServer) (set : List (String × ℕ))
    → (a ≡ production) ⊎ (b ≡ production)
    → reload_cases a b old new set ≡ (
        if is_subset (server_inbounds old) set
        then ok (record old { enabled = new.enabled })
        else err (inbounds_missing old.name))
unfolding reload_cases
reload_cases-production offgrid offgrid old new set (inl h) = cc
reload_cases-production offgrid offgrid old new set (inr h) = cc
reload_cases-production offgrid production old new set h = refl
reload_cases-production production offgrid old new set h = refl
reload_cases-production production production old new set h = refl

-- A Reload of a server that is Production in the old or in the new cloud succeeds exactly when the
-- new inbound-set has the old server's inbounds, and then returns the old server with the new
-- `enabled`; else it is the error that names the server.
reload_merge-production :
    (old new : KetServer) (set : List (String × ℕ))
    → (old.state ≡ production) ⊎ (new.state ≡ production)
    → reload_merge old new set ≡ (
        if is_subset (server_inbounds old) set
        then ok (record old { enabled = new.enabled })
        else err (inbounds_missing old.name))
unfolding reload_merge
reload_merge-production old new set h = reload_cases-production old.state new.state old new set h

-- The mother sub-IDs after a merge: the old one where there is one, else the new one.
pub lookup-merge_subids :
    (old new : Map String) (j : String)
    → lookup j (merge_subids old new) ≡ or_else (lookup j old) (lookup j new)
unfolding merge_subids
lookup-merge_subids old [] j = ground arith
lookup-merge_subids old ((k, v) ∷ new) j =
    rw (lookup-merge_subids (or_insert k v old) new j)
      (rw (lookup-or_insert k j v old) (ground arith))

-- The secrets that stay with a server for its lifetime.
pub record SameIdentity (a b : Secrets) : Type 0 where
  pub doh_endpoint : a.doh_endpoint ≡ b.doh_endpoint
  pub xui_username : a.xui_username ≡ b.xui_username
  pub xui_password : a.xui_password ≡ b.xui_password
  pub xui_token : a.xui_token ≡ b.xui_token
  pub xui_webpath : a.xui_webpath ≡ b.xui_webpath
  pub xui_subpath : a.xui_subpath ≡ b.xui_subpath
  pub xui_jsubpath : a.xui_jsubpath ≡ b.xui_jsubpath
  pub subids :
      (j v : String) → lookup j a.mother_subids ≡ some v → lookup j b.mother_subids ≡ some v

pub SameIdentity-refl : (a : Secrets) → SameIdentity a a
SameIdentity-refl a = record {
  doh_endpoint = refl;
  xui_username = refl;
  xui_password = refl;
  xui_token = refl;
  xui_webpath = refl;
  xui_subpath = refl;
  xui_jsubpath = refl;
  subids = λ j v h. h;
}

SameIdentity-rebase : (old new : Secrets) → SameIdentity old (rebase_secrets old new)
unfolding rebase_secrets
SameIdentity-rebase old new = record {
  doh_endpoint = refl;
  xui_username = refl;
  xui_password = refl;
  xui_token = refl;
  xui_webpath = refl;
  xui_subpath = refl;
  xui_jsubpath = refl;
  subids = λ j v h. rw (lookup-merge_subids old.mother_subids new.mother_subids j, h) refl;
}

secrets_of_reload :
    (old new : KetServer) (set : List (String × ℕ)) {merged : KetServer}
    → old.state ≡ production
    → reload_merge old new set ≡ ok merged
    → old.secrets ≡ merged.secrets
secrets_of_reload old new set prod h =
    ground (arith, reload_merge-production old new set (inl prod))

secrets_of_rebase :
    (enabled : Bool) (b : ServerState) (old new : KetServer) {merged : KetServer}
    → rebase_cases enabled production b old new ≡ ok merged
    → (old.secrets ≡ merged.secrets) ⊎ (rebase_secrets old.secrets new.secrets ≡ merged.secrets)
unfolding rebase_cases
secrets_of_rebase true production old new h = inr (ground arith)
secrets_of_rebase false production old new h = inl (ground arith)
secrets_of_rebase enabled offgrid old new h = inl (ground arith)

SameIdentity-cases :
    (old new merged : Secrets)
    → (old ≡ merged) ⊎ (rebase_secrets old new ≡ merged)
    → SameIdentity old merged
SameIdentity-cases old new merged (inl e) = subst (SameIdentity old) e (SameIdentity-refl old)
SameIdentity-cases old new merged (inr e) = subst (SameIdentity old) e (SameIdentity-rebase old new)

rebase_merge-secrets :
    (old new : KetServer) {merged : KetServer}
    → old.state ≡ production
    → rebase_merge old new ≡ ok merged
    → (old.secrets ≡ merged.secrets) ⊎ (rebase_secrets old.secrets new.secrets ≡ merged.secrets)
unfolding rebase_merge
rebase_merge-secrets old new {merged} prod h =
    secrets_of_rebase new.enabled new.state old new {merged = merged}
      (subst (λ a. rebase_cases new.enabled a new.state old new ≡ ok merged) prod h)

-- Whatever the mode, a merge that succeeds on a server that was Production keeps the old secrets:
-- endpoint, user, password, token and paths are the old ones, and so is every mother sub-ID that
-- there was.
pub merge_server-SameIdentity :
    (mode : ReconMode) (old new : KetServer) (set : List (String × ℕ)) {merged : KetServer}
    → old.state ≡ production
    → merge_server mode old new set ≡ ok merged
    → SameIdentity old.secrets merged.secrets
unfolding merge_server
merge_server-SameIdentity reload old new set {merged} prod h =
    SameIdentity-cases old.secrets new.secrets merged.secrets
      (inl (secrets_of_reload old new set prod h))
merge_server-SameIdentity remap old new set {merged} prod h =
    SameIdentity-cases old.secrets new.secrets merged.secrets
      (inl (unfold remap_merge in ground arith))
merge_server-SameIdentity rebase old new set {merged} prod h =
    SameIdentity-cases old.secrets new.secrets merged.secrets
      (rebase_merge-secrets old new {merged = merged} prod h)

reload_cases-name :
    (a b : ServerState) (old new : KetServer) (set : List (String × ℕ)) (n : String)
    {merged : KetServer}
    → old.name ≡ n
    → new.name ≡ n
    → reload_cases a b old new set ≡ ok merged
    → merged.name ≡ n
unfolding reload_cases
reload_cases-name offgrid offgrid old new set n ho hn h = ground (arith, hn, h)
reload_cases-name offgrid production old new set n ho hn h = ground (arith, ho, h)
reload_cases-name production offgrid old new set n ho hn h = ground (arith, ho, h)
reload_cases-name production production old new set n ho hn h = ground (arith, ho, h)

rebase_cases-name :
    (enabled : Bool) (a b : ServerState) (old new : KetServer) (n : String) {merged : KetServer}
    → old.name ≡ n
    → new.name ≡ n
    → rebase_cases enabled a b old new ≡ ok merged
    → merged.name ≡ n
unfolding rebase_cases remap_merge
rebase_cases-name true production production old new n ho hn h = ground (arith, hn, h)
rebase_cases-name false production production old new n ho hn h = ground (arith, ho, h)
rebase_cases-name enabled offgrid offgrid old new n ho hn h = ground (arith, hn, h)
rebase_cases-name enabled production offgrid old new n ho hn h = ground (arith, hn, h)
rebase_cases-name enabled offgrid production old new n ho hn h = ground arith

-- A merge of two servers of a name has that name.
pub merge_server-name :
    (mode : ReconMode) (old new : KetServer) (set : List (String × ℕ)) (n : String)
    {merged : KetServer}
    → old.name ≡ n
    → new.name ≡ n
    → merge_server mode old new set ≡ ok merged
    → merged.name ≡ n
unfolding merge_server
merge_server-name reload old new set n {merged} ho hn h =
    reload_cases-name old.state new.state old new set n {merged = merged} ho hn
      (unfold reload_merge in h)
merge_server-name remap old new set n ho hn h = unfold remap_merge in ground (arith, hn, h)
merge_server-name rebase old new set n {merged} ho hn h =
    rebase_cases-name new.enabled old.state new.state old new n {merged = merged} ho hn
      (unfold rebase_merge in h)
