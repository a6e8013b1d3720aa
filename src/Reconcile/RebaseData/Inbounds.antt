-- ===== src/Reconcile/RebaseData/Inbounds.antt =====
-- The comparison of the inbounds of one server in `create_rebase_data` of src/cloud/reconcile.rs.
use xcplane.Common.{
  String, Bool, true, false, Option, none, some, List, [], ◌∷◌, ◌++◌, ok, all, str_eq, ◌≡◌, refl,
  ◌&&◌, ◌||◌, not, arith, Bool-cases, inl, inr, append_assoc, append-nil, ◌↔◌, is_ok, and_split,
}
use xcplane.Server.{Inbound, inbound_eqb, KetServer}
use xcplane.Server.Methods.{subhostname}
use xcplane.Reconcile.RebaseData.{
  Changes, diff_inbound, diff_inbounds, check_tls, is_tls, inbound_named,
}

-- Whether one inbound may be as the two clouds have it: it stays the same, with the subscription
-- hostname where it is a TLS inbound, or is deleted with the force flag, or is added.
abbrev pub is_allowed : Bool → KetServer → KetServer → Option Inbound → Option Inbound → Bool
is_allowed forced curr new (some a) (some b) =
    inbound_eqb a b && (not (is_tls a) || str_eq (subhostname curr) (subhostname new))
is_allowed forced curr new (some a) none = forced
is_allowed forced curr new none b = true

-- The inbounds of the first list, by name, that the second has not.
abbrev pub only_first : Option Inbound → Option Inbound → List Inbound
only_first (some a) none = a ∷ []
only_first (some a) (some b) = []
only_first none b = []

module _ (forced : Bool) (curr new : KetServer) where
  abbrev pub all_allowed : List String → Bool
  all_allowed names =
      all
        (λ n.
          is_allowed forced curr new (inbound_named n curr.inbounds) (inbound_named n new.inbounds))
        names

module _ (curr new : KetServer) where
  abbrev pub removed_of : List String → List Inbound
  removed_of [] = []
  removed_of (n ∷ names) =
      only_first (inbound_named n curr.inbounds) (inbound_named n new.inbounds) ++ removed_of names

  abbrev pub added_of : List String → List Inbound
  added_of [] = []
  added_of (n ∷ names) =
      only_first (inbound_named n new.inbounds) (inbound_named n curr.inbounds) ++ added_of names

diff_inbound-allowed :
    (forced : Bool) (curr new : KetServer) (a b : Option Inbound) (c : Changes)
    → is_allowed forced curr new a b ≡ true
    → diff_inbound forced curr new a b c
      ≡ ok (record { removed = c.removed ++ only_first a b; added = c.added ++ only_first b a })
unfolding diff_inbound check_tls
diff_inbound-allowed forced curr new (some a) (some b) c h =
    ground (arith, append-nil c.removed, append-nil c.added)
diff_inbound-allowed true curr new (some a) none c h = ground (arith, append-nil c.added)
diff_inbound-allowed false curr new (some a) none c h = ground arith
diff_inbound-allowed forced curr new none (some b) c h = ground (arith, append-nil c.removed)
diff_inbound-allowed forced curr new none none c h =
    ground (arith, append-nil c.removed, append-nil c.added)

diff_inbound-refused :
    (forced : Bool) (curr new : KetServer) (a b : Option Inbound) (c : Changes)
    → is_allowed forced curr new a b ≡ false
    → is_ok (diff_inbound forced curr new a b c) ≡ false
unfolding diff_inbound check_tls
diff_inbound-refused forced curr new (some a) (some b) c h = ground arith
diff_inbound-refused true curr new (some a) none c h = ground arith
diff_inbound-refused false curr new (some a) none c h = ground arith
diff_inbound-refused forced curr new none b c h = ground arith

diff_inbounds-allowed :
    (forced : Bool) (curr new : KetServer) (names : List String) (c : Changes)
    → all_allowed forced curr new names ≡ true
    → diff_inbounds forced curr new names c
      ≡ ok (record {
        removed = c.removed ++ removed_of curr new names;
        added = c.added ++ added_of curr new names;
      })
unfolding diff_inbounds
diff_inbounds-allowed forced curr new [] c h =
    ground (arith, append-nil c.removed, append-nil c.added)
diff_inbounds-allowed forced curr new (n ∷ names) c h =
    let a = inbound_named n curr.inbounds in
    let b = inbound_named n new.inbounds in
    let (p, q) = and_split (is_allowed forced curr new a b) (all_allowed forced curr new names) h in
    rw (diff_inbound-allowed forced curr new a b c p) (
      rw
        (diff_inbounds-allowed forced curr new names
          (record { removed = c.removed ++ only_first a b; added = c.added ++ only_first b a }) q)
        (rw (append_assoc c.removed (only_first a b) (removed_of curr new names))
          (rw (append_assoc c.added (only_first b a) (added_of curr new names)) refl)))

diff_inbounds-refused :
    (forced : Bool) (curr new : KetServer) (names : List String) (c : Changes)
    → all_allowed forced curr new names ≡ false
    → is_ok (diff_inbounds forced curr new names c) ≡ false
unfolding diff_inbounds
diff_inbounds-refused forced curr new [] c h = ground arith
diff_inbounds-refused forced curr new (n ∷ names) c h =
    let a = inbound_named n curr.inbounds in
    let b = inbound_named n new.inbounds in
    elim (Bool-cases (is_allowed forced curr new a b)) [
      | inl p ↦
          rw (diff_inbound-allowed forced curr new a b c p)
            (diff_inbounds-refused forced curr new names _ (ground (arith, p, h)))
      | inr p ↦ ground (arith, diff_inbound-refused forced curr new a b c p)
    ]

-- The comparison of the inbounds of a server succeeds exactly when every inbound is allowed as the
-- two clouds have it; it then returns the deleted and the added inbounds in the order of the names.
pub diff_inbounds_lem :
    (forced : Bool) (curr new : KetServer) (names : List String) (c : Changes)
    → (diff_inbounds forced curr new names (record { removed = []; added = [] }) ≡ ok c) ↔ (
        (all_allowed forced curr new names ≡ true)
        × (record { removed = removed_of curr new names; added = added_of curr new names } ≡ c))
diff_inbounds_lem forced curr new names c = elim (Bool-cases (all_allowed forced curr new names)) [
  | inl p ↦
      ground
        (arith, diff_inbounds-allowed forced curr new names (record { removed = []; added = [] }) p)
  | inr p ↦
      ground
        (arith, diff_inbounds-refused forced curr new names (record { removed = []; added = [] }) p)
]
