-- ===== src/Cloudflare/Zone.antt =====
-- The choice of a zone in src/cloudflare.rs.
use xcplane.Common.{
  ◌≤◌, ◌<◌, ◌≡◌, ◌↔◌, refl, true, false, none, some, List, [], ◌∷◌, ◌++◌, arith, retain, Bool-cases,
  inl, inr, leb, ap, ◌∙◌, length, length-append, ok, append_assoc, subst, Option-cases, In,
  retain-In, In-retain, ◌⊎◌, sym, Outcome, err, ok_or,
}
use xcplane.Naming.{text_eqb, Text, codes, byte_len}
use xcplane.Server.{KetServer}
use xcplane.Cloudflare.{
  CfError, CfZone, strip_suffix, add_char, longest, split_count, nested_subdomains, is_too_deep,
  count_or_zero, get_cf_zone, zone_matches, to_lowercase, no_zone,
}

text_eqb_iff : (s t : Text) → (text_eqb s t ≡ true) ↔ (s ≡ t)
unfolding text_eqb
text_eqb_iff [] [] = ground arith
text_eqb_iff [] (d ∷ t) = ground arith
text_eqb_iff (c ∷ s) [] = ground arith
text_eqb_iff (c ∷ s) (d ∷ t) = ground (arith, text_eqb_iff s t)

length-ne : (s t : Text) → length s < length t → text_eqb t s ≡ false
length-ne s t h = elim (Bool-cases (text_eqb t s)) [
  | inl q ↦ ground (arith, ap length ((text_eqb_iff t s).0 q))
  | inr q ↦ q
]

strip_suffix-some :
    (suffix s : Text) {p : Text} → strip_suffix suffix s ≡ some p → s ≡ (p ++ suffix)
unfolding strip_suffix
strip_suffix-some suffix [] {p} h = ground (arith, text_eqb_iff [] suffix)
strip_suffix-some suffix (c ∷ s) {p} h = elim (Bool-cases (text_eqb (c ∷ s) suffix)) [
  | inl q ↦ ground (arith, (text_eqb_iff (c ∷ s) suffix).0 q)
  | inr q ↦ elim (Option-cases (strip_suffix suffix s)) [
    | inl n ↦ unfold add_char in ground arith
    | inr (t, e) ↦ unfold add_char in ground (arith, strip_suffix-some suffix s {p = t} e)
  ]
]

strip_suffix-append : (p suffix : Text) → strip_suffix suffix (p ++ suffix) ≡ some p
unfolding strip_suffix
strip_suffix-append [] [] = unfold text_eqb in refl
strip_suffix-append [] (c ∷ s) = ground (arith, (text_eqb_iff (c ∷ s) (c ∷ s)).1 refl)
strip_suffix-append (c ∷ p) suffix =
    rw (length-ne suffix (c ∷ p ++ suffix) (omega (arith, length-append p suffix)))
      (rw (strip_suffix-append p suffix) (unfold add_char in refl))

split_count-positive : (s : Text) → 0 < split_count s
unfolding split_count
split_count-positive [] = omega arith
split_count-positive (c ∷ s) = ground (arith, split_count-positive s)

nested-some :
    (zone_name p : Text) → nested_subdomains (p ++ b'.' ∷ zone_name) zone_name ≡ split_count p
unfolding nested_subdomains count_or_zero
nested-some zone_name p = rw (← append_assoc p (b'.' ∷ []) zone_name) (
    rw (strip_suffix-append (p ++ b'.' ∷ []) zone_name)
      (rw (strip_suffix-append p (b'.' ∷ [])) refl))

nested-positive :
    (domain zone_name : Text)
    → 0 < nested_subdomains domain zone_name
    → (p : Text) × (domain ≡ (p ++ b'.' ∷ zone_name))
unfolding nested_subdomains count_or_zero
nested-positive domain zone_name h = elim (Option-cases (strip_suffix zone_name domain)) [
  | inl e ↦ ground (arith, e)
  | inr (t, e) ↦ elim (Option-cases (strip_suffix (b'.' ∷ []) t)) [
    | inl f ↦ ground (arith, e, f)
    | inr (p, f) ↦ (
      p,
      strip_suffix-some zone_name domain e
          ∙ ap (λ (x : Text). x ++ zone_name) (strip_suffix-some (b'.' ∷ []) t f)
          ∙ append_assoc p (b'.' ∷ []) zone_name,
    )
  ]
]

-- A domain is nested too deep in a zone exactly when it is a proper subdomain of the zone: some
-- text, a dot and the name of the zone.
pub is_too_deep_iff :
    (domain zone_name : Text)
    → (is_too_deep domain zone_name ≡ true) ↔ ((p : Text) × (domain ≡ (p ++ b'.' ∷ zone_name)))
unfolding is_too_deep
is_too_deep_iff domain zone_name = (
  λ h. nested-positive domain zone_name (ground arith),
  λ (p, e). rw e (rw (nested-some zone_name p) (ground (arith, split_count-positive p))),
)

-- The longest of a list and a first candidate.
longest_lem :
    (zones : List CfZone) (b : CfZone)
    → (z : CfZone) × (longest zones (some b) ≡ some z)
      × In z (b ∷ zones)
      × ((y : CfZone) → In y (b ∷ zones) → byte_len (codes y.name) ≤ byte_len (codes z.name))
unfolding longest
longest_lem [] b =
    (b, refl, inl refl, λ y n. elim n [ inl e ↦ rw (← e) (omega arith) | inr m ↦ elim m [ ] ])
longest_lem (x ∷ zones) b =
    elim (Bool-cases (leb (byte_len (codes b.name)) (byte_len (codes x.name)))) [
      | inl q ↦
          let (z, e, m, top) = longest_lem zones x in
          (
            z,
            rw q e,
            inr m,
            λ y n. elim n [ inl f ↦ rw (← f) (ground (arith, top x (inl refl))) | inr k ↦ top y k ],
          )
      | inr q ↦
          let (z, e, m, top) = longest_lem zones b in
          (
            z,
            rw q e,
            elim m [ inl f ↦ inl f | inr n ↦ inr (inr n) ],
            λ y n. elim n [
              | inl f ↦ top y (inl f)
              | inr (inl f) ↦ rw (← f) (ground (arith, top b (inl refl)))
              | inr (inr k) ↦ top y (inr k)
            ],
          )
    ]

-- The domain is the name, or some text, a dot and the name.
abbrev pub LiesIn : Text → Text → Type 0
LiesIn domain name = (domain ≡ name) ⊎ ((p : Text) × (domain ≡ (p ++ b'.' ∷ name)))

zone_matches-LiesIn :
    (domain : Text) (z : CfZone)
    → (zone_matches domain z ≡ true) ↔ LiesIn domain (to_lowercase (codes z.name))
unfolding zone_matches
zone_matches-LiesIn domain z =
    let name = to_lowercase (codes z.name) in
    (
      (λ h. elim (Bool-cases (text_eqb name domain)) [
        | inl q ↦ inl (sym ((text_eqb_iff name domain).0 q))
        | inr q ↦ elim (Option-cases (strip_suffix (b'.' ∷ name) domain)) [
          | inl e ↦ ground (arith, h, q, e)
          | inr (p, e) ↦ inr (p, strip_suffix-some (b'.' ∷ name) domain e)
        ]
      ]),
      λ l. elim l [
        | inl e ↦ ground (arith, (text_eqb_iff name domain).1 (sym e))
        | inr (p, e) ↦ rw e (rw (strip_suffix-append p (b'.' ∷ name)) (ground arith))
      ],
    )

-- A zone of the list that the domain lies in, such that no such zone has a longer name; no zone
-- only where the domain lies in none.
pub IsChoice : List CfZone → Text → Outcome CfError CfZone → Type 0
IsChoice zones domain (ok z) =
    In z zones
    × LiesIn domain (to_lowercase (codes z.name))
    × ((y : CfZone)
        → In y zones
        → LiesIn domain (to_lowercase (codes y.name))
        → byte_len (codes y.name) ≤ byte_len (codes z.name))
IsChoice zones domain (err e) =
    (y : CfZone) → In y zones → LiesIn domain (to_lowercase (codes y.name)) → ⊥

chosen-IsChoice :
    (zones chosen : List CfZone) (domain : Text) (e : CfError)
    → retain (zone_matches domain) zones ≡ chosen
    → IsChoice zones domain (ok_or (longest chosen none) e)
unfolding longest IsChoice
chosen-IsChoice zones [] domain e h = λ y m lies.
    subst (In y) h
      (In-retain (zone_matches domain) zones y m ((zone_matches-LiesIn domain y).1 lies))
chosen-IsChoice zones (x ∷ chosen) domain e h =
    let (z, found, m, top) = longest_lem chosen x in
    let (i, matches) = retain-In (zone_matches domain) zones z (subst (In z) (sym h) m) in
    rw found (
      i,
      (zone_matches-LiesIn domain z).0 matches,
      λ y n lies. top y (
          subst (In y) h
            (In-retain (zone_matches domain) zones y n ((zone_matches-LiesIn domain y).1 lies))),
    )

-- The zone of a server is a zone of the account that the server's domain lies in, and no such zone
-- has a longer name; the call fails exactly when the domain lies in no zone. The case of letters
-- does not count.
pub get_cf_zone_lem :
    (zones : List CfZone) (s : KetServer)
    → IsChoice zones (to_lowercase (codes s.domain)) (get_cf_zone zones s)
unfolding get_cf_zone
get_cf_zone_lem zones s =
    let domain = to_lowercase (codes s.domain) in
    chosen-IsChoice zones (retain (zone_matches domain) zones) domain (no_zone s.domain) refl
