-- ===== src/Firewall/Files.antt =====
-- The files that `generate_nftops` (src/nft.rs) writes.
use xcplane.Common.{
  String, Bool, true, Option, none, some, List, [], ◌∷◌, ◌++◌, map, Outcome, ok, err, if◌then◌else◌,
  string_eq, pair_eq, contains, Map, lookup, or_insert, lookup-or_insert, str_eq, eq_iff, ◌&&◌,
  ◌||◌, ◌≡◌, refl, arith, ap, ◌∙◌, sym, subst, All, Bool-cases, inl, inr, or_else, is_ok, all,
  and_split,
}
use mathlib.Core.Path.{fun_ext}
use xcplane.Server.{KetServer}
use xcplane.Actions.{
  AnsibleAction, ssh_setup, full_setup, del_inbound, add_inbound, outblocked_update,
}
use xcplane.Firewall.{
  NftSet, ssh_pre, ssh_post, inbound, out_blocked4, out_blocked6, cloudflare4, cloudflare6,
  set_name, Rule, NftError, Sources, rule_of, FilePath, Ops, Generated, generated, not_generated,
  and_generated, put_rule, sets_of, write_sets, write_actions, generate_nftops,
}
use xcplane.Database.Tables.{Table, get, upsert}
use xcplane.Database.Tables.Laws.{get-upsert}

-- The sets of the actions, in order.
abbrev pub sets : KetServer → List AnsibleAction → List NftSet
sets s [] = []
sets s (action ∷ actions) = sets_of s action ++ sets s actions

-- The sets of the server under their names.
abbrev pub set_named : KetServer → String → NftSet
set_named s name =
    if str_eq name "cloudflare4"
    then cloudflare4
    else if str_eq name "cloudflare6"
    then cloudflare6
    else if str_eq name "inbound"
    then inbound s
    else if str_eq name "sshpre"
    then ssh_pre s
    else if str_eq name "sshpost"
    then ssh_post s
    else if str_eq name "outblocked4"
    then out_blocked4 s.outbound_block
    else out_blocked6 s.outbound_block

abbrev pub IsNamed : KetServer → NftSet → Type 0
IsNamed s set = set_named s (set_name set) ≡ set

sets_of-IsNamed : (s : KetServer) (action : AnsibleAction) → All (IsNamed s) (sets_of s action)
unfolding sets_of set_name
sets_of-IsNamed s ssh_setup = (refl, (refl, tt))
sets_of-IsNamed s full_setup = (refl, (refl, (refl, (refl, (refl, (refl, (refl, tt)))))))
sets_of-IsNamed s del_inbound = (refl, tt)
sets_of-IsNamed s add_inbound = (refl, tt)
sets_of-IsNamed s outblocked_update = (refl, (refl, (refl, (refl, tt))))
sets_of-IsNamed s _ = tt

All-append : {A : Type 0} (P : A → Type 0) (xs ys : List A) → All P xs → All P ys → All P (xs ++ ys)
All-append P [] ys h k = k
All-append P (x ∷ xs) ys h k = (h.0, All-append P xs ys h.1 k)

sets-IsNamed : (s : KetServer) (actions : List AnsibleAction) → All (IsNamed s) (sets s actions)
sets-IsNamed s [] = tt
sets-IsNamed s (action ∷ actions) =
    All-append (IsNamed s) (sets_of s action) (sets s actions) (sets_of-IsNamed s action)
      (sets-IsNamed s actions)

and_generated_assoc :
    (r : Generated) (f g : Ops → Generated)
    → and_generated r (λ o. and_generated (f o) g) ≡ and_generated (and_generated r f) g
and_generated_assoc (generated o) f g = refl
and_generated_assoc (not_generated e o) f g = refl

write_sets-append :
    (src : Sources) (server : String) (xs ys : List NftSet) (o : Ops)
    → write_sets src server (xs ++ ys) o
      ≡ and_generated (write_sets src server xs o) (write_sets src server ys)
unfolding write_sets
write_sets-append src server [] ys o = refl
write_sets-append src server (x ∷ xs) ys o =
    ap (and_generated (put_rule server (set_name x) (rule_of src x) o))
      (fun_ext (write_sets-append src server xs ys))
    ∙ and_generated_assoc (put_rule server (set_name x) (rule_of src x) o)
        (write_sets src server xs) (write_sets src server ys)

write_actions-sets :
    (src : Sources) (s : KetServer) (actions : List AnsibleAction) (o : Ops)
    → write_actions src s actions o ≡ write_sets src s.name (sets s actions) o
unfolding write_actions
write_actions-sets src s [] o = unfold write_sets in refl
write_actions-sets src s (action ∷ actions) o =
    ap (and_generated (write_sets src s.name (sets_of s action) o))
      (fun_ext (write_actions-sets src s actions))
    ∙ sym (write_sets-append src s.name (sets_of s action) (sets s actions) o)

abbrev pub rule_option : Outcome NftError Rule → Option Rule
rule_option (ok rule) = some rule
rule_option (err e) = none

-- Each set of the list has its file, with its rule, and its entry in the map.
pub record Wrote (src : Sources) (s : KetServer) (l : List NftSet) (o o' : Ops) : Type 0 where
  pub ops :
      (k : String)
      → lookup k o'.ops
        ≡ or_else (lookup k o.ops) (if contains (map set_name l) k then some (s.name, k) else none)
  pub files :
      (n k : String)
      → get (n, k) o'.files ≡ (
          if str_eq s.name n && contains (map set_name l) k
          then rule_option (rule_of src (set_named s k))
          else get (n, k) o.files)

is_ok-eq-true : {E A : Type 0} (o : Outcome E A) → is_ok o ≡ true → (a : A) × (o ≡ ok a)
is_ok-eq-true (ok a) h = (a, refl)
is_ok-eq-true (err e) h = ground arith

ops_step :
    (server name k : String) (b : Bool) (m : Map FilePath)
    → or_else (lookup k (or_insert name (server, name) m)) (if b then some (server, k) else none)
      ≡ or_else (lookup k m) (if str_eq name k || b then some (server, k) else none)
ops_step server name k b m = elim (Bool-cases (str_eq name k)) [
  | inl p ↦
      subst
        (λ x.
          or_else (lookup k (or_insert x (server, x) m)) (if b then some (server, k) else none)
          ≡ or_else (lookup k m) (if str_eq x k || b then some (server, k) else none))
        (sym ((eq_iff name k).0 p)) (ground (arith, eq_iff k k, lookup-or_insert k k (server, k) m))
  | inr p ↦ ground (arith, p, lookup-or_insert name k (server, name) m)
]

files_step :
    (src : Sources) (s : KetServer) (set : NftSet) (rule : Rule)
    → rule_of src set ≡ ok rule
    → IsNamed s set
    → (n k : String) (b : Bool) (t : Table FilePath Rule)
    → (if str_eq s.name n && b
        then rule_option (rule_of src (set_named s k))
        else get (n, k) (upsert (s.name, set_name set) rule t))
      ≡ (if str_eq s.name n && (str_eq (set_name set) k || b)
          then rule_option (rule_of src (set_named s k))
          else get (n, k) t)
files_step src s set rule e named n k b t =
    let here : str_eq (set_name set) k ≡ true
        → rule_option (rule_of src (set_named s k)) ≡ some rule =
      λ p.
        ap (λ x. rule_option (rule_of src (set_named s x))) (sym ((eq_iff (set_name set) k).0 p))
        ∙ ap (λ x. rule_option (rule_of src x)) named
        ∙ ap rule_option e in
    let at : get (n, k) (upsert (s.name, set_name set) rule t)
        ≡ (if str_eq s.name n && str_eq (set_name set) k then some rule else get (n, k) t) =
      get-upsert (s.name, set_name set) (n, k) rule t in
    elim (Bool-cases (str_eq (set_name set) k)) [
      | inl p ↦ rw (at, p, here p) (ground arith)
      | inr p ↦ rw (at, p) (ground arith)
    ]

write_sets-Wrote :
    (src : Sources) (s : KetServer) (l : List NftSet) (o : Ops)
    → All (IsNamed s) l
    → all (λ set. is_ok (rule_of src set)) l ≡ true
    → (o' : Ops) × (write_sets src s.name l o ≡ generated o') × Wrote src s l o o'
unfolding write_sets
write_sets-Wrote src s [] o named h =
    (o, refl, record { ops = λ k. ground arith; files = λ n k. ground arith })
write_sets-Wrote src s (set ∷ l) o named h =
    let (here, rest) =
      and_split (is_ok (rule_of src set)) (all (λ set. is_ok (rule_of src set)) l) h in
    let (rule, e) = is_ok-eq-true (rule_of src set) here in
    let mid : Ops = record {
      ops = or_insert (set_name set) (s.name, set_name set) o.ops;
      files = upsert (s.name, set_name set) rule o.files;
    } in
    let (o', made, wrote) = write_sets-Wrote src s l mid named.1 rest in
    (
      o',
      rw e (unfold put_rule in made),
      record {
        ops =
            λ k. wrote.ops k ∙ ops_step s.name (set_name set) k (contains (map set_name l) k) o.ops;
        files = λ n k.
            wrote.files n k
            ∙ files_step src s set rule e named.0 n k (contains (map set_name l) k) o.files;
      },
    )

-- When each rule can be made, `generate_nftops` gives an entry for each set of the actions, and no
-- other, and the file of that entry has the rule of the set; the other files stay.
pub generate_nftops-Wrote :
    (src : Sources) (actions : List AnsibleAction) (s : KetServer) (files : Table FilePath Rule)
    → all (λ set. is_ok (rule_of src set)) (sets s actions) ≡ true
    → (o : Ops) × (generate_nftops src actions s files ≡ generated o)
      × Wrote src s (sets s actions) (record { ops = []; files = files }) o
unfolding generate_nftops
generate_nftops-Wrote src actions s files h =
    let start : Ops = record { ops = []; files = files } in
    let (o, made, wrote) =
      write_sets-Wrote src s (sets s actions) start (sets-IsNamed s actions) h in
    (o, write_actions-sets src s actions start ∙ made, wrote)
