-- ===== src/Database/Load/Rows.antt =====
-- What the reader of src/db.rs finds under a key, and the rows that are read as they were written.
use xcplane.Common.{
  ℕ, ◌%◌, ◌^◌, String, Bool, true, Option, none, some, List, [], ◌∷◌, contains, map, string_eq,
  pair_eq, map_option, Map, lookup, or_insert, lookup-or_insert, is_some, str_eq, eq_iff,
  if◌then◌else◌, ◌&&◌, ◌≡◌, refl, arith, Bool-cases, inl, inr, or_else, subst, ap, ap₂, ◌∙◌, find?,
  ltb, all, and_split,
}
use native.Mathlib.Nat.{mod-eq_of_lt}
use xcplane.Server.{Inbound, KetServer}
use xcplane.Database.{ServerRow, InboundRow}
use xcplane.Database.Tables.{Table, get}
use xcplane.Database.Update.{inbound_row, group_name}
use xcplane.Database.Update.Rows.{last_group}
use xcplane.Database.Load.{load_inbound, load_inbounds, load_subids, load_server, load_servers}

abbrev pub find_server : String → List KetServer → Option KetServer
find_server n l = find? (λ (s : KetServer). str_eq s.name n) l

abbrev pub find_inbound : String → List Inbound → Option Inbound
find_inbound g l = find? (λ (i : Inbound). str_eq i.name g) l

pub find-load_servers :
    (n : String) (t : Table (String × String) InboundRow) (rows : Table String ServerRow)
    → find_server n (load_servers t rows) ≡ map_option (load_server t n) (get n rows)
unfolding load_servers load_server
find-load_servers n t [] = refl
find-load_servers n t ((j, r) ∷ rows) = elim (Bool-cases (str_eq j n)) [
  | inl e ↦ rw e (ap (λ x. some (load_server t x r)) ((eq_iff j n).0 e))
  | inr e ↦ rw e (find-load_servers n t rows)
]

pub find-load_inbounds :
    (n g : String) (t : Table (String × String) InboundRow)
    → find_inbound g (load_inbounds n t) ≡ map_option (load_inbound g) (get (n, g) t)
unfolding load_inbounds load_inbound
find-load_inbounds n g [] = refl
find-load_inbounds n g (((m, name), r) ∷ t) =
    ground (arith, eq_iff name g, find-load_inbounds n g t)

pub lookup-load_subids :
    (n g : String) (t : Table (String × String) InboundRow) (m : Map String)
    → lookup g (load_subids n t m)
      ≡ or_else (lookup g m) (map_option (λ (r : InboundRow). r.mother_subid) (get (n, g) t))
unfolding load_subids
lookup-load_subids n g [] m = ground arith
lookup-load_subids n g (((k, name), r) ∷ t) m =
    lookup-load_subids n g t (if str_eq k n then or_insert name r.mother_subid m else m)
    ∙ ground (arith, lookup-or_insert name g r.mother_subid m)

pub map-or_else :
    {A B : Type 0} (f : A → B) (a b : Option A)
    → map_option f (or_else a b) ≡ or_else (map_option f a) (map_option f b)
map-or_else f none b = refl
map-or_else f (some x) b = refl

-- The numbers of an inbound are `u16` and `u32`.
abbrev pub fits_inbound : Inbound → Bool
fits_inbound i =
    (ltb i.port (2 ^ 16) && ltb i.total (2 ^ 16))
    && (ltb i.traffic (2 ^ 32) && ltb i.expiry (2 ^ 16))

abbrev pub fits_server : KetServer → Bool
fits_server s = (ltb s.quota (2 ^ 16) && ltb s.ssh_port (2 ^ 16)) && all fits_inbound s.inbounds

pub small : (m n : ℕ) → ltb n m ≡ true → n % m ≡ n
small m n h = mod-eq_of_lt (ground arith)

pub load-inbound_row :
    (i : Inbound) (subid : String)
    → fits_inbound i ≡ true
    → load_inbound i.name (inbound_row i subid) ≡ i
unfolding load_inbound inbound_row
load-inbound_row i subid h =
    rw
      (
        small (2 ^ 16) i.port (ground arith),
        small (2 ^ 16) i.total (ground arith),
        small (2 ^ 32) i.traffic (ground arith),
        small (2 ^ 16) i.expiry (ground arith),
      )
      refl

-- `collect` into a `HashMap`: of two inbounds of a name the later stays.
abbrev pub last_inbound : String → List Inbound → Option Inbound
last_inbound g [] = none
last_inbound g (i ∷ l) = or_else (last_inbound g l) (if str_eq i.name g then some i else none)

-- With a mother sub-ID for the name, the row that is loaded again is the inbound.
pub load-last_group :
    (s : KetServer) (g subid : String) (l : List Inbound)
    → lookup g s.secrets.mother_subids ≡ some subid
    → all fits_inbound l ≡ true
    → map_option (load_inbound g) (last_group s g l) ≡ last_inbound g l
load-last_group s g subid [] e h = refl
load-last_group s g subid (i ∷ l) e h =
    let (here, rest) = and_split (fits_inbound i) (all fits_inbound l) h in
    let ih = load-last_group s g subid l e rest in
    let head : map_option (load_inbound g) (
          if str_eq i.name g
          then map_option (inbound_row i) (lookup i.name s.secrets.mother_subids)
          else none)
        ≡ (if str_eq i.name g then some i else none) =
      elim (Bool-cases (str_eq i.name g)) [
        | inl q ↦
            let name : i.name ≡ g = (eq_iff i.name g).0 q in
            let found : lookup i.name s.secrets.mother_subids ≡ some subid =
              ap (λ k. lookup k s.secrets.mother_subids) name ∙ e in
            let row : load_inbound g (inbound_row i subid) ≡ i =
              subst (λ k. load_inbound k (inbound_row i subid) ≡ i) name
                (load-inbound_row i subid here) in
            rw (q, found) (ap some row)
        | inr q ↦ rw q refl
      ] in
    map-or_else (load_inbound g) (last_group s g l) _ ∙ ap₂ or_else ih head

pub subid-last_group :
    (s : KetServer) (g subid : String) (l : List Inbound)
    → lookup g s.secrets.mother_subids ≡ some subid
    → map_option (λ (r : InboundRow). r.mother_subid) (last_group s g l)
      ≡ (if contains (map group_name l) g then some subid else none)
unfolding inbound_row
subid-last_group s g subid [] e = refl
subid-last_group s g subid (i ∷ l) e =
    ground (arith, eq_iff i.name g, e, subid-last_group s g subid l e)

pub last_group-none :
    (s : KetServer) (g : String) (l : List Inbound)
    → lookup g s.secrets.mother_subids ≡ none
    → last_group s g l ≡ none
last_group-none s g [] e = refl
last_group-none s g (i ∷ l) e = ground (arith, last_group-none s g l e, e, eq_iff i.name g)

pub is_some-last_inbound :
    (g : String) (l : List Inbound) → is_some (last_inbound g l) ≡ contains (map group_name l) g
is_some-last_inbound g [] = refl
is_some-last_inbound g (i ∷ l) = ground (arith, is_some-last_inbound g l)
