-- ===== src/Panel/Backups/Isolation.antt =====
-- The backups of one server are not those of another (src/xui/db.rs).
use xcplane.Common.{
  ℕ, zero, suc, ltb, ◌⊎◌, Bool, true, false, not, some, List, [], ◌∷◌, ◌++◌, any, all, ◌≡◌, ◌≢◌,
  ◌↔◌, refl, sym, ap, subst, arith, Bool-cases, inl, inr, In, All, retain-In, In-retain,
}
use xcplane.Naming.{text_eqb, Text, codes, name_char, is_proper}
use xcplane.Panel.Backups.{
  File, text_ltb, has_prefix, has_suffix, backup_name, is_backup, backups_of, greatest, last_of,
  last_xui_db, insert_file, newest_first, drop, remove_files, prune_to, prune_xui_backups,
  delete_xui_backups, retained_xui_dbnum,
}

pub text_eqb_iff : (s t : Text) → (text_eqb s t ≡ true) ↔ (s ≡ t)
unfolding text_eqb
text_eqb_iff [] [] = ground arith
text_eqb_iff [] (d ∷ t) = ground arith
text_eqb_iff (c ∷ s) [] = ground arith
text_eqb_iff (c ∷ s) (d ∷ t) = ground (arith, text_eqb_iff s t)

has_suffix_refl : (t : Text) → has_suffix t t ≡ true
unfolding has_suffix
has_suffix_refl [] = refl
has_suffix_refl (c ∷ t) = ground (arith, text_eqb_iff (c ∷ t) (c ∷ t))

has_suffix-append : (p s t : Text) → has_suffix p t ≡ true → has_suffix p (s ++ t) ≡ true
unfolding has_suffix
has_suffix-append p [] t h = h
has_suffix-append p (c ∷ s) t h = ground (arith, has_suffix-append p s t)

-- Two names without a dash, each before a dash.
has_prefix-name :
    (a b rest : Text)
    → all name_char a ≡ true
    → all name_char b ≡ true
    → (has_prefix (a ++ b'-' ∷ []) (b ++ b'-' ∷ rest) ≡ true) ↔ (a ≡ b)
unfolding has_prefix
has_prefix-name [] [] rest ha hb = ground arith
has_prefix-name [] (d ∷ b) rest ha hb = ground arith
has_prefix-name (c ∷ a) [] rest ha hb = ground arith
has_prefix-name (c ∷ a) (d ∷ b) rest ha hb = ground (arith, has_prefix-name a b rest)

is_proper-name_char : (a : Text) → is_proper a ≡ true → all name_char a ≡ true
unfolding is_proper
is_proper-name_char a h = ground arith

backup_suffix :
    (date : Text) → has_suffix (codes "backup.db") (date ++ codes "-xui-backup.db") ≡ true
backup_suffix date =
    has_suffix-append (codes "backup.db") date (codes "-xui-backup.db")
      (unfold has_suffix in unfold text_eqb in unfold codes in refl)

has_suffix-backup_name :
    (b date : Text) → has_suffix (codes "backup.db") (backup_name b date) ≡ true
unfolding backup_name
has_suffix-backup_name b date =
    has_suffix-append (codes "backup.db") b (b'-' ∷ (date ++ codes "-xui-backup.db")) (
      has_suffix-append (codes "backup.db") (b'-' ∷ []) (date ++ codes "-xui-backup.db")
        (backup_suffix date))

is_backup-backup_name :
    (a b date : Text)
    → is_proper a ≡ true
    → is_proper b ≡ true
    → (is_backup a (backup_name b date) ≡ true) ↔ (a ≡ b)
unfolding is_backup
is_backup-backup_name a b date ha hb =
    let name = backup_name b date in
    let start : (has_prefix (a ++ b'-' ∷ []) name ≡ true) ↔ (a ≡ b) =
      unfold backup_name in
      has_prefix-name a b (date ++ codes "-xui-backup.db") (is_proper-name_char a ha)
        (is_proper-name_char b hb) in
    let end = has_suffix-backup_name b date in ground (arith, start, end)

any-In : {A : Type 0} (p : A → Bool) (l : List A) → any p l ≡ true → (a : A) × In a l × (p a ≡ true)
any-In p [] h = ground (arith, h)
any-In p (x ∷ l) h = elim (Bool-cases (p x)) [
  | inl e ↦ (x, inl refl, e)
  | inr e ↦ let (a, m, q) = any-In p l (ground (arith, h, e)) in (a, inr m, q)
]

pub In-drop : {A : Type 0} (n : ℕ) (l : List A) (a : A) → In a (drop n l) → In a l
In-drop zero l a m = m
In-drop (suc n) [] a m = m
In-drop (suc n) (x ∷ l) a m = inr (In-drop n l a m)

pub In-insert_file :
    (f : File) (l : List File) (g : File) → In g (insert_file f l) → (f ≡ g) ⊎ In g l
unfolding insert_file
In-insert_file f [] g m = m
In-insert_file f (h ∷ l) g m = elim (Bool-cases (ltb f.created h.created)) [
  | inl e ↦ inserted (In-insert_file f l g) (rw e at m)
  | inr e ↦ (rw e at m)
]
  where
    inserted :
        (In g (insert_file f l) → (f ≡ g) ⊎ In g l)
        → (h ≡ g) ⊎ In g (insert_file f l)
        → (f ≡ g) ⊎ ((h ≡ g) ⊎ In g l)
    inserted rec (inl q) = inr (inl q)
    inserted rec (inr n) = elim (rec n) [ inl q ↦ inl q | inr k ↦ inr (inr k) ]

pub In-newest_first : (l : List File) (g : File) → In g (newest_first l) → In g l
unfolding newest_first
In-newest_first [] g m = m
In-newest_first (f ∷ l) g m = elim (In-insert_file f (newest_first l) g m) [
  | inl e ↦ inl e
  | inr k ↦ inr (In-newest_first l g k)
]

-- A file stays when it is not among those that are removed.
In-remove_files :
    (a : Text) (removed files : List File) (f : File)
    → ((r : File) → In r removed → is_backup a r.name ≡ true)
    → In f files
    → is_backup a f.name ≡ false
    → In f (remove_files removed files)
unfolding remove_files
In-remove_files a removed files f all_backups m other =
    In-retain (λ (g : File). not (any (λ (r : File). text_eqb r.name g.name) removed)) files f m
      (elim (Bool-cases (any (λ (r : File). text_eqb r.name f.name) removed)) [
        | inr e ↦ rw e refl
        | inl e ↦
            let (r, i, q) = any-In (λ (r : File). text_eqb r.name f.name) removed e in
            let same : is_backup a f.name ≡ true =
              subst (λ x. is_backup a x ≡ true) ((text_eqb_iff r.name f.name).0 q)
                (all_backups r i) in
            ground (arith, same, other)
      ])

-- What the three functions take for a backup of the server.
backups_of-is_backup :
    (a : Text) (files : List File) (r : File)
    → In r (backups_of a files)
    → is_backup a r.name ≡ true
backups_of-is_backup a files r m = (retain-In (λ (f : File). is_backup a f.name) files r m).1

greatest-In :
    (best : Text) (l : List File)
    → (greatest best l ≡ best) ⊎ ((f : File) × In f l × (greatest best l ≡ f.name))
unfolding greatest
greatest-In best [] = inl refl
greatest-In best (f ∷ l) = elim (Bool-cases (text_ltb f.name best)) [
  | inl e ↦ rw e (elim (greatest-In best l) [ inl q ↦ inl q | inr (g, m, q) ↦ inr (g, inr m, q) ])
  | inr e ↦ rw e (elim (greatest-In f.name l) [
    | inl q ↦ inr (f, inl refl, q)
    | inr (g, m, q) ↦ inr (g, inr m, q)
  ])
]

last_of-In :
    (l : List File) (name : Text) → last_of l ≡ some name → (f : File) × In f l × (f.name ≡ name)
unfolding last_of
last_of-In [] name h = cc
last_of-In (f ∷ l) name h = elim (greatest-In f.name l) [
  | inl q ↦ (f, inl refl, cc)
  | inr (g, m, q) ↦ (g, inr m, cc)
]

last_xui_db-is_backup :
    (a : Text) (files : List File) (name : Text)
    → last_xui_db a files ≡ some name
    → is_backup a name ≡ true
unfolding last_xui_db
last_xui_db-is_backup a files name h =
    let (f, m, q) = last_of-In (backups_of a files) name h in
    subst (λ x. is_backup a x ≡ true) q (backups_of-is_backup a files f m)

All-of_In : {A : Type 0} (P : A → Type 0) (l : List A) → ((a : A) → In a l → P a) → All P l
All-of_In P [] h = tt
All-of_In P (x ∷ l) h = (h x (inl refl), All-of_In P l (λ a m. h a (inr m)))

any-of_In : {A : Type 0} (p : A → Bool) (l : List A) (a : A) → In a l → p a ≡ true → any p l ≡ true
any-of_In p [] a m h = elim m [ ]
any-of_In p (x ∷ l) a (inl e) h = rw (subst (λ y. p y ≡ true) (sym e) h) refl
any-of_In p (x ∷ l) a (inr m) h = ground (arith, any-of_In p l a m h)

delete_xui_backups-none :
    (a : Text) (files : List File)
    → All (λ (g : File). is_backup a g.name ≡ false) (delete_xui_backups a files)
unfolding delete_xui_backups remove_files
delete_xui_backups-none a files =
    All-of_In (λ (g : File). is_backup a g.name ≡ false) (delete_xui_backups a files)
      (λ g m.
        let own = λ (f : File). is_backup a f.name in
        let removed =
          λ (h : File). any (λ (r : File). text_eqb r.name h.name) (backups_of a files) in
        let (i, kept) = retain-In (λ (h : File). not (removed h)) files g m in
        elim (Bool-cases (is_backup a g.name)) [
          | inr e ↦ e
          | inl e ↦
              let hit : removed g ≡ true =
                any-of_In (λ (r : File). text_eqb r.name g.name) (backups_of a files) g
                  (In-retain own files g i e) ((text_eqb_iff g.name g.name).1 refl) in
              ground (arith, hit, kept)
        ])

-- The backups of two servers are apart: what the server of the one proper name deletes and prunes
-- leaves each backup of the other, and its latest backup is none of the other's. Of its own
-- backups a deletion leaves none.
pub backups_isolated :
    (a b date : Text) (files : List File) (f : File)
    → is_proper a ≡ true
    → is_proper b ≡ true
    → a ≢ b
    → In f files
    → f.name ≡ backup_name b date
    → In f (delete_xui_backups a files)
      × In f (prune_xui_backups a files)
      × (last_xui_db a files ≢ some f.name)
      × All (λ (g : File). is_backup a g.name ≡ false) (delete_xui_backups a files)
unfolding delete_xui_backups prune_xui_backups prune_to
backups_isolated a b date files f ha hb different m named =
    let name : is_backup a f.name ≡ is_backup a (backup_name b date) = ap (is_backup a) named in
    let other : is_backup a f.name ≡ false =
      ground (arith, name, is_backup-backup_name a b date ha hb, different) in
    let dbs = newest_first (backups_of a files) in
    (
      In-remove_files a (backups_of a files) files f (backups_of-is_backup a files) m other,
      In-remove_files a (drop retained_xui_dbnum dbs) files f
          (λ r i.
            backups_of-is_backup a files r
              (In-newest_first (backups_of a files) r (In-drop retained_xui_dbnum dbs r i)))
          m other,
      (λ h. ground (arith, last_xui_db-is_backup a files f.name h, other)),
      delete_xui_backups-none a files,
    )
