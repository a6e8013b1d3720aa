-- ===== src/Panel/Backups/Pruning.antt =====
-- Which backups `prune_xui_backups` keeps (src/xui/db.rs).
use xcplane.Common.{
  ℕ, zero, suc, ◌≤◌, Bool, true, false, not, List, [], ◌∷◌, any, retain, ltb, ◌||◌, ◌≡◌, ◌↔◌, refl,
  sym, ap, subst, ◌∙◌, arith, Bool-cases, inl, inr, In, All, retain-In, In-retain,
}
use xcplane.Naming.{text_eqb, Text}
use xcplane.Panel.Backups.{
  File, is_backup, backups_of, insert_file, newest_first, take, drop, remove_files, prune_to,
}
use xcplane.Panel.Backups.Isolation.{text_eqb_iff}

abbrev pub has_name : List File → Text → Bool
has_name l name = any (λ (r : File). text_eqb r.name name) l

-- A directory has one file of a name.
abbrev pub OneOfEach : List File → Type 0
OneOfEach [] = Unit
OneOfEach (f ∷ l) = (has_name l f.name ≡ false) × OneOfEach l

abbrev pub AreNewestFirst : List File → Type 0
AreNewestFirst [] = Unit
AreNewestFirst (f ∷ l) = All (λ (g : File). g.created ≤ f.created) l × AreNewestFirst l

has_name-retain :
    (p : File → Bool) (l : List File) (name : Text)
    → has_name l name ≡ false
    → has_name (retain p l) name ≡ false
has_name-retain p [] name h = refl
has_name-retain p (f ∷ l) name h = elim (Bool-cases (p f)) [
  | inl e ↦ rw e (ground (arith, h, has_name-retain p l name))
  | inr e ↦ rw e (has_name-retain p l name (ground (arith, h)))
]

OneOfEach-retain : (p : File → Bool) (l : List File) → OneOfEach l → OneOfEach (retain p l)
OneOfEach-retain p [] h = tt
OneOfEach-retain p (f ∷ l) (n, h) = elim (Bool-cases (p f)) [
  | inl e ↦ rw e (has_name-retain p l f.name n, OneOfEach-retain p l h)
  | inr e ↦ rw e (OneOfEach-retain p l h)
]

has_name-insert_file :
    (f : File) (l : List File) (name : Text)
    → has_name (insert_file f l) name ≡ (text_eqb f.name name || has_name l name)
unfolding insert_file
has_name-insert_file f [] name = refl
has_name-insert_file f (g ∷ l) name = elim (Bool-cases (ltb f.created g.created)) [
  | inl e ↦ rw e (ground (arith, has_name-insert_file f l name))
  | inr e ↦ rw e refl
]

text_eqb_sym : (s t : Text) → text_eqb s t ≡ text_eqb t s
text_eqb_sym s t = elim (Bool-cases (text_eqb s t)) [
  | inl p ↦ p ∙ sym ((text_eqb_iff t s).1 (sym ((text_eqb_iff s t).0 p)))
  | inr p ↦ ground (arith, p, text_eqb_iff s t, text_eqb_iff t s)
]

OneOfEach-insert_file :
    (f : File) (l : List File)
    → has_name l f.name ≡ false
    → OneOfEach l
    → OneOfEach (insert_file f l)
unfolding insert_file
OneOfEach-insert_file f [] n h = (n, h)
OneOfEach-insert_file f (g ∷ l) n (m, h) = elim (Bool-cases (ltb f.created g.created)) [
  | inl e ↦ rw e (
    (has_name-insert_file f l g.name ∙ ground (arith, n, m, text_eqb_sym f.name g.name)),
    OneOfEach-insert_file f l (ground (arith, n)) h,
  )
  | inr e ↦ rw e (n, (m, h))
]

has_name-newest_first :
    (l : List File) (name : Text) → has_name (newest_first l) name ≡ has_name l name
unfolding newest_first
has_name-newest_first [] name = refl
has_name-newest_first (f ∷ l) name =
    has_name-insert_file f (newest_first l) name
    ∙ ap (λ b. text_eqb f.name name || b) (has_name-newest_first l name)

OneOfEach-newest_first : (l : List File) → OneOfEach l → OneOfEach (newest_first l)
unfolding newest_first
OneOfEach-newest_first [] h = tt
OneOfEach-newest_first (f ∷ l) (n, h) =
    OneOfEach-insert_file f (newest_first l) (has_name-newest_first l f.name ∙ n)
      (OneOfEach-newest_first l h)

All-insert_file :
    (n : ℕ) (f : File) (l : List File)
    → f.created ≤ n
    → All (λ (g : File). g.created ≤ n) l
    → All (λ (g : File). g.created ≤ n) (insert_file f l)
unfolding insert_file
All-insert_file n f [] h a = (h, tt)
All-insert_file n f (g ∷ l) h (k, a) = elim (Bool-cases (ltb f.created g.created)) [
  | inl e ↦ rw e (k, All-insert_file n f l h a)
  | inr e ↦ rw e (h, (k, a))
]

All-le :
    (m n : ℕ) (l : List File)
    → m ≤ n
    → All (λ (g : File). g.created ≤ m) l
    → All (λ (g : File). g.created ≤ n) l
All-le m n [] h a = tt
All-le m n (g ∷ l) h (k, a) = (omega arith, All-le m n l h a)

AreNewestFirst-insert_file :
    (f : File) (l : List File) → AreNewestFirst l → AreNewestFirst (insert_file f l)
unfolding insert_file
AreNewestFirst-insert_file f [] h = (tt, tt)
AreNewestFirst-insert_file f (g ∷ l) (a, h) = elim (Bool-cases (ltb f.created g.created)) [
  | inl e ↦
      rw e (All-insert_file g.created f l (ground (arith, e)) a, AreNewestFirst-insert_file f l h)
  | inr e ↦
      let le : g.created ≤ f.created = ground (arith, e) in
      rw e ((le, All-le g.created f.created l le a), (a, h))
]

AreNewestFirst-newest_first : (l : List File) → AreNewestFirst (newest_first l)
unfolding newest_first
AreNewestFirst-newest_first [] = tt
AreNewestFirst-newest_first (f ∷ l) =
    AreNewestFirst-insert_file f (newest_first l) (AreNewestFirst-newest_first l)

-- A file of the list is before the cut just when its name is not behind it.
has_name-In : (l : List File) (f : File) → In f l → has_name l f.name ≡ true
has_name-In [] f m = elim m [ ]
has_name-In (g ∷ l) f (inl e) =
    rw ((text_eqb_iff g.name f.name).1 (ap (λ (x : File). x.name) e)) refl
has_name-In (g ∷ l) f (inr m) = ground (arith, has_name-In l f m)

In-take : (n : ℕ) (l : List File) (f : File) → In f (take n l) → In f l
In-take zero l f m = elim m [ ]
In-take (suc n) [] f m = elim m [ ]
In-take (suc n) (x ∷ l) f (inl e) = inl e
In-take (suc n) (x ∷ l) f (inr m) = inr (In-take n l f m)

has_name-drop :
    (n : ℕ) (l : List File) (name : Text)
    → has_name l name ≡ false
    → has_name (drop n l) name ≡ false
has_name-drop zero l name h = h
has_name-drop (suc n) [] name h = refl
has_name-drop (suc n) (x ∷ l) name h = has_name-drop n l name (ground (arith, h))

take_iff :
    (n : ℕ) (l : List File) (f : File)
    → OneOfEach l
    → In f l
    → (has_name (drop n l) f.name ≡ false) ↔ In f (take n l)
take_iff zero l f h m = ((λ e. ground (arith, e, has_name-In l f m)), (λ i. elim i [ ]))
take_iff (suc n) [] f h m = elim m [ ]
take_iff (suc n) (x ∷ l) f (one, h) (inl e) = (
  (λ r. inl e),
  (λ i. has_name-drop n l f.name (subst (λ (y : File). has_name l y.name ≡ false) e one)),
)
take_iff (suc n) (x ∷ l) f (one, h) (inr m) = (
  (λ r. inr ((take_iff n l f h m).0 r)),
  (λ i. elim i [
    | inl e ↦ has_name-drop n l f.name (subst (λ (y : File). has_name l y.name ≡ false) e one)
    | inr k ↦ (take_iff n l f h m).1 k
  ]),
)

In-insert_file_self : (f : File) (l : List File) → In f (insert_file f l)
unfolding insert_file
In-insert_file_self f [] = inl refl
In-insert_file_self f (g ∷ l) = elim (Bool-cases (ltb f.created g.created)) [
  | inl e ↦ rw e (inr (In-insert_file_self f l))
  | inr e ↦ rw e (inl refl)
]

insert_file-In : (f : File) (l : List File) (g : File) → In g l → In g (insert_file f l)
unfolding insert_file
insert_file-In f [] g m = elim m [ ]
insert_file-In f (h ∷ l) g m = elim (Bool-cases (ltb f.created h.created)) [
  | inl e ↦ rw e (elim m [ inl q ↦ inl q | inr k ↦ inr (insert_file-In f l g k) ])
  | inr e ↦ rw e (inr m)
]

newest_first-In : (l : List File) (g : File) → In g l → In g (newest_first l)
unfolding newest_first
newest_first-In [] g m = elim m [ ]
newest_first-In (f ∷ l) g (inl e) =
    subst (λ x. In x (insert_file f (newest_first l))) e (In-insert_file_self f (newest_first l))
newest_first-In (f ∷ l) g (inr m) = insert_file-In f (newest_first l) g (newest_first-In l g m)

-- A pruning keeps of the backups of the server exactly the given number of the newest: a backup
-- stays just when it is among the first so many of the list of all of them in which none is older
-- than a later one. The directory has one file of a name.
pub prune_to-take :
    (count : ℕ) (server : Text) (files : List File) (f : File)
    → OneOfEach files
    → In f files
    → is_backup server f.name ≡ true
    → (In f (prune_to count server files)
        ↔ In f (take count (newest_first (backups_of server files))))
      × AreNewestFirst (newest_first (backups_of server files))
unfolding prune_to remove_files
prune_to-take count server files f one m own =
    let dbs = backups_of server files in
    let behind = drop count (newest_first dbs) in
    let mine : In f (newest_first dbs) =
      newest_first-In dbs f (In-retain (λ (g : File). is_backup server g.name) files f m own) in
    let sorted =
      OneOfEach-newest_first dbs
        (OneOfEach-retain (λ (g : File). is_backup server g.name) files one) in
    let cut = take_iff count (newest_first dbs) f sorted mine in
    let stays = λ (g : File). not (has_name behind g.name) in
    (
      (
        (λ i. cut.0 (ground (arith, (retain-In stays files f i).1))),
        (λ i. In-retain stays files f m (ground (arith, cut.1 i))),
      ),
      AreNewestFirst-newest_first dbs,
    )
