-- ===== src/Panel/Backups.antt =====
-- src/xui/db.rs and the file name of `xui_call_db` (src/xui/api.rs): the backups of the panels, in
-- one directory for all servers. A file has a name and a time of creation; a directory that does
-- not exist is an empty one. Entries that cannot be read are left out, as the source leaves them,
-- and removing a file succeeds.
pub mod Isolation
pub mod Pruning
use xcplane.Common.{
  ℕ, zero, suc, Bool, true, false, not, Option, none, some, List, [], ◌∷◌, ◌++◌, is_empty, any,
  retain, ltb, nat_eqb, if◌then◌else◌, ◌&&◌, ◌||◌,
}
use xcplane.Naming.{Text, codes, text_eqb}

pub record File : Type 0 where
  pub name : Text
  pub created : ℕ

abbrev pub retained_xui_dbnum : ℕ
retained_xui_dbnum = 4320

-- The order of the names, by code points.
unfoldable pub text_ltb : Text → Text → Bool
text_ltb s [] = false
text_ltb [] (d ∷ t) = true
text_ltb (c ∷ s) (d ∷ t) = ltb c d || nat_eqb c d && text_ltb s t

-- `str::starts_with`
unfoldable pub has_prefix : Text → Text → Bool
has_prefix [] t = true
has_prefix (c ∷ p) [] = false
has_prefix (c ∷ p) (d ∷ t) = nat_eqb c d && has_prefix p t

-- `str::ends_with`
unfoldable pub has_suffix : Text → Text → Bool
unfolding text_eqb
has_suffix p [] = is_empty p
has_suffix p (c ∷ t) = text_eqb p (c ∷ t) || has_suffix p t

-- The name of a backup of a server from a date.
unfoldable pub backup_name : Text → Text → Text
unfolding codes
backup_name server date = server ++ (b'-' ∷ (date ++ codes "-xui-backup.db"))

-- The test on the name, in all three functions.
unfoldable pub is_backup : Text → Text → Bool
unfolding has_prefix has_suffix codes
is_backup server name = has_prefix (server ++ b'-' ∷ []) name && has_suffix (codes "backup.db") name

abbrev pub backups_of : Text → List File → List File
backups_of server files = retain (λ (f : File). is_backup server f.name) files

-- `Iterator::max` on the names: the last of the greatest.
unfoldable pub greatest : Text → List File → Text
unfolding text_ltb
greatest best [] = best
greatest best (f ∷ files) = greatest (if text_ltb f.name best then best else f.name) files

unfoldable pub last_of : List File → Option Text
unfolding greatest
last_of [] = none
last_of (f ∷ files) = some (greatest f.name files)

-- `none` is the error "Couldn't find any DB to choose from."
unfoldable pub last_xui_db : Text → List File → Option Text
unfolding last_of is_backup
last_xui_db server files = last_of (backups_of server files)

-- `sort_by` with the newest first, which keeps the order of files of the same time.
unfoldable pub insert_file : File → List File → List File
insert_file f [] = f ∷ []
insert_file f (g ∷ files) =
    let rest = insert_file f files in if ltb f.created g.created then g ∷ rest else f ∷ (g ∷ files)

unfoldable pub newest_first : List File → List File
unfolding insert_file
newest_first [] = []
newest_first (f ∷ files) = insert_file f (newest_first files)

-- `drain(count..)`, where `count` is at most the length.
abbrev pub drop {ℓ} : {A : Type ℓ} → ℕ → List A → List A
drop zero xs = xs
drop (suc n) [] = []
drop (suc n) (x ∷ xs) = drop n xs

abbrev pub take {ℓ} : {A : Type ℓ} → ℕ → List A → List A
take zero xs = []
take (suc n) [] = []
take (suc n) (x ∷ xs) = x ∷ take n xs

-- The directory without the files of these names.
unfoldable pub remove_files : List File → List File → List File
unfolding text_eqb
remove_files removed files =
    retain (λ (f : File). not (any (λ (r : File). text_eqb r.name f.name) removed)) files

-- With the number of the files to keep, which is `RETAINED_XUI_DBNUM`.
unfoldable pub prune_to : ℕ → Text → List File → List File
unfolding newest_first remove_files is_backup
prune_to count server files =
    remove_files (drop count (newest_first (backups_of server files))) files

unfoldable pub prune_xui_backups : Text → List File → List File
unfolding prune_to
prune_xui_backups server files = prune_to retained_xui_dbnum server files

unfoldable pub delete_xui_backups : Text → List File → List File
unfolding remove_files is_backup
delete_xui_backups server files = remove_files (backups_of server files) files
