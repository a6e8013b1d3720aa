-- ===== src/Naming.antt =====
-- src/types.rs: the rules for names and subdomains, and the suggestion of a proper name.
-- A `&str` is the list of its code points; `str::len` counts bytes of UTF-8.
pub mod Slug
pub mod Subdomain
use Prim.Native.Char.{code}
use xcplane.Common.{
  ℕ, ◌+◌, ◌≤◌, ◌≡◌, String, Bool, true, false, not, ◌&&◌, ◌||◌, List, [], ◌∷◌, ltb, leb, nat_eqb,
  all, is_empty, if◌then◌else◌,
}

abbrev pub Text : Type 0
Text = List ℕ

-- `chars()`
unfoldable pub codes : String → Text
codes String.[] = []
codes (String.◌∷◌ d rest) = code d ∷ codes rest

abbrev pub is_ascii_lowercase : ℕ → Bool
is_ascii_lowercase c = leb b'a' c && leb c b'z'

abbrev pub is_ascii_uppercase : ℕ → Bool
is_ascii_uppercase c = leb b'A' c && leb c b'Z'

abbrev pub is_ascii_digit : ℕ → Bool
is_ascii_digit c = leb b'0' c && leb c b'9'

abbrev pub is_ascii_alphanumeric : ℕ → Bool
is_ascii_alphanumeric c = is_ascii_lowercase c || is_ascii_uppercase c || is_ascii_digit c

-- `==` of two texts.
unfoldable pub text_eqb : Text → Text → Bool
text_eqb [] [] = true
text_eqb (c ∷ s) (d ∷ t) = nat_eqb c d && text_eqb s t
text_eqb _ _ = false

-- `char::len_utf8`
abbrev pub len_utf8 : ℕ → ℕ
len_utf8 c = if ltb c 0x80 then 1 else if ltb c 0x800 then 2 else if ltb c 0x10000 then 3 else 4

-- `str::len`
unfoldable pub byte_len : Text → ℕ
byte_len [] = 0
byte_len (c ∷ s) = len_utf8 c + byte_len s

abbrev pub starts_with : (ℕ → Bool) → Text → Bool
starts_with p [] = false
starts_with p (c ∷ s) = p c

abbrev pub ends_with : (ℕ → Bool) → Text → Bool
ends_with p [] = false
ends_with p (c ∷ []) = p c
ends_with p (c ∷ d ∷ s) = ends_with p (d ∷ s)

abbrev pub subdomain_end : ℕ → Bool
subdomain_end c = is_ascii_lowercase c || is_ascii_digit c

abbrev pub subdomain_char : ℕ → Bool
subdomain_char c = is_ascii_lowercase c || is_ascii_digit c || nat_eqb c b'-'

unfoldable pub is_proper_subdomain : Text → Bool
is_proper_subdomain name =
    not (is_empty name)
    && leb (byte_len name) 63
    && starts_with subdomain_end name
    && ends_with subdomain_end name
    && all subdomain_char name

abbrev pub name_char : ℕ → Bool
name_char c = is_ascii_alphanumeric c || nat_eqb c b'_'

unfoldable pub is_proper : Text → Bool
is_proper name =
    not (is_empty name)
    && starts_with is_ascii_alphanumeric name
    && ends_with is_ascii_alphanumeric name
    && all name_char name

-- `char::is_whitespace`: the characters with the property White_Space.
abbrev pub is_whitespace : ℕ → Bool
is_whitespace c =
    leb 0x9 c && leb c 0xd
    || nat_eqb c 0x20
    || nat_eqb c 0x85
    || nat_eqb c 0xa0
    || nat_eqb c 0x1680
    || leb 0x2000 c && leb c 0x200a
    || nat_eqb c 0x2028
    || nat_eqb c 0x2029
    || nat_eqb c 0x202f
    || nat_eqb c 0x205f
    || nat_eqb c 0x3000

unfoldable pub trim_start : Text → Text
trim_start [] = []
trim_start (c ∷ s) = let rest = trim_start s in if is_whitespace c then rest else c ∷ s

unfoldable pub trim_end : Text → Text
trim_end [] = []
trim_end (c ∷ s) =
    let rest = trim_end s in if is_empty rest && is_whitespace c then [] else c ∷ rest

unfoldable pub trim : Text → Text
unfolding trim_start trim_end
trim s = trim_end (trim_start s)

-- The `match` of the closure: whether the character is the first, the last, and alphanumeric.
abbrev pub slug_char : Bool → Bool → Bool → ℕ → ℕ
slug_char _ _ true c = c
slug_char true _ false c = b'a'
slug_char false true false c = b'a'
slug_char false false false c = b'_'

-- The `map` over `char_indices`, from byte `p` of a text of `sl` bytes.
unfoldable pub slug_from : ℕ → ℕ → Text → Text
slug_from p sl [] = []
slug_from p sl (c ∷ s) =
    slug_char (nat_eqb p 0) (nat_eqb (p + len_utf8 c) sl) (is_ascii_alphanumeric c) c
    ∷ slug_from (p + len_utf8 c) sl s

unfoldable pub slug : Text → Text
unfolding codes byte_len trim slug_from
slug name =
    let s = trim name in if is_empty s then codes "good_nickname1" else slug_from 0 (byte_len s) s
