-- ===== src/Naming/Slug.antt =====
-- What `slug` suggests is a proper name, and a proper name is its own suggestion.
use xcplane.Common.{
  ℕ, ◌↔◌, sym, ap, ◌∙◌, ◌+◌, ◌<◌, ◌≡◌, refl, Bool, true, false, [], ◌∷◌, arith, all, is_empty,
  nat_eqb, ap₂, if◌then◌else◌,
}
use xcplane.Naming.{
  Text, codes, is_ascii_alphanumeric, len_utf8, byte_len, starts_with, ends_with, name_char,
  is_proper, trim_start, trim_end, trim, slug_char, slug_from, slug,
}

slug_char-name_char :
    (first last : Bool) (c : ℕ)
    → name_char (slug_char first last (is_ascii_alphanumeric c) c) ≡ true
slug_char-name_char first last c = ground arith

slug_from-all : (p sl : ℕ) (s : Text) → all name_char (slug_from p sl s) ≡ true
unfolding slug_from
slug_from-all p sl [] = refl
slug_from-all p sl (c ∷ s) = ground (
  arith,
  slug_char-name_char (nat_eqb p 0) (nat_eqb (p + len_utf8 c) sl) c,
  slug_from-all (p + len_utf8 c) sl s,
)

slug_char_first :
    (last : Bool) (c : ℕ)
    → is_ascii_alphanumeric (slug_char true last (is_ascii_alphanumeric c) c) ≡ true
slug_char_first last c = ground arith

slug_char_last :
    (first : Bool) (c : ℕ)
    → is_ascii_alphanumeric (slug_char first true (is_ascii_alphanumeric c) c) ≡ true
slug_char_last first c = ground arith

-- The position reaches the length exactly at the last character.
slug_from-ends :
    (p sl : ℕ) (c : ℕ) (s : Text)
    → p + byte_len (c ∷ s) ≡ sl
    → ends_with is_ascii_alphanumeric (slug_from p sl (c ∷ s)) ≡ true
unfolding slug_from byte_len
slug_from-ends p sl c [] h =
    let last : nat_eqb (p + len_utf8 c) sl ≡ true = ground arith in
    rw last (slug_char_last (nat_eqb p 0) c)
slug_from-ends p sl c (d ∷ s) h = slug_from-ends (p + len_utf8 c) sl d s (omega arith)

slug_from-starts :
    (sl c : ℕ) (s : Text) → starts_with is_ascii_alphanumeric (slug_from 0 sl (c ∷ s)) ≡ true
unfolding slug_from
slug_from-starts sl c s = slug_char_first (nat_eqb (0 + len_utf8 c) sl) c

is_empty-slug_from : (p sl c : ℕ) (s : Text) → is_empty (slug_from p sl (c ∷ s)) ≡ false
unfolding slug_from
is_empty-slug_from p sl c s = refl

-- The four tests of `is_proper`.
is_proper_of_parts :
    (s : Text)
    → is_empty s ≡ false
    → starts_with is_ascii_alphanumeric s ≡ true
    → ends_with is_ascii_alphanumeric s ≡ true
    → all name_char s ≡ true
    → is_proper s ≡ true
unfolding is_proper
is_proper_of_parts s filled first last chars = rw (filled, first, last, chars)

suggestion_proper :
    (t : Text)
    → is_proper (if is_empty t then codes "good_nickname1" else slug_from 0 (byte_len t) t) ≡ true
unfolding is_proper codes
suggestion_proper [] = refl
suggestion_proper (c ∷ s) =
    let sl = byte_len (c ∷ s) in
    is_proper_of_parts (slug_from 0 sl (c ∷ s)) (is_empty-slug_from 0 sl c s)
      (slug_from-starts sl c s) (slug_from-ends 0 sl c s (omega arith)) (slug_from-all 0 sl (c ∷ s))

slug-is_proper : (name : Text) → is_proper (slug name) ≡ true
unfolding slug
slug-is_proper name = suggestion_proper (trim name)

trim_start_keeps : (s : Text) → starts_with is_ascii_alphanumeric s ≡ true → trim_start s ≡ s
unfolding trim_start
trim_start_keeps [] h = refl
trim_start_keeps (c ∷ s) h = ground arith

is_empty-trim_end :
    (c : ℕ) (s : Text) → ends_with is_ascii_alphanumeric (c ∷ s) ≡ true → trim_end (c ∷ s) ≡ c ∷ s
unfolding trim_end
is_empty-trim_end c [] h = ground arith
is_empty-trim_end c (d ∷ s) h = rw (is_empty-trim_end d s h) refl

slug_char_keeps :
    (p sl c rest : ℕ)
    → (p ≡ 0 → is_ascii_alphanumeric c ≡ true)
    → name_char c ≡ true
    → p + (len_utf8 c + rest) ≡ sl
    → 0 < rest
    → slug_char (nat_eqb p 0) (nat_eqb (p + len_utf8 c) sl) (is_ascii_alphanumeric c) c ≡ c
slug_char_keeps p sl c rest first char total more = ground (arith, first)

byte_len_pos : (c : ℕ) (s : Text) → 0 < byte_len (c ∷ s)
unfolding byte_len
byte_len_pos c s = ground arith

slug_from_keeps :
    (p sl c : ℕ) (s : Text)
    → (p ≡ 0 → is_ascii_alphanumeric c ≡ true)
    → p + byte_len (c ∷ s) ≡ sl
    → ends_with is_ascii_alphanumeric (c ∷ s) ≡ true
    → all name_char (c ∷ s) ≡ true
    → slug_from p sl (c ∷ s) ≡ c ∷ s
unfolding slug_from byte_len
slug_from_keeps p sl c [] first total last chars = rw last refl
slug_from_keeps p sl c (d ∷ s) first total last chars =
    ap₂ ◌∷◌
      (slug_char_keeps p sl c (byte_len (d ∷ s)) first (ground arith) total (byte_len_pos d s))
      (slug_from_keeps (p + len_utf8 c) sl d s (λ e. absurd (ground arith)) (omega arith) last
        (ground arith))

trim_keeps :
    (c : ℕ) (s : Text)
    → starts_with is_ascii_alphanumeric (c ∷ s) ≡ true
    → ends_with is_ascii_alphanumeric (c ∷ s) ≡ true
    → trim (c ∷ s) ≡ c ∷ s
unfolding trim
trim_keeps c s first last = rw (trim_start_keeps (c ∷ s) first) (is_empty-trim_end c s last)

slug_of_is_proper : (name : Text) → is_proper name ≡ true → slug name ≡ name
unfolding slug is_proper
slug_of_is_proper [] h = ground arith
slug_of_is_proper (c ∷ s) h =
    let first : starts_with is_ascii_alphanumeric (c ∷ s) ≡ true = ground arith in
    let last : ends_with is_ascii_alphanumeric (c ∷ s) ≡ true = ground arith in
    let chars : all name_char (c ∷ s) ≡ true = ground arith in
    rw (trim_keeps c s first last)
      (slug_from_keeps 0 (byte_len (c ∷ s)) c s (λ _. first) (omega arith) last chars)

-- Whatever the text, the suggestion that `slug` makes for it passes `is_proper`, and the texts that
-- `slug` leaves as they are, are those that pass `is_proper`.
pub slug_lem :
    (name : Text) → (is_proper (slug name) ≡ true) × ((slug name ≡ name) ↔ (is_proper name ≡ true))
slug_lem name = (
  slug-is_proper name,
  ((λ e. ap is_proper (sym e) ∙ slug-is_proper name), slug_of_is_proper name),
)
