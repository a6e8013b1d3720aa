-- ===== src/Naming/Subdomain.antt =====
-- `is_proper_subdomain` of src/types.rs against the grammar of a lower-case DNS label.
use xcplane.Common.{
  ℕ, ◌≤◌, ◌≡◌, ◌↔◌, ◌⊎◌, refl, true, false, [], ◌∷◌, arith, all, length, is_empty, inl,
}
use xcplane.Naming.{
  Text, byte_len, starts_with, ends_with, subdomain_end, subdomain_char, is_proper_subdomain,
}

-- a letter or a digit
abbrev pub IsLetterDigit : ℕ → Type 0
IsLetterDigit c = ((b'a' ≤ c) × (c ≤ b'z')) ⊎ ((b'0' ≤ c) × (c ≤ b'9'))

abbrev pub IsLabelChar : ℕ → Type 0
IsLabelChar c = IsLetterDigit c ⊎ (c ≡ b'-')

-- What may follow in a label: characters of a label, the last of them a letter or a digit.
pub data LabelTail : Text → Type 0 where
  last : {c : ℕ} → IsLetterDigit c → LabelTail (c ∷ [])
  more : {c : ℕ} {s : Text} → IsLabelChar c → LabelTail s → LabelTail (c ∷ s)

-- A label is one letter or digit, or begins with one and goes on with a tail.
pub data Label : Text → Type 0 where
  single : {c : ℕ} → IsLetterDigit c → Label (c ∷ [])
  longer : {c : ℕ} {s : Text} → IsLetterDigit c → LabelTail s → Label (c ∷ s)

subdomain_end_iff : (c : ℕ) → (subdomain_end c ≡ true) ↔ IsLetterDigit c
subdomain_end_iff c = ground arith

subdomain_char_iff : (c : ℕ) → (subdomain_char c ≡ true) ↔ IsLabelChar c
subdomain_char_iff c = ground arith

byte_len_of_chars : (s : Text) → all subdomain_char s ≡ true → byte_len s ≡ length s
unfolding byte_len
byte_len_of_chars [] h = refl
byte_len_of_chars (c ∷ s) h = ground (arith, byte_len_of_chars s)

tail_of_tests :
    (c : ℕ) (s : Text)
    → ends_with subdomain_end (c ∷ s) ≡ true
    → all subdomain_char (c ∷ s) ≡ true
    → LabelTail (c ∷ s)
tail_of_tests c [] e a = last ((subdomain_end_iff c).0 e)
tail_of_tests c (d ∷ s) e a =
    more ((subdomain_char_iff c).0 (ground arith)) (tail_of_tests d s e (ground arith))

ends_with-cons :
    (c : ℕ) (s : Text)
    → is_empty s ≡ false
    → ends_with subdomain_end (c ∷ s) ≡ ends_with subdomain_end s
ends_with-cons c [] h = cc
ends_with-cons c (d ∷ s) h = refl

tail_filled : {s : Text} → LabelTail s → is_empty s ≡ false
tail_filled (last h) = refl
tail_filled (more h t) = refl

tail_ends : {s : Text} → LabelTail s → ends_with subdomain_end s ≡ true
tail_ends (last {c} h) = (subdomain_end_iff c).1 h
tail_ends (more {c} {s} h t) = rw (ends_with-cons c s (tail_filled t)) (tail_ends t)

tail_chars : {s : Text} → LabelTail s → all subdomain_char s ≡ true
tail_chars (last {c} h) = ground (arith, (subdomain_char_iff c).1 (inl h))
tail_chars (more {c} {s} h t) = ground (arith, (subdomain_char_iff c).1 h, tail_chars t)

Label-tests :
    {s : Text}
    → Label s
    → (is_empty s ≡ false)
      × (starts_with subdomain_end s ≡ true)
      × (ends_with subdomain_end s ≡ true)
      × (all subdomain_char s ≡ true)
Label-tests (single {c} h) =
    let e = (subdomain_end_iff c).1 h in (refl, e, e, tail_chars (last {c = c} h))
Label-tests (longer {c} {s} h t) = (
  refl,
  (subdomain_end_iff c).1 h,
  rw (ends_with-cons c s (tail_filled t)) (tail_ends t),
  tail_chars (more {c = c} (inl h) t),
)

Label-of_tests :
    (s : Text)
    → is_empty s ≡ false
    → starts_with subdomain_end s ≡ true
    → ends_with subdomain_end s ≡ true
    → all subdomain_char s ≡ true
    → Label s
Label-of_tests [] filled first e a = cc
Label-of_tests (c ∷ []) filled first e a = single ((subdomain_end_iff c).0 first)
Label-of_tests (c ∷ d ∷ s) filled first e a =
    longer ((subdomain_end_iff c).0 first) (tail_of_tests d s e (ground arith))

accepted_Label : (s : Text) → is_proper_subdomain s ≡ true → Label s × (length s ≤ 63)
unfolding is_proper_subdomain
accepted_Label s h =
    let chars : all subdomain_char s ≡ true = ground arith in
    (
      Label-of_tests s (ground arith) (ground arith) (ground arith) chars,
      ground (arith, byte_len_of_chars s chars),
    )

Label-accepted : (s : Text) → Label s × (length s ≤ 63) → is_proper_subdomain s ≡ true
unfolding is_proper_subdomain
Label-accepted s (l, short) =
    let (filled, first, e, chars) = Label-tests l in ground (arith, byte_len_of_chars s chars)

-- A text passes `is_proper_subdomain` exactly when it is a `Label`, a letter or
-- digit followed by label characters that end in a letter or digit, with at most 63 characters.
pub is_proper_subdomain_iff :
    (s : Text) → (is_proper_subdomain s ≡ true) ↔ (Label s × (length s ≤ 63))
is_proper_subdomain_iff s = (accepted_Label s, Label-accepted s)
