-- ===== src/Server/Kind.antt =====
-- src/types.rs: `SvcKind`, its text, and the parser of that text.
use Prim.Native.Char.{code}
use Prim.Native.String.{◌++◌}
use text.Mathlib.TextLemmas.{cons-append, nil-append}
use xcplane.Common.{
  String, Bool, true, false, Option, none, some, str_eq, eq_iff, nat_eqb, nat_eqb_iff,
  if◌then◌else◌, ◌≡◌, refl, arith, Eq, ◌↔◌, Bool-cases, inl, inr, ap,
}

pub data SvcKind : Type 0 where
  ssh : SvcKind
  nginx : SvcKind
  xray : String → SvcKind

abbrev pub super_name : String
super_name = "super"

abbrev pub super_xray : SvcKind
super_xray = xray super_name

-- `#[derive(PartialEq)]`
abbrev pub svc_kind_eqb : SvcKind → SvcKind → Bool
svc_kind_eqb ssh ssh = true
svc_kind_eqb nginx nginx = true
svc_kind_eqb (xray a) (xray b) = str_eq a b
svc_kind_eqb _ _ = false

pub svc_kind_eqb_iff : (a b : SvcKind) → (svc_kind_eqb a b ≡ true) ↔ (a ≡ b)
svc_kind_eqb_iff (xray a) (xray b) = ground (arith, eq_iff a b)
svc_kind_eqb_iff ssh b = ground arith
svc_kind_eqb_iff nginx b = ground arith
svc_kind_eqb_iff a b = ground arith

instance abbrev pub svc_kind_eq : Eq SvcKind
svc_kind_eq = record { eqb = svc_kind_eqb; eqb_iff = svc_kind_eqb_iff }

unfoldable pub to_string : SvcKind → String
to_string ssh = "ssh"
to_string nginx = "nginx"
to_string (xray inb) = "xray_" ++ inb

-- `str::strip_prefix`
unfoldable pub strip_prefix : String → String → Option String
strip_prefix String.[] s = some s
strip_prefix (String.◌∷◌ c p) String.[] = none
strip_prefix (String.◌∷◌ c p) (String.◌∷◌ d s) =
    let rest = strip_prefix p s in if nat_eqb (code c) (code d) then rest else none

unfoldable pub from_str : String → Option SvcKind
unfolding strip_prefix
from_str s =
    if str_eq s "ssh"
    then some ssh
    else if str_eq s "nginx"
    then some nginx
    else elim (strip_prefix "xray_" s) [ none ↦ none | some name ↦ some (xray name) ]

strip_prefix-append : (p s : String) → strip_prefix p (p ++ s) ≡ some s
unfolding strip_prefix
strip_prefix-append String.[] s = rw nil-append refl
strip_prefix-append (String.◌∷◌ c p) s =
    rw (cons-append c p s) (rw ((nat_eqb_iff (code c) (code c)).1 refl) (strip_prefix-append p s))

-- A text that begins with "xray_" is not one without that prefix.
xray_ne : (s t : String) → strip_prefix "xray_" t ≡ none → str_eq ("xray_" ++ s) t ≡ false
xray_ne s t h = elim (Bool-cases (str_eq ("xray_" ++ s) t)) [
  | inl p ↦
      cc (strip_prefix-append "xray_" s, ap (strip_prefix "xray_") ((eq_iff ("xray_" ++ s) t).0 p))
  | inr q ↦ q
]

from_str-xray : (inb : String) → from_str ("xray_" ++ inb) ≡ some (xray inb)
unfolding from_str
from_str-xray inb =
    rw (xray_ne inb "ssh" refl, xray_ne inb "nginx" refl)
      (rw (strip_prefix-append "xray_" inb) refl)

-- The text of every service kind parses back to the kind.
pub from_str-to_string : (k : SvcKind) → from_str (to_string k) ≡ some k
unfolding from_str to_string
from_str-to_string ssh = refl
from_str-to_string nginx = refl
from_str-to_string (xray inb) = from_str-xray inb
