-- ===== src/Identity/Authorization/Duties.antt =====
-- The codes of the system roles, and the roles that own a capability, in the table of
-- apps/identity/authorization.py.
use sgdy_pa_backend.Prelude.{◌==◌, ◌≡◌, ◌↔◌, ◌∙◌, sym, ap, refl, [], ◌∷◌, In, arith, if◌then◌else◌}
use sgdy_pa_backend.Prelude.Text.{Text, text_eq, text_eq_iff}
use sgdy_pa_backend.Identity.Models.{Role}
use sgdy_pa_backend.Identity.Authorization.{contains}
use sgdy_pa_backend.Identity.Authorization.Usable.{contains_iff}
use sgdy_pa_backend.Identity.Authorization.Roles.{
  Capability, value, request_disposition, approve_disposition, manage_memberships, SystemRole, p1,
  p2, p3, p4, p5, p6, p7, code, choices, text_lt, text_lt, with_defaults,
}

-- The second character tells the codes apart.
decode : Text → SystemRole
decode [] = p1
decode (_ ∷ []) = p1
decode (_ ∷ c ∷ _) =
    if c == b'2'
    then p2
    else if c == b'3'
    then p3
    else if c == b'4'
    then p4
    else if c == b'5'
    then p5
    else if c == b'6'
    then p6
    else if c == b'7'
    then p7
    else p1

decode-code : (s : SystemRole) → decode (code s) ≡ s
unfolding decode
decode-code p1 = refl
decode-code p2 = refl
decode-code p3 = refl
decode-code p4 = refl
decode-code p5 = refl
decode-code p6 = refl
decode-code p7 = refl

pub code-injective : (s t : SystemRole) → code s ≡ code t → s ≡ t
code-injective s t e = sym (decode-code s) ∙ ap decode e ∙ decode-code t

pub SystemRole-discrete : Discrete SystemRole
SystemRole-discrete = hlevel

pub in-choices : (s : SystemRole) → In s choices
in-choices p1 = ground arith
in-choices p2 = ground arith
in-choices p3 = ground arith
in-choices p4 = ground arith
in-choices p5 = ground arith
in-choices p6 = ground arith
in-choices p7 = ground arith

-- Seeded with the columns of `s`, a row carries the capability just if `s` is the owner.
abbrev pub IsOwned : Capability → SystemRole → Type 0
IsOwned c owner =
    (s : SystemRole) (r : Role)
    → contains (value c) (with_defaults s r).capabilities ≡ text_eq (code s) (code owner)

pub manage-IsOwned : IsOwned manage_memberships p6
unfolding contains text_eq with_defaults text_lt
manage-IsOwned p1 r = refl
manage-IsOwned p2 r = refl
manage-IsOwned p3 r = refl
manage-IsOwned p4 r = refl
manage-IsOwned p5 r = refl
manage-IsOwned p6 r = refl
manage-IsOwned p7 r = refl

pub request-IsOwned : IsOwned request_disposition p4
unfolding contains text_eq with_defaults text_lt
request-IsOwned p1 r = refl
request-IsOwned p2 r = refl
request-IsOwned p3 r = refl
request-IsOwned p4 r = refl
request-IsOwned p5 r = refl
request-IsOwned p6 r = refl
request-IsOwned p7 r = refl

pub approve-IsOwned : IsOwned approve_disposition p5
unfolding contains text_eq with_defaults text_lt
approve-IsOwned p1 r = refl
approve-IsOwned p2 r = refl
approve-IsOwned p3 r = refl
approve-IsOwned p4 r = refl
approve-IsOwned p5 r = refl
approve-IsOwned p6 r = refl
approve-IsOwned p7 r = refl

pub owned_iff :
    (c : Capability) (owner : SystemRole)
    → IsOwned c owner
    → (s : SystemRole) (r : Role) → In (value c) (with_defaults s r).capabilities ↔ (s ≡ owner)
owned_iff c owner owned s r = (
  λ there. code-injective s owner (
      (text_eq_iff (code s) (code owner)).0
        (sym (owned s r) ∙ (contains_iff (value c) (with_defaults s r).capabilities).1 there)),
  λ e.
      (contains_iff (value c) (with_defaults s r).capabilities).0
        (owned s r ∙ (text_eq_iff (code s) (code owner)).1 (ap code e)),
)
