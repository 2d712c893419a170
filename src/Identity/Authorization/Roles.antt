-- ===== src/Identity/Authorization/Roles.antt =====
-- The system roles P1-P7 (apps/identity/models.py, `Role.SystemRole`) and their capabilities
-- (apps/identity/authorization.py), and how they are seeded.
use sgdy_pa_backend.Prelude.{
  ℕ, ◌==◌, ltb, Bool, true, false, ◌&&◌, ◌||◌, List, [], ◌∷◌, map, any, update_where, if◌then◌else◌,
}
use sgdy_pa_backend.Prelude.Text.{Text, lit, text_eq}
use sgdy_pa_backend.Identity.Models.{Role}

pub data Capability : Type 0 where
  commission_audit manage_findings appeal_finding_fact decide_closure_branch create_capa :
      Capability
  verify_capa_effectiveness request_disposition approve_disposition : Capability
  manage_memberships read : Capability

abbrev pub value : Capability → Text
value commission_audit = lit "commission_audit"
value manage_findings = lit "manage_findings"
value appeal_finding_fact = lit "appeal_finding_fact"
value decide_closure_branch = lit "decide_closure_branch"
value create_capa = lit "create_capa"
value verify_capa_effectiveness = lit "verify_capa_effectiveness"
value request_disposition = lit "request_disposition"
value approve_disposition = lit "approve_disposition"
value manage_memberships = lit "manage_memberships"
value read = lit "read"

pub data SystemRole : Type 0 where
  p1 p2 p3 p4 p5 p6 p7 : SystemRole

abbrev pub code : SystemRole → Text
code p1 = lit "P1"
code p2 = lit "P2"
code p3 = lit "P3"
code p4 = lit "P4"
code p5 = lit "P5"
code p6 = lit "P6"
code p7 = lit "P7"

abbrev pub label : SystemRole → Text
label p1 = lit "Auditor Líder"
label p2 = lit "Auditor"
label p3 = lit "Auditado"
label p4 = lit "Gestor Documental"
label p5 = lit "Responsable de Programa"
label p6 = lit "Administrador del Tenant"
label p7 = lit "Auditor Externo"

abbrev pub choices : List SystemRole
choices = p1 ∷ p2 ∷ p3 ∷ p4 ∷ p5 ∷ p6 ∷ p7 ∷ []

unfoldable pub role_capabilities : SystemRole → List Capability
role_capabilities p1 =
    manage_findings ∷ decide_closure_branch ∷ verify_capa_effectiveness ∷ read ∷ []
role_capabilities p2 = manage_findings ∷ read ∷ []
role_capabilities p3 = appeal_finding_fact ∷ create_capa ∷ read ∷ []
role_capabilities p4 = request_disposition ∷ read ∷ []
role_capabilities p5 =
    commission_audit ∷ verify_capa_effectiveness ∷ approve_disposition ∷ read ∷ []
role_capabilities p6 = manage_memberships ∷ read ∷ []
role_capabilities p7 = read ∷ []

-- `s < t` on texts: by code points.
unfoldable pub text_lt : Text → Text → Bool
text_lt s [] = false
text_lt [] (y ∷ t) = true
text_lt (x ∷ s) (y ∷ t) = ltb x y || ((x == y) && text_lt s t)

unfoldable pub insert_text : Text → List Text → List Text
unfolding text_lt
insert_text t [] = t ∷ []
insert_text t (s ∷ r) = if text_lt s t then s ∷ insert_text t r else t ∷ s ∷ r

-- `sorted(texts)`
unfoldable pub sorted : List Text → List Text
unfolding insert_text
sorted [] = []
sorted (t ∷ r) = insert_text t (sorted r)

abbrev pub has_code : Text → Role → Bool
has_code c r = text_eq r.code c

-- The columns under `defaults`.
unfoldable pub with_defaults : SystemRole → Role → Role
unfolding sorted role_capabilities
with_defaults s r = record r {
  name = label s;
  capabilities = sorted (map value (role_capabilities s));
  is_system = true;
}

-- `uuid4` is the key that a new row gets.
module _ (uuid4 : List Role → ℕ) where
  -- `Role.objects.update_or_create(code=..., defaults=...)`
  unfoldable pub update_or_create : SystemRole → List Role → List Role
  update_or_create s table =
      if any (has_code (code s)) table
      then update_where (has_code (code s)) (with_defaults s) table
      else with_defaults s (record {
        id = uuid4 table;
        code = code s;
        name = [];
        capabilities = [];
        is_system = true;
      })
        ∷ table

  unfoldable pub seed_from : List SystemRole → List Role → List Role
  unfolding update_or_create
  seed_from [] table = table
  seed_from (s ∷ rest) table = seed_from rest (update_or_create s table)

  unfoldable pub seed_system_roles : List Role → List Role
  unfolding seed_from
  seed_system_roles = seed_from choices
