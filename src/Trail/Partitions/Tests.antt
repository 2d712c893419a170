-- ===== src/Trail/Partitions/Tests.antt =====
-- Partitions at a concrete `hex`: a run, and the theorems applied.
use sgdy_pa_backend.Prelude.Text.{text_eq}
use sgdy_pa_backend.Prelude.Json.{end}
use sgdy_pa_backend.Trail.{TrailEntry}
use sgdy_pa_backend.Trail.Partitions.Tables.{TrailTable, rehome, ensure_trail_partitions}
use sgdy_pa_backend.Trail.Partitions.Rehoming.{Holds, has_partition}
use sgdy_pa_backend.Trail.Partitions.Emptied.{IsNamed}
use sgdy_pa_backend.Trail.Partitions.Ensured.{ensure_trail_partitions_lem}
use sgdy_pa_backend.Prelude.{
  true, some, All, ◌↔◌, inl, inr, sym, subst, ℕ, ◌≤◌, ◌≡◌, ◌≢◌, refl, ap, [], ◌∷◌, length,
}
use sgdy_pa_backend.Prelude.Text.{Text, lit}
use sgdy_pa_backend.Trail.Partitions.{default_partition, partition_name, archived_name}
use sgdy_pa_backend.Trail.Partitions.Names.{max_identifier, partition_name-IsValid}

-- The key, and 31 zeros.
abbrev padded : ℕ → Text
padded o = o ∷ lit "0000000000000000000000000000000"

abbrev first_of : Text → ℕ
first_of [] = 0
first_of (c ∷ s) = c

padded-injective : (o o' : ℕ) → padded o ≡ padded o' → o ≡ o'
padded-injective o o' e = ap first_of e

seven_eight : ◌≢◌ {A = ℕ} 7 8
seven_eight e = cc e

partition_name-IsValid_example :
    (length (partition_name padded 7) ≡ 49)
    × (length (archived_name padded 7) ≡ 58)
    × (length (archived_name padded 7) ≤ max_identifier)
    × (partition_name padded 7 ≢ partition_name padded 8)
    × (partition_name padded 7 ≢ archived_name padded 8)
    × (partition_name padded 7 ≢ default_partition)
partition_name-IsValid_example =
    partition_name-IsValid padded (λ o. refl) padded-injective 7 8 seven_eight

abbrev row : TrailEntry
row = record {
  organization_id = 7;
  actor_id = 3;
  actor_email_snapshot = [];
  actor_display_name_snapshot = [];
  action = lit "CREAR";
  target_entity = lit "DOCUMENT";
  target_id = 11;
  payload = end;
  sequence = 1;
  previous_hash = [];
  entry_hash = lit "00";
}

abbrev other_row : TrailEntry
other_row = record row { organization_id = 9 }

-- Rows of two organizations in the default partition, and an empty partition of another.
abbrev flat : TrailTable
flat = record {
  default_rows = row ∷ other_row ∷ [];
  partitions = record { name = partition_name padded 8; organization = 8; rows = [] } ∷ [];
  detached = [];
}

rehome_run :
    rehome padded 7 flat
    ≡ some (record flat {
      default_rows = other_row ∷ [];
      partitions =
          record { name = partition_name padded 7; organization = 7; rows = row ∷ [] }
          ∷ flat.partitions;
    })
unfolding rehome text_eq
rehome_run = refl

flat-IsNamed : IsNamed padded flat
flat-IsNamed = (
  (λ p m. elim m [
    | inl e ↦ subst (λ z. z.name ≡ partition_name padded z.organization) (sym e) refl
    | inr none' ↦ absurd none'
  ]),
  λ p m. absurd m,
)

ensure_trail_partitions_lem_example :
    (t' : TrailTable) × (ensure_trail_partitions padded (7 ∷ 8 ∷ 5 ∷ []) flat ≡ some t')
    × (t'.default_rows ≡ [])
    × All (λ o. has_partition o t' ≡ true) (7 ∷ 8 ∷ 5 ∷ [])
    × ((r : TrailEntry) → Holds r t' ↔ Holds r flat)
ensure_trail_partitions_lem_example =
    ensure_trail_partitions_lem padded (7 ∷ 8 ∷ 5 ∷ []) flat padded-injective flat-IsNamed
