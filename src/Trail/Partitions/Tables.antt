-- ===== src/Trail/Partitions/Tables.antt =====
-- The partitioned audit table, and the commands that change it (apps/trail/partitioning.py,
-- ensure_trail_partitions.py and archive_trail_partition.py). PostgreSQL does not create a
-- partition whose rows stand in the default partition; there the result is none.
use sgdy_pa_backend.Prelude.{
  ℕ, ◌==◌, Bool, not, Option, none, some, List, [], ◌∷◌, ◌++◌, any, select, update_where,
  if◌then◌else◌,
}
use sgdy_pa_backend.Prelude.Text.{Text, text_eq}
use sgdy_pa_backend.Trail.{TrailEntry}
use sgdy_pa_backend.Trail.Backfill.{organization_ids}
use sgdy_pa_backend.Trail.Partitions.{partition_name}

pub record Partition : Type 0 where
  pub name : Text
  pub organization : ℕ
  pub rows : List TrailEntry

-- `detached` has the tables that are no longer partitions.
pub record TrailTable : Type 0 where
  pub default_rows : List TrailEntry
  pub partitions : List Partition
  pub detached : List Partition

abbrev pub is_named : Text → Partition → Bool
is_named name p = text_eq p.name name

-- `CREATE TABLE IF NOT EXISTS ... PARTITION OF ... FOR VALUES IN (...)`
unfoldable pub create_partition :
    (hex : ℕ → Text) → (organization : ℕ) → TrailTable → Option TrailTable
unfolding partition_name
create_partition hex o t =
    if any (is_named (partition_name hex o)) (t.partitions ++ t.detached)
    then some t
    else if any (λ r. r.organization_id == o) t.default_rows
    then none
    else some (record t {
      partitions =
          record { name = partition_name hex o; organization = o; rows = [] } ∷ t.partitions;
    })

abbrev pub takes : TrailEntry → Partition → Bool
takes r p = p.organization == r.organization_id

abbrev pub with_row : TrailEntry → Partition → Partition
with_row r p = record p { rows = r ∷ p.rows }

-- A row that is inserted goes to the partition of its organization, or to the default one.
unfoldable pub insert_row : TrailEntry → TrailTable → TrailTable
insert_row r t =
    if any (takes r) t.partitions
    then record t { partitions = update_where (takes r) (with_row r) t.partitions }
    else record t { default_rows = r ∷ t.default_rows }

unfoldable pub insert_rows : List TrailEntry → TrailTable → TrailTable
unfolding insert_row
insert_rows [] t = t
insert_rows (r ∷ rest) t = insert_rows rest (insert_row r t)

-- The transaction of `_rehome_default_rows` for one organization.
unfoldable pub rehome : (hex : ℕ → Text) → (organization : ℕ) → TrailTable → Option TrailTable
unfolding create_partition insert_rows
rehome hex o t =
    let moved = select (λ r. r.organization_id == o) t.default_rows in
    let rest = record t {
      default_rows = select (λ r. not (r.organization_id == o)) t.default_rows;
    } in
    elim (create_partition hex o rest) [ none ↦ none | some t' ↦ some (insert_rows moved t') ]

-- `_rehome_default_rows`, unless it only reports.
unfoldable pub rehome_default_rows : (hex : ℕ → Text) → List ℕ → TrailTable → Option TrailTable
unfolding rehome
rehome_default_rows hex [] t = some t
rehome_default_rows hex (o ∷ rest) t = elim (rehome hex o t) [
  | none ↦ none
  | some t' ↦ rehome_default_rows hex rest t'
]

-- `_default_org_ids`
abbrev pub default_org_ids : TrailTable → List ℕ
default_org_ids t = organization_ids t.default_rows

-- The loop of the command over the organizations, after the rows have moved.
unfoldable pub create_missing :
    (hex : ℕ → Text) → (default_ids organizations : List ℕ) → TrailTable → Option TrailTable
unfolding create_partition
create_missing hex ids [] t = some t
create_missing hex ids (o ∷ rest) t =
    let skipped = create_missing hex ids rest t in
    if any (is_named (partition_name hex o)) (t.partitions ++ t.detached)
    then skipped
    else if any (λ i. i == o) ids
    then skipped
    else elim (create_partition hex o t) [ none ↦ none | some t' ↦ create_missing hex ids rest t' ]

-- `ensure_trail_partitions`, without `--no-rehome` and `--dry-run`, of a partitioned table.
unfoldable pub ensure_trail_partitions :
    (hex : ℕ → Text) → (organizations : List ℕ) → TrailTable → Option TrailTable
unfolding rehome_default_rows create_missing organization_ids
ensure_trail_partitions hex organizations t = elim (rehome_default_rows hex (default_org_ids t) t) [
  | none ↦ none
  | some t' ↦ create_missing hex (default_org_ids t) organizations t'
]
