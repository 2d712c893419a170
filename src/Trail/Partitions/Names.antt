-- ===== src/Trail/Partitions/Names.antt =====
-- The lengths of the names of partitions, and what tells them apart (apps/trail/partitioning.py).
use sgdy_pa_backend.Prelude.{ℕ, ◌+◌, ◌≤◌, ◌≡◌, ◌≢◌, ◌∙◌, ap, List, [], ◌∷◌, ◌++◌, length, arith}
use sgdy_pa_backend.Prelude.Text.{Text, lit}
use sgdy_pa_backend.Trail.Partitions.{
  parent_table, default_partition, partition_name, archived_name,
}

length-append : {A : Type 0} → (xs ys : List A) → length (xs ++ ys) ≡ length xs + length ys
length-append [] ys = omega arith
length-append (x ∷ xs) ys = ground (arith, length-append xs ys)

pub append_injective : {A : Type 0} → (xs ys zs : List A) → xs ++ ys ≡ xs ++ zs → ys ≡ zs
append_injective [] ys zs e = e
append_injective (x ∷ xs) ys zs e = append_injective xs ys zs (cc e)

-- The limit of PostgreSQL on the length of a name.
abbrev pub max_identifier : ℕ
max_identifier = 63

at_most_limit : (k : ℕ) → k ≡ 58 → k ≤ max_identifier
at_most_limit k e = omega arith

different_lengths : (j k : ℕ) → j ≡ 49 → k ≡ 58 → j ≢ k
different_lengths j k e e' same = omega arith

default_shorter : (j : ℕ) → j ≡ 49 → j ≢ length default_partition
default_shorter j e same = omega arith

module _ (hex : ℕ → Text) (digits : (o : ℕ) → length (hex o) ≡ 32)
    (distinct : (o o' : ℕ) → hex o ≡ hex o' → o ≡ o') where
  pub length-partition_name : (o : ℕ) → length (partition_name hex o) ≡ 49
  unfolding partition_name
  length-partition_name o =
      length-append (parent_table ++ lit "_") (hex o) ∙ ap (λ n. 17 + n) (digits o)

  pub length-archived_name : (o : ℕ) → length (archived_name hex o) ≡ 58
  unfolding archived_name
  length-archived_name o =
      length-append (partition_name hex o) (lit "_archived")
      ∙ ap (λ n. n + 9) (length-partition_name o)

  -- Where `hex` gives 32 digits that tell organizations apart, the names of partitions and of archived
  -- partitions have 49 and 58 characters, within the limit of the database. The names of two
  -- organizations differ, and none is that of the default partition or of an archived one.
  pub partition_name-IsValid :
      (o o' : ℕ)
      → o ≢ o'
      → (length (partition_name hex o) ≡ 49)
        × (length (archived_name hex o) ≡ 58)
        × (length (archived_name hex o) ≤ max_identifier)
        × (partition_name hex o ≢ partition_name hex o')
        × (partition_name hex o ≢ archived_name hex o')
        × (partition_name hex o ≢ default_partition)
  unfolding partition_name
  partition_name-IsValid o o' other =
      let n = length-partition_name o in
      let a = length-archived_name o in
      let a' = length-archived_name o' in
      (
        n,
        a,
        at_most_limit _ a,
        λ e. other (distinct o o' (append_injective (parent_table ++ lit "_") (hex o) (hex o') e)),
        λ e. different_lengths _ _ n a' (ap length e),
        λ e. default_shorter _ n (ap length e),
      )
