-- ===== src/Trail/Partitions.antt =====
-- apps/trail/partitioning.py and the management commands of apps/trail: the names of the partitions
-- of the audit table. `hex` is `UUID.hex`.
pub mod Names
pub mod Tables
pub mod Rehoming
pub mod Emptied
pub mod Ensured
mod Tests
use sgdy_pa_backend.Prelude.{ℕ, ◌++◌}
use sgdy_pa_backend.Prelude.Text.{Text, lit}

-- `PARENT_TABLE`
abbrev pub parent_table : Text
parent_table = lit "trail_trailentry"

-- `DEFAULT_PARTITION`
abbrev pub default_partition : Text
default_partition = lit "trail_trailentry_default"

-- `partition_name_for_organization`
unfoldable pub partition_name : (hex : ℕ → Text) → (organization : ℕ) → Text
partition_name hex o = parent_table ++ lit "_" ++ hex o

-- The name under which the archive command keeps a partition that it detaches.
unfoldable pub archived_name : (hex : ℕ → Text) → (organization : ℕ) → Text
unfolding partition_name
archived_name hex o = partition_name hex o ++ lit "_archived"
