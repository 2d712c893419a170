-- ===== src/Trail/Interleave.antt =====
-- Appends to the audit ledger at once (apps/trail/services.py). An append locks the head of its
-- organization, inserts its row, saves the head and commits; appends of one organization wait for
-- each other, those of different ones take turns in any order.
pub mod Serial
mod Tests
use sgdy_pa_backend.Prelude.{ℕ, ◌==◌, ◌≡◌, Option, false, List, ◌∷◌, ◌++◌, if◌then◌else◌}
use sgdy_pa_backend.Prelude.Text.{Text}
use sgdy_pa_backend.Prelude.Json.{Fields}
use sgdy_pa_backend.Identity.Models.{Organization, User}
use sgdy_pa_backend.Trail.{
  Hashing, TrailEntry, LedgerHead, Ledger, get_or_create_head, save_head, violates_unique,
  new_entry,
}

-- The arguments of an append.
pub record Call : Type 0 where
  pub organization : Organization
  pub actor : User
  pub action : Text
  pub entity : Text
  pub target : ℕ
  pub payload : Option Fields

-- The lock on the head of an organization: free, or held by an append that has read the head, or
-- that has inserted its row.
pub data Phase : Type 0 where
  free : Phase
  head_read : Call → LedgerHead → Phase
  inserted : Call → TrailEntry → Phase

pub record State : Type 0 where
  pub ledger : Ledger
  pub phase : (organization : ℕ) → Phase
  pub pending : List Call

unfoldable pub set_phase : ℕ → Phase → (ℕ → Phase) → ℕ → Phase
set_phase o p phases i = if i == o then p else phases i

-- The row that an append inserts under the head that it has read.
abbrev pub row_of : Hashing → Call → LedgerHead → TrailEntry
row_of h c head = new_entry h head c.organization c.actor c.action c.entity c.target c.payload

module _ (h : Hashing) where
  pub data Step : State → State → Type 0 where
    -- `select_for_update().get_or_create(...)`, of any pending append whose lock is free.
    locks :
        (l : Ledger) (phases : ℕ → Phase) (xs ys : List Call) (c : Call)
        → phases c.organization.id ≡ free
        → Step
            (record { ledger = l; phase = phases; pending = xs ++ c ∷ ys })
            (record {
              ledger = record l { heads = (get_or_create_head c.organization.id l.heads).1 };
              phase =
                  set_phase c.organization.id
                    (head_read c (get_or_create_head c.organization.id l.heads).0)
                    phases;
              pending = xs ++ ys;
            })
    -- `TrailEntry.objects.create(...)`, where the unique constraint lets it.
    inserts :
        (l : Ledger) (phases : ℕ → Phase) (pending : List Call) (c : Call) (head : LedgerHead)
        → phases c.organization.id ≡ head_read c head
        → violates_unique (row_of h c head) l.entries ≡ false
        → Step
            (record { ledger = l; phase = phases; pending = pending })
            (record {
              ledger = record l { entries = row_of h c head ∷ l.entries };
              phase = set_phase c.organization.id (inserted c (row_of h c head)) phases;
              pending = pending;
            })
    -- `head.save(...)`, and the commit.
    saves :
        (l : Ledger) (phases : ℕ → Phase) (pending : List Call) (c : Call) (e : TrailEntry)
        → phases c.organization.id ≡ inserted c e
        → Step
            (record { ledger = l; phase = phases; pending = pending })
            (record {
              ledger = record l {
                heads = save_head c.organization.id e.sequence e.entry_hash l.heads;
              };
              phase = set_phase c.organization.id free phases;
              pending = pending;
            })

  -- Steps of any appends, in any order.
  pub data Steps : State → State → Type 0 where
    none_taken : (s : State) → Steps s s
    followed_by : {s s' s'' : State} → Steps s s' → Step s' s'' → Steps s s''
