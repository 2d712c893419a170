-- ===== src/Identity/Projection/Deactivate.antt =====
-- `deactivate_user_projection` (apps/identity/replication.py) on a well-formed table of users.
use sgdy_pa_backend.Prelude.{
  ==_refl, ◌≡◌, ◌≢◌, ◌∙◌, refl, inl, inr, Bool, Bool-cases, Option-cases, true, false, Option, none,
  some, List, find, in-find, update_where, sym, In, find-holds, update_where-id, find-none, ◌==◌,
  ap, ==_iff, update_where-agree,
}
use sgdy_pa_backend.Prelude.Text.{Text, truthy}
use sgdy_pa_backend.Identity.Models.{User}
use sgdy_pa_backend.Identity.Projection.Users.{ok, has_sub, same_row, deactivate_user_projection}
use sgdy_pa_backend.Identity.Projection.Insert.{row_after_other, eq_of_has_sub}
use sgdy_pa_backend.Identity.Projection.Validity.{IsValid, find-replaced}

-- The row that the subject then has, if it had one.
abbrev pub deactivated : Option User → Option User
deactivated none = none
deactivated (some u) = some (record u { is_active = false })

-- Was there an active row?
abbrev pub was_active : Option User → Bool
was_active none = false
was_active (some u) = u.is_active

-- On a well-formed table the subject's rows are the one row with its key.
same_row-has_sub :
    (sub : Text) (table : List User) (u : User)
    → IsValid table
    → find (has_sub sub) table ≡ some u
    → (x : User) → In x table
    → same_row u x ≡ has_sub sub x
same_row-has_sub sub table u valid found x m =
    let there = in-find (has_sub sub) table u found in
    let held = find-holds (has_sub sub) table found in
    elim (Bool-cases (x.id == u.id)) [
      | inl same ↦
          same
          ∙ sym (ap (has_sub sub) (valid.unique_id x u m there ((==_iff x.id u.id).0 same)) ∙ held)
      | inr differ ↦ elim (Bool-cases (has_sub sub x)) [
        | inr other ↦ differ ∙ sym other
        | inl mine ↦
            let is_u : x ≡ u =
              valid.unique_sub x u sub m there (eq_of_has_sub x sub mine)
                (eq_of_has_sub u sub held) in
            absurd (cc (differ, (==_iff x.id u.id).1 (ap (λ z. z.id) is_u)))
      ]
    ]

-- On a well-formed table a deactivation succeeds, and clears the flag of every row with the subject
-- and changes nothing else in the table. It says whether that changed the row that the subject has;
-- afterwards that row, if there is one, is there as before but inactive, and every other subject's
-- row is what it was.
pub deactivate_user_projection_lem :
    (sub : Text) (table : List User)
    → IsValid table
    → truthy sub ≡ true
    → (table' : List User) × (deactivate_user_projection sub table
        ≡ ok (was_active (find (has_sub sub) table), table'))
      × (table' ≡ update_where (has_sub sub) (λ row. record row { is_active = false }) table)
      × (find (has_sub sub) table' ≡ deactivated (find (has_sub sub) table))
      × ((s : Text) → s ≢ sub → find (has_sub s) table' ≡ find (has_sub s) table)
unfolding deactivate_user_projection
deactivate_user_projection_lem sub table valid given =
    let off = λ (row : User). record row { is_active = false } in
    elim (Option-cases (find (has_sub sub) table)) [
      | inl absent ↦ (
        table,
        rw (given, absent) refl,
        sym (
            update_where-id (has_sub sub) off table
              λ x m h. absurd (cc (h, find-none (has_sub sub) table x absent m))),
        rw absent refl,
        λ s differ. refl,
      )
      | inr (u, found) ↦ elim (Bool-cases u.is_active) [
        | inr inactive ↦ (
          table,
          rw (given, found, inactive) refl,
          sym (
              update_where-id (has_sub sub) off table λ x m h.
                let is_u : x ≡ u =
                  valid.unique_sub x u sub m (in-find (has_sub sub) table u found)
                    (eq_of_has_sub x sub h)
                    (eq_of_has_sub u sub (find-holds (has_sub sub) table found)) in
                ap (λ b. record x { is_active = b }) (sym (ap (λ z. z.is_active) is_u ∙ inactive))),
          rw found (λ i. some (record u { is_active = inactive i })),
          λ s differ. refl,
        )
        | inl act ↦
            let u' = record u { is_active = false } in
            let rows =
              find-replaced table valid u u' (in-find (has_sub sub) table u found) refl refl off
                refl in
            (
              update_where (same_row u) off table,
              rw (given, found, act) refl,
              update_where-agree (same_row u) (has_sub sub) off table
                  (same_row-has_sub sub table u valid found),
              rows sub (λ x. refl) ∙ rw (found, ==_refl u.id) refl,
              λ s differ. rows s (λ x. refl) ∙ row_after_other s sub u u' table valid found differ,
            )
      ]
    ]
