-- ===== src/WorkOrder/Saved.antt =====
-- About a save on the table of work orders, in WorkOrder/Store.
use bom_trato_api.Prelude.{
  ◌≡◌, ◌≢◌, refl, sym, ap, ◌∙◌, inl, inr, true, some, map, any-Mem, find-Mem, find-map,
  find-map_other, Bool-cases, EntityId, Num, num_is, ◌==◌, ==_refl, ==→eq,
}
use bom_trato_api.Prelude.Result.{ok}
use bom_trato_api.WorkOrder.Types.{WorkOrderProps}
use bom_trato_api.WorkOrder.Store.{Orders, find_by_id, is_target, updated_row, written, save}

-- The table after the order is stored: found again, it is the given one, and every other order is
-- as it was.
abbrev pub Stores : WorkOrderProps → Orders → Orders → Type 0
Stores o rows rows' =
    (find_by_id o.id rows' ≡ some o)
    × ((id : EntityId) → id ≢ o.id → find_by_id id rows' ≡ find_by_id id rows)

saved-id :
    (o : WorkOrderProps) (expected : Num) (row : WorkOrderProps)
    → (updated_row o expected row).id ≡ row.id
unfolding updated_row written
saved-id o expected row = elim (Bool-cases (is_target o expected row)) [
  | inl t ↦ rw t refl
  | inr f ↦ rw f refl
]

saved-other :
    (o : WorkOrderProps) (expected : Num) (id : EntityId) (row : WorkOrderProps)
    → id ≢ o.id
    → (row.id == id) ≡ true
    → updated_row o expected row ≡ row
unfolding updated_row is_target
saved-other o expected id row n h = elim (Bool-cases (row.id == o.id)) [
  | inl t ↦ absurd (n (sym (==→eq row.id id h) ∙ ==→eq row.id o.id t))
  | inr f ↦ rw f refl
]

expects :
    (o old : WorkOrderProps) (expected : Num)
    → old.id ≡ o.id
    → num_is expected old.version ≡ true
    → is_target o expected old ≡ true
unfolding is_target
expects o old expected i v = rw (i, v, ==_refl o.id) refl

saved-row :
    (o old : WorkOrderProps) (expected : Num)
    → is_target o expected old ≡ true
    → written o old ≡ o
    → updated_row o expected old ≡ o
unfolding updated_row
saved-row o old expected e w = rw e w

-- An order whose columns that a save does not write are those of its row is stored.
pub save-Stores :
    (o old : WorkOrderProps) (expected : Num) (rows : Orders)
    → find_by_id o.id rows ≡ some old
    → num_is expected old.version ≡ true
    → written o old ≡ o
    → (rows' : Orders) × (save o expected rows ≡ ok rows') × Stores o rows rows'
unfolding save
save-Stores o old expected rows f v w =
    let (m, i) = find-Mem (λ row. row.id == o.id) rows old f in
    let e = expects o old expected (==→eq old.id o.id i) v in
    let here = any-Mem (is_target o expected) rows m e in
    let same =
      λ (id : EntityId) (row : WorkOrderProps). ap (λ x. x == id) (saved-id o expected row) in
    (
      map (updated_row o expected) rows,
      rw here refl,
      (
        find-map (λ row. row.id == o.id) (updated_row o expected) rows old (same o.id) f
            ∙ ap some (saved-row o old expected e w),
        λ id n.
            find-map_other (λ row. row.id == id) (updated_row o expected) rows (same id)
              (λ row. saved-other o expected id row n),
      ),
    )
