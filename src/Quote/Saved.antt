-- ===== src/Quote/Saved.antt =====
-- About a save on the table of quotes, in Quote/Store.
use bom_trato_api.Prelude.{
  ◌≡◌, ◌≢◌, refl, sym, ap, ◌∙◌, inl, inr, true, some, List, map, any-Mem, find-Mem, find-map,
  find-map_other, Bool-cases, EntityId, Num, num_is, ◌==◌, ==_refl, ==→eq,
}
use bom_trato_api.Prelude.Result.{ok}
use bom_trato_api.Quote.Types.{QuoteProps}
use bom_trato_api.Quote.Store.{
  find_quote, is_expected_quote, saved_quote, written_quote, save_quote, distinct_ids,
}

-- The table after the quote is stored: found again, it is the given one, and every other quote is
-- as it was.
abbrev pub Stores : QuoteProps → List QuoteProps → List QuoteProps → Type 0
Stores q rows rows' =
    (find_quote q.id rows' ≡ some q)
    × ((id : EntityId) → id ≢ q.id → find_quote id rows' ≡ find_quote id rows)

saved-id :
    (q : QuoteProps) (expected : Num) (row : QuoteProps) → (saved_quote q expected row).id ≡ row.id
unfolding saved_quote written_quote
saved-id q expected row = elim (Bool-cases (is_expected_quote q.id expected row)) [
  | inl t ↦ rw t refl
  | inr f ↦ rw f refl
]

saved-other :
    (q : QuoteProps) (expected : Num) (id : EntityId) (row : QuoteProps)
    → id ≢ q.id
    → (row.id == id) ≡ true
    → saved_quote q expected row ≡ row
unfolding saved_quote is_expected_quote
saved-other q expected id row n h = elim (Bool-cases (row.id == q.id)) [
  | inl t ↦ absurd (n (sym (==→eq row.id id h) ∙ ==→eq row.id q.id t))
  | inr f ↦ rw f refl
]

expects :
    (q old : QuoteProps) (expected : Num)
    → old.id ≡ q.id
    → num_is expected old.version ≡ true
    → is_expected_quote q.id expected old ≡ true
unfolding is_expected_quote
expects q old expected i v = rw (i, v, ==_refl q.id) refl

saved-row :
    (q old : QuoteProps) (expected : Num)
    → is_expected_quote q.id expected old ≡ true
    → written_quote q old ≡ q
    → saved_quote q expected old ≡ q
unfolding saved_quote
saved-row q old expected e w = rw e w

-- A quote whose columns that a save does not write are those of its row is stored.
pub save_quote-Stores :
    (q old : QuoteProps) (expected : Num) (rows : List QuoteProps)
    → find_quote q.id rows ≡ some old
    → num_is expected old.version ≡ true
    → distinct_ids q.items ≡ true
    → written_quote q old ≡ q
    → (rows' : List QuoteProps) × (save_quote q expected rows ≡ ok rows') × Stores q rows rows'
unfolding save_quote find_quote
save_quote-Stores q old expected rows f v d w =
    let (m, i) = find-Mem (λ row. row.id == q.id) rows old f in
    let e = expects q old expected (==→eq old.id q.id i) v in
    let here = any-Mem (is_expected_quote q.id expected) rows m e in
    let same = λ (id : EntityId) (row : QuoteProps). ap (λ x. x == id) (saved-id q expected row) in
    (
      map (saved_quote q expected) rows,
      rw (here, d) refl,
      (
        find-map (λ row. row.id == q.id) (saved_quote q expected) rows old (same q.id) f
            ∙ ap some (saved-row q old expected e w),
        λ id n.
            find-map_other (λ row. row.id == id) (saved_quote q expected) rows (same id)
              (λ row. saved-other q expected id row n),
      ),
    )
