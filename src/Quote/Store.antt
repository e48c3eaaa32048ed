-- ===== src/Quote/Store.antt =====
-- The rows of the table of quotes of an organization, as `PrismaQuoteRepository`
-- (quotes/infrastructure/repositories) reads and saves them.
use bom_trato_api.Prelude.{
  ◌==◌, Bool, true, not, ◌&&◌, Option, List, [], ◌∷◌, map, EntityId, Num, num_is, any, find,
  if◌then◌else◌,
}
use bom_trato_api.Prelude.Result.{Result, ok, throw_if, ◌>>◌}
use bom_trato_api.Quote.Types.{
  QuoteError, quote_version_conflict, invalid_quote_item, QuoteItemProps, QuoteProps,
}

unfoldable pub find_quote : EntityId → List QuoteProps → Option QuoteProps
find_quote id rows = find (λ row. row.id == id) rows

-- The columns and the items that `save` writes.
unfoldable pub written_quote : QuoteProps → QuoteProps → QuoteProps
written_quote state row = record row {
  title = state.title;
  notes = state.notes;
  status = state.status;
  valid_until = state.valid_until;
  discount_in_cents = state.discount_in_cents;
  subtotal_in_cents = state.subtotal_in_cents;
  total_in_cents = state.total_in_cents;
  payment_condition = state.payment_condition;
  down_payment_percentage = state.down_payment_percentage;
  version = state.version;
  sent_at = state.sent_at;
  decided_at = state.decided_at;
  canceled_at = state.canceled_at;
  updated_by_id = state.updated_by_id;
  updated_at = state.updated_at;
  items = state.items;
}

-- The `where` of the update.
unfoldable pub is_expected_quote : EntityId → Num → QuoteProps → Bool
is_expected_quote id expected row = row.id == id && num_is expected row.version

unfoldable pub saved_quote : QuoteProps → Num → QuoteProps → QuoteProps
saved_quote state expected row =
    if is_expected_quote state.id expected row then written_quote state row else row

-- `nextIds.size === nextItems.length`
unfoldable pub distinct_ids : List QuoteItemProps → Bool
distinct_ids [] = true
distinct_ids (item ∷ items) = not (any (λ other. other.id == item.id) items) && distinct_ids items

unfoldable pub save_quote : QuoteProps → Num → List QuoteProps → Result QuoteError (List QuoteProps)
save_quote state expected rows = do
  throw_if (not (any (is_expected_quote state.id expected) rows)) quote_version_conflict
  throw_if (not (distinct_ids state.items)) invalid_quote_item
  ok (map (saved_quote state expected) rows)
