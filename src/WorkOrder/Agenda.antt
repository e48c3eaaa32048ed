-- ===== src/WorkOrder/Agenda.antt =====
-- The agenda of an organization: the rows of WorkOrder/Store and the search for conflicts.
use bom_trato_api.Prelude.{
  ◌==◌, ◌≡◌, ◌≢◌, sym, ◌∙◌, ap, true, false, ◌&&◌, some, Memᴰ, any-false, arith, EntityId, any,
}
use bom_trato_api.Prelude.Result.{ok}
use bom_trato_api.Prelude.Date.{Date, date_lt}
use bom_trato_api.WorkOrder.Types.{WorkOrderProps, WorkOrderScheduleSlot}
use bom_trato_api.WorkOrder.Store.{
  Orders, occupies, before, after, assigned_to, conflicts, has_schedule_conflict, check_conflict,
}
use bom_trato_api.WorkOrder.Lifecycle.{IsValid}
use bom_trato_api.WorkOrder.Edges.{SamePlace}
use bom_trato_api.WorkOrder.Slot.{SlotOf}

-- Two orders that both take somebody's time do not take that of the same person at once.
pub record Apart (a b : WorkOrderProps) : Type 0 where
  pub no_clash :
      {user : EntityId} {from to from' to' : Date}
      → occupies a.status ≡ true
      → occupies b.status ≡ true
      → a.assigned_to_id ≡ some user
      → b.assigned_to_id ≡ some user
      → a.scheduled_start_at ≡ some from
      → a.scheduled_end_at ≡ some to
      → b.scheduled_start_at ≡ some from'
      → b.scheduled_end_at ≡ some to'
      → (date_lt from' to && date_lt from to') ≡ false

pub record IsAgenda (rows : Orders) : Type 0 where
  pub valid : {row : WorkOrderProps} → Memᴰ row rows → IsValid row
  pub apart : {a b : WorkOrderProps} → Memᴰ a rows → Memᴰ b rows → a.id ≢ b.id → Apart a b

pub Apart-sym : {a b : WorkOrderProps} → Apart a b → Apart b a
Apart-sym p = record {
  no_clash = λ o o' u u' f t f' t'. let e = p.no_clash o' o u' u f' t' f t in ground arith;
}

-- Orders that agree on what decides.
pub record Alike (a b : WorkOrderProps) : Type 0 where
  pub alike_status : occupies b.status ≡ true → occupies a.status ≡ true
  pub alike_place : SamePlace a b

pub Alike-Apart : {a b c : WorkOrderProps} → Alike a b → Apart a c → Apart b c
Alike-Apart {a} {b} {c} k p = record {
  no_clash = λ o o' u u' f t f' t'.
      p.no_clash (k.alike_status o) o' (sym k.alike_place.place_assignee ∙ u) u'
        (sym k.alike_place.place_start ∙ f) (sym k.alike_place.place_end ∙ t) f' t';
}

conflicts-false :
    (slot : WorkOrderScheduleSlot) (b : WorkOrderProps) {from to : Date}
    → conflicts slot b ≡ false
    → b.id ≢ slot.work_order_id
    → b.assigned_to_id ≡ some slot.assigned_to_id
    → occupies b.status ≡ true
    → b.scheduled_start_at ≡ some from
    → b.scheduled_end_at ≡ some to
    → (date_lt from slot.end && date_lt slot.start to) ≡ false
unfolding conflicts
conflicts-false slot b e n u o f t =
    let i : (b.id == slot.work_order_id) ≡ false = ground arith in
    let a : assigned_to b.assigned_to_id slot.assigned_to_id ≡ true = rw u (ground arith) in
    let d = ap (λ x. before x slot.end) f in
    let c = ap (λ x. after x slot.start) t in let h = rw (i, a, o, d, c) at e in h

some-eq : {A : Type 0} {a b : A} → some a ≡ some b → a ≡ b
some-eq h = cc

pub unbooked-Apart :
    (slot : WorkOrderScheduleSlot) (rows : Orders) (a b : WorkOrderProps)
    → check_conflict (some slot) rows ≡ ok tt
    → SlotOf a slot
    → Memᴰ b rows
    → a.id ≢ b.id
    → Apart a b
unfolding check_conflict has_schedule_conflict conflicts
unbooked-Apart slot rows a b h k m n =
    let free : any (conflicts slot) rows ≡ false = ground arith in
    let e = any-false (conflicts slot) rows free m in
    record {
      no_clash = λ o o' u u' f t f' t'.
          let us = some-eq (sym u ∙ k.1) in
          let fs = some-eq (sym f ∙ k.2) in
          let ts = some-eq (sym t ∙ k.3) in
          let r =
            conflicts-false slot b e (λ q. n (sym (q ∙ k.0))) (u' ∙ ap (λ x. some x) us) o' f' t' in
          rw (fs, ts) r;
    }
