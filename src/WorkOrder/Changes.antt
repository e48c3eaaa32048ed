-- ===== src/WorkOrder/Changes.antt =====
-- About `mutate` in WorkOrder/Service on the agenda of the organization.
use mathlib.Core.List.Memᴰ
use bom_trato_api.Prelude.{
  ◌==◌, ◌≡◌, ◌≢◌, ◌⊎◌, inl, inr, refl, sym, ◌∙◌, ap, Option, none, some, map, Memᴰ, find-Mem,
  map-Mem, Bool-cases, arith, EntityId, Num,
}
use bom_trato_api.Prelude.Result.{Result, ok, or_throw}
use bom_trato_api.Prelude.Transaction.{lift-parts, write-parts}
use bom_trato_api.Prelude.Date.{Date}
use bom_trato_api.Organization.Access.{AccessContext, assert_can_operate}
use bom_trato_api.WorkOrder.Types.{
  WorkOrderStatus, opened, scheduled, in_progress, completed, canceled, WorkOrderError,
  WorkOrderProps, WorkOrderScheduleSlot, work_order_not_found,
}
use bom_trato_api.WorkOrder.Entity.{record_change, schedule_to_check, assert_version}
use bom_trato_api.WorkOrder.Store.{
  Orders, find_by_id, occupies, written, is_target, updated_row, save, check_conflict,
}
use bom_trato_api.WorkOrder.Service.{ChangeWorkOrderParams, change, mutate, denied}
use bom_trato_api.WorkOrder.Lifecycle.{IsValid, Step, Step-IsValid, record_change-IsValid}
use bom_trato_api.WorkOrder.Edges.{Step-id, Step-in_progress}
use bom_trato_api.WorkOrder.Slot.{schedule_to_check-slot}
use bom_trato_api.WorkOrder.Agenda.{Apart, IsAgenda, Apart-sym, Alike, Alike-Apart, unbooked-Apart}

-- What a change has done before it saves.
record Changed (p : ChangeWorkOrderParams) (now : Date)
    (operation : WorkOrderProps → Result WorkOrderError WorkOrderProps) (previous : WorkOrderProps)
    (rows rows' : Orders) (changed : WorkOrderProps) : Type 0 where
  pub order : WorkOrderProps
  pub slot : Option WorkOrderScheduleSlot
  pub operated : operation previous ≡ ok order
  pub slotted : schedule_to_check previous order ≡ ok slot
  pub unbooked : check_conflict slot rows ≡ ok tt
  pub stamped : record_change p.user_id now order ≡ ok changed
  pub saved : save changed p.version rows ≡ ok rows'

Pair-parts :
    {a b : WorkOrderProps} {s t : Orders}
    → ◌≡◌ {A = Result WorkOrderError (WorkOrderProps × Orders)} (ok (a, s)) (ok (b, t))
    → (a ≡ b) × (s ≡ t)
Pair-parts h = (cc, cc)

change-parts :
    (p : ChangeWorkOrderParams) (now : Date)
    (operation : WorkOrderProps → Result WorkOrderError WorkOrderProps) (previous : WorkOrderProps)
    (rows rows' : Orders) (changed : WorkOrderProps)
    → change p now operation previous rows ≡ ok (changed, rows')
    → Changed p now operation previous rows rows' changed
unfolding change
change-parts p now operation previous rows rows' changed h =
    let (_, _, h1) = lift-parts (assert_version p.version previous) _ rows h in
    let (order, e1, h2) = lift-parts (operation previous) _ rows h1 in
    let (slot, e2, h3) = lift-parts (schedule_to_check previous order) _ rows h2 in
    let (_, e3, h4) = lift-parts (check_conflict slot rows) _ rows h3 in
    let (c, e4, h5) = lift-parts (record_change p.user_id now order) _ rows h4 in
    let (s, e5, h6) = write-parts (save c p.version) _ rows h5 in
    let ec : (c ≡ changed) × (s ≡ rows') = Pair-parts h6 in
    record {
      order = order;
      slot = slot;
      operated = e1;
      slotted = e2;
      unbooked = e3;
      stamped = e4 ∙ ap (λ x. ok x) ec.0;
      saved = ap (λ x. save x p.version rows) (sym ec.0) ∙ e5 ∙ ap (λ x. ok x) ec.1;
    }

written-Alike : (state row : WorkOrderProps) → Alike state (written state row)
unfolding written
written-Alike state row = ground arith

written-IsValid : (state row : WorkOrderProps) → IsValid state → IsValid (written state row)
unfolding written
written-IsValid state row v = ground arith

stamped-Alike :
    (user : EntityId) (now : Date) (w w' : WorkOrderProps)
    → record_change user now w ≡ ok w'
    → Alike w w' × (w'.id ≡ w.id)
unfolding record_change
stamped-Alike user now w w' h = ground arith

save-map :
    (state : WorkOrderProps) (version : Num) (rows rows' : Orders)
    → save state version rows ≡ ok rows'
    → rows' ≡ map (updated_row state version) rows
unfolding save
save-map state version rows rows' h = ground arith

updated_row-cases :
    (state : WorkOrderProps) (version : Num) (row : WorkOrderProps)
    → (updated_row state version row ≡ row)
      ⊎ ((updated_row state version row ≡ written state row) × (row.id ≡ state.id))
unfolding updated_row is_target
updated_row-cases state version row = elim (Bool-cases (is_target state version row)) [
  | inl t ↦ inr (ground arith)
  | inr f ↦ inl (ground arith)
]

written-id : (state row : WorkOrderProps) → (written state row).id ≡ row.id
unfolding written
written-id state row = refl

-- Every row of the new table is an old one or the saved state.
save-Mem :
    (state : WorkOrderProps) (version : Num) (rows rows' : Orders)
    → save state version rows ≡ ok rows'
    → (row : WorkOrderProps) → Memᴰ row rows'
    → Memᴰ row rows ⊎ ((old : WorkOrderProps) × (row ≡ written state old) × (row.id ≡ state.id))
save-Mem state version rows rows' h row m =
    let (old, n, e) =
      map-Mem (updated_row state version) rows (rw (save-map state version rows rows' h) at m) in
    elim (updated_row-cases state version old) [
      | inl k ↦ inl (Memᴰ.cast (e ∙ k) n)
      | inr (k, i) ↦ inr (old, e ∙ k, ap (λ x. x.id) (e ∙ k) ∙ written-id state old ∙ i)
    ]

not_some : {A : Type 0} {a : A} → none ≡ some a → ⊥
not_some h = cc

-- The order that a change has made, against the other rows.
order-Apart :
    (rows : Orders) (w order b : WorkOrderProps) (slot : Option WorkOrderScheduleSlot)
    → IsAgenda rows
    → Memᴰ w rows
    → Memᴰ b rows
    → w.id ≢ b.id
    → Step w order
    → schedule_to_check w order ≡ ok slot
    → check_conflict slot rows ≡ ok tt
    → (s : WorkOrderStatus) → order.status ≡ s
    → Apart order b
order-Apart rows w order b slot g m d n step h c opened e = record {
  no_clash = λ o o' u u' f t f' t'. ground arith;
}
order-Apart rows w order b slot g m d n step h c scheduled e =
    elim ((schedule_to_check-slot w order (Step-IsValid (g.valid m) step)).0 e) [
      | inl same ↦
          Alike-Apart
            (record {
              alike_status = λ _. ap occupies same.0;
              alike_place = record {
                place_assignee = sym same.1;
                place_start = sym same.2;
                place_end = sym same.3;
              };
            })
            (g.apart m d n)
      | inr (own, q, so) ↦
          let k : slot ≡ some own = cc in
          unbooked-Apart own rows order b (rw k at c) so d (λ i. n (sym (Step-id step) ∙ i))
    ]
order-Apart rows w order b slot g m d n step h c in_progress e =
    let (place, before_it) = Step-in_progress step e in
    elim before_it [
      | inl o ↦ record {
        no_clash = λ a a' u u' f t f' t'.
            let none_yet = place.place_start ∙ ((g.valid m).unplanned o).0 in
            absurd (not_some (sym none_yet ∙ f));
      }
      | inr o ↦
          Alike-Apart
            (record {
              alike_status = λ _. elim o [ inl x ↦ ap occupies x | inr x ↦ ap occupies x ];
              alike_place = place;
            })
            (g.apart m d n)
    ]
order-Apart rows w order b slot g m d n step h c completed e = record {
  no_clash = λ o o' u u' f t f' t'. ground arith;
}
order-Apart rows w order b slot g m d n step h c canceled e = record {
  no_clash = λ o o' u u' f t f' t'. ground arith;
}

-- A change from its loaded order to the new table.
module _ (rows rows' : Orders) (w order changed : WorkOrderProps)
    (slot : Option WorkOrderScheduleSlot) (user : EntityId) (now : Date) (version : Num)
    (g : IsAgenda rows) (m : Memᴰ w rows) (step : Step w order)
    (h : schedule_to_check w order ≡ ok slot) (c : check_conflict slot rows ≡ ok tt)
    (r : record_change user now order ≡ ok changed)
    (sv : save changed version rows ≡ ok rows') where
  changed-IsValid : IsValid changed
  changed-IsValid =
      (record_change-IsValid user now order changed (Step-IsValid (g.valid m) step) r).0

  changed-id : changed.id ≡ w.id
  changed-id = (stamped-Alike user now order changed r).1 ∙ Step-id step

  changed-Apart :
      (old b : WorkOrderProps) → Memᴰ b rows → w.id ≢ b.id → Apart (written changed old) b
  changed-Apart old b d n = Alike-Apart (written-Alike changed old) (
      Alike-Apart (stamped-Alike user now order changed r).0
        (order-Apart rows w order b slot g m d n step h c order.status refl))

  saved-Apart : (a b : WorkOrderProps) → Memᴰ a rows' → Memᴰ b rows' → a.id ≢ b.id → Apart a b
  saved-Apart a b p q n = elim (save-Mem changed version rows rows' sv a p) [
    | inl p' ↦ elim (save-Mem changed version rows rows' sv b q) [
      | inl q' ↦ g.apart p' q' n
      | inr (old, e, i) ↦
          rw e (Apart-sym (changed-Apart old a p' (λ k. n (sym k ∙ sym changed-id ∙ sym i))))
    ]
    | inr (old, e, i) ↦ elim (save-Mem changed version rows rows' sv b q) [
      | inl q' ↦ rw e (changed-Apart old b q' (λ k. n (i ∙ changed-id ∙ k)))
      | inr (_, _, j) ↦ absurd (n (i ∙ sym j))
    ]
  ]

  saved-IsAgenda : IsAgenda rows'
  saved-IsAgenda = record {
    valid = λ {row} p. elim (save-Mem changed version rows rows' sv row p) [
      | inl p' ↦ g.valid p'
      | inr (old, e, i) ↦ rw e (written-IsValid changed old changed-IsValid)
    ];
    apart = λ {a} {b}. saved-Apart a b;
  }

-- A change of one order, by any method, keeps the agenda of the organization: if every order of
-- the table is in a valid state and no two scheduled or started orders take the time of the same
-- person at once, then the same holds of the table that a successful change leaves.
pub mutate-IsAgenda :
    (access : AccessContext) (p : ChangeWorkOrderParams) (now : Date)
    (operation : WorkOrderProps → Result WorkOrderError WorkOrderProps) (rows : Orders)
    {changed : WorkOrderProps} {rows' : Orders}
    → ((w w' : WorkOrderProps) → operation w ≡ ok w' → Step w w')
    → IsAgenda rows
    → mutate access p now operation rows ≡ ok (changed, rows')
    → IsAgenda rows'
unfolding mutate
mutate-IsAgenda access p now operation rows {changed} {rows'} method g h =
    let (_, _, h1) = lift-parts (assert_can_operate access denied) _ rows h in
    let (previous, e, h2) =
      lift-parts (or_throw (find_by_id p.work_order_id rows) work_order_not_found) _ rows h1 in
    let f : find_by_id p.work_order_id rows ≡ some previous = ground arith in
    let d = change-parts p now operation previous rows rows' changed h2 in
    saved-IsAgenda rows rows' previous d.order changed d.slot p.user_id now p.version g
      (find-Mem (λ row. row.id == p.work_order_id) rows previous f).0
      (method previous d.order d.operated) d.slotted d.unbooked d.stamped d.saved
