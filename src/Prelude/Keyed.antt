-- ===== src/Prelude/Keyed.antt =====
-- Tables whose rows are told apart by a column, as by a primary key, and updates of them.
use mathlib.Core.Path.{◌≡◌, refl, sym, ap, ◌∙◌}
use mathlib.Core.Logic.{inl, inr}
use mathlib.Core.Bool.{Bool, false}
use mathlib.Core.List.{List, [], ◌∷◌, Memᴰ}
use bom_trato_api.Prelude.Tests.{EntityId, ◌==◌, ==_refl, Bool-cases, if◌then◌else◌, false-true}
use bom_trato_api.Prelude.Lists.{any, any-false, update_where, update_where-Mem}

module _ {A : Type 0} (key : A → EntityId) where
  pub record IsKeyed (rows : List A) : Type 0 where
    pub one_each : {a b : A} → Memᴰ a rows → Memᴰ b rows → key a ≡ key b → a ≡ b

  kept_key :
      (test : A → Bool) (change : A → A)
      → ((row : A) → key (change row) ≡ key row)
      → (x : A) → key (if test x then change x else x) ≡ key x
  kept_key test change same x = elim (Bool-cases (test x)) [
    | inl t ↦ rw t (same x)
    | inr f ↦ rw f refl
  ]

  pub update-IsKeyed :
      (test : A → Bool) (change : A → A) (rows : List A)
      → ((row : A) → key (change row) ≡ key row)
      → IsKeyed rows
      → IsKeyed (update_where test change rows)
  update-IsKeyed test change rows same k = record {
    one_each = λ {a} {b} m n i.
        let (x, mx, ex) = update_where-Mem test change rows m in
        let (y, my, ey) = update_where-Mem test change rows n in
        let step = λ (z : A). if test z then change z else z in
        let same_key : key x ≡ key y =
          sym (kept_key test change same x)
          ∙ ap key (sym ex)
          ∙ i
          ∙ ap key ey
          ∙ kept_key test change same y in
        ex ∙ ap step (k.one_each mx my same_key) ∙ sym ey;
  }

  pub cons-IsKeyed :
      (x : A) (rows : List A)
      → any (λ row. key row == key x) rows ≡ false
      → IsKeyed rows
      → IsKeyed (x ∷ rows)
  cons-IsKeyed x rows f k = record { one_each = λ {a} {b} m m'. both a b m m' }
    where
      apart : (y : A) → Memᴰ y rows → key y ≡ key x → ⊥
      apart y m i = false-true (
          sym (any-false (λ (row : A). key row == key x) rows f m)
          ∙ ap (λ z. z == key x) i
          ∙ ==_refl (key x))

      both : (a b : A) → Memᴰ a (x ∷ rows) → Memᴰ b (x ∷ rows) → key a ≡ key b → a ≡ b
      both a b (Memᴰ.head e) (Memᴰ.head e') i = e ∙ sym e'
      both a b (Memᴰ.head e) (Memᴰ.tail m') i = absurd (apart b m' (sym i ∙ ap key e))
      both a b (Memᴰ.tail m) (Memᴰ.head e') i = absurd (apart a m (i ∙ ap key e'))
      both a b (Memᴰ.tail m) (Memᴰ.tail m') i = k.one_each m m' i

-- A row that an update does not test for stays.
pub update-keeps :
    {A : Type 0} (test : A → Bool) (change : A → A) (rows : List A) (row : A)
    → Memᴰ row rows
    → test row ≡ false
    → Memᴰ row (update_where test change rows)
update-keeps test change [] row m f = elim m [ ]
update-keeps test change (x ∷ xs) row (Memᴰ.head e) f =
    Memᴰ.head (e ∙ sym (rw (ap test (sym e) ∙ f) refl))
update-keeps test change (x ∷ xs) row (Memᴰ.tail m) f =
    Memᴰ.tail (update-keeps test change xs row m f)
