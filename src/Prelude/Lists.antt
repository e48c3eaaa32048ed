-- ===== src/Prelude/Lists.antt =====
-- Lists over the native numbers: length, bounded prefixes, predicates on all members.
use Prim.Native.Nat.{ℕ, zero, suc, ◌+◌, ◌≤◌, min}
use mathlib.Core.Path.{◌≡◌, refl, sym, ap, ◌∙◌}
use mathlib.Core.Logic.{inl, inr}
use mathlib.Core.Bool.{Bool, true, false, ◌||◌}
use mathlib.Core.List.{List, [], ◌∷◌, ◌++◌, map, Memᴰ}
use mathlib.Core.Option.{Option, none, some}
use native.Mathlib.Omega.{arith}
use bom_trato_api.Prelude.Tests.{if◌then◌else◌, Bool-cases}

module _ {ℓ} {A : Type ℓ} where
  abbrev pub length : List A → ℕ
  length [] = 0
  length (x ∷ xs) = suc (length xs)

  pub length-append : (xs ys : List A) → length (xs ++ ys) ≡ length xs + length ys
  length-append [] ys = omega arith
  length-append (x ∷ xs) ys = omega (arith, length-append xs ys)

  -- `xs.slice(0, n)`
  abbrev pub take : ℕ → List A → List A
  take zero xs = []
  take (suc n) [] = []
  take (suc n) (x ∷ xs) = x ∷ take n xs

  pub length-take : (n : ℕ) (xs : List A) → length (take n xs) ≡ min n (length xs)
  length-take zero xs = omega arith
  length-take (suc n) [] = omega arith
  length-take (suc n) (x ∷ xs) = omega (arith, length-take n xs)

  -- `xs.some(test)`
  abbrev pub any : (A → Bool) → List A → Bool
  any test [] = false
  any test (x ∷ xs) = test x || any test xs

  -- `xs.find(test)`
  abbrev pub find : (A → Bool) → List A → Option A
  find test [] = none
  find test (x ∷ xs) = if test x then some x else find test xs

  -- `xs.filter(test)`
  abbrev pub keep : (A → Bool) → List A → List A
  keep test [] = []
  keep test (x ∷ xs) = if test x then x ∷ keep test xs else keep test xs

  pub length-keep : (test : A → Bool) (xs : List A) → length (keep test xs) ≤ length xs
  length-keep test [] = omega arith
  length-keep test (x ∷ xs) = ground (arith, length-keep test xs)

-- `update` and `updateMany` of a table: the rows that meet the condition are changed.
abbrev pub update_where {ℓ} : {A : Type ℓ} → (A → Bool) → (A → A) → List A → List A
update_where test change [] = []
update_where test change (row ∷ rows) =
    (if test row then change row else row) ∷ update_where test change rows

module _ {ℓ} {A : Type ℓ} where
  pub update_where-Mem :
      (test : A → Bool) (change : A → A) (xs : List A) {y : A}
      → Memᴰ y (update_where test change xs)
      → (x : A) × Memᴰ x xs × (y ≡ (if test x then change x else x))
  update_where-Mem test change [] m = elim m [ ]
  update_where-Mem test change (x ∷ xs) (Memᴰ.head e) = (x, Memᴰ.head refl, e)
  update_where-Mem test change (x ∷ xs) (Memᴰ.tail m) =
      let (z, n, e) = update_where-Mem test change xs m in (z, Memᴰ.tail n, e)

  -- A search by what the change leaves alone finds the same row, changed.
  pub find-update_where :
      (key test : A → Bool) (change : A → A) (xs : List A) (x : A)
      → ((a : A) → key (change a) ≡ key a)
      → find key xs ≡ some x
      → find key (update_where test change xs) ≡ some (if test x then change x else x)
  find-update_where key test change [] x same h = ground arith
  find-update_where key test change (y ∷ ys) x same h =
      ground (arith, same y, find-update_where key test change ys x same)

-- A search by what a change of every row leaves alone.
module _ {ℓ} {A : Type ℓ} where
  pub find-map :
      (key : A → Bool) (f : A → A) (xs : List A) (x : A)
      → ((a : A) → key (f a) ≡ key a)
      → find key xs ≡ some x
      → find key (map f xs) ≡ some (f x)
  find-map key f [] x same h = ground arith
  find-map key f (y ∷ ys) x same h = ground (arith, same y, find-map key f ys x same)

  pub find-keep :
      (key test : A → Bool) (xs : List A) (x : A)
      → find key xs ≡ some x
      → test x ≡ true
      → find key (keep test xs) ≡ some x
  find-keep key test [] x h t = h
  find-keep key test (y ∷ ys) x h t = elim (Bool-cases (key y)) [
    | inl k ↦
        let h' = rw k at h in
        let e : y ≡ x = ground arith in
        let u : test y ≡ true = ap test e ∙ t in rw (u, k) (ap some e)
    | inr n ↦
        let h' = rw n at h in
        let r = find-keep key test ys x h' t in
        elim (Bool-cases (test y)) [ inl u ↦ rw (u, n) r | inr u ↦ rw u r ]
  ]

  pub find-map_other :
      (key : A → Bool) (f : A → A) (xs : List A)
      → ((a : A) → key (f a) ≡ key a)
      → ((a : A) → key a ≡ true → f a ≡ a)
      → find key (map f xs) ≡ find key xs
  find-map_other key f [] same kept = refl
  find-map_other key f (y ∷ ys) same kept = elim (Bool-cases (key y)) [
    | inl t ↦ rw (same y, t) (ap some (kept y t))
    | inr n ↦ rw (same y, n) (find-map_other key f ys same kept)
  ]

-- What a search says of the members.
module _ {ℓ} {A : Type ℓ} where
  pub any-false :
      (test : A → Bool) (xs : List A) {x : A} → any test xs ≡ false → Memᴰ x xs → test x ≡ false
  any-false test [] h m = elim m [ ]
  any-false test (y ∷ xs) h (Memᴰ.head e) = ground arith
  any-false test (y ∷ xs) h (Memᴰ.tail m) = any-false test xs (ground arith) m

  pub any-Mem :
      (test : A → Bool) (xs : List A) {x : A} → Memᴰ x xs → test x ≡ true → any test xs ≡ true
  any-Mem test [] m h = elim m [ ]
  any-Mem test (y ∷ xs) (Memᴰ.head e) h = ground arith
  any-Mem test (y ∷ xs) (Memᴰ.tail m) h = let r = any-Mem test xs m h in ground arith

  pub find-Mem :
      (test : A → Bool) (xs : List A) (x : A) → find test xs ≡ some x → Memᴰ x xs × (test x ≡ true)
  find-Mem test [] x h = ground arith
  find-Mem test (y ∷ xs) x h = elim (Bool-cases (test y)) [
    | inl t ↦ let e : y ≡ x = ground arith in (Memᴰ.head (sym e), ground arith)
    | inr f ↦ let r = find-Mem test xs x (ground arith) in (Memᴰ.tail r.0, r.1)
  ]

keep-cons-Mem {ℓ} :
    {A : Type ℓ} (test : A → Bool) (y : A) (ys zs : List A) {x : A} (b : Bool)
    → test y ≡ b
    → ((z : A) → Memᴰ z zs → Memᴰ z ys × (test z ≡ true))
    → Memᴰ x (if b then y ∷ zs else zs)
    → Memᴰ x (y ∷ ys) × (test x ≡ true)
keep-cons-Mem test y ys zs true t later (Memᴰ.head e) = (Memᴰ.head e, rw e t)
keep-cons-Mem test y ys zs {x} true t later (Memᴰ.tail n) =
    let r = later x n in (Memᴰ.tail r.0, r.1)
keep-cons-Mem test y ys zs {x} false t later n = let r = later x n in (Memᴰ.tail r.0, r.1)

pub keep-Mem {ℓ} :
    {A : Type ℓ} (test : A → Bool) (xs : List A) (x : A)
    → Memᴰ x (keep test xs)
    → Memᴰ x xs × (test x ≡ true)
keep-Mem test [] x m = elim m [ ]
keep-Mem test (y ∷ ys) x m =
    keep-cons-Mem test y ys (keep test ys) (test y) refl (keep-Mem test ys) m

pub map-Mem {ℓ κ} :
    {A : Type ℓ} {B : Type κ} (f : A → B) (xs : List A) {y : B}
    → Memᴰ y (map f xs)
    → (x : A) × Memᴰ x xs × (y ≡ f x)
map-Mem f [] m = elim m [ ]
map-Mem f (x ∷ xs) (Memᴰ.head e) = (x, Memᴰ.head refl, e)
map-Mem f (x ∷ xs) (Memᴰ.tail m) = let (z, n, e) = map-Mem f xs m in (z, Memᴰ.tail n, e)
