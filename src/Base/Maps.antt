-- ===== src/Base/Maps.antt =====
-- Go maps as association lists over keys with equality. A key written twice is replaced in place,
-- so a map built by `insert` holds each key once; iteration meets the entries in list order.
use mathlib.Core.Path.{◌≡◌, refl}
use mathlib.Core.Logic.{◌⊎◌, inl, inr}
use mathlib.Core.Bool.{Bool, true, false, ◌||◌}
use mathlib.Core.Option.{Option, none, some}
use mathlib.Core.List.{List, [], ◌∷◌}
use native.Mathlib.Omega.{arith}
use sdk_api.Base.Tests.{Bool-cases, Eq, ◌==◌, ==_iff, if◌then◌else◌}

abbrev pub Map {ℓ κ} : Type ℓ → Type κ → Type (ℓ ⊔ κ)
Map K V = List (K × V)

-- Membership in a Go slice or in a set kept as a list (a `map[K]bool`, `slices.Contains`).
unfoldable pub contains {ℓ} : {K : Type ℓ} ⦃e : Eq K⦄ → List K → K → Bool
contains [] x = false
contains (y ∷ ys) x = y == x || contains ys x

module _ {ℓ κ} {K : Type ℓ} {V : Type κ} ⦃e : Eq K⦄ where
  unfoldable pub delete : K → Map K V → Map K V
  delete key [] = []
  delete key ((first, value) ∷ rows) =
      let later = delete key rows in if first == key then later else (first, value) ∷ later

  unfoldable pub lookup : K → Map K V → Option V
  lookup key [] = none
  lookup key ((first, value) ∷ rows) = if first == key then some value else lookup key rows

  unfoldable pub insert : K → V → Map K V → Map K V
  insert key new [] = (key, new) ∷ []
  insert key new ((first, value) ∷ rows) =
      if first == key then (key, new) ∷ rows else (first, value) ∷ insert key new rows

  pub lookup-insert :
      (key at : K) (new : V) (rows : Map K V)
      → lookup at (insert key new rows) ≡ (if key == at then some new else lookup at rows)
  unfolding insert lookup
  lookup-insert key at new [] = refl
  lookup-insert key at new ((first, value) ∷ rows) =
      let rest = lookup-insert key at new rows in
      ground (arith, rest, ==_iff first key, ==_iff first at, ==_iff key at)

  pub lookup-delete :
      (key at : K) (rows : Map K V)
      → lookup at (delete key rows) ≡ (if key == at then none else lookup at rows)
  unfolding delete lookup
  lookup-delete key at [] = ground arith
  lookup-delete key at ((first, value) ∷ rows) =
      let rest = lookup-delete key at rows in
      ground (arith, rest, ==_iff first key, ==_iff first at, ==_iff key at)

pub contains-cons_self {ℓ} :
    {K : Type ℓ} ⦃e : Eq K⦄ (x : K) (ys : List K) → contains (x ∷ ys) x ≡ true
unfolding contains
contains-cons_self x ys = ground (arith, ==_iff x x)

pub contains-cons_of_contains {ℓ} :
    {K : Type ℓ} ⦃e : Eq K⦄ (y x : K) (ys : List K)
    → contains ys x ≡ true
    → contains (y ∷ ys) x ≡ true
unfolding contains
contains-cons_of_contains y x ys h = ground arith

pub contains-cons_cases {ℓ} :
    {K : Type ℓ} ⦃e : Eq K⦄ (y x : K) (ys : List K)
    → contains (y ∷ ys) x ≡ true
    → (y ≡ x) ⊎ (contains ys x ≡ true)
unfolding contains
contains-cons_cases y x ys h = ground (arith, ==_iff y x)

-- Distinct keys, as every Go map has them.
abbrev pub IsMap {ℓ κ} : {K : Type ℓ} {V : Type κ} ⦃e : Eq K⦄ → Map K V → Type κ
IsMap [] = Unit
IsMap ((k, v) ∷ m) = (lookup k m ≡ none) × IsMap m

-- `for k, v := range m { if !keep(k, v) { delete(m, k) } }`.
unfoldable pub retain {ℓ κ} : {K : Type ℓ} {V : Type κ} → (K → V → Bool) → Map K V → Map K V
retain keep [] = []
retain keep ((k, v) ∷ m) = if keep k v then (k, v) ∷ retain keep m else retain keep m

abbrev pub kept {ℓ κ} : {K : Type ℓ} {V : Type κ} → (K → V → Bool) → K → Option V → Option V
kept keep k none = none
kept keep k (some v) = if keep k v then some v else none

module _ {ℓ κ} {K : Type ℓ} {V : Type κ} ⦃e : Eq K⦄ where
  pub insert-IsMap : (k : K) (v : V) (m : Map K V) → IsMap m → IsMap (insert k v m)
  unfolding insert lookup
  insert-IsMap k v [] h = (refl, tt)
  insert-IsMap k v ((j, w) ∷ m) h =
      ground (arith, insert-IsMap k v m, lookup-insert k j v m, ==_iff j k, ==_iff k j)

  pub delete-IsMap : (k : K) (m : Map K V) → IsMap m → IsMap (delete k m)
  unfolding delete
  delete-IsMap k [] h = tt
  delete-IsMap k ((j, w) ∷ m) h =
      ground (arith, delete-IsMap k m, lookup-delete k j m, ==_iff j k, ==_iff k j)

  pub lookup-retain :
      (keep : K → V → Bool) (k : K) (m : Map K V)
      → IsMap m
      → lookup k (retain keep m) ≡ kept keep k (lookup k m)
  unfolding lookup retain
  lookup-retain keep k [] h = refl
  lookup-retain keep k ((j, w) ∷ m) h = elim (Bool-cases (j == k)) [
    | inl same ↦
        let e : j ≡ k = (==_iff j k).0 same in
        let absent : lookup k m ≡ none = rw e at h.0 in
        let ih = lookup-retain keep k m h.1 in rw e (ground (arith, ==_iff k k))
    | inr other ↦ ground (arith, lookup-retain keep k m)
  ]

  pub retain-IsMap : (keep : K → V → Bool) (m : Map K V) → IsMap m → IsMap (retain keep m)
  unfolding retain
  retain-IsMap keep [] h = tt
  retain-IsMap keep ((j, w) ∷ m) h = ground (arith, retain-IsMap keep m, lookup-retain keep j m)
