-- ===== src/Pagination/Pages/Slices.antt =====
-- db/pagination.go: the beginnings and the rests of lists of rows.
use sdk_api.Base.{
  ℕ, zero, suc, ◌-◌, ◌≤◌, ◌<◌, ◌≡◌, refl, ap, List, [], ◌∷◌, ◌++◌, arith, nat_eq, string_eq, length,
  take,
}
use sdk_api.Pagination.Pages.{drop}

module _ {Row : Type 0} where
  pub length-take_le : (n : ℕ) (rs : List Row) → length (take n rs) ≤ n
  length-take_le zero rs = omega arith
  length-take_le (suc n) [] = omega arith
  length-take_le (suc n) (r ∷ rs) = omega (arith, length-take_le n rs)

  pub take_all : (n : ℕ) (rs : List Row) → length rs ≤ n → take n rs ≡ rs
  take_all zero [] h = refl
  take_all (suc n) [] h = refl
  take_all zero (r ∷ rs) h = absurd (omega arith)
  take_all (suc n) (r ∷ rs) h = ap (λ (t : List Row). r ∷ t) (take_all n rs (omega arith))

  pub take-take-suc : (n : ℕ) (rs : List Row) → take n (take (suc n) rs) ≡ take n rs
  take-take-suc zero rs = refl
  take-take-suc (suc n) [] = refl
  take-take-suc (suc n) (r ∷ rs) = ap (λ (t : List Row). r ∷ t) (take-take-suc n rs)

  pub take-append-drop : (n : ℕ) (rs : List Row) → take n rs ++ drop n rs ≡ rs
  take-append-drop zero rs = refl
  take-append-drop (suc n) [] = refl
  take-append-drop (suc n) (r ∷ rs) = ap (λ (t : List Row). r ∷ t) (take-append-drop n rs)

  pub length-drop : (n : ℕ) (rs : List Row) → length (drop n rs) ≡ length rs - n
  length-drop zero rs = omega arith
  length-drop (suc n) [] = omega arith
  length-drop (suc n) (r ∷ rs) = omega (arith, length-drop n rs)

  pub length-take_lt : (n : ℕ) (rs : List Row) → n < length (take (suc n) rs) → n < length rs
  length-take_lt n [] h = elim h [ ]
  length-take_lt zero (r ∷ rs) h = omega arith
  length-take_lt (suc n) (r ∷ rs) h = omega (arith, length-take_lt n rs (omega arith))

  pub length-take_ge : (n : ℕ) (rs : List Row) → length (take (suc n) rs) ≤ n → length rs ≤ n
  length-take_ge n [] h = omega arith
  length-take_ge zero (r ∷ rs) h = absurd (omega arith)
  length-take_ge (suc n) (r ∷ rs) h = omega (arith, length-take_ge n rs (omega arith))
