-- ===== src/Query/Calls.antt =====
-- takePlaceholder and takeFunction on each kind of piece.
use sdk_api.Base.{
  ℕ, zero, suc, ◌≤◌, ◌<◌, ◌≡◌, refl, ◌≢◌, ◌⊎◌, inl, inr, true, false, not, none, some, List, [],
  ◌∷◌, ◌++◌, arith, nat_eq, string_eq, length, get_elem?, All,
}
use sdk_api.Base.Bytes.{Bytes, codes, bytes_eq}
use sdk_api.Base.Text.{is_digit, starts, front-append}
use sdk_api.Base.Decimal.{value_from, max_int}
use sdk_api.Query.Reading.{is_open, is_plus, ends_in_function}
use sdk_api.Query.{
  SqlDialect, random_uuid_expr, now, add_interval, is_ident_start, is_ident_part, skip_space,
  is_quote, take_placeholder, match_call, take_quoted, take_interval, take_function,
}

match_call_closed : (s : Bytes) → starts is_open (skip_space s) ≡ false → match_call s ≡ none
unfolding match_call
match_call_closed s closed = ground arith

-- A word in which no function ends, or that no parenthesis follows, is not translated at any byte.
pub take_function-word :
    (d : SqlDialect) (c : ℕ) (w s : Bytes)
    → All (λ e. is_ident_part e ≡ true) w
    → starts is_ident_part s ≡ false
    → (starts is_open (skip_space s) ≡ false) ⊎ (ends_in_function (c ∷ w) ≡ false)
    → take_function d (c ∷ (w ++ s)) ≡ none
unfolding take_function
take_function-word d c w s all apart quiet =
    let (read, left) = front-append is_ident_part w s all apart in
    elim quiet [
      | inl closed ↦ ground (arith, read, left, match_call_closed s closed)
      | inr other ↦ ground (arith, read, left)
    ]

pub ends_in_function-tail :
    (c : ℕ) (w : Bytes) → ends_in_function (c ∷ w) ≡ false → ends_in_function w ≡ false
ends_in_function-tail c w e = ground arith

pub take_function-byte :
    (d : SqlDialect) (c : ℕ) (s : Bytes) → is_ident_start c ≡ false → take_function d (c ∷ s) ≡ none
unfolding take_function
take_function-byte d c s other = rw other refl

pub take_placeholder-byte :
    (c n : ℕ) (s : Bytes)
    → (c ≢ b'$') ⊎ (starts is_digit s ≡ false)
    → take_placeholder (c ∷ s) n ≡ none
unfolding take_placeholder
take_placeholder-byte c n [] other = ground arith
take_placeholder-byte c n (e ∷ s) other = ground arith

pub take_placeholder-digits :
    (digits s : Bytes) (k nargs : ℕ)
    → All (λ c. is_digit c ≡ true) digits
    → starts is_digit s ≡ false
    → value_from 0 digits ≡ suc k
    → suc k ≤ nargs
    → nargs ≤ max_int
    → take_placeholder (b'$' ∷ (digits ++ s)) nargs ≡ some (suc k, digits)
unfolding take_placeholder
take_placeholder-digits [] s k nargs all apart spelled few fits = absurd (omega (arith, spelled))
take_placeholder-digits (c ∷ more) s k nargs all apart spelled few fits =
    let read = (front-append is_digit (c ∷ more) s all apart).0 in rw (read, spelled) (ground arith)

not_quotes-All :
    (s : Bytes) → All (λ c. is_quote c ≡ false) s → All (λ c. not (is_quote c) ≡ true) s
not_quotes-All [] all = tt
not_quotes-All (c ∷ s) all = (rw all.0 refl, not_quotes-All s all.1)

pub get_elem?_lt {ℓ} :
    {A : Type ℓ} (xs : List A) (k : ℕ) (a : A) → get_elem? xs k ≡ some a → k < length xs
get_elem?_lt [] k a e = absurd (cc)
get_elem?_lt (x ∷ xs) zero a e = omega arith
get_elem?_lt (x ∷ xs) (suc k) a e = omega (arith, get_elem?_lt xs k a e)

pub take_function-now :
    (d : SqlDialect) (s : Bytes)
    → starts is_plus (skip_space s) ≡ false
    → take_function d (codes "now()" ++ s) ≡ some (now d, s)
unfolding take_function match_call take_interval
take_function-now d s apart = ground arith

pub take_function-later :
    (d : SqlDialect) (interval s : Bytes)
    → All (λ c. is_quote c ≡ false) interval
    → take_function d (codes "now() + interval '" ++ (interval ++ b'\'' ∷ s))
      ≡ some (add_interval d (now d) interval, s)
unfolding take_function match_call take_interval take_quoted
take_function-later d interval s all =
    let (read, left) =
      front-append (λ e. not (is_quote e)) interval (b'\'' ∷ s) (not_quotes-All interval all)
        refl in
    ground (arith, read, left)

pub take_function-uuid :
    (d : SqlDialect) (s : Bytes)
    → take_function d (codes "gen_random_uuid()" ++ s) ≡ some (random_uuid_expr d, s)
unfolding take_function match_call
take_function-uuid d s = refl
