-- ===== src/Base/Decimal.antt =====
-- Decimal numbers: `%d` and strconv.Itoa print them, strconv.Atoi reads them into an int of 64 bits.
use mathlib.Core.Logic.{dite}
use mathlib.Core.WellFounded.{Acc, WellFounded}
use native.Mathlib.Decide.{dec_lt}
use sdk_api.Base.{
  ℕ, zero, suc, ◌+◌, ◌-◌, ◌*◌, ◌<◌, ◌/◌, ◌%◌, ◌^◌, ◌≡◌, refl, ap, ◌∙◌, ◌≢◌, Bool, true, not, ◌&&◌,
  ◌||◌, Option, none, some, [], ◌∷◌, arith, ltb, leb, ◌==◌, nat_eq, string_eq, if◌then◌else◌,
}
use sdk_api.Base.Bytes.{Bytes, bytes_eq}
use sdk_api.Base.Text.{is_digit}

pub data ℤ : Type 0 where
  pos negsuc : ℕ → ℤ

abbrev pub max_int : ℕ
max_int = 2 ^ 63 - 1

accessible : (bound n : ℕ) → n < bound → Acc ◌<◌ n
accessible zero n h = absurd (omega arith)
accessible (suc bound) n h = Acc.intro n λ m below. accessible bound m (omega arith)

unfoldable pub below_wf : WellFounded ◌<◌
unfolding accessible
below_wf = record { apply = λ n. accessible (suc n) n (omega arith) }

-- The digits of `n`, in front of those that are written.
unfoldable pub itoa_from : (n : ℕ) → Acc ◌<◌ n → Bytes → Bytes
itoa_from n (Acc.intro _ smaller) written =
    dite (dec_lt n 10) (λ _. (b'0' + n) ∷ written)
      (λ many.
        itoa_from (n / 10) (smaller (n / 10) (omega (arith, many))) ((b'0' + n % 10) ∷ written))

-- strconv.Itoa of a number that is not negative.
unfoldable pub itoa : ℕ → Bytes
unfolding below_wf
itoa n = itoa_from n (below_wf.apply n) []

unfoldable pub print_int : ℤ → Bytes
print_int (pos n) = itoa n
print_int (negsuc n) = b'-' ∷ itoa (suc n)

-- The number that digits spell behind `n`.
abbrev pub value_from : ℕ → Bytes → ℕ
value_from n [] = n
value_from n (c ∷ s) = value_from (n * 10 + (c - b'0')) s

abbrev pub all_digits : Bytes → Bool
all_digits [] = true
all_digits (c ∷ s) = is_digit c && all_digits s

-- The number that digits spell, as strconv.Atoi gives it when its error is not looked at.
abbrev pub clamped : Bytes → ℕ
clamped s = if ltb max_int (value_from 0 s) then max_int else value_from 0 s

abbrev unsigned : Bytes → Option ℕ
unsigned s = if s == [] || not (all_digits s) then none else some (value_from 0 s)

-- strconv.Atoi, `none` where it gives an error.
unfoldable pub atoi : Bytes → Option ℤ
atoi [] = none
atoi (c ∷ t) =
    if c == b'-'
    then elim (unsigned t) [
      | none ↦ none
      | some zero ↦ some (pos 0)
      | some (suc n) ↦ if leb n max_int then some (negsuc n) else none
    ]
    else elim (unsigned (if c == b'+' then t else c ∷ t)) [
      | none ↦ none
      | some n ↦ if leb n max_int then some (pos n) else none
    ]

-- What holds of a last digit and is kept by every round of the loop holds of the text.
itoa_from-Holds :
    (P : ℕ → Bytes → Bytes → Type 0)
    → ((n : ℕ) (written : Bytes) → n < 10 → P n written ((b'0' + n) ∷ written))
    → ((n : ℕ) (written text : Bytes)
        → P (n / 10) ((b'0' + n % 10) ∷ written) text
        → P n written text)
    → (n : ℕ) (acc : Acc ◌<◌ n) (written : Bytes) → P n written (itoa_from n acc written)
unfolding itoa_from
itoa_from-Holds P last round n (Acc.intro _ smaller) written =
    elim (dec_lt n 10)
      as (λ d. P n written (
        dite d (λ _. (b'0' + n) ∷ written)
          (λ many.
            itoa_from (n / 10) (smaller (n / 10) (omega (arith, many)))
              ((b'0' + n % 10) ∷ written)))) [
                | yes few ↦ last n written few
                | no many ↦ round n written _ (
                    itoa_from-Holds P last round (n / 10) (smaller (n / 10) (omega (arith, many)))
                      _)
              ]

-- A printed number is read back.
pub value_from-itoa : (n : ℕ) → value_from 0 (itoa n) ≡ n
unfolding itoa
value_from-itoa n =
    itoa_from-Holds (λ m written text. value_from 0 text ≡ value_from m written)
      (λ m written few. ap (λ k. value_from k written) (omega arith))
      (λ m written text ih. ih ∙ ap (λ k. value_from k written) (omega arith)) n _ []

-- A printed number is one or more digits.
pub itoa_of_All : (n : ℕ) → (all_digits (itoa n) ≡ true) × (itoa n ≢ [])
unfolding itoa
itoa_of_All n =
    itoa_from-Holds
      (λ m written text. all_digits written ≡ true → (all_digits text ≡ true) × (text ≢ []))
      (λ m written few rest. ground arith) (λ m written text ih rest. ih (ground arith)) n _ [] refl
