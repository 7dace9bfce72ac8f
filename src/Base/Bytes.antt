-- ===== src/Base/Bytes.antt =====
-- Text as its bytes.
use Prim.Native.Nat.{ℕ}
use Prim.Native.Char.{code}
use Prim.Native.String.{String}
use mathlib.Core.Path.{◌≡◌, refl, sym, ap, ◌∙◌}
use mathlib.Core.Logic.{◌↔◌, inl, inr}
use mathlib.Core.Option.{Option, none, some}
use mathlib.Core.Bool.{Bool, true, false, ◌&&◌}
use mathlib.Core.List.{List, [], ◌∷◌, ◌++◌}
use native.Mathlib.Omega.{arith}
use sdk_api.Base.Tests.{Eq, nat_beq, ◌==◌, ==_iff, if◌then◌else◌, Bool-cases, Option-cases}

-- A Go string: a sequence of bytes.
abbrev pub Bytes : Type 0
Bytes = List ℕ

-- An ASCII literal.
abbrev pub codes : String → Bytes
codes (String.◌∷◌ first rest) = code first ∷ codes rest
codes String.[] = []

abbrev pub bytes_beq : Bytes → Bytes → Bool
bytes_beq [] [] = true
bytes_beq [] (_ ∷ _) = false
bytes_beq (_ ∷ _) [] = false
bytes_beq (a ∷ s) (b ∷ t) = nat_beq a b && bytes_beq s t

pub bytes_beq_iff : (s t : Bytes) → (bytes_beq s t ≡ true) ↔ (s ≡ t)
bytes_beq_iff [] [] = ground arith
bytes_beq_iff [] (_ ∷ _) = ground arith
bytes_beq_iff (_ ∷ _) [] = ground arith
bytes_beq_iff (a ∷ s) (b ∷ t) = ground (arith, bytes_beq_iff s t)

instance abbrev pub bytes_eq : Eq Bytes
bytes_eq = record { is_same = bytes_beq; is_same_iff = bytes_beq_iff }

-- strings.HasPrefix, the prefix first.
abbrev pub is_prefix : Bytes → Bytes → Bool
is_prefix [] s = true
is_prefix (a ∷ p) [] = false
is_prefix (a ∷ p) (b ∷ s) = nat_beq a b && is_prefix p s

pub is_prefix_sound : (p s : Bytes) → is_prefix p s ≡ true → (rest : Bytes) × (s ≡ p ++ rest)
is_prefix_sound [] s e = (s, refl)
is_prefix_sound (a ∷ p) [] e = ground arith
is_prefix_sound (a ∷ p) (b ∷ s) e =
    let (rest, same) = is_prefix_sound p s (ground arith) in (rest, ground (arith, same))

pub is_prefix_complete : (p rest : Bytes) → is_prefix p (p ++ rest) ≡ true
is_prefix_complete [] rest = refl
is_prefix_complete (a ∷ p) rest = ground (arith, is_prefix_complete p rest)

-- strings.CutSuffix: `s` without the suffix, where it has it.
unfoldable pub cut_suffix : (suffix : Bytes) → Bytes → Option Bytes
cut_suffix suffix [] = if [] == suffix then some [] else none
cut_suffix suffix (c ∷ s) =
    let later : Option Bytes = elim (cut_suffix suffix s) [ none ↦ none | some t ↦ some (c ∷ t) ] in
    if (c ∷ s) == suffix then some [] else later

pub cut_suffix_sound : (suffix s t : Bytes) → cut_suffix suffix s ≡ some t → s ≡ t ++ suffix
unfolding cut_suffix
cut_suffix_sound suffix [] t e = ground (arith, ==_iff [] suffix)
cut_suffix_sound suffix (c ∷ s) t e = elim (Bool-cases ((c ∷ s) == suffix)) [
  | inl whole ↦ let is : (c ∷ s) ≡ suffix = (==_iff (c ∷ s) suffix).0 whole in ground arith
  | inr more ↦ elim (Option-cases (cut_suffix suffix s)) [
    | inl none_found ↦ ground arith
    | inr (u, found) ↦
        let ih = cut_suffix_sound suffix s u found in
        let is : t ≡ c ∷ u = ground arith in
        ap (λ (r : Bytes). c ∷ r) ih ∙ ap (λ (r : Bytes). r ++ suffix) (sym is)
  ]
]
