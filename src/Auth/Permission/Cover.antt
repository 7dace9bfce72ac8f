-- ===== src/Auth/Permission/Cover.antt =====
-- runtime/auth/role.go, `MatchPermission` and `MatchAnyPermission`: which permissions are covered.
use sdk_api.Base.{
  ℕ, zero, suc, ◌≡◌, refl, ap, ◌∙◌, ◌↔◌, inl, inr, true, false, some, List, [], ◌∷◌, ◌++◌, arith,
  ◌==◌, ==_iff, nat_eq, string_eq, Bool-cases, Option-cases, length, take, length-append, contains,
  contains-cons_cases,
}
use sdk_api.Base.Bytes.{Bytes, bytes_eq}
use sdk_api.Auth.Permission.{index_byte, match_permission, match_any_permission}

-- A granted permission covers itself, and what begins with the part before its first star.
pub data Covers (granted required : Bytes) : Type 0 where
  exact : granted ≡ required → Covers granted required
  wildcard :
      (prefix after rest : Bytes)
      → granted ≡ prefix ++ b'*' ∷ after
      → contains prefix b'*' ≡ false
      → required ≡ prefix ++ rest
      → Covers granted required

take-append : (p q : Bytes) → take (length p) (p ++ q) ≡ p
take-append [] q = refl
take-append (x ∷ p) q = rw (take-append p q)

index_byte-append :
    (p after : Bytes) (b : ℕ)
    → contains p b ≡ false
    → index_byte (p ++ b ∷ after) b ≡ some (length p)
unfolding index_byte contains
index_byte-append [] after b n = ground (arith, ==_iff b b)
index_byte-append (c ∷ p) after b n = ground (arith, index_byte-append p after b)

index_byte_miss :
    (c b i : ℕ) (s : Bytes)
    → (c == b) ≡ false
    → index_byte (c ∷ s) b ≡ some i
    → (j : ℕ) × (index_byte s b ≡ some j) × (i ≡ suc j)
unfolding index_byte
index_byte_miss c b i s miss e = ground arith

-- A found star splits the text at its first occurrence.
index_byte_split :
    (s : Bytes) (b i : ℕ)
    → index_byte s b ≡ some i
    → (after : Bytes) × (s ≡ take i s ++ b ∷ after) × (contains (take i s) b ≡ false)
unfolding index_byte contains
index_byte_split [] b i e = cc
index_byte_split (c ∷ s) b i e = elim (Bool-cases (c == b)) [
  | inl hit ↦
      let at_start : i ≡ 0 = ground arith in
      rw at_start (s, ap (λ (x : ℕ). x ∷ s) ((==_iff c b).0 hit), refl)
  | inr miss ↦
      let (j, later, next) = index_byte_miss c b i s miss e in
      let (after, split, clear) = index_byte_split s b j later in
      rw next (after, ap (λ (x : Bytes). c ∷ x) split, ground arith)
]

prefix_split : (n : ℕ) (s : Bytes) → (rest : Bytes) × (s ≡ take n s ++ rest)
prefix_split zero s = (s, refl)
prefix_split (suc n) [] = ([], refl)
prefix_split (suc n) (x ∷ s) =
    let (rest, h) = prefix_split n s in (rest, ap (λ (t : Bytes). x ∷ t) h)

match_permission_sound :
    (granted required : Bytes) → match_permission granted required ≡ true → Covers granted required
unfolding match_permission
match_permission_sound granted required e = elim (Bool-cases (granted == required)) [
  | inl same ↦ exact ((==_iff granted required).0 same)
  | inr differs ↦ elim (Option-cases (index_byte granted b'*')) [
    | inl missing ↦ absurd (ground arith)
    | inr (i, found) ↦
        let (after, split, clear) = index_byte_split granted b'*' i found in
        let begins : (take (length (take i granted)) required == take i granted) ≡ true =
          ground arith in
        let (rest, whole) = prefix_split (length (take i granted)) required in
        wildcard (take i granted) after rest split clear (
          whole
          ∙ ap (λ (x : Bytes). x ++ rest)
              ((==_iff (take (length (take i granted)) required) (take i granted)).0 begins))
  ]
]

match_permission_complete :
    (granted required : Bytes) → Covers granted required → match_permission granted required ≡ true
unfolding match_permission
match_permission_complete granted required (exact same) = ground (arith, ==_iff granted required)
match_permission_complete granted required (wildcard prefix after rest split clear begins) =
    rw (split, begins)
      (ground (
        arith,
        index_byte-append prefix after b'*' clear,
        take-append prefix (b'*' ∷ after),
        take-append prefix rest,
        length-append prefix rest,
        ==_iff prefix prefix,
      ))

-- `MatchPermission(granted, required)` is true exactly when the two are equal, or `granted` has a
-- star and `required` begins with what stands before the first one.
pub match_permission_iff :
    (granted required : Bytes)
    → (match_permission granted required ≡ true) ↔ Covers granted required
match_permission_iff granted required =
    (match_permission_sound granted required, match_permission_complete granted required)

match_any_permission_sound :
    (granted : List Bytes) (required : Bytes)
    → match_any_permission granted required ≡ true
    → (g : Bytes) × (contains granted g ≡ true) × Covers g required
unfolding match_any_permission contains
match_any_permission_sound [] required e = cc
match_any_permission_sound (g ∷ granted) required e =
    elim (Bool-cases (match_permission g required)) [
      | inl hit ↦ (g, ground (arith, ==_iff g g), (match_permission_iff g required).0 hit)
      | inr miss ↦
          let (g', m, c) = match_any_permission_sound granted required (ground arith) in
          (g', ground arith, c)
    ]

match_any_permission_complete :
    (granted : List Bytes) (required g : Bytes)
    → contains granted g ≡ true
    → Covers g required
    → match_any_permission granted required ≡ true
unfolding match_any_permission
match_any_permission_complete [] required g m c = unfold contains in cc
match_any_permission_complete (x ∷ granted) required g m c =
    elim (contains-cons_cases x g granted m) [
      | inl same ↦ let hit = (match_permission_iff g required).1 c in ground arith
      | inr later ↦
          let hit = match_any_permission_complete granted required g later c in ground arith
    ]

-- `MatchAnyPermission` is true exactly when one of the granted permissions covers the required one.
pub match_any_permission_iff :
    (granted : List Bytes) (required : Bytes)
    → (match_any_permission granted required ≡ true)
      ↔ ((g : Bytes) × (contains granted g ≡ true) × Covers g required)
match_any_permission_iff granted required = (
  match_any_permission_sound granted required,
  λ (g, m, c). match_any_permission_complete granted required g m c,
)
