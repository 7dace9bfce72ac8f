-- ===== src/Base/Text.antt =====
-- What the program uses of Go's strings and strconv, over bytes; letter case and white space are
-- those of ASCII.
use sdk_api.Base.{
  ℕ, zero, suc, ◌+◌, ◌-◌, ◌≡◌, refl, Bool, true, false, ◌&&◌, ◌||◌, Option, none, some, List, [],
  ◌∷◌, ◌++◌, arith, leb, ◌==◌, nat_eq, string_eq, if◌then◌else◌, All,
}
use sdk_api.Base.Bytes.{Bytes, bytes_eq, is_prefix}

abbrev within : (low high c : ℕ) → Bool
within low high c = leb low c && leb c high

abbrev pub is_space : ℕ → Bool
is_space c = c == 32 || within 9 13 c

unfoldable pub trim_left : Bytes → Bytes
trim_left [] = []
trim_left (c ∷ s) = if is_space c then trim_left s else c ∷ s

unfoldable pub trim_right : Bytes → Bytes
trim_right [] = []
trim_right (c ∷ s) = elim (trim_right s) [
  | [] ↦ if is_space c then [] else c ∷ []
  | d ∷ t ↦ c ∷ d ∷ t
]

-- strings.TrimSpace.
abbrev pub trim : Bytes → Bytes
trim s = trim_right (trim_left s)

abbrev pub is_digit : ℕ → Bool
is_digit c = within b'0' b'9' c

abbrev pub lower_byte : ℕ → ℕ
lower_byte c = if within b'A' b'Z' c then c + 32 else c

abbrev pub upper_byte : ℕ → ℕ
upper_byte c = if within b'a' b'z' c then c - 32 else c

-- strings.ToLower and strings.ToUpper.
abbrev pub to_lower : Bytes → Bytes
to_lower [] = []
to_lower (c ∷ s) = lower_byte c ∷ to_lower s

abbrev pub to_upper : Bytes → Bytes
to_upper [] = []
to_upper (c ∷ s) = upper_byte c ∷ to_upper s

-- `s[n:]`.
abbrev pub drop : ℕ → Bytes → Bytes
drop zero s = s
drop (suc n) [] = []
drop (suc n) (c ∷ s) = drop n s

-- strings.Index, the text that is sought first.
unfoldable pub index : Bytes → Bytes → Option ℕ
index sub [] = if sub == [] then some 0 else none
index sub (c ∷ s) =
    let later : Option ℕ = elim (index sub s) [ none ↦ none | some i ↦ some (suc i) ] in
    if is_prefix sub (c ∷ s) then some 0 else later

-- strings.TrimSuffix of one byte.
unfoldable pub trim_suffix_byte : ℕ → Bytes → Bytes
trim_suffix_byte b [] = []
trim_suffix_byte b (c ∷ []) = if c == b then [] else c ∷ []
trim_suffix_byte b (c ∷ d ∷ s) = c ∷ trim_suffix_byte b (d ∷ s)

-- strings.Fields, with the field that has begun.
unfoldable pub fields_from : Bytes → Bytes → List Bytes
fields_from begun [] = if begun == [] then [] else begun ∷ []
fields_from begun (c ∷ s) =
    let ended = fields_from [] s in
    let longer = fields_from (begun ++ c ∷ []) s in
    if is_space c then (if begun == [] then ended else begun ∷ ended) else longer

abbrev pub fields : Bytes → List Bytes
fields = fields_from []

-- strings.Join.
abbrev pub join : Bytes → List Bytes → Bytes
join sep [] = []
join sep (t ∷ []) = t
join sep (t ∷ u ∷ ts) = t ++ (sep ++ join sep (u ∷ ts))

-- The bytes at the front of a text that pass a test, and what follows them.
abbrev pub front : (ℕ → Bool) → Bytes → Bytes
front p [] = []
front p (c ∷ s) = if p c then c ∷ front p s else []

abbrev pub after : (ℕ → Bool) → Bytes → Bytes
after p [] = []
after p (c ∷ s) = if p c then after p s else c ∷ s

pub append-front : (p : ℕ → Bool) (s : Bytes) → s ≡ front p s ++ after p s
append-front p [] = refl
append-front p (c ∷ s) = ground (arith, append-front p s)

-- The first byte, if there is one, passes the test.
abbrev pub starts : (ℕ → Bool) → Bytes → Bool
starts p [] = false
starts p (c ∷ s) = p c

pub front-append :
    (p : ℕ → Bool) (t s : Bytes)
    → All (λ c. p c ≡ true) t
    → starts p s ≡ false
    → (front p (t ++ s) ≡ t) × (after p (t ++ s) ≡ s)
front-append p [] [] all none_left = (refl, refl)
front-append p [] (c ∷ s) all none_left = ground arith
front-append p (c ∷ t) s all none_left = ground (arith, front-append p t s all.1 none_left)
