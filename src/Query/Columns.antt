-- ===== src/Query/Columns.antt =====
-- Names of columns in the text of a clause: trimming them, finding the first of them, closing their list.
use mathlib.Core.List.{append-nil, append_assoc}
use sdk_api.Base.{
  ℕ, ◌≡◌, refl, ap, ◌∙◌, ◌≢◌, true, false, not, List, [], ◌∷◌, ◌++◌, arith, ◌==◌, nat_eq, string_eq,
  All,
}
use sdk_api.Base.Bytes.{Bytes, codes, bytes_eq}
use sdk_api.Base.Text.{is_space, trim_left, trim_right, trim, join, after, starts, front-append}
use sdk_api.Query.Upsert.{
  is_mark, ends_column, is_space_only, trim_marks_right, trim_marks, first_column, closing,
  conflict_target,
}
use sdk_api.Query.{is_ident_part}

-- The name of a column: one or more bytes of an identifier.
abbrev pub IsColumn : Bytes → Type 0
IsColumn col = (col ≢ []) × All (λ c. is_ident_part c ≡ true) col

abbrev pub Ident : Bytes → Type 0
Ident = All (λ c. is_ident_part c ≡ true)

-- A text that strings.TrimSpace leaves as it is on the right.
abbrev pub IsTrimmed : Bytes → Type 0
IsTrimmed s = (s ≢ []) × (trim_right s ≡ s)

pub cons_ne {ℓ} : {A : Type ℓ} (x : A) (xs : List A) → (x ∷ xs) ≢ []
cons_ne x xs e = cc

pub trim_right-Ident : (c : ℕ) (s : Bytes) → Ident (c ∷ s) → trim_right (c ∷ s) ≡ c ∷ s
unfolding trim_right
trim_right-Ident c [] all = ground (arith, all.0)
trim_right-Ident c (e ∷ s) all = rw (trim_right-Ident e s all.1) refl

pub cons-IsTrimmed : (c : ℕ) (u : Bytes) → IsTrimmed u → IsTrimmed (c ∷ u)
unfolding trim_right
cons-IsTrimmed c [] h = absurd (h.0 refl)
cons-IsTrimmed c (e ∷ u) h = (cons_ne c _, rw h.1 refl)

pub append-IsTrimmed : (s t : Bytes) → IsTrimmed t → IsTrimmed (s ++ t)
append-IsTrimmed [] t h = h
append-IsTrimmed (c ∷ s) t h = cons-IsTrimmed c (s ++ t) (append-IsTrimmed s t h)

pub column-IsTrimmed : (col : Bytes) → IsColumn col → IsTrimmed col
column-IsTrimmed [] h = absurd (h.0 refl)
column-IsTrimmed (c ∷ s) h = (h.0, trim_right-Ident c s h.1)

pub join-IsTrimmed :
    (t : Bytes) (ts : List Bytes) → All IsTrimmed (t ∷ ts) → IsTrimmed (join (codes ", ") (t ∷ ts))
join-IsTrimmed t [] all = all.0
join-IsTrimmed t (u ∷ ts) all =
    append-IsTrimmed t _ (append-IsTrimmed (codes ", ") _ (join-IsTrimmed u ts all.1))

-- The text has no parenthesis.
abbrev pub Flat : Bytes → Type 0
Flat = All (λ c. (c ≢ b'(') × (c ≢ b')'))

pub closing-Flat : (t s : Bytes) → Flat t → closing 1 (t ++ (b')' ∷ s)) ≡ (t ++ codes ")", s)
unfolding closing
closing-Flat [] s flat = refl
closing-Flat (c ∷ t) s flat = ground (arith, closing-Flat t s flat.1)

pub Flat-Ident : (w s : Bytes) → Ident w → Flat s → Flat (w ++ s)
Flat-Ident [] s all flat = flat
Flat-Ident (c ∷ w) s all flat = (ground (arith, all.0), Flat-Ident w s all.1 flat)

pub Flat-join :
    (w : Bytes) (ws : List Bytes) → All IsColumn (w ∷ ws) → Flat (join (codes ", ") (w ∷ ws))
Flat-join w [] all = rw (← append-nil w) (Flat-Ident w [] all.0.1 tt)
Flat-join w (u ∷ ws) all =
    Flat-Ident w _ all.0.1
      ((omega arith, omega arith), ((omega arith, omega arith), Flat-join u ws all.1))

pub trim_marks_right-Ident : (c : ℕ) (s : Bytes) → Ident (c ∷ s) → trim_marks_right (c ∷ s) ≡ c ∷ s
unfolding trim_marks_right
trim_marks_right-Ident c [] all = ground (arith, all.0)
trim_marks_right-Ident c (e ∷ s) all = rw (trim_marks_right-Ident e s all.1) refl

pub trim_marks-trim : (w : Bytes) → IsColumn w → trim_marks (trim w) ≡ w
unfolding trim_left
trim_marks-trim [] h = absurd (h.0 refl)
trim_marks-trim (c ∷ w) h =
    let no_space : is_space c ≡ false = ground (arith, h.1.0) in
    let no_mark : is_mark c ≡ false = ground (arith, h.1.0) in
    rw (no_space, trim_right-Ident c w h.1, no_mark) (trim_marks_right-Ident c w h.1)

pub not-ends_column-All : (w : Bytes) → Ident w → All (λ c. not (ends_column c) ≡ true) w
not-ends_column-All [] all = tt
not-ends_column-All (c ∷ w) all = (ground (arith, all.0), not-ends_column-All w all.1)

pub first_column-append :
    (w s : Bytes)
    → IsColumn w
    → starts (λ c. not (ends_column c)) s ≡ false
    → first_column (b'(' ∷ (w ++ s)) ≡ w
unfolding first_column
first_column-append w s h apart =
    ap (λ t. trim_marks (trim t))
      (front-append (λ c. not (ends_column c)) w s (not-ends_column-All w h.1) apart).0
    ∙ trim_marks-trim w h

pub first_column-list :
    (w : Bytes) (ws : List Bytes)
    → All IsColumn (w ∷ ws)
    → first_column (b'(' ∷ (join (codes ", ") (w ∷ ws) ++ codes ")")) ≡ w
first_column-list w [] all = first_column-append w (codes ")") all.0 refl
first_column-list w (u ∷ ws) all =
    ap (λ t. first_column (b'(' ∷ t))
      (append_assoc w (codes ", " ++ join (codes ", ") (u ∷ ws)) (codes ")"))
    ∙ first_column-append w _ all.0 refl

pub column-named : (w : Bytes) → IsColumn w → (w == []) ≡ false
column-named [] h = absurd (h.0 refl)
column-named (c ∷ w) h = refl

pub conflict_target-list :
    (head w : Bytes) (ws : List Bytes) (action : Bytes)
    → All IsColumn (w ∷ ws)
    → conflict_target head (b'(' ∷ (join (codes ", ") (w ∷ ws) ++ (codes ") " ++ action)))
      ≡ (w, after is_space_only action)
unfolding conflict_target
conflict_target-list head w ws action all =
    let closes = closing-Flat (join (codes ", ") (w ∷ ws)) (32 ∷ action) (Flat-join w ws all) in
    rw (closes, first_column-list w ws all, column-named w all.0) refl
