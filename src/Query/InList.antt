-- ===== src/Query/InList.antt =====
-- InList written for PostgreSQL and rewritten, against InList written for the dialect.
use mathlib.Core.List.{append_assoc}
use sdk_api.Base.{
  ℕ, subst, ◌+◌, ◌≤◌, ◌≡◌, refl, sym, ap, ◌∙◌, ◌≢◌, inl, inr, true, false, some, List, [], ◌∷◌,
  ◌++◌, map, arith, nat_eq, string_eq, length, get_elem?, length-append, All,
}
use sdk_api.Base.Bytes.{Bytes, codes, bytes_eq}
use sdk_api.Base.Text.{is_digit, join, starts}
use sdk_api.Base.Decimal.{all_digits, itoa, value_from-itoa, itoa_of_All, max_int}
use sdk_api.Query.Reading.{
  Token, byte, word, value, Reads, stop, read_byte, read_word, read_value, values, written_all,
}
use sdk_api.Query.Upsert.{Casing}
use sdk_api.Query.Rewrite.{rewrite, prepared, passed}
use sdk_api.Query.Translated.{rewrite_of_Reads}
use sdk_api.Query.{
  SqlDialect, postgres, placeholder, placeholders, in_list, is_ident_part, is_ident_start, is_quote,
}

-- The pieces of the list behind its opening parenthesis.
list_tokens : List Bytes → List (Token Bytes)
list_tokens [] = byte b')' ∷ []
list_tokens (v ∷ []) = value v ∷ byte b')' ∷ []
list_tokens (v ∷ u ∷ vs) = value v ∷ byte b',' ∷ byte 32 ∷ list_tokens (u ∷ vs)

digits_of_All : (s : Bytes) → all_digits s ≡ true → All (λ c. is_digit c ≡ true) s
digits_of_All [] e = tt
digits_of_All (c ∷ s) e = (ground arith, digits_of_All s (ground arith))

values-list_tokens : (v : Bytes) (vs : List Bytes) → values (list_tokens (v ∷ vs)) ≡ v ∷ vs
unfolding list_tokens
values-list_tokens v [] = refl
values-list_tokens v (u ∷ vs) = ap (◌∷◌ v) (values-list_tokens u vs)

written_all-list_tokens :
    (d : SqlDialect) (i : ℕ) (v : Bytes) (vs : List Bytes)
    → written_all d i (list_tokens (v ∷ vs))
      ≡ join (codes ", ") (placeholders d i (v ∷ vs)) ++ codes ")"
unfolding list_tokens
written_all-list_tokens d i v [] = refl
written_all-list_tokens d i v (u ∷ vs) =
    rw (written_all-list_tokens d (i + 1) u vs) (simp append_assoc)

get_elem?-append {ℓ} :
    {A : Type ℓ} (read : List A) (v : A) (vs : List A)
    → get_elem? (read ++ v ∷ vs) (length read) ≡ some v
get_elem?-append [] v vs = refl
get_elem?-append (x ∷ read) v vs = get_elem?-append read v vs

read_placeholder :
    (i : ℕ) (read : List Bytes) (v : Bytes) (vs : List Bytes) (s : Bytes) (ts : List (Token Bytes))
    → i ≡ length read
    → starts is_digit s ≡ false
    → Reads (read ++ v ∷ vs) s ts
    → Reads (read ++ v ∷ vs) (placeholder postgres (i + 1) ++ s) (value v ∷ ts)
unfolding placeholder
read_placeholder i read v vs s ts same apart rest =
    read_value (itoa (i + 1)) {k = i} (digits_of_All (itoa (i + 1)) (itoa_of_All (i + 1)).0) apart
      (value_from-itoa (i + 1) ∙ omega arith) (rw same (get_elem?-append read v vs)) rest

list_of_Reads :
    (i : ℕ) (read : List Bytes) (v : Bytes) (vs : List Bytes)
    → i ≡ length read
    → Reads
        (read ++ v ∷ vs)
        (join (codes ", ") (placeholders postgres i (v ∷ vs)) ++ codes ")")
        (list_tokens (v ∷ vs))
unfolding list_tokens
list_of_Reads i read v [] same =
    read_placeholder i read v [] (codes ")") _ same refl (read_byte refl refl (inr refl) stop)
list_of_Reads i read v (u ∷ vs) same =
    let counts : i + 1 ≡ length (read ++ v ∷ []) =
      omega (arith, length-append read (v ∷ []), same) in
    let ih = rw append_assoc at (list_of_Reads (i + 1) (read ++ v ∷ []) u vs counts) in
    rw append_assoc (
      read_placeholder i read v (u ∷ vs) _ _ same refl
        (read_byte refl refl (inr refl) (read_byte refl refl (inl (omega arith)) ih)))

list_query : (column : Bytes) → List Bytes → List (Token Bytes)
list_query column [] = map byte (codes "1 = 0")
list_query column (v ∷ vs) =
    word column ∷ byte 32 ∷ word (codes "IN") ∷ byte 32 ∷ byte b'(' ∷ list_tokens (v ∷ vs)

plain_of_Reads :
    (s : Bytes)
    → All (λ c. (is_quote c ≡ false) × (is_ident_start c ≡ false) × (c ≢ b'$')) s
    → Reads {A = Bytes} [] s (map byte s)
plain_of_Reads [] all = stop
plain_of_Reads (c ∷ s) ((quote, ident, dollar), all) =
    read_byte quote ident (inl dollar) (plain_of_Reads s all)

in_list_of_Reads :
    (column : Bytes) (vals : List Bytes)
    → All (λ c. is_ident_part c ≡ true) column
    → Reads vals (in_list postgres column vals).0 (list_query column vals)
unfolding in_list list_query
in_list_of_Reads column [] all = plain_of_Reads (codes "1 = 0") (ground arith)
in_list_of_Reads column (v ∷ vs) all = read_word all refl (inl refl) (
    read_byte refl refl (inr refl) (
      read_word {w = codes "IN"} (refl, (refl, tt)) refl (inr refl)
        (read_byte refl refl (inr refl)
          (read_byte refl refl (inl (omega arith)) (list_of_Reads 0 [] v vs refl)))))

in_list-list_query :
    (d : SqlDialect) (column : Bytes) (vals : List Bytes)
    → (written_all d 0 (list_query column vals), passed vals (values (list_query column vals)))
      ≡ in_list d column vals
unfolding in_list list_query
in_list-list_query d column [] = refl
in_list-list_query d column (v ∷ vs) =
    rw (written_all-list_tokens d 0 v vs, values-list_tokens v vs) refl

in_list-vals :
    (d : SqlDialect) (column : Bytes) (vals : List Bytes) → (in_list d column vals).1 ≡ vals
unfolding in_list
in_list-vals d column [] = refl
in_list-vals d column (v ∷ vs) = refl

-- The condition that InList gives for PostgreSQL is rewritten to the one that InList gives for the
-- dialect, with the same arguments, where the column is a word, the arguments fit an int and, for
-- MySQL, the condition has no conflict clause to translate.
pub rewrite-in_list :
    (casing : Casing) (d : SqlDialect) (column : Bytes) (vals : List Bytes)
    → d ≢ postgres
    → length vals ≤ max_int
    → All (λ c. is_ident_part c ≡ true) column
    → prepared casing d (in_list postgres column vals).0 ≡ (in_list postgres column vals).0
    → rewrite casing d (in_list postgres column vals).0 (in_list postgres column vals).1
      ≡ in_list d column vals
rewrite-in_list casing d column vals other fits all same =
    let reads =
      subst (λ q. Reads vals q (list_query column vals)) (sym same)
        (in_list_of_Reads column vals all) in
    rw (in_list-vals postgres column vals) (rewrite_of_Reads casing d vals _ _ other fits reads)
    ∙ in_list-list_query d column vals
