-- ===== src/Query/Reading.antt =====
-- How a query in PostgreSQL's syntax reads, and how the same reading is written for a dialect.
use sdk_api.Base.{
  ℕ, suc, ◌+◌, ◌≡◌, ◌≢◌, ◌⊎◌, Bool, true, false, ◌||◌, some, List, [], ◌∷◌, ◌++◌, ◌==◌, nat_eq,
  string_eq, if◌then◌else◌, get_elem?, All,
}
use sdk_api.Base.Bytes.{Bytes, codes, bytes_eq}
use sdk_api.Base.Text.{is_digit, to_lower, starts}
use sdk_api.Base.Decimal.{value_from}
use sdk_api.Query.Rewrite.{counted}
use sdk_api.Query.{
  SqlDialect, placeholder, random_uuid_expr, now, add_interval, is_ident_start, is_ident_part,
  skip_space, is_quote,
}

-- A piece of a query; an argument is the value that its placeholder stands for.
pub data Token {ℓ} (A : Type ℓ) : Type ℓ where
  byte : ℕ → Token A
  word literal later : Bytes → Token A
  value : A → Token A
  now_call uuid_call : Token A

-- The inside of a literal, its quotes doubled.
abbrev pub doubled : Bytes → Bytes
doubled [] = []
doubled (c ∷ s) = if is_quote c then c ∷ c ∷ doubled s else c ∷ doubled s

abbrev pub quoted : Bytes → Bytes
quoted body = b'\'' ∷ (doubled body ++ b'\'' ∷ [])

abbrev pub is_open : ℕ → Bool
is_open c = c == b'('

abbrev pub is_plus : ℕ → Bool
is_plus c = c == b'+'

-- The name of a function that Rewrite translates stands at the end of the word.
abbrev pub ends_in_function : Bytes → Bool
ends_in_function [] = false
ends_in_function (c ∷ s) =
    to_lower (c ∷ s) == codes "now"
    || to_lower (c ∷ s) == codes "gen_random_uuid"
    || ends_in_function s

-- The text reads as these pieces, with these arguments for $1, $2 and so on.
pub data Reads {ℓ} {A : Type ℓ} (args : List A) : Bytes → List (Token A) → Type ℓ where
  stop : Reads args [] []
  read_byte :
      {c : ℕ} {s : Bytes} {ts : List (Token A)}
      → is_quote c ≡ false
      → is_ident_start c ≡ false
      → (c ≢ b'$') ⊎ (starts is_digit s ≡ false)
      → Reads args s ts
      → Reads args (c ∷ s) (byte c ∷ ts)
  read_word :
      {w s : Bytes} {ts : List (Token A)}
      → All (λ c. is_ident_part c ≡ true) w
      → starts is_ident_part s ≡ false
      → (starts is_open (skip_space s) ≡ false) ⊎ (ends_in_function w ≡ false)
      → Reads args s ts
      → Reads args (w ++ s) (word w ∷ ts)
  read_literal :
      {body s : Bytes} {ts : List (Token A)}
      → starts is_quote s ≡ false
      → Reads args s ts
      → Reads args (b'\'' ∷ (doubled body ++ b'\'' ∷ s)) (literal body ∷ ts)
  read_value :
      (digits : Bytes) {s : Bytes} {k : ℕ} {a : A} {ts : List (Token A)}
      → All (λ c. is_digit c ≡ true) digits
      → starts is_digit s ≡ false
      → value_from 0 digits ≡ suc k
      → get_elem? args k ≡ some a
      → Reads args s ts
      → Reads args (b'$' ∷ (digits ++ s)) (value a ∷ ts)
  read_now :
      {s : Bytes} {ts : List (Token A)}
      → starts is_plus (skip_space s) ≡ false
      → Reads args s ts
      → Reads args (codes "now()" ++ s) (now_call ∷ ts)
  read_later :
      {interval s : Bytes} {ts : List (Token A)}
      → All (λ c. is_quote c ≡ false) interval
      → Reads args s ts
      → Reads args (codes "now() + interval '" ++ (interval ++ b'\'' ∷ s)) (later interval ∷ ts)
  read_uuid :
      {s : Bytes} {ts : List (Token A)}
      → Reads args s ts
      → Reads args (codes "gen_random_uuid()" ++ s) (uuid_call ∷ ts)

module _ {ℓ} {A : Type ℓ} where
  -- The values that the pieces hold, from left to right.
  abbrev pub values : List (Token A) → List A
  values [] = []
  values (value a ∷ ts) = a ∷ values ts
  values (_ ∷ ts) = values ts

  -- A piece written for the dialect, behind `count` values.
  abbrev pub written : SqlDialect → (count : ℕ) → Token A → Bytes
  written d count (byte c) = c ∷ []
  written d count (word w) = w
  written d count (literal body) = quoted body
  written d count (value a) = placeholder d (count + 1)
  written d count now_call = now d
  written d count (later interval) = add_interval d (now d) interval
  written d count uuid_call = random_uuid_expr d

  abbrev pub written_all : SqlDialect → (count : ℕ) → List (Token A) → Bytes
  written_all d count [] = []
  written_all d count (t ∷ ts) =
      written d count t ++ written_all d (counted (values (t ∷ [])) count) ts
