-- ===== src/Query/Rewrite.antt =====
-- db/query.go: Rewrite.
use sdk_api.Base.{
  ℕ, zero, suc, ◌+◌, ◌-◌, Bool, true, false, not, ◌&&◌, none, some, List, [], ◌∷◌, ◌++◌, nat_eq,
  string_eq, if◌then◌else◌, length, get_elem?,
}
use sdk_api.Base.Bytes.{Bytes}
use sdk_api.Base.Text.{starts}
use sdk_api.Query.Upsert.{Casing, translate_mysql_upsert}
use sdk_api.Query.{
  SqlDialect, postgres, mysql, placeholder, is_quote, take_placeholder, take_function,
}

-- One round of the loop: what it writes, the argument it appends to `out`, `inQuote` after it, and
-- how many more bytes `i = end` passes over.
pub record Round {ℓ} (A : Type ℓ) : Type ℓ where
  pub text : Bytes
  pub arg : List A
  pub in_quote : Bool
  pub skip : ℕ

-- `b.WriteByte(c)`.
abbrev pub same_byte {ℓ} : {A : Type ℓ} → Bool → ℕ → Round A
same_byte in_quote c = record { text = c ∷ []; arg = []; in_quote = in_quote; skip = 0 }

-- What the loop runs over.
abbrev pub prepared : Casing → SqlDialect → Bytes → Bytes
prepared casing mysql query = translate_mysql_upsert casing query
prepared casing _ query = query

module _ {ℓ} {A : Type ℓ} where
  -- The argument of number `n`, which is one of them.
  abbrev pub argument : List A → ℕ → List A
  argument args n = elim (get_elem? args (n - 1)) [ none ↦ [] | some a ↦ a ∷ [] ]

  -- `len(out)` after these are appended.
  abbrev pub counted : List A → ℕ → ℕ
  counted [] count = count
  counted (a ∷ added) count = counted added (count + 1)

  -- The bodies of the two tests outside a literal.
  unfoldable pub code_round : SqlDialect → List A → (count c : ℕ) → Bytes → Round A
  code_round d args count c s = elim (take_placeholder (c ∷ s) (length args)) [
    | some p ↦ record {
      text = placeholder d (count + 1);
      arg = argument args p.0;
      in_quote = false;
      skip = length p.1;
    }
    | none ↦ elim (take_function d (c ∷ s)) [
      | some e ↦ record { text = e.0; arg = []; in_quote = false; skip = length s - length e.1 }
      | none ↦ same_byte false c
    ]
  ]

  -- The body of the loop at byte `c`, with `count` arguments in `out`.
  unfoldable pub round : SqlDialect → List A → Bool → (count c : ℕ) → Bytes → Round A
  round d args in_quote count c s =
      if is_quote c
      then (if in_quote && starts is_quote s
          then record { text = b'\'' ∷ b'\'' ∷ []; arg = []; in_quote = true; skip = 1 }
          else same_byte (not in_quote) c)
      else if in_quote
      then same_byte true c
      else code_round d args count c s

  -- The loop: the text it writes and `out`.
  unfoldable pub rewrite_from :
      SqlDialect → List A → (skip : ℕ) → Bool → (count : ℕ) → Bytes → Bytes × List A
  rewrite_from d args skip in_quote count [] = ([], [])
  rewrite_from d args (suc skip) in_quote count (c ∷ s) = rewrite_from d args skip in_quote count s
  rewrite_from d args zero in_quote count (c ∷ s) =
      let r = round d args in_quote count c s in
      let rest = rewrite_from d args r.skip r.in_quote (counted r.arg count) s in
      (r.text ++ rest.0, r.arg ++ rest.1)

  -- What is returned as arguments; `usedDollar` says that `out` is not empty.
  abbrev pub passed : (args out : List A) → List A
  passed args [] = args
  passed args (a ∷ out) = a ∷ out

  -- `Rewrite`.
  unfoldable pub rewrite : Casing → SqlDialect → Bytes → List A → Bytes × List A
  rewrite casing postgres query args = (query, args)
  rewrite casing d query args =
      let r = rewrite_from d args 0 false 0 (prepared casing d query) in (r.0, passed args r.1)
