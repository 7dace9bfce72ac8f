-- ===== src/Query/Translated.antt =====
-- The loop of Rewrite on each kind of piece, and on a whole query.
use mathlib.Core.List.{append_assoc}
use sdk_api.Base.{
  ℕ, suc, ◌+◌, ◌-◌, ◌≤◌, ◌≡◌, refl, sym, ap, ◌∙◌, ◌≢◌, ◌⊎◌, inl, inr, Bool, true, false, not, none,
  some, List, [], ◌∷◌, ◌++◌, arith, ==_iff, nat_eq, string_eq, Bool-cases, length, get_elem?,
  length-append, All,
}
use sdk_api.Base.Bytes.{Bytes, codes, bytes_eq}
use sdk_api.Base.Text.{is_digit, starts}
use sdk_api.Base.Decimal.{max_int}
use sdk_api.Query.Reading.{
  Token, doubled, is_open, ends_in_function, Reads, stop, read_byte, read_word, read_literal,
  read_value, read_now, read_later, read_uuid, values, written_all,
}
use sdk_api.Query.Upsert.{Casing}
use sdk_api.Query.Rewrite.{
  passed, Round, counted, same_byte, round, code_round, rewrite_from, rewrite, prepared, argument,
}
use sdk_api.Query.{
  SqlDialect, postgres, mysql, sqlite, placeholder, random_uuid_expr, now, add_interval,
  is_ident_part, skip_space, is_quote, take_placeholder, take_function,
}
use sdk_api.Query.Calls.{
  ends_in_function-tail, take_function-word, take_function-byte, take_placeholder-byte,
  take_placeholder-digits, get_elem?_lt, take_function-now, take_function-later, take_function-uuid,
}

module _ {ℓ} {A : Type ℓ} (d : SqlDialect) (args : List A) where
  -- What a round gives, in front of what the rest of the loop gives.
  abbrev joined : Round A → Bytes × List A → Bytes × List A
  joined r rest = (r.text ++ rest.0, r.arg ++ rest.1)

  rewrite_from-round :
      (q : Bool) (count c : ℕ) (s : Bytes) (r : Round A)
      → round d args q count c s ≡ r
      → rewrite_from d args 0 q count (c ∷ s)
        ≡ joined r (rewrite_from d args r.skip r.in_quote (counted r.arg count) s)
  unfolding rewrite_from
  rewrite_from-round q count c s r e =
      ap (λ r. joined r (rewrite_from d args r.skip r.in_quote (counted r.arg count) s)) e

  rewrite_from-skip :
      (pre s : Bytes) (q : Bool) (count : ℕ)
      → rewrite_from d args (length pre) q count (pre ++ s) ≡ rewrite_from d args 0 q count s
  unfolding rewrite_from
  rewrite_from-skip [] [] q count = refl
  rewrite_from-skip [] (c ∷ s) q count = refl
  rewrite_from-skip (c ∷ pre) s q count = rewrite_from-skip pre s q count

  round_quotes :
      (count : ℕ) (s : Bytes)
      → round d args true count b'\'' (b'\'' ∷ s)
        ≡ record { text = b'\'' ∷ b'\'' ∷ []; arg = []; in_quote = true; skip = 1 }
  unfolding round
  round_quotes count s = refl

  round_closing :
      (q : Bool) (count : ℕ) (s : Bytes)
      → starts is_quote s ≡ false
      → round d args q count b'\'' s ≡ same_byte (not q) b'\''
  unfolding round
  round_closing q count s apart = ground arith

  round_inside :
      (count c : ℕ) (s : Bytes)
      → is_quote c ≡ false
      → round d args true count c s ≡ same_byte true c
  unfolding round
  round_inside count c s plain = ground arith

  rewrite_from-doubled :
      (body s : Bytes) (count : ℕ)
      → starts is_quote s ≡ false
      → let rest = rewrite_from d args 0 false count s in
        rewrite_from d args 0 true count (doubled body ++ b'\'' ∷ s)
        ≡ (doubled body ++ b'\'' ∷ rest.0, rest.1)
  rewrite_from-doubled [] s count apart =
      rewrite_from-round _ _ _ _ (same_byte false b'\'') (round_closing true count s apart)
  rewrite_from-doubled (c ∷ body) s count apart = elim (Bool-cases (is_quote c)) [
    | inl quote ↦
        let same : c ≡ b'\'' = (==_iff c b'\'').0 quote in
        rw same (
          rewrite_from-round _ _ _ _ _ (round_quotes count (doubled body ++ b'\'' ∷ s))
          ∙ rw (rewrite_from-skip (b'\'' ∷ []) (doubled body ++ b'\'' ∷ s) true count)
              (rw (rewrite_from-doubled body s count apart) refl))
    | inr plain ↦ rw plain (
        rewrite_from-round _ _ _ _ (same_byte true c) (round_inside count c _ plain)
        ∙ rw (rewrite_from-doubled body s count apart) refl)
  ]

  round_byte :
      (count c : ℕ) (s : Bytes)
      → is_quote c ≡ false
      → (c ≢ b'$') ⊎ (starts is_digit s ≡ false)
      → take_function d (c ∷ s) ≡ none
      → round d args false count c s ≡ same_byte false c
  unfolding round code_round
  round_byte count c s plain other none_here =
      rw plain (rw (code_round, take_placeholder-byte c (length args) s other, none_here) refl)

  rewrite_from-word :
      (w s : Bytes) (count : ℕ)
      → All (λ c. is_ident_part c ≡ true) w
      → starts is_ident_part s ≡ false
      → (starts is_open (skip_space s) ≡ false) ⊎ (ends_in_function w ≡ false)
      → let rest = rewrite_from d args 0 false count s in
        rewrite_from d args 0 false count (w ++ s) ≡ (w ++ rest.0, rest.1)
  rewrite_from-word [] s count all apart quiet = refl
  rewrite_from-word (c ∷ w) s count all apart quiet =
      rewrite_from-round _ _ _ _ (same_byte false c) (
        round_byte count c (w ++ s) (ground (arith, all.0)) (inl (ground (arith, all.0)))
          (take_function-word d c w s all.1 apart quiet))
      ∙ rw
          (rewrite_from-word w s count all.1 apart (elim quiet [
            | inl closed ↦ inl closed
            | inr other ↦ inr (ends_in_function-tail c w other)
          ]))
          refl

  argument_of : (k : ℕ) (a : A) → get_elem? args k ≡ some a → argument args (suc k) ≡ a ∷ []
  argument_of k a e = let same : suc k - 1 ≡ k = omega arith in rw (argument, same, e) refl

  -- A function call outside a literal, whose first byte is `c`.
  rewrite_from-call :
      (c : ℕ) (name s expr : Bytes) (count : ℕ)
      → is_quote c ≡ false
      → c ≢ b'$'
      → take_function d (c ∷ (name ++ s)) ≡ some (expr, s)
      → let rest = rewrite_from d args 0 false count s in
        rewrite_from d args 0 false count (c ∷ (name ++ s)) ≡ (expr ++ rest.0, rest.1)
  unfolding round code_round
  rewrite_from-call c name s expr count plain other found =
      rewrite_from-round _ _ _ _
        (record { text = expr; arg = []; in_quote = false; skip = length name })
        (rw plain (
          rw
            (
              code_round,
              take_placeholder-byte c (length args) (name ++ s) (inl other),
              found,
              length-append,
            )
            (ap (λ n. record { text = expr; arg = []; in_quote = false; skip = n }) (omega arith))))
      ∙ rw (rewrite_from-skip name s false count) refl

  round_opening : (count : ℕ) (s : Bytes) → round d args false count b'\'' s ≡ same_byte true b'\''
  unfolding round
  round_opening count s = refl

  -- A placeholder outside a literal.
  rewrite_from-placeholder :
      (digits s : Bytes) (k count : ℕ) (a : A)
      → take_placeholder (b'$' ∷ (digits ++ s)) (length args) ≡ some (suc k, digits)
      → get_elem? args k ≡ some a
      → let rest = rewrite_from d args 0 false (count + 1) s in
        rewrite_from d args 0 false count (b'$' ∷ (digits ++ s))
        ≡ (placeholder d (count + 1) ++ rest.0, a ∷ rest.1)
  unfolding round code_round placeholder
  rewrite_from-placeholder digits s k count a taken found =
      rewrite_from-round _ _ _ _
        (record {
          text = placeholder d (count + 1);
          arg = a ∷ [];
          in_quote = false;
          skip = length digits;
        })
        (rw (code_round, taken, argument_of k a found) refl)
      ∙ rw (rewrite_from-skip digits s false (count + 1)) refl

  -- `now()` and the interval behind it.
  rewrite_from-later :
      (interval s : Bytes) (count : ℕ)
      → All (λ c. is_quote c ≡ false) interval
      → let rest = rewrite_from d args 0 false count s in
        rewrite_from d args 0 false count (codes "now() + interval '" ++ (interval ++ b'\'' ∷ s))
        ≡ (add_interval d (now d) interval ++ rest.0, rest.1)
  unfolding take_function
  rewrite_from-later interval s count all =
      ap (λ t. rewrite_from d args 0 false count (codes "now() + interval '" ++ t))
        (sym (append_assoc interval (b'\'' ∷ []) s))
      ∙ rewrite_from-call b'n' (codes "ow() + interval '" ++ (interval ++ b'\'' ∷ [])) s
          (add_interval d (now d) interval) count refl (omega arith)
          (rw append_assoc (take_function-later d interval s all))

  -- What a reading of the query comes to.
  rewrite_from-Reads :
      {s : Bytes} {ts : List (Token A)} (count : ℕ)
      → length args ≤ max_int
      → Reads args s ts
      → rewrite_from d args 0 false count s ≡ (written_all d count ts, values ts)
  unfolding rewrite_from
  rewrite_from-Reads count fits stop = refl
  rewrite_from-Reads count fits (read_byte {c} {s} plain other apart rest) =
      rewrite_from-round _ _ _ _ (same_byte false c)
        (round_byte count c s plain apart (take_function-byte d c s other))
      ∙ rw (rewrite_from-Reads count fits rest) refl
  rewrite_from-Reads count fits (read_word {w} {s} all apart quiet rest) =
      rewrite_from-word w s count all apart quiet ∙ rw (rewrite_from-Reads count fits rest) refl
  rewrite_from-Reads count fits (read_literal {body} {s} apart rest) =
      rewrite_from-round _ _ _ _ (same_byte true b'\'') (round_opening count _)
      ∙ rw (rewrite_from-doubled body s count apart)
          (rw (rewrite_from-Reads count fits rest) (simp append_assoc))
  rewrite_from-Reads count fits (read_value digits {s} {k} {a} all apart spelled found rest) =
      rewrite_from-placeholder digits s k count a
        (take_placeholder-digits digits s k (length args) all apart spelled
          (get_elem?_lt args k a found) fits)
        found
      ∙ rw (rewrite_from-Reads (count + 1) fits rest) refl
  rewrite_from-Reads count fits (read_now {s} apart rest) =
      rewrite_from-call b'n' (codes "ow()") s (now d) count refl (omega arith)
        (take_function-now d s apart)
      ∙ rw (rewrite_from-Reads count fits rest) refl
  rewrite_from-Reads count fits (read_later {interval} {s} all rest) =
      rewrite_from-later interval s count all ∙ rw (rewrite_from-Reads count fits rest) refl
  rewrite_from-Reads count fits (read_uuid {s} rest) =
      rewrite_from-call b'g' (codes "en_random_uuid()") s (random_uuid_expr d) count refl
        (omega arith) (take_function-uuid d s)
      ∙ rw (rewrite_from-Reads count fits rest) refl

-- For a dialect other than PostgreSQL, a query that (for MySQL after its conflict clause is
-- translated) reads in the syntax of PostgreSQL as a sequence of words, literals, arguments $n,
-- calls of now, with or without an interval, and of gen_random_uuid and other bytes is rewritten
-- piece by piece: literals and words stay as they are, each call becomes that of the dialect, each
-- argument a placeholder, and the values are passed in the order of the placeholders, or the
-- arguments as they were where the query uses none. The number of arguments fits an int.
pub rewrite_of_Reads {ℓ} :
    {A : Type ℓ} (casing : Casing) (d : SqlDialect) (args : List A) (query : Bytes)
    (ts : List (Token A))
    → d ≢ postgres
    → length args ≤ max_int
    → Reads args (prepared casing d query) ts
    → rewrite casing d query args ≡ (written_all d 0 ts, passed args (values ts))
unfolding rewrite
rewrite_of_Reads casing postgres args query ts other fits reads = absurd (other refl)
rewrite_of_Reads casing mysql args query ts other fits reads =
    ap (λ r. (r.0, passed args r.1)) (rewrite_from-Reads mysql args 0 fits reads)
rewrite_of_Reads casing sqlite args query ts other fits reads =
    ap (λ r. (r.0, passed args r.1)) (rewrite_from-Reads sqlite args 0 fits reads)
