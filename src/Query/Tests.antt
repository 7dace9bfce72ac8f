-- ===== src/Query/Tests.antt =====
-- Runs of db/query.go on concrete queries.
use sdk_api.Base.{
  ℕ, ◌≡◌, refl, ap, inr, ◌&&◌, List, [], ◌∷◌, arith, ◌==◌, nat_eq, string_eq, if◌then◌else◌,
}
use sdk_api.Base.Bytes.{Bytes, codes, bytes_eq}
use sdk_api.Base.Decimal.{itoa, itoa_from, below_wf, print_int, atoi}
use sdk_api.Base.Text.{trim_left, trim_right, index, trim_suffix_byte, fields_from}
use sdk_api.Query.Reading.{
  Token, byte, word, literal, value, now_call, Reads, stop, read_byte, read_word, read_literal,
  read_value, read_now, values, written_all,
}
use sdk_api.Query.Upsert.{
  Casing, upsert_clause, translate_mysql_upsert, conflict_action, conflict_target, first_column,
}
use sdk_api.Base.Text.{to_lower, to_upper, lower_byte, upper_byte}
use sdk_api.Query.Rewrite.{code_round, round, rewrite_from, rewrite, passed}
use sdk_api.Query.Translated.{rewrite_of_Reads}
use sdk_api.Query.InList.{rewrite-in_list}
use sdk_api.Query.Conflict.{UppersAscii, translate_mysql_upsert-upsert_clause}
use sdk_api.Query.{
  postgres, mysql, sqlite, placeholder, now, parse_interval, add_interval, in_list,
  take_placeholder, match_call, take_quoted, take_interval, take_function,
}

abbrev two : List ℕ
two = 7 ∷ 9 ∷ []

abbrev query : Bytes
query = codes "a=$2 OR '$1' < now()"

abbrev pieces : List (Token ℕ)
pieces =
    word (codes "a")
    ∷ byte b'='
    ∷ value 9
    ∷ byte 32
    ∷ word (codes "OR")
    ∷ byte 32
    ∷ literal (codes "$1")
    ∷ byte 32
    ∷ byte b'<'
    ∷ byte 32
    ∷ now_call
    ∷ []

query_of_Reads : Reads two query pieces
query_of_Reads =
    read_word {w = codes "a"} (refl, tt) refl (inr refl)
      (read_byte refl refl (inr refl) (
        read_value (codes "2") {k = 1} (refl, tt) refl refl refl
          (read_byte refl refl (inr refl) (
            read_word {w = codes "OR"} (refl, (refl, tt)) refl (inr refl)
              (read_byte refl refl (inr refl) (
                read_literal {body = codes "$1"} refl (
                  read_byte refl refl (inr refl) (
                    read_byte refl refl (inr refl)
                      (read_byte refl refl (inr refl) (read_now refl stop))))))))))

-- The letter case of ASCII.
abbrev ascii : Casing
ascii = record { lower = to_lower; upper = to_upper }

ascii-UppersAscii : UppersAscii ascii
ascii-UppersAscii [] s h = refl
ascii-UppersAscii (c ∷ a) s h =
    ap (λ (t : Bytes). upper_byte c ∷ t) (ascii-UppersAscii a s (ground (arith, h)))

rewrite_of_Reads_example :
    rewrite ascii sqlite query two ≡ (written_all sqlite 0 pieces, passed two (values pieces))
rewrite_of_Reads_example =
    rewrite_of_Reads ascii sqlite two query pieces (λ e. cc) (omega arith) query_of_Reads

rewrite-in_list_example :
    rewrite ascii sqlite
      (in_list postgres (codes "role") (codes "a" ∷ codes "b" ∷ [])).0
      (in_list postgres (codes "role") (codes "a" ∷ codes "b" ∷ [])).1
    ≡ in_list sqlite (codes "role") (codes "a" ∷ codes "b" ∷ [])
rewrite-in_list_example =
    rewrite-in_list ascii sqlite (codes "role") (codes "a" ∷ codes "b" ∷ []) (λ e. cc) (omega arith)
      (refl, (refl, (refl, (refl, tt)))) refl

translate_mysql_upsert-upsert_clause_example :
    translate_mysql_upsert ascii
      (codes "INSERT INTO t (id, n) VALUES ($1, $2) ON CONFLICT (id) DO UPDATE SET n = EXCLUDED.n")
    ≡ codes "INSERT INTO t (id, n) VALUES ($1, $2) ON DUPLICATE KEY UPDATE n = VALUES(n)"
unfolding index upsert_clause
translate_mysql_upsert-upsert_clause_example =
    translate_mysql_upsert-upsert_clause ascii (codes "INSERT INTO t (id, n) VALUES ($1, $2) ")
      (codes "id") [] (codes "n" ∷ []) (codes "ON CONFLICT (id) DO UPDATE SET n = EXCLUDED.n")
      (codes "ON DUPLICATE KEY UPDATE n = VALUES(n)") ascii-UppersAscii
      ((λ e. cc, (refl, (refl, tt))), tt) ((λ e. cc, (refl, tt)), tt) refl refl refl

-- The query that the reading above is written as.
rewritten_sqlite :
    rewrite ascii sqlite query two ≡ (codes "a=? OR '$1' < CURRENT_TIMESTAMP", 9 ∷ [])
unfolding rewrite rewrite_from round code_round take_placeholder take_function match_call
    placeholder take_interval now
rewritten_sqlite = refl

later_mysql :
    rewrite ascii mysql (codes "x > now() + interval '15 minutes'") two
    ≡ (codes "x > DATE_ADD(NOW(), INTERVAL 15 MINUTE)", two)
unfolding rewrite rewrite_from translate_mysql_upsert index round code_round take_placeholder
    take_function match_call take_interval take_quoted add_interval now print_int parse_interval
    fields_from trim_right trim_left atoi itoa itoa_from below_wf trim_suffix_byte
    native.Mathlib.Decide.dec_lt
later_mysql = refl

-- A call whose name only ends in now is translated as well.
renow_sqlite : rewrite ascii sqlite (codes "renow()") two ≡ (codes "reCURRENT_TIMESTAMP", two)
unfolding rewrite rewrite_from round code_round take_placeholder take_function match_call
    take_interval now
renow_sqlite = refl

-- ASCII, with the two bytes of a capital I with a dot made into the one byte of an i.
abbrev shortened : Bytes → Bytes
shortened [] = []
shortened (c ∷ []) = lower_byte c ∷ []
shortened (c ∷ d ∷ s) =
    let rest = shortened s in
    let next = shortened (d ∷ s) in
    if c == 196 && d == 176 then b'i' ∷ rest else lower_byte c ∷ next

-- Behind a character whose lower case is shorter, the clause is cut in the wrong place and stays.
misaligned :
    let query = 196 ∷ 176 ∷ codes " ON CONFLICT (id) DO NOTHING" in
    translate_mysql_upsert (record { lower = shortened; upper = to_upper }) query ≡ query
unfolding translate_mysql_upsert index conflict_action conflict_target first_column
misaligned = refl
