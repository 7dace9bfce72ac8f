-- ===== src/Migrations/Runner/Reverting.antt =====
-- db/migrations.go: what Down rolls back.
use sdk_api.Base.{
  ℕ, ◌≤◌, ◌≡◌, refl, ap, ◌∙◌, ◌⊎◌, inl, inr, Bool, true, false, Option, none, some, List, [], ◌∷◌,
  arith, ◌==◌, nat_eq, string_eq, if◌then◌else◌, Bool-cases, Option-cases, is_some, All, Map,
  lookup, delete, lookup-delete,
}
use sdk_api.Base.Bytes.{Bytes, bytes_eq}
use sdk_api.Migrations.Statements.{split_statements}
use sdk_api.Migrations.Files.{Migration, Above, Ascending}
use sdk_api.Migrations.Runner.{
  External, Failure, no_down_file, Db, run_statements, failed_first, last_applied, roll_back, down,
  down_name,
}

abbrev pub is_applied_in : Map ℕ Bytes → Migration → Bool
is_applied_in applied m = is_some (lookup m.version applied)

module _ (ext : External) where
  -- `m` is applied, and no applied migration of `ms` is above it.
  abbrev pub Highest : Map ℕ Bytes → List Migration → Migration → Type 0
  Highest applied ms m =
      (is_applied_in applied m ≡ true)
      × All (λ n. is_applied_in applied n ≡ true → n.version ≤ m.version) ms

  abbrev Before : Map ℕ Bytes → List Migration → Option Migration → Type 0
  Before applied ms last =
      (l : Migration) → last ≡ some l → (is_applied_in applied l ≡ true) × Above l.version ms

  last_applied-Highest :
      (applied : Map ℕ Bytes) (ms : List Migration) (last : Option Migration) (m : Migration)
      → Ascending ms
      → Before applied ms last
      → last_applied ext applied ms last ≡ some m
      → Highest applied ms m × ((l : Migration) → last ≡ some l → l.version ≤ m.version)
  unfolding last_applied
  last_applied-Highest applied [] last m up before e =
      (((before m e).0, tt), λ l e'. ground (arith, e, e'))
  last_applied-Highest applied (n ∷ ms) last m up before e =
      elim (Bool-cases (is_applied_in applied n)) [
        | inl on ↦
            let ((high, below), above) =
              last_applied-Highest applied ms (some n) m up.1 (λ l e'. ground (arith, on, up.0))
                (rw on at e) in
            (
              (high, ((λ _. above n refl), below)),
              λ l e'. omega (arith, above n refl, (before l e').1.0),
            )
        | inr off ↦
            let ((high, below), above) =
              last_applied-Highest applied ms last m up.1
                (λ l e'. ((before l e').0, (before l e').1.1)) (rw off at e) in
            ((high, ((λ on. absurd (ground (arith, on, off))), below)), above)
      ]

  last_applied-none :
      (applied : Map ℕ Bytes) (ms : List Migration) (last : Option Migration)
      → last_applied ext applied ms last ≡ none
      → (last ≡ none) × All (λ n. is_applied_in applied n ≡ false) ms
  unfolding last_applied
  last_applied-none applied [] last e = (e, tt)
  last_applied-none applied (n ∷ ms) last e = elim (Bool-cases (is_applied_in applied n)) [
    | inl on ↦ absurd (ground (arith, (last_applied-none applied ms (some n) (rw on at e)).0))
    | inr off ↦
        let (nothing, rest) = last_applied-none applied ms last (rw off at e) in
        (nothing, (off, rest))
  ]

  roll_back_table :
      (m : Migration) (raw : Bytes) (db : Db ext)
      → (roll_back ext m raw db).1 ≡ none
      → (roll_back ext m raw db).0.table ≡ delete m.version db.table
  unfolding roll_back
  roll_back_table m raw db ok =
      elim (Option-cases (run_statements ext (split_statements raw) db.schema)) [
        | inl failed ↦ ground arith
        | inr (sc, ran) ↦ ground arith
      ]

  roll_back_failed :
      (m : Migration) (raw : Bytes) (db : Db ext) (failure : Failure)
      → (roll_back ext m raw db).1 ≡ some failure
      → (roll_back ext m raw db).0 ≡ db
  unfolding roll_back
  roll_back_failed m raw db failure ok =
      elim (Option-cases (run_statements ext (split_statements raw) db.schema)) [
        | inl failed ↦ ground arith
        | inr (sc, ran) ↦ ground arith
      ]

  -- Down on ascending migrations either fails and leaves the database as it is, or finds none of
  -- them applied, answers 0 and leaves it too, or rolls back the highest one applied: it removes
  -- that version from the control table, and no other.
  pub down_outcomes :
      (ms : List Migration) (db : Db ext)
      → Ascending ms
      → ((failure : Failure) × ((down ext ms db).1 ≡ inr failure) × ((down ext ms db).0 ≡ db))
        ⊎ (All (λ n. is_applied_in db.table n ≡ false) ms × (down ext ms db ≡ (db, inl 0)))
        ⊎ ((m : Migration) × Highest db.table ms m
            × ((down ext ms db).1 ≡ inl m.version)
            × ((w : ℕ)
                → lookup w (down ext ms db).0.table
                  ≡ (if m.version == w then none else lookup w db.table)))
  unfolding down
  down_outcomes ms db up = elim (Option-cases (failed_first ext)) [
    | inr (failure, first) ↦ unchanged failure (rw (first, down) refl)
    | inl fine ↦ elim (Option-cases (last_applied ext db.table ms none)) [
      | inl nothing ↦
          inr (
            inl ((last_applied-none db.table ms none nothing).1, rw (fine, down) (rw nothing refl)))
      | inr (m, last) ↦ elim (Option-cases (ext.read_file (down_name m))) [
        | inl missing ↦
            unchanged (no_down_file m.version (down_name m))
              (rw (fine, down) (rw last (rw missing refl)))
        | inr (raw, read) ↦ elim (Option-cases (roll_back ext m raw db).1) [
          | inr (failure, failed) ↦ unchanged failure (
              rw (fine, down)
                (rw last
                  (rw read (rw failed (rw (roll_back_failed m raw db failure failed) refl)))))
          | inl done ↦
              let e : down ext ms db ≡ ((roll_back ext m raw db).0, inl m.version) =
                rw (fine, down) (rw last (rw read (rw done refl))) in
              inr (
                inr (
                  m,
                  (last_applied-Highest db.table ms none m up (λ l none_yet. cc) last).0,
                  ap (λ r. r.1) e,
                  λ w.
                      ap (λ r. lookup w r.0.table) e
                      ∙ (ap (lookup w) (roll_back_table m raw db done)
                          ∙ lookup-delete m.version w db.table),
                ))
        ]
      ]
    ]
  ]
    where
      unchanged :
          {B : Type 0} (failure : Failure)
          → down ext ms db ≡ (db, inr failure)
          → ((f : Failure) × ((down ext ms db).1 ≡ inr f) × ((down ext ms db).0 ≡ db)) ⊎ B
      unchanged failure e = inl (failure, ap (λ r. r.1) e, ap (λ r. r.0) e)
