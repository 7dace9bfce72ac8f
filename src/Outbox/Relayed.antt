-- ===== src/Outbox/Relayed.antt =====
-- runtime/outbox.go: what is published in the end, and what never is.
use sdk_api.Base.{
  ℕ, zero, suc, ◌+◌, ◌*◌, ◌≤◌, ◌≡◌, refl, sym, ap, ◌∙◌, inl, inr, Bool, true, false, List, [], ◌∷◌,
  ◌++◌, arith, ◌==◌, ==_iff, nat_eq, string_eq, Bool-cases, length, take, All, contains,
}
use sdk_api.Outbox.{OutboxRecord, pending_rows, mark_published, relay_all, relay_once, relay_times}

abbrev pub ids : List OutboxRecord → List ℕ
ids [] = []
ids (rec ∷ rows) = rec.id ∷ ids rows

-- No id occurs twice.
abbrev pub Distinct : List ℕ → Type 0
Distinct [] = Unit
Distinct (i ∷ is) = (contains is i ≡ false) × Distinct is

abbrev pub always : OutboxRecord → Bool
always rec = true

abbrev mark_each : List OutboxRecord → List OutboxRecord → List OutboxRecord
mark_each [] rows = rows
mark_each (rec ∷ records) rows = mark_each records (mark_published rec.id rows)

abbrev drop {ℓ} : {A : Type ℓ} → ℕ → List A → List A
drop zero xs = xs
drop (suc n) [] = []
drop (suc n) (x ∷ xs) = drop n xs

relay_all-mark_each :
    (records rows : List OutboxRecord)
    → relay_all always always records rows ≡ (mark_each records rows, records)
unfolding relay_all
relay_all-mark_each [] rows = refl
relay_all-mark_each (rec ∷ records) rows =
    rw (relay_all-mark_each records (mark_published rec.id rows)) refl

-- A published row stays published.
mark_each-published :
    (records : List OutboxRecord) (rec : OutboxRecord) (rows : List OutboxRecord)
    → rec.published ≡ true
    → (r : OutboxRecord) × (mark_each records (rec ∷ rows) ≡ r ∷ mark_each records rows)
      × (r.published ≡ true)
mark_each-published [] rec rows is = (rec, refl, is)
mark_each-published (r ∷ records) rec rows is = elim (Bool-cases (rec.id == r.id)) [
  | inl same ↦ rw same (
      mark_each-published records (record rec { published = true }) (mark_published r.id rows) refl)
  | inr other ↦ rw other (mark_each-published records rec (mark_published r.id rows) is)
]

mark_published-absent :
    (i : ℕ) (rows : List OutboxRecord)
    → contains (ids rows) i ≡ false
    → mark_published i rows ≡ rows
unfolding contains
mark_published-absent i [] absent = refl
mark_published-absent i (rec ∷ rows) absent = ground (arith, mark_published-absent i rows)

-- Where the row in front is published, what is pending behind it is what is pending.
pending_rows-published :
    (records : List OutboxRecord) (rec : OutboxRecord) (rows rest : List OutboxRecord)
    → rec.published ≡ true
    → pending_rows (mark_each records rows) ≡ rest
    → pending_rows (mark_each records (rec ∷ rows)) ≡ rest
pending_rows-published records rec rows rest is e =
    let (r, same, published) = mark_each-published records rec rows is in rw same (rw published e)

pending_rows-mark_each :
    (k : ℕ) (rows : List OutboxRecord)
    → Distinct (ids rows)
    → pending_rows (mark_each (take k (pending_rows rows)) rows) ≡ drop k (pending_rows rows)
pending_rows-mark_each zero [] distinct = refl
pending_rows-mark_each (suc k) [] distinct = refl
pending_rows-mark_each zero (rec ∷ rows) distinct = refl
pending_rows-mark_each (suc k) (rec ∷ rows) (apart, distinct) = elim (Bool-cases rec.published) [
  | inl is ↦ rw is (
      pending_rows-published (take (suc k) (pending_rows rows)) (record rec { published = true })
        rows _ refl (pending_rows-mark_each (suc k) rows distinct))
  | inr open_ ↦
      let self = (==_iff rec.id rec.id).1 refl in
      rw (open_, self, mark_published-absent rec.id rows apart)
        (pending_rows-published (take k (pending_rows rows)) (record rec { published = true }) rows
          _ refl (pending_rows-mark_each k rows distinct))
]

ids-mark_published : (i : ℕ) (rows : List OutboxRecord) → ids (mark_published i rows) ≡ ids rows
ids-mark_published i [] = refl
ids-mark_published i (rec ∷ rows) = ground (arith, ids-mark_published i rows)

ids-mark_each : (records rows : List OutboxRecord) → ids (mark_each records rows) ≡ ids rows
ids-mark_each [] rows = refl
ids-mark_each (rec ∷ records) rows =
    ids-mark_each records (mark_published rec.id rows) ∙ ids-mark_published rec.id rows

take-drop {ℓ} : {A : Type ℓ} (k : ℕ) (xs : List A) → take k xs ++ drop k xs ≡ xs
take-drop zero xs = refl
take-drop (suc k) [] = refl
take-drop (suc k) (x ∷ xs) = ap (◌∷◌ x) (take-drop k xs)

length-drop {ℓ} : {A : Type ℓ} (k n : ℕ) (xs : List A) → length xs ≤ k + n → length (drop k xs) ≤ n
length-drop zero n xs h = omega (arith, h)
length-drop (suc k) n [] h = omega arith
length-drop (suc k) n (x ∷ xs) h = length-drop k n xs (omega (arith, h))

nothing_of_length {ℓ} : {A : Type ℓ} (xs : List A) → length xs ≤ 0 → xs ≡ []
nothing_of_length [] h = refl
nothing_of_length (x ∷ xs) h = absurd (omega (arith, h))

relay_once-always :
    (rows : List OutboxRecord)
    → relay_once always always rows
      ≡ (mark_each (take 100 (pending_rows rows)) rows, take 100 (pending_rows rows))
unfolding relay_once
relay_once-always rows = relay_all-mark_each (take 100 (pending_rows rows)) rows

-- With a broker and a database that accept every call, distinct ids and at most n * 100 pending
-- events, n ticks of the relay publish all of them, each once and in the order of their ids, and
-- leave none pending.
pub relay_times_publishes :
    (n : ℕ) (rows : List OutboxRecord)
    → Distinct (ids rows)
    → length (pending_rows rows) ≤ n * 100
    → let r = relay_times always always n rows in
      (r.1 ≡ pending_rows rows) × (pending_rows r.0 ≡ [])
unfolding relay_times
relay_times_publishes zero rows distinct few =
    let nothing = nothing_of_length (pending_rows rows) (omega (arith, few)) in
    (sym nothing, nothing)
relay_times_publishes (suc n) rows distinct few =
    let rows' = mark_each (take 100 (pending_rows rows)) rows in
    let left = pending_rows-mark_each 100 rows distinct in
    let (later, done) =
      relay_times_publishes n rows'
        (rw (ids-mark_each (take 100 (pending_rows rows)) rows) distinct)
        (rw left (length-drop 100 (n * 100) (pending_rows rows) (omega (arith, few)))) in
    rw (relay_once-always rows) (rw (later, left) (take-drop 100 (pending_rows rows)), done)

relay_all_refused :
    (publish_ok mark_ok : OutboxRecord → Bool) (records rows : List OutboxRecord)
    → All (λ rec. publish_ok rec ≡ false) records
    → relay_all publish_ok mark_ok records rows ≡ (rows, [])
unfolding relay_all
relay_all_refused publish_ok mark_ok [] rows refused = refl
relay_all_refused publish_ok mark_ok (rec ∷ records) rows refused =
    rw refused.0 (relay_all_refused publish_ok mark_ok records rows refused.1)

-- Where the broker refuses the first hundred pending events, or all of them where there are fewer,
-- no number of ticks publishes anything, whatever stands behind them.
pub relay_times_stuck :
    (publish_ok mark_ok : OutboxRecord → Bool) (n : ℕ) (rows : List OutboxRecord)
    → All (λ rec. publish_ok rec ≡ false) (take 100 (pending_rows rows))
    → relay_times publish_ok mark_ok n rows ≡ (rows, [])
unfolding relay_times relay_once
relay_times_stuck publish_ok mark_ok zero rows refused = refl
relay_times_stuck publish_ok mark_ok (suc n) rows refused =
    let once = relay_all_refused publish_ok mark_ok (take 100 (pending_rows rows)) rows refused in
    rw once (relay_times_stuck publish_ok mark_ok n rows refused)
