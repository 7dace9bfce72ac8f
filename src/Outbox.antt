-- ===== src/Outbox.antt =====
-- runtime/outbox.go. The table is its rows in the order of their ids; the broker and the database answer
-- each call with success or an error, which is a parameter.
pub mod Relayed
mod Tests
use sdk_api.Base.{
  ℕ, subst, zero, suc, ◌+◌, ◌-◌, ◌*◌, ◌≤◌, ◌<◌, ◌/◌, ◌%◌, ◌^◌, String, ◌≡◌, refl, sym, ap, ◌∙◌, ◌≢◌,
  ◌↔◌, ◌⊎◌, inl, inr, Bool, true, false, not, ◌&&◌, ◌||◌, Option, none, some, List, [], ◌∷◌, ◌++◌,
  map, arith, ltb, leb, nat_beq, nat_beq_iff, Eq, ◌==◌, ==_iff, nat_eq, string_eq, if◌then◌else◌,
  Bool-cases, Option-cases, is_some, length, get_elem?, set, take, length-append, length-set,
  get_elem?-append_last, get_elem?-append_left, get_elem?-set_ne, get_elem?-set_self, All, Map,
  lookup, insert, delete, lookup-insert, lookup-delete, contains, contains-cons_self,
  contains-cons_of_contains, contains-cons_cases, IsMap, retain, kept, insert-IsMap, delete-IsMap,
  lookup-retain, retain-IsMap,
}

-- OutboxRecord; the status is pending or published.
pub record OutboxRecord : Type 0 where
  pub id : ℕ
  pub subject : String
  pub payload : String
  pub published : Bool

-- The greatest id, and 0 where there is none.
abbrev pub last_id : List OutboxRecord → ℕ
last_id [] = 0
last_id (rec ∷ rows) = let rest = last_id rows in if ltb rest rec.id then rec.id else rest

-- `InsertOutbox`; the ids are a sequence of the database.
unfoldable pub insert_outbox : (subject payload : String) → List OutboxRecord → List OutboxRecord
insert_outbox subject payload rows =
    rows
    ++ (record { id = last_id rows + 1; subject = subject; payload = payload; published = false })
      ∷ []

-- `QueryWhere` for the pending ones, without the limit.
abbrev pub pending_rows : List OutboxRecord → List OutboxRecord
pending_rows [] = []
pending_rows (rec ∷ rows) =
    let rest = pending_rows rows in if rec.published then rest else rec ∷ rest

-- `UPDATE _outbox SET status = 'published' WHERE id = $1`.
abbrev pub mark_published : ℕ → List OutboxRecord → List OutboxRecord
mark_published i [] = []
mark_published i (rec ∷ rows) =
    let rest = mark_published i rows in
    if rec.id == i then (record rec { published = true }) ∷ rest else rec ∷ rest

module _ (publish_ok mark_ok : OutboxRecord → Bool) where
  -- The loop of `relayOnce`: the table, and what the broker has accepted.
  unfoldable pub relay_all :
      List OutboxRecord → List OutboxRecord → List OutboxRecord × List OutboxRecord
  relay_all [] rows = (rows, [])
  relay_all (rec ∷ records) rows =
      let marked = if mark_ok rec then mark_published rec.id rows else rows in
      let passed = relay_all records rows in
      let rest = relay_all records marked in
      if publish_ok rec then (rest.0, rec ∷ rest.1) else passed

  abbrev pub relay_limit : ℕ
  relay_limit = 100

  -- `relayOnce`.
  unfoldable pub relay_once : List OutboxRecord → List OutboxRecord × List OutboxRecord
  relay_once rows = relay_all (take relay_limit (pending_rows rows)) rows

  -- So many ticks of `Start`.
  unfoldable pub relay_times : ℕ → List OutboxRecord → List OutboxRecord × List OutboxRecord
  relay_times zero rows = (rows, [])
  relay_times (suc n) rows =
      let once = relay_once rows in let later = relay_times n once.0 in (later.0, once.1 ++ later.1)
