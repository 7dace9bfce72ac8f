-- ===== src/Outbox/Tests.antt =====
-- Runs of runtime/outbox.go on concrete tables.
use sdk_api.Base.{
  ℕ, zero, suc, ◌+◌, ◌≤◌, ◌≡◌, refl, Bool, true, false, not, List, [], ◌∷◌, arith, leb, ◌==◌,
  nat_eq, string_eq, take, All, contains,
}
use sdk_api.Outbox.{OutboxRecord, insert_outbox, pending_rows, relay_all, relay_once, relay_times}
use sdk_api.Outbox.Relayed.{ids, Distinct, always, relay_times_publishes, relay_times_stuck}

abbrev event : ℕ → Bool → OutboxRecord
event i published = record { id = i; subject = "orders"; payload = "{}"; published = published }

abbrev table : List OutboxRecord
table = event 1 true ∷ event 2 false ∷ event 5 false ∷ []

table_Distinct : Distinct (ids table)
unfolding contains
table_Distinct = (refl, (refl, (refl, tt)))

relay_times_publishes_example :
    let r = relay_times always always 1 table in
    (r.1 ≡ pending_rows table) × (pending_rows r.0 ≡ [])
relay_times_publishes_example = relay_times_publishes 1 table table_Distinct (omega arith)

-- The broker refuses the first hundred events of this table.
abbrev refuses_old : OutboxRecord → Bool
refuses_old rec = not (leb rec.id 100)

abbrev events_from : ℕ → ℕ → List OutboxRecord
events_from i zero = []
events_from i (suc n) = event i false ∷ events_from (i + 1) n

events_from-All :
    (i n k : ℕ)
    → i + k ≤ 101
    → All (λ rec. refuses_old rec ≡ false) (take k (pending_rows (events_from i n)))
events_from-All i n zero h = tt
events_from-All i zero (suc k) h = tt
events_from-All i (suc n) (suc k) h =
    (ground (arith, h), events_from-All (i + 1) n k (omega (arith, h)))

relay_times_stuck_example :
    relay_times refuses_old always 1000 (events_from 1 150) ≡ (events_from 1 150, [])
relay_times_stuck_example =
    relay_times_stuck refuses_old always 1000 (events_from 1 150)
      (events_from-All 1 150 100 (omega arith))

abbrev knows : OutboxRecord → Bool
knows rec = not (rec.id == 5)

-- An event that is refused is passed over, and a later one is published before it.
out_of_order : (relay_once knows always (event 5 false ∷ event 6 false ∷ [])).1 ≡ event 6 false ∷ []
unfolding relay_once relay_all
out_of_order = refl

inserted : insert_outbox "orders" "{}" (event 5 true ∷ []) ≡ event 5 true ∷ event 6 false ∷ []
unfolding insert_outbox
inserted = refl
