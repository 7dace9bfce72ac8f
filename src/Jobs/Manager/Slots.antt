-- ===== src/Jobs/Manager/Slots.antt =====
-- runtime/async_job.go: how many goroutines hold a slot of the semaphore.
use sdk_api.Base.{
  ℕ, ◌+◌, ◌≤◌, String, ◌≡◌, none, some, [], ◌∷◌, arith, nat_eq, string_eq, if◌then◌else◌, Map,
  lookup, insert, delete,
}
use sdk_api.Jobs.Store.{status_eq}
use sdk_api.Jobs.Manager.{Stage, holds_slot, in_flight}

abbrev pub slot : Stage → ℕ
slot w = if holds_slot w then 1 else 0

pub in_flight-insert_new :
    (id : String) (w : Stage) (ws : Map String Stage)
    → lookup id ws ≡ none
    → in_flight (insert id w ws) ≡ in_flight ws + slot w
unfolding in_flight insert lookup
in_flight-insert_new id w [] h = omega arith
in_flight-insert_new id w ((j, u) ∷ ws) h = ground (arith, in_flight-insert_new id w ws)

pub in_flight-insert_old :
    (id : String) (w old : Stage) (ws : Map String Stage)
    → lookup id ws ≡ some old
    → in_flight (insert id w ws) + slot old ≡ in_flight ws + slot w
unfolding in_flight insert lookup
in_flight-insert_old id w old [] h = cc
in_flight-insert_old id w old ((j, u) ∷ ws) h = ground (arith, in_flight-insert_old id w old ws)

pub in_flight-delete_le :
    (id : String) (ws : Map String Stage) → in_flight (delete id ws) ≤ in_flight ws
unfolding in_flight delete
in_flight-delete_le id [] = omega arith
in_flight-delete_le id ((j, u) ∷ ws) = ground (arith, in_flight-delete_le id ws)
