-- ===== src/Consumer/Tests.antt =====
-- events/consumer.go on three fetches: a batch of two, a time-out, and a batch of one.
use sdk_api.Base.{
  String, ◌≡◌, refl, Option, none, some, List, [], ◌∷◌, arith, ◌==◌, nat_eq, string_eq,
  if◌then◌else◌,
}
use sdk_api.Consumer.{
  ConsumerConfig, default_consumer_config, AckAction, nak_delay, unknown, acked, naked, terminated,
  naked_after, reply_of, process_msg, Fetched, messages, timed_out, process_batch, consume_pull,
  seconds,
}
use sdk_api.Consumer.Replies.{fetched, replies, consume_pull_all}

abbrev decode : String → Option String
decode s = if s == "bad" then none else some s

abbrev handler : String → Option AckAction
handler s = if s == "fails" then none else if s == "later" then some nak_delay else some (unknown 9)

abbrev config : ConsumerConfig
config = default_consumer_config "orders" "worker"

abbrev fetches : List Fetched
fetches = messages ("one" ∷ "fails" ∷ []) ∷ timed_out ∷ messages ("bad" ∷ "later" ∷ []) ∷ []

consume_test :
    (consume_pull decode handler config 11 fetches
      ≡ acked ∷ naked ∷ terminated ∷ naked_after (seconds 5) ∷ [])
    × (consume_pull decode handler config 2 fetches ≡ acked ∷ [])
unfolding consume_pull process_batch process_msg reply_of default_consumer_config
consume_test = (refl, refl)

consume_pull_all_example :
    consume_pull decode handler config 11 fetches ≡ replies decode handler config (fetched fetches)
unfolding fetched
consume_pull_all_example = consume_pull_all decode handler config 11 fetches (omega arith)
