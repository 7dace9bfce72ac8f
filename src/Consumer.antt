-- ===== src/Consumer.antt =====
-- events/consumer.go: the consumer of NATS messages. The broker and the handler are parameters: what
-- each fetch gives, and what the handler makes of a message. A reply is what is sent for a message.
pub mod Replies
mod Tests
use sdk_api.Base.{
  ℕ, subst, zero, suc, ◌+◌, ◌-◌, ◌*◌, ◌≤◌, ◌<◌, ◌/◌, ◌%◌, ◌^◌, String, ◌≡◌, refl, sym, ap, ◌∙◌, ◌≢◌,
  ◌↔◌, ◌⊎◌, inl, inr, Bool, true, false, not, ◌&&◌, ◌||◌, Option, none, some, List, [], ◌∷◌, ◌++◌,
  map, arith, ltb, leb, nat_beq, nat_beq_iff, Eq, ◌==◌, ==_iff, nat_eq, string_eq, if◌then◌else◌,
  Bool-cases, Option-cases, is_some, length, get_elem?, set, take, length-append, length-set,
  get_elem?-append_last, get_elem?-append_left, get_elem?-set_ne, get_elem?-set_self, All, Map,
  lookup, insert, delete, lookup-insert, lookup-delete, contains, contains-cons_self,
  contains-cons_of_contains, contains-cons_cases, IsMap, retain, kept, insert-IsMap, delete-IsMap,
  lookup-retain, retain-IsMap,
}

pub record ConsumerConfig : Type 0 where
  pub stream : String
  pub subject : String
  pub durable : String
  pub queue_group : String
  pub deliver_all : Bool
  pub max_deliver : ℕ
  pub ack_wait : ℕ
  pub back_off : List ℕ
  pub pull_batch : ℕ
  pub pull_max_wait : ℕ
  pub nak_delay : ℕ

abbrev pub seconds : ℕ → ℕ
seconds n = n * 1_000_000_000

-- `DefaultConsumerConfig`.
unfoldable pub default_consumer_config : (stream durable : String) → ConsumerConfig
default_consumer_config stream durable = record {
  stream = stream;
  subject = stream;
  durable = durable;
  queue_group = "";
  deliver_all = true;
  max_deliver = 5;
  ack_wait = seconds 30;
  back_off = seconds 1 ∷ seconds 2 ∷ seconds 5 ∷ seconds 10 ∷ seconds 30 ∷ [];
  pull_batch = 10;
  pull_max_wait = seconds 5;
  nak_delay = seconds 5;
}

-- `getNakDelay`; a time that is not positive is 0.
abbrev pub nak_delay_of : ConsumerConfig → ℕ
nak_delay_of cfg = if ltb 0 cfg.nak_delay then cfg.nak_delay else seconds 5

-- The options of a subscription, `consumerSubOpts`.
pub data SubOpt : Type 0 where
  opt_max_deliver opt_ack_wait : ℕ → SubOpt
  opt_deliver_all opt_deliver_new opt_manual_ack : SubOpt
  opt_back_off : List ℕ → SubOpt
  opt_durable : String → SubOpt

abbrev pub back_off_opts : List ℕ → List SubOpt
back_off_opts [] = []
back_off_opts (d ∷ ds) = opt_back_off (d ∷ ds) ∷ []

unfoldable pub consumer_sub_opts : ConsumerConfig → List SubOpt
consumer_sub_opts cfg =
    opt_max_deliver cfg.max_deliver
    ∷ opt_ack_wait cfg.ack_wait
    ∷ (if cfg.deliver_all then opt_deliver_all else opt_deliver_new)
    ∷ back_off_opts cfg.back_off

-- The options of `ConsumePush`.
abbrev pub push_opts : ConsumerConfig → List SubOpt
push_opts cfg = opt_durable cfg.durable ∷ opt_manual_ack ∷ consumer_sub_opts cfg

-- The size of a batch and the wait of a fetch, in `ConsumePull`.
abbrev pub pull_batch_of : ConsumerConfig → ℕ
pull_batch_of cfg = if cfg.pull_batch == 0 then 10 else cfg.pull_batch

abbrev pub pull_wait_of : ConsumerConfig → ℕ
pull_wait_of cfg =
    let wait = if cfg.pull_max_wait == 0 then seconds 5 else cfg.pull_max_wait in
    if ltb (seconds 2) wait then seconds 2 else wait

-- AckAction, an int.
pub data AckAction : Type 0 where
  ack nak nak_delay term : AckAction
  unknown : ℕ → AckAction

pub data Reply : Type 0 where
  acked naked terminated : Reply
  naked_after : ℕ → Reply

-- What a fetch gives.
pub data Fetched : Type 0 where
  messages : List String → Fetched
  timed_out failed : Fetched

module _ {T : Type 0} (decode : String → Option T) (handler : T → Option AckAction)
    (cfg : ConsumerConfig) where
  -- The switch on the action; any other number is an Ack.
  unfoldable pub reply_of : AckAction → Reply
  reply_of ack = acked
  reply_of nak = naked
  reply_of nak_delay = naked_after (nak_delay_of cfg)
  reply_of term = terminated
  reply_of (unknown n) = acked

  -- `processMsg`; the handler answers `none` on an error.
  unfoldable pub process_msg : String → Reply
  process_msg data_ = elim (decode data_) [
    | none ↦ terminated
    | some msg ↦ elim (handler msg) [ none ↦ naked | some action ↦ reply_of action ]
  ]

  -- The loop over a batch. `looks` is how often the context is still found alive; the replies, and
  -- the looks that are left, or `none` where the context was done.
  unfoldable pub process_batch : ℕ → List String → List Reply × Option ℕ
  process_batch looks [] = ([], some looks)
  process_batch zero (m ∷ ms) = ([], none)
  process_batch (suc looks) (m ∷ ms) =
      let (replies, left) = process_batch looks ms in (process_msg m ∷ replies, left)

  -- The goroutine of `ConsumePull` over the fetches.
  unfoldable pub consume_pull : ℕ → List Fetched → List Reply
  consume_pull zero fetches = []
  consume_pull (suc looks) [] = []
  consume_pull (suc looks) (timed_out ∷ fetches) = consume_pull looks fetches
  consume_pull (suc zero) (failed ∷ fetches) = []
  consume_pull (suc (suc looks)) (failed ∷ fetches) = consume_pull looks fetches
  consume_pull (suc looks) (messages ms ∷ fetches) =
      (process_batch looks ms).0
      ++ elim (process_batch looks ms).1 [ none ↦ [] | some left ↦ consume_pull left fetches ]
