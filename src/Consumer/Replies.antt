-- ===== src/Consumer/Replies.antt =====
-- events/consumer.go: which messages are answered, and how often.
use sdk_api.Base.{
  ℕ, zero, suc, ◌+◌, ◌-◌, ◌*◌, ◌≤◌, ◌<◌, String, ◌≡◌, refl, sym, ap, ◌∙◌, ◌⊎◌, inl, inr, Option,
  none, some, List, [], ◌∷◌, ◌++◌, map, arith, nat_eq, string_eq, length, take, length-append,
}
use sdk_api.Consumer.{
  ConsumerConfig, AckAction, Reply, process_msg, Fetched, messages, timed_out, failed,
  process_batch, consume_pull,
}

-- The messages of the fetches, in the order in which they came.
unfoldable pub fetched : List Fetched → List String
fetched [] = []
fetched (messages ms ∷ fetches) = ms ++ fetched fetches
fetched (timed_out ∷ fetches) = fetched fetches
fetched (failed ∷ fetches) = fetched fetches

append_nil : {A : Type 0} (xs : List A) → xs ++ [] ≡ xs
append_nil [] = refl
append_nil {A} (x ∷ xs) = ap (λ (t : List A). x ∷ t) (append_nil xs)

take-append_more :
    (ms rest : List String) (k : ℕ) → take (length ms + k) (ms ++ rest) ≡ ms ++ take k rest
take-append_more [] rest k = ap (λ (n : ℕ). take n rest) (omega arith)
take-append_more (m ∷ ms) rest k =
    let e : length (m ∷ ms) + k ≡ suc (length ms + k) = omega arith in
    rw e (ap (λ (t : List String). m ∷ t) (take-append_more ms rest k))

take-append_fewer :
    (ms rest : List String) (k : ℕ) → k ≤ length ms → take k (ms ++ rest) ≡ take k ms
take-append_fewer ms rest zero le = refl
take-append_fewer [] rest (suc k) le = absurd (omega arith)
take-append_fewer (m ∷ ms) rest (suc k) le =
    ap (λ (t : List String). m ∷ t) (take-append_fewer ms rest k (omega arith))

module _ {T : Type 0} (decode : String → Option T) (handler : T → Option AckAction)
    (cfg : ConsumerConfig) where
  abbrev pub replies : List String → List Reply
  replies = map (process_msg decode handler cfg)

  replies-append : (ms ns : List String) → replies (ms ++ ns) ≡ replies ms ++ replies ns
  replies-append [] ns = refl
  replies-append (m ∷ ms) ns =
      ap (λ (t : List Reply). process_msg decode handler cfg m ∷ t) (replies-append ms ns)

  -- The replies to a batch, then what comes later.
  batch_then :
      (ms ns : List String) (later : List Reply)
      → later ≡ replies ns
      → replies ms ++ later ≡ replies (ms ++ ns)
  batch_then ms ns later e = ap (λ (t : List Reply). replies ms ++ t) e ∙ sym (replies-append ms ns)

  -- A batch is answered to its end, or up to the message at which the context is done.
  process_batch_cases :
      (looks : ℕ) (ms : List String)
      → ((length ms ≤ looks)
          × (process_batch decode handler cfg looks ms ≡ (replies ms, some (looks - length ms))))
        ⊎ ((looks < length ms)
            × (process_batch decode handler cfg looks ms ≡ (replies (take looks ms), none)))
  unfolding process_batch
  process_batch_cases looks [] = inl (omega arith, ground arith)
  process_batch_cases zero (m ∷ ms) = inr (omega arith, refl)
  process_batch_cases (suc looks) (m ∷ ms) = elim (process_batch_cases looks ms) [
    | inl (fits, e) ↦ inl (omega arith, rw e (ground arith))
    | inr (short, e) ↦ inr (omega arith, rw e refl)
  ]

  -- Whenever the context is done, the messages that were fetched up to some point have been
  -- answered, each once and in order, and no other message has.
  pub consume_pull_prefix :
      (looks : ℕ) (fetches : List Fetched)
      → (k : ℕ) × (consume_pull decode handler cfg looks fetches
          ≡ replies (take k (fetched fetches)))
  unfolding consume_pull fetched
  consume_pull_prefix zero fetches = (0, refl)
  consume_pull_prefix (suc looks) [] = (0, refl)
  consume_pull_prefix (suc looks) (timed_out ∷ fetches) = consume_pull_prefix looks fetches
  consume_pull_prefix (suc zero) (failed ∷ fetches) = (0, refl)
  consume_pull_prefix (suc (suc looks)) (failed ∷ fetches) = consume_pull_prefix looks fetches
  consume_pull_prefix (suc looks) (messages ms ∷ fetches) = elim (process_batch_cases looks ms) [
    | inr (short, e) ↦ (
      looks,
      rw (ap (λ p. p.1) e, consume_pull)
          (ap (λ p. p.0 ++ []) e
            ∙ (append_nil (replies (take looks ms))
                ∙ ap replies (sym (take-append_fewer ms (fetched fetches) looks (omega arith))))),
    )
    | inl (fits, e) ↦
        let (k, later) = consume_pull_prefix (looks - length ms) fetches in
        (
          length ms + k,
          rw (ap (λ p. p.1) e, consume_pull)
              (ap (λ p. p.0 ++ consume_pull decode handler cfg (looks - length ms) fetches) e
                ∙ batch_then ms (take k (fetched fetches)) _ later
                ∙ ap replies (sym (take-append_more ms (fetched fetches) k))),
        )
  ]

  -- Where the context is found alive more often than twice for each fetch and once for each
  -- message, every message that was fetched is answered, once and in order.
  pub consume_pull_all :
      (looks : ℕ) (fetches : List Fetched)
      → 2 * length fetches + length (fetched fetches) < looks
      → consume_pull decode handler cfg looks fetches ≡ replies (fetched fetches)
  unfolding consume_pull fetched
  consume_pull_all zero fetches enough = absurd (omega arith)
  consume_pull_all (suc looks) [] enough = refl
  consume_pull_all (suc looks) (timed_out ∷ fetches) enough =
      consume_pull_all looks fetches (omega arith)
  consume_pull_all (suc zero) (failed ∷ fetches) enough = absurd (omega arith)
  consume_pull_all (suc (suc looks)) (failed ∷ fetches) enough =
      consume_pull_all looks fetches (omega arith)
  consume_pull_all (suc looks) (messages ms ∷ fetches) enough =
      let size = length-append ms (fetched fetches) in
      elim (process_batch_cases looks ms) [
        | inr (short, e) ↦ absurd (omega (arith, size, short, enough))
        | inl (fits, e) ↦
            let rest = looks - length ms in
            let later = consume_pull_all rest fetches (omega (arith, size, enough)) in
            rw (ap (λ p. p.1) e, consume_pull)
              (ap (λ p. p.0 ++ consume_pull decode handler cfg rest fetches) e
                ∙ batch_then ms (fetched fetches) _ later)
      ]
