-- ===== src/Exit/Process.antt =====
-- runtime/exit.go: processTask. The handler, the hooks and the broker are parameters; what the
-- function calls of them is listed in order.
use sdk_api.Base.{
  ◌≡◌, refl, inl, inr, Bool, not, ◌&&◌, Option, none, some, List, [], ◌∷◌, ◌++◌, arith, ◌==◌,
  nat_eq, string_eq, if◌then◌else◌, Option-cases,
}
use sdk_api.Base.Bytes.{Bytes, bytes_eq}
use sdk_api.Exit.Start.{ExitWorker}
use sdk_api.Exit.{Settling, acked, naked, termed}

-- ExitHooks: OnMessage can change the message or fail.
pub record ExitHooks : Type 0 where
  pub on_message : Bytes → Option Bytes

-- A call that processTask makes.
pub data Call : Type 0 where
  on_error on_success : Call
  handler respond : Bytes → Call
  settles : Settling → Call

module _ (handle : Bytes → Option Bytes) (respond_ok : Bytes → Bool) where
  -- From `if cfg.Reply` on; the error of Ack is only logged.
  unfoldable pub answer : ExitWorker → Bytes → List Call
  answer cfg resp =
      if cfg.reply && not (resp == [])
      then (if respond_ok resp
          then respond resp ∷ settles acked ∷ []
          else respond resp ∷ settles naked ∷ [])
      else settles acked ∷ []

  abbrev with_hooks : Option ExitHooks → Call → List Call
  with_hooks none c = []
  with_hooks (some h) c = c ∷ []

  -- What follows the call of the handler.
  unfoldable pub handled : ExitWorker → Option ExitHooks → Bytes → List Call
  handled cfg hooks msg = elim (handle msg) [
    | none ↦
        with_hooks hooks on_error ++ (settles (if cfg.term_on_failure then termed else naked) ∷ [])
    | some resp ↦ with_hooks hooks on_success ++ answer cfg resp
  ]

  -- `processTask`.
  unfoldable pub process_task : ExitWorker → Option ExitHooks → Bytes → List Call
  process_task cfg none body = handler body ∷ handled cfg none body
  process_task cfg (some h) body = elim (h.on_message body) [
    | none ↦ settles naked ∷ []
    | some msg ↦ handler msg ∷ handled cfg (some h) msg
  ]

  -- The settling calls among them.
  abbrev pub settlings_of : List Call → List Settling
  settlings_of [] = []
  settlings_of (settles how ∷ calls) = how ∷ settlings_of calls
  settlings_of (_ ∷ calls) = settlings_of calls

  -- The message that reaches the handler, where one does.
  abbrev pub received : Option ExitHooks → Bytes → Option Bytes
  received none body = some body
  received (some h) body = h.on_message body

  -- How a message is to be settled.
  abbrev pub settling_for : ExitWorker → Option Bytes → Settling
  settling_for cfg none = naked
  settling_for cfg (some msg) = elim (handle msg) [
    | none ↦ if cfg.term_on_failure then termed else naked
    | some resp ↦ if cfg.reply && not (resp == []) && not (respond_ok resp) then naked else acked
  ]

  settlings_of-handled :
      (cfg : ExitWorker) (hooks : Option ExitHooks) (msg : Bytes)
      → settlings_of (handled cfg hooks msg) ≡ settling_for cfg (some msg) ∷ []
  unfolding handled answer
  settlings_of-handled cfg none msg = ground arith
  settlings_of-handled cfg (some h) msg = ground arith

  -- processTask settles its message exactly once: with Nak where the hook refuses it, where its
  -- handler fails and TermOnFailure is not set, or where a reply is not sent; with Term where the
  -- handler fails and TermOnFailure is set; and with Ack in all other cases.
  pub process_task_settles :
      (cfg : ExitWorker) (hooks : Option ExitHooks) (body : Bytes)
      → settlings_of (process_task cfg hooks body) ≡ settling_for cfg (received hooks body) ∷ []
  unfolding process_task
  process_task_settles cfg none body = settlings_of-handled cfg none body
  process_task_settles cfg (some h) body = elim (Option-cases (h.on_message body)) [
    | inl failed ↦ rw failed refl
    | inr (msg, given) ↦ rw given (settlings_of-handled cfg (some h) msg)
  ]
