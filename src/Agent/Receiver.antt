-- ===== src/Agent/Receiver.antt =====
-- agent/MessageReceiver.ts, agent/Dispatcher.ts and utils/messageType.ts. A message class is known by
-- its type; reading JSON as a class is class-transformer's.
use Prim.Native.String.{◌++◌ as append, slice, len}
use text.Mathlib.Text.{starts_with}
use aries_framework_javascri.Prelude.{
  ℕ, String, Option, none, some, List, Bool, true, false, ◌==◌, find_first, any, truthy,
  if◌then◌else◌,
}
use aries_framework_javascri.Exec.{
  Exec, pure, throw, or_throw, ◌>>=◌, ◌>>◌, try_catch, no_handler, sender_key_mismatch, type_error,
}
use aries_framework_javascri.Message.{AgentMessage, thread_id, has_return_routing}
use aries_framework_javascri.Connections.Record.{ConnectionRecord, their_key}
use aries_framework_javascri.Agent.Context.{
  InboundMessageContext, inbound_message_context, OutboundMessage,
}
use aries_framework_javascri.Agent.Envelope.{
  Envelopes, UnpackedMessage, OutboundPackage, pack_message, send_message,
}

abbrev did_sov_prefix : String
did_sov_prefix = "did:sov:BzCbsNYhMrjHiqZDTUASHg;spec"

unfoldable pub replace_legacy_did_sov_prefix : String → String
replace_legacy_did_sov_prefix t =
    if starts_with t did_sov_prefix
    then append "https://didcomm.org" (slice t (len did_sov_prefix) (len t))
    else t

-- agent/Handler.ts: the types of the supported messages, and the method.
pub record Handler (S M : Type 0) : Type 0 where
  pub supported_messages : List String
  pub handle : InboundMessageContext M → Exec S (Option (OutboundMessage M))

-- What a handled message leads to: nothing, an answer that was sent, or one to send back.
pub data Answer (M J : Type 0) : Type 0 where
  no_answer : Answer M J
  sent : OutboundMessage M → Answer M J
  returned : OutboundPackage J → Answer M J

-- The receiver's dependencies. `type_of` is the field `@type`, if there is one, `forwarded` the
-- field `msg`, `from_json t` reads a message as the class of type `t`.
pub record Receiving (S M J : Type 0) : Type 0 where
  pub envelopes : Envelopes S J
  pub find_by_verkey : String → Exec S (Option ConnectionRecord)
  pub handlers : List (Handler S M)
  pub send : OutboundPackage J → Exec S Unit
  pub type_of : J → Option String
  pub forwarded : J → J
  pub from_json : String → J → M
  pub to_json : M → J
  pub message_type : M → String
  pub base_of : M → AgentMessage
  pub uuid : ℕ → String

module _ {S M J : Type 0} (deps : Receiving S M J) where
  unfoldable pub get_handler_for_type : String → Option (Handler S M)
  get_handler_for_type t =
      find_first (λ h. any (λ supported. supported == t) h.supported_messages) deps.handlers

  -- The answer goes back on the same way if the message asks for that.
  answer : M → Option (OutboundMessage M) → Exec S (Answer M J)
  answer message none = pure no_answer
  answer message (some outbound) =
      if has_return_routing (deps.base_of message) (thread_id (deps.base_of outbound.payload))
      then (pack_message deps.envelopes deps.uuid deps.to_json outbound >>= λ p. pure (returned p))
      else (send_message deps.envelopes deps.uuid deps.to_json deps.send outbound
          >> pure (sent outbound))

  unfoldable pub dispatch : InboundMessageContext M → Exec S (Answer M J)
  unfolding answer
  dispatch context = do
    handler ← or_throw (get_handler_for_type (deps.message_type context.message)) no_handler
    outbound ← handler.handle context
    answer context.message outbound

  is_forward : Option String → Bool
  is_forward none = false
  is_forward (some t) = t == "https://didcomm.org/routing/1.0/forward"

  -- A forward message for this agent is opened; one that cannot be opened is taken as it is.
  unpack_forward : UnpackedMessage J → Exec S (UnpackedMessage J)
  unfolding is_forward
  unpack_forward unpacked =
      if is_forward (deps.type_of unpacked.message)
      then try_catch (deps.envelopes.unpack (deps.forwarded unpacked.message)) (pure unpacked)
      else pure unpacked

  unpack_typed : J → Option String → Exec S (UnpackedMessage J)
  unfolding unpack_forward
  unpack_typed packed none = deps.envelopes.unpack packed >>= unpack_forward
  unpack_typed packed (some _) =
      pure (record { message = packed; sender_verkey = none; recipient_verkey = none })

  unfoldable pub unpack_message : J → Exec S (UnpackedMessage J)
  unfolding unpack_typed
  unpack_message packed = unpack_typed packed (deps.type_of packed)

  unfoldable pub matches_sender : String → Option String → Bool
  matches_sender sender none = true
  matches_sender sender (some key) = key == sender

  unfoldable pub check_sender : String → Option ConnectionRecord → Exec S (Option ConnectionRecord)
  check_sender sender none = pure none
  check_sender sender (some c) =
      if matches_sender sender (their_key c) then pure (some c) else throw sender_key_mismatch

  unfoldable pub known_connection : Option String → Option String → Exec S (Option ConnectionRecord)
  known_connection (some sender) (some recipient) =
      deps.find_by_verkey recipient >>= check_sender sender
  known_connection _ _ = pure none

  unfoldable pub transform_message : J → Exec S M
  transform_message message = do
    named ← or_throw (deps.type_of message) type_error
    let t = replace_legacy_did_sov_prefix named
    or_throw (get_handler_for_type t) no_handler
    pure (deps.from_json t message)

  -- `dispatch_to` is `dispatch`, so that what it is given can be told.
  unfoldable pub receive : {A : Type 0} → (InboundMessageContext M → Exec S A) → J → Exec S A
  receive dispatch_to packed = do
    unpacked ← unpack_message packed
    connection ← known_connection (truthy unpacked.sender_verkey) (truthy unpacked.recipient_verkey)
    message ← transform_message unpacked.message
    dispatch_to (
        inbound_message_context message connection unpacked.sender_verkey unpacked.recipient_verkey)

  unfoldable pub receive_message : J → Exec S (Answer M J)
  receive_message packed = receive dispatch packed
