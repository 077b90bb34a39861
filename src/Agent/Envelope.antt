-- ===== src/Agent/Envelope.antt =====
-- agent/EnvelopeService.ts and agent/MessageSender.ts. Packing and unpacking are the wallet's, JSON
-- is JavaScript's, and the transport is the application's: parameters.
use aries_framework_javascri.Prelude.{ℕ, suc, String, Option, none, some, List, [], ◌∷◌, first}
use aries_framework_javascri.Exec.{Exec, pure, ◌>>=◌}
use aries_framework_javascri.Message.{AgentMessage, new_message, all_route, set_return_routing}
use aries_framework_javascri.Connections.Record.{ConnectionRecord}
use aries_framework_javascri.Agent.Context.{
  InboundMessageContext, inbound_message_context, OutboundMessage,
}
use aries_framework_javascri.Routing.Messages.{ForwardMessage}

-- types.ts: `UnpackedMessageContext` and `OutboundPackage`; `J` is the type of JSON objects, packed
-- or not.
pub record UnpackedMessage (J : Type 0) : Type 0 where
  pub message : J
  pub sender_verkey : Option String
  pub recipient_verkey : Option String

pub record OutboundPackage (J : Type 0) : Type 0 where
  pub connection : ConnectionRecord
  pub payload : J
  pub endpoint : Option String

pub record Envelopes (S J : Type 0) : Type 0 where
  pub pack : J → List String → String → Exec S J
  pub unpack : J → Exec S (UnpackedMessage J)
  pub forward_json : ForwardMessage J → J

module _ {S J : Type 0} (envelopes : Envelopes S J) (uuid : ℕ → String) where
  -- The loop over the routing keys; `uuid n` is the id of the n-th forward message.
  unfoldable pub wrap : ℕ → Option String → String → List String → J → Exec S J
  wrap n to sender [] packed = pure packed
  wrap n to sender (key ∷ keys) packed =
      envelopes.pack
        (envelopes.forward_json (record { base = new_message (uuid n); to = to; message = packed }))
        (key ∷ []) sender
      >>= wrap (suc n) to sender keys

  module _ {M : Type 0} (to_json : M → J) where
    unfoldable pub pack_message : OutboundMessage M → Exec S (OutboundPackage J)
    pack_message outbound = do
      let to = first outbound.recipient_keys
      packed ← envelopes.pack (to_json outbound.payload) outbound.recipient_keys outbound.sender_vk
      wrapped ← wrap 0 to outbound.sender_vk outbound.routing_keys packed
      pure (record {
        connection = outbound.connection;
        payload = wrapped;
        endpoint = outbound.endpoint;
      })

    -- `send` is the transport without an answer.
    unfoldable pub send_message :
        (OutboundPackage J → Exec S Unit) → OutboundMessage M → Exec S Unit
    send_message send outbound = pack_message outbound >>= send

    -- `send` is the transport with an answer. The payload's decorator is set in place.
    unfoldable pub send_and_receive_message :
        {R : Type 0}
        → (OutboundPackage J → Exec S J)
        → (set_transport : (AgentMessage → AgentMessage) → M → M) → (from_json : J → R)
        → OutboundMessage M
        → Exec S (InboundMessageContext R)
    send_and_receive_message send set_transport from_json outbound = do
      let routed = record outbound {
        payload = set_transport (set_return_routing all_route none) outbound.payload;
      }
      outbound_package ← pack_message routed
      answer ← send outbound_package
      unpacked ← envelopes.unpack answer
      pure (
          inbound_message_context (from_json unpacked.message) (some outbound.connection)
            unpacked.sender_verkey unpacked.recipient_verkey)
