-- ===== src/Agent/Context.antt =====
-- agent/models/InboundMessageContext.ts and types.ts: what a handler gets, and what it answers.
use aries_framework_javascri.Prelude.{String, Option, none, some, List, or_option, truthy}
use aries_framework_javascri.Connections.Record.{ConnectionRecord, their_key}

pub record InboundMessageContext (M : Type 0) : Type 0 where
  pub message : M
  pub connection : Option ConnectionRecord
  pub sender_verkey : Option String
  pub recipient_verkey : Option String

sender_of : Option ConnectionRecord → Option String → Option String
sender_of none sender = truthy sender
sender_of (some connection) sender = or_option (truthy (their_key connection)) (truthy sender)

-- The constructor: the key that the connection knows goes before the key of the envelope.
unfoldable pub inbound_message_context :
    {M : Type 0}
    → M
    → Option ConnectionRecord
    → Option String
    → Option String
    → InboundMessageContext M
unfolding sender_of
inbound_message_context message connection sender recipient = record {
  message = message;
  connection = connection;
  sender_verkey = sender_of connection sender;
  recipient_verkey = recipient;
}

pub record OutboundMessage (M : Type 0) : Type 0 where
  pub connection : ConnectionRecord
  pub endpoint : Option String
  pub payload : M
  pub recipient_keys : List String
  pub routing_keys : List String
  pub sender_vk : String
