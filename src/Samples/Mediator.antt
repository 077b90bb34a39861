-- ===== src/Samples/Mediator.antt =====
-- samples/mediator.ts: the two transporters and the routes. Express is a parameter: a route is the
-- response that it makes, and a route that throws makes none.
use aries_framework_javascri.Prelude.{ℕ, String, Option, none, some, List, truthy, codes}
use aries_framework_javascri.Exec.{
  Exec, Result, pure, lift, modify, or_throw, ◌>>=◌, Fresh, no_connection, no_their_key,
}
use aries_framework_javascri.Storage.InMemory.{Dict, save_message}
use aries_framework_javascri.Agent.Envelope.{OutboundPackage}
use aries_framework_javascri.Agent.Receiver.{Answer, no_answer, sent, returned}
use aries_framework_javascri.Agent.Config.{AgentConfig}
use aries_framework_javascri.Connections.Record.{ConnectionRecord, their_key}
use aries_framework_javascri.Connections.Service.{ConnectionDeps, Connecting}
use aries_framework_javascri.Connections.Module.{ConnectionSending, create_connection}
use aries_framework_javascri.Connections.Invitation.{InvitationCodec, encode_invitation_to_url}

-- StorageOutboundTransporter.sendMessage, on the message repository that it shares with the agent.
-- A package without a connection is refused.
unfoldable pub store_message :
    {J : Type 0} → Option ConnectionRecord → J → Exec (Dict (List J)) Unit
store_message package_connection payload = do
  connection ← or_throw package_connection no_connection
  key ← or_throw (truthy (their_key connection)) no_their_key
  modify (save_message key payload)

unfoldable pub send_message : {J : Type 0} → OutboundPackage J → Exec (Dict (List J)) Unit
send_message outbound = store_message (some outbound.connection) outbound.payload

-- What a route responds, with status 200. Without a body the response is only ended.
pub record HttpResponse : Type 0 where
  pub body : Option String

-- `agent.receiveMessage`, JSON.parse, and the text that Express writes for a payload: an agent
-- message that was sent, or a packed message.
pub record Receiver (S M J : Type 0) : Type 0 where
  pub receive_message : J → Exec S (Answer M J)
  pub parse : String → Result J
  pub message_text : M → String
  pub packed_text : J → String

module _ {S M J : Type 0} (receiver : Receiver S M J) where
  unfoldable pub respond : Answer M J → HttpResponse
  respond no_answer = record { body = none }
  respond (sent outbound) = record { body = some (receiver.message_text outbound.payload) }
  respond (returned packed) = record { body = some (receiver.packed_text packed.payload) }

  -- HttpInboundTransporter: the route `/msg`.
  unfoldable pub post_message : String → Exec S HttpResponse
  post_message body = do
    packed_message ← lift (receiver.parse body)
    outbound_message ← receiver.receive_message packed_message
    pure (respond outbound_message)

-- `domain = 'https://example.com/ssi'`, the default of `toUrl`.
abbrev pub default_domain : List ℕ
default_domain = codes "https://example.com/ssi"

module _ {W J K : Type 0} (deps : ConnectionDeps W J) (config : AgentConfig)
    (sending : ConnectionSending W) (codec : InvitationCodec K) where
  -- The route `/invitation`.
  unfoldable pub get_invitation : Fresh → String → Exec (Connecting W) (List ℕ)
  get_invitation fresh route_id = do
    (invitation, _) ←
        create_connection deps config sending fresh route_id
          (record { auto_accept = none; alias = none })
    pure (encode_invitation_to_url codec invitation default_domain)
