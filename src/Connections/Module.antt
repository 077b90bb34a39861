-- ===== src/Connections/Module.antt =====
-- modules/connections/ConnectionsModule.ts, method by method: what the application calls.
use aries_framework_javascri.Prelude.{
  String, Bool, Option, none, some, List, [], ◌∷◌, is_some, ◌==◌, ◌&&◌, if◌then◌else◌,
}
use aries_framework_javascri.Exec.{
  Exec, Result, pure, lift, ◌>>=◌, ◌>>◌, on_store, unawaited, Fresh,
}
use aries_framework_javascri.Agent.Config.{AgentConfig}
use aries_framework_javascri.Agent.Helpers.{create_outbound_message}
use aries_framework_javascri.Agent.Sending.{Sender, send_to}
use aries_framework_javascri.Routing.Messages.{KeylistUpdateMessage}
use aries_framework_javascri.Routing.Provisioning.{create_route}
use aries_framework_javascri.Connections.Messages.{
  ConnectionRequestMessage, ConnectionResponseMessage, TrustPingMessage,
}
use aries_framework_javascri.Connections.Record.{
  ConnectionRecord, ConnectionInvitationMessage, complete, same_state,
}
use aries_framework_javascri.Connections.Service.{
  ConnectionDeps, Connecting, ConnectionEvent, InvitationConfig, create_invitation,
  process_invitation, create_request, create_response, create_trust_ping, find,
}
use aries_framework_javascri.Connections.Handlers.{accepts}

-- The messages that the module sends.
pub data ConnectionMessage : Type 0 where
  request_message : ConnectionRequestMessage → ConnectionMessage
  response_message : ConnectionResponseMessage → ConnectionMessage
  ping_message : TrustPingMessage → ConnectionMessage

-- The message sender, for the module's own messages and for those of ConsumerRoutingService.
pub record ConnectionSending (W : Type 0) : Type 0 where
  pub sender : Sender W ConnectionMessage
  pub route_sender : Sender W KeylistUpdateMessage

abbrev pub is_connected : String → ConnectionRecord → Bool
is_connected id connection = connection.id == id && same_state connection.state complete

-- The listener: it resolves with the record of the first event that has it connected.
unfoldable pub first_connected : String → List ConnectionEvent → Option ConnectionRecord
first_connected id [] = none
first_connected id (event ∷ events) =
    if is_connected id event.changed then some event.changed else first_connected id events

unfoldable pub connected_or_later :
    String → List ConnectionEvent → Option ConnectionRecord → Option ConnectionRecord
connected_or_later id later none = first_connected id later
connected_or_later id later (some connection) =
    if is_connected id connection then some connection else first_connected id later

module _ {W J : Type 0} (deps : ConnectionDeps W J) (config : AgentConfig)
    (sending : ConnectionSending W) where
  -- The route at the mediator, if there is one. `route_id` is the id of its message.
  route : String → ConnectionRecord → Exec (Connecting W) Unit
  route route_id connection =
      if is_some config.inbound_connection
      then on_store (create_route config sending.route_sender.send route_id connection.verkey)
      else pure tt

  -- The route is not awaited.
  unfoldable pub create_connection :
      Fresh
      → String
      → InvitationConfig
      → Exec (Connecting W) (ConnectionInvitationMessage × ConnectionRecord)
  unfolding route
  create_connection fresh route_id options = do
    (invitation, connection) ← create_invitation deps config fresh options
    unawaited (route route_id connection)
    pure (invitation, connection)

  unfoldable pub accept_invitation : Fresh → String → String → Exec (Connecting W) ConnectionRecord
  unfolding route
  accept_invitation fresh route_id connection_id = do
    (message, connection) ← create_request deps config fresh connection_id
    route route_id connection
    outbound ←
        lift (create_outbound_message connection (request_message message) connection.invitation)
    on_store (sending.sender.send outbound)
    pure connection

  -- `accepting` serves the request that is sent if invitations are accepted without asking.
  unfoldable pub receive_invitation :
      (fresh accepting : Fresh)
      → String
      → ConnectionInvitationMessage
      → InvitationConfig
      → Exec (Connecting W) ConnectionRecord
  receive_invitation fresh accepting route_id invitation options = do
    connection ← process_invitation deps config fresh invitation options
    if accepts config connection
        then accept_invitation accepting route_id connection.id
        else pure connection

  -- `from_url` is ConnectionInvitationMessage.fromUrl.
  unfoldable pub receive_invitation_from_url :
      (from_url : String → Result ConnectionInvitationMessage)
      → (fresh accepting : Fresh) → String
      → String
      → InvitationConfig
      → Exec (Connecting W) ConnectionRecord
  receive_invitation_from_url from_url fresh accepting route_id url options = do
    invitation ← lift (from_url url)
    receive_invitation fresh accepting route_id invitation options

  unfoldable pub accept_request : Fresh → String → Exec (Connecting W) ConnectionRecord
  accept_request fresh connection_id = do
    (message, connection) ← create_response deps config fresh connection_id
    on_store (send_to sending.sender connection (response_message message))
    pure connection

  unfoldable pub accept_response : String → Exec (Connecting W) ConnectionRecord
  accept_response connection_id = do
    (message, connection) ← create_trust_ping deps config connection_id
    on_store (send_to sending.sender connection (ping_message message))
    pure connection

-- `later` are the events after the call; `none` says that the promise is still pending after them.
unfoldable pub return_when_is_connected :
    {W J : Type 0}
    → ConnectionDeps W J
    → AgentConfig
    → String
    → List ConnectionEvent
    → Exec (Connecting W) (Option ConnectionRecord)
unfolding connected_or_later
return_when_is_connected deps config connection_id later = do
  connection ← find deps config connection_id
  pure (connected_or_later connection_id later connection)
