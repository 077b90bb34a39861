-- ===== src/Connections/Handlers.antt =====
-- modules/connections/handlers and services/TrustPingService.ts: what the dispatcher calls.
use aries_framework_javascri.Prelude.{Bool, Option, none, some, or_else, if◌then◌else◌}
use aries_framework_javascri.Exec.{
  Exec, pure, lift, or_throw, ◌>>=◌, ◌>>◌, Fresh, connection_not_found,
}
use aries_framework_javascri.Message.{new_message, set_thread}
use aries_framework_javascri.Agent.Config.{AgentConfig, auto_accept_connections}
use aries_framework_javascri.Agent.Context.{InboundMessageContext, OutboundMessage}
use aries_framework_javascri.Agent.Helpers.{create_outbound_message}
use aries_framework_javascri.Connections.Messages.{
  ConnectionRequestMessage, ConnectionResponseMessage, TrustPingMessage, TrustPingResponseMessage,
}
use aries_framework_javascri.Connections.Record.{ConnectionRecord, responded, complete, same_state}
use aries_framework_javascri.Connections.Service.{
  ConnectionDeps, Connecting, process_request, create_response, process_response, create_trust_ping,
  process_ack, update_state,
}

-- `connection.autoAcceptConnection ?? config.autoAcceptConnections`
abbrev pub accepts : AgentConfig → ConnectionRecord → Bool
accepts config connection =
    or_else connection.auto_accept_connection (auto_accept_connections config)

-- TrustPingService.processPing, up to sending the response.
unfoldable pub process_ping :
    Fresh → InboundMessageContext TrustPingMessage → Option TrustPingResponseMessage
process_ping fresh context =
    if context.message.response_requested
    then some (record { base = set_thread context.message.base.id (new_message fresh.message_id) })
    else none

module _ {W J : Type 0} (deps : ConnectionDeps W J) (config : AgentConfig) where
  -- The handlers answer on the record of the context, which the service has changed in place.
  answer : {M : Type 0} → ConnectionRecord → M → Exec (Connecting W) (Option (OutboundMessage M))
  answer connection message = do
    outbound ← lift (create_outbound_message connection message none)
    pure (some outbound)

  send_response :
      Fresh
      → ConnectionRecord
      → Exec (Connecting W) (Option (OutboundMessage ConnectionResponseMessage))
  unfolding answer
  send_response fresh connection = do
    (message, _) ← create_response deps config fresh connection.id
    answer connection message

  send_ping : ConnectionRecord → Exec (Connecting W) (Option (OutboundMessage TrustPingMessage))
  unfolding answer
  send_ping connection = do
    (message, _) ← create_trust_ping deps config connection.id
    answer connection message

  unfoldable pub handle_request :
      Fresh
      → InboundMessageContext ConnectionRequestMessage
      → Exec (Connecting W) (Option (OutboundMessage ConnectionResponseMessage))
  unfolding send_response
  handle_request fresh context = do
    or_throw context.connection connection_not_found
    connection ← process_request deps config context
    if accepts config connection then send_response fresh connection else pure none

  unfoldable pub handle_response :
      InboundMessageContext ConnectionResponseMessage
      → Exec (Connecting W) (Option (OutboundMessage TrustPingMessage))
  unfolding send_ping
  handle_response context = do
    or_throw context.connection connection_not_found
    connection ← process_response deps config context
    if accepts config connection then send_ping connection else pure none

  unfoldable pub handle_ack : {M : Type 0} → InboundMessageContext M → Exec (Connecting W) Unit
  handle_ack context = do process_ack deps config context; pure tt

  unfoldable pub answer_ping :
      Option TrustPingResponseMessage
      → ConnectionRecord
      → Exec (Connecting W) (Option (OutboundMessage TrustPingResponseMessage))
  unfolding answer
  answer_ping none connection = pure none
  answer_ping (some response) connection = answer connection response

  unfoldable pub handle_trust_ping :
      Fresh
      → InboundMessageContext TrustPingMessage
      → Exec (Connecting W) (Option (OutboundMessage TrustPingResponseMessage))
  handle_trust_ping fresh context = do
    connection ← or_throw context.connection connection_not_found
    connection ←
        (if same_state connection.state responded
          then update_state deps config connection complete
          else pure connection)
    answer_ping (process_ping fresh context) connection
