-- ===== src/Connections/Calls.antt =====
-- Any sequence of calls of the service and of its handlers, in any order, on any wallet.
use aries_framework_javascri.Prelude.{String, List, [], ◌∷◌}
use aries_framework_javascri.Exec.{Exec, Keeps, pure, ◌>>◌, Fresh, keeps_rules}
use aries_framework_javascri.Agent.Config.{AgentConfig}
use aries_framework_javascri.Agent.Context.{InboundMessageContext}
use aries_framework_javascri.Connections.Messages.{
  ConnectionRequestMessage, ConnectionResponseMessage, TrustPingMessage, AckMessage,
}
use aries_framework_javascri.Connections.Record.{ConnectionInvitationMessage}
use aries_framework_javascri.Connections.Service.{
  ConnectionDeps, Connecting, InvitationConfig, create_invitation, process_invitation,
  create_request, process_request, create_response, process_response, create_trust_ping,
  process_ack,
}
use aries_framework_javascri.Connections.Handlers.{
  handle_request, handle_response, handle_ack, handle_trust_ping,
}
use aries_framework_javascri.Connections.Protocol.{
  IsTraced, create_invitation-IsTraced, process_invitation-IsTraced, create_request-IsTraced,
  process_request-IsTraced, create_response-IsTraced, process_response-IsTraced,
  create_trust_ping-IsTraced, process_ack-IsTraced, handle_request-IsTraced,
  handle_response-IsTraced, handle_ack-IsTraced, handle_trust_ping-IsTraced,
}

pub data Call : Type 0 where
  create_invitation_call : Fresh → InvitationConfig → Call
  process_invitation_call : Fresh → ConnectionInvitationMessage → InvitationConfig → Call
  create_request_call create_response_call : Fresh → String → Call
  create_trust_ping_call : String → Call
  process_request_call : InboundMessageContext ConnectionRequestMessage → Call
  process_response_call : InboundMessageContext ConnectionResponseMessage → Call
  process_ack_call handle_ack_call : InboundMessageContext AckMessage → Call
  handle_request_call : Fresh → InboundMessageContext ConnectionRequestMessage → Call
  handle_response_call : InboundMessageContext ConnectionResponseMessage → Call
  handle_trust_ping_call : Fresh → InboundMessageContext TrustPingMessage → Call

module _ {W J : Type 0} (deps : ConnectionDeps W J) (config : AgentConfig) where
  abbrev perform : Call → Exec (Connecting W) Unit
  perform (create_invitation_call fresh options) =
      create_invitation deps config fresh options >> pure tt
  perform (process_invitation_call fresh invitation options) =
      process_invitation deps config fresh invitation options >> pure tt
  perform (create_request_call fresh id) = create_request deps config fresh id >> pure tt
  perform (create_response_call fresh id) = create_response deps config fresh id >> pure tt
  perform (create_trust_ping_call id) = create_trust_ping deps config id >> pure tt
  perform (process_request_call context) = process_request deps config context >> pure tt
  perform (process_response_call context) = process_response deps config context >> pure tt
  perform (process_ack_call context) = process_ack deps config context >> pure tt
  perform (handle_ack_call context) = handle_ack deps config context >> pure tt
  perform (handle_request_call fresh context) = handle_request deps config fresh context >> pure tt
  perform (handle_response_call context) = handle_response deps config context >> pure tt
  perform (handle_trust_ping_call fresh context) =
      handle_trust_ping deps config fresh context >> pure tt

  -- The calls one after another; a call that throws leaves what it has written.
  unfoldable pub perform_all : List Call → Connecting W → Connecting W
  perform_all [] s = s
  perform_all (call ∷ calls) s = perform_all calls (perform call s).1

  perform-IsTraced : (call : Call) → Keeps IsTraced (perform call)
  perform-IsTraced (create_invitation_call fresh options) =
      search (keeps_rules, create_invitation-IsTraced)
  perform-IsTraced (process_invitation_call fresh invitation options) =
      search (keeps_rules, process_invitation-IsTraced)
  perform-IsTraced (create_request_call fresh id) = search (keeps_rules, create_request-IsTraced)
  perform-IsTraced (create_response_call fresh id) = search (keeps_rules, create_response-IsTraced)
  perform-IsTraced (create_trust_ping_call id) = search (keeps_rules, create_trust_ping-IsTraced)
  perform-IsTraced (process_request_call context) = search (keeps_rules, process_request-IsTraced)
  perform-IsTraced (process_response_call context) = search (keeps_rules, process_response-IsTraced)
  perform-IsTraced (process_ack_call context) = search (keeps_rules, process_ack-IsTraced)
  perform-IsTraced (handle_ack_call context) = search (keeps_rules, handle_ack-IsTraced)
  perform-IsTraced (handle_request_call fresh context) =
      search (keeps_rules, handle_request-IsTraced)
  perform-IsTraced (handle_response_call context) = search (keeps_rules, handle_response-IsTraced)
  perform-IsTraced (handle_trust_ping_call fresh context) =
      search (keeps_rules, handle_trust_ping-IsTraced)

  -- Whatever calls are made in whatever order, and whatever the wallet answers, every state change
  -- that is announced is a step of the protocol's diagram.
  pub connection_calls-IsTraced :
      (calls : List Call) (s : Connecting W) → IsTraced s → IsTraced (perform_all calls s)
  unfolding perform_all
  connection_calls-IsTraced [] s h = h
  connection_calls-IsTraced (call ∷ calls) s h =
      connection_calls-IsTraced calls (perform call s).1 ((perform-IsTraced call).at s h)
