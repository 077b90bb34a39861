-- ===== src/Connections/Protocol.antt =====
-- The states of RFC 0160 and the steps between them, and that every event follows a step.
use aries_framework_javascri.Prelude.{
  String, Bool, true, Option, none, some, [], ◌∷◌, ◌≡◌, any, ◌&&◌, arith,
}
use aries_framework_javascri.Exec.{
  keeps_rules, Keeps-bind_of, ok, ◌>>=◌, Keeps, Keeps-pure, Traced, Fresh,
}
use aries_framework_javascri.Agent.Config.{AgentConfig}
use aries_framework_javascri.Agent.Context.{InboundMessageContext}
use aries_framework_javascri.Connections.Messages.{
  ConnectionRequestMessage, ConnectionResponseMessage, TrustPingMessage, TrustPingResponseMessage,
}
use aries_framework_javascri.Connections.Record.{
  ConnectionState, init, invited, requested, responded, complete, ConnectionRecord,
  ConnectionInvitationMessage, same_state,
}
use aries_framework_javascri.Connections.Service.{
  ConnectionDeps, ConnectionEvent, Connecting, InvitationConfig, CreateOptions, update_state,
  create_connection, create_invitation, process_invitation, create_request, process_request,
  create_response, process_response, create_trust_ping, process_ack,
}
use aries_framework_javascri.Connections.Handlers.{
  handle_request, handle_response, handle_ack, handle_trust_ping, answer_ping,
}

-- The protocol's diagram; a ping may be sent again on a complete connection.
pub data Transition : Option ConnectionState → ConnectionState → Type 0 where
  invite : Transition none invited
  request : Transition (some invited) requested
  respond : Transition (some requested) responded
  finish : Transition (some responded) complete
  ping_again : Transition (some complete) complete

abbrev pub IsTransition : ConnectionEvent → Type 0
IsTransition e = Transition e.previous_state e.changed.state

abbrev pub IsTraced : {W : Type 0} → Connecting W → Type 0
IsTraced = Traced IsTransition

-- The steps that a passed test allows.
request_step :
    (s : ConnectionState) → any (same_state s) (invited ∷ []) ≡ true → Transition (some s) requested
request_step invited h = request
request_step init h = cc
request_step requested h = cc
request_step responded h = cc
request_step complete h = cc

respond_step :
    (s : ConnectionState)
    → any (same_state s) (requested ∷ []) ≡ true
    → Transition (some s) responded
respond_step requested h = respond
respond_step init h = cc
respond_step invited h = cc
respond_step responded h = cc
respond_step complete h = cc

ping_step :
    (s : ConnectionState)
    → any (same_state s) (responded ∷ complete ∷ []) ≡ true
    → Transition (some s) complete
ping_step responded h = finish
ping_step complete h = ping_again
ping_step init h = cc
ping_step invited h = cc
ping_step requested h = cc

finish_step : (s : ConnectionState) → same_state s responded ≡ true → Transition (some s) complete
finish_step responded h = finish
finish_step init h = cc
finish_step invited h = cc
finish_step requested h = cc
finish_step complete h = cc

invite_step : (s : ConnectionState) → s ≡ invited → Transition none s
invite_step s e = rw e invite

ack_step :
    (s : ConnectionState) (b : Bool)
    → (same_state s responded && b) ≡ true
    → Transition (some s) complete
ack_step s b h = finish_step s (ground arith)

ruleset steps = (keeps_rules, invite, request_step, respond_step, ping_step, finish_step, ack_step)

module _ {W J : Type 0} (deps : ConnectionDeps W J) (config : AgentConfig) where
  update_state-IsTraced :
      (c : ConnectionRecord) (new_state : ConnectionState)
      → Transition (some c.state) new_state
      → Keeps IsTraced (update_state deps config c new_state)
  unfolding update_state
  update_state-IsTraced c new_state t = search steps depth 12

  create_connection-IsTraced :
      (fresh : Fresh) (options : CreateOptions)
      → Keeps IsTraced (create_connection deps config fresh options)
  unfolding create_connection
  create_connection-IsTraced fresh options = search steps depth 12

  -- A new record has the state that the options give.
  create_connection-state :
      (fresh : Fresh) (options : CreateOptions) (s : Connecting W) (c : ConnectionRecord)
      → (create_connection deps config fresh options s).0 ≡ ok c
      → c.state ≡ options.state
  unfolding create_connection ◌>>=◌
  create_connection-state fresh options s c e = ground arith

  pub create_invitation-IsTraced :
      (fresh : Fresh) (options : InvitationConfig)
      → Keeps IsTraced (create_invitation deps config fresh options)
  unfolding create_invitation
  create_invitation-IsTraced fresh options =
      Keeps-bind_of (λ c. c.state ≡ invited) _ _ (create_connection-IsTraced fresh _)
        (create_connection-state fresh _) λ c e. search (steps, invite_step) depth 12

  pub process_invitation-IsTraced :
      (fresh : Fresh) (invitation : ConnectionInvitationMessage) (options : InvitationConfig)
      → Keeps IsTraced (process_invitation deps config fresh invitation options)
  unfolding process_invitation
  process_invitation-IsTraced fresh invitation options =
      Keeps-bind_of (λ c. c.state ≡ invited) _ _ (create_connection-IsTraced fresh _)
        (create_connection-state fresh _) λ c e. search (steps, invite_step) depth 12

  pub create_request-IsTraced :
      (fresh : Fresh) (id : String) → Keeps IsTraced (create_request deps config fresh id)
  unfolding create_request
  create_request-IsTraced fresh id = search (steps, update_state-IsTraced) depth 14

  pub process_request-IsTraced :
      (context : InboundMessageContext ConnectionRequestMessage)
      → Keeps IsTraced (process_request deps config context)
  unfolding process_request
  process_request-IsTraced context = search (steps, update_state-IsTraced) depth 14

  pub create_response-IsTraced :
      (fresh : Fresh) (id : String) → Keeps IsTraced (create_response deps config fresh id)
  unfolding create_response
  create_response-IsTraced fresh id = search (steps, update_state-IsTraced) depth 14

  pub process_response-IsTraced :
      (context : InboundMessageContext ConnectionResponseMessage)
      → Keeps IsTraced (process_response deps config context)
  unfolding process_response
  process_response-IsTraced context = search (steps, update_state-IsTraced) depth 14

  pub create_trust_ping-IsTraced : (id : String) → Keeps IsTraced (create_trust_ping deps config id)
  unfolding create_trust_ping
  create_trust_ping-IsTraced id = search (steps, update_state-IsTraced) depth 14

  pub process_ack-IsTraced :
      {M : Type 0} (context : InboundMessageContext M)
      → Keeps IsTraced (process_ack deps config context)
  unfolding process_ack
  process_ack-IsTraced context = search (steps, update_state-IsTraced) depth 14

  pub handle_request-IsTraced :
      (fresh : Fresh) (context : InboundMessageContext ConnectionRequestMessage)
      → Keeps IsTraced (handle_request deps config fresh context)
  unfolding handle_request
  handle_request-IsTraced fresh context =
      search (steps, process_request-IsTraced, create_response-IsTraced) depth 14

  pub handle_response-IsTraced :
      (context : InboundMessageContext ConnectionResponseMessage)
      → Keeps IsTraced (handle_response deps config context)
  unfolding handle_response
  handle_response-IsTraced context =
      search (steps, process_response-IsTraced, create_trust_ping-IsTraced) depth 14

  pub handle_ack-IsTraced :
      {M : Type 0} (context : InboundMessageContext M)
      → Keeps IsTraced (handle_ack deps config context)
  unfolding handle_ack
  handle_ack-IsTraced context = search (steps, process_ack-IsTraced) depth 14

  answer_ping-IsTraced :
      (o : Option TrustPingResponseMessage) (c : ConnectionRecord)
      → Keeps IsTraced (answer_ping deps config o c)
  unfolding answer_ping
  answer_ping-IsTraced none c = Keeps-pure none
  answer_ping-IsTraced (some response) c = search steps depth 12

  pub handle_trust_ping-IsTraced :
      (fresh : Fresh) (context : InboundMessageContext TrustPingMessage)
      → Keeps IsTraced (handle_trust_ping deps config fresh context)
  unfolding handle_trust_ping
  handle_trust_ping-IsTraced fresh context =
      search (steps, update_state-IsTraced, answer_ping-IsTraced) depth 14
