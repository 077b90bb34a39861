-- ===== src/Proofs/Protocol.antt =====
-- That every event of the present-proof protocol follows a step of its diagram.
use aries_framework_javascri.Prelude.{String, Bool, Option, none, some}
use aries_framework_javascri.Exec.{Keeps, Exec, Fresh}
use aries_framework_javascri.Agent.Context.{InboundMessageContext}
use aries_framework_javascri.Connections.Record.{ConnectionRecord}
use aries_framework_javascri.Credentials.Protocol.{Keeps-ready_connection, Keeps-single}
use aries_framework_javascri.Proofs.Messages.{
  PresentationPreview, ProofRequest, ProposePresentationMessage, RequestPresentationMessage,
  PresentationMessage, PresentationAckMessage,
}
use aries_framework_javascri.Proofs.Record.{ProofRecord, ProofState}
use aries_framework_javascri.Proofs.Transitions.{Transition, IsTraced, steps}
use aries_framework_javascri.Proofs.Service.{
  ProofDeps, update_state, save_new, get_by_thread_id, create_proposal, create_proposal_as_response,
  create_request, create_request_as_response, create_presentation, create_ack,
}
use aries_framework_javascri.Proofs.Receiving.{
  known_proposal, new_proposal, process_proposal, known_request, new_request, process_request,
  process_presentation, process_ack,
}

module _ {W J : Type 0} (deps : ProofDeps W J) where
  update_state-IsTraced :
      (r : ProofRecord) (new_state : ProofState)
      → Transition (some r.state) new_state
      → Keeps IsTraced (update_state deps r new_state)
  unfolding update_state
  update_state-IsTraced r new_state t = search steps depth 12

  save_new-IsTraced : (r : ProofRecord) → Transition none r.state → Keeps IsTraced (save_new deps r)
  unfolding save_new
  save_new-IsTraced r t = search steps depth 12

  get_by_thread_id-IsTraced :
      (thread : Option String) → Keeps IsTraced (get_by_thread_id deps thread)
  unfolding get_by_thread_id
  get_by_thread_id-IsTraced thread = search (steps, Keeps-single) depth 12

  pub create_proposal-IsTraced :
      (fresh : Fresh) (c : ConnectionRecord) (p : PresentationPreview) (comment : Option String)
      → Keeps IsTraced (create_proposal deps fresh c p comment)
  unfolding create_proposal
  create_proposal-IsTraced fresh c p comment = search (steps, save_new-IsTraced) depth 16

  pub create_proposal_as_response-IsTraced :
      (fresh : Fresh) (r : ProofRecord) (p : PresentationPreview) (comment : Option String)
      → Keeps IsTraced (create_proposal_as_response deps fresh r p comment)
  unfolding create_proposal_as_response
  create_proposal_as_response-IsTraced fresh r p comment =
      search (steps, update_state-IsTraced) depth 16

  pub create_request-IsTraced :
      (fresh : Fresh) (c : ConnectionRecord) (q : ProofRequest) (comment : Option String)
      → Keeps IsTraced (create_request deps fresh c q comment)
  unfolding create_request
  create_request-IsTraced fresh c q comment = search (steps, save_new-IsTraced) depth 16

  pub create_request_as_response-IsTraced :
      (fresh : Fresh) (r : ProofRecord) (q : ProofRequest) (comment : Option String)
      → Keeps IsTraced (create_request_as_response deps fresh r q comment)
  unfolding create_request_as_response
  create_request_as_response-IsTraced fresh r q comment =
      search (steps, update_state-IsTraced) depth 16

  pub create_presentation-IsTraced :
      (fresh : Fresh) (make_proof : J → Exec W J) (r : ProofRecord) (comment : Option String)
      → Keeps IsTraced (create_presentation deps fresh make_proof r comment)
  unfolding create_presentation
  create_presentation-IsTraced fresh make_proof r comment =
      search (steps, update_state-IsTraced) depth 16

  pub create_ack-IsTraced :
      (fresh : Fresh) (r : ProofRecord) → Keeps IsTraced (create_ack deps fresh r)
  unfolding create_ack
  create_ack-IsTraced fresh r = search (steps, update_state-IsTraced) depth 16

  known_proposal-IsTraced :
      (c : ConnectionRecord) (m : ProposePresentationMessage)
      → Keeps IsTraced (known_proposal deps c m)
  unfolding known_proposal
  known_proposal-IsTraced c m =
      search (steps, update_state-IsTraced, get_by_thread_id-IsTraced) depth 16

  new_proposal-IsTraced :
      (fresh : Fresh) (c : ConnectionRecord) (m : ProposePresentationMessage)
      → Keeps IsTraced (new_proposal deps fresh c m)
  unfolding new_proposal
  new_proposal-IsTraced fresh c m = search (steps, save_new-IsTraced) depth 16

  pub process_proposal-IsTraced :
      (fresh : Fresh) (context : InboundMessageContext ProposePresentationMessage)
      → Keeps IsTraced (process_proposal deps fresh context)
  unfolding process_proposal
  process_proposal-IsTraced fresh context =
      search (steps, Keeps-ready_connection, known_proposal-IsTraced, new_proposal-IsTraced) depth
        16

  known_request-IsTraced :
      (c : ConnectionRecord) (m : RequestPresentationMessage)
      → Keeps IsTraced (known_request deps c m)
  unfolding known_request
  known_request-IsTraced c m =
      search (steps, update_state-IsTraced, get_by_thread_id-IsTraced) depth 16

  new_request-IsTraced :
      (fresh : Fresh) (c : ConnectionRecord) (m : RequestPresentationMessage)
      → Keeps IsTraced (new_request deps fresh c m)
  unfolding new_request
  new_request-IsTraced fresh c m = search (steps, save_new-IsTraced) depth 16

  pub process_request-IsTraced :
      (fresh : Fresh) (context : InboundMessageContext RequestPresentationMessage)
      → Keeps IsTraced (process_request deps fresh context)
  unfolding process_request
  process_request-IsTraced fresh context =
      search (steps, Keeps-ready_connection, known_request-IsTraced, new_request-IsTraced) depth 16

  pub process_presentation-IsTraced :
      (check_proof : J → J → Exec W Bool) (context : InboundMessageContext PresentationMessage)
      → Keeps IsTraced (process_presentation deps check_proof context)
  unfolding process_presentation
  process_presentation-IsTraced check_proof context =
      search (steps, Keeps-ready_connection, update_state-IsTraced, get_by_thread_id-IsTraced) depth
        16

  pub process_ack-IsTraced :
      (context : InboundMessageContext PresentationAckMessage)
      → Keeps IsTraced (process_ack deps context)
  unfolding process_ack
  process_ack-IsTraced context =
      search (steps, Keeps-ready_connection, update_state-IsTraced, get_by_thread_id-IsTraced) depth
        16
