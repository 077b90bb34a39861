-- ===== src/Proofs/Calls.antt =====
-- Any sequence of calls of the proof service, in any order, on any wallet.
use aries_framework_javascri.Prelude.{String, Bool, Option, List, [], ◌∷◌}
use aries_framework_javascri.Exec.{Exec, Keeps, keeps_rules, pure, ◌>>◌, Fresh}
use aries_framework_javascri.Agent.Context.{InboundMessageContext}
use aries_framework_javascri.Connections.Record.{ConnectionRecord}
use aries_framework_javascri.Proofs.Messages.{
  PresentationPreview, ProofRequest, ProposePresentationMessage, RequestPresentationMessage,
  PresentationMessage, PresentationAckMessage,
}
use aries_framework_javascri.Proofs.Record.{ProofRecord}
use aries_framework_javascri.Proofs.Service.{
  ProofDeps, Proving, create_proposal, create_proposal_as_response, create_request,
  create_request_as_response, create_presentation, create_ack,
}
use aries_framework_javascri.Proofs.Receiving.{
  process_proposal, process_request, process_presentation, process_ack,
}
use aries_framework_javascri.Proofs.Transitions.{IsTraced}
use aries_framework_javascri.Proofs.Protocol.{
  create_proposal-IsTraced, create_proposal_as_response-IsTraced, create_request-IsTraced,
  create_request_as_response-IsTraced, create_presentation-IsTraced, create_ack-IsTraced,
  process_proposal-IsTraced, process_request-IsTraced, process_presentation-IsTraced,
  process_ack-IsTraced,
}

pub data Call (W J : Type 0) : Type 0 where
  create_proposal_call : Fresh → ConnectionRecord → PresentationPreview → Option String → Call W J
  create_proposal_as_response_call :
      Fresh → ProofRecord → PresentationPreview → Option String → Call W J
  create_request_call : Fresh → ConnectionRecord → ProofRequest → Option String → Call W J
  create_request_as_response_call : Fresh → ProofRecord → ProofRequest → Option String → Call W J
  create_presentation_call : Fresh → (J → Exec W J) → ProofRecord → Option String → Call W J
  create_ack_call : Fresh → ProofRecord → Call W J
  process_proposal_call : Fresh → InboundMessageContext ProposePresentationMessage → Call W J
  process_request_call : Fresh → InboundMessageContext RequestPresentationMessage → Call W J
  process_presentation_call :
      (J → J → Exec W Bool) → InboundMessageContext PresentationMessage → Call W J
  process_ack_call : InboundMessageContext PresentationAckMessage → Call W J

module _ {W J : Type 0} (deps : ProofDeps W J) where
  abbrev perform : Call W J → Exec (Proving W) Unit
  perform (create_proposal_call fresh c p comment) =
      create_proposal deps fresh c p comment >> pure tt
  perform (create_proposal_as_response_call fresh r p comment) =
      create_proposal_as_response deps fresh r p comment >> pure tt
  perform (create_request_call fresh c q comment) = create_request deps fresh c q comment >> pure tt
  perform (create_request_as_response_call fresh r q comment) =
      create_request_as_response deps fresh r q comment >> pure tt
  perform (create_presentation_call fresh make_proof r comment) =
      create_presentation deps fresh make_proof r comment >> pure tt
  perform (create_ack_call fresh r) = create_ack deps fresh r >> pure tt
  perform (process_proposal_call fresh context) = process_proposal deps fresh context >> pure tt
  perform (process_request_call fresh context) = process_request deps fresh context >> pure tt
  perform (process_presentation_call check_proof context) =
      process_presentation deps check_proof context >> pure tt
  perform (process_ack_call context) = process_ack deps context >> pure tt

  -- The calls one after another; a call that throws leaves what it has written.
  unfoldable pub perform_all : List (Call W J) → Proving W → Proving W
  perform_all [] s = s
  perform_all (call ∷ calls) s = perform_all calls (perform call s).1

  perform-IsTraced : (call : Call W J) → Keeps IsTraced (perform call)
  perform-IsTraced (create_proposal_call fresh c p comment) =
      search (keeps_rules, create_proposal-IsTraced)
  perform-IsTraced (create_proposal_as_response_call fresh r p comment) =
      search (keeps_rules, create_proposal_as_response-IsTraced)
  perform-IsTraced (create_request_call fresh c q comment) =
      search (keeps_rules, create_request-IsTraced)
  perform-IsTraced (create_request_as_response_call fresh r q comment) =
      search (keeps_rules, create_request_as_response-IsTraced)
  perform-IsTraced (create_presentation_call fresh make_proof r comment) =
      search (keeps_rules, create_presentation-IsTraced)
  perform-IsTraced (create_ack_call fresh r) = search (keeps_rules, create_ack-IsTraced)
  perform-IsTraced (process_proposal_call fresh context) =
      search (keeps_rules, process_proposal-IsTraced)
  perform-IsTraced (process_request_call fresh context) =
      search (keeps_rules, process_request-IsTraced)
  perform-IsTraced (process_presentation_call check_proof context) =
      search (keeps_rules, process_presentation-IsTraced)
  perform-IsTraced (process_ack_call context) = search (keeps_rules, process_ack-IsTraced)

  -- Whatever calls are made in whatever order, and whatever the wallet answers, every state change
  -- that is announced is a step of the protocol's diagram.
  pub proof_calls-IsTraced :
      (calls : List (Call W J)) (s : Proving W) → IsTraced s → IsTraced (perform_all calls s)
  unfolding perform_all
  proof_calls-IsTraced [] s h = h
  proof_calls-IsTraced (call ∷ calls) s h =
      proof_calls-IsTraced calls (perform call s).1 ((perform-IsTraced call).at s h)
