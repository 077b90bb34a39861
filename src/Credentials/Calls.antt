-- ===== src/Credentials/Calls.antt =====
-- Any sequence of calls of the credential service, in any order, on any wallet.
use aries_framework_javascri.Prelude.{String, Option, List, [], ◌∷◌}
use aries_framework_javascri.Exec.{Exec, Keeps, keeps_rules, pure, ◌>>◌, Fresh}
use aries_framework_javascri.Agent.Context.{InboundMessageContext}
use aries_framework_javascri.Connections.Record.{ConnectionRecord}
use aries_framework_javascri.Credentials.Messages.{
  ProposalConfig, ProposeCredentialMessage, OfferCredentialMessage, RequestCredentialMessage,
  IssueCredentialMessage, CredentialAckMessage,
}
use aries_framework_javascri.Credentials.Record.{CredentialRecord}
use aries_framework_javascri.Credentials.Service.{
  CredentialDeps, Issuing, CredentialOfferTemplate, create_proposal, create_proposal_as_response,
  create_offer, create_offer_as_response, create_request, create_credential, create_ack,
}
use aries_framework_javascri.Credentials.Receiving.{
  process_proposal, process_offer, process_request, process_credential, process_ack,
}
use aries_framework_javascri.Credentials.Transitions.{IsTraced}
use aries_framework_javascri.Credentials.Protocol.{
  create_proposal-IsTraced, create_proposal_as_response-IsTraced, create_offer-IsTraced,
  create_offer_as_response-IsTraced, create_request-IsTraced, create_credential-IsTraced,
  create_ack-IsTraced, process_proposal-IsTraced, process_offer-IsTraced, process_request-IsTraced,
  process_credential-IsTraced, process_ack-IsTraced,
}

pub data Call (J : Type 0) : Type 0 where
  create_proposal_call : Fresh → ConnectionRecord → ProposalConfig → Call J
  create_proposal_as_response_call : Fresh → CredentialRecord J → ProposalConfig → Call J
  create_offer_call : Fresh → ConnectionRecord → CredentialOfferTemplate → Call J
  create_offer_as_response_call : Fresh → CredentialRecord J → CredentialOfferTemplate → Call J
  create_request_call : Fresh → CredentialRecord J → Option String → Call J
  create_credential_call : Fresh → CredentialRecord J → Option String → Call J
  create_ack_call : Fresh → CredentialRecord J → Call J
  process_proposal_call : Fresh → InboundMessageContext ProposeCredentialMessage → Call J
  process_offer_call : Fresh → InboundMessageContext OfferCredentialMessage → Call J
  process_request_call : InboundMessageContext RequestCredentialMessage → Call J
  process_credential_call : String → InboundMessageContext IssueCredentialMessage → Call J
  process_ack_call : InboundMessageContext CredentialAckMessage → Call J

module _ {W J : Type 0} (deps : CredentialDeps W J) where
  abbrev perform : Call J → Exec (Issuing W J) Unit
  perform (create_proposal_call fresh c config) = create_proposal deps fresh c config >> pure tt
  perform (create_proposal_as_response_call fresh r config) =
      create_proposal_as_response deps fresh r config >> pure tt
  perform (create_offer_call fresh c template) = create_offer deps fresh c template >> pure tt
  perform (create_offer_as_response_call fresh r template) =
      create_offer_as_response deps fresh r template >> pure tt
  perform (create_request_call fresh r comment) = create_request deps fresh r comment >> pure tt
  perform (create_credential_call fresh r comment) =
      create_credential deps fresh r comment >> pure tt
  perform (create_ack_call fresh r) = create_ack deps fresh r >> pure tt
  perform (process_proposal_call fresh context) = process_proposal deps fresh context >> pure tt
  perform (process_offer_call fresh context) = process_offer deps fresh context >> pure tt
  perform (process_request_call context) = process_request deps context >> pure tt
  perform (process_credential_call id context) = process_credential deps id context >> pure tt
  perform (process_ack_call context) = process_ack deps context >> pure tt

  -- The calls one after another; a call that throws leaves what it has written.
  unfoldable pub perform_all : List (Call J) → Issuing W J → Issuing W J
  perform_all [] s = s
  perform_all (call ∷ calls) s = perform_all calls (perform call s).1

  perform-IsTraced : (call : Call J) → Keeps IsTraced (perform call)
  perform-IsTraced (create_proposal_call fresh c config) =
      search (keeps_rules, create_proposal-IsTraced)
  perform-IsTraced (create_proposal_as_response_call fresh r config) =
      search (keeps_rules, create_proposal_as_response-IsTraced)
  perform-IsTraced (create_offer_call fresh c template) =
      search (keeps_rules, create_offer-IsTraced)
  perform-IsTraced (create_offer_as_response_call fresh r template) =
      search (keeps_rules, create_offer_as_response-IsTraced)
  perform-IsTraced (create_request_call fresh r comment) =
      search (keeps_rules, create_request-IsTraced)
  perform-IsTraced (create_credential_call fresh r comment) =
      search (keeps_rules, create_credential-IsTraced)
  perform-IsTraced (create_ack_call fresh r) = search (keeps_rules, create_ack-IsTraced)
  perform-IsTraced (process_proposal_call fresh context) =
      search (keeps_rules, process_proposal-IsTraced)
  perform-IsTraced (process_offer_call fresh context) = search (keeps_rules, process_offer-IsTraced)
  perform-IsTraced (process_request_call context) = search (keeps_rules, process_request-IsTraced)
  perform-IsTraced (process_credential_call id context) =
      search (keeps_rules, process_credential-IsTraced)
  perform-IsTraced (process_ack_call context) = search (keeps_rules, process_ack-IsTraced)

  -- Whatever calls are made in whatever order, and whatever the wallet answers, every state change
  -- that is announced is a step of the protocol's diagram.
  pub credential_calls-IsTraced :
      (calls : List (Call J)) (s : Issuing W J) → IsTraced s → IsTraced (perform_all calls s)
  unfolding perform_all
  credential_calls-IsTraced [] s h = h
  credential_calls-IsTraced (call ∷ calls) s h =
      credential_calls-IsTraced calls (perform call s).1 ((perform-IsTraced call).at s h)
