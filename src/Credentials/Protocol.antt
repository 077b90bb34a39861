-- ===== src/Credentials/Protocol.antt =====
-- That every event of the issue-credential protocol follows a step of its diagram.
use aries_framework_javascri.Prelude.{String, Option, none, some, List, [], ◌∷◌}
use aries_framework_javascri.Exec.{Keeps, keeps_rules, Fresh}
use aries_framework_javascri.Agent.Context.{InboundMessageContext}
use aries_framework_javascri.Connections.Record.{ConnectionRecord}
use aries_framework_javascri.Credentials.Messages.{
  ProposalConfig, ProposeCredentialMessage, OfferCredentialMessage, RequestCredentialMessage,
  IssueCredentialMessage, CredentialAckMessage,
}
use aries_framework_javascri.Credentials.Record.{CredentialRecord, CredentialState}
use aries_framework_javascri.Credentials.Transitions.{Transition, IsTraced, steps}
use aries_framework_javascri.Credentials.Service.{
  CredentialDeps, CredentialOfferTemplate, ready_connection, single, update_state, save_new,
  get_by_thread_id, create_proposal, create_proposal_as_response, create_offer,
  create_offer_as_response, create_request, create_credential, create_ack,
}
use aries_framework_javascri.Credentials.Receiving.{
  known_proposal, new_proposal, process_proposal, known_offer, new_offer, process_offer,
  process_request, process_credential, process_ack,
}

module _ {S : Type 0} {P : S → Type 0} where
  pub Keeps-ready_connection : (c : Option ConnectionRecord) → Keeps P (ready_connection c)
  unfolding ready_connection
  Keeps-ready_connection none = search keeps_rules
  Keeps-ready_connection (some c) = search keeps_rules

  pub Keeps-single : {R : Type 0} (l : List R) → Keeps P (single l)
  unfolding single
  Keeps-single [] = search keeps_rules
  Keeps-single (r ∷ []) = search keeps_rules
  Keeps-single (_ ∷ _ ∷ _) = search keeps_rules

module _ {W J : Type 0} (deps : CredentialDeps W J) where
  update_state-IsTraced :
      (r : CredentialRecord J) (new_state : CredentialState)
      → Transition (some r.state) new_state
      → Keeps IsTraced (update_state deps r new_state)
  unfolding update_state
  update_state-IsTraced r new_state t = search steps depth 12

  save_new-IsTraced :
      (r : CredentialRecord J) → Transition none r.state → Keeps IsTraced (save_new deps r)
  unfolding save_new
  save_new-IsTraced r t = search steps depth 12

  get_by_thread_id-IsTraced :
      (thread : Option String) → Keeps IsTraced (get_by_thread_id deps thread)
  unfolding get_by_thread_id
  get_by_thread_id-IsTraced thread = search (steps, Keeps-single) depth 12

  pub create_proposal-IsTraced :
      (fresh : Fresh) (c : ConnectionRecord) (config : ProposalConfig)
      → Keeps IsTraced (create_proposal deps fresh c config)
  unfolding create_proposal
  create_proposal-IsTraced fresh c config = search (steps, save_new-IsTraced) depth 16

  pub create_proposal_as_response-IsTraced :
      (fresh : Fresh) (r : CredentialRecord J) (config : ProposalConfig)
      → Keeps IsTraced (create_proposal_as_response deps fresh r config)
  unfolding create_proposal_as_response
  create_proposal_as_response-IsTraced fresh r config =
      search (steps, update_state-IsTraced) depth 16

  pub create_offer-IsTraced :
      (fresh : Fresh) (c : ConnectionRecord) (template : CredentialOfferTemplate)
      → Keeps IsTraced (create_offer deps fresh c template)
  unfolding create_offer
  create_offer-IsTraced fresh c template = search (steps, save_new-IsTraced) depth 16

  pub create_offer_as_response-IsTraced :
      (fresh : Fresh) (r : CredentialRecord J) (template : CredentialOfferTemplate)
      → Keeps IsTraced (create_offer_as_response deps fresh r template)
  unfolding create_offer_as_response
  create_offer_as_response-IsTraced fresh r template =
      search (steps, update_state-IsTraced) depth 16

  pub create_request-IsTraced :
      (fresh : Fresh) (r : CredentialRecord J) (comment : Option String)
      → Keeps IsTraced (create_request deps fresh r comment)
  unfolding create_request
  create_request-IsTraced fresh r comment = search (steps, update_state-IsTraced) depth 16

  pub create_credential-IsTraced :
      (fresh : Fresh) (r : CredentialRecord J) (comment : Option String)
      → Keeps IsTraced (create_credential deps fresh r comment)
  unfolding create_credential
  create_credential-IsTraced fresh r comment = search (steps, update_state-IsTraced) depth 16

  pub create_ack-IsTraced :
      (fresh : Fresh) (r : CredentialRecord J) → Keeps IsTraced (create_ack deps fresh r)
  unfolding create_ack
  create_ack-IsTraced fresh r = search (steps, update_state-IsTraced) depth 16

  known_proposal-IsTraced :
      (c : ConnectionRecord) (m : ProposeCredentialMessage)
      → Keeps IsTraced (known_proposal deps c m)
  unfolding known_proposal
  known_proposal-IsTraced c m =
      search (steps, update_state-IsTraced, get_by_thread_id-IsTraced) depth 16

  new_proposal-IsTraced :
      (fresh : Fresh) (c : ConnectionRecord) (m : ProposeCredentialMessage)
      → Keeps IsTraced (new_proposal deps fresh c m)
  unfolding new_proposal
  new_proposal-IsTraced fresh c m = search (steps, save_new-IsTraced) depth 16

  pub process_proposal-IsTraced :
      (fresh : Fresh) (context : InboundMessageContext ProposeCredentialMessage)
      → Keeps IsTraced (process_proposal deps fresh context)
  unfolding process_proposal
  process_proposal-IsTraced fresh context =
      search (steps, Keeps-ready_connection, known_proposal-IsTraced, new_proposal-IsTraced) depth
        16

  known_offer-IsTraced :
      (c : ConnectionRecord) (m : OfferCredentialMessage) → Keeps IsTraced (known_offer deps c m)
  unfolding known_offer
  known_offer-IsTraced c m =
      search (steps, update_state-IsTraced, get_by_thread_id-IsTraced) depth 16

  new_offer-IsTraced :
      (fresh : Fresh) (c : ConnectionRecord) (m : OfferCredentialMessage)
      → Keeps IsTraced (new_offer deps fresh c m)
  unfolding new_offer
  new_offer-IsTraced fresh c m = search (steps, save_new-IsTraced) depth 16

  pub process_offer-IsTraced :
      (fresh : Fresh) (context : InboundMessageContext OfferCredentialMessage)
      → Keeps IsTraced (process_offer deps fresh context)
  unfolding process_offer
  process_offer-IsTraced fresh context =
      search (steps, Keeps-ready_connection, known_offer-IsTraced, new_offer-IsTraced) depth 16

  pub process_request-IsTraced :
      (context : InboundMessageContext RequestCredentialMessage)
      → Keeps IsTraced (process_request deps context)
  unfolding process_request
  process_request-IsTraced context =
      search (steps, Keeps-ready_connection, update_state-IsTraced, get_by_thread_id-IsTraced) depth
        16

  pub process_credential-IsTraced :
      (id : String) (context : InboundMessageContext IssueCredentialMessage)
      → Keeps IsTraced (process_credential deps id context)
  unfolding process_credential
  process_credential-IsTraced id context =
      search (steps, Keeps-ready_connection, update_state-IsTraced, get_by_thread_id-IsTraced) depth
        16

  pub process_ack-IsTraced :
      (context : InboundMessageContext CredentialAckMessage)
      → Keeps IsTraced (process_ack deps context)
  unfolding process_ack
  process_ack-IsTraced context =
      search (steps, Keeps-ready_connection, update_state-IsTraced, get_by_thread_id-IsTraced) depth
        16
