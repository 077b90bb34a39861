-- ===== src/Proofs/Module.antt =====
-- modules/proofs/ProofsModule.ts, method by method: what the application calls. A method returns the
-- record that it read or created, as the service has left it. A proposal message always has its
-- proposal here, so the guard for a missing one is the one for a missing message.
use aries_framework_javascri.Prelude.{ℕ, String, Option, [], or_else}
use aries_framework_javascri.Exec.{Exec, pure, or_throw, ◌>>=◌, ◌>>◌, on_store, Fresh, type_error}
use aries_framework_javascri.Storage.{Repository}
use aries_framework_javascri.Storage.InMemory.{Dict}
use aries_framework_javascri.Connections.Record.{ConnectionRecord}
use aries_framework_javascri.Agent.Sending.{Sender, send_to}
use aries_framework_javascri.Proofs.Messages.{
  PresentationPreview, ProofAttributeInfo, ProofPredicateInfo, ProofRequest,
  ProposePresentationMessage, RequestPresentationMessage, PresentationMessage,
  PresentationAckMessage,
}
use aries_framework_javascri.Proofs.Record.{ProofRecord}
use aries_framework_javascri.Proofs.Service.{
  ProofDeps, Proving, get_by_id, create_proposal, create_request, create_request_as_response,
  create_presentation, create_ack,
}
use aries_framework_javascri.Proofs.Request.{
  RequestOptions, create_proof_request_from_proposal, nonce_or,
}
use aries_framework_javascri.Proofs.Verify.{ProofTools, RequestedCredentials, create_proof}

-- The messages that the module sends.
pub data ProofMessage : Type 0 where
  propose_message : ProposePresentationMessage → ProofMessage
  request_message : RequestPresentationMessage → ProofMessage
  present_message : PresentationMessage → ProofMessage
  ack_message : PresentationAckMessage → ProofMessage

-- `config` of `acceptProposal`; `config.request` may be missing, as all of its fields may.
pub record AcceptConfig : Type 0 where
  pub name : Option String
  pub version : Option String
  pub nonce : Option String
  pub comment : Option String

-- `proofRequestOptions` of `requestProof`.
pub record ProofRequestOptions : Type 0 where
  pub name : Option String
  pub nonce : Option String
  pub requested_attributes : Option (Dict ProofAttributeInfo)
  pub requested_predicates : Option (Dict ProofPredicateInfo)

-- The service, the connections, `wallet.generateNonce`, and the tools that make a proof.
pub record ModuleDeps (W J : Type 0) : Type 0 where
  pub service : ProofDeps W J
  pub connections : Repository ConnectionRecord W
  pub generate_nonce : Exec W String
  pub tools : ProofTools W J
  pub sender : Sender W ProofMessage

abbrev pub accept_options : AcceptConfig → RequestOptions
accept_options config = record {
  name = or_else config.name "proof-request";
  version = or_else config.version "1.0";
  nonce = config.nonce;
}

-- The version is taken from the option `name`.
abbrev pub requested_proof : ProofRequestOptions → String → ProofRequest
requested_proof options nonce = record {
  name = or_else options.name "proof-request";
  version = or_else options.name "1.0";
  nonce = nonce;
  requested_attributes = or_else options.requested_attributes [];
  requested_predicates = or_else options.requested_predicates [];
}

module _ {W J : Type 0} (deps : ModuleDeps W J) where
  -- `connectionService.getById`
  unfoldable pub connection_by_id : String → Exec (Proving W) ConnectionRecord
  connection_by_id id = on_store (deps.connections.find id)

  -- The record of an id, and its connection.
  unfoldable pub record_and_connection : String → Exec (Proving W) (ProofRecord × ConnectionRecord)
  record_and_connection id = do
    r ← get_by_id deps.service id
    connection ← connection_by_id r.connection_id
    pure (r, connection)

  unfoldable pub propose_proof :
      Fresh → String → PresentationPreview → Option String → Exec (Proving W) ProofRecord
  propose_proof fresh connection_id proposal comment = do
    connection ← connection_by_id connection_id
    (message, r) ← create_proposal deps.service fresh connection proposal comment
    on_store (send_to deps.sender connection (propose_message message))
    pure r

  unfoldable pub accept_proposal :
      Fresh
      → (uuid predicate_uuid : ℕ → String) → String
      → AcceptConfig
      → Exec (Proving W) ProofRecord
  accept_proposal fresh uuid predicate_uuid id config = do
    (r, connection) ← record_and_connection id
    proposal ← or_throw r.proposal_message type_error
    (request, _) ← on_store (
        create_proof_request_from_proposal deps.generate_nonce uuid predicate_uuid
          proposal.presentation_proposal (accept_options config))
    (message, changed) ← create_request_as_response deps.service fresh r request config.comment
    on_store (send_to deps.sender connection (request_message message))
    pure changed

  unfoldable pub request_proof :
      Fresh → String → ProofRequestOptions → Option String → Exec (Proving W) ProofRecord
  request_proof fresh connection_id options comment = do
    connection ← connection_by_id connection_id
    nonce ← on_store (nonce_or deps.generate_nonce options.nonce)
    (message, r) ←
        create_request deps.service fresh connection (requested_proof options nonce) comment
    on_store (send_to deps.sender connection (request_message message))
    pure r

  unfoldable pub accept_request :
      Fresh → String → RequestedCredentials → Option String → Exec (Proving W) ProofRecord
  accept_request fresh id requested comment = do
    (r, connection) ← record_and_connection id
    (message, changed) ←
        create_presentation deps.service fresh
          (λ request. create_proof deps.tools request requested) r comment
    on_store (send_to deps.sender connection (present_message message))
    pure changed

  unfoldable pub accept_presentation : Fresh → String → Exec (Proving W) ProofRecord
  accept_presentation fresh id = do
    (r, connection) ← record_and_connection id
    (message, changed) ← create_ack deps.service fresh r
    on_store (send_to deps.sender connection (ack_message message))
    pure changed
