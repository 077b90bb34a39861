-- ===== src/Credentials/Module.antt =====
-- modules/credentials/CredentialsModule.ts, method by method: what the application calls. A method
-- returns the record that it read or created, as the service has left it.
use aries_framework_javascri.Prelude.{String, Option, or_option, truthy}
use aries_framework_javascri.Exec.{
  Exec, pure, or_throw, ◌>>=◌, ◌>>◌, on_store, Fresh, type_error, missing_proposal,
  missing_definition_id,
}
use aries_framework_javascri.Connections.Record.{ConnectionRecord}
use aries_framework_javascri.Agent.Sending.{Sender, send_to}
use aries_framework_javascri.Credentials.Messages.{
  ProposalConfig, ProposeCredentialMessage, OfferCredentialMessage, RequestCredentialMessage,
  IssueCredentialMessage, CredentialAckMessage,
}
use aries_framework_javascri.Credentials.Record.{CredentialRecord}
use aries_framework_javascri.Credentials.Service.{
  CredentialDeps, Issuing, CredentialOfferTemplate, get_by_id, create_proposal, create_offer,
  create_offer_as_response, create_request, create_credential, create_ack,
}

-- The messages that the module sends.
pub data CredentialMessage : Type 0 where
  propose_message : ProposeCredentialMessage → CredentialMessage
  offer_message : OfferCredentialMessage → CredentialMessage
  request_message : RequestCredentialMessage → CredentialMessage
  issue_message : IssueCredentialMessage → CredentialMessage
  ack_message : CredentialAckMessage → CredentialMessage

-- The argument `config` of `acceptProposal`.
pub record OfferConfig : Type 0 where
  pub comment : Option String
  pub credential_definition_id : Option String

module _ {W J : Type 0} (deps : CredentialDeps W J) (sender : Sender W CredentialMessage) where
  -- `connectionService.getById`
  unfoldable pub connection_by_id : String → Exec (Issuing W J) ConnectionRecord
  connection_by_id id = on_store (deps.connections.find id)

  -- The record of an id, and its connection.
  unfoldable pub record_and_connection :
      String → Exec (Issuing W J) (CredentialRecord J × ConnectionRecord)
  record_and_connection id = do
    r ← get_by_id deps id
    connection ← connection_by_id r.connection_id
    pure (r, connection)

  unfoldable pub propose_credential :
      Fresh → String → ProposalConfig → Exec (Issuing W J) (CredentialRecord J)
  propose_credential fresh connection_id config = do
    connection ← connection_by_id connection_id
    (message, r) ← create_proposal deps fresh connection config
    on_store (send_to sender connection (propose_message message))
    pure r

  unfoldable pub accept_proposal :
      Fresh → String → OfferConfig → Exec (Issuing W J) (CredentialRecord J)
  accept_proposal fresh id config = do
    (r, connection) ← record_and_connection id
    proposal ← or_throw r.proposal_message type_error
    preview ← or_throw proposal.content.credential_proposal missing_proposal
    let given = or_option config.credential_definition_id proposal.content.credential_definition_id
    credential_definition_id ← or_throw (truthy given) missing_definition_id
    (message, changed) ← create_offer_as_response deps fresh r (record {
      credential_definition_id = credential_definition_id;
      comment = config.comment;
      preview = preview;
    })
    on_store (send_to sender connection (offer_message message))
    pure changed

  unfoldable pub offer_credential :
      Fresh → String → CredentialOfferTemplate → Exec (Issuing W J) (CredentialRecord J)
  offer_credential fresh connection_id template = do
    connection ← connection_by_id connection_id
    (message, r) ← create_offer deps fresh connection template
    on_store (send_to sender connection (offer_message message))
    pure r

  unfoldable pub accept_offer :
      Fresh → String → Option String → Exec (Issuing W J) (CredentialRecord J)
  accept_offer fresh id comment = do
    (r, connection) ← record_and_connection id
    (message, changed) ← create_request deps fresh r comment
    on_store (send_to sender connection (request_message message))
    pure changed

  unfoldable pub accept_request :
      Fresh → String → Option String → Exec (Issuing W J) (CredentialRecord J)
  accept_request fresh id comment = do
    (r, connection) ← record_and_connection id
    (message, changed) ← create_credential deps fresh r comment
    on_store (send_to sender connection (issue_message message))
    pure changed

  unfoldable pub accept_credential : Fresh → String → Exec (Issuing W J) (CredentialRecord J)
  accept_credential fresh id = do
    (r, connection) ← record_and_connection id
    (message, changed) ← create_ack deps fresh r
    on_store (send_to sender connection (ack_message message))
    pure changed

  -- CredentialService.getIndyCredential; `from_json` makes the class CredentialInfo.
  unfoldable pub get_indy_credential : {A : Type 0} → (J → A) → String → Exec (Issuing W J) A
  get_indy_credential from_json credential_id = do
    json ← on_store (deps.get_credential credential_id)
    pure (from_json json)
