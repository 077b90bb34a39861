-- ===== src/Credentials/Receiving.antt =====
-- modules/credentials/services/CredentialService.ts: the methods that process a received message. A
-- record that the wallet holds with its message data is read back as the classes.
use aries_framework_javascri.Prelude.{String, some, [], ◌∷◌}
use aries_framework_javascri.Exec.{
  Exec, lift, or_throw, ◌>>=◌, ◌>>◌, try_catch, on_store, Fresh, missing_attachment,
  missing_request_metadata,
}
use aries_framework_javascri.Message.{thread_id}
use aries_framework_javascri.Agent.Context.{InboundMessageContext}
use aries_framework_javascri.Connections.Record.{ConnectionRecord}
use aries_framework_javascri.Credentials.Messages.{
  ProposeCredentialMessage, OfferCredentialMessage, RequestCredentialMessage,
  IssueCredentialMessage, CredentialAckMessage, indy_credential_offer, indy_credential_request,
  indy_credential,
}
use aries_framework_javascri.Credentials.Record.{
  CredentialRecord, proposal_sent, proposal_received, offer_sent, offer_received, request_sent,
  request_received, credential_issued, credential_received, done, assert_state, assert_connection,
}
use aries_framework_javascri.Credentials.Service.{
  CredentialDeps, Issuing, new_record, ready_connection, update_state, save_new, get_by_thread_id,
}

module _ {W J : Type 0} (deps : CredentialDeps W J) where
  -- The `try` block: the record of the thread takes the proposal.
  unfoldable pub known_proposal :
      ConnectionRecord → ProposeCredentialMessage → Exec (Issuing W J) (CredentialRecord J)
  known_proposal connection message = do
    r ← get_by_thread_id deps (thread_id message.base)
    assert_state r (offer_sent ∷ [])
    assert_connection r connection.id
    update_state deps (record r { proposal_message = some message }) proposal_received

  -- The `catch` block, whatever was thrown.
  unfoldable pub new_proposal :
      Fresh → ConnectionRecord → ProposeCredentialMessage → Exec (Issuing W J) (CredentialRecord J)
  new_proposal fresh connection message = save_new deps (
      let fields = new_record fresh connection.id proposal_received (thread_id message.base) in
      record fields { proposal_message = some message })

  unfoldable pub process_proposal :
      Fresh
      → InboundMessageContext ProposeCredentialMessage
      → Exec (Issuing W J) (CredentialRecord J)
  process_proposal fresh context = do
    connection ← ready_connection context.connection
    try_catch (known_proposal connection context.message)
        (new_proposal fresh connection context.message)

  unfoldable pub known_offer :
      ConnectionRecord → OfferCredentialMessage → Exec (Issuing W J) (CredentialRecord J)
  known_offer connection message = do
    r ← get_by_thread_id deps (thread_id message.base)
    assert_state r (proposal_sent ∷ [])
    assert_connection r connection.id
    update_state deps (record r { offer_message = some message }) offer_received

  -- The thread of the new record is the message's id, not its thread id.
  unfoldable pub new_offer :
      Fresh → ConnectionRecord → OfferCredentialMessage → Exec (Issuing W J) (CredentialRecord J)
  new_offer fresh connection message = save_new deps (
      let fields = new_record fresh connection.id offer_received message.base.id in
      record fields { offer_message = some message })

  unfoldable pub process_offer :
      Fresh → InboundMessageContext OfferCredentialMessage → Exec (Issuing W J) (CredentialRecord J)
  process_offer fresh context = do
    connection ← ready_connection context.connection
    decoded ← lift (indy_credential_offer deps.codec context.message)
    or_throw decoded missing_attachment
    try_catch (known_offer connection context.message) (new_offer fresh connection context.message)

  unfoldable pub process_request :
      InboundMessageContext RequestCredentialMessage → Exec (Issuing W J) (CredentialRecord J)
  process_request context = do
    let message = context.message
    connection ← ready_connection context.connection
    decoded ← lift (indy_credential_request deps.codec message)
    or_throw decoded missing_attachment
    r ← get_by_thread_id deps (thread_id message.base)
    assert_state r (offer_sent ∷ [])
    assert_connection r connection.id
    update_state deps (record r { request_message = some message }) request_received

  -- `id` is the `uuid()` under which the wallet is asked to store the credential.
  unfoldable pub process_credential :
      String
      → InboundMessageContext IssueCredentialMessage
      → Exec (Issuing W J) (CredentialRecord J)
  process_credential id context = do
    let message = context.message
    ready_connection context.connection
    r ← get_by_thread_id deps (thread_id message.base)
    assert_state r (request_sent ∷ [])
    metadata ← or_throw r.request_metadata missing_request_metadata
    decoded ← lift (indy_credential deps.codec message)
    credential ← or_throw decoded missing_attachment
    definition ← on_store (deps.get_credential_definition (deps.cred_def_id credential))
    credential_id ← on_store (deps.store_credential id metadata credential definition)
    update_state deps
        (record r { credential_id = some credential_id; credential_message = some message })
        credential_received

  unfoldable pub process_ack :
      InboundMessageContext CredentialAckMessage → Exec (Issuing W J) (CredentialRecord J)
  process_ack context = do
    ready_connection context.connection
    r ← get_by_thread_id deps (thread_id context.message.base)
    assert_state r (credential_issued ∷ [])
    update_state deps r done
