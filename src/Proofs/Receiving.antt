-- ===== src/Proofs/Receiving.antt =====
-- modules/proofs/services/ProofService.ts: the methods that process a received message.
use aries_framework_javascri.Prelude.{Bool, some, [], ◌∷◌}
use aries_framework_javascri.Exec.{
  Exec, lift, or_throw, require, ◌>>=◌, ◌>>◌, try_catch, on_store, Fresh, missing_attachment,
  type_error, validation_failed,
}
use aries_framework_javascri.Message.{thread_id}
use aries_framework_javascri.Agent.Context.{InboundMessageContext}
use aries_framework_javascri.Connections.Record.{ConnectionRecord}
use aries_framework_javascri.Credentials.Service.{ready_connection}
use aries_framework_javascri.Proofs.Messages.{
  ProposePresentationMessage, RequestPresentationMessage, PresentationMessage,
  PresentationAckMessage, indy_proof_request, indy_proof,
}
use aries_framework_javascri.Proofs.Record.{
  ProofRecord, proposal_sent, proposal_received, request_sent, request_received, presentation_sent,
  presentation_received, done, assert_state, assert_connection,
}
use aries_framework_javascri.Proofs.Service.{
  ProofDeps, Proving, new_record, update_state, save_new, get_by_thread_id,
}

module _ {W J : Type 0} (deps : ProofDeps W J) where
  -- The `try` block: the record of the thread takes the proposal.
  unfoldable pub known_proposal :
      ConnectionRecord → ProposePresentationMessage → Exec (Proving W) ProofRecord
  known_proposal connection message = do
    r ← get_by_thread_id deps (thread_id message.base)
    assert_state r (request_sent ∷ [])
    assert_connection r connection.id
    update_state deps (record r { proposal_message = some message }) proposal_received

  -- The `catch` block, whatever was thrown.
  unfoldable pub new_proposal :
      Fresh → ConnectionRecord → ProposePresentationMessage → Exec (Proving W) ProofRecord
  new_proposal fresh connection message = save_new deps (
      let fields = new_record fresh connection.id proposal_received (thread_id message.base) in
      record fields { proposal_message = some message })

  unfoldable pub process_proposal :
      Fresh → InboundMessageContext ProposePresentationMessage → Exec (Proving W) ProofRecord
  process_proposal fresh context = do
    connection ← ready_connection context.connection
    try_catch (known_proposal connection context.message)
        (new_proposal fresh connection context.message)

  unfoldable pub known_request :
      ConnectionRecord → RequestPresentationMessage → Exec (Proving W) ProofRecord
  known_request connection message = do
    r ← get_by_thread_id deps (thread_id message.base)
    assert_state r (proposal_sent ∷ [])
    assert_connection r connection.id
    update_state deps (record r { request_message = some message }) request_received

  unfoldable pub new_request :
      Fresh → ConnectionRecord → RequestPresentationMessage → Exec (Proving W) ProofRecord
  new_request fresh connection message = save_new deps (
      let fields = new_record fresh connection.id request_received (thread_id message.base) in
      record fields { request_message = some message })

  unfoldable pub process_request :
      Fresh → InboundMessageContext RequestPresentationMessage → Exec (Proving W) ProofRecord
  process_request fresh context = do
    connection ← ready_connection context.connection
    decoded ← lift (indy_proof_request deps.codec context.message)
    request ← or_throw decoded missing_attachment
    require (deps.is_valid_request request) validation_failed
    try_catch (known_request connection context.message)
        (new_request fresh connection context.message)

  -- `check_proof` is `verifyProof`, at the JSON of the proof and of the request.
  unfoldable pub process_presentation :
      (check_proof : J → J → Exec W Bool)
      → InboundMessageContext PresentationMessage
      → Exec (Proving W) ProofRecord
  process_presentation check_proof context = do
    let message = context.message
    ready_connection context.connection
    r ← get_by_thread_id deps (thread_id message.base)
    assert_state r (request_sent ∷ [])
    proof_json ← lift (indy_proof deps.codec message)
    stored ← or_throw r.request_message type_error
    request_json ← lift (indy_proof_request deps.codec stored)
    proof ← or_throw proof_json missing_attachment
    request ← or_throw request_json missing_attachment
    is_valid ← on_store (check_proof proof request)
    update_state deps
        (record r { is_verified = some is_valid; presentation_message = some message })
        presentation_received

  unfoldable pub process_ack :
      InboundMessageContext PresentationAckMessage → Exec (Proving W) ProofRecord
  process_ack context = do
    ready_connection context.connection
    r ← get_by_thread_id deps (thread_id context.message.base)
    assert_state r (presentation_sent ∷ [])
    update_state deps r done
