-- ===== src/Credentials/Service.antt =====
-- modules/credentials/services/CredentialService.ts, method by method.
mod Base
use aries_framework_javascri.Prelude.{String, Option, none, some, List, [], ◌∷◌}
use aries_framework_javascri.Exec.{
  Exec, Result, ok, pure, throw, lift, or_throw, ◌>>=◌, ◌>>◌, unawaited, Emitting, on_store, emit,
  StateChanged, Fresh, type_error, no_connection, missing_attachment, record_not_found,
  multiple_records,
}
use aries_framework_javascri.Storage.{no_tags, Repository, by_thread_id}
use aries_framework_javascri.Message.{new_message, set_thread, set_please_ack, thread_id}
use aries_framework_javascri.Attachment.{Base64, json_attachment}
use aries_framework_javascri.Connections.Messages.{ok_status}
use aries_framework_javascri.Connections.Record.{ConnectionRecord, assert_ready}
use aries_framework_javascri.Storage.InMemory.{Dict}
use aries_framework_javascri.Credentials.Values.{CredValue, convert_preview_to_values, ValueEncoder}
use aries_framework_javascri.Credentials.Messages.{
  CredentialPreview, ProposalConfig, ProposeCredentialMessage, OfferCredentialMessage,
  RequestCredentialMessage, IssueCredentialMessage, CredentialAckMessage, offer_attachment_id,
  request_attachment_id, credential_attachment_id, indy_credential_offer, indy_credential_request,
}
use aries_framework_javascri.Credentials.Record.{
  CredentialRecord, CredentialState, proposal_sent, proposal_received, offer_sent, offer_received,
  request_sent, request_received, credential_issued, credential_received, done, assert_state,
}
unfoldable pub use Base.*

module _ {W J : Type 0} (deps : CredentialDeps W J) where
  unfoldable pub create_proposal :
      Fresh
      → ConnectionRecord
      → ProposalConfig
      → Exec (Issuing W J) (ProposeCredentialMessage × CredentialRecord J)
  create_proposal fresh connection config = do
    assert_ready connection
    let message : ProposeCredentialMessage = record {
      base = new_message fresh.message_id;
      content = config;
    }
    let fields = new_record fresh connection.id proposal_sent (thread_id message.base)
    r ← save_new deps (record fields { proposal_message = some message })
    pure (message, r)

  -- `updateState` is not awaited here.
  unfoldable pub create_proposal_as_response :
      Fresh
      → CredentialRecord J
      → ProposalConfig
      → Exec (Issuing W J) (ProposeCredentialMessage × CredentialRecord J)
  create_proposal_as_response fresh r config = do
    assert_state r (offer_received ∷ [])
    let message : ProposeCredentialMessage = record {
      base = set_thread r.tags.thread_id (new_message fresh.message_id);
      content = config;
    }
    let known = record r { proposal_message = some message }
    unawaited (update_state deps known proposal_sent)
    pure (message, record known { state = proposal_sent })

  -- The message of both ways to make an offer.
  offer_message : Fresh → CredentialOfferTemplate → Exec (Issuing W J) OfferCredentialMessage
  offer_message fresh template = do
    offer ← on_store (deps.create_credential_offer template.credential_definition_id)
    pure (record {
      base = new_message fresh.message_id;
      comment = template.comment;
      credential_preview = template.preview;
      attachments = json_attachment deps.codec offer_attachment_id offer ∷ [];
    })

  unfoldable pub create_offer_as_response :
      Fresh
      → CredentialRecord J
      → CredentialOfferTemplate
      → Exec (Issuing W J) (OfferCredentialMessage × CredentialRecord J)
  unfolding offer_message
  create_offer_as_response fresh r template = do
    assert_state r (proposal_received ∷ [])
    offer ← offer_message fresh template
    let message = record offer { base = set_thread r.tags.thread_id offer.base }
    changed ← update_state deps (record r { offer_message = some message }) offer_sent
    pure (message, changed)

  unfoldable pub create_offer :
      Fresh
      → ConnectionRecord
      → CredentialOfferTemplate
      → Exec (Issuing W J) (OfferCredentialMessage × CredentialRecord J)
  unfolding offer_message
  create_offer fresh connection template = do
    assert_ready connection
    message ← offer_message fresh template
    let fields = new_record fresh connection.id offer_sent message.base.id
    r ← save_new deps (record fields { offer_message = some message })
    pure (message, r)

  unfoldable pub create_request :
      Fresh
      → CredentialRecord J
      → Option String
      → Exec (Issuing W J) (RequestCredentialMessage × CredentialRecord J)
  create_request fresh r comment = do
    assert_state r (offer_received ∷ [])
    connection ← on_store (deps.connections.find r.connection_id)
    stored ← or_throw r.offer_message missing_attachment
    decoded ← lift (indy_credential_offer deps.codec stored)
    offer ← or_throw decoded missing_attachment
    definition ← on_store (deps.get_credential_definition (deps.cred_def_id offer))
    (request, metadata) ← on_store (deps.create_credential_request connection.did offer definition)
    let message : RequestCredentialMessage = record {
      base = set_thread r.tags.thread_id (new_message fresh.message_id);
      comment = comment;
      attachments = json_attachment deps.codec request_attachment_id request ∷ [];
    }
    changed ←
        update_state deps
          (record r { request_metadata = some metadata; request_message = some message })
          request_sent
    pure (message, changed)

  unfoldable pub create_credential :
      Fresh
      → CredentialRecord J
      → Option String
      → Exec (Issuing W J) (IssueCredentialMessage × CredentialRecord J)
  create_credential fresh r comment = do
    assert_state r (request_received ∷ [])
    offer_json ← lift (optional (indy_credential_offer deps.codec) r.offer_message)
    request_json ← lift (optional (indy_credential_request deps.codec) r.request_message)
    offer_message ← or_throw r.offer_message type_error
    let values = convert_preview_to_values deps.values offer_message.credential_preview
    offer ← or_throw offer_json missing_attachment
    request ← or_throw request_json missing_attachment
    credential ← on_store (deps.create_credential offer request values)
    let message : IssueCredentialMessage = record {
      base = set_please_ack (set_thread r.tags.thread_id (new_message fresh.message_id));
      comment = comment;
      attachments = json_attachment deps.codec credential_attachment_id credential ∷ [];
    }
    changed ← update_state deps (record r { credential_message = some message }) credential_issued
    pure (message, changed)

  unfoldable pub create_ack :
      Fresh → CredentialRecord J → Exec (Issuing W J) (CredentialAckMessage × CredentialRecord J)
  create_ack fresh r = do
    assert_state r (credential_received ∷ [])
    let message : CredentialAckMessage = record {
      base = set_thread r.tags.thread_id (new_message fresh.message_id);
      status = ok_status;
    }
    changed ← update_state deps r done
    pure (message, changed)
