-- ===== src/Proofs/Service.antt =====
-- modules/proofs/services/ProofService.ts: the records, and the methods that create messages.
use aries_framework_javascri.Prelude.{String, Bool, Option, none, some, List, [], ◌∷◌}
use aries_framework_javascri.Exec.{
  Exec, pure, lift, or_throw, ◌>>=◌, ◌>>◌, unawaited, Emitting, on_store, emit, StateChanged, Fresh,
  type_error, missing_attachment,
}
use aries_framework_javascri.Storage.{no_tags, Repository, by_thread_id}
use aries_framework_javascri.Message.{new_message, set_thread, thread_id}
use aries_framework_javascri.Attachment.{Base64, json_attachment}
use aries_framework_javascri.Connections.Messages.{ok_status}
use aries_framework_javascri.Connections.Record.{ConnectionRecord, assert_ready}
use aries_framework_javascri.Credentials.Service.{single}
use aries_framework_javascri.Proofs.Messages.{
  PresentationPreview, ProofRequest, ProposePresentationMessage, RequestPresentationMessage,
  PresentationMessage, PresentationAckMessage, proof_request_attachment_id, proof_attachment_id,
  indy_proof_request,
}
use aries_framework_javascri.Proofs.Record.{
  ProofRecord, ProofState, proposal_sent, proposal_received, request_sent, request_received,
  presentation_sent, presentation_received, done, assert_state,
}

abbrev pub ProofEvent : Type 0
ProofEvent = StateChanged ProofRecord ProofState

-- The service over a wallet with state `W`.
abbrev pub Proving : Type 0 → Type 0
Proving W = Emitting W ProofEvent

-- The service's dependencies. `request_json` is the JSON of a proof request, `is_valid_request`
-- class-validator's verdict on a received one. `create_proof` and `verify_proof` are the service's
-- own methods (Verify.antt), at the credentials that were chosen.
pub record ProofDeps (W J : Type 0) : Type 0 where
  pub repo : Repository ProofRecord W
  pub codec : Base64 J
  pub request_json : ProofRequest → J
  pub is_valid_request : J → Bool

abbrev pub new_record : Fresh → String → ProofState → Option String → ProofRecord
new_record fresh connection_id state thread = record {
  id = fresh.record_id;
  created_at = fresh.now;
  connection_id = connection_id;
  is_verified = none;
  presentation_id = none;
  tags = record no_tags { thread_id = thread };
  state = state;
  proposal_message = none;
  request_message = none;
  presentation_message = none;
}

module _ {W J : Type 0} (deps : ProofDeps W J) where
  unfoldable pub update_state : ProofRecord → ProofState → Exec (Proving W) ProofRecord
  update_state r new_state = do
    let changed = record r { state = new_state }
    on_store (deps.repo.update changed)
    emit (record { changed = changed; previous_state = some r.state })
    pure changed

  -- A new record is saved and announced with no state before.
  unfoldable pub save_new : ProofRecord → Exec (Proving W) ProofRecord
  save_new r = do
    on_store (deps.repo.save r)
    emit (record { changed = r; previous_state = none })
    pure r

  unfoldable pub get_by_thread_id : Option String → Exec (Proving W) ProofRecord
  get_by_thread_id thread = do
    found ← on_store (deps.repo.find_by_query (by_thread_id thread))
    single found

  unfoldable pub get_by_id : String → Exec (Proving W) ProofRecord
  get_by_id id = on_store (deps.repo.find id)

  unfoldable pub get_all : Exec (Proving W) (List ProofRecord)
  get_all = on_store deps.repo.find_all

  unfoldable pub create_proposal :
      Fresh
      → ConnectionRecord
      → PresentationPreview
      → Option String
      → Exec (Proving W) (ProposePresentationMessage × ProofRecord)
  create_proposal fresh connection proposal comment = do
    assert_ready connection
    let message : ProposePresentationMessage = record {
      base = new_message fresh.message_id;
      comment = comment;
      presentation_proposal = proposal;
    }
    let fields = new_record fresh connection.id proposal_sent (thread_id message.base)
    r ← save_new (record fields { proposal_message = some message })
    pure (message, r)

  -- `updateState` is not awaited here.
  unfoldable pub create_proposal_as_response :
      Fresh
      → ProofRecord
      → PresentationPreview
      → Option String
      → Exec (Proving W) (ProposePresentationMessage × ProofRecord)
  create_proposal_as_response fresh r proposal comment = do
    assert_state r (request_received ∷ [])
    let message : ProposePresentationMessage = record {
      base = set_thread r.tags.thread_id (new_message fresh.message_id);
      comment = comment;
      presentation_proposal = proposal;
    }
    let known = record r { proposal_message = some message }
    unawaited (update_state known proposal_sent)
    pure (message, record known { state = proposal_sent })

  unfoldable pub request_message : Fresh → ProofRequest → Option String → RequestPresentationMessage
  request_message fresh request comment = record {
    base = new_message fresh.message_id;
    comment = comment;
    attachments =
        json_attachment deps.codec proof_request_attachment_id (deps.request_json request) ∷ [];
  }

  unfoldable pub create_request_as_response :
      Fresh
      → ProofRecord
      → ProofRequest
      → Option String
      → Exec (Proving W) (RequestPresentationMessage × ProofRecord)
  unfolding request_message
  create_request_as_response fresh r request comment = do
    assert_state r (proposal_received ∷ [])
    let plain = request_message fresh request comment
    let message = record plain { base = set_thread r.tags.thread_id plain.base }
    changed ← update_state (record r { request_message = some message }) request_sent
    pure (message, changed)

  unfoldable pub create_request :
      Fresh
      → ConnectionRecord
      → ProofRequest
      → Option String
      → Exec (Proving W) (RequestPresentationMessage × ProofRecord)
  unfolding request_message
  create_request fresh connection request comment = do
    assert_ready connection
    let message = request_message fresh request comment
    let fields = new_record fresh connection.id request_sent (thread_id message.base)
    r ← save_new (record fields { request_message = some message })
    pure (message, r)

  -- `make_proof` is `createProof` at the requested credentials.
  unfoldable pub create_presentation :
      Fresh
      → (make_proof : J → Exec W J) → ProofRecord
      → Option String
      → Exec (Proving W) (PresentationMessage × ProofRecord)
  create_presentation fresh make_proof r comment = do
    assert_state r (request_received ∷ [])
    stored ← or_throw r.request_message type_error
    decoded ← lift (indy_proof_request deps.codec stored)
    request ← or_throw decoded missing_attachment
    proof ← on_store (make_proof request)
    let message : PresentationMessage = record {
      base = set_thread r.tags.thread_id (new_message fresh.message_id);
      comment = comment;
      attachments = json_attachment deps.codec proof_attachment_id proof ∷ [];
    }
    changed ← update_state (record r { presentation_message = some message }) presentation_sent
    pure (message, changed)

  unfoldable pub create_ack :
      Fresh → ProofRecord → Exec (Proving W) (PresentationAckMessage × ProofRecord)
  create_ack fresh r = do
    assert_state r (presentation_received ∷ [])
    let message : PresentationAckMessage = record {
      base = set_thread r.tags.thread_id (new_message fresh.message_id);
      status = ok_status;
    }
    changed ← update_state r done
    pure (message, changed)
