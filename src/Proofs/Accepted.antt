-- ===== src/Proofs/Accepted.antt =====
-- modules/proofs/ProofsModule.ts: the request with which `acceptProposal` answers.
use aries_framework_javascri.Prelude.{some, [], ◌∷◌, ◌≡◌}
use aries_framework_javascri.Exec.{Exec}
use aries_framework_javascri.Attachment.{json_attachment}
use aries_framework_javascri.Proofs.Messages.{
  RequestPresentationMessage, proof_request_attachment_id, ProofRequest,
}
use aries_framework_javascri.Proofs.Record.{ProofRecord}
use aries_framework_javascri.Proofs.Service.{ProofDeps, request_message}

module _ {W J : Type 0} (deps : ProofDeps W J) where
  -- The request that a record now carries, as an attachment in base64.
  abbrev pub Carries : ProofRequest → ProofRecord → Type 0
  Carries request r =
      (message : RequestPresentationMessage) × (r.request_message ≡ some message)
      × (message.attachments
          ≡ json_attachment deps.codec proof_request_attachment_id (deps.request_json request) ∷ [])
