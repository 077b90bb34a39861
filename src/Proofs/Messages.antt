-- ===== src/Proofs/Messages.antt =====
-- modules/proofs/messages and models: what the protocol's messages and their attachments hold.
use aries_framework_javascri.Prelude.{String, Option, List}
use aries_framework_javascri.Exec.{Result}
use aries_framework_javascri.Storage.InMemory.{Dict}
use aries_framework_javascri.Message.{AgentMessage}
use aries_framework_javascri.Attachment.{Attachment, Base64, indy_attachment}
use aries_framework_javascri.Connections.Messages.{AckStatus}
use aries_framework_javascri.Credentials.Values.{ℤ}

-- messages/PresentationPreview.ts
pub record PresentationPreviewAttribute : Type 0 where
  pub name : String
  pub credential_definition_id : Option String
  pub mime_type : Option String
  pub value : Option String
  pub referent : Option String

pub data PredicateType : Type 0 where
  less_than less_than_or_equal greater_than greater_than_or_equal : PredicateType

pub record PresentationPreviewPredicate : Type 0 where
  pub name : String
  pub credential_definition_id : String
  pub predicate : PredicateType
  pub threshold : ℤ

pub record PresentationPreview : Type 0 where
  pub attributes : List PresentationPreviewAttribute
  pub predicates : List PresentationPreviewPredicate

-- models/AttributeFilter.ts, the part that the service sets.
pub record AttributeFilter : Type 0 where
  pub credential_definition_id : Option String

pub record ProofAttributeInfo : Type 0 where
  pub name : Option String
  pub names : Option (List String)
  pub restrictions : Option (List AttributeFilter)

pub record ProofPredicateInfo : Type 0 where
  pub name : String
  pub predicate_type : PredicateType
  pub predicate_value : ℤ
  pub restrictions : Option (List AttributeFilter)

pub record ProofRequest : Type 0 where
  pub name : String
  pub version : String
  pub nonce : String
  pub requested_attributes : Dict ProofAttributeInfo
  pub requested_predicates : Dict ProofPredicateInfo

pub record ProposePresentationMessage : Type 0 where
  pub base : AgentMessage
  pub comment : Option String
  pub presentation_proposal : PresentationPreview

pub record RequestPresentationMessage : Type 0 where
  pub base : AgentMessage
  pub comment : Option String
  pub attachments : List Attachment

pub record PresentationMessage : Type 0 where
  pub base : AgentMessage
  pub comment : Option String
  pub attachments : List Attachment

pub record PresentationAckMessage : Type 0 where
  pub base : AgentMessage
  pub status : AckStatus

abbrev pub proof_request_attachment_id : String
proof_request_attachment_id = "libindy-request-presentation-0"

abbrev pub proof_attachment_id : String
proof_attachment_id = "libindy-presentation-0"

module _ {J : Type 0} (codec : Base64 J) where
  -- The class ProofRequest of what this returns is made by class-transformer.
  abbrev pub indy_proof_request : RequestPresentationMessage → Result (Option J)
  indy_proof_request m = indy_attachment codec proof_request_attachment_id m.attachments

  abbrev pub indy_proof : PresentationMessage → Result (Option J)
  indy_proof m = indy_attachment codec proof_attachment_id m.attachments
