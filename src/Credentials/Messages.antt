-- ===== src/Credentials/Messages.antt =====
-- modules/credentials/messages.
use aries_framework_javascri.Prelude.{String, Option, List}
use aries_framework_javascri.Exec.{Result}
use aries_framework_javascri.Message.{AgentMessage}
use aries_framework_javascri.Attachment.{Attachment, Base64, indy_attachment}
use aries_framework_javascri.Connections.Messages.{AckStatus}

pub record CredentialPreviewAttribute : Type 0 where
  pub name : String
  pub mime_type : Option String
  pub value : String

pub record CredentialPreview : Type 0 where
  pub attributes : List CredentialPreviewAttribute

-- The options of a proposal, without its id.
pub record ProposalConfig : Type 0 where
  pub comment : Option String
  pub credential_proposal : Option CredentialPreview
  pub schema_issuer_did : Option String
  pub schema_id : Option String
  pub schema_name : Option String
  pub schema_version : Option String
  pub credential_definition_id : Option String
  pub issuer_did : Option String

pub record ProposeCredentialMessage : Type 0 where
  pub base : AgentMessage
  pub content : ProposalConfig

pub record OfferCredentialMessage : Type 0 where
  pub base : AgentMessage
  pub comment : Option String
  pub credential_preview : CredentialPreview
  pub attachments : List Attachment

pub record RequestCredentialMessage : Type 0 where
  pub base : AgentMessage
  pub comment : Option String
  pub attachments : List Attachment

pub record IssueCredentialMessage : Type 0 where
  pub base : AgentMessage
  pub comment : Option String
  pub attachments : List Attachment

pub record CredentialAckMessage : Type 0 where
  pub base : AgentMessage
  pub status : AckStatus

abbrev pub offer_attachment_id : String
offer_attachment_id = "libindy-cred-offer-0"

abbrev pub request_attachment_id : String
request_attachment_id = "libindy-cred-request-0"

abbrev pub credential_attachment_id : String
credential_attachment_id = "libindy-cred-0"

module _ {J : Type 0} (codec : Base64 J) where
  abbrev pub indy_credential_offer : OfferCredentialMessage → Result (Option J)
  indy_credential_offer m = indy_attachment codec offer_attachment_id m.attachments

  abbrev pub indy_credential_request : RequestCredentialMessage → Result (Option J)
  indy_credential_request m = indy_attachment codec request_attachment_id m.attachments

  abbrev pub indy_credential : IssueCredentialMessage → Result (Option J)
  indy_credential m = indy_attachment codec credential_attachment_id m.attachments
