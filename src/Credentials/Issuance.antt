-- ===== src/Credentials/Issuance.antt =====
-- modules/credentials/services/CredentialService.ts: the credential of an issuer, at its holder.
use aries_framework_javascri.Prelude.{String, Option, [], ◌∷◌}
use aries_framework_javascri.Exec.{Fresh}
use aries_framework_javascri.Message.{new_message, set_thread, set_please_ack, thread_id}
use aries_framework_javascri.Attachment.{json_attachment}
use aries_framework_javascri.Credentials.Messages.{IssueCredentialMessage, credential_attachment_id}
use aries_framework_javascri.Credentials.Record.{CredentialRecord}
use aries_framework_javascri.Credentials.Service.{CredentialDeps}

module _ {W J : Type 0} (deps : CredentialDeps W J) where
  abbrev CredentialOf : Fresh → CredentialRecord J → Option String → J → IssueCredentialMessage
  CredentialOf fresh r comment credential = record {
    base = set_please_ack (set_thread r.tags.thread_id (new_message fresh.message_id));
    comment = comment;
    attachments = json_attachment deps.codec credential_attachment_id credential ∷ [];
  }
