-- ===== src/Tests/Exchange.antt =====
-- A holder and an issuer on thread "t1".
use Prim.Native.String.{String}
use aries_framework_javascri.Prelude.{none, some, [], ◌∷◌, ◌≡◌, refl}
use aries_framework_javascri.Exec.{Result, ok, err, type_error, ◌>>=◌}
use aries_framework_javascri.Message.{new_message, set_thread, set_please_ack}
use aries_framework_javascri.Attachment.{Base64, json_attachment, indy_attachment}
use aries_framework_javascri.Attachment.RoundTrip.{Reads}
use aries_framework_javascri.Connections.Record.{complete}
use aries_framework_javascri.Credentials.Messages.{
  OfferCredentialMessage, RequestCredentialMessage, IssueCredentialMessage, offer_attachment_id,
  request_attachment_id, credential_attachment_id,
}
use aries_framework_javascri.Credentials.Record.{
  CredentialRecord, offer_sent, offer_received, request_sent, request_received, credential_issued,
}
use aries_framework_javascri.Credentials.Service.{
  CredentialDeps, Issuing, create_request, update_state,
}
use aries_framework_javascri.Credentials.Receiving.{process_request}
use aries_framework_javascri.Credentials.Exchange.{process_request-create_request}
use aries_framework_javascri.Tests.Tables.{table-IsRepository}
use aries_framework_javascri.Tests.Connections.{connection, fresh, context_of}
use aries_framework_javascri.Tests.Credentials.{W, deps, stored, unused_table}

-- A JSON text stands behind one more character, so that it is not empty.
abbrev unwrap : String → Result String
unwrap String.[] = err type_error
unwrap (String.◌∷◌ c s) = ok s

abbrev pub codec : Base64 String
codec = record { to_base64 = λ j. String.◌∷◌ "j" j; from_base64 = unwrap }

abbrev agent : CredentialDeps W String
agent = record deps {
  codec = codec;
  connections = record unused_table { find = λ id s. (ok (connection id complete), s) };
}

pub codec-Reads : Reads codec codec
codec-Reads = record { read_lem = λ j. refl; text_lem = λ j. refl }

abbrev offer : OfferCredentialMessage
offer = record {
  base = new_message "t1";
  comment = none;
  credential_preview = record { attributes = [] };
  attachments = json_attachment codec offer_attachment_id "offer" ∷ [];
}

abbrev holding : CredentialRecord String
holding = record (stored offer_received) { offer_message = some offer }

abbrev request : RequestCredentialMessage
request = record {
  base = set_thread (some "t1") (new_message "m1");
  comment = none;
  attachments = json_attachment codec request_attachment_id "request" ∷ [];
}

abbrev asking : CredentialRecord String
asking = record holding {
  request_metadata = some "metadata";
  request_message = some request;
  state = request_sent;
}

abbrev at_rest : CredentialRecord String → Issuing W String
at_rest r = record { store = r ∷ []; events = [] }

abbrev asked_once : Issuing W String
asked_once = record {
  store = asking ∷ [];
  events = record { changed = asking; previous_state = some offer_received } ∷ [];
}

request_run :
    create_request agent fresh holding none (at_rest holding) ≡ (ok (request, asking), asked_once)
unfolding create_request update_state indy_attachment ◌>>=◌
request_run = refl

abbrev offered : CredentialRecord String
offered = record (stored offer_sent) { offer_message = some offer }

abbrev asked : CredentialRecord String
asked = record offered { request_message = some request; state = request_received }

process_request-create_request_example :
    let (out, s') =
      process_request agent
        (context_of request (some (connection "c1" complete)))
        (at_rest offered) in
    (out ≡ ok asked)
    × (s'.store ≡ asked ∷ [])
    × (asking.state ≡ request_sent)
    × (asking.request_message ≡ some request)
process_request-create_request_example =
    process_request-create_request agent agent codec-Reads (λ s. s)
      (table-IsRepository (λ r. r.id) (λ r. r.tags)) fresh holding none (at_rest holding)
      (context_of request (some (connection "c1" complete))) (at_rest offered) "t1"
      (connection "c1" complete) offered request_run refl refl refl refl refl refl refl

abbrev credential : IssueCredentialMessage
credential = record {
  base = set_please_ack (set_thread (some "t1") (new_message "m1"));
  comment = none;
  attachments = json_attachment codec credential_attachment_id "credential" ∷ [];
}

abbrev issued : CredentialRecord String
issued = record asked { credential_message = some credential; state = credential_issued }

abbrev issued_once : Issuing W String
issued_once = record {
  store = issued ∷ [];
  events = record { changed = issued; previous_state = some request_received } ∷ [];
}
