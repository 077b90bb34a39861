-- ===== src/Tests/Presenting.antt =====
-- A prover and a verifier on thread "t1"; the proof reveals one attribute.
use aries_framework_javascri.Prelude.{String, Bool, true, none, some, List, [], ◌∷◌, All, ◌≡◌, refl}
use aries_framework_javascri.Exec.{Exec, ok, ◌>>=◌}
use aries_framework_javascri.Message.{new_message, set_thread}
use aries_framework_javascri.Attachment.{json_attachment, indy_attachment}
use aries_framework_javascri.Connections.Record.{complete}
use aries_framework_javascri.Credentials.Service.{ready_connection, single}
use aries_framework_javascri.Credentials.Values.{check_valid_encoding, encode}
use aries_framework_javascri.Proofs.Messages.{
  RequestPresentationMessage, PresentationMessage, proof_request_attachment_id, proof_attachment_id,
  indy_proof,
}
use aries_framework_javascri.Proofs.Record.{
  ProofRecord, request_sent, request_received, presentation_sent, presentation_received,
}
use aries_framework_javascri.Proofs.Service.{ProofDeps, Proving, update_state, get_by_thread_id}
use aries_framework_javascri.Proofs.Receiving.{process_presentation}
use aries_framework_javascri.Proofs.Verify.{IsWellEncoded, verify_proof, check_encodings, fetch_all}
use aries_framework_javascri.Proofs.Presenting.{process_presentation-IsWellEncoded}
use aries_framework_javascri.Storage.InMemory.{Dict}
use aries_framework_javascri.Tests.Connections.{connection, context_of}
use aries_framework_javascri.Tests.Proofs.{deps, stored, revealed, tools_of}
use aries_framework_javascri.Tests.Exchange.{codec}

abbrev agent : ProofDeps (List ProofRecord) String
agent = record deps { codec = codec }

abbrev request : RequestPresentationMessage
request = record {
  base = new_message "t1";
  comment = none;
  attachments = json_attachment codec proof_request_attachment_id "request" ∷ [];
}

abbrev at_rest : ProofRecord → Proving (List ProofRecord)
at_rest r = record { store = r ∷ []; events = [] }

abbrev asked : ProofRecord
asked = record (stored request_received) { request_message = some request }

abbrev waiting : ProofRecord
waiting = record (stored request_sent) { request_message = some request }

abbrev presentation : PresentationMessage
presentation = record {
  base = set_thread (some "t1") (new_message "m1");
  comment = none;
  attachments = json_attachment codec proof_attachment_id "sha256:Alice" ∷ [];
}

abbrev make_proof : String → Exec (List ProofRecord) String
make_proof j s = (ok "sha256:Alice", s)

abbrev presented : ProofRecord
presented = record asked { presentation_message = some presentation; state = presentation_sent }

abbrev presented_once : Proving (List ProofRecord)
presented_once = record {
  store = presented ∷ [];
  events = record { changed = presented; previous_state = some request_received } ∷ [];
}

abbrev received : ProofRecord
received = record waiting {
  is_verified = some true;
  presentation_message = some presentation;
  state = presentation_received;
}

abbrev schemas : Dict String
schemas = ("s1", "s1") ∷ []

abbrev definitions : Dict String
definitions = ("d1", "d1") ∷ []

abbrev received_once : Proving (List ProofRecord)
received_once = record {
  store = received ∷ [];
  events = record { changed = received; previous_state = some request_sent } ∷ [];
}

received_run :
    process_presentation agent
      (verify_proof tools_of)
      (context_of presentation (some (connection "c1" complete)))
      (at_rest waiting)
    ≡ (ok received, received_once)
unfolding process_presentation ready_connection get_by_thread_id single indy_attachment update_state
    verify_proof check_encodings check_valid_encoding encode fetch_all ◌>>=◌
received_run = refl

process_presentation-IsWellEncoded_example :
    (proof : String) × (indy_proof codec presentation ≡ ok (some proof))
    × (verdict : Bool) × All
        (IsWellEncoded (tools_of {W = List ProofRecord}))
        (revealed proof).revealed_attributes
    × (received.is_verified ≡ some verdict)
    × (received.state ≡ presentation_received)
    × (received.presentation_message ≡ some presentation)
process_presentation-IsWellEncoded_example =
    process_presentation-IsWellEncoded agent tools_of
      (context_of presentation (some (connection "c1" complete))) (at_rest waiting) received_run
