-- ===== src/Tests/Credentials.antt =====
-- An issuer with one credential record on thread "t1".
use aries_framework_javascri.Prelude.{String, none, some, List, [], ◌∷◌, ◌≡◌, refl, inl}
use aries_framework_javascri.Exec.{ok, err, multiple_records, wallet_item_not_found, Fresh}
use aries_framework_javascri.Storage.{Repository}
use aries_framework_javascri.Storage.InMemory.{lookup}
use Prim.Native.String.{◌++◌ as append}
use aries_framework_javascri.Connections.Messages.{ok_status}
use aries_framework_javascri.Message.{new_message, set_thread}
use aries_framework_javascri.Connections.Record.{ConnectionRecord, complete}
use aries_framework_javascri.Credentials.Messages.{
  CredentialPreview, CredentialPreviewAttribute, ProposeCredentialMessage,
}
use aries_framework_javascri.Credentials.Record.{
  CredentialRecord, CredentialState, offer_sent, proposal_received, credential_issued, done,
}
use aries_framework_javascri.Credentials.Values.{
  ValueEncoder, convert_preview_to_values, encode, text,
}
use aries_framework_javascri.Credentials.Service.{
  CredentialDeps, Issuing, new_record, get_by_thread_id,
}
use aries_framework_javascri.Credentials.Receiving.{process_proposal}
use aries_framework_javascri.Credentials.Transitions.{IsTraced}
use aries_framework_javascri.Credentials.Calls.{
  Call, process_proposal_call, process_ack_call, perform_all, credential_calls-IsTraced,
}
use aries_framework_javascri.Credentials.Threads.{process_proposal_second}
use aries_framework_javascri.Credentials.Preview.{lookup-convert_preview}
use aries_framework_javascri.Tests.Tables.{table, table-IsRepository}
use aries_framework_javascri.Tests.Connections.{connection, fresh, context_of}

abbrev pub values : ValueEncoder
values = record { to_integer = λ t. none; show = λ z. "0"; digest = λ t. append "sha256:" t }

abbrev pub W : Type 0
W = List (CredentialRecord String)

abbrev pub unused_table : Repository ConnectionRecord W
unused_table = record {
  save = λ r s. (ok tt, s);
  update = λ r s. (ok tt, s);
  delete = λ r s. (ok tt, s);
  find = λ id s. (err wallet_item_not_found, s);
  find_all = λ s. (ok [], s);
  find_by_query = λ q s. (ok [], s);
}

abbrev pub deps : CredentialDeps W String
deps = record {
  repo = table (λ r. r.id) (λ r. r.tags);
  connections = unused_table;
  codec = record { to_base64 = λ j. j; from_base64 = λ t. ok t };
  values = values;
  create_credential_offer = λ id s. (ok "offer", s);
  create_credential_request = λ did offer definition s. (ok ("request", "metadata"), s);
  create_credential = λ offer request v s. (ok "credential", s);
  store_credential = λ id metadata credential definition s. (ok id, s);
  get_credential = λ id s. (ok "credential", s);
  get_credential_definition = λ id s. (ok "definition", s);
  cred_def_id = λ j. "definition_id";
}

abbrev pub stored : CredentialState → CredentialRecord String
stored state = new_record fresh "c1" state (some "t1")

abbrev proposal : ProposeCredentialMessage
proposal = record {
  base = set_thread (some "t1") (new_message "m2");
  content = record {
    comment = none;
    credential_proposal = none;
    schema_issuer_did = none;
    schema_id = none;
    schema_name = none;
    schema_version = none;
    credential_definition_id = none;
    issuer_did = none;
  };
}

abbrev issuer : CredentialState → Issuing W String
issuer state = record { store = stored state ∷ []; events = [] }

abbrev known : CredentialRecord String
known = record (stored offer_sent) { proposal_message = some proposal; state = proposal_received }

abbrev calls : List (Call String)
calls =
    process_proposal_call fresh (context_of proposal (some (connection "c1" complete)))
    ∷ process_ack_call (
        context_of (record { base = new_message "t1"; status = ok_status })
          (some (connection "c1" complete)))
    ∷ []

credential_calls-IsTraced_example : IsTraced (perform_all deps calls (issuer credential_issued))
credential_calls-IsTraced_example =
    credential_calls-IsTraced deps calls (issuer credential_issued) tt

abbrev other_fresh : Fresh
other_fresh = record { record_id = "r2"; message_id = "m9"; now = 8 }

process_proposal_second_example :
    let (out, s') =
      process_proposal deps other_fresh
        (context_of proposal (some (connection "c1" complete)))
        (issuer done) in
    (n : CredentialRecord String) × (out ≡ ok n)
    × (s'.store ≡ stored done ∷ n ∷ [])
    × (n.connection_id ≡ "c1")
    × ((get_by_thread_id deps (some "t1") s').0 ≡ err multiple_records)
process_proposal_second_example =
    process_proposal_second deps (λ s. s) (table-IsRepository (λ r. r.id) (λ r. r.tags)) other_fresh
      (context_of proposal (some (connection "c1" complete))) (issuer done) "t1"
      (connection "c1" complete) (stored done) refl refl refl refl refl (inl refl)

abbrev attribute : String → String → CredentialPreviewAttribute
attribute name value = record { name = name; mime_type = none; value = value }

abbrev preview : CredentialPreview
preview = record {
  attributes = attribute "name" "Alice" ∷ attribute "age" "" ∷ attribute "name" "Bob" ∷ [];
}

lookup-convert_preview_example :
    lookup "name" (convert_preview_to_values values preview)
    ≡ some (record { raw = "Alice"; encoded = encode values (text "Alice") })
lookup-convert_preview_example = lookup-convert_preview values preview "name"
