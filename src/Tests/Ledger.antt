-- ===== src/Tests/Ledger.antt =====
-- A ledger without an author agreement, which takes every request.
use aries_framework_javascri.Prelude.{
  String, none, some, Option, [], ◌∷◌, ◌≡◌, refl, truthy, map_option,
}
use aries_framework_javascri.Exec.{ok, ◌>>=◌}
use aries_framework_javascri.Wallet.{DidInfo}
use aries_framework_javascri.Ledger.{
  LedgerSdk, LedgerService, LedgerResponse, SchemaTemplate, AuthorAgreement,
  get_transaction_author_agreement, fetch_agreement, submit_read_request, submit, pool, remember,
  register_schema, write_schema, submit_write_request, append_taa, on_world,
}
use aries_framework_javascri.Ledger.Module.{module_register_schema}
use aries_framework_javascri.Ledger.Writing.{Accepted, module_register_schema-Accepted}

abbrev pub sdk : LedgerSdk Unit String
sdk = record {
  create_pool_ledger_config = λ name config s. (ok tt, s);
  set_protocol_version = λ n s. (ok tt, s);
  open_pool_ledger = λ name s. (ok 1, s);
  submit_request = λ n request s. (ok (record { op = "REPLY"; body = request }), s);
  build_get_nym_request = λ did s. (ok did, s);
  parse_get_nym_response = λ response s. (ok response.body, s);
  issuer_create_schema = λ did name version attributes s. (ok ("s1", "schema"), s);
  build_schema_request = λ did schema s. (ok schema, s);
  build_get_schema_request = λ id s. (ok id, s);
  parse_get_schema_response = λ response s. (ok ("s1", response.body), s);
  build_cred_def_request = λ did definition s. (ok definition, s);
  build_get_cred_def_request = λ id s. (ok id, s);
  parse_get_cred_def_response = λ response s. (ok ("d1", response.body), s);
  build_get_txn_author_agreement_request = λ s. (ok "taa", s);
  build_get_acceptance_mechanisms_request = λ s. (ok "aml", s);
  append_txn_author_agreement_acceptance_to_request =
      λ request text version digest mechanism time s. (ok request, s);
  create_credential_definition = λ did schema tag type revocation s. (ok ("d1", "definition"), s);
  sign_request = λ did request s. (ok "signed", s);
  agreement_data = λ j. none;
  mechanisms_data = λ j. none;
  with_seq_no = λ schema response. schema;
}

abbrev connected : Option (Option AuthorAgreement) → LedgerService Unit
connected agreement = record { world = tt; pool_handle = some 1; author_agreement = agreement }

first_run : get_transaction_author_agreement sdk (connected none) ≡ (ok none, connected (some none))
unfolding get_transaction_author_agreement fetch_agreement submit_read_request submit pool remember
    on_world ◌>>=◌
first_run = refl

abbrev issuer : Option DidInfo
issuer = some (record { did = "issuer"; verkey = "issuer_key" })

abbrev template : SchemaTemplate
template = record { name = "person"; version = "1.0"; attributes = "name" ∷ [] }

schema_run :
    module_register_schema sdk issuer 5000 template (connected none)
    ≡ (ok ("s1", "schema"), connected (some none))
unfolding module_register_schema register_schema write_schema submit_write_request append_taa
    get_transaction_author_agreement fetch_agreement submit_read_request submit pool remember
    on_world ◌>>=◌
schema_run = refl

module_register_schema-Accepted_example :
    (did : String) × (response : LedgerResponse String) × (truthy
        (map_option (λ (info : DidInfo). info.did) issuer)
      ≡ some did)
    × Accepted sdk did response
module_register_schema-Accepted_example =
    module_register_schema-Accepted sdk issuer 5000 template (connected none) schema_run
