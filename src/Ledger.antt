-- ===== src/Ledger.antt =====
-- modules/ledger/services/LedgerService.ts, method by method. The indy-sdk is a
-- parameter, with the two methods of the wallet that are called.
pub mod Agreement
pub mod Module
pub mod Writing
use aries_framework_javascri.Prelude.{
  ℕ, String, Bool, Option, none, some, List, first, map, zero, suc, not, ◌==◌, ◌/◌, if◌then◌else◌,
  map_option, truthy,
}
use aries_framework_javascri.Exec.{
  Exec, Error, pure, throw, modify, or_throw, require, ◌>>=◌, ◌>>◌, catch_error, type_error,
  pool_not_initialized, ledger_rejected, no_public_did, not_implemented,
}
use aries_framework_javascri.Storage.InMemory.{Dict}
use aries_framework_javascri.IndyError.{is_indy_error, pool_ledger_config_already_exists_error}
use aries_framework_javascri.Wallet.{DidInfo}

-- A reply of the ledger, of which the field `op` is read.
pub record LedgerResponse (J : Type 0) : Type 0 where
  pub op : String
  pub body : J

-- `AcceptanceMechanisms` with the field that is read, and what the service keeps of the agreement.
pub record AcceptanceMechanisms : Type 0 where
  pub aml : Dict String

pub record AuthorAgreement : Type 0 where
  pub digest : String
  pub version : String
  pub text : String
  pub acceptance_mechanisms : Option AcceptanceMechanisms

pub record SchemaTemplate : Type 0 where
  pub name : String
  pub version : String
  pub attributes : List String

pub record CredDefTemplate (J : Type 0) : Type 0 where
  pub schema : J
  pub tag : String
  pub signature_type : String
  pub support_revocation : Bool

-- The calls of the indy-sdk and of the wallet, and the fields that are read of a response's body:
-- `agreement_data` and `mechanisms_data` are `result.data` of the two requests, and
-- `with_seq_no schema response` is the schema with `result.txnMetadata.seqNo`.
pub record LedgerSdk (W J : Type 0) : Type 0 where
  pub create_pool_ledger_config : String → J → Exec W Unit
  pub set_protocol_version : ℕ → Exec W Unit
  pub open_pool_ledger : String → Exec W ℕ
  pub submit_request : ℕ → J → Exec W (LedgerResponse J)
  pub build_get_nym_request : String → Exec W J
  pub parse_get_nym_response : LedgerResponse J → Exec W J
  pub issuer_create_schema : String → String → String → List String → Exec W (String × J)
  pub build_schema_request : String → J → Exec W J
  pub build_get_schema_request : String → Exec W J
  pub parse_get_schema_response : LedgerResponse J → Exec W (String × J)
  pub build_cred_def_request : String → J → Exec W J
  pub build_get_cred_def_request : String → Exec W J
  pub parse_get_cred_def_response : LedgerResponse J → Exec W (String × J)
  pub build_get_txn_author_agreement_request : Exec W J
  pub build_get_acceptance_mechanisms_request : Exec W J
  pub append_txn_author_agreement_acceptance_to_request :
      J → String → String → String → Option String → ℕ → Exec W J
  pub create_credential_definition : String → J → String → String → Bool → Exec W (String × J)
  pub sign_request : String → J → Exec W J
  pub agreement_data : J → Option AuthorAgreement
  pub mechanisms_data : J → Option AcceptanceMechanisms
  pub with_seq_no : J → J → J

-- The object's fields, with the state `W` of what it talks to. `author_agreement` is `undefined`
-- before the first request, and then the agreement or `null`.
pub record LedgerService (W : Type 0) : Type 0 where
  pub world : W
  pub pool_handle : Option ℕ
  pub author_agreement : Option (Option AuthorAgreement)

-- A handle that is zero is no handle in a condition.
true_handle : Option ℕ → Option ℕ
true_handle none = none
true_handle (some zero) = none
true_handle (some (suc n)) = some (suc n)

module _ {W : Type 0} where
  unfoldable pub on_world : {A : Type 0} → Exec W A → Exec (LedgerService W) A
  on_world m s = let (r, w) = m s.world in (r, record s { world = w })

  -- The getter `poolHandle`.
  unfoldable pub pool : Exec (LedgerService W) ℕ
  unfolding true_handle
  pool s = or_throw (true_handle s.pool_handle) pool_not_initialized s

  -- The `catch` blocks: the error is logged with the pool's handle, which may throw itself, and is
  -- thrown on.
  unfoldable pub log_and_throw : {A : Type 0} → Error → Exec (LedgerService W) A
  log_and_throw e = do pool; throw e

  unfoldable pub remember : Option AuthorAgreement → Exec (LedgerService W) (Option AuthorAgreement)
  remember agreement s = (pure agreement) (record s { author_agreement = some agreement })

module _ {W J : Type 0} (sdk : LedgerSdk W J) where
  unfoldable pub connect : String → J → Exec (LedgerService W) Unit
  connect pool_name config = do
    catch_error (on_world (sdk.create_pool_ledger_config pool_name config))
        (λ e. if is_indy_error e pool_ledger_config_already_exists_error then pure tt else throw e)
    on_world (sdk.set_protocol_version 2)
    opened ← on_world (sdk.open_pool_ledger pool_name)
    modify (λ s. record s { pool_handle = some opened })

  unfoldable pub submit : J → Exec (LedgerService W) (LedgerResponse J)
  submit request = do n ← pool; on_world (sdk.submit_request n request)

  unfoldable pub submit_read_request : J → Exec (LedgerService W) (LedgerResponse J)
  submit_read_request request = do
    response ← submit request
    require (not (response.op == "REJECT")) ledger_rejected
    pure response

  -- What the ledger answers is kept, the mechanisms with the agreement; `null` is kept too.
  unfoldable pub fetch_agreement : Exec (LedgerService W) (Option AuthorAgreement)
  fetch_agreement = do
    request ← on_world sdk.build_get_txn_author_agreement_request
    response ← submit_read_request request
    mechanisms_request ← on_world sdk.build_get_acceptance_mechanisms_request
    mechanisms ← submit_read_request mechanisms_request
    remember (
        map_option
          (λ (a : AuthorAgreement). record a {
            acceptance_mechanisms = sdk.mechanisms_data mechanisms.body;
          })
          (sdk.agreement_data response.body))

  known_or_fetched :
      Option (Option AuthorAgreement) → Exec (LedgerService W) (Option AuthorAgreement)
  known_or_fetched (some agreement) = pure agreement
  known_or_fetched none = fetch_agreement

  unfoldable pub get_transaction_author_agreement : Exec (LedgerService W) (Option AuthorAgreement)
  unfolding known_or_fetched
  get_transaction_author_agreement s = known_or_fetched s.author_agreement s

  accept_agreement : ℕ → J → Option AuthorAgreement → Exec (LedgerService W) J
  accept_agreement now request none = pure request
  accept_agreement now request (some agreement) = do
    mechanisms ← or_throw agreement.acceptance_mechanisms type_error
    on_world (
        sdk.append_txn_author_agreement_acceptance_to_request request agreement.text
          agreement.version agreement.digest (first (map (λ m. m.0) mechanisms.aml)) (now / 1000))

  -- `now` is Date.getTime, in milliseconds.
  unfoldable pub append_taa : ℕ → J → Exec (LedgerService W) J
  unfolding accept_agreement
  append_taa now request = do
    agreement ← get_transaction_author_agreement
    accept_agreement now request agreement

  unfoldable pub submit_write_request : ℕ → J → String → Exec (LedgerService W) (LedgerResponse J)
  submit_write_request now request sign_did = do
    with_taa ← append_taa now request
    signed ← on_world (sdk.sign_request sign_did with_taa)
    response ← submit signed
    require (not (response.op == "REJECT")) ledger_rejected
    pure response

  unfoldable pub get_public_did : String → Exec (LedgerService W) J
  get_public_did did = do
    request ← on_world (sdk.build_get_nym_request did)
    response ← submit request
    on_world (sdk.parse_get_nym_response response)

  -- The `try` block of `registerSchema`.
  unfoldable pub write_schema : ℕ → String → SchemaTemplate → Exec (LedgerService W) (String × J)
  write_schema now did template = do
    (id, schema) ←
        on_world (sdk.issuer_create_schema did template.name template.version template.attributes)
    request ← on_world (sdk.build_schema_request did schema)
    response ← submit_write_request now request did
    pure (id, sdk.with_seq_no schema response.body)

  unfoldable pub register_schema : ℕ → String → SchemaTemplate → Exec (LedgerService W) (String × J)
  register_schema now did template = catch_error (write_schema now did template) log_and_throw

  unfoldable pub get_schema : String → Exec (LedgerService W) J
  get_schema id =
      catch_error
        (do
          request ← on_world (sdk.build_get_schema_request id)
          response ← submit_read_request request
          (_, schema) ← on_world (sdk.parse_get_schema_response response)
          pure schema)
        log_and_throw

  unfoldable pub register_credential_definition :
      ℕ → String → CredDefTemplate J → Exec (LedgerService W) (String × J)
  register_credential_definition now did template =
      catch_error
        (do
          (id, definition) ← on_world (
              sdk.create_credential_definition did template.schema template.tag
                template.signature_type template.support_revocation)
          request ← on_world (sdk.build_cred_def_request did definition)
          submit_write_request now request did
          pure (id, definition))
        log_and_throw

  unfoldable pub get_credential_definition : String → Exec (LedgerService W) J
  get_credential_definition id =
      catch_error
        (do
          request ← on_world (sdk.build_get_cred_def_request id)
          response ← submit_read_request request
          (_, definition) ← on_world (sdk.parse_get_cred_def_response response)
          pure definition)
        log_and_throw
