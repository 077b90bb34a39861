-- ===== src/Exec/Errors.antt =====
-- What the source throws, one constructor for each `throw`. The texts of the messages are left out.
use aries_framework_javascri.Prelude.{ℕ}

pub data Error : Type 0 where
  -- rejections of the indy-sdk, by name (utils/indyError.ts) or by code
  wallet_item_not_found wallet_item_already_exists : Error
  indy : ℕ → Error
  -- a property is read of `undefined`
  type_error : Error
  -- assertState, assertRole, assertReady, assertConnection
  invalid_state invalid_role not_ready wrong_connection : Error
  connection_not_found no_recipient_keys invalid_message : Error
  signer_mismatch invalid_signature validation_failed : Error
  multiple_connections : Error
  no_connection missing_attachment missing_request_metadata : Error
  record_not_found multiple_records : Error
  invalid_encoding no_matching_credentials : Error
  no_did_doc no_handler sender_key_mismatch not_an_object : Error
  route_not_found route_exists route_of_other : Error
  no_message_repository no_their_key missing_to : Error
  missing_proposal missing_definition_id : Error
  wallet_not_initialized master_secret_not_initialized : Error
  pool_not_initialized ledger_rejected no_public_did not_implemented : Error
  did_and_keys invalid_key_reference unknown_indy_error invalid_attribute_filter : Error
