-- ===== src/Wallet.antt =====
-- wallet/IndyWallet.ts, method by method. The indy-sdk is a parameter, and so are JSON and Buffer.
pub mod Records
pub mod Search
pub mod Opening
use aries_framework_javascri.Prelude.{
  ℕ, String, Option, none, some, List, [], ◌∷◌, zero, suc, if◌then◌else◌, Bool, truthy,
}
use aries_framework_javascri.Exec.{
  Exec, pure, throw, lift, gets, modify, or_throw, ◌>>=◌, ◌>>◌, catch_error, Result,
  wallet_not_initialized, master_secret_not_initialized,
}
use aries_framework_javascri.IndyError.{
  is_indy_error, wallet_already_exists_error, master_secret_duplicate_name_error,
}

-- wallet/Wallet.ts
pub record DidInfo : Type 0 where
  pub did : String
  pub verkey : String

-- The object's fields, with the state `W` of the indy-sdk that it talks to.
pub record IndyWallet (W : Type 0) : Type 0 where
  pub world : W
  pub wallet_handle : Option ℕ
  pub master_secret_id : Option String
  pub public_did_info : Option DidInfo

-- The calls of the indy-sdk that the wallet makes. `J` is a JSON value, `B` a Buffer; a wallet's
-- configuration is its id and the rest, which is only passed on.
pub record IndySdk (W J B : Type 0) : Type 0 where
  pub create_wallet : Exec W Unit
  pub open_wallet : Exec W ℕ
  pub prover_create_master_secret : ℕ → String → Exec W String
  pub create_and_store_my_did : ℕ → Option J → Exec W (String × String)
  pub issuer_create_and_store_credential_def :
      ℕ → String → J → String → String → Option J → Exec W (String × J)
  pub issuer_create_credential_offer : ℕ → String → Exec W J
  pub prover_search_credentials_for_proof_req : ℕ → J → Exec W ℕ
  pub prover_fetch_credentials_for_proof_req : ℕ → String → ℕ → Exec W J
  pub prover_close_credentials_search_for_proof_req : ℕ → Exec W Unit
  pub prover_create_credential_req : ℕ → String → J → J → String → Exec W (J × J)
  pub open_blob_storage_reader : Exec W ℕ
  pub issuer_create_credential : ℕ → J → J → J → ℕ → Exec W J
  pub prover_store_credential : ℕ → String → J → J → J → Exec W String
  pub prover_get_credential : ℕ → String → Exec W J
  pub prover_create_proof : ℕ → J → J → String → J → J → Exec W J
  pub verifier_verify_proof : J → J → J → J → Exec W Bool
  pub pack_message : ℕ → B → List String → String → Exec W B
  pub unpack_message : ℕ → B → Exec W B
  pub crypto_sign : ℕ → String → B → Exec W B
  pub crypto_verify : String → B → B → Exec W Bool
  pub close_wallet : ℕ → Exec W Unit
  pub delete_wallet : Exec W Unit
  pub sign_request : ℕ → String → J → Exec W J
  pub generate_nonce : Exec W String

-- JsonEncoder, and the text in the field `message` of what the sdk unpacks.
pub record JsonBuffers (J B : Type 0) : Type 0 where
  pub to_buffer : J → B
  pub from_buffer : B → Result J
  pub message_text : J → String
  pub from_string : String → Result J
  pub with_message : J → J → J

-- A handle that is zero is no handle in a condition.
true_handle : Option ℕ → Option ℕ
true_handle none = none
true_handle (some zero) = none
true_handle (some (suc n)) = some (suc n)

module _ {W : Type 0} where
  -- A call of the sdk, on its own state.
  unfoldable pub on_world : {A : Type 0} → Exec W A → Exec (IndyWallet W) A
  on_world m s = let (r, w) = m s.world in (r, record s { world = w })

  -- The getters `walletHandle` and `masterSecretId`.
  unfoldable pub handle : Exec (IndyWallet W) ℕ
  unfolding true_handle
  handle s = or_throw (true_handle s.wallet_handle) wallet_not_initialized s

  unfoldable pub master_secret : Exec (IndyWallet W) String
  master_secret s = or_throw (truthy s.master_secret_id) master_secret_not_initialized s

  unfoldable pub set_handle : ℕ → Exec (IndyWallet W) Unit
  set_handle n = modify (λ s. record s { wallet_handle = some n })

  unfoldable pub set_master_secret : String → Exec (IndyWallet W) Unit
  set_master_secret id = modify (λ s. record s { master_secret_id = some id })

  -- A method that passes its arguments on, with the handle.
  unfoldable pub with_handle : {A : Type 0} → (ℕ → Exec W A) → Exec (IndyWallet W) A
  with_handle call = do n ← handle; on_world (call n)

module _ {W J B : Type 0} (sdk : IndySdk W J B) where
  -- `id` is `walletConfig.id`. A wallet that is there already is opened, and a master secret that is
  -- there already is used; all other rejections are thrown on.
  unfoldable pub init : String → Exec (IndyWallet W) Unit
  init id = do
    catch_error (on_world sdk.create_wallet)
        (λ e. if is_indy_error e wallet_already_exists_error then pure tt else throw e)
    opened ← on_world sdk.open_wallet
    set_handle opened
    catch_error
        (do
          secret ← with_handle (λ n. sdk.prover_create_master_secret n id)
          set_master_secret secret)
        (λ e.
          if is_indy_error e master_secret_duplicate_name_error
          then (do set_master_secret id; master_secret; pure tt)
          else throw e)
    handle >> pure tt

  unfoldable pub create_did : Option J → Exec (IndyWallet W) (String × String)
  create_did config = with_handle (λ n. sdk.create_and_store_my_did n config)

  unfoldable pub init_public_did : J → Exec (IndyWallet W) Unit
  init_public_did config = do
    (did, verkey) ← create_did (some config)
    modify (λ s. record s { public_did_info = some (record { did = did; verkey = verkey }) })

  unfoldable pub create_credential_definition :
      String → J → String → String → Option J → Exec (IndyWallet W) (String × J)
  create_credential_definition did schema tag signature_type config =
      with_handle
        (λ n. sdk.issuer_create_and_store_credential_def n did schema tag signature_type config)

  unfoldable pub create_credential_offer : String → Exec (IndyWallet W) J
  create_credential_offer id = with_handle (λ n. sdk.issuer_create_credential_offer n id)

  unfoldable pub search_credentials_for_proof_request : J → Exec (IndyWallet W) ℕ
  search_credentials_for_proof_request request =
      with_handle (λ n. sdk.prover_search_credentials_for_proof_req n request)

  -- At most a hundred credentials are fetched.
  unfoldable pub get_credentials_for_proof_request : J → String → Exec (IndyWallet W) J
  get_credentials_for_proof_request request referent = do
    search ← with_handle (λ n. sdk.prover_search_credentials_for_proof_req n request)
    credentials ← on_world (sdk.prover_fetch_credentials_for_proof_req search referent 100)
    on_world (sdk.prover_close_credentials_search_for_proof_req search)
    pure credentials

  unfoldable pub create_credential_request : String → J → J → Exec (IndyWallet W) (J × J)
  create_credential_request did offer definition = do
    n ← handle
    secret ← master_secret
    on_world (sdk.prover_create_credential_req n did offer definition secret)

  unfoldable pub create_credential : J → J → J → Exec (IndyWallet W) J
  create_credential offer request values = do
    reader ← on_world sdk.open_blob_storage_reader
    with_handle (λ n. sdk.issuer_create_credential n offer request values reader)

  unfoldable pub store_credential : String → J → J → J → Exec (IndyWallet W) String
  store_credential id metadata credential definition =
      with_handle (λ n. sdk.prover_store_credential n id metadata credential definition)

  unfoldable pub get_credential : String → Exec (IndyWallet W) J
  get_credential id = with_handle (λ n. sdk.prover_get_credential n id)

  unfoldable pub create_proof : J → J → J → J → Exec (IndyWallet W) J
  create_proof request requested schemas definitions = do
    n ← handle
    secret ← master_secret
    on_world (sdk.prover_create_proof n request requested secret schemas definitions)

  unfoldable pub verify_proof : J → J → J → J → Exec (IndyWallet W) Bool
  verify_proof request proof schemas definitions =
      on_world (sdk.verifier_verify_proof request proof schemas definitions)

  unfoldable pub sign : B → String → Exec (IndyWallet W) B
  sign data_ verkey = with_handle (λ n. sdk.crypto_sign n verkey data_)

  unfoldable pub verify : String → B → B → Exec (IndyWallet W) Bool
  verify verkey data_ signature = on_world (sdk.crypto_verify verkey data_ signature)

  -- The handle of a wallet that was closed stays in its field.
  unfoldable pub close : Exec (IndyWallet W) Unit
  close = with_handle sdk.close_wallet

  unfoldable pub delete : Exec (IndyWallet W) Unit
  delete = on_world sdk.delete_wallet

  unfoldable pub sign_request : String → J → Exec (IndyWallet W) J
  sign_request did request = with_handle (λ n. sdk.sign_request n did request)

  unfoldable pub generate_nonce : Exec (IndyWallet W) String
  generate_nonce = on_world sdk.generate_nonce

  module _ (buffers : JsonBuffers J B) where
    unfoldable pub pack : J → List String → String → Exec (IndyWallet W) J
    pack payload keys sender = do
      packed ← with_handle (λ n. sdk.pack_message n (buffers.to_buffer payload) keys sender)
      lift (buffers.from_buffer packed)

    unfoldable pub unpack : J → Exec (IndyWallet W) J
    unpack message = do
      unpacked ← with_handle (λ n. sdk.unpack_message n (buffers.to_buffer message))
      read ← lift (buffers.from_buffer unpacked)
      inner ← lift (buffers.from_string (buffers.message_text read))
      pure (buffers.with_message read inner)
