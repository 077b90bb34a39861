-- ===== src/Tests/Assembly.antt =====
-- An agent that starts on an existing wallet with a seed and a genesis path, and the handlers that
-- its modules register.
use aries_framework_javascri.Prelude.{String, ◌≡◌, refl, none, some}
use aries_framework_javascri.Exec.{Exec, ok, indy, type_error, throw, pure, ◌>>=◌}
use aries_framework_javascri.IndyError.{is_indy_error}
use aries_framework_javascri.Wallet.{
  IndySdk, init, init_public_did, create_did, handle, master_secret, set_handle, set_master_secret,
  with_handle, on_world,
}
use aries_framework_javascri.Ledger.{connect, on_world as on_ledger_world}
use aries_framework_javascri.Agent.Assembly.{
  Agent, StartConfig, init_agent, make_public_did, connect_ledger, on_wallet, on_ledger,
}
use aries_framework_javascri.Agent.Readiness.{IsReady, init_agent-IsReady}
use aries_framework_javascri.Tests.Ledger

abbrev fails : {A : Type 0} → Exec Unit A
fails = throw type_error

abbrev wallet_sdk : IndySdk Unit String String
wallet_sdk = record {
  create_wallet = throw (indy 203);
  open_wallet = pure 4;
  prover_create_master_secret = λ n id. throw (indy 404);
  create_and_store_my_did = λ n config. pure ("did", "key");
  issuer_create_and_store_credential_def = λ n did schema tag kind config. fails;
  issuer_create_credential_offer = λ n id. fails;
  prover_search_credentials_for_proof_req = λ n request. fails;
  prover_fetch_credentials_for_proof_req = λ n referent count. fails;
  prover_close_credentials_search_for_proof_req = λ n. fails;
  prover_create_credential_req = λ n did offer definition secret. fails;
  open_blob_storage_reader = fails;
  issuer_create_credential = λ n offer request values reader. fails;
  prover_store_credential = λ n id metadata credential definition. fails;
  prover_get_credential = λ n id. fails;
  prover_create_proof = λ n request credentials secret schemas definitions. fails;
  verifier_verify_proof = λ request proof schemas definitions. fails;
  pack_message = λ n message keys sender. fails;
  unpack_message = λ n message. fails;
  crypto_sign = λ n key message. fails;
  crypto_verify = λ key message signature. fails;
  close_wallet = λ n. pure tt;
  delete_wallet = pure tt;
  sign_request = λ n did request. fails;
  generate_nonce = fails;
}

abbrev config : StartConfig String
config = record {
  wallet_id = "w1";
  public_did_seed = some "seed";
  genesis_path = some "genesis";
  pool_name = "default-pool";
  did_config = λ seed. seed;
  pool_config = λ path. path;
}

abbrev agent : Agent Unit
agent = record {
  world = tt;
  wallet = record {
    world = tt;
    wallet_handle = none;
    master_secret_id = none;
    public_did_info = none;
  };
  ledger_service = record { world = tt; pool_handle = none; author_agreement = none };
}

abbrev started : Agent Unit
started = record {
  world = tt;
  wallet = record {
    world = tt;
    wallet_handle = some 4;
    master_secret_id = some "w1";
    public_did_info = some (record { did = "did"; verkey = "key" });
  };
  ledger_service = record { world = tt; pool_handle = some 1; author_agreement = none };
}

start_run : init_agent wallet_sdk Ledger.sdk config (pure tt) agent ≡ (ok tt, started)
unfolding init_agent init make_public_did connect_ledger on_wallet on_ledger is_indy_error handle
    master_secret set_handle set_master_secret with_handle on_world init_public_did create_did
    connect on_ledger_world ◌>>=◌
start_run = refl

init_agent-IsReady_example :
    (ready : Agent Unit) × IsReady config ready × (pure tt ready ≡ (ok tt, started))
init_agent-IsReady_example =
    init_agent-IsReady wallet_sdk Ledger.sdk config (pure tt) agent started start_run
