-- ===== src/Agent/Assembly.antt =====
-- agent/Agent.ts: `init` and `closeAndDeleteWallet`, which join the wallet and the ledger of an agent.
-- The constructor's wiring is in the parameters of the services; `start` is the application's
-- inbound transporter.
use aries_framework_javascri.Prelude.{String, Option, none, some, truthy}
use aries_framework_javascri.Exec.{Exec, pure, ◌>>◌}
use aries_framework_javascri.Wallet.{IndyWallet, IndySdk, init, init_public_did, close, delete}
use aries_framework_javascri.Ledger.{LedgerSdk, LedgerService, connect}

-- The objects of an agent that talk to the indy-sdk, whose state is `world`; each has its copy of it
-- here, and a call starts from the one of the agent.
pub record Agent (W : Type 0) : Type 0 where
  pub world : W
  pub wallet : IndyWallet W
  pub ledger_service : LedgerService W

-- The parts of the configuration that `init` reads: `walletConfig.id`, and the JSON that it makes of
-- a seed and of a path.
pub record StartConfig (J : Type 0) : Type 0 where
  pub wallet_id : String
  pub public_did_seed : Option String
  pub genesis_path : Option String
  pub pool_name : String
  pub did_config : String → J
  pub pool_config : String → J

module _ {W : Type 0} where
  unfoldable pub on_wallet : {A : Type 0} → Exec (IndyWallet W) A → Exec (Agent W) A
  on_wallet m s =
      let (r, wallet) = m (record s.wallet { world = s.world }) in
      (r, record s { world = wallet.world; wallet = wallet })

  unfoldable pub on_ledger : {A : Type 0} → Exec (LedgerService W) A → Exec (Agent W) A
  on_ledger m s =
      let (r, ledger) = m (record s.ledger_service { world = s.world }) in
      (r, record s { world = ledger.world; ledger_service = ledger })

module _ {W J B : Type 0} (sdk : IndySdk W J B) (ledger_sdk : LedgerSdk W J)
    (config : StartConfig J) where
  unfoldable pub make_public_did : Option String → Exec (Agent W) Unit
  make_public_did none = pure tt
  make_public_did (some seed) = on_wallet (init_public_did sdk (config.did_config seed))

  unfoldable pub connect_ledger : Option String → Exec (Agent W) Unit
  connect_ledger none = pure tt
  connect_ledger (some path) =
      on_ledger (connect ledger_sdk config.pool_name (config.pool_config path))

  unfoldable pub init_agent : (start : Exec (Agent W) Unit) → Exec (Agent W) Unit
  unfolding make_public_did connect_ledger
  init_agent start = do
    on_wallet (init sdk config.wallet_id)
    make_public_did (truthy config.public_did_seed)
    connect_ledger (truthy config.genesis_path)
    start

  unfoldable pub close_and_delete_wallet : Exec (Agent W) Unit
  close_and_delete_wallet = on_wallet (close sdk) >> on_wallet (delete sdk)
