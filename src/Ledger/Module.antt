-- ===== src/Ledger/Module.antt =====
-- modules/ledger/LedgerModule.ts; its other methods are those of the service. `public_did` is the
-- wallet's.
use aries_framework_javascri.Prelude.{ℕ, String, Option, truthy, map_option}
use aries_framework_javascri.Exec.{Exec, throw, or_throw, ◌>>=◌, no_public_did, not_implemented}
use aries_framework_javascri.Wallet.{DidInfo}
use aries_framework_javascri.Ledger.{
  LedgerSdk, LedgerService, SchemaTemplate, CredDefTemplate, register_schema,
  register_credential_definition,
}

pub register_public_did : {W : Type 0} → Exec (LedgerService W) Unit
register_public_did = throw not_implemented

module _ {W J : Type 0} (sdk : LedgerSdk W J) (public_did : Option DidInfo) where
  unfoldable pub agent_did : Exec (LedgerService W) String
  agent_did = or_throw (truthy (map_option (λ (info : DidInfo). info.did) public_did)) no_public_did

  unfoldable pub module_register_schema : ℕ → SchemaTemplate → Exec (LedgerService W) (String × J)
  unfolding agent_did
  module_register_schema now template = do did ← agent_did; register_schema sdk now did template

  unfoldable pub module_register_credential_definition :
      ℕ → CredDefTemplate J → Exec (LedgerService W) (String × J)
  unfolding agent_did
  module_register_credential_definition now template = do
    did ← agent_did
    register_credential_definition sdk now did template
