-- ===== src/Wallet/Records.antt =====
-- wallet/IndyWallet.ts: the methods on records, which IndyStorageService calls, and the loop of
-- `search`. The generator is run to its end here; its consumer only takes what it yields.
use aries_framework_javascri.Prelude.{
  ℕ, String, Option, none, some, List, [], ◌++◌, zero, suc, map_option,
}
use aries_framework_javascri.Exec.{Exec, Result, ok, err, pure, ◌>>=◌, ◌>>◌}
use aries_framework_javascri.Storage.{RecordType, WalletQuery, WalletRecord, Tags}
use aries_framework_javascri.Wallet.{IndyWallet, handle, on_world, with_handle}

-- The calls of the indy-sdk that these methods make. A fetch answers `records: null` at the end.
pub record RecordSdk (W : Type 0) : Type 0 where
  pub add_wallet_record : ℕ → RecordType → WalletRecord → Exec W Unit
  pub update_wallet_record_value : ℕ → RecordType → String → String → Exec W Unit
  pub add_wallet_record_tags : ℕ → RecordType → String → Tags → Exec W Unit
  pub delete_wallet_record : ℕ → RecordType → String → Exec W Unit
  pub get_wallet_record : ℕ → RecordType → String → Exec W WalletRecord
  pub open_wallet_search : ℕ → RecordType → WalletQuery → Exec W ℕ
  pub fetch_wallet_search_next_records : ℕ → ℕ → ℕ → Exec W (Option (List WalletRecord))
  pub close_wallet_search : ℕ → Exec W Unit

-- A round of the loop: what was fetched is yielded, and the loop goes on, or ends.
abbrev pub yielded :
    {W : Type 0}
    → Result (Option (List WalletRecord))
    → W
    → (W → Option (List WalletRecord) × W)
    → Option (List WalletRecord) × W
yielded (err _) w go_on = (some [], w)
yielded (ok none) w go_on = (some [], w)
yielded (ok (some batch)) w go_on =
    let (rest, w') = go_on w in (map_option (λ records. batch ++ records) rest, w')

module _ {W : Type 0} (sdk : RecordSdk W) where
  unfoldable pub add_wallet_record : RecordType → WalletRecord → Exec (IndyWallet W) Unit
  add_wallet_record type r = with_handle (λ n. sdk.add_wallet_record n type r)

  unfoldable pub update_wallet_record_value :
      RecordType → String → String → Exec (IndyWallet W) Unit
  update_wallet_record_value type id value =
      with_handle (λ n. sdk.update_wallet_record_value n type id value)

  -- The tags are added, not replaced.
  unfoldable pub update_wallet_record_tags : RecordType → String → Tags → Exec (IndyWallet W) Unit
  update_wallet_record_tags type id tags =
      with_handle (λ n. sdk.add_wallet_record_tags n type id tags)

  unfoldable pub delete_wallet_record : RecordType → String → Exec (IndyWallet W) Unit
  delete_wallet_record type id = with_handle (λ n. sdk.delete_wallet_record n type id)

  unfoldable pub get_wallet_record : RecordType → String → Exec (IndyWallet W) WalletRecord
  get_wallet_record type id = with_handle (λ n. sdk.get_wallet_record n type id)

  -- `while (true)` in the `try` block: it is left by a throw only, of the sdk or of the loop over
  -- `null`, and the throw is caught. `none` says that the fuel ran out.
  unfoldable pub fetch_loop : ℕ → ℕ → ℕ → W → Option (List WalletRecord) × W
  fetch_loop zero wallet_handle search w = (none, w)
  fetch_loop (suc fuel) wallet_handle search w =
      let (fetched, w') = sdk.fetch_wallet_search_next_records wallet_handle search 10 w in
      yielded fetched w' (λ v. fetch_loop fuel wallet_handle search v)

  unfoldable pub fetch_all : ℕ → ℕ → ℕ → Exec W (Option (List WalletRecord))
  unfolding fetch_loop
  fetch_all fuel wallet_handle search w =
      let (found, w') = fetch_loop fuel wallet_handle search w in (ok found, w')

  unfoldable pub search :
      ℕ → RecordType → WalletQuery → Exec (IndyWallet W) (Option (List WalletRecord))
  unfolding fetch_all
  search fuel type query = do
    wallet_handle ← handle
    opened ← on_world (sdk.open_wallet_search wallet_handle type query)
    found ← on_world (fetch_all fuel wallet_handle opened)
    on_world (sdk.close_wallet_search opened)
    pure found
