-- ===== src/Wallet/Search.antt =====
-- wallet/IndyWallet.ts: what the loop of `search` yields, over searches that meet their contract.
use aries_framework_javascri.Prelude.{
  ℕ, none, some, List, [], ◌∷◌, zero, suc, ◌+◌, ◌*◌, ◌≤◌, ◌≡◌, refl, ap, length, take, drop,
  take-drop, length-drop, arith,
}
use aries_framework_javascri.Exec.{ok, ◌>>=◌}
use aries_framework_javascri.Storage.{RecordType, WalletQuery, WalletRecord}
use aries_framework_javascri.Wallet.{IndyWallet, handle, on_world}
use aries_framework_javascri.Wallet.Records.{RecordSdk, fetch_loop, fetch_all, search}

-- The contract of a search of the indy-sdk: a fetch takes the next records, in order, and where
-- none are left its answer is `null`. `remaining h w` are the records that search `h` has left.
pub record IsSearch {W : Type 0} (sdk : RecordSdk W) (remaining : ℕ → W → List WalletRecord)
    : Type 0 where
  pub next :
      (wallet_handle h count : ℕ) (w : W) {r : WalletRecord} {rest : List WalletRecord}
      → remaining h w ≡ r ∷ rest
      → let (fetched, w') = sdk.fetch_wallet_search_next_records wallet_handle h count w in
        (fetched ≡ ok (some (take count (remaining h w))))
        × (remaining h w' ≡ drop count (remaining h w))
  pub over :
      (wallet_handle h count : ℕ) (w : W)
      → remaining h w ≡ []
      → (sdk.fetch_wallet_search_next_records wallet_handle h count w).0 ≡ ok none

module _ {W : Type 0} (sdk : RecordSdk W) (remaining : ℕ → W → List WalletRecord)
    (law : IsSearch sdk remaining) (wallet_handle h : ℕ) where
  fetch_loop-all :
      (fuel : ℕ) (w : W) (left : List WalletRecord)
      → remaining h w ≡ left
      → length left + 10 ≤ fuel * 10
      → (fetch_loop sdk fuel wallet_handle h w).0 ≡ some left
  unfolding fetch_loop
  fetch_loop-all zero w left e enough = absurd (omega arith)
  fetch_loop-all (suc fuel) w [] e enough = rw (law.over wallet_handle h 10 w e) refl
  fetch_loop-all (suc fuel) w (r ∷ rest) e enough =
      let (fetched, after) = law.next wallet_handle h 10 w e in
      let w' = (sdk.fetch_wallet_search_next_records wallet_handle h 10 w).1 in
      let shorter = length-drop 10 (r ∷ rest) in
      let e' : remaining h w' ≡ drop 10 (r ∷ rest) = rw (after, e) refl in
      let later = fetch_loop-all fuel w' (drop 10 (r ∷ rest)) e' (omega arith) in
      rw (fetched, later, e) (ap some (take-drop 10 (r ∷ rest)))

  -- Over searches that meet their contract: with fuel for the rounds, one for each ten records and
  -- one for the end, a search on an open wallet returns, and yields every record that it found, once
  -- and in order.
  pub search-all :
      (fuel : ℕ) (type : RecordType) (query : WalletQuery) (s : IndyWallet W) {w w' : W}
      → handle s ≡ (ok wallet_handle, s)
      → sdk.open_wallet_search wallet_handle type query s.world ≡ (ok h, w)
      → length (remaining h w) + 10 ≤ fuel * 10
      → sdk.close_wallet_search h (fetch_loop sdk fuel wallet_handle h w).1 ≡ (ok tt, w')
      → (search sdk fuel type query s).0 ≡ ok (some (remaining h w))
  unfolding search fetch_all on_world ◌>>=◌
  search-all fuel type query s {w} {w'} open_ opened enough closed =
      let all = fetch_loop-all fuel w (remaining h w) refl enough in
      rw (open_, opened, all, closed) refl
