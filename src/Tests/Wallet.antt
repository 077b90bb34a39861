-- ===== src/Tests/Wallet.antt =====
-- A wallet over an indy-sdk that keeps one list of records, which a search goes through.
use aries_framework_javascri.Prelude.{
  ℕ, none, some, Option, List, [], ◌∷◌, ◌≡◌, refl, take, drop, arith,
}
use aries_framework_javascri.Exec.{Exec, ok, err, type_error}
use aries_framework_javascri.Storage.{Tags, no_tags, WalletRecord, proof_record, everything}
use aries_framework_javascri.Wallet.{IndyWallet, handle}
use aries_framework_javascri.Wallet.Records.{RecordSdk, search}
use aries_framework_javascri.Wallet.Search.{IsSearch, search-all}

-- What is left to fetch is the state.
abbrev batch : ℕ → List WalletRecord → Option (List WalletRecord)
batch count [] = none
batch count (r ∷ rest) = some (take count (r ∷ rest))

abbrev sdk_of :
    {W : Type 0}
    → (add_tags : Tags → Exec W Unit) → (fetch : ℕ → Exec W (Option (List WalletRecord)))
    → RecordSdk W
sdk_of add_tags fetch = record {
  add_wallet_record = λ n type r s. (ok tt, s);
  update_wallet_record_value = λ n type id value s. (ok tt, s);
  add_wallet_record_tags = λ n type id tags. add_tags tags;
  delete_wallet_record = λ n type id s. (ok tt, s);
  get_wallet_record = λ n type id s. (err type_error, s);
  open_wallet_search = λ n type query s. (ok 1, s);
  fetch_wallet_search_next_records = λ n h count. fetch count;
  close_wallet_search = λ h s. (ok tt, s);
}

abbrev sdk : RecordSdk (List WalletRecord)
sdk = sdk_of (λ tags s. (ok tt, s)) (λ count s. (ok (batch count s), drop count s))

sdk-IsSearch : IsSearch sdk (λ h s. s)
sdk-IsSearch = record {
  next = λ n h count w e. (rw e refl, refl);
  over = λ n h count w e. rw e refl;
}

abbrev open_wallet : {W : Type 0} → W → IndyWallet W
open_wallet w = record {
  world = w;
  wallet_handle = some 4;
  master_secret_id = some "w1";
  public_did_info = none;
}

abbrev records : List WalletRecord
records =
    record { id = "1"; value = "a"; tags = no_tags }
    ∷ record { id = "2"; value = "b"; tags = no_tags }
    ∷ []

search-all_example :
    (search sdk 2 proof_record everything (open_wallet records)).0 ≡ ok (some records)
unfolding handle
search-all_example =
    search-all sdk (λ h s. s) sdk-IsSearch 4 1 2 proof_record everything (open_wallet records) refl
      refl (omega arith) refl
