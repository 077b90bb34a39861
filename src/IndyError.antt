-- ===== src/IndyError.antt =====
-- utils/indyError.ts: which rejection of the indy-sdk an error is. An error of the indy-sdk is its
-- number in the table `indyErrors` there; the two that the services tell apart have names. One that
-- is in no row of that table is not represented.
pub mod Raw
pub mod Codes
use aries_framework_javascri.Prelude.{ℕ, Bool, false, same_number}
use aries_framework_javascri.Exec.{Error, wallet_item_not_found, wallet_item_already_exists, indy}

abbrev pub wallet_already_exists_error : ℕ
wallet_already_exists_error = 203

abbrev pub pool_ledger_config_already_exists_error : ℕ
pool_ledger_config_already_exists_error = 306

abbrev pub master_secret_duplicate_name_error : ℕ
master_secret_duplicate_name_error = 404

unfoldable pub is_indy_error : Error → ℕ → Bool
is_indy_error wallet_item_not_found code = same_number 212 code
is_indy_error wallet_item_already_exists code = same_number 213 code
is_indy_error (indy e) code = same_number e code
is_indy_error _ code = false
