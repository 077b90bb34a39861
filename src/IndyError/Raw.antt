-- ===== src/IndyError/Raw.antt =====
-- utils/indyError.ts on the errors as they are thrown: objects with a name, a message, and perhaps
-- the indy-sdk's own name; the table of codes; and that the numbers of the parent module tell errors
-- apart in the same way.
use aries_framework_javascri.Prelude.{
  ℕ, String, Bool, false, Option, none, some, List, [], ◌∷◌, ◌==◌, same_number, truthy,
  if◌then◌else◌,
}
use aries_framework_javascri.Exec.{Result, ok, err, unknown_indy_error}

pub record RawError : Type 0 where
  pub name : String
  pub indy_name : Option String
  pub message : String

-- `indyErrors`
abbrev pub indy_errors : List (ℕ × String)
indy_errors =
    (100, "CommonInvalidParam1")
    ∷ (101, "CommonInvalidParam2")
    ∷ (102, "CommonInvalidParam3")
    ∷ (103, "CommonInvalidParam4")
    ∷ (104, "CommonInvalidParam5")
    ∷ (105, "CommonInvalidParam6")
    ∷ (106, "CommonInvalidParam7")
    ∷ (107, "CommonInvalidParam8")
    ∷ (108, "CommonInvalidParam9")
    ∷ (109, "CommonInvalidParam10")
    ∷ (110, "CommonInvalidParam11")
    ∷ (111, "CommonInvalidParam12")
    ∷ (112, "CommonInvalidState")
    ∷ (113, "CommonInvalidStructure")
    ∷ (114, "CommonIOError")
    ∷ (115, "CommonInvalidParam13")
    ∷ (116, "CommonInvalidParam14")
    ∷ (200, "WalletInvalidHandle")
    ∷ (201, "WalletUnknownTypeError")
    ∷ (202, "WalletTypeAlreadyRegisteredError")
    ∷ (203, "WalletAlreadyExistsError")
    ∷ (204, "WalletNotFoundError")
    ∷ (205, "WalletIncompatiblePoolError")
    ∷ (206, "WalletAlreadyOpenedError")
    ∷ (207, "WalletAccessFailed")
    ∷ (208, "WalletInputError")
    ∷ (209, "WalletDecodingError")
    ∷ (210, "WalletStorageError")
    ∷ (211, "WalletEncryptionError")
    ∷ (212, "WalletItemNotFound")
    ∷ (213, "WalletItemAlreadyExists")
    ∷ (214, "WalletQueryError")
    ∷ (300, "PoolLedgerNotCreatedError")
    ∷ (301, "PoolLedgerInvalidPoolHandle")
    ∷ (302, "PoolLedgerTerminated")
    ∷ (303, "LedgerNoConsensusError")
    ∷ (304, "LedgerInvalidTransaction")
    ∷ (305, "LedgerSecurityError")
    ∷ (306, "PoolLedgerConfigAlreadyExistsError")
    ∷ (307, "PoolLedgerTimeout")
    ∷ (308, "PoolIncompatibleProtocolVersion")
    ∷ (309, "LedgerNotFound")
    ∷ (400, "AnoncredsRevocationRegistryFullError")
    ∷ (401, "AnoncredsInvalidUserRevocId")
    ∷ (404, "AnoncredsMasterSecretDuplicateNameError")
    ∷ (405, "AnoncredsProofRejected")
    ∷ (406, "AnoncredsCredentialRevoked")
    ∷ (407, "AnoncredsCredDefAlreadyExistsError")
    ∷ (500, "UnknownCryptoTypeError")
    ∷ (600, "DidAlreadyExistsError")
    ∷ (700, "PaymentUnknownMethodError")
    ∷ (701, "PaymentIncompatibleMethodsError")
    ∷ (702, "PaymentInsufficientFundsError")
    ∷ (703, "PaymentSourceDoesNotExistError")
    ∷ (704, "PaymentOperationNotSupportedError")
    ∷ (705, "PaymentExtraFundsError")
    ∷ (706, "TransactionNotAllowedError")
    ∷ []

-- `indyErrors[code]`
unfoldable pub name_of : ℕ → List (ℕ × String) → Option String
name_of code [] = none
name_of code ((n, name) ∷ rest) =
    let later = name_of code rest in if same_number n code then some name else later

compare_code : Option String → String → Result Bool
compare_code none wanted = err unknown_indy_error
compare_code (some name) wanted = ok (wanted == name)

-- The code in the message; `Number` gives none where it gives NaN or a number that is no code.
by_message : Option ℕ → String → Result Bool
unfolding compare_code
by_message none wanted = err unknown_indy_error
by_message (some code) wanted = compare_code (name_of code indy_errors) wanted

by_name : Option String → Option ℕ → String → Result Bool
unfolding by_message
by_name (some name) code wanted = ok (name == wanted)
by_name none code wanted = by_message code wanted

named_error : Option ℕ → RawError → Option String → Result Bool
unfolding by_name
named_error code error none = ok (error.name == "IndyError")
named_error code error (some wanted) =
    if error.name == "IndyError" then by_name (truthy error.indy_name) code wanted else ok false

-- `isIndyError`; `to_number` is `Number`, without NaN.
unfoldable pub is_indy_error_named :
    (to_number : String → Option ℕ) → RawError → Option String → Result Bool
unfolding named_error
is_indy_error_named to_number error wanted =
    named_error (to_number error.message) error (truthy wanted)
