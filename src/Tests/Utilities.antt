-- ===== src/Tests/Utilities.antt =====
-- The utilities on inputs of their tests (src/utils/__tests__/did.test.ts), and a logger.
use aries_framework_javascri.Prelude.{
  String, ◌≡◌, refl, true, false, Option, none, some, ◌==◌, codes, strip_prefix, ℕ, if◌then◌else◌,
}
use aries_framework_javascri.Exec.{err, unknown_indy_error}
use aries_framework_javascri.IndyError.Raw.{RawError, is_indy_error_named}
use aries_framework_javascri.Identifiers.{
  is_base58, is_verkey, is_full_verkey, is_abbreviated_verkey, is_did, is_did_identifier,
}
use aries_framework_javascri.Logger.{
  log, warn_level, info_level, is_enabled, number_of, console_method, prefix_of, console_warn,
}

-- `Number`, for the two texts of the tests.
abbrev to_number : String → Option ℕ
to_number text = if text == "203" then some 203 else none

abbrev thrown : String → RawError
thrown message = record { name = "IndyError"; indy_name = none; message = message }

unknown :
    is_indy_error_named to_number (thrown "?") (some "WalletNotFoundError") ≡ err unknown_indy_error
unfolding is_indy_error_named
unknown = refl

full : is_verkey (codes "6YnVN5Qdb6mqimTRQcQmSXrHXKdTEdRn5YHZReezUTvt") ≡ true
unfolding is_verkey is_full_verkey is_base58
full = refl

abbreviated : is_verkey (codes "~PKAYz8Ev4yoQgr2LaMAWFx") ≡ true
unfolding is_verkey is_full_verkey is_abbreviated_verkey is_base58 strip_prefix
abbreviated = refl

too_long : is_verkey (codes "6YnVN5Qdb6mqimTRQcQmSXrHXKdTEdRn5YHZReezUTvta") ≡ false
unfolding is_verkey is_full_verkey is_abbreviated_verkey is_base58 strip_prefix
too_long = refl

did : is_did (codes "did:sov:N8NQHLtCKfPmWMgCSdfa7h") ≡ true
unfolding is_did strip_prefix
did = refl

method_with_digit : is_did (codes "did:test1:N8NQHLtCKfPmWMgCSdfa7h") ≡ false
unfolding is_did strip_prefix
method_with_digit = refl

-- Nothing is asked of what follows the first character of the identifier.
did_with_space : is_did (codes "did:sov:N8 and more") ≡ true
unfolding is_did strip_prefix
did_with_space = refl

identifier : is_did_identifier (codes "8kyt-fzzq-qpqq-ljsc-5l") ≡ true
unfolding is_did_identifier
identifier = refl

warning :
    log {D = String} (λ j. j) info_level warn_level "late" none
    ≡ some (record { method = console_warn; text = "WARN: late"; json = none })
unfolding log is_enabled number_of console_method prefix_of
warning = refl
