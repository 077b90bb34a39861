-- ===== src/Ledger/Agreement.antt =====
-- modules/ledger/services/LedgerService.ts: the ledger is asked once for the author agreement.
use aries_framework_javascri.Prelude.{Option, none, some, ◌≡◌, refl}
use aries_framework_javascri.Exec.{ok, bind-ok}
use aries_framework_javascri.Ledger.{
  LedgerSdk, LedgerService, AuthorAgreement, get_transaction_author_agreement, fetch_agreement,
  known_or_fetched, remember,
}

module _ {W J : Type 0} (sdk : LedgerSdk W J) where
  fetch_agreement-kept :
      (s : LedgerService W) {agreement : Option AuthorAgreement} {s' : LedgerService W}
      → fetch_agreement sdk s ≡ (ok agreement, s')
      → s'.author_agreement ≡ some agreement
  unfolding fetch_agreement remember
  fetch_agreement-kept s e =
      let (_, _, more) = bind-ok _ _ s e in
      let (_, _, more) = bind-ok _ _ _ more in
      let (_, _, more) = bind-ok _ _ _ more in let (_, _, more) = bind-ok _ _ _ more in cc more

  known_or_fetched-kept :
      (known : Option (Option AuthorAgreement)) (s : LedgerService W)
      {agreement : Option AuthorAgreement} {s' : LedgerService W}
      → s.author_agreement ≡ known
      → known_or_fetched sdk known s ≡ (ok agreement, s')
      → s'.author_agreement ≡ some agreement
  unfolding known_or_fetched
  known_or_fetched-kept none s new e = fetch_agreement-kept s e
  known_or_fetched-kept (some known) s old e = cc

  -- Once the agreement was given, the next request for it gives the same, and neither the sdk nor
  -- the ledger is asked: nothing of the state has changed. That there is none is also kept.
  get_transaction_author_agreement-once :
      (s : LedgerService W) {agreement : Option AuthorAgreement} {s' : LedgerService W}
      → get_transaction_author_agreement sdk s ≡ (ok agreement, s')
      → get_transaction_author_agreement sdk s' ≡ (ok agreement, s')
  unfolding get_transaction_author_agreement known_or_fetched
  get_transaction_author_agreement-once s e =
      rw (known_or_fetched-kept s.author_agreement s refl e) refl
