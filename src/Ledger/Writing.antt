-- ===== src/Ledger/Writing.antt =====
-- modules/ledger: what was written when `registerSchema` of the module returns.
use aries_framework_javascri.Prelude.{
  ℕ, String, false, Option, some, ◌==◌, ◌≡◌, ap, subst, ◌∙◌, arith, truthy, map_option,
}
use aries_framework_javascri.Exec.{
  Exec, ok, err, bind-ok, or_throw-ok, require-ok, ok-run, catch_error, recovered, Result, Error,
}
use aries_framework_javascri.Wallet.{DidInfo}
use aries_framework_javascri.Ledger.{
  LedgerSdk, LedgerService, LedgerResponse, SchemaTemplate, submit, submit_write_request,
  register_schema, write_schema, on_world, log_and_throw,
}
use aries_framework_javascri.Ledger.Module.{module_register_schema, agent_did}

module _ {W J : Type 0} (sdk : LedgerSdk W J) where
  -- The ledger took a request that the wallet signed for the did.
  abbrev pub Accepted : String → LedgerResponse J → Type 0
  Accepted did response =
      (request : J) × (signed : J) × (n : ℕ) × (w : W) × (v : W) × ((sdk.sign_request did request
          w).0
        ≡ ok signed)
      × ((sdk.submit_request n signed v).0 ≡ ok response)
      × ((response.op == "REJECT") ≡ false)

  log_and_throw-never :
      {A : Type 0} (e : Error) (s : LedgerService W) {a : A} {s' : LedgerService W}
      → ¬ (log_and_throw e s ≡ (ok a, s'))
  unfolding log_and_throw
  log_and_throw-never e s f = let (_, _, more) = bind-ok _ _ s f in cc (ap (λ p. p.0) more)

  recovered-ok :
      {A : Type 0} (r : Result A) (s : LedgerService W) {a : A} {s' : LedgerService W}
      → recovered r log_and_throw s ≡ (ok a, s')
      → (r ≡ ok a) × (s ≡ s')
  recovered-ok (ok b) s e = (ap (λ p. p.0) e, ap (λ p. p.1) e)
  recovered-ok (err x) s e = absurd (log_and_throw-never x s e)

  logged-ok :
      {A : Type 0} (m : Exec (LedgerService W) A) (s : LedgerService W) {a : A}
      {s' : LedgerService W}
      → catch_error m log_and_throw s ≡ (ok a, s')
      → m s ≡ (ok a, s')
  logged-ok m s {a} e =
      let (run, left) = recovered-ok (m s).0 (m s).1 e in ok-run m s run ∙ ap (λ x. (ok a, x)) left

  submit-answered :
      (request : J) (s : LedgerService W) {response : LedgerResponse J}
      → (submit sdk request s).0 ≡ ok response
      → (n : ℕ) × (v : W) × ((sdk.submit_request n request v).0 ≡ ok response)
  unfolding submit on_world
  submit-answered request s e =
      let (n, _, more) = bind-ok _ _ s (ok-run (submit sdk request) s e) in
      (n, _, ap (λ p. p.0) more)

  submit_write_request-Accepted :
      (now : ℕ) (request : J) (did : String) (s : LedgerService W) {response : LedgerResponse J}
      → (submit_write_request sdk now request did s).0 ≡ ok response
      → Accepted did response
  unfolding submit_write_request on_world
  submit_write_request-Accepted now request did s {response} e =
      let (with_taa, _, more) =
        bind-ok _ _ s (ok-run (submit_write_request sdk now request did) s e) in
      let (signed, signing, more) = bind-ok _ _ _ more in
      let (answer, submitted, more) = bind-ok _ _ _ more in
      let (allowed, more) = require-ok _ _ _ _ more in
      let same : answer ≡ response = cc (ap (λ p. p.0) more) in
      let (n, v, answered) = submit-answered signed _ submitted in
      subst (Accepted did) same
        (with_taa, signed, n, _, v, signing, answered, ground (arith, allowed))

  -- LedgerModule.registerSchema returns only for a wallet with a public did, after the ledger took a
  -- request that the wallet signed for this did: its answer was no rejection.
  pub module_register_schema-Accepted :
      (public_did : Option DidInfo) (now : ℕ) (template : SchemaTemplate) (s : LedgerService W)
      {result : String × J} {s' : LedgerService W}
      → module_register_schema sdk public_did now template s ≡ (ok result, s')
      → (did : String) × (response : LedgerResponse J) × (truthy
            (map_option (λ (info : DidInfo). info.did) public_did)
          ≡ some did)
        × Accepted did response
  unfolding module_register_schema register_schema write_schema agent_did
  module_register_schema-Accepted public_did now template s e =
      let (did, owned, more) = or_throw-ok _ _ _ s e in
      let run = logged-ok (write_schema sdk now did template) s more in
      let (created, _, more) = bind-ok _ _ s run in
      let (request, _, more) = bind-ok _ _ _ more in
      let (response, written, _) = bind-ok _ _ _ more in
      (did, response, owned, submit_write_request-Accepted now request did _ written)
