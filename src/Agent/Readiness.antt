-- ===== src/Agent/Readiness.antt =====
-- agent/Agent.ts: what holds when the inbound transporter is started.
use aries_framework_javascri.Prelude.{
  ℕ, String, ◌≡◌, refl, sym, ap, subst, ◌∙◌, true, Option, none, some, is_some, truthy,
}
use aries_framework_javascri.Exec.{
  Exec, Error, ok, or_throw, pure, ◌>>◌, bind-ok, ok-run, Keeps, Keeps-bind,
}
use aries_framework_javascri.Wallet.{
  IndyWallet, IndySdk, init, init_public_did, create_did, handle, with_handle, on_world,
}
use aries_framework_javascri.Ledger.{LedgerSdk, LedgerService, connect}
use aries_framework_javascri.Agent.Assembly.{
  Agent, StartConfig, on_wallet, on_ledger, make_public_did, connect_ledger, init_agent,
}

module _ {W : Type 0} where
  -- The wallet is open: it hands out a handle.
  abbrev pub IsOpen : IndyWallet W → Type 0
  IsOpen wallet = (n : ℕ) × ((handle wallet).0 ≡ ok n)

  or_throw-same :
      {A : Type 0} (o : Option A) (e : Error) (s t : IndyWallet W)
      → (or_throw o e s).0 ≡ (or_throw o e t).0
  or_throw-same none e s t = refl
  or_throw-same (some a) e s t = refl

  or_throw-still :
      {A : Type 0} (o : Option A) (e : Error) (s : IndyWallet W) → (or_throw o e s).1 ≡ s
  or_throw-still none e s = refl
  or_throw-still (some a) e s = refl

  handle-same :
      (s t : IndyWallet W) → s.wallet_handle ≡ t.wallet_handle → (handle s).0 ≡ (handle t).0
  unfolding handle
  handle-same s t e =
      ap (λ h. (handle (record s { wallet_handle = h })).0) e ∙ or_throw-same _ _ _ t

  handle-still : (s : IndyWallet W) → (handle s).1 ≡ s
  unfolding handle
  handle-still s = or_throw-still _ _ s

  closing-IsOpen : (t s' : IndyWallet W) → (handle >> pure tt) t ≡ (ok tt, s') → IsOpen s'
  closing-IsOpen t s' run =
      let (n, handed, last) = bind-ok handle (λ _. pure tt) t run in
      let same : t ≡ s' = sym (handle-still t) ∙ ap (λ p. p.1) last in
      (n, subst (λ x. (handle x).0 ≡ ok n) same handed)

  HasHandle : Option ℕ → IndyWallet W → Type 0
  HasHandle h s = s.wallet_handle ≡ h

  with_handle-Keeps :
      {A : Type 0} (h : Option ℕ) (call : ℕ → Exec W A) → Keeps (HasHandle h) (with_handle call)
  unfolding with_handle HasHandle on_world
  with_handle-Keeps h call =
      Keeps-bind (λ n. record { at = λ s e. e })
        (record { at = λ s e. ap (λ x. x.wallet_handle) (handle-still s) ∙ e })

module _ {W J B : Type 0} (sdk : IndySdk W J B) where
  init-IsOpen : (id : String) (s s' : IndyWallet W) → init sdk id s ≡ (ok tt, s') → IsOpen s'
  unfolding init
  init-IsOpen id s s' run =
      let (_, _, more) = bind-ok _ _ s run in
      let (_, _, more) = bind-ok _ _ _ more in
      let (_, _, more) = bind-ok _ _ _ more in
      let (_, _, more) = bind-ok _ _ _ more in closing-IsOpen _ s' more

  init_public_did-after :
      (config : J) (s s' : IndyWallet W)
      → init_public_did sdk config s ≡ (ok tt, s')
      → (s'.wallet_handle ≡ s.wallet_handle) × (is_some s'.public_did_info ≡ true)
  unfolding init_public_did create_did HasHandle
  init_public_did-after config s s' run =
      let (made, _, last) = bind-ok (create_did sdk (some config)) _ s run in
      let stays =
        (with_handle-Keeps s.wallet_handle (λ n. sdk.create_and_store_my_did n (some config))).at s
          refl in
      (
        sym (ap (λ p. p.1.wallet_handle) last) ∙ stays,
        sym (ap (λ p. is_some p.1.public_did_info) last),
      )

module _ {W J : Type 0} (sdk : LedgerSdk W J) where
  connect-pool :
      (pool_name : String) (config : J) (s s' : LedgerService W)
      → connect sdk pool_name config s ≡ (ok tt, s')
      → is_some s'.pool_handle ≡ true
  unfolding connect
  connect-pool pool_name config s s' run =
      let (_, _, more) = bind-ok _ _ s run in
      let (_, _, more) = bind-ok _ _ _ more in
      let (opened, _, last) = bind-ok _ _ _ more in sym (ap (λ p. is_some p.1.pool_handle) last)

module _ {W : Type 0} where
  on_wallet-ok :
      {A : Type 0} (m : Exec (IndyWallet W) A) (s s' : Agent W) {a : A}
      → on_wallet m s ≡ (ok a, s')
      → (m (record s.wallet { world = s.world }) ≡ (ok a, s'.wallet))
        × (s'.ledger_service ≡ s.ledger_service)
  unfolding on_wallet
  on_wallet-ok m s s' run =
      (ap (λ p. (p.0, p.1.wallet)) run, sym (ap (λ p. p.1.ledger_service) run))

  on_ledger-ok :
      {A : Type 0} (m : Exec (LedgerService W) A) (s s' : Agent W) {a : A}
      → on_ledger m s ≡ (ok a, s')
      → (m (record s.ledger_service { world = s.world }) ≡ (ok a, s'.ledger_service))
        × (s'.wallet ≡ s.wallet)
  unfolding on_ledger
  on_ledger-ok m s s' run =
      (ap (λ p. (p.0, p.1.ledger_service)) run, sym (ap (λ p. p.1.wallet) run))

-- Where `init` has come to the start of the transporter: the wallet is open, there is a public did
-- if a seed is configured, and a pool if a genesis path is.
pub record IsReady {W J : Type 0} (config : StartConfig J) (agent : Agent W) : Type 0 where
  pub is_open : IsOpen agent.wallet
  pub has_did :
      is_some (truthy config.public_did_seed) ≡ true → is_some agent.wallet.public_did_info ≡ true
  pub has_pool :
      is_some (truthy config.genesis_path) ≡ true → is_some agent.ledger_service.pool_handle ≡ true

module _ {W J B : Type 0} (sdk : IndySdk W J B) (ledger_sdk : LedgerSdk W J)
    (config : StartConfig J) where
  make_public_did-after :
      (seed : Option String) (s s' : Agent W)
      → make_public_did sdk ledger_sdk config seed s ≡ (ok tt, s')
      → (s'.wallet.wallet_handle ≡ s.wallet.wallet_handle)
        × (is_some seed ≡ true → is_some s'.wallet.public_did_info ≡ true)
  unfolding make_public_did on_wallet
  make_public_did-after none s s' run =
      (sym (ap (λ p. p.1.wallet.wallet_handle) run), λ e. absurd (cc))
  make_public_did-after (some seed) s s' run =
      let (made, _) = on_wallet-ok (init_public_did sdk (config.did_config seed)) s s' run in
      let (kept, given) = init_public_did-after sdk (config.did_config seed) _ s'.wallet made in
      (kept, λ _. given)

  connect_ledger-after :
      (path : Option String) (s s' : Agent W)
      → connect_ledger sdk ledger_sdk config path s ≡ (ok tt, s')
      → (s'.wallet ≡ s.wallet)
        × (is_some path ≡ true → is_some s'.ledger_service.pool_handle ≡ true)
  unfolding connect_ledger on_ledger
  connect_ledger-after none s s' run = (sym (ap (λ p. p.1.wallet) run), λ e. absurd (cc))
  connect_ledger-after (some path) s s' run =
      let call = connect ledger_sdk config.pool_name (config.pool_config path) in
      let (made, kept) = on_ledger-ok call s s' run in
      (kept, λ _. connect-pool ledger_sdk config.pool_name (config.pool_config path) _ _ made)

  stages-IsReady :
      (s s1 s2 s3 : Agent W)
      → on_wallet (init sdk config.wallet_id) s ≡ (ok tt, s1)
      → make_public_did sdk ledger_sdk config (truthy config.public_did_seed) s1 ≡ (ok tt, s2)
      → connect_ledger sdk ledger_sdk config (truthy config.genesis_path) s2 ≡ (ok tt, s3)
      → IsReady config s3
  stages-IsReady s s1 s2 s3 opening naming joining =
      let (opened, _) = on_wallet-ok (init sdk config.wallet_id) s s1 opening in
      let (n, handed) = init-IsOpen sdk config.wallet_id _ s1.wallet opened in
      let (kept, has_did) = make_public_did-after (truthy config.public_did_seed) s1 s2 naming in
      let (still, has_pool) = connect_ledger-after (truthy config.genesis_path) s2 s3 joining in
      record {
        is_open =
            (n, handle-same s3.wallet s1.wallet (ap (λ w. w.wallet_handle) still ∙ kept) ∙ handed);
        has_did = λ e. ap (λ w. is_some w.public_did_info) still ∙ has_did e;
        has_pool = has_pool;
      }

  -- When `init` of an agent returns, its inbound transporter was started, as the last step, on an
  -- agent whose wallet is open, which has a public did if a seed is configured, and a pool if a
  -- genesis path is.
  pub init_agent-IsReady :
      (start : Exec (Agent W) Unit) (s s' : Agent W)
      → init_agent sdk ledger_sdk config start s ≡ (ok tt, s')
      → (ready : Agent W) × IsReady config ready × (start ready ≡ (ok tt, s'))
  unfolding init_agent
  init_agent-IsReady start s s' run =
      let open_wallet = on_wallet (init sdk config.wallet_id) in
      let name = make_public_did sdk ledger_sdk config (truthy config.public_did_seed) in
      let join = connect_ledger sdk ledger_sdk config (truthy config.genesis_path) in
      let (_, opening, more) = bind-ok open_wallet _ s run in
      let (_, naming, more) = bind-ok name _ _ more in
      let (_, joining, last) = bind-ok join _ _ more in
      let s1 = (open_wallet s).1 in
      let s2 = (name s1).1 in
      (
        (join s2).1,
        stages-IsReady s s1 s2 (join s2).1 (ok-run open_wallet s opening) (ok-run name s1 naming)
            (ok-run join s2 joining),
        last,
      )
