-- ===== src/Wallet/Opening.antt =====
-- wallet/IndyWallet.ts: `init` where the wallet and its master secret are there from an earlier run.
use aries_framework_javascri.Prelude.{ℕ, suc, String, true, some, ◌≡◌, refl, ap, truthy}
use aries_framework_javascri.Exec.{Error, ok, err, ◌>>=◌}
use aries_framework_javascri.IndyError.{
  is_indy_error, wallet_already_exists_error, master_secret_duplicate_name_error,
}
use aries_framework_javascri.Wallet.{
  IndyWallet, IndySdk, init, handle, master_secret, on_world, with_handle, set_handle,
  set_master_secret,
}

module _ {W J B : Type 0} (sdk : IndySdk W J B) where
  -- An initialised wallet that is initialised anew: where the sdk says that the wallet exists and
  -- that the master secret exists, and opens the wallet under a handle that is not zero, init
  -- returns, and the wallet then has that handle and its own id as the master secret's.
  init-existing :
      (id : String) (s : IndyWallet W) (exists duplicate : Error) (n : ℕ) {w w' w'' : W}
      → truthy (some id) ≡ some id
      → sdk.create_wallet s.world ≡ (err exists, w)
      → is_indy_error exists wallet_already_exists_error ≡ true
      → sdk.open_wallet w ≡ (ok (suc n), w')
      → sdk.prover_create_master_secret (suc n) id w' ≡ (err duplicate, w'')
      → is_indy_error duplicate master_secret_duplicate_name_error ≡ true
      → let (out, s') = init sdk id s in
        (out ≡ ok tt)
        × (s'.world ≡ w'')
        × (handle s' ≡ (ok (suc n), s'))
        × (master_secret s' ≡ (ok id, s'))
  unfolding init handle master_secret on_world with_handle set_handle set_master_secret ◌>>=◌
  init-existing id s exists duplicate n {w''} named created is_there opened secret is_double =
      let after : IndyWallet W = record s {
        world = w'';
        wallet_handle = some (suc n);
        master_secret_id = some id;
      } in
      let run : init sdk id s ≡ (ok tt, after) =
        rw (created, is_there, opened, secret, is_double, named) refl in
      (ap (λ p. p.0) run, ap (λ p. p.1.world) run, rw run refl, rw (run, named) refl)
