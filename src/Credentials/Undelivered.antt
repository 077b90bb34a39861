-- ===== src/Credentials/Undelivered.antt =====
-- modules/credentials/CredentialsModule.ts: an acknowledgement that the transport does not take.
use aries_framework_javascri.Prelude.{
  String, some, List, [], ◌∷◌, ◌++◌, ◌≡◌, refl, truthy, ap, subst,
}
use aries_framework_javascri.Exec.{Error, ok, err, ◌>>=◌, Fresh, invalid_state}
use aries_framework_javascri.Storage.Contracts.{IsRepository, KeepsTags-same}
use aries_framework_javascri.Storage.Updates.{find-update, find-by_id}
use aries_framework_javascri.Agent.Context.{OutboundMessage}
use aries_framework_javascri.Agent.Helpers.{create_outbound_message-Reaches}
use aries_framework_javascri.Agent.Sending.{Sender, send_to}
use aries_framework_javascri.Connections.Record.{ConnectionRecord, their_key}
use aries_framework_javascri.Credentials.Record.{CredentialRecord, credential_received, done}
use aries_framework_javascri.Credentials.Service.{
  CredentialDeps, Issuing, get_by_id, update_state, create_ack,
}
use aries_framework_javascri.Credentials.Module.{
  CredentialMessage, connection_by_id, record_and_connection, accept_credential,
}

module _ {W : Type 0} {M : Type 0} (sender : Sender W M) (c : ConnectionRecord) (key : String)
    (e : Error) where
  send_to-fails :
      (m : M) (w : W)
      → ((out : OutboundMessage M) (v : W) → sender.send out v ≡ (err e, v))
      → truthy (their_key c) ≡ some key
      → send_to sender c m w ≡ (err e, w)
  unfolding send_to ◌>>=◌
  send_to-fails m w down known =
      let (out, made, _, _) = create_outbound_message-Reaches c m key known in
      rw (made, down out w) refl

module _ {W J : Type 0} (deps : CredentialDeps W J) (records : W → List (CredentialRecord J))
    (law : IsRepository deps.repo (λ r. r.id) (λ r. r.tags) records)
    (sender : Sender W CredentialMessage) (c : ConnectionRecord) (key : String) (e : Error) where
  -- Over a repository that meets its contract, for a record in CredentialReceived whose connection
  -- is found and has a key: if the transport refuses every message, acceptCredential throws what the
  -- transport threw, but the record is stored as Done, and calling it again throws for the state and
  -- sends nothing.
  pub accept_credential-undelivered :
      (fresh again : Fresh) (id : String) (s : Issuing W J) {r : CredentialRecord J}
      → deps.repo.find id s.store ≡ (ok r, s.store)
      → r.state ≡ credential_received
      → ((w : W) → deps.connections.find r.connection_id w ≡ (ok c, w))
      → truthy (their_key c) ≡ some key
      → ((out : OutboundMessage CredentialMessage) (w : W) → sender.send out w ≡ (err e, w))
      → let (out, s') = accept_credential deps sender fresh id s in
        (out ≡ err e)
        × (get_by_id deps id s' ≡ (ok (record r { state = done }), s'))
        × (accept_credential deps sender again id s' ≡ (err invalid_state, s'))
  unfolding accept_credential record_and_connection connection_by_id get_by_id create_ack
      update_state ◌>>=◌
  accept_credential-undelivered fresh again id s {r} found state connected known down =
      let changed = record r { state = done } in
      let (_, same, stored) =
        find-by_id deps.repo (λ x. x.id) (λ x. x.tags) records law id s.store found in
      let (updated, now) =
        find-update deps.repo (λ x. x.id) (λ x. x.tags) records law changed s.store stored
          (KeepsTags-same r.tags) in
      let after : Issuing W J = record {
        store = (deps.repo.update changed s.store).1;
        events = s.events ++ record { changed = changed; previous_state = some r.state } ∷ [];
      } in
      let refound : deps.repo.find id after.store ≡ (ok changed, after.store) =
        subst (λ i. deps.repo.find i after.store ≡ (ok changed, after.store)) same now in
      let run : accept_credential deps sender fresh id s ≡ (err e, after) =
        rw (found, connected s.store, state, updated, send_to-fails sender c key e _ _ down known)
          refl in
      (ap (λ p. p.0) run, rw (run, refound) refl, rw (run, refound, connected after.store) refl)
