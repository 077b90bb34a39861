-- ===== src/Routing/Provisioning.antt =====
-- modules/routing/services/ProvisioningService.ts and ConsumerRoutingService.ts: an agent's mediator.
use aries_framework_javascri.Prelude.{
  ℕ, String, Option, none, some, List, [], ◌∷◌, ◌≡◌, refl, ap, ◌∙◌,
}
use aries_framework_javascri.Exec.{
  Exec, Result, ok, err, pure, throw, lift, ◌>>=◌, ◌>>◌, wallet_item_not_found, Fresh,
}
use aries_framework_javascri.Storage.{
  Tags, no_tags, Repository, repository, RecordType, WalletRecord, WalletRecords, Codec,
  to_wallet_record,
}
use aries_framework_javascri.Storage.Contracts.{IsRepository, IsRecordStore, Settles, by_id}
use aries_framework_javascri.Storage.Updates.{find-save}
use aries_framework_javascri.Message.{new_message}
use aries_framework_javascri.Agent.Config.{AgentConfig, InboundConnection}
use aries_framework_javascri.Agent.Context.{OutboundMessage}
use aries_framework_javascri.Agent.Helpers.{create_outbound_message}
use aries_framework_javascri.Routing.Messages.{KeylistUpdateMessage, add}

pub record ProvisioningRecord : Type 0 where
  pub id : String
  pub created_at : ℕ
  pub mediator_connection_id : String
  pub mediator_public_verkey : String
  pub tags : Tags

abbrev pub unique_provisioning_id : String
unique_provisioning_id = "UNIQUE_PROVISIONING_ID"

module _ {W : Type 0} (repo : Repository ProvisioningRecord W) where
  -- Only the rejection for an item that is not there is taken as an answer.
  provisioned : Result ProvisioningRecord → Exec W (Option ProvisioningRecord)
  provisioned (ok r) = pure (some r)
  provisioned (err wallet_item_not_found) = pure none
  provisioned (err e) = throw e

  unfoldable pub find_provisioning : Exec W (Option ProvisioningRecord)
  unfolding provisioned
  find_provisioning s = let (r, s') = repo.find unique_provisioning_id s in provisioned r s'

  unfoldable pub create_provisioning : Fresh → String → String → Exec W ProvisioningRecord
  create_provisioning fresh connection_id verkey = do
    let r : ProvisioningRecord = record {
      id = unique_provisioning_id;
      created_at = fresh.now;
      mediator_connection_id = connection_id;
      mediator_public_verkey = verkey;
      tags = no_tags;
    }
    repo.save r
    pure r

  module _ (records : W → List ProvisioningRecord)
      (law : IsRepository repo (λ r. r.id) (λ r. r.tags) records) where
    -- Over a repository that meets its contract: an agent without provisioning finds none, and having
    -- created one it finds what `create` returned.
    find-create_provisioning :
        (fresh : Fresh) (connection_id verkey : String) (s : W)
        → by_id (λ r. r.id) unique_provisioning_id (records s) ≡ none
        → let (out, s') = create_provisioning fresh connection_id verkey s in
          (r : ProvisioningRecord) × (out ≡ ok r)
          × (r.mediator_connection_id ≡ connection_id)
          × (find_provisioning s ≡ (ok none, s))
          × (find_provisioning s' ≡ (ok (some r), s'))
    unfolding find_provisioning create_provisioning ◌>>=◌
    find-create_provisioning fresh connection_id verkey s unused =
        let r : ProvisioningRecord = record {
          id = unique_provisioning_id;
          created_at = fresh.now;
          mediator_connection_id = connection_id;
          mediator_public_verkey = verkey;
          tags = no_tags;
        } in
        let (saved, found) = find-save repo (λ r. r.id) (λ r. r.tags) records law r s unused in
        (
          r,
          rw saved refl,
          refl,
          rw (law.find_lem unique_provisioning_id s, unused) refl,
          rw (saved, found) refl,
        )

    -- Over a repository that meets its contract: where provisioning is stored, creating it again
    -- returns a new record, and the repository keeps the old one.
    create_provisioning-kept :
        (fresh : Fresh) (connection_id verkey : String) (s : W) (old : ProvisioningRecord)
        → by_id (λ r. r.id) unique_provisioning_id (records s) ≡ some old
        → let (out, s') = create_provisioning fresh connection_id verkey s in
          (r : ProvisioningRecord) × (out ≡ ok r)
          × (r.mediator_connection_id ≡ connection_id)
          × (find_provisioning s' ≡ (ok (some old), s'))
    unfolding find_provisioning create_provisioning ◌>>=◌
    create_provisioning-kept fresh connection_id verkey s old known =
        let r : ProvisioningRecord = record {
          id = unique_provisioning_id;
          created_at = fresh.now;
          mediator_connection_id = connection_id;
          mediator_public_verkey = verkey;
          tags = no_tags;
        } in
        let kept = law.save_old r s known in
        (r, rw kept refl, refl, rw (kept, law.find_lem unique_provisioning_id s, known) refl)

module _ {W : Type 0} (wallet : WalletRecords W) (items : RecordType → W → List WalletRecord)
    (store : IsRecordStore wallet items) (c : Codec ProvisioningRecord)
    (ids : (r : ProvisioningRecord) → c.id_of r ≡ r.id) (start : Exec W Unit → Exec W Unit)
    (settles : Settles start) where
  -- With the repository over a wallet store that refuses an id that it has: where provisioning is
  -- stored, creating it again returns a new record with the new mediator, as if it were stored, and
  -- `find` still returns the record that is made of the old item of the wallet.
  pub create_provisioning-again :
      (fresh : Fresh) (connection_id verkey : String) (s : W) {old : WalletRecord}
      → by_id (λ w. w.id) unique_provisioning_id (items c.type s) ≡ some old
      → let repo = repository start wallet c in
        let (out, s') = create_provisioning repo fresh connection_id verkey s in
        (r : ProvisioningRecord) × (out ≡ ok r)
        × (r.mediator_connection_id ≡ connection_id)
        × (r.mediator_public_verkey ≡ verkey)
        × (s' ≡ s)
        × (find_provisioning repo s' ≡ (ok (some (c.from_persistence old)), s'))
  unfolding repository find_provisioning create_provisioning ◌>>=◌
  create_provisioning-again fresh connection_id verkey s {old} known =
      let r : ProvisioningRecord = record {
        id = unique_provisioning_id;
        created_at = fresh.now;
        mediator_connection_id = connection_id;
        mediator_public_verkey = verkey;
        tags = no_tags;
      } in
      let item = to_wallet_record c r in
      let refused =
        store.add_old c.type item s
          (ap (λ id. by_id (λ w. w.id) id (items c.type s)) (ids r) ∙ known) in
      let kept : start (wallet.add_wallet_record c.type item) s ≡ (ok tt, s) =
        settles (wallet.add_wallet_record c.type item) s ∙ rw refused refl in
      (
        r,
        rw kept refl,
        refl,
        refl,
        rw kept refl,
        rw (kept, store.get_lem c.type unique_provisioning_id s, known) refl,
      )

module _ {S : Type 0} (config : AgentConfig)
    (send : OutboundMessage KeylistUpdateMessage → Exec S Unit) where
  route_over : String → String → Option InboundConnection → Exec S Unit
  route_over id verkey none = pure tt
  route_over id verkey (some inbound) = do
    outbound ← lift (
        create_outbound_message inbound.connection
          (record {
            base = new_message id;
            updates = record { recipient_key = verkey; action = add } ∷ [];
          })
          none)
    send outbound

  -- ConsumerRoutingService.createRoute; `send` is the message sender.
  unfoldable pub create_route : String → String → Exec S Unit
  unfolding route_over
  create_route id verkey = route_over id verkey config.inbound_connection
