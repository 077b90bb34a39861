-- ===== src/Tests/BasicMessages.antt =====
-- A basic message that is stored, one whose id is taken, and provisioning.
use aries_framework_javascri.Prelude.{ℕ, String, some, List, [], ◌∷◌, ◌≡◌, refl}
use aries_framework_javascri.Exec.{Emitting, ok}
use aries_framework_javascri.Storage.{
  Codec, WalletRecord, repository, provisioning_record, no_tags, Repository, no_tags,
}
use aries_framework_javascri.Message.{new_message}
use aries_framework_javascri.Connections.Record.{complete}
use aries_framework_javascri.BasicMessages.{
  BasicMessage, BasicMessageRecord, BasicMessageReceived, record_of, handle_basic_message,
  handle_basic_message-stored,
}
use aries_framework_javascri.Routing.Provisioning.{
  ProvisioningRecord, find_provisioning, create_provisioning, create_provisioning-again,
  unique_provisioning_id,
}
use aries_framework_javascri.Tests.Tables.{
  at_once, shelf, shelf-IsRecordStore, table, table-IsRepository,
}
use aries_framework_javascri.Tests.Connections.{connection, fresh, context_of}

abbrev repo : Repository BasicMessageRecord (List BasicMessageRecord)
repo = table (λ r. r.id) (λ r. r.tags)

abbrev iso : ℕ → String
iso n = "2021-01-01T00:00:00Z"

abbrev hello : BasicMessage
hello = record { base = new_message "m1"; sent_time = 0; content = "hello" }

abbrev empty : Emitting (List BasicMessageRecord) BasicMessageReceived
empty = record { store = []; events = [] }

abbrev taken : Emitting (List BasicMessageRecord) BasicMessageReceived
taken = record { store = record_of repo iso fresh hello "alice" "bob" ∷ []; events = [] }

handle_basic_message-stored_example :
    let (out, s') =
      handle_basic_message repo iso fresh
        (context_of hello (some (connection "c1" complete)))
        empty in
    (r : BasicMessageRecord) × (out ≡ ok tt)
    × (repo.find "m1" s'.store ≡ (ok r, s'.store))
    × (r.content ≡ "hello")
    × (s'.events ≡ record { message = hello; verkey = "bob_key" } ∷ [])
handle_basic_message-stored_example =
    handle_basic_message-stored repo iso (λ s. s) (table-IsRepository (λ r. r.id) (λ r. r.tags))
      fresh (context_of hello (some (connection "c1" complete))) empty (connection "c1" complete)
      "m1" "alice_key" refl refl refl refl

abbrev provisioning : Repository ProvisioningRecord (List ProvisioningRecord)
provisioning = table (λ r. r.id) (λ r. r.tags)

abbrev mediated : ProvisioningRecord
mediated = record {
  id = unique_provisioning_id;
  created_at = 0;
  mediator_connection_id = "c1";
  mediator_public_verkey = "k1";
  tags = no_tags;
}

-- The item of a record, whose value holds the connection and the key.
abbrev provisioning_codec : Codec ProvisioningRecord
provisioning_codec = record {
  type = provisioning_record;
  id_of = λ r. r.id;
  tags_of = λ r. r.tags;
  get_value = λ r. r.mediator_connection_id;
  from_persistence = λ w. record {
    id = w.id;
    created_at = 0;
    mediator_connection_id = w.value;
    mediator_public_verkey = w.value;
    tags = w.tags;
  };
}

abbrev old_item : WalletRecord
old_item = record { id = unique_provisioning_id; value = "c1"; tags = no_tags }

create_provisioning-again_example :
    let repo = repository at_once shelf provisioning_codec in
    let (out, s') = create_provisioning repo fresh "c2" "k2" (old_item ∷ []) in
    (r : ProvisioningRecord) × (out ≡ ok r)
    × (r.mediator_connection_id ≡ "c2")
    × (r.mediator_public_verkey ≡ "k2")
    × (s' ≡ old_item ∷ [])
    × (find_provisioning repo s' ≡ (ok (some (provisioning_codec.from_persistence old_item)), s'))
create_provisioning-again_example =
    create_provisioning-again shelf (λ t s. s) shelf-IsRecordStore provisioning_codec (λ r. refl)
      at_once (λ m s. refl) fresh "c2" "k2" (old_item ∷ []) refl
