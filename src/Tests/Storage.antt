-- ===== src/Tests/Storage.antt =====
-- The storage service over a list of wallet items, and the message queues.
use aries_framework_javascri.Prelude.{String, [], ◌∷◌, refl, List, map}
use aries_framework_javascri.Storage.{connection_record, WalletRecord, Codec, repository}
use aries_framework_javascri.Storage.Contracts.{IsRepository, IsCodec}
use aries_framework_javascri.Storage.Laws.{repository-IsRepository}
use aries_framework_javascri.Storage.InMemory.{Dict}
use aries_framework_javascri.Tests.Tables.{at_once, shelf, shelf-IsRecordStore}

abbrev item_codec : Codec WalletRecord
item_codec = record {
  type = connection_record;
  id_of = λ r. r.id;
  tags_of = λ r. r.tags;
  get_value = λ r. r.value;
  from_persistence = λ w. w;
}

item_codec-IsCodec : IsCodec item_codec
item_codec-IsCodec = record { round_trip = λ r. refl; id_kept = λ w. refl; tags_kept = λ w. refl }

repository-IsRepository_example :
    IsRepository
      (repository at_once shelf item_codec)
      (λ r. r.id)
      (λ r. r.tags)
      (λ s. map (λ w. w) s)
repository-IsRepository_example =
    repository-IsRepository shelf (λ t s. s) shelf-IsRecordStore item_codec item_codec-IsCodec
      at_once (λ m s. refl)

abbrev queues : Dict (List String)
queues = ("alice", "m1" ∷ []) ∷ ("bob", []) ∷ []
