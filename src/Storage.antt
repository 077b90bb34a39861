-- ===== src/Storage.antt =====
-- storage/: records with tags, IndyStorageService and Repository. The wallet's record store is the
-- parameter `WalletRecords`: the methods of IndyWallet (Wallet/Records.antt) pass its calls on to the
-- indy-sdk. JSON.stringify, JSON.parse and the constructors that read the result are the parameter
-- `Codec`.
pub mod Contracts
pub mod Laws
pub mod Updates
pub mod InMemory
use aries_framework_javascri.Prelude.{
  String, Option, none, some, Bool, true, false, List, map, ◌==◌, ◌≡◌,
}
use aries_framework_javascri.Exec.{Exec, Result, ok, pure, ◌>>=◌, ◌>>◌}

pub data RecordType : Type 0 where
  connection_record basic_message_record provisioning_record credential_record proof_record :
      RecordType

-- `Tags`, with the names that the source uses; `none` is `undefined`. `sender` and `receiver` are
-- the tags `from` and `to` of basic messages.
pub record Tags : Type 0 where
  pub invitation_key : Option String
  pub thread_id : Option String
  pub verkey : Option String
  pub their_key : Option String
  pub sender : Option String
  pub receiver : Option String

abbrev pub no_tags : Tags
no_tags = record {
  invitation_key = none;
  thread_id = none;
  verkey = none;
  their_key = none;
  sender = none;
  receiver = none;
}

-- The queries that the services make, `{ verkey }` and the like; `everything` is `{}`. A tag that
-- is asked for as `undefined` is no part of the query.
pub data WalletQuery : Type 0 where
  everything : WalletQuery
  by_verkey by_their_key : String → WalletQuery
  by_thread_id : Option String → WalletQuery

abbrev pub has_tag : Option String → String → Bool
has_tag none _ = false
has_tag (some tag) value = tag == value

abbrev pub matches : WalletQuery → Tags → Bool
matches everything _ = true
matches (by_verkey key) tags = has_tag tags.verkey key
matches (by_their_key key) tags = has_tag tags.their_key key
matches (by_thread_id none) _ = true
matches (by_thread_id (some thread)) tags = has_tag tags.thread_id thread

pub record WalletRecord : Type 0 where
  pub id : String
  pub value : String
  pub tags : Tags

-- The record store of the wallet, with a state `W`.
pub record WalletRecords (W : Type 0) : Type 0 where
  pub add_wallet_record : RecordType → WalletRecord → Exec W Unit
  pub update_wallet_record_value : RecordType → String → String → Exec W Unit
  pub update_wallet_record_tags : RecordType → String → Tags → Exec W Unit
  pub delete_wallet_record : RecordType → String → Exec W Unit
  pub get_wallet_record : RecordType → String → Exec W WalletRecord
  pub search : RecordType → WalletQuery → Exec W (List WalletRecord)

-- A class of records: its type, the parts of a record, `getValue`, and the constructor that
-- `fromPersistence` calls.
pub record Codec (R : Type 0) : Type 0 where
  pub type : RecordType
  pub id_of : R → String
  pub tags_of : R → Tags
  pub get_value : R → String
  pub from_persistence : WalletRecord → R

abbrev pub to_wallet_record : {R : Type 0} → Codec R → R → WalletRecord
to_wallet_record c r = record { id = c.id_of r; value = c.get_value r; tags = c.tags_of r }

-- IndyStorageService
module _ {W R : Type 0} (wallet : WalletRecords W) (c : Codec R) where
  storage_save : R → Exec W Unit
  storage_save r = wallet.add_wallet_record c.type (to_wallet_record c r)

  storage_update : R → Exec W Unit
  storage_update r = do
    wallet.update_wallet_record_value c.type (c.id_of r) (c.get_value r)
    wallet.update_wallet_record_tags c.type (c.id_of r) (c.tags_of r)

  storage_delete : R → Exec W Unit
  storage_delete r = wallet.delete_wallet_record c.type (c.id_of r)

  storage_find : String → Exec W R
  storage_find id = do found ← wallet.get_wallet_record c.type id; pure (c.from_persistence found)

  storage_find_all : Exec W (List R)
  storage_find_all = do found ← wallet.search c.type everything; pure (map c.from_persistence found)

  storage_find_by_query : WalletQuery → Exec W (List R)
  storage_find_by_query query = do
    found ← wallet.search c.type query
    pure (map c.from_persistence found)

-- What the services see of `Repository`.
pub record Repository (R W : Type 0) : Type 0 where
  pub save : R → Exec W Unit
  pub update : R → Exec W Unit
  pub delete : R → Exec W Unit
  pub find : String → Exec W R
  pub find_all : Exec W (List R)
  pub find_by_query : WalletQuery → Exec W (List R)

-- `Repository.save` calls the storage service, and neither awaits nor returns the promise that it
-- gives; `start` is what the JavaScript runtime does with such a promise.
unfoldable pub repository :
    {W R : Type 0} → (Exec W Unit → Exec W Unit) → WalletRecords W → Codec R → Repository R W
unfolding ◌>>=◌ storage_save storage_update storage_delete storage_find storage_find_all
    storage_find_by_query
repository start wallet c = record {
  save = λ r. start (storage_save wallet c r);
  update = storage_update wallet c;
  delete = storage_delete wallet c;
  find = storage_find wallet c;
  find_all = storage_find_all wallet c;
  find_by_query = storage_find_by_query wallet c;
}
