-- ===== src/Storage/Contracts.antt =====
-- What the code relies on of the wallet's record store and of JSON, and the contract of a repository
-- over an abstract list of records.
use aries_framework_javascri.Prelude.{
  String, Option, none, some, List, [], ◌∷◌, ◌++◌, ◌==◌, ◌≡◌, refl, or_option, if◌then◌else◌,
  find_first, filter,
}
use aries_framework_javascri.Exec.{
  Exec, Result, ok, err, wallet_item_not_found, wallet_item_already_exists,
}
use aries_framework_javascri.Storage.{
  RecordType, Tags, WalletQuery, matches, WalletRecord, WalletRecords, Codec, Repository,
  to_wallet_record,
}

abbrev pub or_not_found {ℓ} : {A : Type ℓ} → Option A → Result A
or_not_found none = err wallet_item_not_found
or_not_found (some a) = ok a

module _ {A : Type 0} (id_of : A → String) where
  abbrev pub by_id : String → List A → Option A
  by_id id = find_first (λ a. id_of a == id)

  -- The entry with this id, changed by `f`; ids are those of one record each.
  abbrev pub change : String → (A → A) → List A → List A
  change id f [] = []
  change id f (a ∷ l) = if id_of a == id then f a ∷ l else a ∷ change id f l

-- Tags that are added to those of a record: a tag of both takes the new value.
abbrev pub added : Tags → Tags → Tags
added old new = record {
  invitation_key = or_option new.invitation_key old.invitation_key;
  thread_id = or_option new.thread_id old.thread_id;
  verkey = or_option new.verkey old.verkey;
  their_key = or_option new.their_key old.their_key;
  sender = or_option new.sender old.sender;
  receiver = or_option new.receiver old.receiver;
}

-- The new tags take away none of the old ones.
abbrev pub KeepsTags : Tags → Tags → Type 0
KeepsTags old new = added old new ≡ new

or_option-same : {A : Type 0} (o : Option A) → or_option o o ≡ o
or_option-same none = refl
or_option-same (some a) = refl

pub KeepsTags-same : (tags : Tags) → KeepsTags tags tags
KeepsTags-same tags =
    rw
      (
        or_option-same tags.invitation_key,
        or_option-same tags.thread_id,
        or_option-same tags.verkey,
        or_option-same tags.their_key,
        or_option-same tags.sender,
        or_option-same tags.receiver,
      )
      refl

-- What the code relies on of the wallet's record store: `items` are the records of each type, in
-- the order in which a search returns them. An update of the tags adds them to those of the record,
-- as addWalletRecordTags of the indy-sdk does, which IndyWallet calls for it.
pub record IsRecordStore {W : Type 0} (wallet : WalletRecords W)
    (items : RecordType → W → List WalletRecord) : Type 0 where
  pub get_lem :
      (t : RecordType) (id : String) (s : W)
      → wallet.get_wallet_record t id s ≡ (or_not_found (by_id (λ w. w.id) id (items t s)), s)
  pub search_lem :
      (t : RecordType) (q : WalletQuery) (s : W)
      → wallet.search t q s ≡ (ok (filter (λ w. matches q w.tags) (items t s)), s)
  pub add_new :
      (t : RecordType) (w : WalletRecord) (s : W)
      → by_id (λ v. v.id) w.id (items t s) ≡ none
      → items t (wallet.add_wallet_record t w s).1 ≡ items t s ++ w ∷ []
  pub add_old :
      (t : RecordType) (w : WalletRecord) (s : W) {v : WalletRecord}
      → by_id (λ v. v.id) w.id (items t s) ≡ some v
      → wallet.add_wallet_record t w s ≡ (err wallet_item_already_exists, s)
  pub set_value :
      (t : RecordType) (id value : String) (s : W) {v : WalletRecord}
      → by_id (λ v. v.id) id (items t s) ≡ some v
      → let (r, s') = wallet.update_wallet_record_value t id value s in
        (r ≡ ok tt)
        × (items t s' ≡ change (λ v. v.id) id (λ v. record v { value = value }) (items t s))
  pub set_value_missing :
      (t : RecordType) (id value : String) (s : W)
      → by_id (λ v. v.id) id (items t s) ≡ none
      → wallet.update_wallet_record_value t id value s ≡ (err wallet_item_not_found, s)
  pub set_tags :
      (t : RecordType) (id : String) (tags : Tags) (s : W) {v : WalletRecord}
      → by_id (λ v. v.id) id (items t s) ≡ some v
      → let (r, s') = wallet.update_wallet_record_tags t id tags s in
        (r ≡ ok tt)
        × (items t s'
            ≡ change (λ v. v.id) id (λ v. record v { tags = added v.tags tags }) (items t s))

-- A record survives its way through JSON, and keeps its id and tags, which are stored beside it.
pub record IsCodec {R : Type 0} (c : Codec R) : Type 0 where
  pub round_trip : (r : R) → c.from_persistence (to_wallet_record c r) ≡ r
  pub id_kept : (w : WalletRecord) → c.id_of (c.from_persistence w) ≡ w.id
  pub tags_kept : (w : WalletRecord) → c.tags_of (c.from_persistence w) ≡ w.tags

-- The runtime ends what is started before the next operation: a promise that nobody awaits is still
-- performed, and its rejection is seen by nobody.
abbrev pub Settles : {W : Type 0} → (Exec W Unit → Exec W Unit) → Type 0
Settles {W} start = (m : Exec W Unit) (s : W) → start m s ≡ (ok tt, (m s).1)

-- The contract that the services rely on: a table of records, `records`, in the order of saving. An
-- update replaces the record of an id, where no tag that the record had is taken away.
pub record IsRepository {R W : Type 0} (repo : Repository R W) (id_of : R → String)
    (tags_of : R → Tags) (records : W → List R) : Type 0 where
  pub find_lem :
      (id : String) (s : W) → repo.find id s ≡ (or_not_found (by_id id_of id (records s)), s)
  pub find_by_query_lem :
      (q : WalletQuery) (s : W)
      → repo.find_by_query q s ≡ (ok (filter (λ r. matches q (tags_of r)) (records s)), s)
  pub find_all_lem : (s : W) → repo.find_all s ≡ (ok (records s), s)
  pub save_new :
      (r : R) (s : W)
      → by_id id_of (id_of r) (records s) ≡ none
      → let (out, s') = repo.save r s in (out ≡ ok tt) × (records s' ≡ records s ++ r ∷ [])
  pub save_old :
      (r : R) (s : W) {old : R}
      → by_id id_of (id_of r) (records s) ≡ some old
      → repo.save r s ≡ (ok tt, s)
  pub update_found :
      (r : R) (s : W) {old : R}
      → by_id id_of (id_of r) (records s) ≡ some old
      → let (out, s') = repo.update r s in
        (out ≡ ok tt)
        × (KeepsTags (tags_of old) (tags_of r)
            → records s' ≡ change id_of (id_of r) (λ _. r) (records s))
  pub update_missing :
      (r : R) (s : W)
      → by_id id_of (id_of r) (records s) ≡ none
      → repo.update r s ≡ (err wallet_item_not_found, s)
