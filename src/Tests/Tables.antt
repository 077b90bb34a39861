-- ===== src/Tests/Tables.antt =====
-- A repository and a record store that keep a list, and that they meet their contracts.
use aries_framework_javascri.Prelude.{
  String, List, [], ◌∷◌, ◌++◌, ◌==◌, refl, filter, is_some, not, if◌then◌else◌,
}
use aries_framework_javascri.Exec.{Exec, ok, err, wallet_item_not_found, wallet_item_already_exists}
use aries_framework_javascri.Storage.{Tags, matches, WalletRecord, WalletRecords, Repository}
use aries_framework_javascri.Storage.Contracts.{
  IsRepository, IsRecordStore, by_id, change, added, or_not_found,
}

module _ {R : Type 0} (id_of : R → String) (tags_of : R → Tags) where
  abbrev pub table : Repository R (List R)
  table = record {
    save = λ r s. (ok tt, if is_some (by_id id_of (id_of r) s) then s else s ++ r ∷ []);
    update = λ r s.
        if is_some (by_id id_of (id_of r) s)
        then (ok tt, change id_of (id_of r) (λ _. r) s)
        else (err wallet_item_not_found, s);
    delete = λ r s. (ok tt, filter (λ x. not (id_of x == id_of r)) s);
    find = λ id s. (or_not_found (by_id id_of id s), s);
    find_all = λ s. (ok s, s);
    find_by_query = λ q s. (ok (filter (λ r. matches q (tags_of r)) s), s);
  }

  pub table-IsRepository : IsRepository table id_of tags_of (λ s. s)
  table-IsRepository = record {
    find_lem = λ id s. refl;
    find_by_query_lem = λ q s. refl;
    find_all_lem = λ s. refl;
    save_new = λ r s e. (refl, rw e refl);
    save_old = λ r s e. rw e refl;
    update_found = λ r s e. (rw e refl, λ keeps. rw e refl);
    update_missing = λ r s e. rw e refl;
  }

-- A runtime that performs what is started at once.
abbrev pub at_once : {W : Type 0} → Exec W Unit → Exec W Unit
at_once m s = (ok tt, (m s).1)

abbrev pub shelf : WalletRecords (List WalletRecord)
shelf = record {
  add_wallet_record = λ t w s.
      if is_some (by_id (λ v. v.id) w.id s)
      then (err wallet_item_already_exists, s)
      else (ok tt, s ++ w ∷ []);
  update_wallet_record_value = λ t id value s.
      if is_some (by_id (λ v. v.id) id s)
      then (ok tt, change (λ v. v.id) id (λ v. record v { value = value }) s)
      else (err wallet_item_not_found, s);
  update_wallet_record_tags = λ t id tags s.
      if is_some (by_id (λ v. v.id) id s)
      then (ok tt, change (λ v. v.id) id (λ v. record v { tags = added v.tags tags }) s)
      else (err wallet_item_not_found, s);
  delete_wallet_record = λ t id s. (ok tt, filter (λ v. not (v.id == id)) s);
  get_wallet_record = λ t id s. (or_not_found (by_id (λ v. v.id) id s), s);
  search = λ t q s. (ok (filter (λ v. matches q v.tags) s), s);
}

pub shelf-IsRecordStore : IsRecordStore shelf (λ t s. s)
shelf-IsRecordStore = record {
  get_lem = λ t id s. refl;
  search_lem = λ t q s. refl;
  add_new = λ t w s e. rw e refl;
  add_old = λ t w s e. rw e refl;
  set_value = λ t id value s e. (rw e refl, rw e refl);
  set_value_missing = λ t id value s e. rw e refl;
  set_tags = λ t id tags s e. (rw e refl, rw e refl);
}
