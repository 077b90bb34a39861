-- ===== src/Credentials/Service/Base.antt =====
-- modules/credentials/services/CredentialService.ts: the service's dependencies, and what its methods share.
use aries_framework_javascri.Prelude.{String, Option, none, some, List, [], ◌∷◌}
use aries_framework_javascri.Exec.{
  Exec, Result, ok, pure, throw, ◌>>=◌, ◌>>◌, Emitting, on_store, emit, StateChanged, Fresh,
  no_connection, record_not_found, multiple_records,
}
use aries_framework_javascri.Storage.{no_tags, Repository, by_thread_id}
use aries_framework_javascri.Attachment.{Base64}
use aries_framework_javascri.Connections.Record.{ConnectionRecord, assert_ready}
use aries_framework_javascri.Storage.InMemory.{Dict}
use aries_framework_javascri.Credentials.Values.{CredValue, ValueEncoder}
use aries_framework_javascri.Credentials.Messages.{CredentialPreview}
use aries_framework_javascri.Credentials.Record.{CredentialRecord, CredentialState}

abbrev pub CredentialEvent : Type 0 → Type 0
CredentialEvent J = StateChanged (CredentialRecord J) CredentialState

-- The service over a wallet with state `W`.
abbrev pub Issuing : Type 0 → Type 0 → Type 0
Issuing W J = Emitting W (CredentialEvent J)

-- The service's dependencies: repositories, JSON, the wallet's anonymous credentials, the ledger.
pub record CredentialDeps (W J : Type 0) : Type 0 where
  pub repo : Repository (CredentialRecord J) W
  pub connections : Repository ConnectionRecord W
  pub codec : Base64 J
  pub values : ValueEncoder
  pub create_credential_offer : String → Exec W J
  pub create_credential_request : String → J → J → Exec W (J × J)
  pub create_credential : J → J → Dict CredValue → Exec W J
  pub store_credential : String → J → J → J → Exec W String
  pub get_credential : String → Exec W J
  pub get_credential_definition : String → Exec W J
  pub cred_def_id : J → String

pub record CredentialOfferTemplate : Type 0 where
  pub credential_definition_id : String
  pub comment : Option String
  pub preview : CredentialPreview

-- The constructor of a record, with its messages absent.
abbrev pub new_record :
    {J : Type 0} → Fresh → String → CredentialState → Option String → CredentialRecord J
new_record fresh connection_id state thread = record {
  id = fresh.record_id;
  created_at = fresh.now;
  connection_id = connection_id;
  credential_id = none;
  request_metadata = none;
  tags = record no_tags { thread_id = thread };
  state = state;
  proposal_message = none;
  offer_message = none;
  request_message = none;
  credential_message = none;
}

-- `message?.getter`
abbrev pub optional : {M A : Type 0} → (M → Result (Option A)) → Option M → Result (Option A)
optional getter none = ok none
optional getter (some m) = getter m

module _ {S : Type 0} where
  -- `connection?.assertReady()`, then `if (!connection) throw`
  unfoldable pub ready_connection : Option ConnectionRecord → Exec S ConnectionRecord
  ready_connection none = throw no_connection
  ready_connection (some connection) = do assert_ready connection; pure connection

  unfoldable pub single : {R : Type 0} → List R → Exec S R
  single [] = throw record_not_found
  single (r ∷ []) = pure r
  single (_ ∷ _ ∷ _) = throw multiple_records

module _ {W J : Type 0} (deps : CredentialDeps W J) where
  unfoldable pub update_state :
      CredentialRecord J → CredentialState → Exec (Issuing W J) (CredentialRecord J)
  update_state r new_state = do
    let changed = record r { state = new_state }
    on_store (deps.repo.update changed)
    emit (record { changed = changed; previous_state = some r.state })
    pure changed

  -- A new record is saved and announced with no state before.
  unfoldable pub save_new : CredentialRecord J → Exec (Issuing W J) (CredentialRecord J)
  save_new r = do
    on_store (deps.repo.save r)
    emit (record { changed = r; previous_state = none })
    pure r

  unfoldable pub get_by_thread_id : Option String → Exec (Issuing W J) (CredentialRecord J)
  get_by_thread_id thread = do
    found ← on_store (deps.repo.find_by_query (by_thread_id thread))
    single found

  unfoldable pub get_by_id : String → Exec (Issuing W J) (CredentialRecord J)
  get_by_id id = on_store (deps.repo.find id)

  unfoldable pub get_all : Exec (Issuing W J) (List (CredentialRecord J))
  get_all = on_store deps.repo.find_all
