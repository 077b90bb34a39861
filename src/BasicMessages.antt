-- ===== src/BasicMessages.antt =====
-- modules/basic-messages: BasicMessageService, its handler and its module. `iso` is Date.toISOString.
use aries_framework_javascri.Prelude.{
  ℕ, String, none, some, List, [], ◌∷◌, ◌++◌, ◌≡◌, refl, or_else, truthy, ap, subst,
}
use aries_framework_javascri.Exec.{
  Exec, ok, lift, or_throw, ◌>>=◌, ◌>>◌, Emitting, on_store, emit, Fresh, connection_not_found,
  no_recipient_keys,
}
use aries_framework_javascri.Storage.{Tags, no_tags, Repository, WalletQuery}
use aries_framework_javascri.Storage.Contracts.{IsRepository, by_id}
use aries_framework_javascri.Storage.Updates.{find-save}
use aries_framework_javascri.Message.{AgentMessage, new_message}
use aries_framework_javascri.Connections.Record.{ConnectionRecord, their_key}
use aries_framework_javascri.Agent.Context.{InboundMessageContext, OutboundMessage}
use aries_framework_javascri.Agent.Helpers.{create_outbound_message}
use aries_framework_javascri.Agent.Sending.{Sender}

pub record BasicMessage : Type 0 where
  pub base : AgentMessage
  pub sent_time : ℕ
  pub content : String

pub record BasicMessageRecord : Type 0 where
  pub id : String
  pub created_at : ℕ
  pub content : String
  pub sent_time : String
  pub tags : Tags

-- The event `messageReceived`.
pub record BasicMessageReceived : Type 0 where
  pub message : BasicMessage
  pub verkey : String

module _ {W : Type 0} (repo : Repository BasicMessageRecord W) (iso : ℕ → String) where
  -- A message without an id is stored under a new one; `from` and `to` are the tags `sender` and
  -- `receiver`.
  abbrev pub record_of : Fresh → BasicMessage → String → String → BasicMessageRecord
  record_of fresh message sender receiver = record {
    id = or_else message.base.id fresh.record_id;
    created_at = fresh.now;
    content = message.content;
    sent_time = iso message.sent_time;
    tags = record no_tags { sender = some sender; receiver = some receiver };
  }

  unfoldable pub send : Fresh → String → ConnectionRecord → Exec W (OutboundMessage BasicMessage)
  send fresh content connection = do
    let message : BasicMessage = record {
      base = new_message fresh.message_id;
      sent_time = fresh.now;
      content = content;
    }
    repo.save (record_of fresh message connection.did (or_else connection.their_did ""))
    lift (create_outbound_message connection message none)

  -- BasicMessagesModule.sendMessage
  unfoldable pub module_send_message :
      Sender W BasicMessage → Fresh → ConnectionRecord → String → Exec W Unit
  module_send_message sender fresh connection content = do
    outbound ← send fresh content connection
    sender.send outbound

  unfoldable pub save :
      Fresh → BasicMessage → ConnectionRecord → Exec (Emitting W BasicMessageReceived) Unit
  save fresh message connection = do
    on_store (repo.save (record_of fresh message (or_else connection.their_did "") connection.did))
    emit (record { message = message; verkey = connection.verkey })

  unfoldable pub find_all_by_query : WalletQuery → Exec W (List BasicMessageRecord)
  find_all_by_query query = repo.find_by_query query

  unfoldable pub handle_basic_message :
      Fresh → InboundMessageContext BasicMessage → Exec (Emitting W BasicMessageReceived) Unit
  handle_basic_message fresh context = do
    connection ← or_throw context.connection connection_not_found
    or_throw (truthy (their_key connection)) no_recipient_keys
    save fresh context.message connection

  module _ (records : W → List BasicMessageRecord)
      (law : IsRepository repo (λ r. r.id) (λ r. r.tags) records) where
    -- Over a repository that meets its contract: a message with an id that is not stored, on a
    -- connection with a key, is stored under its id with its content, and announced once.
    pub handle_basic_message-stored :
        (fresh : Fresh) (context : InboundMessageContext BasicMessage)
        (s : Emitting W BasicMessageReceived) (c : ConnectionRecord) (id key : String)
        → context.connection ≡ some c
        → truthy (their_key c) ≡ some key
        → context.message.base.id ≡ some id
        → by_id (λ r. r.id) id (records s.store) ≡ none
        → let (out, s') = handle_basic_message fresh context s in
          (r : BasicMessageRecord) × (out ≡ ok tt)
          × (repo.find id s'.store ≡ (ok r, s'.store))
          × (r.content ≡ context.message.content)
          × (s'.events ≡ s.events ++ record { message = context.message; verkey = c.verkey } ∷ [])
    unfolding handle_basic_message save ◌>>=◌
    handle_basic_message-stored fresh context s c id key connected known named unused =
        let r = record_of fresh context.message (or_else c.their_did "") c.did in
        let same : r.id ≡ id = rw named refl in
        let absent : by_id (λ x. x.id) r.id (records s.store) ≡ none = rw same unused in
        let (saved, found) =
          find-save repo (λ x. x.id) (λ x. x.tags) records law r s.store absent in
        let after : Emitting W BasicMessageReceived = record {
          store = (repo.save r s.store).1;
          events = s.events ++ record { message = context.message; verkey = c.verkey } ∷ [];
        } in
        let run : handle_basic_message fresh context s ≡ (ok tt, after) =
          rw (connected, known, saved) refl in
        (
          r,
          ap (λ p. p.0) run,
          rw run (subst (λ i. repo.find i after.store ≡ (ok r, after.store)) same found),
          refl,
          ap (λ p. p.1.events) run,
        )

    -- Over a repository that meets its contract: a message whose id is stored already is not stored, but
    -- the method returns and the message is announced all the same.
    handle_basic_message-taken :
        (fresh : Fresh) (context : InboundMessageContext BasicMessage)
        (s : Emitting W BasicMessageReceived) (c : ConnectionRecord) (id key : String)
        {old : BasicMessageRecord}
        → context.connection ≡ some c
        → truthy (their_key c) ≡ some key
        → context.message.base.id ≡ some id
        → by_id (λ r. r.id) id (records s.store) ≡ some old
        → let (out, s') = handle_basic_message fresh context s in
          (out ≡ ok tt)
          × (s'.store ≡ s.store)
          × (s'.events ≡ s.events ++ record { message = context.message; verkey = c.verkey } ∷ [])
    unfolding handle_basic_message save ◌>>=◌
    handle_basic_message-taken fresh context s c id key {old} connected known named stored =
        let r = record_of fresh context.message (or_else c.their_did "") c.did in
        let same : r.id ≡ id = rw named refl in
        let present = law.save_old r s.store {old = old} (rw same stored) in
        let after : Emitting W BasicMessageReceived = record s {
          events = s.events ++ record { message = context.message; verkey = c.verkey } ∷ [];
        } in
        let run : handle_basic_message fresh context s ≡ (ok tt, after) =
          rw (connected, known, present) refl in
        (ap (λ p. p.0) run, ap (λ p. p.1.store) run, ap (λ p. p.1.events) run)
