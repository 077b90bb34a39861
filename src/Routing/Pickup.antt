-- ===== src/Routing/Pickup.antt =====
-- modules/routing/services/MessagePickupService.ts and its handler: the queue that the mediator keeps
-- for a recipient, handed over and emptied.
use aries_framework_javascri.Prelude.{
  ℕ, suc, String, Option, none, some, List, [], ◌∷◌, map, truthy, ◌≡◌, refl, ap,
}
use aries_framework_javascri.Exec.{
  Exec, lift, or_throw, gets, modify, ◌>>=◌, ◌>>◌, Result, no_message_repository, no_their_key,
  connection_not_found,
}
use aries_framework_javascri.Storage.InMemory.{Dict, find_by_verkey, delete_all_by_verkey}
use aries_framework_javascri.Message.{new_message}
use aries_framework_javascri.Agent.Config.{InboundConnection}
use aries_framework_javascri.Agent.Context.{InboundMessageContext, OutboundMessage}
use aries_framework_javascri.Agent.Helpers.{create_outbound_message}
use aries_framework_javascri.Connections.Record.{ConnectionRecord, their_key}
use aries_framework_javascri.Routing.Messages.{
  BatchPickupMessage, BatchMessage, BatchMessageMessage,
}

unfoldable pub batch_pickup :
    String → InboundConnection → Result (OutboundMessage BatchPickupMessage)
batch_pickup id inbound =
    create_outbound_message inbound.connection (record { base = new_message id; batch_size = 10 })
      none

module _ {M : Type 0} where
  -- `uuid n` is the id of the n-th message of the batch.
  unfoldable pub batch_messages : (ℕ → String) → ℕ → List M → List (BatchMessageMessage M)
  batch_messages uuid n [] = []
  batch_messages uuid n (m ∷ messages) =
      record { id = uuid n; message = m } ∷ batch_messages uuid (suc n) messages

  pub batch_messages-message :
      (uuid : ℕ → String) (n : ℕ) (messages : List M)
      → map (λ (m : BatchMessageMessage M). m.message) (batch_messages uuid n messages) ≡ messages
  unfolding batch_messages
  batch_messages-message uuid n [] = refl
  batch_messages-message uuid n (m ∷ messages) =
      ap (λ ms. m ∷ ms) (batch_messages-message uuid (suc n) messages)

  -- The repository is in memory; an agent without one has `none`.
  unfoldable pub batch :
      String
      → (uuid : ℕ → String) → ConnectionRecord
      → Exec (Option (Dict (List M))) (OutboundMessage (BatchMessage M))
  unfolding batch_messages
  batch id uuid connection = do
    stored ← gets (λ s. s)
    repository ← or_throw stored no_message_repository
    key ← or_throw (truthy (their_key connection)) no_their_key
    let messages = batch_messages uuid 0 (find_by_verkey key repository)
    modify (λ _. some (delete_all_by_verkey key repository))
    lift (
        create_outbound_message connection (record { base = new_message id; messages = messages })
          none)

  unfoldable pub handle_pickup :
      String
      → (uuid : ℕ → String) → InboundMessageContext BatchPickupMessage
      → Exec (Option (Dict (List M))) (OutboundMessage (BatchMessage M))
  handle_pickup id uuid context = do
    connection ← or_throw context.connection connection_not_found
    batch id uuid connection
