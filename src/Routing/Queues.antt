-- ===== src/Routing/Queues.antt =====
-- modules/routing/services/MessagePickupService.ts: what a batch hands over.
use aries_framework_javascri.Prelude.{
  ℕ, String, some, List, [], ◌==◌, map, truthy, first, ap, ◌∙◌, ◌≡◌, if◌then◌else◌,
}
use aries_framework_javascri.Exec.{ok, ◌>>=◌}
use aries_framework_javascri.Storage.InMemory.{
  Dict, find_by_verkey, delete_all_by_verkey, find_by_verkey-delete_all,
}
use aries_framework_javascri.Agent.Context.{OutboundMessage}
use aries_framework_javascri.Connections.Record.{ConnectionRecord, their_key}
use aries_framework_javascri.Message.{new_message}
use aries_framework_javascri.Agent.Helpers.{create_outbound_message-Reaches}
use aries_framework_javascri.Routing.Messages.{BatchMessage, BatchMessageMessage}
use aries_framework_javascri.Routing.Pickup.{batch, batch_messages, batch_messages-message}

module _ {M : Type 0} where
  -- A connection with a key gets a batch: it is addressed to that key and holds the messages queued
  -- for it, oldest first; afterwards that queue is empty and the queues of other keys are as before.
  pub batch-queue :
      (id : String) (uuid : ℕ → String) (c : ConnectionRecord) (repository : Dict (List M))
      (key other : String)
      → truthy (their_key c) ≡ some key
      → (m : OutboundMessage (BatchMessage M)) × (after : Dict (List M)) × (batch id uuid c
            (some repository)
          ≡ (ok m, some after))
        × (first m.recipient_keys ≡ some key)
        × (map (λ (x : BatchMessageMessage M). x.message) m.payload.messages
            ≡ find_by_verkey key repository)
        × (find_by_verkey other after
            ≡ (if key == other then [] else find_by_verkey other repository))
  unfolding batch ◌>>=◌
  batch-queue id uuid c repository key other known =
      let payload : BatchMessage M = record {
        base = new_message id;
        messages = batch_messages uuid 0 (find_by_verkey key repository);
      } in
      let (m, sent, same, to_key) = create_outbound_message-Reaches c payload key known in
      (
        m,
        delete_all_by_verkey key repository,
        rw known (ap (λ r. (r, some (delete_all_by_verkey key repository))) sent),
        to_key,
        ap (λ p. map (λ (x : BatchMessageMessage M). x.message) p.messages) same
            ∙ batch_messages-message uuid 0 (find_by_verkey key repository),
        find_by_verkey-delete_all key other repository,
      )
