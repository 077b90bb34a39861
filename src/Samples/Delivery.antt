-- ===== src/Samples/Delivery.antt =====
-- samples/mediator.ts with modules/routing: what the mediator stores for a recipient reaches it.
use aries_framework_javascri.Prelude.{
  ℕ, String, some, List, [], ◌∷◌, ◌++◌, ◌==◌, ◌≡◌, refl, ◌∙◌, map, truthy, eq_iff, if◌then◌else◌,
  arith,
}
use aries_framework_javascri.Exec.{ok, ◌>>=◌}
use aries_framework_javascri.Storage.InMemory.{
  Dict, find_by_verkey, save_message, find_by_verkey-save_message,
}
use aries_framework_javascri.Agent.Context.{OutboundMessage}
use aries_framework_javascri.Agent.Envelope.{OutboundPackage}
use aries_framework_javascri.Connections.Record.{their_key}
use aries_framework_javascri.Routing.Messages.{BatchMessage, BatchMessageMessage}
use aries_framework_javascri.Routing.Pickup.{batch}
use aries_framework_javascri.Routing.Queues.{batch-queue}
use aries_framework_javascri.Samples.Mediator.{send_message, store_message}

module _ {J : Type 0} where
  -- A message that the mediator's transporter takes for a connection with a key, and a pickup by
  -- that connection: the batch holds what was queued for the key before and this message, in this
  -- order. Afterwards the queue of the key is empty, and the queues of other keys are as they were
  -- before both.
  pub batch-send_message :
      (outbound : OutboundPackage J) (messages : Dict (List J)) (id : String) (uuid : ℕ → String)
      (key other : String)
      → truthy (their_key outbound.connection) ≡ some key
      → (stored : Dict (List J)) × (m : OutboundMessage (BatchMessage J)) × (later : Dict (List J))
        × (send_message outbound messages ≡ (ok tt, stored))
        × (batch id uuid outbound.connection (some stored) ≡ (ok m, some later))
        × (map (λ (x : BatchMessageMessage J). x.message) m.payload.messages
            ≡ find_by_verkey key messages ++ outbound.payload ∷ [])
        × (find_by_verkey other later
            ≡ (if key == other then [] else find_by_verkey other messages))
  unfolding send_message store_message ◌>>=◌
  batch-send_message outbound messages id uuid key other known =
      let stored = save_message key outbound.payload messages in
      let (m, later, handed, _, carried, left) =
        batch-queue id uuid outbound.connection stored key other known in
      let queued = find_by_verkey-save_message key key outbound.payload messages in
      (
        stored,
        m,
        later,
        rw known refl,
        handed,
        carried ∙ queued ∙ (rw ((eq_iff key key).1 refl) refl),
        ground (arith, left, find_by_verkey-save_message key other outbound.payload messages),
      )
