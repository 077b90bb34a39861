-- ===== src/Agent/Sending.antt =====
-- How a module sends what its service has made: `createOutboundMessage` (agent/helpers.ts), then
-- `sendMessage` of the message sender. The sender is an interface of the modules; `message_sender`
-- is MessageSender over an envelope service and a transport.
use aries_framework_javascri.Prelude.{ℕ, String, none}
use aries_framework_javascri.Exec.{Exec, lift, ◌>>=◌}
use aries_framework_javascri.Connections.Record.{ConnectionRecord}
use aries_framework_javascri.Agent.Context.{OutboundMessage}
use aries_framework_javascri.Agent.Helpers.{create_outbound_message}
use aries_framework_javascri.Agent.Envelope.{Envelopes, OutboundPackage, send_message}

-- The sender of the messages `M` of a module, over a wallet with state `W`.
pub record Sender (W M : Type 0) : Type 0 where
  pub send : OutboundMessage M → Exec W Unit

abbrev pub message_sender :
    {W J M : Type 0}
    → Envelopes W J
    → (uuid : ℕ → String) → (to_json : M → J) → (transport : OutboundPackage J → Exec W Unit)
    → Sender W M
message_sender envelopes uuid to_json transport = record {
  send = λ outbound. send_message envelopes uuid to_json transport outbound;
}

unfoldable pub send_to : {W M : Type 0} → Sender W M → ConnectionRecord → M → Exec W Unit
send_to sender connection message = do
  outbound ← lift (create_outbound_message connection message none)
  sender.send outbound
