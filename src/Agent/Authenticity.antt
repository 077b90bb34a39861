-- ===== src/Agent/Authenticity.antt =====
-- agent/MessageReceiver.ts: which connection a handler is given.
use aries_framework_javascri.Prelude.{
  String, Option, none, some, ◌==◌, ◌≡◌, ap, truthy, arith, eq_iff, inl, inr, Bool-cases,
  Option-cases, ◌⊎◌, none,
}
use aries_framework_javascri.Exec.{ok, Exec, bind-ok}
use aries_framework_javascri.Connections.Record.{ConnectionRecord, their_key}
use aries_framework_javascri.Agent.Context.{InboundMessageContext, inbound_message_context}
use aries_framework_javascri.Agent.Envelope.{UnpackedMessage}
use aries_framework_javascri.Agent.Receiver.{
  Receiving, unpack_message, known_connection, check_sender, matches_sender, receive,
}

module _ {S M J : Type 0} (deps : Receiving S M J) where
  -- No connection, or one whose key is unknown or is that of the sender.
  Accepts : Option String → Option ConnectionRecord → Type 0
  Accepts sender found =
      (found ≡ none)
      ⊎ ((c : ConnectionRecord) × (found ≡ some c)
          × ((their_key c ≡ none) ⊎ (sender ≡ their_key c)))

  check_sender-Accepts :
      (sender : String) (found : Option ConnectionRecord) (s : S)
      {checked : Option ConnectionRecord} {s' : S}
      → check_sender deps sender found s ≡ (ok checked, s')
      → Accepts (some sender) checked
  unfolding check_sender matches_sender Accepts
  check_sender-Accepts sender none s e = inl (ground arith)
  check_sender-Accepts sender (some d) s {checked} {s'} e = elim (Option-cases (their_key d)) [
    | inl unknown ↦ inr (d, ground (arith, unknown, e), inl unknown)
    | inr (key, known) ↦ elim (Bool-cases (key == sender)) [
      | inl same ↦
          inr (
            d,
            ground (arith, known, same, e),
            inr (ground (arith, known, same, eq_iff key sender)),
          )
      | inr differ ↦ absurd (ground (arith, known, differ, e))
    ]
  ]

  known_connection-Accepts :
      (sender recipient : Option String) (s : S) {checked : Option ConnectionRecord} {s' : S}
      → known_connection deps sender recipient s ≡ (ok checked, s')
      → Accepts sender checked
  unfolding known_connection Accepts
  known_connection-Accepts none recipient s e = inl (ground arith)
  known_connection-Accepts (some sender) none s e = inl (ground arith)
  known_connection-Accepts (some sender) (some recipient) s e =
      let (found, _, rest) = bind-ok _ _ s e in check_sender-Accepts sender found _ rest

  -- A message that was dispatched with an outcome was dispatched once, with the context of the
  -- envelope that was opened. The handler got no connection, or one whose key is not known, or one
  -- whose key is the sender's key in the envelope.
  pub receive-authentic :
      {A : Type 0} (dispatch_to : InboundMessageContext M → Exec S A) (packed : J) (s : S) {a : A}
      {s' : S}
      → receive deps dispatch_to packed s ≡ (ok a, s')
      → (unpacked : UnpackedMessage J) × (context : InboundMessageContext M) × (before : S)
        × ((unpack_message deps packed s).0 ≡ ok unpacked)
        × (dispatch_to context before ≡ (ok a, s'))
        × ((context.connection ≡ none)
            ⊎ ((c : ConnectionRecord) × (context.connection ≡ some c)
                × ((their_key c ≡ none) ⊎ (truthy unpacked.sender_verkey ≡ their_key c))))
  unfolding receive Accepts inbound_message_context
  receive-authentic dispatch_to packed s e =
      let (unpacked, opened, rest) = bind-ok _ _ s e in
      let (connection, checked, rest) = bind-ok _ _ _ rest in
      let (message, _, rest) = bind-ok _ _ _ rest in
      (
        unpacked,
        inbound_message_context message connection unpacked.sender_verkey unpacked.recipient_verkey,
        _,
        opened,
        rest,
        known_connection-Accepts (truthy unpacked.sender_verkey) (truthy unpacked.recipient_verkey)
            _
            (ap
              (λ r. (
                r,
                (known_connection deps (truthy unpacked.sender_verkey)
                    (truthy unpacked.recipient_verkey) (unpack_message deps packed s).1).1,
              ))
              checked),
      )
