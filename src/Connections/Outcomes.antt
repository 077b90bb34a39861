-- ===== src/Connections/Outcomes.antt =====
-- What a method that returns has checked, written and announced.
use aries_framework_javascri.Prelude.{
  String, true, none, some, List, [], ◌∷◌, ◌++◌, ◌≡◌, ◌≢◌, refl, eq_iff, truthy, arith, inl, inr,
  Option-cases,
}
use aries_framework_javascri.Exec.{Exec, ok, err, Error, ◌>>=◌, Fresh, bind-ok, require-ok}
use aries_framework_javascri.Storage.Contracts.{IsRepository, KeepsTags-same, by_id}
use aries_framework_javascri.Storage.Updates.{find-update, find-by_id}
use aries_framework_javascri.Agent.Config.{AgentConfig}
use aries_framework_javascri.Agent.Context.{InboundMessageContext}
use aries_framework_javascri.Signature.{unpack_and_verify}
use aries_framework_javascri.Connections.Messages.{
  ConnectionRequestMessage, ConnectionResponseMessage,
}
use aries_framework_javascri.Connections.Record.{
  ConnectionState, invited, requested, responded, inviter, invitee, ConnectionRecord, their_key,
}
use aries_framework_javascri.Connections.Service.{
  ConnectionDeps, Connecting, update_state, create_request, process_request, process_response,
}

module _ {W J : Type 0} (deps : ConnectionDeps W J) (config : AgentConfig) where
  -- A response is accepted only on a connection that this agent requested as invitee, only if the
  -- wallet has verified the signature, only from the key of the invitation, and only if the document
  -- that it brings names a key of the other side, which the record then keeps.
  pub process_response_authentic :
      (context : InboundMessageContext ConnectionResponseMessage) (s : Connecting W)
      {c : ConnectionRecord}
      → (process_response deps config context s).0 ≡ ok c
      → let decorator = context.message.connection_sig in
        let data_bytes = deps.encoder.from_base64 decorator.signature_data in
        let signature = deps.encoder.from_base64 decorator.signature in
        (old : ConnectionRecord) × (context.connection ≡ some old)
        × (old.state ≡ requested)
        × (old.role ≡ invitee)
        × (old.tags.invitation_key ≡ some decorator.signer)
        × ((deps.keys.verify decorator.signer data_bytes signature s.store).0 ≡ ok true)
        × (c.state ≡ responded)
        × (truthy (their_key c) ≡ c.tags.their_key)
        × (c.tags.their_key ≢ none)
  unfolding process_response unpack_and_verify update_state ◌>>=◌
  process_response_authentic context s e = elim (Option-cases context.connection) [
    | inl nobody ↦ absurd (ground arith)
    | inr (old, somebody) ↦ elim (Option-cases old.tags.invitation_key) [
      | inl no_key ↦ absurd (ground arith)
      | inr (key, kept) ↦
          let same = eq_iff context.message.connection_sig.signer key in
          (
            old,
            somebody,
            ground arith,
            ground arith,
            ground (arith, same),
            ground arith,
            ground arith,
            ground arith,
            ground arith,
          )
    ]
  ]

  -- A request is taken only on a connection that this agent offered as inviter and that nobody has
  -- answered. What returns is announced once, with its state before; the record keeps the key of the
  -- requester's document and the request's id as its thread.
  process_request_outcome :
      (context : InboundMessageContext ConnectionRequestMessage) (s : Connecting W)
      {c : ConnectionRecord} {s' : Connecting W}
      → process_request deps config context s ≡ (ok c, s')
      → (old : ConnectionRecord) × (context.connection ≡ some old)
        × (old.state ≡ invited)
        × (old.role ≡ inviter)
        × (c.state ≡ requested)
        × (c.id ≡ old.id)
        × (truthy (their_key c) ≡ c.tags.their_key)
        × (c.tags.thread_id ≡ context.message.base.id)
        × (s'.events ≡ s.events ++ record { changed = c; previous_state = some invited } ∷ [])
  unfolding process_request update_state ◌>>=◌
  process_request_outcome context s e = elim (Option-cases context.connection) [
    | inl nobody ↦ absurd (ground arith)
    | inr (old, somebody) ↦ (
      old,
      somebody,
      ground arith,
      ground arith,
      ground arith,
      ground arith,
      ground arith,
      ground arith,
      ground arith,
    )
  ]

  -- A request that is refused emits no event.
  pub process_request_refused :
      (context : InboundMessageContext ConnectionRequestMessage) (s : Connecting W) {e : Error}
      → (process_request deps config context s).0 ≡ err e
      → (process_request deps config context s).1.events ≡ s.events
  unfolding process_request update_state ◌>>=◌
  process_request_refused context s h = ground arith

module _ {W J : Type 0} (deps : ConnectionDeps W J) (config : AgentConfig)
    (records : W → List ConnectionRecord)
    (law : IsRepository deps.repo (λ c. c.id) (λ c. c.tags) records) where
  stored_after :
      {A : Type 0} (old : ConnectionRecord) (new_state : ConnectionState)
      (g : ConnectionRecord → Exec (Connecting W) (A × ConnectionRecord))
      (keeps : (c' : ConnectionRecord) (s1 : Connecting W) → (a : A) × (g c' s1 ≡ (ok (a, c'), s1)))
      (s : Connecting W) {a : A} {c : ConnectionRecord} {s' : Connecting W}
      → by_id (λ r. r.id) old.id (records s.store) ≡ some old
      → (update_state deps config old new_state >>= g) s ≡ (ok (a, c), s')
      → (deps.repo.find c.id s'.store ≡ (ok c, s'.store)) × (c.state ≡ new_state)
  unfolding update_state ◌>>=◌
  stored_after old new_state g keeps s known done =
      let (written, found) =
        find-update deps.repo (λ r. r.id) (λ r. r.tags) records law
          (record old { state = new_state }) s.store known (KeepsTags-same old.tags) in
      let (_, kept) =
        keeps (record old { state = new_state }) (update_state deps config old new_state s).1 in
      (ground arith, ground arith)

  -- The record that a method finds is in the table, and finding it changes nothing.
  found_known :
      (id : String) (s : Connecting W) {old : ConnectionRecord}
      → (deps.repo.find id s.store).0 ≡ ok old
      → ((deps.repo.find id s.store).1 ≡ s.store)
        × (old.id ≡ id)
        × (by_id (λ r. r.id) old.id (records (deps.repo.find id s.store).1) ≡ some old)
  found_known id s {old} e =
      let (same, same_id, known) =
        find-by_id deps.repo (λ r. r.id) (λ r. r.tags) records law id s.store {r = old}
          {s' = (deps.repo.find id s.store).1} (ground arith) in
      (same, same_id, rw same known)

  -- Over a repository that meets its contract: after a request has been created, the wallet holds
  -- the returned record under its id, in the state requested.
  create_request_stored :
      (fresh : Fresh) (id : String) (s : Connecting W) {m : ConnectionRequestMessage}
      {c : ConnectionRecord} {s' : Connecting W}
      → create_request deps config fresh id s ≡ (ok (m, c), s')
      → (deps.repo.find c.id s'.store ≡ (ok c, s'.store)) × (c.state ≡ requested)
  unfolding create_request
  create_request_stored fresh id s done =
      let (old, found, rest) = bind-ok _ _ s done in
      stored_after old requested _ (λ c' s1. (_, refl)) _ (found_known id s found).2
        (require-ok _ _ _ _ (require-ok _ _ _ _ rest).1).1
