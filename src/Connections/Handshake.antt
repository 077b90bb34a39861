-- ===== src/Connections/Handshake.antt =====
-- modules/connections/services/ConnectionService.ts: the response of an inviter, at its invitee.
use aries_framework_javascri.Prelude.{
  ℕ, String, true, some, List, ◌++◌, ◌≡◌, refl, sym, ap, subst, ◌∙◌, truthy, eq_iff,
}
use aries_framework_javascri.Exec.{ok, Fresh, ◌>>=◌, bind-ok, require-ok, ok-run, returned}
use aries_framework_javascri.Storage.Contracts.{IsRepository, by_id}
use aries_framework_javascri.Message.{thread_id}
use aries_framework_javascri.Agent.Config.{AgentConfig}
use aries_framework_javascri.Agent.Context.{InboundMessageContext}
use aries_framework_javascri.Signature.{sign_data, unpack_and_verify, timestamp}
use aries_framework_javascri.Signature.RoundTrip.{drop-timestamp}
use aries_framework_javascri.Connections.Messages.{ConnectionResponseMessage, SignatureDecorator}
use aries_framework_javascri.Connections.Record.{
  requested, responded, invitee, ConnectionRecord, their_key, my_key,
}
use aries_framework_javascri.Connections.Service.{
  ConnectionDeps, Connecting, update_state, create_response, process_response,
}
use aries_framework_javascri.Connections.Requesting.{told}

-- The second agent reads what the first one writes, and its wallet accepts the signatures that the
-- wallet of the first one makes.
pub record IsPeer {V W J : Type 0} (a : ConnectionDeps V J) (b : ConnectionDeps W J) : Type 0 where
  pub base64_lem : (bytes : List ℕ) → b.encoder.from_base64 (a.encoder.to_base64_url bytes) ≡ bytes
  pub buffer_lem : (j : J) → b.encoder.from_buffer (a.encoder.to_buffer j) ≡ ok j
  pub verify_lem :
      (bytes signature : List ℕ) (key : String) (v v' : V) (w : W)
      → a.keys.sign bytes key v ≡ (ok signature, v')
      → b.keys.verify key bytes signature w ≡ (ok true, w)

module _ {V W J : Type 0} (a : ConnectionDeps V J) (b : ConnectionDeps W J)
    (peer : IsPeer a b) where
  unpack-sign_peer :
      (now : ℕ) (payload : J) (key : String) (v : V) (w : W) {decorator : SignatureDecorator}
      {v' : V}
      → sign_data a.keys a.encoder now payload key v ≡ (ok decorator, v')
      → (decorator.signer ≡ key)
        × (unpack_and_verify b.keys b.encoder decorator w ≡ (ok payload, w))
  unfolding sign_data unpack_and_verify ◌>>=◌
  unpack-sign_peer now payload key v w {decorator} made =
      let bytes = timestamp now ++ a.encoder.to_buffer payload in
      let (signature, signed, more) = bind-ok (a.keys.sign bytes key) _ v made in
      let verified =
        peer.verify_lem bytes signature key v _ w (ok-run (a.keys.sign bytes key) v signed) in
      let written : SignatureDecorator = record {
        signature_type = "https://didcomm.org/signature/1.0/ed25519Sha512_single";
        signature_data = a.encoder.to_base64_url bytes;
        signer = key;
        signature = a.encoder.to_base64_url signature;
      } in
      let same : written ≡ decorator = returned more in
      let reads : unpack_and_verify b.keys b.encoder written w ≡ (ok payload, w) =
        rw
          (
            peer.base64_lem bytes,
            peer.base64_lem signature,
            verified,
            drop-timestamp now (a.encoder.to_buffer payload),
            peer.buffer_lem payload,
          )
          refl in
      (
        ap (λ d. d.signer) (sym same),
        subst (λ d. unpack_and_verify b.keys b.encoder d w ≡ (ok payload, w)) same reads,
      )

  -- The wallet signed, with the record's key, what the record tells.
  abbrev Signed : ℕ → SignatureDecorator → ConnectionRecord → Type 0
  Signed now decorator c =
      (v : V) × (v' : V) × (sign_data a.keys a.encoder now (a.to_json (told c)) c.verkey v
        ≡ (ok decorator, v'))

  -- What the inviter signed in a response that it made.
  create_response-Signed :
      (config : AgentConfig) (fresh : Fresh) (id : String) (s : Connecting V)
      {message : ConnectionResponseMessage} {inviting : ConnectionRecord} {s' : Connecting V}
      → create_response a config fresh id s ≡ (ok (message, inviting), s')
      → (inviting.state ≡ responded) × Signed fresh.now message.connection_sig inviting
  unfolding create_response update_state
  create_response-Signed config fresh id s {message} {inviting} made =
      let (c, _, more) = bind-ok _ _ s made in
      let (_, more) = require-ok _ _ _ _ more in
      let (_, more) = require-ok _ _ _ _ more in
      let (decorator, signing, more) = bind-ok _ _ _ more in
      let (changed, updated, more) = bind-ok _ _ _ more in
      let (_, _, left) = bind-ok _ _ _ (ok-run (update_state a config c responded) _ updated) in
      let (_, _, left) = bind-ok _ _ _ left in
      let known = record c { state = responded } in
      let same : known ≡ changed = returned left in
      let both = returned more in
      let answered : changed ≡ inviting = ap (λ p. p.1) both in
      let carried : decorator ≡ message.connection_sig = ap (λ p. p.0.connection_sig) both in
      let run =
        ok-run (sign_data a.keys a.encoder fresh.now (a.to_json (told c)) c.verkey) _ signing in
      let signed : Signed fresh.now decorator known = (_, _, run) in
      (
        ap (λ x. x.state) (sym (same ∙ answered)),
        subst (λ d. Signed fresh.now d inviting) carried
            (subst (Signed fresh.now decorator) (same ∙ answered) signed),
      )

  module _ (records : W → List ConnectionRecord)
      (law : IsRepository b.repo (λ c. c.id) (λ c. c.tags) records) where
    -- Between agents that read each other, with an invitee whose repository meets its contract: a
    -- response that an inviter has made is accepted by the invitee, if it answers a stored
    -- connection that is Requested and came from an invitation with the inviter's key, and if what
    -- the inviter tells is read back from its JSON, is valid and names a key. Both records are then Responded, and the
    -- invitee knows the did and the key that the inviter has for this connection.
    pub create_response-process_response :
        (config_a config_b : AgentConfig) (fresh : Fresh) (id key : String) (s : Connecting V)
        (context : InboundMessageContext ConnectionResponseMessage) (t : Connecting W)
        {inviting asking stored : ConnectionRecord} {s' : Connecting V}
        → create_response a config_a fresh id s ≡ (ok (context.message, inviting), s')
        → context.connection ≡ some asking
        → asking.state ≡ requested
        → asking.role ≡ invitee
        → asking.tags.invitation_key ≡ some inviting.verkey
        → by_id (λ c. c.id) asking.id (records t.store) ≡ some stored
        → b.from_json (a.to_json (told inviting)) ≡ told inviting
        → b.is_valid (told inviting) ≡ true
        → truthy (my_key inviting) ≡ some key
        → (c : ConnectionRecord) × ((process_response b config_b context t).0 ≡ ok c)
          × (inviting.state ≡ responded)
          × (c.state ≡ responded)
          × (c.their_did ≡ some inviting.did)
          × (their_key c ≡ my_key inviting)
          × (c.tags.their_key ≡ some key)
    unfolding process_response update_state ◌>>=◌
    create_response-process_response config_a config_b fresh id key s context t {inviting} {asking}
          {stored} made connected state role invitation known read valid keyed =
        let (done, (v, v', signed)) = create_response-Signed config_a fresh id s made in
        let (signer, opened) =
          unpack-sign_peer fresh.now (a.to_json (told inviting)) inviting.verkey v t.store signed in
        let theirs = record asking.tags {
          invitation_key = some inviting.verkey;
          their_key = some key;
          thread_id = thread_id context.message.base;
        } in
        let c : ConnectionRecord = record asking {
          their_did = some inviting.did;
          their_did_doc = some inviting.did_doc;
          tags = theirs;
          role = invitee;
          state = responded;
        } in
        let (updated, _) = law.update_found c t.store {old = stored} known in
        let same_signer = (eq_iff context.message.connection_sig.signer inviting.verkey).1 signer in
        (
          c,
          rw (connected, state, role, opened, read, valid, invitation, same_signer, keyed, updated)
              refl,
          done,
          refl,
          refl,
          refl,
          refl,
        )
