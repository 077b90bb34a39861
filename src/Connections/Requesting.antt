-- ===== src/Connections/Requesting.antt =====
-- modules/connections/services/ConnectionService.ts: the request of an invitee, at its inviter.
use aries_framework_javascri.Prelude.{String, some, List, ◌≡◌, refl, sym, ap, ◌∙◌, truthy}
use aries_framework_javascri.Exec.{ok, Fresh, ◌>>=◌, bind-ok, require-ok, ok-run, returned}
use aries_framework_javascri.Storage.Contracts.{IsRepository, by_id}
use aries_framework_javascri.Agent.Config.{AgentConfig}
use aries_framework_javascri.Agent.Context.{InboundMessageContext}
use aries_framework_javascri.Connections.Messages.{Connection, ConnectionRequestMessage}
use aries_framework_javascri.Connections.Record.{
  invited, requested, inviter, ConnectionRecord, their_key, my_key,
}
use aries_framework_javascri.Connections.Service.{
  ConnectionDeps, Connecting, update_state, create_request, process_request,
}

-- The did and the document that a record tells the other side.
abbrev pub told : ConnectionRecord → Connection
told c = record { did = c.did; did_doc = some c.did_doc }

-- The request that an invitee has made, in what it returned.
create_request-returned :
    {W J : Type 0} (deps : ConnectionDeps W J) (config : AgentConfig) (fresh : Fresh) (id : String)
    (s : Connecting W) {message : ConnectionRequestMessage} {requesting : ConnectionRecord}
    {s' : Connecting W}
    → create_request deps config fresh id s ≡ (ok (message, requesting), s')
    → (requesting.state ≡ requested)
      × (message.connection ≡ some (told requesting))
      × (message.base.id ≡ some fresh.message_id)
unfolding create_request update_state
create_request-returned deps config fresh id s made =
    let (c, _, more) = bind-ok _ _ s made in
    let (_, more) = require-ok _ _ _ _ more in
    let (_, more) = require-ok _ _ _ _ more in
    let (changed, updated, more) = bind-ok _ _ _ more in
    let (_, _, left) = bind-ok _ _ _ (ok-run (update_state deps config c requested) _ updated) in
    let (_, _, left) = bind-ok _ _ _ left in
    let known = record c { state = requested } in
    let same : known ≡ changed = returned left in
    let both = returned more in
    let answered = ap (λ p. p.1) both in
    (
      ap (λ x. x.state) (sym (same ∙ answered)),
      ap (λ p. p.0.connection) (sym both) ∙ ap (λ x. some (told x)) (same ∙ answered),
      ap (λ p. p.0.base.id) (sym both),
    )

module _ {V W J : Type 0} (a : ConnectionDeps V J) (b : ConnectionDeps W J)
    (records : V → List ConnectionRecord)
    (law : IsRepository a.repo (λ c. c.id) (λ c. c.tags) records) where
  -- At an inviter whose repository meets its contract: a request that an invitee has made is
  -- accepted, if it arrives on a stored connection that is Invited and if the invitee's document
  -- names a key. Both records are then Requested, and the inviter knows the did and the key that
  -- the invitee has for this connection, and the request's id as the thread.
  pub create_request-process_request :
      (config_a config_b : AgentConfig) (fresh : Fresh) (id key : String) (t : Connecting W)
      (context : InboundMessageContext ConnectionRequestMessage) (s : Connecting V)
      {requesting inviting stored : ConnectionRecord} {t' : Connecting W}
      → create_request b config_b fresh id t ≡ (ok (context.message, requesting), t')
      → context.connection ≡ some inviting
      → inviting.state ≡ invited
      → inviting.role ≡ inviter
      → by_id (λ c. c.id) inviting.id (records s.store) ≡ some stored
      → truthy (my_key requesting) ≡ some key
      → (c : ConnectionRecord) × ((process_request a config_a context s).0 ≡ ok c)
        × (requesting.state ≡ requested)
        × (c.state ≡ requested)
        × (c.their_did ≡ some requesting.did)
        × (their_key c ≡ my_key requesting)
        × (c.tags.their_key ≡ some key)
        × (c.tags.thread_id ≡ some fresh.message_id)
  unfolding process_request update_state ◌>>=◌
  create_request-process_request config_a config_b fresh id key t context s {requesting} {inviting}
        {stored} made connected state role known keyed =
      let (done, tells, named) = create_request-returned b config_b fresh id t made in
      let theirs = record inviting.tags {
        their_key = some key;
        thread_id = some fresh.message_id;
      } in
      let c : ConnectionRecord = record inviting {
        their_did = some requesting.did;
        their_did_doc = some requesting.did_doc;
        tags = theirs;
        role = inviter;
        state = requested;
      } in
      let (updated, _) = law.update_found c s.store {old = stored} known in
      (
        c,
        rw (connected, state, role, tells, keyed, named, updated) refl,
        done,
        refl,
        refl,
        refl,
        refl,
        refl,
      )
