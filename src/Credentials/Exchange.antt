-- ===== src/Credentials/Exchange.antt =====
-- modules/credentials/services/CredentialService.ts: the request of a holder, at its issuer.
use aries_framework_javascri.Prelude.{
  String, true, Option, some, List, [], ◌∷◌, ◌≡◌, refl, sym, ap, ◌∙◌, eq_iff,
}
use aries_framework_javascri.Exec.{
  ok, Fresh, ◌>>=◌, bind-ok, require-ok, or_throw-ok, ok-run, returned,
}
use aries_framework_javascri.Storage.Contracts.{IsRepository, KeepsTags-same, by_id, change}
use aries_framework_javascri.Message.{new_message, set_thread, thread_id}
use aries_framework_javascri.Attachment.{json_attachment}
use aries_framework_javascri.Attachment.RoundTrip.{Reads, indy_attachment-json}
use aries_framework_javascri.Agent.Context.{InboundMessageContext}
use aries_framework_javascri.Connections.Record.{ConnectionRecord, is_ready}
use aries_framework_javascri.Credentials.Messages.{
  RequestCredentialMessage, request_attachment_id, indy_credential_request,
}
use aries_framework_javascri.Credentials.Record.{
  CredentialRecord, CredentialState, offer_sent, request_sent, request_received,
}
use aries_framework_javascri.Credentials.Service.{
  CredentialDeps, Issuing, ready_connection, update_state, create_request, single,
}
use aries_framework_javascri.Credentials.Receiving.{process_request}
use aries_framework_javascri.Credentials.Threads.{of_thread, get_by_thread_id_found}

module _ {W J : Type 0} (deps : CredentialDeps W J) where
  -- What `updateState` returned.
  pub update_state-returned :
      (r : CredentialRecord J) (state : CredentialState) (s : Issuing W J)
      {changed : CredentialRecord J}
      → (update_state deps r state s).0 ≡ ok changed
      → record r { state = state } ≡ changed
  unfolding update_state
  update_state-returned r state s {changed} updated =
      let (_, _, left) = bind-ok _ _ _ (ok-run (update_state deps r state) s updated) in
      let (_, _, left) = bind-ok _ _ _ left in returned left

  abbrev RequestOf : Fresh → CredentialRecord J → Option String → J → RequestCredentialMessage
  RequestOf fresh r comment request = record {
    base = set_thread r.tags.thread_id (new_message fresh.message_id);
    comment = comment;
    attachments = json_attachment deps.codec request_attachment_id request ∷ [];
  }

  -- The message that `createRequest` returned, and the record that goes with it.
  create_request-returned :
      (fresh : Fresh) (r : CredentialRecord J) (comment : Option String) (s : Issuing W J)
      {message : RequestCredentialMessage} {asking : CredentialRecord J} {s' : Issuing W J}
      → create_request deps fresh r comment s ≡ (ok (message, asking), s')
      → (request : J) × (RequestOf fresh r comment request ≡ message)
        × (asking.state ≡ request_sent)
        × (asking.request_message ≡ some message)
  unfolding create_request
  create_request-returned fresh r comment s {message} {asking} made =
      let (_, more) = require-ok _ _ _ s made in
      let (c, _, more) = bind-ok _ _ _ more in
      let (stored, _, more) = or_throw-ok _ _ _ _ more in
      let (decoded, _, more) = bind-ok _ _ _ more in
      let (offer, _, more) = or_throw-ok _ _ _ _ more in
      let (definition, _, more) = bind-ok _ _ _ more in
      let ((request, metadata), _, more) = bind-ok _ _ _ more in
      let (changed, updated, more) = bind-ok _ _ _ more in
      let same = update_state-returned _ request_sent _ updated in
      let both = returned more in
      let sent = ap (λ p. p.0) both in
      (
        request,
        sent,
        ap (λ p. p.1.state) (sym both) ∙ ap (λ x. x.state) (sym same),
        ap (λ p. p.1.request_message) (sym both)
            ∙ ap (λ x. x.request_message) (sym same)
            ∙ ap some sent,
      )

module _ {V W J : Type 0} (holder : CredentialDeps V J) (issuer : CredentialDeps W J)
    (reads : Reads holder.codec issuer.codec) (records : W → List (CredentialRecord J))
    (law : IsRepository issuer.repo (λ r. r.id) (λ r. r.tags) records) where
  -- At an issuer that reads what the holder writes, with a repository that meets its contract: a
  -- request that a holder's createRequest returned is accepted, if it arrives on a ready connection
  -- and the issuer has one record of its thread, stored under its id, in the state OfferSent, of this
  -- connection. The holder's record is then RequestSent, the issuer's RequestReceived, both hold the
  -- request, and the issuer's repository has the returned record in place of the old one.
  pub process_request-create_request :
      (fresh : Fresh) (r : CredentialRecord J) (comment : Option String) (t : Issuing V J)
      (context : InboundMessageContext RequestCredentialMessage) (s : Issuing W J) (thread : String)
      (c : ConnectionRecord) (offered : CredentialRecord J) {asking : CredentialRecord J}
      {t' : Issuing V J}
      → create_request holder fresh r comment t ≡ (ok (context.message, asking), t')
      → r.tags.thread_id ≡ some thread
      → context.connection ≡ some c
      → is_ready c ≡ true
      → of_thread issuer records law thread s.store ≡ offered ∷ []
      → by_id (λ x. x.id) offered.id (records s.store) ≡ some offered
      → offered.state ≡ offer_sent
      → offered.connection_id ≡ c.id
      → let asked = record offered {
        request_message = some context.message;
        state = request_received;
      } in
        let (out, s') = process_request issuer context s in
        (out ≡ ok asked)
        × (records s'.store ≡ change (λ x. x.id) offered.id (λ _. asked) (records s.store))
        × (asking.state ≡ request_sent)
        × (asking.request_message ≡ some context.message)
  unfolding process_request ready_connection update_state single ◌>>=◌
  process_request-create_request fresh r comment t context s thread c offered {asking} made threaded
        connected ready found stored state same =
      let (request, written, done, kept) = create_request-returned holder fresh r comment t made in
      let asked : CredentialRecord J = record offered {
        request_message = some context.message;
        state = request_received;
      } in
      let named : thread_id context.message.base ≡ some thread =
        ap (λ m. thread_id m.base) (sym written) ∙ rw threaded refl in
      let decoded : indy_credential_request issuer.codec context.message ≡ ok (some request) =
        ap (indy_credential_request issuer.codec) (sym written)
        ∙ indy_attachment-json holder.codec issuer.codec reads request_attachment_id request in
      let (out, after) = law.update_found asked s.store stored in
      rw
        (
          connected,
          ready,
          decoded,
          named,
          get_by_thread_id_found issuer records law thread s,
          found,
          state,
          (eq_iff _ _).1 same,
          out,
        )
        (refl, after (KeepsTags-same offered.tags), done, kept)
