-- ===== src/Credentials/Threads.antt =====
-- modules/credentials/services/CredentialService.ts: what `processProposal` leaves in the wallet.
use aries_framework_javascri.Prelude.{
  String, Bool, true, false, none, some, List, [], ◌∷◌, ◌++◌, filter, filter-append, ◌==◌, ◌≡◌,
  refl, arith, eq_iff, Bool-cases, inl, inr, ap, ◌⊎◌, ◌∙◌,
}
use aries_framework_javascri.Exec.{
  ok, err, ◌>>=◌, Fresh, try_catch, handled, multiple_records, Error, invalid_state,
  wrong_connection,
}
use aries_framework_javascri.Storage.{by_thread_id, matches}
use aries_framework_javascri.Storage.Contracts.{IsRepository, KeepsTags-same, by_id, change}
use aries_framework_javascri.Message.{thread_id}
use aries_framework_javascri.Agent.Context.{InboundMessageContext}
use aries_framework_javascri.Connections.Record.{ConnectionRecord, is_ready}
use aries_framework_javascri.Credentials.Messages.{ProposeCredentialMessage}
use aries_framework_javascri.Credentials.Record.{
  CredentialRecord, offer_sent, proposal_received, same_state,
}
use aries_framework_javascri.Credentials.Service.{
  CredentialDeps, Issuing, new_record, ready_connection, update_state, save_new, get_by_thread_id,
  single,
}
use aries_framework_javascri.Credentials.Receiving.{known_proposal, new_proposal, process_proposal}

module _ {W J : Type 0} (deps : CredentialDeps W J) (records : W → List (CredentialRecord J))
    (law : IsRepository deps.repo (λ r. r.id) (λ r. r.tags) records) where
  -- The records of a thread.
  abbrev pub of_thread : String → W → List (CredentialRecord J)
  of_thread thread w = filter (λ r. matches (by_thread_id (some thread)) r.tags) (records w)

  pub get_by_thread_id_found :
      (thread : String) (s : Issuing W J)
      → get_by_thread_id deps (some thread) s ≡ single (of_thread thread s.store) s
  unfolding get_by_thread_id ◌>>=◌ single
  get_by_thread_id_found thread s =
      rw (law.find_by_query_lem (by_thread_id (some thread)) s.store) refl

  process_proposal_ready :
      (fresh : Fresh) (context : InboundMessageContext ProposeCredentialMessage) (s : Issuing W J)
      {c : ConnectionRecord}
      → context.connection ≡ some c
      → is_ready c ≡ true
      → process_proposal deps fresh context s
        ≡ try_catch
            (known_proposal deps c context.message)
            (new_proposal deps fresh c context.message)
            s
  unfolding process_proposal ready_connection ◌>>=◌
  process_proposal_ready fresh context s connected ready = rw (connected, ready) refl

  -- The `try` block, where the thread has one record.
  known_proposal_taken :
      (c : ConnectionRecord) (m : ProposeCredentialMessage) (s : Issuing W J) {thread : String}
      {r : CredentialRecord J}
      → thread_id m.base ≡ some thread
      → of_thread thread s.store ≡ r ∷ []
      → r.state ≡ offer_sent
      → r.connection_id ≡ c.id
      → known_proposal deps c m s
        ≡ update_state deps (record r { proposal_message = some m }) proposal_received s
  unfolding known_proposal single ◌>>=◌
  known_proposal_taken c m s {thread} threaded found state same =
      rw (threaded, get_by_thread_id_found thread s, found, state, (eq_iff _ _).1 same) refl

  known_proposal_refused :
      (c : ConnectionRecord) (m : ProposeCredentialMessage) (s : Issuing W J) {thread : String}
      {r : CredentialRecord J}
      → thread_id m.base ≡ some thread
      → of_thread thread s.store ≡ r ∷ []
      → (same_state r.state offer_sent ≡ false) ⊎ (¬ (r.connection_id ≡ c.id))
      → (e : Error) × (known_proposal deps c m s ≡ (err e, s))
  unfolding known_proposal single ◌>>=◌
  known_proposal_refused c m s {thread} {r} threaded found wrong =
      elim (Bool-cases (same_state r.state offer_sent)) [
        | inl state ↦ elim wrong [
          | inl h ↦ absurd (ground (arith, h))
          | inr h ↦ elim (Bool-cases (r.connection_id == c.id)) [
            | inl same ↦ absurd (h ((eq_iff _ _).0 same))
            | inr differ ↦ (
              wrong_connection,
              rw (threaded, get_by_thread_id_found thread s, found, state, differ) refl,
            )
          ]
        ]
        | inr state ↦
            (invalid_state, rw (threaded, get_by_thread_id_found thread s, found, state) refl)
      ]

  -- Over a repository that meets its contract: a proposal from a ready connection on a thread whose
  -- one record, stored under its id, is in the state OfferSent and belongs to the connection is taken
  -- into that record. The record is returned in the state ProposalReceived and written, no record is
  -- added, and one event says so.
  process_proposal_known :
      (fresh : Fresh) (context : InboundMessageContext ProposeCredentialMessage) (s : Issuing W J)
      (thread : String) (c : ConnectionRecord) (r : CredentialRecord J)
      → context.connection ≡ some c
      → is_ready c ≡ true
      → thread_id context.message.base ≡ some thread
      → of_thread thread s.store ≡ r ∷ []
      → by_id (λ x. x.id) r.id (records s.store) ≡ some r
      → r.state ≡ offer_sent
      → r.connection_id ≡ c.id
      → let changed = record r {
        proposal_message = some context.message;
        state = proposal_received;
      } in
        let (out, s') = process_proposal deps fresh context s in
        (out ≡ ok changed)
        × (records s'.store ≡ change (λ x. x.id) r.id (λ _. changed) (records s.store))
        × (s'.events
            ≡ s.events ++ record { changed = changed; previous_state = some offer_sent } ∷ [])
  unfolding process_proposal known_proposal ready_connection update_state single ◌>>=◌
  process_proposal_known fresh context s thread c r connected ready threaded found stored state
        same =
      let changed : CredentialRecord J = record r {
        proposal_message = some context.message;
        state = proposal_received;
      } in
      let (out, after) = law.update_found changed s.store stored in
      let run =
        ap (λ p. handled p.0 (new_proposal deps fresh c context.message) p.1)
          (known_proposal_taken c context.message s threaded found state same) in
      rw (process_proposal_ready fresh context s connected ready, run, out)
        (
          refl,
          after (KeepsTags-same r.tags),
          ap (λ x. s.events ++ record { changed = changed; previous_state = some x } ∷ []) state,
        )

  filter-two :
      (p : CredentialRecord J → Bool) (l : List (CredentialRecord J)) (r n : CredentialRecord J)
      → filter p l ≡ r ∷ []
      → p n ≡ true
      → filter p (l ++ n ∷ []) ≡ r ∷ n ∷ []
  filter-two p l r n one hit = filter-append p l (n ∷ []) ∙ (rw (one, hit) refl)

  -- Over a repository that meets its contract: a proposal from a ready connection on a thread whose
  -- one record is in another state than OfferSent, or belongs to another connection, is not refused.
  -- Where the id for a new record is not taken, a second record of the thread is saved and returned,
  -- and from then on a lookup of the thread throws that there are several.
  pub process_proposal_second :
      (fresh : Fresh) (context : InboundMessageContext ProposeCredentialMessage) (s : Issuing W J)
      (thread : String) (c : ConnectionRecord) (r : CredentialRecord J)
      → context.connection ≡ some c
      → is_ready c ≡ true
      → thread_id context.message.base ≡ some thread
      → of_thread thread s.store ≡ r ∷ []
      → by_id (λ x. x.id) fresh.record_id (records s.store) ≡ none
      → (same_state r.state offer_sent ≡ false) ⊎ (¬ (r.connection_id ≡ c.id))
      → let (out, s') = process_proposal deps fresh context s in
        (n : CredentialRecord J) × (out ≡ ok n)
        × (records s'.store ≡ records s.store ++ n ∷ [])
        × (n.connection_id ≡ c.id)
        × ((get_by_thread_id deps (some thread) s').0 ≡ err multiple_records)
  unfolding new_proposal save_new single ◌>>=◌
  process_proposal_second fresh context s thread c r connected ready threaded found unused wrong =
      let fields : CredentialRecord J =
        new_record fresh c.id proposal_received (thread_id context.message.base) in
      let n : CredentialRecord J = record fields { proposal_message = some context.message } in
      let (e, refused) = known_proposal_refused c context.message s threaded found wrong in
      let (out, after) = law.save_new n s.store unused in
      let run =
        process_proposal_ready fresh context s connected ready
        ∙ ap (λ p. handled p.0 (new_proposal deps fresh c context.message) p.1) refused in
      let p : CredentialRecord J → Bool = λ x. matches (by_thread_id (some thread)) x.tags in
      let stored : records (process_proposal deps fresh context s).1.store
          ≡ records s.store ++ n ∷ [] =
        rw (run, out) after in
      let hit : p n ≡ true = rw threaded ((eq_iff thread thread).1 refl) in
      let two : of_thread thread (process_proposal deps fresh context s).1.store ≡ r ∷ n ∷ [] =
        ap (filter p) stored ∙ filter-two p (records s.store) r n found hit in
      (
        n,
        rw (run, out) refl,
        stored,
        refl,
        rw (get_by_thread_id_found thread (process_proposal deps fresh context s).1, two) refl,
      )
