-- ===== src/Proofs/Presenting.antt =====
-- modules/proofs/services/ProofService.ts: the presentation of a prover, at its verifier.
use aries_framework_javascri.Prelude.{String, Bool, Option, some, [], ◌∷◌, All, ◌≡◌, sym, ap, ◌∙◌}
use aries_framework_javascri.Exec.{
  Exec, ok, Fresh, ◌>>=◌, on_store, bind-ok, require-ok, or_throw-ok, ok-run, returned,
}
use aries_framework_javascri.Message.{new_message, set_thread}
use aries_framework_javascri.Attachment.{json_attachment}
use aries_framework_javascri.Agent.Context.{InboundMessageContext}
use aries_framework_javascri.Proofs.Messages.{PresentationMessage, proof_attachment_id, indy_proof}
use aries_framework_javascri.Proofs.Record.{
  ProofRecord, ProofState, presentation_sent, presentation_received,
}
use aries_framework_javascri.Proofs.Service.{ProofDeps, Proving, update_state, create_presentation}
use aries_framework_javascri.Proofs.Receiving.{process_presentation}
use aries_framework_javascri.Proofs.Verify.{
  ProofTools, IsWellEncoded, verify_proof, verify_proof-encoded,
}

module _ {W J : Type 0} (deps : ProofDeps W J) where
  update_state-returned :
      (r : ProofRecord) (state : ProofState) (s : Proving W) {changed : ProofRecord}
      → (update_state deps r state s).0 ≡ ok changed
      → record r { state = state } ≡ changed
  unfolding update_state
  update_state-returned r state s updated =
      let (_, _, left) = bind-ok _ _ _ (ok-run (update_state deps r state) s updated) in
      let (_, _, left) = bind-ok _ _ _ left in returned left

  abbrev pub PresentationOf : Fresh → ProofRecord → Option String → J → PresentationMessage
  PresentationOf fresh r comment proof = record {
    base = set_thread r.tags.thread_id (new_message fresh.message_id);
    comment = comment;
    attachments = json_attachment deps.codec proof_attachment_id proof ∷ [];
  }

  -- The message that `createPresentation` returned, with a proof that the wallet made, and the
  -- state of the record that goes with it.
  pub create_presentation-returned :
      (fresh : Fresh) (make_proof : J → Exec W J) (r : ProofRecord) (comment : Option String)
      (s : Proving W) {message : PresentationMessage} {presenting : ProofRecord} {s' : Proving W}
      → create_presentation deps fresh make_proof r comment s ≡ (ok (message, presenting), s')
      → (proof : J) × (request : J) × (w : W) × ((make_proof request w).0 ≡ ok proof)
        × (PresentationOf fresh r comment proof ≡ message)
        × (presenting.state ≡ presentation_sent)
  unfolding create_presentation
  create_presentation-returned fresh make_proof r comment s made =
      let (_, more) = require-ok _ _ _ s made in
      let (stored, _, more) = or_throw-ok _ _ _ _ more in
      let (decoded, _, more) = bind-ok _ _ _ more in
      let (request, _, more) = or_throw-ok _ _ _ _ more in
      let (proof, proven, more) = bind-ok (on_store (make_proof request)) _ _ more in
      let (changed, updated, more) = bind-ok _ _ _ more in
      let same = update_state-returned _ presentation_sent _ updated in
      let both = returned more in
      (
        proof,
        request,
        _,
        proven,
        ap (λ p. p.0) both,
        ap (λ p. p.1.state) (sym both) ∙ ap (λ x. x.state) (sym same),
      )

  -- The end of `processPresentation`, where the proof has been read.
  judged :
      (tools : ProofTools W J) (r : ProofRecord) (message : PresentationMessage) (proof request : J)
      (s : Proving W) {received : ProofRecord} {s' : Proving W}
      → (on_store (verify_proof tools proof request) >>= λ is_valid.
            update_state deps
              (record r { is_verified = some is_valid; presentation_message = some message })
              presentation_received)
          s
        ≡ (ok received, s')
      → (verdict : Bool) × All (IsWellEncoded tools) (tools.partial_proof proof).revealed_attributes
        × (received.is_verified ≡ some verdict)
        × (received.state ≡ presentation_received)
        × (received.presentation_message ≡ some message)
  judged tools r message proof request s {received} made =
      let (verdict, checked, more) =
        bind-ok (on_store (verify_proof tools proof request)) _ s made in
      let run = ok-run (verify_proof tools proof request) s.store checked in
      let fields : ProofRecord = record r {
        is_verified = some verdict;
        presentation_message = some message;
      } in
      let same : record fields { state = presentation_received } ≡ received =
        update_state-returned fields presentation_received _ (ap (λ p. p.0) more) in
      (
        verdict,
        (verify_proof-encoded tools proof request s.store run).0,
        ap (λ x. x.is_verified) (sym same),
        ap (λ x. x.state) (sym same),
        ap (λ x. x.presentation_message) (sym same),
      )

  -- Whenever processPresentation returns, with verifyProof as its check, the presentation carried a
  -- proof in which every revealed attribute is the encoding of its raw value, and the record that it
  -- returns is PresentationReceived, with a verdict and the presentation.
  pub process_presentation-IsWellEncoded :
      (tools : ProofTools W J) (context : InboundMessageContext PresentationMessage) (s : Proving W)
      {received : ProofRecord} {s' : Proving W}
      → process_presentation deps (verify_proof tools) context s ≡ (ok received, s')
      → (proof : J) × (indy_proof deps.codec context.message ≡ ok (some proof))
        × (verdict : Bool) × All
            (IsWellEncoded tools)
            (tools.partial_proof proof).revealed_attributes
        × (received.is_verified ≡ some verdict)
        × (received.state ≡ presentation_received)
        × (received.presentation_message ≡ some context.message)
  unfolding process_presentation
  process_presentation-IsWellEncoded tools context s made =
      let (_, _, more) = bind-ok _ _ s made in
      let (r, _, more) = bind-ok _ _ _ more in
      let (_, more) = require-ok _ _ _ _ more in
      let (decoded, reads, more) = bind-ok _ _ _ more in
      let (stored, _, more) = or_throw-ok _ _ _ _ more in
      let (request_json, _, more) = bind-ok _ _ _ more in
      let (proof, is_proof, more) = or_throw-ok _ _ _ _ more in
      let (request, _, more) = or_throw-ok _ _ _ _ more in
      let (verdict, encoded, verified, state, kept) =
        judged tools r context.message proof request _ more in
      (proof, reads ∙ ap ok is_proof, verdict, encoded, verified, state, kept)
