-- ===== src/Proofs/Verdict.antt =====
-- modules/proofs/services/ProofService.ts: a presentation gets a verdict at its verifier.
use aries_framework_javascri.Prelude.{String, some, List, filter}
use aries_framework_javascri.Exec.{Exec}
use aries_framework_javascri.Storage.{by_thread_id, matches}
use aries_framework_javascri.Storage.Contracts.{IsRepository}
use aries_framework_javascri.Attachment.RoundTrip.{Reads}
use aries_framework_javascri.Proofs.Record.{ProofRecord}
use aries_framework_javascri.Proofs.Service.{ProofDeps}

module _ {V W J : Type 0} (prover : ProofDeps V J) (verifier : ProofDeps W J)
    (reads : Reads prover.codec verifier.codec) (records : W → List ProofRecord)
    (law : IsRepository verifier.repo (λ r. r.id) (λ r. r.tags) records) where
  abbrev pub of_thread : String → W → List ProofRecord
  of_thread thread w = filter (λ r. matches (by_thread_id (some thread)) r.tags) (records w)
