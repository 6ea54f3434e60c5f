-- ===== src/Pipeline/Passed.antt =====
-- pipeline/scenarios.ts: the scenarios behind a verdict of PASS.
use ship_yard.Prelude.{
  map, false, ◌≡◌, refl, sym, ◌∙◌, All, subst, arith, Option, none, some, List, [], ◌∷◌, Text,
  none-ne-some, some-injective, Bool-cases, inl, inr,
}
use ship_yard.Delivery.Scenario.{Verdict, pass, fail, inconclusive}
use ship_yard.Checkpoint.{ScenarioResult, truthy}
use ship_yard.Pipeline.Ports.{Deps}
use ship_yard.Pipeline.Scenarios.{
  some_verdict, is_fail, is_inconclusive, is_pass, aggregate_scenario_result, some_unsigned,
  checked_provenance, verify_scenario_provenance,
}
use ship_yard.Pipeline.Phases.{no_results}
use ship_yard.Pipeline.Evidence.{evidence_of}

-- The scenarios behind a PASS.
pub record IsEarned (d : Deps) (results : List ScenarioResult) : Type 0 where
  pub some_result : no_results results ≡ false
  pub passed : All (λ r. r.evidence.result ≡ pass) results
  pub signed :
      (signer : Text)
      → truthy d.provider_signer_address ≡ some signer
      → All (λ r. some_unsigned d signer r.evidence.attempts ≡ false) results

All-passed :
    (results : List ScenarioResult)
    → some_verdict is_fail (map evidence_of results) ≡ false
    → some_verdict is_inconclusive (map evidence_of results) ≡ false
    → All (λ r. r.evidence.result ≡ pass) results
unfolding some_verdict
All-passed [] f i = tt
All-passed (r ∷ rs) f i = (
  is_pass_of r.evidence.result (ground (arith, f)) (ground (arith, i)),
  All-passed rs (ground (arith, f)) (ground (arith, i)),
)
  where
    is_pass_of : (v : Verdict) → is_fail v ≡ false → is_inconclusive v ≡ false → v ≡ pass
    is_pass_of pass f i = refl
    is_pass_of fail f i = cc
    is_pass_of inconclusive f i = cc

aggregate_pass :
    (results : List ScenarioResult)
    → aggregate_scenario_result (map evidence_of results) ≡ pass
    → (no_results results ≡ false) × All (λ r. r.evidence.result ≡ pass) results
unfolding aggregate_scenario_result
aggregate_pass [] h = cc
aggregate_pass (r ∷ rs) h = elim (Bool-cases (some_verdict is_fail (map evidence_of (r ∷ rs)))) [
  | inl failed ↦ absurd (pass-ne-fail (sym h ∙ rw failed refl))
  | inr sound ↦ elim (Bool-cases (some_verdict is_inconclusive (map evidence_of (r ∷ rs)))) [
    | inl open_ ↦ absurd (pass-ne-inconclusive (sym h ∙ rw (sound, open_) refl))
    | inr sure ↦ (refl, All-passed (r ∷ rs) sound sure)
  ]
]
  where
    pass-ne-fail : ¬ (◌≡◌ {A = Verdict} pass fail)
    pass-ne-fail e = cc

    pass-ne-inconclusive : ¬ (◌≡◌ {A = Verdict} pass inconclusive)
    pass-ne-inconclusive e = cc

checked_signed :
    (d : Deps) (signer : Text) (r : ScenarioResult)
    → (checked_provenance d signer r).evidence.result ≡ pass
    → some_unsigned d signer (checked_provenance d signer r).evidence.attempts ≡ false
checked_signed d signer r h = elim (Bool-cases (is_pass r.evidence.result)) [
  | inr other ↦ absurd (not_passed r.evidence.result other (rw other at h))
  | inl passed ↦ elim (Bool-cases (some_unsigned d signer r.evidence.attempts)) [
    | inl forged ↦ absurd (inconclusive-ne-pass (rw (passed, forged) at h))
    | inr sound ↦ rw (passed, sound) sound
  ]
]
  where
    not_passed : (v : Verdict) → is_pass v ≡ false → ¬ (v ≡ pass)
    not_passed pass o e = cc
    not_passed fail o e = cc
    not_passed inconclusive o e = cc

    inconclusive-ne-pass : ¬ (◌≡◌ {A = Verdict} inconclusive pass)
    inconclusive-ne-pass e = cc

All-signed :
    (d : Deps) (signer : Text) (raw : List ScenarioResult)
    → All (λ r. r.evidence.result ≡ pass) (map (checked_provenance d signer) raw)
    → All
        (λ r. some_unsigned d signer r.evidence.attempts ≡ false)
        (map (checked_provenance d signer) raw)
All-signed d signer [] h = tt
All-signed d signer (r ∷ rs) h = (checked_signed d signer r h.0, All-signed d signer rs h.1)

provenance_signed :
    (d : Deps) (raw : List ScenarioResult) (o : Option Text)
    → All (λ r. r.evidence.result ≡ pass) (verify_scenario_provenance d raw o)
    → (signer : Text) → o ≡ some signer
    → All
        (λ r. some_unsigned d signer r.evidence.attempts ≡ false)
        (verify_scenario_provenance d raw o)
unfolding verify_scenario_provenance
provenance_signed d raw none h signer e = absurd (none-ne-some e)
provenance_signed d raw (some s) h signer e =
    subst
      (λ x.
        All (λ r. some_unsigned d x r.evidence.attempts ≡ false) (map (checked_provenance d s) raw))
      (some-injective e) (All-signed d s raw h)

pub verified-IsEarned :
    (d : Deps) (raw : List ScenarioResult)
    → let results = verify_scenario_provenance d raw (truthy d.provider_signer_address) in
      aggregate_scenario_result (map evidence_of results) ≡ pass → IsEarned d results
verified-IsEarned d raw h =
    let (some_result, passed) = aggregate_pass _ h in
    record {
      some_result = some_result;
      passed = passed;
      signed = provenance_signed d raw (truthy d.provider_signer_address) passed;
    }
