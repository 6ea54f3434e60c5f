-- ===== src/Delivery/Rejection.antt =====
-- What the verdict of the invalid-credential runner says about the target.
use ship_yard.Prelude.{
  ◌≡◌, ◌↔◌, ◌≤◌, ◌<◌, refl, sym, ◌∙◌, arith, Option, none, some, ok, >>=-eq-ok, ok-injective, subst,
  some-injective, none-ne-some,
}
use ship_yard.Delivery.Scenario.{
  pass, fail, DeliveryAttempt, ReplayEvidence, Runtime, Client, is_success, checked,
}
use ship_yard.Delivery.Credential.{
  InvalidCredentialScenario, validate_credential, credential_request, judge_credential,
  run_credential,
}
use ship_yard.Delivery.Verdict.{IsDelivered, IsDelivered-iff}

module _ (runtime : Runtime) (client : Client) (scenario : InvalidCredentialScenario) where
  -- The answer to the bogus receipt, where it was kept.
  abbrev pub Answers : DeliveryAttempt → Type 0
  Answers a = checked (client (credential_request scenario)) ≡ some a

  abbrev Judged : ReplayEvidence → Type 0
  Judged evidence =
      ((evidence.result ≡ pass)
        ↔ ((a : DeliveryAttempt) × Answers a × ((400 ≤ a.status_code) × (a.status_code < 500))))
      × ((evidence.result ≡ fail) ↔ ((a : DeliveryAttempt) × Answers a × IsDelivered a))

  judge_credential-Judged :
      (o : Option DeliveryAttempt)
      → checked (client (credential_request scenario)) ≡ o
      → Judged (judge_credential runtime scenario o)
  unfolding is_success
  judge_credential-Judged none e = (
    ((λ h. cc), λ h. absurd (none-ne-some (sym e ∙ h.1))),
    ((λ h. cc), λ h. absurd (none-ne-some (sym e ∙ h.1))),
  )
  judge_credential-Judged (some a) e =
      let delivered = IsDelivered-iff a in
      (
        (
          (λ h. (a, e, ground (arith, h))),
          λ (b, k, m).
              let n : (400 ≤ a.status_code) × (a.status_code < 500) =
                subst (λ y. (400 ≤ y.status_code) × (y.status_code < 500))
                  (sym (some-injective (sym e ∙ k))) m in
              ground (arith, n.0, n.1),
        ),
        (
          (λ h. (a, e, delivered.1 (ground (arith, h)))),
          λ (b, k, m).
              let n = delivered.0 (subst IsDelivered (sym (some-injective (sym e ∙ k))) m) in
              ground (arith, n.0, n.1),
        ),
      )

  -- The runner of bogus receipts passes a target exactly when the target answered with a client
  -- error, and fails it exactly when the target delivered; in every other case it is inconclusive.
  pub run_credential-verdict :
      (evidence : ReplayEvidence)
      → run_credential runtime client scenario ≡ ok evidence
      → Judged evidence
  unfolding run_credential
  run_credential-verdict evidence h =
      let (u, valid, e) = >>=-eq-ok (validate_credential runtime scenario) _ h in
      subst Judged (ok-injective e)
        (judge_credential-Judged (checked (client (credential_request scenario))) refl)
