-- ===== src/Delivery/Verdict.antt =====
-- What the verdicts of the two runners say about the target.
use ship_yard.Prelude.{
  ℕ, ◌≡◌, ◌↔◌, ◌≤◌, ◌⊎◌, sym, ◌∙◌, arith, true, some, List, [], ◌∷◌, OneOf, some-injective,
}
use ship_yard.Delivery.Scenario.{
  pass, fail, Phase, initial, replay, DeliveryAttempt, ReplayEvidence, Runtime, Client, is_success,
}
use ship_yard.Delivery.Replay.{
  ReplayScenario, accepted_statuses, has_status, initial_key, replay_key, response_to,
}

pub has_status_iff : (statuses : List ℕ) (s : ℕ) → (has_status statuses s ≡ true) ↔ OneOf s statuses
unfolding has_status
has_status_iff [] s = ((λ h. cc), λ h. elim h [ ])
has_status_iff (t ∷ ts) s = ground (arith, has_status_iff ts s)

-- A delivery: a success that the body confirms.
pub record IsDelivered (a : DeliveryAttempt) : Type 0 where
  pub least : 200 ≤ a.status_code
  pub most : a.status_code ≤ 299
  pub confirmed : a.delivery_confirmed ≡ true

pub IsDelivered-iff :
    (a : DeliveryAttempt)
    → IsDelivered a ↔ ((is_success a.status_code ≡ true) × (a.delivery_confirmed ≡ true))
unfolding is_success
IsDelivered-iff a = (
  (λ d. (ground (arith, d.least, d.most), d.confirmed)),
  λ h. record { least = ground arith; most = ground arith; confirmed = h.1 },
)

module _ (runtime : Runtime) (client : Client) (scenario : ReplayScenario) where
  -- The answer that a delivery under a key was given, where it was kept.
  abbrev pub Gets : Phase → DeliveryAttempt → Type 0
  Gets initial a = response_to client scenario (initial_key scenario) ≡ some a
  Gets replay a = response_to client scenario (replay_key scenario) ≡ some a

  -- The target delivers once, and refuses the same payment with an accepted status.
  pub record Resists : Type 0 where
    pub first : DeliveryAttempt
    pub second : DeliveryAttempt
    pub first_kept : Gets initial first
    pub delivered : IsDelivered first
    pub second_kept : Gets replay second
    pub refused :
        OneOf second.status_code (accepted_statuses scenario.accepted_replay_rejection_statuses)

  -- The target delivers once, and answers the same payment with a success again.
  pub record Repeats : Type 0 where
    pub first : DeliveryAttempt
    pub second : DeliveryAttempt
    pub first_kept : Gets initial first
    pub delivered : IsDelivered first
    pub second_kept : Gets replay second
    pub success : is_success second.status_code ≡ true

  -- The target answers the paid request and does not deliver.
  pub record Withholds : Type 0 where
    pub first : DeliveryAttempt
    pub first_kept : Gets initial first
    pub undelivered : ¬ IsDelivered first

  abbrev Judged : ReplayEvidence → Type 0
  Judged evidence =
      ((evidence.result ≡ pass) ↔ Resists) × ((evidence.result ≡ fail) ↔ (Withholds ⊎ Repeats))

  same_second : {a b : DeliveryAttempt} → Gets replay a → Gets replay b → a ≡ b
  same_second h k = some-injective (sym h ∙ k)
