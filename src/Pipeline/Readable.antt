-- ===== src/Pipeline/Readable.antt =====
-- Checkpoints that the finaliser can read.
use ship_yard.Prelude.{
  ℕ, ◌≡◌, inl, inr, refl, Option, none, some, Text, codes, Bool, true, false, List, [], ◌∷◌, All,
  Bool-cases, not,
}
use ship_yard.Policy.Purchase.{is_none}
use ship_yard.Money.{parse_atomic_amount}
use ship_yard.Delivery.Scenario.{AttemptEvidence}
use ship_yard.Checkpoint.{ScenarioResult, Checkpoint}
use ship_yard.Pipeline.Evidence.{has_response, can_build_tool_receipt, receiptable}
use ship_yard.Pipeline.Drive.{results_or_none, text_or}
use ship_yard.Pipeline.Answering.{IsReceiptable}

-- The first attempt of a result does not carry an empty hash.
abbrev pub is_empty_hash : Option Text → Bool
is_empty_hash none = false
is_empty_hash (some []) = true
is_empty_hash (some (c ∷ s)) = false

abbrev pub has_empty_hash : List AttemptEvidence → Bool
has_empty_hash [] = false
has_empty_hash (a ∷ rest) = is_empty_hash a.response_hash

-- The finaliser can read the checkpoint: no hash of a response is empty, and what the target was
-- paid, if anything, is an amount.
pub record IsReadable (checkpoint : Checkpoint) : Type 0 where
  pub hashed :
      All (λ r. has_empty_hash r.evidence.attempts ≡ false) (results_or_none checkpoint.evidence)
  pub spend : ℕ
  pub priced :
      parse_atomic_amount (text_or (codes "0") checkpoint.target_payment_amount_atomic) ≡ some spend

can_build_tool_receipt-IsReceiptable :
    (r : ScenarioResult)
    → has_empty_hash r.evidence.attempts ≡ false
    → can_build_tool_receipt r.evidence ≡ true
    → IsReceiptable r
unfolding can_build_tool_receipt
can_build_tool_receipt-IsReceiptable r h c = of_attempts r.evidence.attempts refl h c
  where
    of_hash :
        (a : AttemptEvidence) (rest : List AttemptEvidence) (o : Option Text)
        → r.evidence.attempts ≡ a ∷ rest
        → a.response_hash ≡ o
        → is_empty_hash o ≡ false
        → not (is_none o) ≡ true
        → IsReceiptable r
    of_hash a rest none first e h c = cc
    of_hash a rest (some []) first e h c = cc
    of_hash a rest (some (x ∷ s)) first e h c = record {
      attempt = a;
      response_hash = x ∷ s;
      others = rest;
      first = first;
      kept = rw e refl;
    }

    of_attempts :
        (attempts : List AttemptEvidence)
        → r.evidence.attempts ≡ attempts
        → has_empty_hash attempts ≡ false
        → has_response attempts ≡ true
        → IsReceiptable r
    of_attempts [] e h c = cc
    of_attempts (a ∷ rest) e h c = of_hash a rest a.response_hash e refl h c

pub receiptable_lem :
    (results : List ScenarioResult)
    → All (λ r. has_empty_hash r.evidence.attempts ≡ false) results
    → All IsReceiptable (receiptable results)
unfolding receiptable
receiptable_lem [] h = tt
receiptable_lem (r ∷ rs) h = elim (Bool-cases (can_build_tool_receipt r.evidence)) [
  | inl kept ↦ rw kept (can_build_tool_receipt-IsReceiptable r (h.0) kept, receiptable_lem rs (h.1))
  | inr left ↦ rw left (receiptable_lem rs (h.1))
]
