-- ===== src/Checkpoint/Register.antt =====
-- The row as write-once registers.
use ship_yard.Prelude.{
  ◌≡◌, refl, sym, ◌∙◌, ap, Option, none, some, List, [], ◌∷◌, ◌++◌, some-injective,
}
use ship_yard.Checkpoint.{
  Checkpoint, CheckpointRow, Buffers, coalesce, coalesce_row, values, upsert, upsert_all, merge,
  parse_row,
}

pub coalesce_assoc :
    {A : Type 0} (a b c : Option A) → coalesce (coalesce a b) c ≡ coalesce a (coalesce b c)
coalesce_assoc none b c = refl
coalesce_assoc (some a) b c = refl

coalesce-none : {A : Type 0} (a : Option A) → coalesce a none ≡ a
coalesce-none none = refl
coalesce-none (some a) = refl

pub coalesce_row_assoc :
    (a b c : CheckpointRow) → coalesce_row (coalesce_row a b) c ≡ coalesce_row a (coalesce_row b c)
unfolding coalesce_row
coalesce_row_assoc a b c = simp coalesce_assoc

-- A register that is written once: the first value that an item brings.
abbrev pub first_value : {A B : Type 0} → (A → Option B) → List A → Option B
first_value f [] = none
first_value f (x ∷ xs) = coalesce (f x) (first_value f xs)

module _ (buffers : Buffers) where
  -- One register for each column, over the patches in the order in which they landed.
  unfoldable pub registers : List Checkpoint → CheckpointRow
  registers patches = record {
    risk_level = first_value (λ p. (values buffers p).risk_level) patches;
    scenarios = first_value (λ p. (values buffers p).scenarios) patches;
    tool_budget_atomic = first_value (λ p. (values buffers p).tool_budget_atomic) patches;
    rationale = first_value (λ p. (values buffers p).rationale) patches;
    ai_proposal = first_value (λ p. (values buffers p).ai_proposal) patches;
    payment_nonce = first_value (λ p. (values buffers p).payment_nonce) patches;
    payment_transaction_hash =
        first_value (λ p. (values buffers p).payment_transaction_hash) patches;
    purchase_receipt = first_value (λ p. (values buffers p).purchase_receipt) patches;
    payment_header_name = first_value (λ p. (values buffers p).payment_header_name) patches;
    bridge_provider = first_value (λ p. (values buffers p).bridge_provider) patches;
    bridge_transfer_id = first_value (λ p. (values buffers p).bridge_transfer_id) patches;
    bridge_source_transaction_hash =
        first_value (λ p. (values buffers p).bridge_source_transaction_hash) patches;
    bridge_submitted_at = first_value (λ p. (values buffers p).bridge_submitted_at) patches;
    bridge_destination_transaction_hash =
        first_value (λ p. (values buffers p).bridge_destination_transaction_hash) patches;
    bridge_amount_received_atomic =
        first_value (λ p. (values buffers p).bridge_amount_received_atomic) patches;
    target_payment_transaction_hash =
        first_value (λ p. (values buffers p).target_payment_transaction_hash) patches;
    target_payment_amount_atomic =
        first_value (λ p. (values buffers p).target_payment_amount_atomic) patches;
    evidence = first_value (λ p. (values buffers p).evidence) patches;
    started_at = first_value (λ p. (values buffers p).started_at) patches;
    completed_at = first_value (λ p. (values buffers p).completed_at) patches;
    attestation_transaction_hash =
        first_value (λ p. (values buffers p).attestation_transaction_hash) patches;
    refund_nonce = first_value (λ p. (values buffers p).refund_nonce) patches;
    refund_transaction_hash = first_value (λ p. (values buffers p).refund_transaction_hash) patches;
  }

  coalesce_row_nil : (row : CheckpointRow) → coalesce_row row (registers []) ≡ row
  unfolding coalesce_row registers
  coalesce_row_nil row = simp coalesce-none

  coalesce_row-registers :
      (p : Checkpoint) (ps : List Checkpoint)
      → coalesce_row (values buffers p) (registers ps) ≡ registers (p ∷ ps)
  unfolding coalesce_row registers
  coalesce_row-registers p ps = refl

  pub upsert_all_from :
      (row : CheckpointRow) (patches : List Checkpoint)
      → upsert_all buffers (some row) patches ≡ some (coalesce_row row (registers patches))
  unfolding upsert_all upsert
  upsert_all_from row [] = ap some (sym (coalesce_row_nil row))
  upsert_all_from row (p ∷ ps) =
      upsert_all_from (coalesce_row row (values buffers p)) ps
      ∙ ap some (
          coalesce_row_assoc row (values buffers p) (registers ps)
          ∙ ap (coalesce_row row) (coalesce_row-registers p ps))

  upsert_all-registers :
      (patch : Checkpoint) (patches : List Checkpoint)
      → upsert_all buffers none (patch ∷ patches) ≡ some (registers (patch ∷ patches))
  unfolding upsert_all upsert
  upsert_all-registers patch patches =
      upsert_all_from (values buffers patch) patches
      ∙ ap some (coalesce_row-registers patch patches)

  upsert_all-concat :
      (row : Option CheckpointRow) (patches : List Checkpoint) (patch : Checkpoint)
      → upsert_all buffers row (patches ++ patch ∷ [])
        ≡ some (upsert buffers (upsert_all buffers row patches) patch)
  unfolding upsert_all
  upsert_all-concat row [] patch = refl
  upsert_all-concat row (p ∷ ps) patch = upsert_all-concat (some (upsert buffers row p)) ps patch

  upsert-registers :
      (patches : List Checkpoint) (patch : Checkpoint)
      → upsert buffers (upsert_all buffers none patches) patch ≡ registers (patches ++ patch ∷ [])
  upsert-registers [] patch =
      some-injective (sym (upsert_all-concat none [] patch) ∙ upsert_all-registers patch [])
  upsert-registers (p ∷ ps) patch =
      some-injective
        (sym (upsert_all-concat none (p ∷ ps) patch) ∙ upsert_all-registers p (ps ++ patch ∷ []))

  -- Whatever workers merged into the checkpoint of a run before, in whatever order their statements
  -- landed, the row is a set of write-once registers: a merge leaves in each column the first value
  -- that any of the patches, its own last, brought for it, and returns the checkpoint read from that.
  pub merge-registers :
      (patches : List Checkpoint) (patch : Checkpoint)
      → merge buffers (upsert_all buffers none patches) patch
        ≡ (parse_row buffers (registers (patches ++ patch ∷ [])), registers (patches ++ patch ∷ []))
  unfolding merge
  merge-registers patches patch = rw (upsert-registers patches patch) refl
