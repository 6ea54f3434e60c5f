-- ===== src/Pipeline/Ahead.antt =====
-- The keys and the statuses that are ahead of a run that stopped.
use ship_yard.Prelude.{
  ◌≡◌, ◌⊎◌, inl, inr, refl, ◌∙◌, arith, Text, true, false, List, [], ◌∷◌, ◌++◌, ◌||◌, codes,
  text_eq, includes, leb,
}
use ship_yard.Run.{
  RunStatus, draft, quoted, payment_required, funded, analyzing, plan_compiled, procuring,
  executing, replanning, evidence_building, attesting, delivered_pass, delivered_conditional,
  delivered_fail, delivered_inconclusive, cancelled, expired, RunActor, system, RunAggregate,
  permits, same_status, has_status, next_run,
}
use ship_yard.Pipeline.Stores.{status_order, status_text, transition_key, command_to}
use ship_yard.Pipeline.Drive.{finalizable_statuses}

-- The key of the transition is not yet applied.
pub record Fresh (run_id : Text) (r : RunAggregate) (to : RunStatus) : Type 0 where
  pub unseen : includes r.applied_idempotency_keys (transition_key run_id to) ≡ false

includes-concat :
    (ks : List Text) (k key : Text)
    → includes (ks ++ k ∷ []) key ≡ (includes ks key || text_eq k key)
unfolding includes
includes-concat [] k key = ground arith
includes-concat (x ∷ xs) k key = ground (arith, includes-concat xs k key)

text_eq-prefix : (p s t : Text) → text_eq (p ++ s) (p ++ t) ≡ text_eq s t
unfolding text_eq
text_eq-prefix [] s t = refl
text_eq-prefix (x ∷ p) s t = ground (arith, text_eq-prefix p s t)

-- Another transition leaves a fresh key fresh.
pub Fresh-next :
    (run_id : Text) (r : RunAggregate) (actor : RunActor) (to other : RunStatus) (time : Text)
    → text_eq (status_text to) (status_text other) ≡ false
    → Fresh run_id r other
    → Fresh run_id (next_run r (command_to run_id r actor to time)) other
unfolding transition_key
Fresh-next run_id r actor to other time apart f = record {
  unseen =
      includes-concat r.applied_idempotency_keys (transition_key run_id to)
        (transition_key run_id other)
      ∙ rw (f.unseen, keys) refl;
}
  where
    keys : text_eq (transition_key run_id to) (transition_key run_id other) ≡ false
    keys =
        text_eq-prefix (codes "orchestrator:") _ _
        ∙ text_eq-prefix run_id _ _
        ∙ text_eq-prefix (codes ":") _ _
        ∙ apart

-- Where a run stands before its evidence is built: it may move there, or it has been there.
abbrev pub Place : RunStatus → Type 0
Place s =
    (s ≡ evidence_building)
    ⊎ ((s ≡ attesting)
        ⊎ ((leb (status_order evidence_building) (status_order s) ≡ false)
            × (leb (status_order attesting) (status_order s) ≡ false)
            × (permits s system evidence_building ≡ true)))

pub stopped-Place :
    (s : RunStatus)
    → has_status finalizable_statuses s ≡ true
    → same_status s funded ≡ false
    → Place s
unfolding has_status same_status status_order permits
stopped-Place draft ours later = cc
stopped-Place quoted ours later = cc
stopped-Place payment_required ours later = cc
stopped-Place delivered_pass ours later = cc
stopped-Place delivered_conditional ours later = cc
stopped-Place delivered_fail ours later = cc
stopped-Place delivered_inconclusive ours later = cc
stopped-Place cancelled ours later = cc
stopped-Place expired ours later = cc
stopped-Place funded ours later = cc
stopped-Place analyzing ours later = inr (inr (refl, refl, refl))
stopped-Place plan_compiled ours later = inr (inr (refl, refl, refl))
stopped-Place procuring ours later = inr (inr (refl, refl, refl))
stopped-Place executing ours later = inr (inr (refl, refl, refl))
stopped-Place replanning ours later = inr (inr (refl, refl, refl))
stopped-Place evidence_building ours later = inl refl
stopped-Place attesting ours later = inr (inl refl)
