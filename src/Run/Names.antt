-- ===== src/Run/Names.antt =====
-- `===` and `has` on the statuses and the actors of packages/run-domain/src/run-state-machine.ts.
use ship_yard.Prelude.{
  ℕ, zero, suc, ◌≡◌, ◌↔◌, refl, sym, ap, ◌∙◌, arith, true, List, [], ◌∷◌, ==_iff, OneOf,
}
use ship_yard.Run.States.{
  RunStatus, draft, quoted, payment_required, funded, analyzing, plan_compiled, procuring,
  executing, replanning, evidence_building, attesting, delivered_pass, delivered_conditional,
  delivered_fail, delivered_inconclusive, cancelled, expired, RunActor, requester, quote_engine,
  merchant_gateway, payment_reconciler, orchestrator, policy_engine, procurement_worker,
  execution_worker, evidence_worker, attestor, system, status_index, actor_index, same_status,
  same_actor, has_status, has_actor,
}

-- The inverse of `status_index`.
abbrev status_at : ℕ → RunStatus
status_at zero = draft
status_at (suc zero) = quoted
status_at (suc (suc zero)) = payment_required
status_at (suc (suc (suc zero))) = funded
status_at (suc (suc (suc (suc zero)))) = analyzing
status_at (suc (suc (suc (suc (suc zero))))) = plan_compiled
status_at (suc (suc (suc (suc (suc (suc zero)))))) = procuring
status_at (suc (suc (suc (suc (suc (suc (suc zero))))))) = executing
status_at (suc (suc (suc (suc (suc (suc (suc (suc zero)))))))) = replanning
status_at (suc (suc (suc (suc (suc (suc (suc (suc (suc zero))))))))) = evidence_building
status_at (suc (suc (suc (suc (suc (suc (suc (suc (suc (suc zero)))))))))) = attesting
status_at (suc (suc (suc (suc (suc (suc (suc (suc (suc (suc (suc zero))))))))))) = delivered_pass
status_at (suc (suc (suc (suc (suc (suc (suc (suc (suc (suc (suc (suc zero)))))))))))) =
    delivered_conditional
status_at (suc (suc (suc (suc (suc (suc (suc (suc (suc (suc (suc (suc (suc zero))))))))))))) =
    delivered_fail
status_at (suc (suc (suc (suc (suc (suc (suc (suc (suc (suc (suc (suc (suc (suc zero)))))))))))))) =
    delivered_inconclusive
status_at
      (suc
        (suc (suc (suc (suc (suc (suc (suc (suc (suc (suc (suc (suc (suc (suc zero))))))))))))))) =
    cancelled
status_at _ = expired

status_at-index : (s : RunStatus) → status_at (status_index s) ≡ s
status_at-index draft = refl
status_at-index quoted = refl
status_at-index payment_required = refl
status_at-index funded = refl
status_at-index analyzing = refl
status_at-index plan_compiled = refl
status_at-index procuring = refl
status_at-index executing = refl
status_at-index replanning = refl
status_at-index evidence_building = refl
status_at-index attesting = refl
status_at-index delivered_pass = refl
status_at-index delivered_conditional = refl
status_at-index delivered_fail = refl
status_at-index delivered_inconclusive = refl
status_at-index cancelled = refl
status_at-index expired = refl

pub same_status_iff : (a b : RunStatus) → (same_status a b ≡ true) ↔ (a ≡ b)
unfolding same_status
same_status_iff a b = (
  λ h.
      sym (status_at-index a)
      ∙ ap status_at ((==_iff (status_index a) (status_index b)).0 h)
      ∙ status_at-index b,
  λ e. (==_iff (status_index a) (status_index b)).1 (ap status_index e),
)

-- The inverse of `actor_index`.
abbrev actor_at : ℕ → RunActor
actor_at zero = requester
actor_at (suc zero) = quote_engine
actor_at (suc (suc zero)) = merchant_gateway
actor_at (suc (suc (suc zero))) = payment_reconciler
actor_at (suc (suc (suc (suc zero)))) = orchestrator
actor_at (suc (suc (suc (suc (suc zero))))) = policy_engine
actor_at (suc (suc (suc (suc (suc (suc zero)))))) = procurement_worker
actor_at (suc (suc (suc (suc (suc (suc (suc zero))))))) = execution_worker
actor_at (suc (suc (suc (suc (suc (suc (suc (suc zero)))))))) = evidence_worker
actor_at (suc (suc (suc (suc (suc (suc (suc (suc (suc zero))))))))) = attestor
actor_at _ = system

actor_at-index : (s : RunActor) → actor_at (actor_index s) ≡ s
actor_at-index requester = refl
actor_at-index quote_engine = refl
actor_at-index merchant_gateway = refl
actor_at-index payment_reconciler = refl
actor_at-index orchestrator = refl
actor_at-index policy_engine = refl
actor_at-index procurement_worker = refl
actor_at-index execution_worker = refl
actor_at-index evidence_worker = refl
actor_at-index attestor = refl
actor_at-index system = refl

pub same_actor_iff : (a b : RunActor) → (same_actor a b ≡ true) ↔ (a ≡ b)
unfolding same_actor
same_actor_iff a b = (
  λ h.
      sym (actor_at-index a)
      ∙ ap actor_at ((==_iff (actor_index a) (actor_index b)).0 h)
      ∙ actor_at-index b,
  λ e. (==_iff (actor_index a) (actor_index b)).1 (ap actor_index e),
)

pub has_status_iff : (ts : List RunStatus) (s : RunStatus) → (has_status ts s ≡ true) ↔ OneOf s ts
unfolding has_status
has_status_iff [] s = ((λ h. cc), (λ h. elim h [ ]))
has_status_iff (t ∷ ts) s = ground (arith, same_status_iff t s, has_status_iff ts s)

pub has_actor_iff : (bs : List RunActor) (a : RunActor) → (has_actor bs a ≡ true) ↔ OneOf a bs
unfolding has_actor
has_actor_iff [] a = ((λ h. cc), (λ h. elim h [ ]))
has_actor_iff (b ∷ bs) a = ground (arith, same_actor_iff b a, has_actor_iff bs a)
