-- ===== src/Pipeline/Transitions.antt =====
-- The transitions that the finaliser still makes from where a run stopped.
use ship_yard.Prelude.{
  ◌≡◌, ◌⊎◌, inl, inr, refl, ◌∙◌, Text, true, false, codes, text_eq, leb, Bool-cases, if◌then◌else◌,
}
use ship_yard.Run.{
  RunStatus, funded, analyzing, evidence_building, attesting, delivered_inconclusive, RunActor,
  system, orchestrator, evidence_worker, attestor, RunAggregate, permits, same_status, has_status,
  next_run,
}
use ship_yard.Run.Names.{same_status_iff}
use ship_yard.Pipeline.State.{World}
use ship_yard.Pipeline.Ports.{Deps}
use ship_yard.Pipeline.Steps.{pure}
use ship_yard.Pipeline.Stores.{status_order, status_text, command_to, move, advance}
use ship_yard.Pipeline.Drive.{finalizable_statuses, deliver_as}
use ship_yard.Pipeline.Answering.{IsAttested, Succeeds, Answers, Holds, move_ok}
use ship_yard.Pipeline.Ahead.{Fresh, Fresh-next, Place, stopped-Place}

module _ (d : Deps) (answers : Answers d) (run_id : Text) where
  -- A run that its evidence is next to be built for, with the keys of what is ahead of it fresh.
  pub record Begun (r : RunAggregate) (w : World) : Type 0 where
    pub held : Holds d answers r w
    pub place : Place r.status
    pub build :
        leb (status_order evidence_building) (status_order r.status) ≡ false
        → Fresh run_id r evidence_building
    pub attest :
        leb (status_order attesting) (status_order r.status) ≡ false → Fresh run_id r attesting
    pub final : Fresh run_id r delivered_inconclusive

  -- A run whose evidence may be built.
  pub record Built (r : RunAggregate) (w : World) : Type 0 where
    pub held : Holds d answers r w
    pub place : (r.status ≡ attesting) ⊎ ((r.status ≡ evidence_building) × Fresh run_id r attesting)
    pub final : Fresh run_id r delivered_inconclusive

  pub record Attesting (r : RunAggregate) (w : World) : Type 0 where
    pub held : Holds d answers r w
    pub place : r.status ≡ attesting
    pub final : Fresh run_id r delivered_inconclusive

  pub record Delivered (r : RunAggregate) (w : World) : Type 0 where
    pub held : Holds d answers r w
    pub place : r.status ≡ delivered_inconclusive
    pub attested : IsAttested w

  moved :
      (Q : RunAggregate → World → Type 0) (r : RunAggregate) (w : World) (actor : RunActor)
      (to : RunStatus)
      → Holds d answers r w
      → Fresh run_id r to
      → permits r.status actor to ≡ true
      → ((time : Text) (v : World)
          → Holds d answers (next_run r (command_to run_id r actor to time)) v
          → Q (next_run r (command_to run_id r actor to time)) v)
      → Succeeds Q (move d run_id r actor to w)
  moved Q r w actor to held fresh permitted k =
      let s = move_ok d answers run_id w r actor to held fresh.unseen permitted in
      record {
        value = s.value;
        later = s.later;
        returned = s.returned;
        holds = rw (s.holds.1) (k _ s.later (rw (s.holds.1) at (s.holds.0)));
      }

  advance_stays :
      (Q : RunAggregate → World → Type 0) (r : RunAggregate) (w : World) (actor : RunActor)
      (to : RunStatus)
      → leb (status_order to) (status_order r.status) ≡ true
      → Q r w
      → Succeeds Q (advance d run_id r actor to w)
  unfolding advance
  advance_stays Q r w actor to past q = record {
    value = r;
    later = w;
    returned = rw past refl;
    holds = q;
  }

  advance_moves :
      (Q : RunAggregate → World → Type 0) (r : RunAggregate) (w : World) (actor : RunActor)
      (to : RunStatus)
      → leb (status_order to) (status_order r.status) ≡ false
      → Holds d answers r w
      → Fresh run_id r to
      → permits r.status actor to ≡ true
      → ((time : Text) (v : World)
          → Holds d answers (next_run r (command_to run_id r actor to time)) v
          → Q (next_run r (command_to run_id r actor to time)) v)
      → Succeeds Q (advance d run_id r actor to w)
  unfolding advance
  advance_moves Q r w actor to ahead held fresh permitted k =
      rw ahead (moved Q r w actor to held fresh permitted k)

  pub build_ok :
      (r : RunAggregate) (w : World)
      → Begun r w
      → Succeeds Built (advance d run_id r system evidence_building w)
  unfolding status_order status_text codes text_eq
  build_ok r w b = elim b.place [
    | inl there ↦
        advance_stays Built r w system evidence_building (rw there refl)
          (record { held = b.held; place = inr (there, b.attest (rw there refl)); final = b.final })
    | inr (inl past) ↦
        advance_stays Built r w system evidence_building (rw past refl)
          (record { held = b.held; place = inl past; final = b.final })
    | inr (inr (ahead, early, permitted)) ↦
        advance_moves Built r w system evidence_building ahead b.held (b.build ahead) permitted
          λ time v held. record {
            held = held;
            place = inr (
              refl,
              Fresh-next run_id r system evidence_building attesting time refl (b.attest early),
            );
            final =
                Fresh-next run_id r system evidence_building delivered_inconclusive time refl
                  b.final;
          }
  ]

  pub attest_ok :
      (r : RunAggregate) (w : World)
      → Built r w
      → Succeeds Attesting (advance d run_id r evidence_worker attesting w)
  unfolding status_order status_text codes text_eq permits
  attest_ok r w b = elim b.place [
    | inl there ↦
        advance_stays Attesting r w evidence_worker attesting (rw there refl)
          (record { held = b.held; place = there; final = b.final })
    | inr (ready, fresh) ↦
        advance_moves Attesting r w evidence_worker attesting (rw ready refl) b.held fresh
          (rw ready refl)
          λ time v held. record {
            held = held;
            place = refl;
            final =
                Fresh-next run_id r evidence_worker attesting delivered_inconclusive time refl
                  b.final;
          }
  ]

  pub deliver_ok :
      (r : RunAggregate) (w : World)
      → Attesting r w
      → IsAttested w
      → Succeeds Delivered (deliver_as d run_id r delivered_inconclusive w)
  unfolding deliver_as same_status permits
  deliver_ok r w b a =
      let undelivered : same_status r.status delivered_inconclusive ≡ false = rw b.place refl in
      let s =
        move_ok d answers run_id w r attestor delivered_inconclusive b.held b.final.unseen
          (rw b.place refl) in
      rw undelivered (record {
        value = s.value;
        later = s.later;
        returned = s.returned;
        holds = record {
          held = s.holds.0;
          place = rw (s.holds.1) refl;
          attested = record { attestation = a.attestation; kept = s.holds.2 ∙ a.kept };
        };
      })

  -- What the run that is to be finalised must not have seen yet.
  pub record Stopped (r : RunAggregate) (w : World) : Type 0 where
    pub held : Holds d answers r w
    pub ours : has_status finalizable_statuses r.status ≡ true
    pub ahead :
        (to : RunStatus) → leb (status_order to) (status_order r.status) ≡ false → Fresh run_id r to
    pub final : Fresh run_id r delivered_inconclusive

  pub begin_ok :
      (r : RunAggregate) (w : World)
      → Stopped r w
      → Succeeds Begun (
          (if same_status r.status funded
              then advance d run_id r orchestrator analyzing
              else pure r)
            w)
  unfolding status_order status_text codes text_eq permits
  begin_ok r w s = elim (Bool-cases (same_status r.status funded)) [
    | inr later ↦ rw later (record {
      value = r;
      later = w;
      returned = refl;
      holds = record {
        held = s.held;
        place = stopped-Place r.status s.ours later;
        build = s.ahead evidence_building;
        attest = s.ahead attesting;
        final = s.final;
      };
    })
    | inl first ↦
        let start = (same_status_iff r.status funded).0 first in
        rw first (
          advance_moves Begun r w orchestrator analyzing (rw start refl) s.held
            (s.ahead analyzing (rw start refl)) (rw start refl)
            λ time v held. record {
              held = held;
              place = inr (inr (refl, refl, refl));
              build = λ _.
                  Fresh-next run_id r orchestrator analyzing evidence_building time refl
                    (s.ahead evidence_building (rw start refl));
              attest = λ _.
                  Fresh-next run_id r orchestrator analyzing attesting time refl
                    (s.ahead attesting (rw start refl));
              final =
                  Fresh-next run_id r orchestrator analyzing delivered_inconclusive time refl
                    s.final;
            })
  ]
