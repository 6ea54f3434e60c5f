-- ===== src/Pipeline/KeptRows.antt =====
-- What the stores keep of the checkpoint, and what a checkpoint that was read says of its row.
use ship_yard.Prelude.{
  ℕ, ◌≡◌, refl, sym, ◌∙◌, Option, none, some, [], ◌∷◌, Text, ok, none-ne-some, ◌==◌, Bool-cases,
  inl, inr, leb, ◌-◌,
}
use ship_yard.Run.{RunAggregate, RunTransitionedEvent, RunActor, RunStatus, TransitionResult}
use ship_yard.Checkpoint.{
  Checkpoint, CheckpointRow, truthy, coalesce, Buffers, coalesce_row, values, parse_row, load,
  upsert, merge,
}
use ship_yard.Pipeline.State.{
  RunRecord, transition_refused, StoredPack, StoredAttestation, statement_sent, World,
}
use ship_yard.Pipeline.Ports.{Deps}
use ship_yard.Pipeline.Steps.{tick, logged}
use ship_yard.Pipeline.Stores.{
  status_order, save_found, save_run, save_event, move, advance, current_row, read_checkpoint,
  load_checkpoint, write_checkpoint, merge_checkpoint, find_pack, find_attestation, put_pack_row,
  put_pack, put_attestation_row, put_attestation, find_run,
}
use ship_yard.Pipeline.Backed.{
  receipt_in, refund_nonce_in, AllBacked, Grows, Grows-refl, Grows-trans, All-IsBacked-Grows,
  upsert-Grows, upsert_all-Grows,
}
use ship_yard.Pipeline.Keeps.{
  returned, threw, lift_kept, IsLater, After, Any, later_refl, After-onward, pure_lem, logged_lem,
  instant_lem, statement_lem,
}

-- What a checkpoint holds was read from the row.
pub record IsRead (c : Checkpoint) (row : Option CheckpointRow) : Type 0 where
  pub receipt : (r : Text) → truthy c.purchase_receipt ≡ some r → receipt_in row ≡ some r
  pub nonce : (n : ℕ) → c.refund_nonce ≡ some n → refund_nonce_in row ≡ some n

pub IsRead-Grows :
    {c : Checkpoint} {old new : Option CheckpointRow} → IsRead c old → Grows old new → IsRead c new
IsRead-Grows r g = record {
  receipt = λ t h. g.receipt t (r.receipt t h);
  nonce = λ n h. g.nonce n (r.nonce n h);
}

-- What a merge returned is what the row holds.
pub record IsKept (patch c : Checkpoint) (row : Option CheckpointRow) : Type 0 where
  pub receipt : (r : Text) → c.purchase_receipt ≡ some r → receipt_in row ≡ some r
  pub read : (r : Text) → truthy c.purchase_receipt ≡ some r → receipt_in row ≡ some r
  pub nonce : (n : ℕ) → c.refund_nonce ≡ some n → refund_nonce_in row ≡ some n
  pub set : (n : ℕ) → patch.refund_nonce ≡ some n → (m : ℕ) × (c.refund_nonce ≡ some m)

truthy_twice : (o : Option Text) → truthy (truthy o) ≡ truthy o
truthy_twice none = refl
truthy_twice (some []) = refl
truthy_twice (some (c ∷ s)) = refl

parse_row-IsRead :
    (buffers : Buffers) (row : CheckpointRow) → IsRead (parse_row buffers row) (some row)
unfolding parse_row
parse_row-IsRead buffers row = record {
  receipt = λ r h. sym (truthy_twice row.purchase_receipt) ∙ h;
  nonce = λ n h. h;
}

load-IsRead : (buffers : Buffers) (row : Option CheckpointRow) → IsRead (load buffers row) row
unfolding load
load-IsRead buffers none = record {
  receipt = λ r h. absurd (none-ne-some h);
  nonce = λ n h. absurd (none-ne-some h);
}
load-IsRead buffers (some row) = parse_row-IsRead buffers row

module _ (d : Deps) where
  current_row-Grows : (w : World) → Grows w.row (current_row d w)
  current_row-Grows w = upsert_all-Grows d.buffers w.row (d.others (tick w))

  -- The calls stay backed by a row that has grown.
  regrown :
      (w : World) (row : Option CheckpointRow)
      → AllBacked w
      → Grows w.row row
      → IsLater w (record (logged statement_sent w) { row = row })
  regrown w row b g = record { backed = (tt, All-IsBacked-Grows w.calls g b); grows = g }

  pub load_checkpoint_lem :
      (w : World) → AllBacked w → After (λ c v. IsRead c v.row) w (load_checkpoint d w)
  unfolding load_checkpoint
  load_checkpoint_lem w b =
      statement_lem w b (λ c v. IsRead c v.row) d (read_checkpoint d)
        (returned
          (regrown w (current_row d (logged statement_sent w)) b
            (current_row-Grows (logged statement_sent w)))
          (load-IsRead d.buffers (current_row d (logged statement_sent w))))

  set_nonce :
      (old : Option ℕ) (new : Option ℕ) {n : ℕ}
      → new ≡ some n
      → (m : ℕ) × (coalesce old new ≡ some m)
  set_nonce none new {n} h = (n, h)
  set_nonce (some m) new h = (m, refl)

  upsert-IsKept :
      (row : Option CheckpointRow) (patch : Checkpoint)
      → IsKept patch
          (parse_row d.buffers (upsert d.buffers row patch))
          (some (upsert d.buffers row patch))
  unfolding parse_row upsert values coalesce_row
  upsert-IsKept none patch = record {
    receipt = λ r h. h;
    read = λ r h. sym (truthy_twice patch.purchase_receipt) ∙ h;
    nonce = λ n h. h;
    set = λ n h. (n, h);
  }
  upsert-IsKept (some row) patch = record {
    receipt = λ r h. h;
    read = λ r h. sym (truthy_twice (coalesce row.purchase_receipt patch.purchase_receipt)) ∙ h;
    nonce = λ n h. h;
    set = λ n h. set_nonce row.refund_nonce patch.refund_nonce h;
  }

  -- What a merge returns is the row that it leaves.
  pub merge_checkpoint_lem :
      (w : World)
      → AllBacked w
      → (patch : Checkpoint) → After (λ c v. IsKept patch c v.row) w (merge_checkpoint d patch w)
  unfolding merge_checkpoint merge
  merge_checkpoint_lem w b patch =
      let v = logged statement_sent w in
      statement_lem w b (λ c v. IsKept patch c v.row) d (write_checkpoint d patch)
        (returned
          (regrown w (some (upsert d.buffers (current_row d v) patch)) b
            (Grows-trans (current_row-Grows v) (upsert-Grows d.buffers (current_row d v) patch)))
          (upsert-IsKept (current_row d v) patch))

  -- A statement that leaves the checkpoint alone.
  sent : (w : World) → AllBacked w → IsLater w (logged statement_sent w)
  sent w b = logged_lem w b statement_sent tt

  save_found_lem :
      (w : World)
      → AllBacked w
      → (next : RunAggregate) (event : RunTransitionedEvent) (expected : ℕ) (o : Option RunRecord)
      → After Any w (save_found next event expected (logged statement_sent w) o)
  save_found_lem w b next event expected none = threw (sent w b)
  save_found_lem w b next event expected (some old) =
      elim (Bool-cases (old.aggregate.revision == expected)) [
        | inl same ↦ rw same (returned (record { backed = (tt, b); grows = Grows-refl w.row }) tt)
        | inr other ↦ rw other (threw (sent w b))
      ]

  pub save_run_lem :
      (w : World)
      → AllBacked w
      → (next : RunAggregate) (event : RunTransitionedEvent) (expected : ℕ)
      → After Any w (save_run d next event expected w)
  unfolding save_run
  save_run_lem w b next event expected =
      statement_lem w b Any d (λ v. save_found next event expected v v.run)
        (save_found_lem w b next event expected w.run)

  save_event_lem :
      (w : World)
      → AllBacked w
      → (next : RunAggregate) (event : Option RunTransitionedEvent)
      → After Any w (save_event d next event w)
  save_event_lem w b next none = returned (later_refl b) tt
  save_event_lem w b next (some event) = save_run_lem w b next event (next.revision - 1)

  pub move_lem :
      (w : World)
      → AllBacked w
      → (run_id : Text) (current : RunAggregate) (actor : RunActor) (to : RunStatus)
      → After Any w (move d run_id current actor to w)
  unfolding move
  move_lem w b run_id current actor to = After-onward (instant_lem w b d) λ now v l _.
      After-onward (lift_kept v l.backed transition_refused _)
        λ (result : TransitionResult) v2 l2 _.
          After-onward (save_event_lem v2 l2.backed result.run result.event)
            λ _ v3 l3 _. pure_lem v3 l3.backed Any result.run tt

  pub advance_lem :
      (w : World)
      → AllBacked w
      → (run_id : Text) (current : RunAggregate) (actor : RunActor) (to : RunStatus)
      → After Any w (advance d run_id current actor to w)
  unfolding advance
  advance_lem w b run_id current actor to =
      elim (Bool-cases (leb (status_order to) (status_order current.status))) [
        | inl past ↦ rw past (pure_lem w b Any current tt)
        | inr ahead ↦ rw ahead (move_lem w b run_id current actor to)
      ]

  pub find_pack_lem : (w : World) → AllBacked w → After Any w (find_pack d w)
  unfolding find_pack
  find_pack_lem w b = statement_lem w b Any d (λ v. (ok v.pack, v)) (returned (sent w b) tt)

  pub find_attestation_lem : (w : World) → AllBacked w → After Any w (find_attestation d w)
  unfolding find_attestation
  find_attestation_lem w b =
      statement_lem w b Any d (λ v. (ok v.attestation, v)) (returned (sent w b) tt)

  pub find_run_lem : (w : World) → AllBacked w → After Any w (find_run d w)
  unfolding find_run
  find_run_lem w b = statement_lem w b Any d (λ v. (ok v.run, v)) (returned (sent w b) tt)

  put_pack_row_lem :
      (w : World)
      → AllBacked w
      → (pack : StoredPack) (o : Option StoredPack)
      → After Any w (put_pack_row d pack (logged statement_sent w) o)
  put_pack_row_lem w b pack none =
      returned (record { backed = (tt, b); grows = Grows-refl w.row }) tt
  put_pack_row_lem w b pack (some old) = threw (sent w b)

  pub put_pack_lem :
      (w : World) → AllBacked w → (pack : StoredPack) → After Any w (put_pack d pack w)
  unfolding put_pack
  put_pack_lem w b pack =
      statement_lem w b Any d (λ v. put_pack_row d pack v v.pack) (put_pack_row_lem w b pack w.pack)

  put_attestation_row_lem :
      (w : World)
      → AllBacked w
      → (a : StoredAttestation) (o : Option StoredAttestation)
      → After Any w (put_attestation_row d a (logged statement_sent w) o)
  put_attestation_row_lem w b a none =
      returned (record { backed = (tt, b); grows = Grows-refl w.row }) tt
  put_attestation_row_lem w b a (some old) = threw (sent w b)

  pub put_attestation_lem :
      (w : World) → AllBacked w → (a : StoredAttestation) → After Any w (put_attestation d a w)
  unfolding put_attestation
  put_attestation_lem w b a =
      statement_lem w b Any d (λ v. put_attestation_row d a v v.attestation)
        (put_attestation_row_lem w b a w.attestation)
