-- ===== src/Pipeline/Backed.antt =====
-- What a presented payment and a sent refund have to do with the row of the checkpoint.
use ship_yard.Prelude.{ℕ, ◌≡◌, Option, none, some, List, [], ◌∷◌, Text, All, none-ne-some}
use ship_yard.Checkpoint.{
  Checkpoint, CheckpointRow, truthy, coalesce, Buffers, coalesce_row, values, upsert, upsert_all,
}
use ship_yard.Pipeline.State.{
  Call, statement_sent, classified, acquired, nonce_reserved, bridge_quoted, signed, published,
  nonce_asked, refund_sent, target_paid, bridge_submitted, bridge_asked, probed, attested,
  leg_recorded, World,
}

-- The receipt that a row holds, as `parseRow` reads it.
abbrev pub receipt_in : Option CheckpointRow → Option Text
receipt_in none = none
receipt_in (some row) = truthy row.purchase_receipt

-- The nonce of the refund that a row holds.
abbrev pub refund_nonce_in : Option CheckpointRow → Option ℕ
refund_nonce_in none = none
refund_nonce_in (some row) = row.refund_nonce

-- What a call says of the checkpoint.
abbrev pub IsBacked : Option CheckpointRow → Call → Type 0
IsBacked row (probed scenario receipt) = receipt_in row ≡ some receipt
IsBacked row (refund_sent input) = refund_nonce_in row ≡ some input.nonce
IsBacked row statement_sent = Unit
IsBacked row classified = Unit
IsBacked row acquired = Unit
IsBacked row nonce_reserved = Unit
IsBacked row bridge_quoted = Unit
IsBacked row signed = Unit
IsBacked row published = Unit
IsBacked row (nonce_asked nonce) = Unit
IsBacked row (target_paid key) = Unit
IsBacked row (bridge_submitted key) = Unit
IsBacked row (bridge_asked transfer) = Unit
IsBacked row (attested input) = Unit
IsBacked row (leg_recorded l) = Unit

-- The calls so far are backed by the row as it is.
abbrev pub AllBacked : World → Type 0
AllBacked w = All (IsBacked w.row) w.calls

-- A later row holds what an earlier one held.
pub record Grows (old new : Option CheckpointRow) : Type 0 where
  pub receipt : (r : Text) → receipt_in old ≡ some r → receipt_in new ≡ some r
  pub nonce : (n : ℕ) → refund_nonce_in old ≡ some n → refund_nonce_in new ≡ some n

pub Grows-refl : (row : Option CheckpointRow) → Grows row row
Grows-refl row = record { receipt = λ r h. h; nonce = λ n h. h }

pub Grows-trans : {a b c : Option CheckpointRow} → Grows a b → Grows b c → Grows a c
Grows-trans g k = record {
  receipt = λ r h. k.receipt r (g.receipt r h);
  nonce = λ n h. k.nonce n (g.nonce n h);
}

IsBacked-Grows :
    {old new : Option CheckpointRow} (c : Call) → Grows old new → IsBacked old c → IsBacked new c
IsBacked-Grows (probed scenario receipt) g h = g.receipt receipt h
IsBacked-Grows (refund_sent input) g h = g.nonce input.nonce h
IsBacked-Grows statement_sent g h = tt
IsBacked-Grows classified g h = tt
IsBacked-Grows acquired g h = tt
IsBacked-Grows nonce_reserved g h = tt
IsBacked-Grows bridge_quoted g h = tt
IsBacked-Grows signed g h = tt
IsBacked-Grows published g h = tt
IsBacked-Grows (nonce_asked nonce) g h = tt
IsBacked-Grows (target_paid key) g h = tt
IsBacked-Grows (bridge_submitted key) g h = tt
IsBacked-Grows (bridge_asked transfer) g h = tt
IsBacked-Grows (attested input) g h = tt
IsBacked-Grows (leg_recorded l) g h = tt

pub All-IsBacked-Grows :
    {old new : Option CheckpointRow} (calls : List Call)
    → Grows old new
    → All (IsBacked old) calls
    → All (IsBacked new) calls
All-IsBacked-Grows [] g h = tt
All-IsBacked-Grows (c ∷ cs) g h = (IsBacked-Grows c g h.0, All-IsBacked-Grows cs g h.1)

coalesce-some : {A : Type 0} (a b : Option A) {x : A} → a ≡ some x → coalesce a b ≡ some x
coalesce-some none b h = absurd (none-ne-some h)
coalesce-some (some y) b h = h

truthy-coalesce :
    (a b : Option Text) {x : Text} → truthy a ≡ some x → truthy (coalesce a b) ≡ some x
truthy-coalesce none b h = absurd (none-ne-some h)
truthy-coalesce (some []) b h = absurd (none-ne-some h)
truthy-coalesce (some (c ∷ s)) b h = h

pub upsert-Grows :
    (buffers : Buffers) (row : Option CheckpointRow) (patch : Checkpoint)
    → Grows row (some (upsert buffers row patch))
unfolding upsert coalesce_row
upsert-Grows buffers none patch = record {
  receipt = λ r h. absurd (none-ne-some h);
  nonce = λ n h. absurd (none-ne-some h);
}
upsert-Grows buffers (some row) patch =
    let new = values buffers patch in
    record {
      receipt = λ r h. truthy-coalesce row.purchase_receipt new.purchase_receipt h;
      nonce = λ n h. coalesce-some row.refund_nonce new.refund_nonce h;
    }

pub upsert_all-Grows :
    (buffers : Buffers) (row : Option CheckpointRow) (patches : List Checkpoint)
    → Grows row (upsert_all buffers row patches)
unfolding upsert_all
upsert_all-Grows buffers row [] = Grows-refl row
upsert_all-Grows buffers row (p ∷ ps) =
    Grows-trans (upsert-Grows buffers row p)
      (upsert_all-Grows buffers (some (upsert buffers row p)) ps)
