-- ===== src/Checkpoint/Tests.antt =====
-- Two workers that merge into one checkpoint.
use ship_yard.Prelude.{◌≡◌, refl, some, none, [], ◌∷◌, ◌++◌, codes}
use ship_yard.Checkpoint.{
  Checkpoint, Buffers, empty_checkpoint, merge, upsert_all, parse_row, values, upsert, coalesce_row,
}
use ship_yard.Checkpoint.Register.{registers, merge-registers}

abbrev buffers : Buffers
buffers = record { from_hex = λ h. h; to_hex = λ b. b }

abbrev first_receipt : Checkpoint
first_receipt = record empty_checkpoint { purchase_receipt = some (codes "first") }

abbrev second_receipt : Checkpoint
second_receipt = record empty_checkpoint {
  purchase_receipt = some (codes "second");
  refund_nonce = some 9;
}

-- The loser of the race reads the winner's receipt back.
keeps_first :
    (merge buffers (upsert_all buffers none (first_receipt ∷ [])) second_receipt).0
    ≡ record empty_checkpoint { purchase_receipt = some (codes "first"); refund_nonce = some 9 }
unfolding merge upsert_all upsert values coalesce_row parse_row codes
keeps_first = refl

merge-registers_example :
    merge buffers (upsert_all buffers none (first_receipt ∷ [])) second_receipt ≡ (
      parse_row buffers (registers buffers ((first_receipt ∷ []) ++ second_receipt ∷ [])),
      registers buffers ((first_receipt ∷ []) ++ second_receipt ∷ []),
    )
merge-registers_example = merge-registers buffers (first_receipt ∷ []) second_receipt
