-- ===== src/Settlement/Samples.antt =====
-- A settled order for the tests, where every text is its own checksummed address.
use ship_yard.Prelude.{ℕ, Option, none, some, List, [], ◌∷◌, Text}
use ship_yard.Settlement.{
  MerchantOrder, MerchantPaymentProof, TransactionReceipt, ReceiptLog, SettlementExpectation,
  Transfer, Ethers, payment_confirmed,
}

abbrev pub read_amount : Text → Option ℕ
read_amount [] = none
read_amount (c ∷ _) = some c

abbrev pub read_log : List Text → Text → Option Transfer
read_log (_ ∷ from ∷ to ∷ []) (c ∷ _) = some record { from = from; to = to; value = c }
read_log _ contents = none

abbrev pub plain : Ethers
plain = record {
  get_address = some;
  transfer_topic = 1 ∷ [];
  parse_log = read_log;
  big_int = read_amount;
}

abbrev pub paid_order : MerchantOrder
paid_order = record {
  order_id = 7 ∷ [];
  dapp_order_id = 8 ∷ [];
  status = payment_confirmed;
  chain_id = 56;
  token_address = 2 ∷ [];
  atomic_amount = 50 ∷ [];
  payer_address = 3 ∷ [];
  pay_to_address = 4 ∷ [];
  expires_at = 9 ∷ [];
}

abbrev pub payment_proof : MerchantPaymentProof
payment_proof = record {
  order_id = 7 ∷ [];
  transaction_hash = 5 ∷ [];
  log_index = 1;
  from_address = 3 ∷ [];
  to_address = 4 ∷ [];
  atomic_amount = 50 ∷ [];
  chain_id = 56;
}

abbrev pub transfer_log : ReceiptLog
transfer_log = record {
  address = 2 ∷ [];
  topics = (1 ∷ []) ∷ (3 ∷ []) ∷ (4 ∷ []) ∷ [];
  contents = 50 ∷ [];
  index = 1;
}

abbrev pub receipt_of : ℕ → TransactionReceipt
receipt_of status = record {
  chain_id = 56;
  transaction_hash = 5 ∷ [];
  status = status;
  logs = transfer_log ∷ [];
}

abbrev pub expectation : SettlementExpectation
expectation = record {
  chain_id = 56;
  token_address = 2 ∷ [];
  payer_address = 3 ∷ [];
  recipient_address = 4 ∷ [];
  atomic_amount = 50 ∷ [];
  order_id = 7 ∷ [];
}
