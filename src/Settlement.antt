-- ===== src/Settlement.antt =====
-- packages/x402-payments/src/settlement-verifier.ts: a merchant order, its proof and the chain's
-- receipt against what the quote promised.
pub mod Verdict
pub mod Samples
mod Tests
use ship_yard.Prelude.{
  push_if, pushed, is_empty, ℕ, Bool, true, false, not, ◌&&◌, ◌||◌, Option, none, some, List, [],
  ◌∷◌, ◌++◌, Text, text_eq, same_folded, to_lower, unique, ◌==◌, if◌then◌else◌,
}
use ship_yard.Money.{to_string}

pub data OrderStatus : Type 0 where
  checkout_verified payment_confirmed invoiced failed expired cancelled : OrderStatus

-- `SUCCESSFUL_ORDER_STATUSES.has(status)`
abbrev pub is_successful : OrderStatus → Bool
is_successful payment_confirmed = true
is_successful invoiced = true
is_successful _ = false

-- The challenge of the order, which no code here reads, is left out.
pub record MerchantOrder : Type 0 where
  pub order_id : Text
  pub dapp_order_id : Text
  pub status : OrderStatus
  pub chain_id : ℕ
  pub token_address : Text
  pub atomic_amount : Text
  pub payer_address : Text
  pub pay_to_address : Text
  pub expires_at : Text

pub record MerchantPaymentProof : Type 0 where
  pub order_id : Text
  pub transaction_hash : Text
  pub log_index : ℕ
  pub from_address : Text
  pub to_address : Text
  pub atomic_amount : Text
  pub chain_id : ℕ

pub record ReceiptLog : Type 0 where
  pub address : Text
  pub topics : List Text
  pub contents : Text
  pub index : ℕ

pub record TransactionReceipt : Type 0 where
  pub chain_id : ℕ
  pub transaction_hash : Text
  pub status : ℕ
  pub logs : List ReceiptLog

pub record SettlementExpectation : Type 0 where
  pub chain_id : ℕ
  pub token_address : Text
  pub payer_address : Text
  pub recipient_address : Text
  pub atomic_amount : Text
  pub order_id : Text

pub data FailureCode : Type 0 where
  order_not_confirmed order_mismatch chain_mismatch token_mismatch payer_mismatch : FailureCode
  recipient_mismatch amount_mismatch transaction_reverted transaction_hash_mismatch : FailureCode
  transfer_log_missing transfer_log_mismatch : FailureCode

abbrev pub code_index : FailureCode → ℕ
code_index order_not_confirmed = 0
code_index order_mismatch = 1
code_index chain_mismatch = 2
code_index token_mismatch = 3
code_index payer_mismatch = 4
code_index recipient_mismatch = 5
code_index amount_mismatch = 6
code_index transaction_reverted = 7
code_index transaction_hash_mismatch = 8
code_index transfer_log_missing = 9
code_index transfer_log_mismatch = 10

-- `===` on the codes
abbrev pub same_code : FailureCode → FailureCode → Bool
same_code a b = code_index a == code_index b

-- The arguments of a parsed Transfer event.
pub record Transfer : Type 0 where
  pub from : Text
  pub to : Text
  pub value : ℕ

-- The parts of the ethers library that the verifier calls. `get_address` is the checksummed form of
-- an address, `none` where `getAddress` throws; `parse_log` is `none` where `parseLog` throws or
-- returns null; `big_int` is `BigInt` of a text, `none` where it throws.
pub record Ethers : Type 0 where
  pub get_address : Text → Option Text
  pub transfer_topic : Text
  pub parse_log : List Text → Text → Option Transfer
  pub big_int : Text → Option ℕ

pub record SettlementVerification : Type 0 where
  pub valid : Bool
  pub failure_codes : List FailureCode
  pub payment_proof_hash_material : Text

abbrev pub both_some : Option Text → Option Text → Bool
both_some (some a) (some b) = text_eq a b
both_some (some a) none = false
both_some none b = false

-- `receipt.logs.find((candidate) => candidate.index === index)`
unfoldable pub find_log : ℕ → List ReceiptLog → Option ReceiptLog
find_log index [] = none
find_log index (l ∷ ls) = if l.index == index then some l else find_log index ls

-- `topics[0] === topic`
abbrev pub first_topic_is : List Text → Text → Bool
first_topic_is [] topic = false
first_topic_is (t ∷ _) topic = text_eq t topic

-- `items.join(':')`
abbrev pub join_colon : List Text → Text
join_colon [] = []
join_colon (s ∷ []) = s
join_colon (s ∷ t ∷ ts) = s ++ (b':' ∷ join_colon (t ∷ ts))

abbrev pub amounts_equal : ℕ → Option ℕ → Bool
amounts_equal value none = false
amounts_equal value (some n) = value == n

module _ (ethers : Ethers) where
  -- `sameAddress`
  unfoldable pub same_address : Text → Text → Bool
  same_address left right = both_some (ethers.get_address left) (ethers.get_address right)

  -- The comparison of a parsed event in `matchesTransferLog`; a throw gives false.
  unfoldable pub matches_transfer : Option Transfer → SettlementExpectation → Bool
  matches_transfer none expected = false
  matches_transfer (some parsed) expected =
      same_address parsed.from expected.payer_address
      && same_address parsed.to expected.recipient_address
      && amounts_equal parsed.value (ethers.big_int expected.atomic_amount)

  -- `matchesTransferLog`
  unfoldable pub matches_transfer_log : ReceiptLog → SettlementExpectation → Bool
  matches_transfer_log log expected =
      if not (same_address log.address expected.token_address)
        || not (first_topic_is log.topics ethers.transfer_topic)
      then false
      else matches_transfer (ethers.parse_log log.topics log.contents) expected

  abbrev pub log_failures : Option ReceiptLog → SettlementExpectation → List FailureCode
  log_failures none expected = transfer_log_missing ∷ []
  log_failures (some log) expected =
      push_if (not (matches_transfer_log log expected)) transfer_log_mismatch

  -- The conditions of `verifySettlement` with the codes they push, in order, up to the log's.
  abbrev pub settlement_checks :
      MerchantOrder
      → MerchantPaymentProof
      → TransactionReceipt
      → SettlementExpectation
      → List (Bool × FailureCode)
  settlement_checks order proof receipt expected =
      (not (is_successful order.status), order_not_confirmed)
      ∷ (
        not (text_eq order.order_id expected.order_id)
            || not (text_eq proof.order_id expected.order_id),
        order_mismatch,
      )
      ∷ (
        not (order.chain_id == expected.chain_id)
            || not (proof.chain_id == expected.chain_id)
            || not (receipt.chain_id == expected.chain_id),
        chain_mismatch,
      )
      ∷ (not (same_address order.token_address expected.token_address), token_mismatch)
      ∷ (
        not (same_address order.payer_address expected.payer_address)
            || not (same_address proof.from_address expected.payer_address),
        payer_mismatch,
      )
      ∷ (
        not (same_address order.pay_to_address expected.recipient_address)
            || not (same_address proof.to_address expected.recipient_address),
        recipient_mismatch,
      )
      ∷ (
        not (text_eq order.atomic_amount expected.atomic_amount)
            || not (text_eq proof.atomic_amount expected.atomic_amount),
        amount_mismatch,
      )
      ∷ (not (receipt.status == 1), transaction_reverted)
      ∷ (
        not (same_folded receipt.transaction_hash proof.transaction_hash),
        transaction_hash_mismatch,
      )
      ∷ []

  -- `failures` at the end of `verifySettlement`.
  unfoldable pub settlement_failures :
      MerchantOrder
      → MerchantPaymentProof
      → TransactionReceipt
      → SettlementExpectation
      → List FailureCode
  settlement_failures order proof receipt expected =
      pushed (settlement_checks order proof receipt expected)
      ++ log_failures (find_log proof.log_index receipt.logs) expected

  -- `verifySettlement`
  unfoldable pub verify_settlement :
      MerchantOrder
      → MerchantPaymentProof
      → TransactionReceipt
      → SettlementExpectation
      → SettlementVerification
  verify_settlement order proof receipt expected =
      let failures = settlement_failures order proof receipt expected in
      record {
        valid = is_empty failures;
        failure_codes = unique same_code failures;
        payment_proof_hash_material = join_colon (
            to_string expected.chain_id
            ∷ to_lower proof.transaction_hash
            ∷ to_string proof.log_index
            ∷ expected.order_id
            ∷ []);
      }
