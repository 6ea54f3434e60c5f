-- ===== src/Settlement/Verdict.antt =====
-- When a settlement is valid, in words.
use ship_yard.Prelude.{
  pushed-nil, passed, passed_two, passed_three, is_empty_sound, ℕ, ◌≡◌, ◌↔◌, refl, sym, ap, arith,
  true, false, Option, none, some, List, [], ◌∷◌, Text, text_eq_iff, same_folded_iff, to_lower,
  ◌==◌, ==_iff, OneOf, All, Option-cases, Bool-cases, inl, inr,
}
use ship_yard.Settlement.{
  MerchantOrder, MerchantPaymentProof, TransactionReceipt, ReceiptLog, SettlementExpectation,
  Transfer, Ethers, is_successful, settlement_checks, both_some, find_log, first_topic_is,
  same_address, matches_transfer, matches_transfer_log, log_failures, settlement_failures,
  verify_settlement,
}

both_some_iff :
    (o p : Option Text) → (both_some o p ≡ true) ↔ ((a : Text) × (o ≡ some a) × (p ≡ some a))
both_some_iff none p = ((λ h. cc), (λ s. cc (s.1)))
both_some_iff (some a) none = ((λ h. cc), (λ s. cc (s.2)))
both_some_iff (some a) (some b) = (
  λ h. (a, refl, ap some (sym ((text_eq_iff a b).0 h))),
  λ s. (text_eq_iff a b).1 (cc (s.1, s.2)),
)

find_log_sound :
    (index : ℕ) (ls : List ReceiptLog) {log : ReceiptLog}
    → find_log index ls ≡ some log
    → OneOf log ls × (log.index ≡ index)
unfolding find_log
find_log_sound index [] h = cc
find_log_sound index (l ∷ ls) {log} h = elim (Bool-cases (l.index == index)) [
  | inl here ↦ let same : l ≡ log = ground arith in (inl (sym same), rw (← same) (ground arith))
  | inr there ↦ let (member, found) = find_log_sound index ls (rw there at h) in (inr member, found)
]

module _ (ethers : Ethers) where
  -- Two texts are addresses with one checksummed form.
  abbrev pub SameAccount : Text → Text → Type 0
  SameAccount left right =
      (a : Text) × (ethers.get_address left ≡ some a) × (ethers.get_address right ≡ some a)

  same_address_iff :
      (left right : Text) → (same_address ethers left right ≡ true) ↔ SameAccount left right
  unfolding same_address
  same_address_iff left right = both_some_iff (ethers.get_address left) (ethers.get_address right)

  -- The log records the expected transfer: the token's own event, from the payer, to the recipient,
  -- of the expected amount.
  pub record IsTransfer (log : ReceiptLog) (expected : SettlementExpectation) : Type 0 where
    pub token : SameAccount log.address expected.token_address
    pub topic : first_topic_is log.topics ethers.transfer_topic ≡ true
    pub parsed : Transfer
    pub event : ethers.parse_log log.topics log.contents ≡ some parsed
    pub from : SameAccount parsed.from expected.payer_address
    pub to : SameAccount parsed.to expected.recipient_address
    pub amount : ethers.big_int expected.atomic_amount ≡ some parsed.value

  matches_sound :
      (log : ReceiptLog) (expected : SettlementExpectation)
      → matches_transfer_log ethers log expected ≡ true
      → IsTransfer log expected
  unfolding matches_transfer_log matches_transfer
  matches_sound log expected h = elim (Option-cases (ethers.parse_log log.topics log.contents)) [
    | inl bad ↦ absurd (ground arith)
    | inr (t, good) ↦ record {
      token = (same_address_iff log.address expected.token_address).0 (ground arith);
      topic = ground arith;
      parsed = t;
      event = good;
      from = (same_address_iff t.from expected.payer_address).0 (ground arith);
      to = (same_address_iff t.to expected.recipient_address).0 (ground arith);
      amount = ground arith;
    }
  ]

  matches_complete :
      (log : ReceiptLog) (expected : SettlementExpectation)
      → IsTransfer log expected
      → matches_transfer_log ethers log expected ≡ true
  unfolding matches_transfer_log matches_transfer
  matches_complete log expected t =
      let token = (same_address_iff log.address expected.token_address).1 t.token in
      let from = (same_address_iff t.parsed.from expected.payer_address).1 t.from in
      let to = (same_address_iff t.parsed.to expected.recipient_address).1 t.to in
      ground (arith, t.topic, t.event, t.amount)

  -- What `verifySettlement` asks for: a successful order for the expected order id; order, proof and
  -- receipt on the expected chain; the expected token, payer, recipient and amount in order and
  -- proof; a successful transaction with the proof's hash; and in it, at the proof's log index, a
  -- log that is the expected transfer.
  pub record IsSettled (order : MerchantOrder) (proof : MerchantPaymentProof)
      (receipt : TransactionReceipt) (expected : SettlementExpectation) : Type 0 where
    pub confirmed : is_successful order.status ≡ true
    pub order_id : order.order_id ≡ expected.order_id
    pub proof_order_id : proof.order_id ≡ expected.order_id
    pub order_chain : order.chain_id ≡ expected.chain_id
    pub proof_chain : proof.chain_id ≡ expected.chain_id
    pub receipt_chain : receipt.chain_id ≡ expected.chain_id
    pub token : SameAccount order.token_address expected.token_address
    pub payer : SameAccount order.payer_address expected.payer_address
    pub sender : SameAccount proof.from_address expected.payer_address
    pub recipient : SameAccount order.pay_to_address expected.recipient_address
    pub receiver : SameAccount proof.to_address expected.recipient_address
    pub order_amount : order.atomic_amount ≡ expected.atomic_amount
    pub proof_amount : proof.atomic_amount ≡ expected.atomic_amount
    pub succeeded : receipt.status ≡ 1
    pub same_hash : to_lower receipt.transaction_hash ≡ to_lower proof.transaction_hash
    pub log : ReceiptLog
    pub found : find_log proof.log_index receipt.logs ≡ some log
    pub transfer : IsTransfer log expected

  log_failures-nil :
      (o : Option ReceiptLog) (expected : SettlementExpectation)
      → (log_failures ethers o expected ≡ [])
        ↔ ((log : ReceiptLog) × (o ≡ some log) × (matches_transfer_log ethers log expected ≡ true))
  log_failures-nil none expected = ((λ h. cc), (λ s. cc (s.1)))
  log_failures-nil (some l) expected = (
    λ h. (l, refl, ground arith),
    λ (k, same, matched).
        let here : matches_transfer_log ethers l expected ≡ true = cc (same, matched) in
        rw here refl,
  )

  failures_sound :
      (order : MerchantOrder) (proof : MerchantPaymentProof) (receipt : TransactionReceipt)
      (expected : SettlementExpectation)
      → settlement_failures ethers order proof receipt expected ≡ []
      → IsSettled order proof receipt expected
  unfolding settlement_failures
  failures_sound order proof receipt expected h =
      let (checks, last) =
        (pushed-nil (settlement_checks ethers order proof receipt expected)
            (log_failures ethers (find_log proof.log_index receipt.logs) expected)).0
          h in
      let c1 = checks.1 in
      let c2 = c1.1 in
      let c3 = c2.1 in
      let c4 = c3.1 in
      let c5 = c4.1 in
      let c6 = c5.1 in
      let c7 = c6.1 in
      let c8 = c7.1 in
      let (log, found, matched) =
        (log_failures-nil (find_log proof.log_index receipt.logs) expected).0 last in
      let (ids, proof_ids) = (passed_two _ _).0 (c1.0) in
      let (order_chain, proof_chain, receipt_chain) = (passed_three _ _ _).0 (c2.0) in
      let (payer, sender) = (passed_two _ _).0 (c4.0) in
      let (recipient, receiver) = (passed_two _ _).0 (c5.0) in
      let (order_amount, proof_amount) = (passed_two _ _).0 (c6.0) in
      record {
        confirmed = (passed _).0 (checks.0);
        order_id = (text_eq_iff order.order_id expected.order_id).0 ids;
        proof_order_id = (text_eq_iff proof.order_id expected.order_id).0 proof_ids;
        order_chain = (==_iff order.chain_id expected.chain_id).0 order_chain;
        proof_chain = (==_iff proof.chain_id expected.chain_id).0 proof_chain;
        receipt_chain = (==_iff receipt.chain_id expected.chain_id).0 receipt_chain;
        token =
            (same_address_iff order.token_address expected.token_address).0 ((passed _).0 (c3.0));
        payer = (same_address_iff order.payer_address expected.payer_address).0 payer;
        sender = (same_address_iff proof.from_address expected.payer_address).0 sender;
        recipient = (same_address_iff order.pay_to_address expected.recipient_address).0 recipient;
        receiver = (same_address_iff proof.to_address expected.recipient_address).0 receiver;
        order_amount = (text_eq_iff order.atomic_amount expected.atomic_amount).0 order_amount;
        proof_amount = (text_eq_iff proof.atomic_amount expected.atomic_amount).0 proof_amount;
        succeeded = (==_iff receipt.status 1).0 ((passed _).0 (c7.0));
        same_hash =
            (same_folded_iff receipt.transaction_hash proof.transaction_hash).0
              ((passed _).0 (c8.0));
        log = log;
        found = found;
        transfer = matches_sound log expected matched;
      }

  failures_complete :
      (order : MerchantOrder) (proof : MerchantPaymentProof) (receipt : TransactionReceipt)
      (expected : SettlementExpectation)
      → IsSettled order proof receipt expected
      → settlement_failures ethers order proof receipt expected ≡ []
  unfolding settlement_failures
  failures_complete order proof receipt expected s =
      let same_ids = text_eq_iff order.order_id expected.order_id in
      let proof_ids = text_eq_iff proof.order_id expected.order_id in
      let order_amounts = text_eq_iff order.atomic_amount expected.atomic_amount in
      let proof_amounts = text_eq_iff proof.atomic_amount expected.atomic_amount in
      let order_chains = ==_iff order.chain_id expected.chain_id in
      let proof_chains = ==_iff proof.chain_id expected.chain_id in
      let receipt_chains = ==_iff receipt.chain_id expected.chain_id in
      let hashes = same_folded_iff receipt.transaction_hash proof.transaction_hash in
      let checks : All (λ c. c.0 ≡ false) (settlement_checks ethers order proof receipt expected) =
        (
          (passed _).1 s.confirmed,
          (
            (passed_two _ _).1 (same_ids.1 s.order_id, proof_ids.1 s.proof_order_id),
            (
              (passed_three _ _ _).1 (
                order_chains.1 s.order_chain,
                proof_chains.1 s.proof_chain,
                receipt_chains.1 s.receipt_chain,
              ),
              (
                (passed _).1
                    ((same_address_iff order.token_address expected.token_address).1 s.token),
                (
                  (passed_two _ _).1 (
                    (same_address_iff order.payer_address expected.payer_address).1 s.payer,
                    (same_address_iff proof.from_address expected.payer_address).1 s.sender,
                  ),
                  (
                    (passed_two _ _).1 (
                      (same_address_iff order.pay_to_address expected.recipient_address).1
                          s.recipient,
                      (same_address_iff proof.to_address expected.recipient_address).1 s.receiver,
                    ),
                    (
                      (passed_two _ _).1
                          (order_amounts.1 s.order_amount, proof_amounts.1 s.proof_amount),
                      (
                        (passed _).1 ((==_iff receipt.status 1).1 s.succeeded),
                        ((passed _).1 (hashes.1 s.same_hash), tt),
                      ),
                    ),
                  ),
                ),
              ),
            ),
          ),
        ) in
      let last =
        (log_failures-nil (find_log proof.log_index receipt.logs) expected).1
          (s.log, s.found, matches_complete s.log expected s.transfer) in
      (pushed-nil (settlement_checks ethers order proof receipt expected)
          (log_failures ethers (find_log proof.log_index receipt.logs) expected)).1
        (checks, last)

  -- A verification is valid exactly when the order, the proof and the receipt settle the
  -- expectation: the order is successful and, with the proof, for the expected order id, chain,
  -- token, payer, recipient and amount, and the transaction succeeded and holds the expected transfer
  -- at the proof's log index.
  pub verify_settlement-valid_iff :
      (order : MerchantOrder) (proof : MerchantPaymentProof) (receipt : TransactionReceipt)
      (expected : SettlementExpectation)
      → ((verify_settlement ethers order proof receipt expected).valid ≡ true)
        ↔ IsSettled order proof receipt expected
  unfolding verify_settlement
  verify_settlement-valid_iff order proof receipt expected = (
    λ h.
        failures_sound order proof receipt expected
          (is_empty_sound (settlement_failures ethers order proof receipt expected) h),
    λ s. rw (failures_complete order proof receipt expected s) refl,
  )
