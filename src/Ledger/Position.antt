-- ===== src/Ledger/Position.antt =====
-- The position of an asset over the parts of a ledger.
