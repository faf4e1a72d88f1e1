-- ===== src/Sequence.antt =====
-- The part of packages/valory/skills/abstract_round_abci/base.py that turns the requests of the
-- consensus engine into blocks: `Blockchain`, `BlockBuilder` and `RoundSequence`.
pub mod Chain
pub mod Requests
