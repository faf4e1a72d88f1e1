-- ===== src/App.antt =====
-- The FSM app of packages/valory/skills/abstract_round_abci/base.py.
pub mod Timeouts
pub mod Machine
