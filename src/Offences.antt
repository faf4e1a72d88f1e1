-- ===== src/Offences.antt =====
-- Offence tracking of packages/valory/skills/abstract_round_abci/base.py.
pub mod Window
pub mod Status
mod Examples
