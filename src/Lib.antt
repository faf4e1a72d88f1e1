-- ===== src/Lib.antt =====
-- The core of a framework for agents that decide together: the rounds of an agent service, the app
-- that moves from round to round, and the sequence of blocks that drives it.
--
-- An agent talks to a consensus engine. The engine's requests (begin_block, deliver_tx, end_block,
-- commit) reach a `RoundSequence`, which builds a block, checks and processes each transaction, and at
-- a commit asks the current round, and the rounds of the background apps, whether they have ended. The
-- result and event of a round go to the `AbciApp`, which looks up the next round, cancels the timeouts
-- of the last one and schedules those of the next. At a begin_block the app's time moves on, and
-- timeouts that have expired are processed as events. Each agent's offences are kept in availability
-- windows, from which the amount to slash is computed.
--
-- All but the threshold and the last four is in packages/valory/skills/abstract_round_abci/base.py:
--   Rounds/Threshold           `consensus_threshold` (utils.py of the same skill)
--   Rounds/Majority            `AbstractRound.check_majority_possible`, `is_majority_possible`
--   Rounds/Collection          `CollectionRound`: check_payload, process_payload, and how a transaction
--                              is delivered to it
--   Rounds/SameUntilThreshold  `CollectSameUntilThresholdRound`: end_block
--   Rounds/Keeper              `OnlyKeeperSendsRound`
--   Rounds/Voting              `VotingRound`
--   Rounds/UntilAll            `_CollectUntilAllRound` and its two subclasses
--   Rounds/Confirmed           `CollectDifferentUntilThresholdRound`, `CollectNonEmptyUntilThresholdRound`
--   App/Timeouts               `TimeoutEvent`, `Timeouts`
--   App/Machine                `BackgroundApp`, `AbciApp`; in Machine/Transitions schedule_round and
--                              process_event, in Machine/Time update_time
--   Sequence/Chain             `Blockchain`, `BlockBuilder`
--   Sequence/Requests          `RoundSequence`: begin_block, deliver_tx, end_block, commit, _update_round
--   Database                   `AbciAppDB`
--   Offences/Window            `AvailabilityWindow`
--   Offences/Status            `OffenseType`, `OffenceStatus`
--   Composition                `chain` (packages/valory/skills/abstract_round_abci/abci_app_chain.py), and
--                              the checks of `_MetaAbciApp`
--   Automaton                  `DFA` (autonomy/analyse/abci/app_spec.py)
--   Framing                    `_TendermintABCISerializer`, `VarintMessageReader`
--                              (packages/valory/connections/abci/connection.py)
--   Settlement                 packages/valory/skills/transaction_settlement_abci/payload_tools.py
-- Prelude holds what they share: tests, lists, Python's dict and Counter, results, and methods that
-- change an object before they raise. The modules below a component hold its theorems, and those named
-- Examples apply them to concrete values.
--
-- An exception is a value of a data type of the component. In Sequence a method returns the state it
-- leaves together with its value or exception. The rounds and the app return a state only where they do
-- not raise. Deadlines and timestamps are whole numbers of one unit. A heap is the list of its entries
-- in the order in which they are popped. The values of a payload are of any type with a test for equality.
--
-- The loop of `update_time` runs on fuel: one for each entry in the queue, and one more. With positive
-- timeouts this is enough, since the entries that are due become fewer in each turn. The search of the
-- automaton has fuel for each start state and each transition, which is enough since a state is put
-- into the queue once. The encoder of a varint has fuel for the ten groups that an uint64 can have, and
-- `read_until` for each byte, which is enough for a stream that has the message.
-- The paths through the apps that are composed have fuel for twice the number of apps, since a path
-- enters an app at most twice in a row and never comes back to it. All other loops are structural.
--
-- The sequence takes its app as a record of operations (`Application`), which is not yet filled from
-- App and Rounds. Not modelled: logging, the local clock, the JSON text and hash of the database, the
-- properties of synchronized data (rounds read a record of values), the agreement on offences, the
-- rounds of the skills that are built on the framework, and all that is input and output: the
-- server of the connection to the engine, behaviours, contracts, protocols, the command line and
-- deployment.
mod Prelude
pub mod Offences
pub mod Rounds
pub mod App
pub mod Sequence
pub mod Database
pub mod Automaton
pub mod Framing
pub mod Composition
pub mod Settlement
