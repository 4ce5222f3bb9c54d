-- ===== src/Lib.antt =====
-- The validity proposer of op-succinct (op-succinct/validity), the program that aggregates its range
-- proofs (op-succinct/programs/aggregation), the range program and its witness
-- (op-succinct/programs/range, op-succinct/utils/client, op-succinct/utils/host), the block ranges and
-- the data fetcher of the host (op-succinct/utils/host), and the fault proof proposer and challenger
-- (op-succinct/fault-proof).
--
-- The proposer proves a rollup's blocks in ranges. It keeps its requests in a database. An iteration of
-- its loop adds requests for the blocks that no request has, adds a request to aggregate ranges that
-- follow one another, starts proofs up to two limits, looks at those under way, and submits an
-- aggregation proof that is complete.
--
-- The fault proof proposer creates dispute games instead, proves the ones that are challenged, resolves
-- them and claims bonds, each in a task of its own; the challenger challenges games with a wrong claim.
-- Both choose games in the same way (FaultProof). A range proof runs a program on a witness that the host
-- collected while it ran the same program.
--
--   Prelude: Boolean tests, lists, a stable sort, and library names for the other modules.
--   Ranges: validity/src/utils.rs; find_gaps, get_ranges_to_prove.
--   Request: validity/src/db/types.rs, the statistics of validity/src/types.rs, validity/src/config.rs.
--   Db: validity/src/db/client.rs and validity/migrations. Db.Table has the tables and the shared
--     conditions, Db.Queries the queries, Db.Updates the statements that write.
--   World: what an operation acts on (the database, the TaskMap, the transactions sent, the clock), and
--     operations as functions of it with a result Ok, Err or a panic. World.Outcomes passes results on;
--     World.Safe and World.Triple have the proof rules.
--   Env: what is asked of code that is not here, the parameter of the operations.
--   Requester: validity/src/proof_requester.rs.
--   Proposer: validity/src/proposer.rs. Chain: the contract (validity/src/contract.rs too); Cover:
--     add_new_ranges; Aggregate: create_aggregation_proofs and validate_aggregation_request; Queue:
--     request_queued_proofs; Tasks: the handlers of what is under way; Submit: submit_agg_proofs;
--     Loop: new, initialize_proposer, run_loop_iteration.
--   WellFormed: the invariant of rows and tasks, through all of the above.
--   Aggregation: programs/aggregation/src/main.rs, with utils/client/src/types.rs and boot.rs.
--   BlockRange: utils/host/src/block_range.rs.
--   FaultProof: fault-proof/src/lib.rs; which dispute games are challenged, defended and resolved.
--     Search: the output root of a block, and the searches that compare games with it.
--     Agent: the tasks and transactions of the two programs, and their operations as actions with a
--     result Ok, Err or a panic. Proposer: fault-proof/src/proposer.rs, one definition for each function
--     and for what a task runs, and the runs in which the loop and its tasks take turns. Challenger:
--     fault-proof/bin/challenger.rs.
--   Fetcher: utils/host/src/fetcher.rs; find_block_by_timestamp, get_safe_l1_block_for_l2_block,
--     get_l1_head and the headers for the aggregation program.
--   Derivation: utils/client/src/client.rs, utils/client/src/witness/executor.rs and
--     programs/range/utils/src/lib.rs; advance_to_target over the state of the kona library, the check
--     of the claim, and what the range program commits.
--   Witness: utils/client/src/witness and oracle/blob_provider.rs, utils/host/src/witness_generation;
--     PreimageStore and BlobStore, and the run that collects them.
--   Examples: tests and instances on concrete inputs.
--
-- A function of the source has a definition of its name; its parts between two awaits, or in one arm
-- of a match, are definitions beside it. Block numbers are natural numbers, never negative; an
-- addition or a sum that overflows, of i64, u64 or u128, is none or a panic, as in a debug build, and so
-- is a checked conversion to a smaller integer that does not fit. Loops of the source are
-- recursions on lists; the loops that split a range run on fuel, a round for each block and one more,
-- which is enough where the theorems say so. The binary searches of the data fetcher run on fuel two
-- above the upper bound, which is enough; advance_to_target runs on fuel two above the payloads that
-- the source has. A program that reads a witness is a tree of its reads, of any shape, which the first
-- error ends. Every call of the database may fail (World.faults), and then has written nothing. An
-- operation is given the answers of the outside at once, a new set for each part of an iteration. The
-- configured intervals are u64 that the source casts to i64; the model has the same number, which is
-- what the cast gives below 2 ^ 63.
--
-- Not modelled: logs and gauges, since nothing reads them back; the RPC nodes, the contracts, the host,
-- the prover network, the hashes, the KZG library, the serialisers and the conversion of an interval for
-- the database (the argument of new), which are parameters; the percentage of the malicious challenger,
-- a float that is only compared, which is a Boolean and a draw; the interleaving of a spawned task with
-- the statements of another operation, whose runs the theorems take one operation at a time; proofs that
-- the prover returns are taken as they are. The RPC calls of the data fetcher, the pipeline and the
-- executor of blocks (the kona library), the hosts for Celestia and Ethereum, and the scripts are other
-- programs.
pub mod Prelude
pub mod Ranges
pub mod Request
pub mod Db
pub mod World
pub mod Env
pub mod Requester
pub mod Proposer
pub mod WellFormed
pub mod Witness
pub mod Aggregation
pub mod BlockRange
pub mod Examples
pub mod FaultProof
pub mod Fetcher
pub mod Derivation
