-- ===== src/Lib.antt =====
-- Decentralized State Machine: devices keep their states in hash chains, bind data by Merkle trees,
-- hold token balances inside their states, and storage nodes order updates by vector clocks.
--
-- The parts and how they fit together. A state (State) carries the hash of the one before it, a
-- sparse index of earlier states, an operation and token balances (Token); `create_next_state`
-- makes it, and a hash chain (Chain) stores and verifies it. Merkle trees (Merkle) give inclusion
-- proofs under a root. A sparse index (Index) keeps checkpoints of a chain and serves its states by
-- number, with a sparse Merkle tree over their hashes. The token state manager (TokenState)
-- computes the balances of the next state and checks forward commitments. Limbo vaults (Vault) hold
-- encrypted content until a proof fulfills a condition against a reference state; some of their
-- conditions are checked by random walks (Walk). Vector clocks (Clock) and the memory storage
-- (Memory) belong to the storage nodes and use none of the others but the helpers.
--
-- Which file models which part:
--   Base      results and errors (dsm/src/types/error.rs, as kinds), maps, machine words, tests
--   Clock     dsm_storage_node/src/storage/vector_clock.rs: VectorClock and its methods; Merge,
--             Scan, Compare and Order are the proofs about `merge` and `compare`
--   Merkle    Sparse is SparseMerkleTreeImpl of dsm/src/merkle/sparse_merkle_tree.rs, with the
--             methods under their names; the loops of update_path, get_proof, verify_proof and
--             from_values are update_levels, sibling_path, fold_path and insert_all. Plain is
--             MerkleTree of dsm/src/merkle/tree.rs; proof_path and climb are the loops of its
--             proofs
--   Token     dsm/src/types/token_types.rs: Amount, Supply, Balance and Registry
--   State     Operation is dsm/src/types/operations.rs; Model and Sparse are State, its hash and
--             its sparse index of dsm/src/types/state_types.rs; Next is create_next_state,
--             create_next_state_optimized, apply_transition and verify_transition_integrity of
--             dsm/src/core/state_machine/transition.rs
--   Chain     HashChain of dsm/src/core/state_machine/hashchain.rs: add_state, the lookups,
--             verify_chain, verify_state, extract_subsequence; Batch is commit_batch,
--             validate_batch and the statuses of batches, with a relation of steps in Batch/Steps;
--             WellFormed is the invariant, Verified is what verify_chain checks, Append, Binding
--             and Queries are the proofs on top
--   Batches   StateBatch and BatchBuilder of dsm/src/core/state_machine/batch.rs: build_from is the
--             part of build with transitions; Manager is BatchManager; Hashes is about verify,
--             Sound about every sequence of calls; Chained is create_batch and
--             add_transition_to_batch of a HashChain with its manager
--   Index     SparseIndexManager of dsm/src/core/index/mod.rs: prune and is_kept are the end of
--             add_state, traverse is the loop of get_state_by_number; Serves, Agrees, Pruning and
--             Proofs are about lookups, additions, pruning and Merkle proofs
--   Walk      the module `algorithms` of dsm/src/core/state_machine/random_walk.rs: walk and
--             coordinates are the loops of generate_positions
--   TokenState  TokenStateManager of dsm/src/core/token/token_state_manager.rs: new_balances is
--             the match of apply_token_operation; Transfers, Blocking and Commitments are the
--             proofs about balances, the lock of the cache, and forward commitments
--   Vault     dsm/src/vault/fulfillment.rs and limbo_vault.rs: Fulfill is verify_fulfillment (its
--             match is verify_condition), Operations the methods of LimboVault, Post the posts;
--             Manager is dlv_manager.rs. Conditions and Complete say what fulfilling means;
--             Lifecycle, History and Claims are about the states of a vault, Integrity about
--             verify and posts, Signatures about multi-signatures, Managed about the manager
--   Memory    MemoryStorage of dsm_storage_node/src/storage/memory_storage.rs: to_evict, evict_one
--             and evict_all are the parts of evict
--
-- How state and errors are modelled. A method with `&mut self` is a function from the old record to
-- the new one; `Result<T, DsmError>` is `Result T` with the kind of the error; a method that
-- changes its object before it fails gives both, the new record and the result. A HashMap is an
-- association list, whose order stands for an order of iteration. Clock readings, and the name of
-- the thread in `create_next_state`, are arguments. A byte string is a list of numbers; so are the
-- strings of a state, as their UTF-8 bytes. An `unwrap` that fails is the error `panic`,
-- and a wait for a lock that the thread itself holds is the error `blocked`; every other lock is
-- free when it is taken.
--
-- Machine integers. A `u64` is a natural number, and additions that the guards of the code leave
-- room for keep their wrap-around as a release build has it. Shifts by a height are masked to six
-- bits.
--
-- Parameters. BLAKE3 is any function from byte strings to byte strings; where a proof needs it, its
-- hashes have 32 bytes. `bincode::serialize` of operations, commitments and balances is any
-- function. The cryptography of a vault (SPHINCS+, Kyber, ML-KEM-512, AES, the Pedersen commitment,
-- hexadecimal writing and the serialization of vaults) is a record of functions, of which a proof
-- supposes what it names: that a key pair signs what verifies, that the check of a signature
-- returns no error, the length of a secret key, that one vault decodes to itself. So are the
-- lengths to which the entries of the memory storage serialize, and the check of a token's policy.
-- The logarithm of a length in floating point, rounded up, is a function that a proof supposes to
-- be exact up to 2 ^ 47.
-- Where security is meant, the conclusion names the two inputs with one hash instead of supposing
-- that there are none.
--
-- Bounds and fuel. The loop over powers of two in the sparse index has 64 rounds, as many as a
-- `u64` has bits (from 2 ^ 63 on the loop of the source has no end, and the model's value is not its
-- own); 20 decimal digits hold every `u64`; the levels of a plain tree are built with the
-- number of leaves as fuel, which each round at least halves; the loops of a sparse tree have one
-- round for each level; `verify_chain` has one round for each number up to the current state's. The
-- walk from a checkpoint of `get_state_by_number` has one round more than the number looked for,
-- and goes up by one number in each where the ids are those for the numbers; nothing in the source
-- adds a checkpoint. The loop of `traverse` in the sparse index has one round for each number from
-- the checkpoint to the one asked for, and the halvings in a token state transition have 64 rounds.
-- The recursion of `verify_fulfillment` is over the condition.
--
-- Not modelled: the chain's own finalizing of batches, `calculate_sparse_checkpoints`, the test
-- data that a batch manager makes for batches without cached transitions (an argument), the store
-- of tokens of the token state manager, the vaults of the policies (DeterministicLimboVault) and
-- the asset manager, smart and forward commitments beyond the checks named, identity, recovery,
-- policies, staking, and the storage node beyond its clocks and its memory storage, which are
-- further components of the program; cryptographic primitives; and network, database and file
-- access. The fields of a state that neither its hash nor the chain reads, and the fields of a
-- sparse proof that get_proof fills with constants, are left out.
pub mod Base
pub mod Clock
pub mod Merkle
pub mod Token
pub mod State
pub mod Chain
pub mod Index
pub mod Vault
pub mod Walk
pub mod Memory
pub mod TokenState
pub mod Batches
