-- ===== src/Lib.antt =====
-- Bitchchain: a model of the node's core, which is Python, in a cubical type theory.
--
-- The program is a node of a proof-of-work chain with a layer of finality votes. Blocks come from
-- its miner or from peers; `Blockchain` validates a block and applies it to the UTXO set and to
-- its tables; `HybridConsensus` puts a checkpoint under every hundredth block, for which
-- validators vote with their stakes; the peer-to-peer node frames messages, hands blocks and
-- transactions over and gossips; the agent's memory holds the mempool. The privacy layer makes and
-- checks confidential transactions, the wallet keeps keys. The orchestrator puts these together: it
-- mines from the mempool and gives its calls to a JSON-RPC server.
--
-- The files, and the code they are about:
--   Base           names shared by all: exceptions as values, integers, texts, database tables;
--                  Substring, Every: the search in a text, a predicate on a list
--   Json           values of `json`, keyword arguments, and the interface `Codec` of the library
--   Pow            agent/modules/blockchain_core.py: bits, targets, rewards
--     Compact, Supply     encoding of targets; the sum of all rewards
--   Tx             the same file: TxInput, TxOutput, Transaction, BlockHeader, Block
--     Dict, Merkle        to_dict and its reading in get_block; compute_merkle_root
--   Utxo           the same file: UTXOSet;  Spending: what a spend does
--   Chain          the same file: Blockchain
--     Accept, Apply, Leak               validation, application, its failures
--     Committed, Invariant              what is committed; reachable states
--   Htlc           the same file: script builders;  Numbers, Script: their bytes
--   Finality       agent/modules/consensus_engine.py: ValidatorRegistry
--     Threshold, Votes, Slashing        the float test, votes, slashing
--   Consensus      the same file: HybridConsensus;  Finalizing, Replies
--   Mining         the same file: MiningEngine;  Search: the nonce search;  Accepted: mined blocks
--                  before the validation
--   Genesis        agent/modules/blockchain_core.py: create_genesis_block;  Accepted: it before the
--                  validation
--   Wire           agent/modules/network_node.py: messages and inventories
--     Fields, Framing, Inventory        where the fields lie; round trips
--     Chunks                            a buffer that grows
--   Node           the same file: BitchchainNode;  Gossip: broadcasts and the limit on peers;
--                  Version: the greeting
--     Loop, Loop/Cuts                   the loop of a connection, and how its bytes are cut
--     Traffic, Handling, Reach          what a broadcast sends, what the handler leaves alone, the
--                                       reachable states
--   Memory         agent/memory/memory_manager.py;  Laws: what it keeps;  Best: what it selects
--   Curve          agent/modules/privacy_layer.py, lines 19 to 129: secp256k1
--     Multiples, Encoding               double-and-add; compressed points
--   Signature      the same file: ECDSA and its nonces;  Bounds: what a signature's text holds
--   Confidential   the same file: commitments and range proofs
--     Blindings, Forgery                the blinding factors of the bits; what the verifier takes
--   Transfers      the same file: confidential transactions and their verification
--     Decoding, Building                the search for an amount; how a transaction is made
--     Amounts, Balance                  what the searches answer; what verify_range_proofs takes
--   Wallet         agent/modules/wallet.py;  Addresses, Keys: Base58Check, the table of keys
--   Rpc            agent/rpc_server.py: authentication, dispatch and batches
--     Answers, Access                   the responses; who is let in
--     Wiring                            the registration of methods, help and status
--   Orchestrator   agent/orchestrator.py: the agent's state and its mining
--     Calls                             its other calls and the handlers of what peers send
--     Methods                           agent/rpc_server.py: the methods it gives to the server
--     Pool, Submission, Skipped         what mining and sendrawtransaction leave in the mempool,
--                                       and what mining skips
--     Anchors, Coherence, Reach         checkpoints against stored blocks; the calls that keep them
--                                       in step; the reachable agents
--   Cli            agent/main.py: the commands that change the node
--   Llm            tools/llm_client.py: retries, fallback, JSON in an answer
--     Fallback, Extract, Evaluation     the attempts; the braces; the ten questions
--   Research       tools/knowledge_updater.py: papers and what the sources offer
--     Ranking, Ranking/Chosen           scores, and what is chosen
--     Brain, Brain/Urls, Brain/Rerun    the file and the runs; the URLs in the file; one run after
--                                       another
--   Tests          concrete values
--
-- Functions keep the source's names. A method takes the state as its last argument and returns the
-- new one; a Python exception is a value of `Result`, and a call that writes before it raises
-- returns what it wrote. A database table is a list of rows in the order of their row ids. The
-- UTXO set has a connection of its own, which commits behind every call that writes and returns;
-- what a call wrote before it raised is seen by the next calls and committed with them, and is lost
-- when the process ends before that. The blocks are committed by the connection of the chain when a
-- block is complete. Sizes and stakes are natural numbers, values and heights integers with
-- the bounds of the 64-bit columns; little-endian fields raise out of range as `struct.pack` does.
--
-- Parameters: SHA-256 and RIPEMD-160 as functions on bytes; `json.dumps` and `json.loads` as a
-- `Codec`, of which some theorems assume that a dictionary is read back as it was stored; the
-- clock as a number; whether a socket takes a write; HMAC, the generator H and every random number
-- that is drawn; the decoding of a header's credentials; how Python shows a value or an exception;
-- the services of the language models and of the papers, with a state of their own; the floats of
-- a score, of whose comparison one theorem assumes that it is a total order; `str.lower`, the age of
-- a date and the printing of numbers.
--
-- Fuel: the Merkle loop runs for at most the number of transactions, and each round at least
-- halves the level, rounded up; digit counts take 64 rounds, enough for 256-bit targets; a script
-- number's digits take as many rounds as the number; a nonce search has the rounds of its range;
-- the buffer loop has those of the buffer's length, and each round consumes at least 24 bytes.
-- Powers and multiples run
-- for 256 rounds, enough for exponents and scalars below 2^256; 10,001 counters are the source's
-- limit for a hash to the curve; the loops of a nonce take their rounds as an argument, and answer
-- with nothing where these are used up; Base58 runs for as many rounds as its number. The search for
-- URLs has as many steps as the file has characters.
--
-- Not modelled: sockets, the switches between coroutines inside one step of the node, the HTTP
-- transport, the methods of the server that hand on a status, the agent's status, research notes,
-- the parsing of arguments, the benchmark, and the models of tools/hf_model_manager.py, which are
-- downloads that work on vectors of floats. Messages meant for people are left out but for those
-- of the JSON-RPC server. Where Python's `int` reads a sign, a space or an underscore in a
-- hexadecimal text, the model refuses it. An entry of the mempool whose fields have other types than
-- the dataclasses name, or a negative version, index or lock time, is skipped by the model's miner;
-- the source checks no types and keeps it. Texts hold no lone surrogates, which SQLite refuses. The
-- lock that uncommitted rows hold on the database is left out. The clock is read once for the
-- template of a block and its validation. An entry of the mempool whose fields have other types than
-- the dataclasses name, or a negative version, index or lock time, is skipped by the model's miner;
-- the source checks no types and keeps it. Texts hold no lone surrogates, which SQLite refuses. The
-- lock that uncommitted rows hold on the database is left out.
pub mod Base
pub mod Pow
pub mod Json
pub mod Tx
pub mod Utxo
pub mod Chain
pub mod Finality
pub mod Consensus
pub mod Mining
pub mod Htlc
pub mod Genesis
pub mod Tests
pub mod Curve
pub mod Signature
pub mod Wallet
pub mod Rpc
pub mod Orchestrator
pub mod Confidential
pub mod Transfers
pub mod Wire
pub mod Memory
pub mod Node
pub mod Llm
pub mod Research
pub mod Cli
