-- ===== src/Lib.antt =====
-- The reference implementation of the Open Agent Protocol: the parts of reference/ whose results other
-- parties check.
--
-- A resolver parses an intent, evaluates its constraint tree against candidate records and answers with a ranked
-- response (reference/aql/src: Aql). A match broker commits to its index of manifests by a Merkle tree
-- and hands out inclusion proofs (reference/match-broker/broker.js: Merkle). Brokers submit segments to
-- a workflow coordinator, which chains them by hash, evaluates the workflow's constraints, issues a
-- Cross Match Receipt and closes the workflow (reference/coordinator/coordinator.js: Coordinator, whose
-- predicates are Predicate). A tool server answers calls and keeps a chain of signed receipts
-- (reference/server/server.js: Server), which an agent keeps too (reference/agent/agent.js: Agent); an
-- agent checks another's conformance claims (reference/agent/conformance-verifier.js: Conformance), and
-- agents agree on a convention (reference/aht/three-tier.js: Handshake). What is hashed or signed is a
-- canonical text (Json).
--
-- Json: JavaScript values and `canonicalize`; an object is the list of its entries.
-- Merkle: `merkleLeaf`, `merkleNode`, `buildMerkleTree` and a client's `verifyInclusionProof`.
-- Predicate: `evaluatePredicate`, `splitArgs`, `stripQuotes`, `resolvePath`; Predicate/Text is their
--   work on characters.
-- Coordinator: the data. Coordinator/Opening is `openWorkflow`, Ingest `ingestSegment`, Issue
--   `buildCrossMatchReceipt`, Closing `handleRevocation`, `closeWorkflow` and `tickExpiry`, Liveness
--   `publishHeartbeat` and `assumeFromFailover`, Segments `segmentHash` and `verifyCrossMatchReceipt`,
--   Machine the shape of a method: a function on one workflow and the count of clock readings. The other
--   files of the folder are proofs.
-- Aql: constraint trees. Aql/Path is the evaluator's `resolvePath` and `deepEqual`, Leaf `compareLeaf`,
--   `numCompare` and `dateCompare`, Evaluate `evaluate` and `evalNode`, Resolve `resolveIntent`.
-- Aql/Parser: `parseIntent` and `validateConstraintTree` of reference/aql/src/parser.js; Aql/Trees is the
--   grammar of trees, Aql/Grammar and Aql/Intents are proofs.
-- Aql/Projection: which paths the exclude list of a projection removes (reference/aql/src/projection.js).
-- Threshold: `FrostStub` of reference/threshold-signing/threshold-signing.js, which makes a group of shares
--   and signs with enough of them.
-- Agent: reference/agent/agent.js: the policy layers, `invoke`, the kill switch and the local receipt
--   chain; the requests to tools are left out.
-- Validator: `inferConformanceLevel` and `validateReceiptChain` of reference/validator/validate.js.
-- Server: the tables of reference/server/server.js. Server/RateLimit is `checkRpm`, Receipts
--   `persistReceipt` and the check of a receipt, Invoke the handler of /oap/invoke with `dispatch`, Records
--   audit, deletion, incidents and subscriptions, Teamwork the endpoints under /oap/aht. A handler is a
--   function on the tables; the other files of the folder are proofs.
-- Broker: the tables of reference/match-broker/broker.js and the registration of a manifest.
--   Broker/Search is the tokens and the BM25 scores, Filter `passesConstraints`, Ranking `rankCandidates`,
--   Resolve the handlers that answer, Signing `sign` on a decision record. The index is built by Merkle.
-- Conformance: `verifyPeerWitnesses` and `verifyRegistryAnchor` of reference/agent/conformance-verifier.js;
--   Conformance/Verdict is `verifyConformance`. What is fetched, parsed and verified is a `Web`.
-- Handshake: the inference and the regrets of reference/aht/three-tier.js; Handshake/Selection is
--   `runHandshake`. Conventions are their canonical texts; the arithmetic of probabilities is an argument.
-- ReceiptChain: `verifyChain` of tools/oap-receipt-chain/cli.js.
-- Sdk: the interface `ReceiptStore` of sdks/typescript/src/types.ts as operations on a state; Sdk/Memory is
--   `MemoryStore` of storage.ts, Sdk/Service the handlers of server.ts over any store. A call is cut where it
--   awaits, so that calls may alternate. Sdk/Counting, Stored, Ledger and Handling are proofs.
-- Adapters: tool definitions of adapters/mcp and adapters/openai-functions; Adapters/Mcp is the MCP server,
--   Adapters/A2a the translations and the gateway of adapters/a2a. Naming, Serving and Gateway are proofs,
--   the last over `invoke` of Server.
-- Suite: test-suite/runner.js; Suite/Attest is attestation by test-suite/attest.js, Suite/Witnessing its
--   --peer-witness mode before the verifier of Conformance. Fixtures and Claims are proofs.
-- Aql/Collect: `project` of reference/aql/src/projection.js up to its calls of `assign`; Aql/Found, Descent,
--   Walking and Boundary are proofs.
-- Validator/Shape: `validateRequiredFields` and `validateDecisionRecord` of reference/validator/validate.js,
--   on schemas as what they read of them; Validator/Documents is a proof.
-- Prelude: names and lemmas that the others share. Tests: the theorems applied to concrete inputs.
--
-- A number of JavaScript is an element of a type `N` that the definitions take, with the operations on
-- it; counters and positions are natural numbers. SHA-256, signing, `Date.parse`, regular expressions,
-- `JSON.stringify` and the clock are arguments too: a `Host`, a `Runtime` or a function. A date is a
-- natural number of milliseconds, an integer in ReceiptChain, or none if it is not a date. A thrown error is an `err`, or `none`
-- where it is the runtime's TypeError. A Map is a list of entries in insertion order.
--
-- `layers_from` takes the number of leaves as its bound on rounds: each round halves a layer, rounded up,
-- so that a layer of one digest is reached before the bound (Merkle/Inclusion). All other loops go
-- over a list, a text or a tree.
--
-- `closeWorkflow` waits for the registry in the middle, so it is two functions between which other
-- methods may run. Not modelled: HTTP, the engine of the databases, whose tables are lists of rows, key files and processes; the audit entries' data; the
-- texts of reasons and explanations; generated ids, which are arguments where a result depends on them.
mod Prelude
pub mod Json
pub mod Merkle
pub mod Predicate
pub mod Coordinator
pub mod Aql
pub mod Threshold
pub mod Agent
pub mod Validator
pub mod Server
pub mod Broker
pub mod Conformance
pub mod Handshake
pub mod ReceiptChain
pub mod Sdk
pub mod Adapters
pub mod Suite
mod Tests
