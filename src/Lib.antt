-- ===== src/Lib.antt =====
-- A model of svpchain-research-agent, an agent that trades and reads on behalf of a user who has
-- delegated to it by a chain of signed credentials (SVP-DT tokens).
--
-- Parts. A request carries a proof, which is a chain of tokens in base64. The execution service
-- (internal/delegated) checks it, builds the requested message for the credential's principal, wraps
-- it with the chain of tokens, signs the wrapper with the operator key (internal/operator) and
-- broadcasts it; it also registers the agent, records and claims what it earns, and authorizes reads.
-- The intermediary (internal/intermediary) uses the same check, and the same recording of a spend,
-- to charge its own fee and pass a narrowed credential on to a further agent. Tenants use
-- internal/agentchain to build transactions that they sign themselves, to land them, and to ask the
-- chain, over gRPC or over its REST API (internal/agentrest). Operations are offered as tools by
-- name (internal/toolbridge). internal/wire builds all this from the configuration, and the binary
-- (cmd/svpchain-research-agent) runs the intermediary on the delegated service that it built.
--
-- Files.
--   Base: lists, results with an error, a state with failures, int64 and big integers, base64, hex.
--   Json: values of encoding/json, decoded into maps, strings, uint32 and structs with one field;
--     its lexer is left out.
--   Svpdt: the types and functions of the credential library, as a record of parameters.
--   Chain: coins, messages, accounts, results of broadcasts.
--   Operator: internal/operator, SignTx and GasFreeFor of txsign.go, Load of key.go.
--   Delegated: the Config (`Deps`) and the Service of internal/delegated/service.go. Its children:
--     Resolver (resolver.go), Proof (walletParams, verifyProof, preflight), Execute (execute and the
--     four Execute operations), Identity (Identity, SelfRegister, SelfUpdate), Settlement
--     (settlement.go), Reads (reads.go), ReadTenants (read_tenants.go), and Sequence, the mutex of
--     service.go with the calls that run at once.
--   Agentchain: internal/agentchain, authorize of service.go and assemble of txbuild.go; its children
--     Coin (coins and ids of service.go), Inputs and Builds (txbuild.go), Broadcast (broadcast.go),
--     Queries (query.go).
--   Config: internal/config/config.go, Load with its defaults and checks.
--   Intermediary: Forward and narrow of internal/intermediary/intermediary.go, and coins.go; its
--     children Messages and Sender (sender.go) and Server (server.go), and Traced, which writes down the
--     calls of the recorder and of the sender beside the state.
--   Toolbridge: internal/toolbridge, adapter.go; its children Families (register.go), Chain
--     (register_chain.go), Execution (register_execution.go) and Skills (BySkill of adapter.go).
--   Agentrest: internal/agentrest/client.go; its child BaseUrl has the loop of New.
--   Wire: internal/wire, BuildProfile, the tenant sources and the profile.
--   Agent: cmd/svpchain-research-agent/main.go, run, and the intermediary on the delegated service.
--   Tests: a concrete world, and each theorem applied in it.
-- The child modules of these, such as Delegated/Proof/Soundness, hold the proofs.
--
-- Conventions. A Go function that may fail answers a Result; one that also reads or changes the
-- service, the clock or the chain is a function of the state that answers a Result and the state
-- after it, which is kept when it fails. The world `W` stands for all that the process talks to:
-- every query and broadcast may answer anything, and may change it. The ghost field `sent` of the
-- service lists the transactions that were handed to the chain. A runtime panic is the error
-- `panic`. Text that Go formats into an error is kept as the format and its arguments.
--
-- Bounds. One function runs on fuel, the loop that trims a base URL; fuel above the text's length is
-- enough. All other loops are over lists. The int64 sums and differences wrap, and a uint32 is a
-- number that decoding keeps below 2^32.
--
-- Concurrency. Each operation is one sequence of steps, but for Delegated/Sequence, where calls run
-- at once and interleave at each lock, read, signature and broadcast. There the chain may change
-- the sequence that it answers at any time, since a broadcast ends before its transaction is
-- committed, and may have been refused.
--
-- Not modelled: contexts and their cancellation; the mutexes of the caches; the HTTP and A2A servers
-- and clients; the agent card; the construction of library objects in BuildProfile; flags and
-- signals; the printing of the allowed keys in an error (keyList). The credential library, the MCP
-- handlers, the chain's modules, protobuf, net/http and the cryptography are parameters; so is how
-- encoding/json reads a task's request and a tool's input into its struct, which goes by reflection.
pub mod Base
pub mod Json
pub mod Svpdt
pub mod Chain
pub mod Config
pub mod Operator
pub mod Delegated
pub mod Agentchain
pub mod Intermediary
pub mod Toolbridge
pub mod Agentrest
pub mod Wire
pub mod Agent
pub mod Tests
