-- ===== src/Lib.antt =====
-- cc-vrf: verifiable random outcomes of an operator, after RFC 9381 (ECVRF-EDWARDS25519-SHA512-TAI).
--
-- The program has these parts. packages/ecvrf computes: it derives keys, proves, verifies, hashes a
-- proof to its beta, and expands a beta to a stream of values. packages/vrf-client talks to the chain:
-- it derives the addresses of records, fetches them, builds the instructions of the Solana program
-- under programs/cc-vrf, and verifies a commit from end to end. apps/dice-demo and apps/website use
-- both packages.
--
-- The files.
--   Common: lists, bytes, results that may be errors, tests, bit operations and integers, all over
--     the native natural numbers.
--   Ecvrf/Encoding: packages/ecvrf/src/encoding.ts. A Uint8Array is a list of numbers, a string the
--     list of its code units, a bigint a natural number or, where the source tests for a negative
--     one, an integer.
--   Ecvrf/Curve: what the package takes from @noble/ed25519 and @noble/hashes, an interface
--     (`Curve`), with its documented behaviour as named hypotheses (`IsNoble`, `IsEdwards`).
--   Ecvrf/Suite, HashToCurve, Keypair, Prove, Verify: suite.ts, hashToCurve.ts, keypair.ts with
--     nonce.ts, prove.ts with challenge.ts, and verify.ts with proofToHash.ts. A function that throws
--     returns a `Result`.
--   Ecvrf/Expand: expand.ts. The variables that the closures of vrfStream share are the record
--     `Stream`; each operation returns the stream that it leaves behind.
--     Expand/Numbers rounds the sum of nextRange as a JavaScript number, and Expand/Slots is the array
--     that shuffle writes to, with undefined elements and the properties of negative indices.
--   Client/Platform: what the client takes from @solana/web3.js, @lightprotocol/stateless.js and
--     @noble/hashes, an interface (`Platform`, `IsPlatform`), and the errors that it throws.
--   Client/Addresses: packages/vrf-client/src/addresses.ts and constants.ts.
--   Client/Verify: verifyEndToEnd.ts.
--   Client/Light: light.ts, over an interface of the RPC and of the SDK's packed accounts (`Rpc`).
--   Client/Operations: operations.ts, over the Anchor coder (`Program`). An instruction is the method
--     with the arguments that it is called with.
--   Client/Events: the search for commit events in operations.ts, over an interface of the connection
--     and of the log parser (`Connection`).
--   Program: programs/cc-vrf/src. A handler of instructions/ takes the chain (the rows of the state
--     tree and the log of events) and returns the next one or an error; lib.rs is `dispatch`. The
--     Light SDK and its system program are an interface (`LightSdk`) with their documented behaviour
--     (`IsLight`). Program/Transition says what an accepted call does, Program/Registry follows the
--     chain over any sequence of calls, and Program/Delivery sends the client's instructions to it.
--   Demo: apps/dice-demo/src/commands.ts and state.ts. A command takes the world to a result and the
--     world that it leaves, also where it throws; the state file, the cluster, the clock and the
--     random source are an interface (`Host`, `IsHost`).
--   Website: the logic of apps/website/src: the check of pages/VerifyPage.tsx, the lookup of
--     pages/LookupPage.tsx, the browser demo of sections/ClientDemo.tsx and the wallet demo of
--     sections/WalletDemo.tsx, whose wallet and cluster are a `Host`. A handler takes the variables
--     of its component to those that it leaves; what a user types on the verify page is the `Form`.
--   Examples: the theorems at concrete inputs, over a toy curve, hash and platform.
--
-- Loops and fuel. The 256 rounds of encodeToCurveTAI are counted down. nextBytes runs on as much fuel
-- as bytes are asked for, since each round writes a byte at least. The rejection loop of nextRange has
-- no bound in the source: its model takes fuel and returns the error `stuck` when it runs out, which
-- is no error of the program. The scan of a wallet's history runs on its limit as fuel, since a page
-- that is not empty adds to the count.
--
-- The rounds of the demo's loops are counted down from a whole number of rounds.
--
-- Not modelled: of the website the choice of a cluster, the prefill of a form from the
-- link and what is only shown; program.ts (a constructor call) and the IDL (generated), the command line
-- and the configuration of the demo (cli.ts, connection.ts), what it prints, and the costs in SOL and
-- dollars, which are floating-point numbers. The random source of generateKeyPair is its argument.
-- The promises of the client are the results of its calls in order, and the flag of the SDK that
-- forceLightV2 sets is left to the SDK. Anchor's reading of an instruction is field by field. The
-- compute budget that the demo adds to a transaction is left to the cluster.
pub mod Common
pub mod Ecvrf
pub mod Client
pub mod Program
pub mod Demo
pub mod Website
mod Examples
