-- ===== src/Lib.antt =====
-- ethier, the Go side of a suite for smart contracts: the `ethier shuffle` command (ethier/), the map
-- from EVM program counters to Solidity source with its coverage report (solcover/), the helpers for
-- Ethereum accounts (eth/), the generator of Go bindings `ethier gen` (ethier/), and the test doubles
-- on a simulated chain (ethtest/).
--
-- The parts, and the files that model them (paths from the repository's root):
--
-- - ethier/shuffle.go, the verifiable shuffle: Shuffle/Entropy is the type `entropy` (fold,
--   hashAndFold), Shuffle/Lines is `sortedNonEmpty`, Shuffle/Command is `externalEntropy` and the
--   command `shuffle`, which reads the flags, folds the entropy of the flag and the lines, and prints
--   the first lines of the shuffled ones. Shuffle/Tests runs it.
-- - solcover/solcover.go: Solcover/ByteCode is `parseCode`, Solcover/Location is `locationFromNode`,
--   Solcover/SourceMap is `parseSrcMap`, Solcover/Registry holds the package's maps and the functions
--   RegisterSourceCode, RegisterContract, RegisterDeployedContract, Source and SourceByName.
--   RegisterContract joins the two parsers: the i-th location gets the i-th op code.
--   Solcover/Tests runs them.
-- - solcover/coverage.go: Solcover/Coverage is the collector, `Collector()` and its calls by the EVM
--   as events; it asks `Source` where a program counter lies and registers what is deployed.
--   Solcover/Coverage/Report is `lcovTraceFile`. Solcover/Coverage/Tests runs them.
-- - eth/signer.go: Eth/Signer is `CompactSignature`, `WithPersonalMessagePrefix` and the signing
--   methods; the key stays inside the signature function that is a parameter. Eth/Wallet is the making
--   of Signers, with `HDPathPrefix`. Eth/Tests runs them.
-- - eth/converters.go: Eth/Converters is `EtherFraction` and `Ether`.
-- - ethier/gen.go: Gen is the command `gen` and the check of its arguments, Gen/Sources is
--   `extendGeneratedCode`. Gen/Tests runs them.
-- - ethtest/simbackend.go: Ethtest/Backend is the `SimulatedBackend` with its transactions and blocks,
--   Ethtest/Backend/Accounts its accounts by number, Ethtest/Backend/Genesis is `NewSimulatedBackend`.
--   A call of the chain brings the trace of its EVM, which runs in the collector of Solcover/Coverage.
--   Ethtest/Backend/Life takes the three together: contracts are registered, a backend is made with a
--   collector for them, and transactions are sent.
-- - ethtest/chainlinktest/chainlinktest.go: Ethtest/Chainlink is the goroutine `fulfill` of the VRF
--   coordinator, with Close and WaitFulfilled, as steps between those of other goroutines;
--   Ethtest/Chainlink/Requests joins it with the subscription that feeds its channel of requests;
--   Ethtest/Chainlink/Deploy is `DeployAll`, `Faucet` and `Fee`.
-- - ethtest/openseatest, ethtest/wethtest and ethtest/factorytest: Ethtest/Doubles.
-- - The generated.go of chainlinktestabi, openseatestabi and wethtestabi: Ethtest/Bindings. What
--   abigen repeats is modelled once, in Ethtest/Bindings/Contract, Methods and Events, over the
--   iterators of logs in Logs and the subscriptions in Watch; ChainlinkAbi, OpenSeaAbi and WethAbi hold
--   the contracts with their own methods, events and rules. Tokens compares the methods that tokens
--   share.
-- - ethtest/ethtest.go and ethtest/revert/revert.go: Ethtest/Helpers. Ethtest/Errors holds the errors
--   of these packages and what becomes of a test.
-- - Golang/ is what these files use of Go's standard library: the split, join and trimming of bytes,
--   sorting, hexadecimal text, strconv.Atoi, the printing of an int.
-- - Common/ holds the shared types, lists, byte strings, maps as association lists, results with an
--   error or a run-time panic, and the exclusive or.
--
-- Numbers are naturals; a uint64 keeps its wrap-around, an int is read from its two's complement. A
-- byte string is a list of its bytes. A map is an association list; the order in which Go walks one
-- is a parameter where it can matter.
--
-- Loops that are not over a list have fuel. `fold` over n bytes, a multiple of 8, has n / 8 + 1 rounds:
-- one for each word and one for the last test. `parse_loop` over n bytes has n + 1, since each round
-- moves the program counter forward; its uint64 cannot wrap around while the code is shorter than
-- 2 ^ 63 bytes. The replacement of placeholders and the trimming have as many rounds as bytes, and
-- take one byte at least in each. `fast_forward` has one round more than there are blocks to go, and
-- `find_base` one more than there are levels up to the nearest go.mod, and an iterator of logs is called
-- once more than there are logs.
--
-- Parameters, since their code is not in the repository: Keccak256 and SHA-256, the swaps that
-- math/rand makes for a seed, go-ethereum's op codes, the offset mapper, ECDSA signatures, the source
-- of random bytes, bip39, hdwallet and Tink, go-ethereum's simulated chain, keys, abi and bind, the
-- file system, the processes solc and abigen, and Go's own parser and printer.
--
-- The printing of an int has twenty rounds, for its digits. A count of hits is the 64-bit pattern of
-- an int.
--
-- Not modelled: log output, the command-line library's own work, the Solidity contracts, and what the
-- build generates from them, but for the three packages of bindings that the repository holds; what closing
-- an iterator does to its subscription, which is go-ethereum's.
pub mod Common
pub mod Eth
pub mod Ethtest
pub mod Gen
pub mod Golang
pub mod Shuffle
pub mod Solcover
