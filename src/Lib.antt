-- ===== src/Lib.antt =====
-- Verification of Seth, an Ethereum client wrapper in Go: the decision logic of the client over an
-- abstract node.
--
-- The program. A Client (client.go) owns a contract store of ABIs and bytecodes
-- (contract_store.go), a contract map from addresses to contract names (contract_map.go), an ABI
-- finder that joins the two (abi_finder.go), a nonce manager (nonce.go), a tracer (tracing.go) and
-- a cache of block headers (header_cache.go).
--
-- The files. Each module is named for the Go file that it models, and its children hold what is
-- proved of it. Go names are spelled in lower case with underscores: AddContract is add_contract.
--
-- Prelude: Go's strings as lists of bytes, its 64-bit integers, its maps as association lists with
-- distinct keys, its errors, and the outcome of a call (a value, an error or a panic).
--
-- Config models config.go (Config.Read is ReadConfig, Config.Keys is about AppendPksToNetwork) and,
-- in Config.Validate, ValidateConfig of client.go. Duration models the Duration of util.go, and
-- ClientBuilder models client_builder.go: a builder method is a function whose outcome is the
-- changed builder, or a panic.
--
-- HeaderCache models header_cache.go: the state is the record LfuHeaderCache, with Get, Set and
-- evict as get, set and evict.
--
-- ContractMap models contract_map.go, ContractStore contract_store.go, and AbiFinder abi_finder.go.
--
-- Decode models the parts of decode.go that turn bytes into named values, TxDecode its
-- decodeTransaction, and TxDecode.Reverts DecodeCustomABIErr and callAndGetRevertReason, with the
-- repeated call and the conversion of rpc errors as the parameter RevertLib.
--
-- Mining models WaitMined of client.go (a list of the node's answers until the context is done) and
-- the attempts of Decode with their replacement transactions. retry.Do is the parameter RetryLib,
-- with the laws of its documentation in Retries. TxDecode.Run models Decode as a whole and
-- RetryTxAndDecode of retry.go; TraceGethTX is its function trace_tx.
--
-- Tracing models tracing.go: Tracing.Calls has its types, Tracing.Gather the signatures of a trace,
-- Tracing.Walk the recursive walk over its calls (the closure processCallsFn, whose shared
-- variables are the record Walk), Tracing.Decode decodeCall, Tracing.Missing checkForMissingCalls
-- and Tracing.Trace DecodeTrace. The list of calls under a call is the type Calls, mutual with
-- Call.
--
-- Nonce models nonce.go. The goroutine that anySyncedKey starts is an entry of the manager's list
-- `syncing`, and a run is a list of moves with the answers of the node, so that every interleaving
-- of callers and goroutines is a list of moves. UpdateNonces comes before a run: while a key is
-- syncing it would put that key into the new channel a second time. retry.Do is the number of
-- attempts that a goroutine has left, and with none at all it fails at once, as retry-go 3.0.0
-- does; the order of a failing goroutine among the others is not kept.
--
-- Retry models the strategies and prepareReplacementTransaction of retry.go. Signing, sending and
-- finding a transaction are the parameter Chain; the strategies that multiply by a float are the
-- parameter Floats.
--
-- Pragma models DecodePragmaVersion and DoesPragmaSupportCustomRevert of util.go; the bytecode is
-- its hexadecimal text.
--
-- Funding models CalculateSubKeyFunding of util.go; the root key's address exists, and making a new
-- address is part of the parameter for the gas estimate.
--
-- Client models the parts of client.go on transaction options: Client has the nonce status and the
-- gas estimations, Client.Options NewTXOpts and NewTXKeyOpts, Client.Waiting WaitUntilNoPendingTx
-- (the loop over the answers of its ticks) and rewriteDeploymentError. For the options, the fees
-- that the gas adjuster suggests are the interface Fees, the answers of suggestions that have come
-- to an end. Client.Estimated runs CalculateGasEstimations with the gas adjuster's own suggestions,
-- where a call that waits for headers is an outcome of its own. An error in the context of the
-- options is their field context_error.
--
-- GasAdjuster models gas_adjuster.go. GasAdjuster.Headers has the collection of block headers: each
-- goroutine is a task, a run is a list of moves, one task at a time, so that every interleaving is
-- a run, and the header cache is their shared state; wg.Wait is the outcome that is still waiting
-- while a task has not called wg.Done. GasAdjuster.Metric has the congestion metrics,
-- GasAdjuster.Fees the suggestions of legacy and dynamic fees with their factors. GasEstimator
-- models gas.go. GasAdjuster.Floats has the parameters: float64 with package math is FloatLib,
-- package stats is StatsLib, and Rounds and Ordered name the few laws that theorems use.
--
-- Transfer models TransferETHFromKey, EstimateGasLimitForFundTransfer and checkRPCHealth of
-- client.go, and what ReturnFunds of keyfile.go does for one key. Its state is the nonce manager
-- and the list of transactions that the node took; the node and the signing are the parameter
-- TransferNode.
--
-- JsonArray models CreateOrAppendToJsonArray of util.go on the content of the file; a write may
-- break off.
--
-- Parameters. go-ethereum's ABI types and hexadecimal conversions are the records AbiLib and Codec;
-- the theorems hold for every instance.
--
-- Conventions. A Go map is a list whose order is the order in which range visits it; Go does not
-- fix that order, and the theorems hold for every list. A function that writes shared state returns
-- the new state. A nil pointer that is read and an index out of range are the outcome panic.
-- Mutexes are not modelled where an operation holds one from start to end. Logging is left out.
--
-- Not modelled: generated contract bindings, the command line, DOT graphs and the other file
-- output. Of NewClientRaw, only the health check is modelled. RPC headers, ABIDir and BINDir, and
-- the name of the file of reverted transactions are not fields of the modelled configuration.
pub mod Prelude
pub mod HeaderCache
pub mod ContractMap
pub mod ContractStore
pub mod AbiFinder
pub mod Duration
pub mod Config
pub mod ClientBuilder
pub mod Client
pub mod Decode
pub mod Funding
pub mod Nonce
pub mod Pragma
pub mod Retry
pub mod Mining
pub mod TxDecode
pub mod GasEstimator
pub mod GasAdjuster
pub mod Tracing
pub mod Transfer
pub mod JsonArray
mod Tests
