-- ===== src/Lib.antt =====
-- Verification of checkTx-server, a server of a cross-chain router: it registers the swaps that users
-- make on a source chain, verifies them there, and pays them out on the destination chain.
--
-- The program's parts and where they are modelled:
--   * Status, Tables and Errors: the statuses of a swap and of its result (mongodb/status.go), the
--     documents (mongodb/tables.go), and the errors that control flow depends on (tokens/errors.go,
--     mongodb/errors.go, the errors of worker/swap.go).
--   * Tokens: the values that the packages pass on (tokens/types.go), SwapConfig.CheckConfig
--     (tokens/config.go), and the fee and the change of decimals (tokens/base.go: CalcSwapValue,
--     ConvertTokenValue, CheckTokenSwapValue), with the lookups of params/config.go that they make;
--     Tokens/Whitelist is AddOrRemoveBigValueWhitelist there,
--     and Tokens/Payload what a swap carries (tokens.SwapInfo).
--   * Mongo and Db: the database. The MongoDB driver is not part of the repository: it is the record
--     Driver of what the source calls, with what its documentation says of those calls as laws, and
--     Mongo/InMemory shows that the laws can be met. A call may fail at any time, and a call that fails
--     may have taken effect. Db holds the two collections collRouterSwap and collRouterSwapResult and
--     the calls of mongodb/api.go that read and write one document.
--   * Swaps and Results: the operations of mongodb/api.go on swaps (AddRouterSwap,
--     PassRouterSwapVerify, UpdateRouterSwapStatus, UpdateRouterSwapInfoAndStatus,
--     GetRegisteredRouterSwap) and on results (AddRouterSwapResult, AllocateRouterSwapNonce,
--     UpdateRouterSwapResult, UpdateRouterSwapResultStatus, UpdateRouterOldSwapTxs).
--     Results/Calls says what each of the calls that update results may do to one, Results/Steps that
--     this is what they do, and Results/Run follows runs of these calls, in any order; AddRouterSwapResult, which adds a result, is not among these calls.
--   * Converts: what a verified swap carries, as the database keeps it and as the bridges take it
--     (mongodb/converts.go), with the texts of bytes and numbers in Hex (common/bytes.go,
--     common/hexutil/hexutil.go, common/math/big.go); a text is ASCII there.
--   * Abi: packing and reading data in Solidity's layout (tokens/eth/abicoder/encode.go and decode.go,
--     with the helpers of common/utils.go and common/bytes.go).
--   * NonceSetter: the counters and the recycled nonces of the senders of a chain
--     (tokens/base/noncesetter.go).
--   * Worker: the state that the jobs share and the calls that leave the program; Worker/Verify is the
--     verify job and reverifySwap (worker/verify.go, worker/swap.go), Worker/Swap the swap job,
--     Worker/History its ring and cache (worker/swap.go), Worker/Update and Worker/Send
--     worker/common.go, Worker/Stable the job that follows a transaction (worker/stable.go) with
--     checkIfSwapNonceHasPassed of worker/replace.go, Worker/Replace the job that sends it again
--     (worker/replace.go), Worker/Failed and Worker/BigValue the jobs that take up failed results and
--     big values (worker/checkfailedswap.go, worker/passbigvalue.go). Worker/Turns says which results
--     a write of the jobs can put into a status.
--     Worker/Accept is the job with which a node of the MPC group agrees to a signature, or does not
--     (worker/accept.go), with the records of accepted transactions (worker/acceptdb.go).
--   * Eth: the verification of a swap of an ERC20 token on a chain of tokens/eth: Eth/Receipt the
--     transaction's receipt (tokens/eth/verifytx.go), Eth/Logs the log of the swap
--     (Eth/Logs/Says has its five events, field by field), Eth/Received what
--     the router received, Eth/Checks the swap itself, and Eth/Verify the whole
--     (tokens/eth/verifyerc20swaptx.go). The calls of the chain's nodes are parameters. Eth/Build is the
--     input of the transaction that pays such a swap out (tokens/eth/builderc20swaptx.go), and Eth/Fees,
--     Eth/Defaults and Eth/Raw are its fees, what its arguments leave open, and the transaction itself
--     (tokens/eth/buildtx.go, with GetRouterMPC of router/types.go); the inputs for NFTs and for calls are parameters there.
--   * Admin: RouterAdminPassBigValue and RouterAdminReswap (mongodb/api.go).
--   * Tests: a small world, in which the theorems are applied and the code is run.
-- Common and Exec are the shared helpers: tests, lists, texts, and actions that pass a state on and
-- return a value or an error beside it. An operation of the source is a function of the same name in
-- snake_case; what a function writes before it returns an error stays written.
--
-- Conventions: clocks, driver and bridges are functions of the number of calls made before, so that
-- their answers may vary. Times, heights, nonces, log indexes and amounts are natural numbers; the
-- nonce counter wraps at 2^64. A *big.Int or a pointer that may be nil is an option. Text is ASCII
-- where its case matters. A job is the sequence of its steps: the locks make the operations of
-- mongodb/api.go that read before they write run one at a time, and no other job runs between the
-- steps of one job here. The retries of sendSignedTransaction are a recursion on the number of the
-- rounds left; the only other bound is that of decimal, where n + 1 rounds print the at most n + 1
-- digits of n. A goroutine that panics ends in the error `panicked`. The time of a transaction's block
-- is never set by GetTransactionStatus and stays 0. In Eth, `text_of` is the conversion of bytes to a
-- string, and keys of the maps that the source keeps in lower case are in lower case. The percentages
-- of the fees are so small that 100 and one of them fit an int64, and what BuildRawTransaction writes to
-- its arguments before it returns an error is left out.
--
-- Not modelled: logging, the waits and polling loops of the jobs, sendTxLoopUntilSuccess, the listing
-- queries of mongodb, the RPC servers, the rest of the chains' own code under tokens/eth and tokens/btc
-- (signing and sending of transactions, swaps of NFTs and of calls), MPC signing, and the
-- rest of types, tools, common and leveldb, mostly copies of libraries.
pub mod Common
pub mod Errors
pub mod Exec
pub mod Status
pub mod Tables
pub mod Tokens
pub mod Mongo
pub mod Db
pub mod Swaps
pub mod Results
pub mod Abi
pub mod Eth
pub mod Hex
pub mod Converts
pub mod NonceSetter
pub mod Worker
pub mod Admin
pub mod Tests
