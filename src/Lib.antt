-- ===== src/Lib.antt =====
-- The deployment and configuration tasks of Tapioca-bar and of TapiocaZ: what they do on the
-- chain, in which order, and when they end with an error instead.
--
-- A task is an asynchronous TypeScript function that the Hardhat task runner calls. It looks
-- addresses up in the deployment database of tapioca-sdk, asks the user, queues contracts in a
-- DeployerVM of the SDK, executes that, and sends transactions.
--
-- Base        names and array and string methods that all modules share
-- Hre         the Hardhat runtime environment: Types (the values that are passed), World (every
--             answer of the SDK, ethers, inquirer and the chain), Task (a task takes a world and
--             the trace of what has happened and gives a result and a longer trace, newest event
--             first), Seen (parts of a task that leave some events alone), Returns (what a task
--             that returned says of its parts), Throws (tasks that cannot return), Fails (those that
--             also do nothing), Obliging (tasks that return, and worlds in which nothing that is
--             called fails), Events (invariants of the trace), Sends (lists of transactions)
-- Utils       Tapioca-bar/tasks/utils.ts; Ownership is its transferOwnership
-- Builds      Tapioca-bar/tasks/deployBuilds, one function per file
-- Setups      Tapioca-bar/tasks/setups, one function per file
-- Deploy      Tapioca-bar/tasks/deploy. Stack is what 00-deployFullStack.ts and
--             01-deployLinkedChainStack.ts have in common, with Stack/Full and Stack/Linked for
--             each; SglMarket, BigBangOracles with BigBangMarket, OriginsMarket and EmptyStrats
--             are deploySGLMarket.ts, deployBigBangMarket.ts, deployOriginsMarket.ts and
--             02-deployEmptyStrats.ts; Strats is loadStrats of the first and the third; Mocks is
--             04-deployOracleMock.ts and 1000-testDeployMockSwapper.ts. Order, Silent,
--             Faults, Oracle, Setup, Run, Whole and Returns hold proofs
-- Exec        Tapioca-bar/tasks/exec: FillCluster (fillCluster.ts, with the Cluster's whitelist
--             as its abstract specification), RegisterYbAssets
--             (registerYbAssets.ts), MarketConfig (04, 05, 09 and setBorrowCap.ts), Operators (the
--             tasks that make one call: 01, 02, 06 to 08, 10 to 15, the two rights on USDO and
--             the three tasks of the liquidation queue), CrossChain (sendFrom.ts and
--             Tapioca-bar/tasks/airdropGas.ts), MockSwapper (fillMockSwapper.ts), Proxies (03, the
--             two tasks of the proxy and Tapioca-bar/tasks/whitelistSingularity.ts); PacketTypes is
--             Tapioca-bar/tasks/configurePacketTypes.ts; Stale holds a proof
-- Views       Tapioca-bar/tasks/view; Quiet holds a proof
-- ManualTests Tapioca-bar/tasks/test-hasStoredPayload.ts, test-retryPayload.ts, test-sameChainBorrow.ts
--             and test-otherChainBorrow.ts
-- Registry    Tapioca-bar/hardhat.tasks.ts: what the command line runs, and with which parameters
-- TapiocaZ    TapiocaZ/tasks: Builds (deployBuilds), Config (deploy/DEPLOY_CONFIG.ts, constants.ts and
--             useNetwork of TapiocaZ/scripts/utils.ts), DeployToft (deploy/deployTOFT.ts),
--             DeployBalancer (deploy/deployBalancer.ts), ToftMinter
--             (deploy/testnet/deployTOFTMinter.ts), Balancer and ToftTasks (exec/balancer and
--             exec/toft), Scopes (scopes, on Registry)
-- Tests       runs in worlds that are given in full
--
-- A function keeps its name in snake case (deploySGLMarket__task is deploy_sgl_market); a long task
-- is cut in phases that hand on a record (sgl_prepare, sgl_deploy, sgl_record). Code outside the
-- repository is a field of World, an argument of every task. A field that can change while the task
-- runs also takes the trace, so that nothing is assumed about what a transaction does; chain
-- metadata, address constants and encodings do not. An awaited call that fails, a throw, and a field
-- of undefined are the three kinds of Error; what was done before stays in the trace, as on the
-- chain.
--
-- Assumptions. inquirer answers an input prompt with a text, so that a default after ?? is not
-- taken. A transaction is one event, whether or not the code waits for its confirmations. VM.add and
-- VM.load change the deployer object alone. console.log is left out. The contract
-- factories of Tapioca-bar's builders exist, those of the USDO modules too, whose contracts the
-- repository does not have. deploy() and deployed() of the TOFT minter are one event, and its local
-- record can be written. Whether the arguments of a call encode is an answer of World, but
-- that where the repository's contract has no function of the name with so many parameters it
-- throws. There is no fuel: every loop
-- runs over a list that is given, or counts down a number, by structural recursion.
--
-- Not modelled: the contracts, the tests and the larger manual test tasks (test-borrow.ts,
-- test-crossChainRepay.ts, test-decode-gmx-call.ts, test-lend.ts and test-sameChainFlow.ts),
-- the copies of tapioca-periphery, the network settings, and deployMultisigMock, which is
-- hardhat-deploy's work. A text's length is its bytes, which for an address are its characters.
pub mod Base
pub mod Hre
pub mod Utils
pub mod Builds
pub mod Setups
pub mod Deploy
pub mod Exec
pub mod TapiocaZ
pub mod ManualTests
pub mod Registry
pub mod Views
pub mod Tests
