-- ===== src/Lib.antt =====
-- The contracts of the Neutron token generation event: the auction that collects USDC and ATOM
-- for the first liquidity pools, the lockdrop that rewards who locks their liquidity tokens, the
-- vesting library that every vesting contract is built from, and the credits contract, whose
-- token cNTRN is exchanged for untrn. The auction opens, increases and withdraws the positions
-- of the lockdrop, and hands the liquidity tokens of its users to two vesting contracts;
-- Auction.Migrate.Handover is about this. The airdrop sends credits to whoever proves a claim,
-- and sets up their vesting; the lockdrop burns credits of a user who claims rewards.
--
--   Prelude    names of the libraries, results with errors, maps, and the ratios that round down.
--   Cosmwasm   what is used of `cosmwasm_std`: data, and its arithmetic as parameters with laws.
--   Vesting    packages/vesting-base/src. Types: types.rs, error.rs and state.rs. Amounts, Register,
--              Claim and Execute: handlers.rs. Managed: ext_managed.rs. Managers:
--              ext_with_managers.rs. Queries: builder.rs, ext_historical.rs and the queries of
--              handlers.rs. The other modules are about these.
--   Auction    contracts/auction/src/contract.rs, with state.rs and
--              packages/astroport_periphery/src/auction.rs in Types. Windows: the time windows.
--              Deposit: `execute_deposit` and `execute_withdraw`. Pool: the sizes and the creation of
--              the pools. Lock: the locks of LP tokens. Migrate: `execute_migrate_to_vesting`.
--              Admin: `instantiate`, the configuration and `query_user_info`. Execute: the dispatch.
--   Credits    contracts/credits/src/contract.rs, with state.rs, error.rs and msg.rs in Types. Token:
--              what is called of `cw20_base`. Schedules: `compute_withdrawable_amount`. Handlers: one
--              function for each message. Execute: the dispatch and the queries on an allocation.
--   Airdrop    contracts/cw20-merkle-airdrop/src/contract.rs as Execute, with state.rs, msg.rs and
--              error.rs in Types. Runs: sequences of calls. Tree: the tree that the root stands for.
--   Lockdrop   contracts/lockdrop/src/contract.rs, with state.rs in Storage and Types, and
--              packages/astroport_periphery/src/lockdrop.rs in Types. Chain: what is called of other
--              contracts and of the Astroport package. Amounts: the part that may be withdrawn, the
--              weights and the rewards. Rewards: the loop over a user's positions. Lockups: the
--              increase and the withdrawal. Admin: `instantiate`, `migrate`, the configuration and the
--              pools. Staking: the rewards of the generator. Claim: the claim and its callback.
--              Queries: the queries. Migration: the move to the PCL lockdrop. Execute: the dispatch of
--              messages and callbacks. A position is stored in the first or the second version, and is
--              read as the second one. The other modules are about these.
--   Samples    concrete functions in place of the parameters, for the tests.
--
-- A handler is a function from the storage, the block and the message's sender and coins to an
-- error or to the new storage and the messages of the response, in the order in which the code
-- adds them. A definition has the name of the function that it models; a loop is a recursion
-- over its list, so there is no fuel. The storage is a record with a field for each item; a map
-- is an association list, and the maps that the code reads in order are sorted by key.
--
-- Numbers are natural, and each operation that the code checks is checked here: the release
-- profile turns overflow checks on, so an unchecked operation that leaves the range of its word
-- ends the call, as the error `panicked`. An error and a panic both discard what the call has
-- written.
--
-- Addresses, denominations and token contracts are numbers, since the code only compares and
-- keeps them. The functions of `cosmwasm_std` on ratios, decimals and addresses, the ownership
-- proposals and the asset check of the Astroport package, `must_pay` of `cw_utils`, the token of
-- `cw20_base`, `integer_sqrt`, SHA-256 with the `hex` crate, and the answers of other contracts
-- are parameters; what a theorem needs of them are the hypotheses `IsExact` (results rounded
-- down, and none for a zero denominator or out of range), `AreChecked` (who may propose, drop
-- and claim an ownership, and that `must_pay` takes one coin), `IsToken` (what a transfer, a
-- burn and a mint do to the supply and the balances), `IsOwnership` (who may propose, drop and
-- claim the ownership of the lockdrop) and `IsAstroport` (an integer as a decimal is exact, if
-- it is in range). What the other contracts answer during a call of the lockdrop is a record
-- `Chain`, any one.
--
-- Not modelled: event attributes, JSON and the versions of the contracts; the listings with
-- pages; the history of the snapshot maps (a query at a height takes the storage that was
-- there); the PCL lockdrop, the price feed, the oracle, the USDC converter, and the contracts
-- that only build on the vesting library.
pub mod Prelude
pub mod Cosmwasm
pub mod Samples
pub mod Vesting
pub mod Auction
pub mod Credits
pub mod Airdrop
pub mod Lockdrop
