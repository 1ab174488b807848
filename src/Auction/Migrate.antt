-- ===== src/Auction/Migrate.antt =====
-- `execute_migrate_to_vesting` of contracts/auction/src/contract.rs.
pub mod Batches
pub mod Handover
use neutron_tge_contracts.Prelude.{
  ℕ, ◌-◌, Bool, true, false, not, Option, none, some, List, [], ◌∷◌, ◌++◌, take, ◌==◌,
  if◌then◌else◌,
}
use neutron_tge_contracts.Prelude.Map.{Map, insert}
use neutron_tge_contracts.Prelude.Result.{
  Result, ok, ◌>>=◌, ◌>>◌, reject_if, ok_or, checked_add, checked_sub, add_u64,
}
use neutron_tge_contracts.Cosmwasm.{Addr, Cosmwasm, Env}
use neutron_tge_contracts.Vesting.Types.{VestingAccount}
use neutron_tge_contracts.Auction.Types.{
  Config, State, UserInfo, AuctionError, Msg, send_to_vesting, Store, Outcome, pool_info_not_set,
  pool_not_initialized, no_users, panicked,
}
use neutron_tge_contracts.Auction.Lock.{get_user_lp_info}

-- The index `vested` at 0, in ascending order of the users.
unfoldable pub not_vested : Map UserInfo → Map UserInfo
not_vested [] = []
not_vested ((addr, user) ∷ rest) =
    if user.is_vested then not_vested rest else (addr, user) ∷ not_vested rest

abbrev pub is_empty : Map UserInfo → Bool
is_empty [] = true
is_empty (e ∷ m) = false

-- A vesting account with one schedule, from 0 now to `amount` at the end.
abbrev pub linear_account : Addr → ℕ → ℕ → ℕ → VestingAccount
linear_account addr start end amount = record {
  address = addr;
  schedules =
      record {
        start_point = record { time = start; amount = 0 };
        end_point = some (record { time = end; amount = amount });
      }
      ∷ [];
}

-- The accounts for one vesting contract, and the sum of their amounts.
pub record Batch : Type 0 where
  pub accounts : List VestingAccount
  pub total : ℕ

-- The account is added if there is something to vest; its end is computed only then.
unfoldable pub add_to_batch : ℕ → ℕ → Addr → ℕ → Batch → Result AuctionError Batch
add_to_batch now duration addr amount batch = if amount == 0 then ok batch else (do
  end ← add_u64 panicked now duration
  total ← checked_add panicked batch.total amount
  ok (record {
    accounts = batch.accounts ++ linear_account addr now end amount ∷ [];
    total = total;
  }))

-- The tokens of a batch go to its vesting contract, if there are any.
abbrev pub send_batch : ℕ → Addr → Batch → List Msg
send_batch token vesting batch =
    if batch.total == 0 then [] else send_to_vesting token vesting batch.total batch.accounts ∷ []

-- The variables of the loop.
pub record Progress : Type 0 where
  pub atom_batch : Batch
  pub usdc_batch : Batch
  pub users : Map UserInfo

module _ (cw : Cosmwasm) where
  unfoldable pub migrate_user :
      ℕ → Config → State → Addr → UserInfo → Progress → Result AuctionError Progress
  migrate_user now config state addr user p = do
    lp ← get_user_lp_info cw user state
    vest_atom ← checked_sub panicked lp.atom_lp_amount user.atom_lp_locked
    vest_usdc ← checked_sub panicked lp.usdc_lp_amount user.usdc_lp_locked
    atom_batch ← add_to_batch now config.vesting_lp_duration addr vest_atom p.atom_batch
    usdc_batch ← add_to_batch now config.vesting_lp_duration addr vest_usdc p.usdc_batch
    ok (record {
      atom_batch = atom_batch;
      usdc_batch = usdc_batch;
      users = insert addr (record user { is_vested = true }) p.users;
    })

  unfoldable pub migrate_users :
      ℕ → Config → State → Map UserInfo → Progress → Result AuctionError Progress
  migrate_users now config state [] p = ok p
  migrate_users now config state ((addr, user) ∷ rest) p = do
    p' ← migrate_user now config state addr user p
    migrate_users now config state rest p'

  unfoldable pub execute_migrate_to_vesting : Env → Store → Outcome
  execute_migrate_to_vesting env s = do
    let users = take s.config.vesting_migration_pack_size (not_vested s.users)
    pools ← ok_or pool_info_not_set s.config.pool_info
    reject_if (s.state.pool_init_timestamp == 0) pool_not_initialized
    reject_if (is_empty users) no_users
    p ← migrate_users env.time s.config s.state users (record {
      atom_batch = record { accounts = []; total = 0 };
      usdc_batch = record { accounts = []; total = 0 };
      users = s.users;
    })
    ok (
      record s { users = p.users },
      send_batch pools.ntrn_atom_lp_token_address s.config.vesting_atom_contract_address
            p.atom_batch
          ++ send_batch pools.ntrn_usdc_lp_token_address s.config.vesting_usdc_contract_address
              p.usdc_batch,
    )
