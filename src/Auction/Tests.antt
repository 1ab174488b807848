-- ===== src/Auction/Tests.antt =====
-- The auction on concrete data, and the theorems at such data.
use neutron_tge_contracts.Prelude.{
  ℕ, zero, suc, ◌+◌, ◌*◌, ◌^◌, ◌≤◌, ◌≡◌, ◌≢◌, refl, Bool, true, false, none, some, List, [], ◌∷◌,
  arith, leb, min, if◌then◌else◌, sum_of,
}
use neutron_tge_contracts.Prelude.Map.{lookup, insert}
use neutron_tge_contracts.Prelude.Result.{ok, err, ◌>>=◌, u128_max}
use neutron_tge_contracts.Cosmwasm.{Addr, MessageInfo, Env}
use neutron_tge_contracts.Samples.{exact_cw, exact_cw-IsExact}
use neutron_tge_contracts.Vesting.Types as VestingTypes
use neutron_tge_contracts.Vesting.Types.{token, std_error}
use neutron_tge_contracts.Vesting.Execute.{Calls}
use neutron_tge_contracts.Vesting.Invariant.{state_of}
use neutron_tge_contracts.Vesting.Register.Totals.{account_grant}
use neutron_tge_contracts.Vesting.Claim.{is_sender_whitelisted}
use neutron_tge_contracts.Auction.Types.{
  usdc, atom, increase_lockup_for, PoolInfo, Config, State, UserInfo, Store, Msg, bank_send,
  send_to_vesting, already_withdrawn, pool_size_already_set,
}
use neutron_tge_contracts.Auction.Windows.{
  is_lock_window_closed, are_windows_closed, allowed_withdrawal_percent, linear_percent,
}
use neutron_tge_contracts.Auction.Windows.Percent.{
  HasRange, percent_at, allowed_withdrawal_percent_antitone, allowed_withdrawal_percent_lem,
}
use neutron_tge_contracts.Auction.Deposit.{get_denoms, take_out, execute_withdraw}
use neutron_tge_contracts.Auction.Deposit.Limits.{
  Withdraws, withdraw-Withdraws, withdraw_once, withdraw_closed,
}
use neutron_tge_contracts.Auction.Pool.{
  Querier, get_lp_size, usdc_share, compute_sizes, execute_set_pool_size,
}
use neutron_tge_contracts.Auction.Pool.Sizes.{Sizes, set_pool_size_once}
use neutron_tge_contracts.Auction.Pool.Split.{IsSplit, set_pool_size-Splits}
use neutron_tge_contracts.Auction.Migrate.{
  linear_account, not_vested, add_to_batch, migrate_user, migrate_users, execute_migrate_to_vesting,
}
use neutron_tge_contracts.Auction.Lock.{
  lock_guard, lock_more, execute_lock_lp_tokens, lp_share, get_user_lp_info,
}
use neutron_tge_contracts.Auction.Locks.{Locks, lock-Locks}
use neutron_tge_contracts.Auction.Migrate.Handover.{
  IsAccepted, messages_of, handed_over, migrate-IsAccepted,
}
use neutron_tge_contracts.Auction.Execute.{withdraw, execute}
use neutron_tge_contracts.Auction.Totals.{IsConsistent}
use neutron_tge_contracts.Auction.Totals.Migrate.{Migrated, migrate-Migrated}
use neutron_tge_contracts.Auction.Totals.Execute.{Consistent, execute-IsConsistent}

-- The bits of the root, from the highest: `root` is what is found so far.
root_bits : ℕ → ℕ → ℕ → ℕ
root_bits zero root n = root
root_bits (suc k) root n =
    let more = root + 2 ^ k in root_bits k (if leb (more * more) n then more else root) n

-- The root of a number below 2 ^ 64.
abbrev sqrt : ℕ → ℕ
sqrt = root_bits 32 0

abbrev at_block : ℕ → Env
at_block now = record { time = now; height = 1; contract = 99 }

abbrev sent_by : Addr → MessageInfo
sent_by addr = record { sender = addr; funds = [] }

abbrev pools : PoolInfo
pools = record {
  ntrn_usdc_pool_address = 31;
  ntrn_atom_pool_address = 32;
  ntrn_usdc_lp_token_address = 33;
  ntrn_atom_lp_token_address = 34;
}

-- Deposits from 100 to 200, withdrawals to 300, locks to 400.
abbrev sample_config : Config
sample_config = record {
  owner = 1;
  token_info_manager = 2;
  reserve_contract_address = 3;
  vesting_usdc_contract_address = 41;
  vesting_atom_contract_address = 42;
  lockdrop_contract_address = some 43;
  price_feed_contract = 44;
  pool_info = some pools;
  init_timestamp = 100;
  deposit_window = 100;
  withdrawal_window = 100;
  lp_tokens_lock_window = 100;
  ntrn_denom = 11;
  usdc_denom = some 12;
  atom_denom = some 13;
  min_ntrn_amount = 1000;
  max_exchange_rate_age = 10;
  vesting_migration_pack_size = 10;
  vesting_lp_duration = 500;
}

abbrev deposited_user : ℕ → Bool → UserInfo
deposited_user usdc_amount withdrawn = record {
  usdc_deposited = usdc_amount;
  atom_deposited = 2000;
  withdrawn = withdrawn;
  usdc_lp_locked = 0;
  atom_lp_locked = 0;
  is_vested = false;
}

-- The state after one deposit.
abbrev deposited_state : ℕ → State
deposited_state usdc_amount = record {
  total_usdc_deposited = usdc_amount;
  total_atom_deposited = 2000;
  is_rest_lp_vested = false;
  lp_usdc_shares_minted = none;
  lp_atom_shares_minted = none;
  pool_init_timestamp = 0;
  usdc_ntrn_size = 0;
  atom_ntrn_size = 0;
  usdc_lp_size = 0;
  atom_lp_size = 0;
  usdc_lp_locked = 0;
  atom_lp_locked = 0;
}

abbrev deposited_store : ℕ → Bool → Store
deposited_store usdc_amount withdrawn = record {
  config = sample_config;
  state = deposited_state usdc_amount;
  users = (5, deposited_user usdc_amount withdrawn) ∷ [];
}

-- The sizes of the pools are set, and the pools are there.
abbrev sized_store : ℕ → Store
sized_store pool_init_timestamp = record {
  config = sample_config;
  state = record (deposited_state 4000) {
    pool_init_timestamp = pool_init_timestamp;
    usdc_ntrn_size = 3999999;
    atom_ntrn_size = 2000001;
    usdc_lp_size = 125491;
    atom_lp_size = 62245;
  };
  users = (5, deposited_user 4000 false) ∷ [];
}

-- 6000000 NTRN, and the same price for ATOM and for USDC.
abbrev sample_querier : Querier
sample_querier = record {
  ntrn_balance = some 6000000;
  exchange_rates =
      some (record { rate = 1; resolve_time = 300 } ∷ record { rate = 1; resolve_time = 300 } ∷ []);
  token_balance = λ token. some 1000000;
}

sample_config-HasRange : HasRange sample_config
sample_config-HasRange = record { sum = omega arith; product = omega arith }

withdraws :
    execute_withdraw exact_cw (at_block 260) (sent_by 5) 100 0 (deposited_store 4000 false)
    ≡ ok (deposited_store 3900 true, bank_send 5 12 100 ∷ [])
unfolding execute_withdraw take_out get_denoms allowed_withdrawal_percent linear_percent lookup
    insert ◌>>=◌
withdraws = refl

sets_pool_size :
    execute_set_pool_size exact_cw sqrt sample_querier (at_block 300) (deposited_store 4000 false)
    ≡ ok (sized_store 0, [])
unfolding execute_set_pool_size are_windows_closed compute_sizes usdc_share get_lp_size root_bits
    ◌>>=◌
sets_pool_size = refl

deposited_store-IsConsistent :
    (usdc_amount : ℕ) (withdrawn : Bool)
    → IsConsistent (deposited_store usdc_amount withdrawn).users (deposited_state usdc_amount)
deposited_store-IsConsistent usdc_amount withdrawn = record {
  sorted = (tt, tt);
  usdc_total = omega arith;
  atom_total = refl;
  usdc_locks = refl;
  atom_locks = refl;
}

sized_store-IsConsistent : IsConsistent (sized_store 410).users (sized_store 410).state
sized_store-IsConsistent = record {
  sorted = (tt, tt);
  usdc_total = refl;
  atom_total = refl;
  usdc_locks = refl;
  atom_locks = refl;
}

execute_withdraws :
    execute exact_cw sqrt sample_querier
      (at_block 260)
      (sent_by 5)
      (withdraw 100 0)
      (deposited_store 4000 false)
    ≡ ok (deposited_store 3900 true, bank_send 5 12 100 ∷ [])
unfolding execute
execute_withdraws = withdraws

execute-IsConsistent_example : Consistent (deposited_store 3900 true, bank_send 5 12 100 ∷ [])
execute-IsConsistent_example =
    (execute-IsConsistent exact_cw sqrt sample_querier (at_block 260) (sent_by 5) (withdraw 100 0)
        (deposited_store 4000 false) (deposited_store-IsConsistent 4000 false)).holds
      (deposited_store 3900 true, bank_send 5 12 100 ∷ []) execute_withdraws

withdraw-Withdraws_example :
    Withdraws
      (at_block 260)
      (sent_by 5)
      100
      0
      (deposited_store 4000 false)
      (deposited_store 3900 true, bank_send 5 12 100 ∷ [])
withdraw-Withdraws_example =
    (withdraw-Withdraws exact_cw exact_cw-IsExact (at_block 260) (sent_by 5) 100 0
        (deposited_store 4000 false) sample_config-HasRange).holds
      (deposited_store 3900 true, bank_send 5 12 100 ∷ []) withdraws

withdraw_once_example :
    execute_withdraw exact_cw (at_block 270) (sent_by 5) 1 0 (deposited_store 3900 true)
    ≡ err already_withdrawn
withdraw_once_example =
    withdraw_once exact_cw exact_cw-IsExact (at_block 260) (at_block 270) (sent_by 5) (sent_by 5)
      100 0 1 0 (deposited_store 4000 false) (deposited_store 3900 true, bank_send 5 12 100 ∷ [])
      sample_config-HasRange (omega arith) refl withdraws

withdraw_closed_example :
    execute_withdraw exact_cw (at_block 300) (sent_by 5) 1 0 (deposited_store 4000 false)
    ≢ ok (deposited_store 3999 true, bank_send 5 12 1 ∷ [])
withdraw_closed_example =
    withdraw_closed exact_cw exact_cw-IsExact (at_block 300) (sent_by 5) 1 0
      (deposited_store 4000 false) (deposited_store 3999 true, bank_send 5 12 1 ∷ [])
      sample_config-HasRange (omega arith) (omega arith)

set_pool_size-Splits_example :
    Sizes sqrt sample_querier (at_block 300) (deposited_store 4000 false) (sized_store 0, [])
    × ((ntrn_amount : ℕ) × IsSplit sample_querier
          (at_block 300)
          (deposited_store 4000 false)
          (sized_store 0)
          ntrn_amount)
set_pool_size-Splits_example =
    set_pool_size-Splits exact_cw exact_cw-IsExact sqrt sample_querier (at_block 300)
      (deposited_store 4000 false) (sized_store 0, []) sets_pool_size

set_pool_size_once_example :
    execute_set_pool_size exact_cw sqrt sample_querier (at_block 305) (sized_store 0)
    ≡ err pool_size_already_set
set_pool_size_once_example =
    set_pool_size_once exact_cw sqrt sample_querier sample_querier (at_block 300) (at_block 305)
      (deposited_store 4000 false) (sized_store 0, []) (omega arith) (omega arith) sets_pool_size

-- The storage and the messages after the one user is migrated.
abbrev migrated_store : Store
migrated_store = record (sized_store 410) {
  users = (5, record (deposited_user 4000 false) { is_vested = true }) ∷ [];
}

abbrev migration_messages : List Msg
migration_messages =
    send_to_vesting 34 42 31122 (linear_account 5 450 950 31122 ∷ [])
    ∷ send_to_vesting 33 41 62745 (linear_account 5 450 950 62745 ∷ [])
    ∷ []

migrates :
    execute_migrate_to_vesting exact_cw (at_block 450) (sized_store 410)
    ≡ ok (migrated_store, migration_messages)
unfolding execute_migrate_to_vesting migrate_users migrate_user add_to_batch get_user_lp_info
    lp_share not_vested insert ◌>>=◌
migrates = refl

migrate-Migrated_example :
    Migrated (sized_store 410).state (sized_store 410).users (min 10 1) migrated_store.users
    × (migrated_store.state ≡ (sized_store 410).state)
    × (migrated_store.config ≡ sample_config)
migrate-Migrated_example =
    (migrate-Migrated exact_cw (at_block 450) (sized_store 410) sized_store-IsConsistent).holds
      (migrated_store, migration_messages) migrates

-- The vesting contract of the ATOM pool: its token is set, and the auction is a manager.
abbrev atom_vesting : VestingTypes.Store
atom_vesting = record {
  config = record {
    owner = 1;
    vesting_token = some (token 34);
    token_info_manager = 2;
    extensions = record { historical = true; managed = true; with_managers = true };
  };
  ownership_proposal = none;
  vesting_managers = (99, tt) ∷ [];
  vesting_state = none;
  vesting_info = [];
}

auction_is_manager : is_sender_whitelisted atom_vesting 99 ≡ true
unfolding lookup
auction_is_manager = refl

-- The calls of the vesting contract to the packages, none of which a registration makes.
abbrev vesting_calls : Calls
vesting_calls = record {
  check = λ asset. err std_error;
  propose_new_owner = λ info env new_owner expires_in owner. err std_error;
  drop_ownership_proposal = λ info owner. err std_error;
  claim_ownership = λ info env proposal. err std_error;
  must_pay = λ info denom. err std_error;
}

atom_accounts :
    handed_over exact_cw (at_block 450) atom (sized_store 410) ≡ linear_account 5 450 950 31122 ∷ []
unfolding get_user_lp_info lp_share not_vested ◌>>=◌
atom_accounts = refl

atom_accounts_fit :
    (state_of atom_vesting).total_granted
      + sum_of account_grant (handed_over exact_cw (at_block 450) atom (sized_store 410))
    ≤ u128_max
atom_accounts_fit = rw atom_accounts (omega arith)

migrate-IsAccepted_example :
    (migration_messages ≡ messages_of exact_cw (at_block 450) pools (sized_store 410))
    × IsAccepted exact_cw vesting_calls 34 99
        (handed_over exact_cw (at_block 450) atom (sized_store 410))
        atom_vesting
migrate-IsAccepted_example =
    migrate-IsAccepted exact_cw vesting_calls (at_block 450) (sized_store 410)
      (migrated_store, migration_messages) pools atom atom_vesting (omega arith) (refl, tt) refl
      refl migrates refl auction_is_manager atom_accounts_fit

allowed_withdrawal_percent_example :
    allowed_withdrawal_percent exact_cw 260 sample_config ≡ ok (percent_at 260 sample_config)
allowed_withdrawal_percent_example =
    allowed_withdrawal_percent_lem exact_cw exact_cw-IsExact 260 sample_config
      sample_config-HasRange

percent_at_270 : allowed_withdrawal_percent exact_cw 270 sample_config ≡ ok 300000000000000000
unfolding allowed_withdrawal_percent linear_percent ◌>>=◌
percent_at_270 = refl

percent_at_260 : allowed_withdrawal_percent exact_cw 260 sample_config ≡ ok 400000000000000000
unfolding allowed_withdrawal_percent linear_percent ◌>>=◌
percent_at_260 = refl

allowed_withdrawal_percent_antitone_example : 300000000000000000 ≤ 400000000000000000
allowed_withdrawal_percent_antitone_example =
    allowed_withdrawal_percent_antitone exact_cw exact_cw-IsExact 260 270 400000000000000000
      300000000000000000 sample_config sample_config-HasRange (omega arith) percent_at_260
      percent_at_270

-- The storage after the user has locked 1000 of the USDC pool's tokens.
abbrev locked_store : Store
locked_store = record (sized_store 0) {
  state = record ((sized_store 0).state) { usdc_lp_locked = 1000 };
  users = (5, record (deposited_user 4000 false) { usdc_lp_locked = 1000 }) ∷ [];
}

abbrev lock_messages : List Msg
lock_messages = increase_lockup_for 43 5 usdc 1000 4 ∷ []

locks :
    execute_lock_lp_tokens exact_cw (at_block 350) (sent_by 5) usdc 1000 4 (sized_store 0)
    ≡ ok (locked_store, lock_messages)
unfolding execute_lock_lp_tokens lock_guard is_lock_window_closed get_user_lp_info lp_share
    lock_more lookup insert ◌>>=◌
locks = refl

lock-Locks_example :
    Locks exact_cw
      (at_block 350)
      (sent_by 5)
      usdc
      1000
      4
      (sized_store 0)
      (locked_store, lock_messages)
lock-Locks_example =
    (lock-Locks exact_cw (at_block 350) (sent_by 5) usdc 1000 4 (sized_store 0)).holds
      (locked_store, lock_messages) locks
