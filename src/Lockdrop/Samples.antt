-- ===== src/Lockdrop/Samples.antt =====
-- Concrete data for the lockdrop, and functions in place of what it calls.
use neutron_tge_contracts.Prelude.{
  ℕ, ◌*◌, ◌/◌, false, none, some, [], ◌∷◌, arith, leb, ◌==◌, if◌then◌else◌,
}
use neutron_tge_contracts.Prelude.Result.{u128_max}
use neutron_tge_contracts.Cosmwasm.{MessageInfo, Env}
use neutron_tge_contracts.Lockdrop.Types.{Config, PoolInfo, LockupInfoV2, v2, Store}
use neutron_tge_contracts.Lockdrop.Chain.{Chain, Astroport, IsAstroport, Ownership}

-- The contract has 100 LP tokens, and the generator owes nothing.
abbrev pub quiet_chain : Chain
quiet_chain = record {
  pending_tokens = λ g lp. some (record { pending = 0; pending_on_proxy = none });
  base_reward_token = λ g lp. some 1;
  generator_deposit = λ g lp. some 100;
  proxies = λ g lp. none;
  raw_proxy_asset = λ g p. none;
  raw_generator_deposit = λ g lp. some 100;
  raw_balance = λ lp. some 100;
  token_balance = λ t a. if t == 11 then some 100 else some 0;
  bank_balance = λ d. some 0;
  asset_balance = λ a. some 0;
  withdrawable_amount = λ c u. some 0;
  vested_amount = λ c u. some 0;
  minter = λ lp. none;
  pool_assets = λ p. none;
}

abbrev pub exact_astroport : Astroport
exact_astroport = record {
  update = λ asset amount v. some ((asset, amount) ∷ v, amount);
  load = λ asset v. none;
  to_decimal =
      λ a. if leb (a * 1000000000000000000) u128_max then some (a * 1000000000000000000) else none;
  checked_mul_uint128 = λ x a. some (x * a / 1000000000000000000);
}

pub exact_astroport-IsAstroport : IsAstroport exact_astroport
exact_astroport-IsAstroport = record {
  to_decimal_exact = λ a r h. ground arith;
  to_decimal_total = λ a fits. ground arith;
}

abbrev pub closed_ownership : Ownership
closed_ownership = record {
  propose_new_owner = λ info env owner expires current. none;
  drop_ownership_proposal = λ info current. none;
  claim_ownership = λ info env proposal. none;
}

-- A lock window from 1000 to 2000, and a withdrawal window to 3000. The auction is 3; a position of
-- duration 4 has its weight increased by half.
abbrev pub sample_config : Config
sample_config = record {
  owner = 1;
  token_info_manager = 2;
  credits_contract = 5;
  auction_contract = 3;
  generator = some 6;
  init_timestamp = 1000;
  lock_window = 1000;
  withdrawal_window = 1000;
  min_lock_duration = 1;
  max_lock_duration = 52;
  lockdrop_incentives = 1000;
  max_positions_per_user = 10;
  lockup_rewards_info = record { duration = 4; coefficient = 500000000000000000 } ∷ [];
}

abbrev pub sample_pool : PoolInfo
sample_pool = record {
  lp_token = 11;
  amount_in_lockups = 100;
  incentives_share = 40;
  weighted_amount = 150;
  generator_ntrn_per_share = 0;
  generator_proxy_per_share = [];
  is_staked = false;
}

abbrev pub sample_position : LockupInfoV2
sample_position = record {
  lp_units_locked = 100;
  astroport_lp_transferred = none;
  withdrawal_flag = false;
  ntrn_rewards = 0;
  generator_ntrn_debt = 0;
  generator_proxy_debt = [];
  unlock_timestamp = 3004;
}

-- User 7 has the one position of the ATOM pool.
abbrev pub sample_store : Store
sample_store = record {
  config = sample_config;
  total_incentives_share = 100;
  atom_pool = record {
    pool_info = some sample_pool;
    lockups = (7, (4, v2 sample_position) ∷ []) ∷ [];
    user_totals = (7, 100) ∷ [];
  };
  usdc_pool = record {
    pool_info =
        some (record sample_pool { lp_token = 12; amount_in_lockups = 0; weighted_amount = 0 });
    lockups = [];
    user_totals = [];
  };
  users =
      (7, record { total_ntrn_rewards = 0; ntrn_transferred = false; lockup_positions_index = 1 })
      ∷ [];
  pcl_lockdrop = none;
  ownership_proposal = none;
}

abbrev pub at : ℕ → Env
at now = record { time = now; height = 1; contract = 20 }

abbrev pub from : ℕ → MessageInfo
from sender = record { sender = sender; funds = [] }
