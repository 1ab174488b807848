-- ===== src/Lockdrop/Tests.antt =====
-- The lockdrop on concrete data, and the theorems at such data.
mod Authority
use neutron_tge_contracts.Prelude.{
  ◌≡◌, ◌≢◌, refl, sym, true, false, some, [], ◌∷◌, arith, ◌==◌, Bool-cases, inl, inr,
}
use neutron_tge_contracts.Prelude.Map.{lookup, insert}
use neutron_tge_contracts.Prelude.Result.{ok, err, ◌>>=◌, Ensures, Yields}
use neutron_tge_contracts.Samples.{exact_cw, exact_cw-IsExact}
use neutron_tge_contracts.Auction.Types.{atom}
use neutron_tge_contracts.Lockdrop.Types.{v2, Store, overflow, lp_transfer}
use neutron_tge_contracts.Lockdrop.Execute.{increase_lockup_for, execute}
use neutron_tge_contracts.Lockdrop.Totals.{AreCounted}
use neutron_tge_contracts.Lockdrop.Totals.Positions.{IsOpen}
use neutron_tge_contracts.Lockdrop.Totals.Lockups.{Counted}
use neutron_tge_contracts.Lockdrop.Totals.Execute.{execute-AreCounted}
use neutron_tge_contracts.Lockdrop.Limits.{HasWindows}
use neutron_tge_contracts.Lockdrop.Limits.Withdraw.{
  WithdrawsUnits, withdraw-WithdrawsUnits, withdraw_units_once,
}
use neutron_tge_contracts.Lockdrop.Storage.{position, compatible_load, compatible_may_load, upgrade}
use neutron_tge_contracts.Lockdrop.Admin.{new_pool, validate, handle_set_token_info}
use neutron_tge_contracts.Lockdrop.Amounts.{
  calculate_weight, checked_mul_uint256, find_coefficient, calculate_max_withdrawal_percent_allowed,
  max_withdrawal, lp_share,
}
use neutron_tge_contracts.Lockdrop.Lockups.{
  has_duration, add_to_lockup, add_to_pool, increased, unlock_timestamp_of, handle_increase_lockup,
  handle_withdraw_from_lockup, take_from_lockup, taken_from_pool, store_position,
}
use neutron_tge_contracts.Lockdrop.Unlock.{unlock_once}
use neutron_tge_contracts.Lockdrop.RoundTrip.{increase-withdraw}
use neutron_tge_contracts.Lockdrop.RoundTrip.Removed.{IsRestored}
use neutron_tge_contracts.Lockdrop.Claim.{
  handle_claim_rewards_and_unlock_for_lockup, callback_withdraw_user_rewards, pay_staking_rewards,
  close_position,
}
use neutron_tge_contracts.Lockdrop.Staking.{position_lp_amount, one_time_rewards}
use neutron_tge_contracts.Lockdrop.Samples.{
  quiet_chain, exact_astroport, exact_astroport-IsAstroport, closed_ownership, sample_config,
  sample_pool, sample_position, sample_store, at, from,
}

sample_store-AreCounted : AreCounted sample_store
unfolding lookup
sample_store-AreCounted = record {
  atom_pool = record {
    pool_total = refl;
    user_total = λ user. elim (Bool-cases (user == 7)) [
      | inl here ↦ rw here refl
      | inr there ↦ rw there refl
    ];
  };
  usdc_pool = record { pool_total = refl; user_total = λ user. refl };
}

sample-IsOpen : IsOpen (position 7 4 sample_store.atom_pool.lockups)
unfolding lookup
sample-IsOpen = record {
  is_open = λ stored found. let same : v2 sample_position ≡ stored = cc in rw (sym same) refl;
}

execute-AreCounted_example : Ensures Counted (
    execute exact_cw quiet_chain exact_astroport closed_ownership 9
      (at 1500)
      (from 3)
      (increase_lockup_for 7 atom 50 4)
      sample_store)
unfolding lookup
execute-AreCounted_example =
    execute-AreCounted exact_cw quiet_chain exact_astroport 9 sample_store sample_store-AreCounted
      closed_ownership (at 1500) (from 3) (increase_lockup_for 7 atom 50 4)
      (λ user valid. let same : 7 ≡ user = cc in rw (sym same) sample-IsOpen)

sample-HasWindows : HasWindows sample_config
sample-HasWindows = record { sum = ground arith; product = ground arith }

withdraw-WithdrawsUnits_example :
    Ensures
      (WithdrawsUnits exact_cw quiet_chain exact_astroport
        (at 2400)
        (from 3)
        7
        atom
        4
        20
        sample_store)
      (handle_withdraw_from_lockup exact_cw quiet_chain exact_astroport
        (at 2400)
        (from 3)
        7
        atom
        4
        20
        sample_store)
withdraw-WithdrawsUnits_example =
    withdraw-WithdrawsUnits exact_cw exact_cw-IsExact exact_astroport exact_astroport-IsAstroport
      quiet_chain (at 2400) (from 3) 7 atom 4 20 sample_store sample-HasWindows

-- 20 units are withdrawn, and 30 of the weight.
abbrev withdrawn_store : Store
withdrawn_store = record sample_store {
  atom_pool = record {
    pool_info = some (record sample_pool { amount_in_lockups = 80; weighted_amount = 120 });
    lockups =
        (7, (4, v2 (record sample_position { lp_units_locked = 80; withdrawal_flag = true })) ∷ [])
        ∷ [];
    user_totals = (7, 80) ∷ [];
  };
}

withdraw_run :
    handle_withdraw_from_lockup exact_cw quiet_chain exact_astroport
      (at 2400)
      (from 3)
      7
      atom
      4
      20
      sample_store
    ≡ ok (withdrawn_store, [])
unfolding handle_withdraw_from_lockup ◌>>=◌ compatible_load lookup upgrade
    calculate_max_withdrawal_percent_allowed max_withdrawal take_from_lockup taken_from_pool
    calculate_weight find_coefficient checked_mul_uint256 store_position insert
withdraw_run = refl

withdraw_units_once_example :
    handle_withdraw_from_lockup exact_cw quiet_chain exact_astroport
      (at 2500)
      (from 3)
      7
      atom
      4
      1
      withdrawn_store
    ≢ ok (sample_store, [])
withdraw_units_once_example =
    withdraw_units_once exact_cw exact_cw-IsExact exact_astroport exact_astroport-IsAstroport
      quiet_chain quiet_chain (at 2400) (at 2500) (from 3) (from 3) 7 atom 4 20 1 sample_store
      (withdrawn_store, []) (sample_store, []) sample-HasWindows (ground arith) withdraw_run

-- A second `SetTokenInfo` of the owner, while user 7 has a position of 100 units.
abbrev reset_store : Store
reset_store = record sample_store {
  atom_pool = new_pool 11 sample_store.atom_pool;
  usdc_pool = new_pool 12 sample_store.usdc_pool;
}

resets : handle_set_token_info exact_cw (from 1) 12 11 6 sample_store ≡ ok (reset_store, [])
unfolding handle_set_token_info validate ◌>>=◌
resets = refl

-- The amount of the pool is then 0, and the position still has its 100 units.
reset_is_not_counted : ¬ (AreCounted reset_store)
reset_is_not_counted h = omega (arith, h.atom_pool.pool_total)

-- Two increases by 1 have the weight 2 in the pool, and a withdrawal of both has the weight 3.
weight_of_one : calculate_weight 1 4 sample_config ≡ ok 1
unfolding calculate_weight ◌>>=◌ find_coefficient checked_mul_uint256
weight_of_one = refl

weight_of_two : calculate_weight 2 4 sample_config ≡ ok 3
unfolding calculate_weight ◌>>=◌ find_coefficient checked_mul_uint256
weight_of_two = refl

-- The storage after two increases by 1 to an empty pool.
abbrev twice_increased : Store
twice_increased = record sample_store {
  atom_pool = record {
    pool_info = some (record sample_pool { amount_in_lockups = 2; weighted_amount = 2 });
    lockups = (7, (4, v2 (record sample_position { lp_units_locked = 2 })) ∷ []) ∷ [];
    user_totals = (7, 2) ∷ [];
  };
}

-- Both units cannot be withdrawn at once: the weight of the pool would fall below 0.
withdraw_both :
    handle_withdraw_from_lockup exact_cw quiet_chain exact_astroport
      (at 1500)
      (from 3)
      7
      atom
      4
      2
      twice_increased
    ≡ err overflow
unfolding handle_withdraw_from_lockup ◌>>=◌ compatible_load lookup upgrade
    calculate_max_withdrawal_percent_allowed max_withdrawal take_from_lockup taken_from_pool
    calculate_weight find_coefficient checked_mul_uint256 store_position insert
withdraw_both = refl

abbrev increased_store : Store
increased_store = record sample_store {
  atom_pool = record {
    pool_info = some (record sample_pool { amount_in_lockups = 150; weighted_amount = 225 });
    lockups =
        (7, (4, v2 sample_position) ∷ [])
        ∷ (8, (4, v2 (record sample_position { lp_units_locked = 50 })) ∷ [])
        ∷ [];
    user_totals = (7, 100) ∷ (8, 50) ∷ [];
  };
  users =
      (7, record { total_ntrn_rewards = 0; ntrn_transferred = false; lockup_positions_index = 1 })
      ∷ (8, record { total_ntrn_rewards = 0; ntrn_transferred = false; lockup_positions_index = 1 })
      ∷ [];
}

increase_run :
    handle_increase_lockup exact_cw quiet_chain exact_astroport
      (at 1500)
      (from 3)
      8
      atom
      4
      50
      sample_store
    ≡ ok (increased_store, [])
unfolding handle_increase_lockup ◌>>=◌ has_duration add_to_lockup add_to_pool calculate_weight
    find_coefficient checked_mul_uint256 compatible_may_load lookup increased unlock_timestamp_of
    insert
increase_run = refl

increase-withdraw_example : Yields (IsRestored atom sample_store) (
    handle_withdraw_from_lockup exact_cw quiet_chain exact_astroport
      (at 1600)
      (from 3)
      8
      atom
      4
      50
      increased_store)
unfolding lookup
increase-withdraw_example =
    increase-withdraw exact_cw exact_cw-IsExact exact_astroport exact_astroport-IsAstroport
      quiet_chain quiet_chain (at 1500) (at 1600) (from 3) (from 3) 8 atom 4 50 sample_store
      (increased_store, []) sample-HasWindows (ground arith) refl (ground arith) (ground arith)
      (λ user valid. let same : 8 ≡ user = cc in rw (sym same) refl) increase_run

-- User 7 gets the 100 LP tokens of the position.
abbrev unlocked_store : Store
unlocked_store = record sample_store {
  atom_pool = record {
    pool_info = some (record sample_pool { amount_in_lockups = 0 });
    lockups =
        (7, (4, v2 (record sample_position { astroport_lp_transferred = some 100 })) ∷ []) ∷ [];
    user_totals = (7, 0) ∷ [];
  };
  users =
      (7, record { total_ntrn_rewards = 0; ntrn_transferred = true; lockup_positions_index = 1 })
      ∷ [];
}

unlock_run :
    callback_withdraw_user_rewards exact_cw quiet_chain exact_astroport 9
      (at 4000)
      atom
      7
      4
      true
      sample_store
    ≡ ok (unlocked_store, lp_transfer 11 7 100 ∷ [])
unfolding callback_withdraw_user_rewards ◌>>=◌ compatible_load lookup upgrade position_lp_amount
    lp_share pay_staking_rewards close_position one_time_rewards insert
unlock_run = refl

unlock_once_example :
    handle_claim_rewards_and_unlock_for_lockup exact_cw quiet_chain exact_astroport
      (at 5000)
      (from 7)
      atom
      4
      true
      unlocked_store
    ≢ ok (unlocked_store, [])
unlock_once_example =
    unlock_once exact_cw quiet_chain quiet_chain exact_astroport 9 (at 4000) (at 5000) (from 7) atom
      4 true sample_store (unlocked_store, lp_transfer 11 7 100 ∷ []) (unlocked_store, [])
      unlock_run
