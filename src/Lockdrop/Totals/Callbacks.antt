-- ===== src/Lockdrop/Totals/Callbacks.antt =====
-- Every callback of the lockdrop keeps the amounts equal to the sums over the positions.
use neutron_tge_contracts.Prelude.{
  ℕ, ◌≡◌, refl, sym, ◌∙◌, Bool, true, none, List, if◌then◌else◌, is_some,
}
use neutron_tge_contracts.Prelude.Result.{ok, Ensures, Ensures-bind, Ensures-if, Ensures-pure}
use neutron_tge_contracts.Cosmwasm.{Addr, Denom, Cosmwasm, Env}
use neutron_tge_contracts.Auction.Types.{PoolType}
use neutron_tge_contracts.Lockdrop.Types.{
  Asset, PoolInfo, LockupInfoV2, Store, CallbackMsg, update_pool_on_dual_rewards_claim,
  withdraw_user_lockup_rewards, init_migrate_lockup, transfer_all_rewards_before_migration,
  withdraw_user_lockup, migrate_user_lockup_to_pcl_pair,
}
use neutron_tge_contracts.Lockdrop.Chain.{Chain, Astroport, Ownership}
use neutron_tge_contracts.Lockdrop.Storage.{pool_of, load_pool_info, position}
use neutron_tge_contracts.Lockdrop.Lockups.{load_user}
use neutron_tge_contracts.Lockdrop.Staking.{update_pool_on_rewards}
use neutron_tge_contracts.Lockdrop.Claim.{
  close_position, keep_position, callback_withdraw_user_rewards,
}
use neutron_tge_contracts.Lockdrop.Migration.{
  callback_init_migrate_lockup_to_pcl_pools, callback_transfer_all_rewards,
  callback_withdraw_user_lockup, callback_migrate_user_lockup_to_pcl_pair,
}
use neutron_tge_contracts.Lockdrop.Execute.{callback_step}
use neutron_tge_contracts.Lockdrop.Totals.{open_units, AreCounted}
use neutron_tge_contracts.Lockdrop.Totals.Positions.{IsOpen, LoadsFrom, compatible_load-LoadsFrom}
use neutron_tge_contracts.Lockdrop.Totals.Lockups.{Counted}
use neutron_tge_contracts.Lockdrop.Totals.Withdraw.{close_position-AreCounted}
use neutron_tge_contracts.Lockdrop.Totals.Rewards.{
  resave-AreCounted, keep_position-AreCounted, IsSettled, pay_staking_rewards-IsSettled,
  one_time_rewards-AreCounted,
}

-- The position of the user is open.
abbrev pub IsOpenAt : PoolType → Addr → ℕ → Store → Type 0
IsOpenAt pool_type user duration s = IsOpen (position user duration (pool_of pool_type s).lockups)

abbrev pub AllowsCallback : CallbackMsg → Store → Type 0
AllowsCallback (withdraw_user_lockup_rewards pool_type user duration withdraw_lp_stake) s =
    withdraw_lp_stake ≡ true → IsOpenAt pool_type user duration s
AllowsCallback (withdraw_user_lockup pool_type user duration generator lp_token lp_amount) s =
    IsOpenAt pool_type user duration s
AllowsCallback _ s = Unit

module _ (cw : Cosmwasm) (chain : Chain) (astroport : Astroport) (untrn : Denom) (s : Store)
    (h : AreCounted s) where
  update_pool-AreCounted :
      (pool_type : PoolType) (prev_ntrn_balance : ℕ) (prev_proxy : List Asset)
      → Ensures Counted
          (update_pool_on_rewards cw chain astroport pool_type prev_ntrn_balance prev_proxy s)
  unfolding update_pool_on_rewards
  update_pool-AreCounted pool_type prev_ntrn_balance prev_proxy = Ensures-bind λ pool_info e.
      Ensures-bind λ _ _. Ensures-bind λ _ _. Ensures-bind λ _ _. Ensures-bind λ _ _.
        Ensures-bind λ _ _. Ensures-bind λ _ _. Ensures-bind λ _ _.
          Ensures-bind λ _ _. Ensures-pure (resave-AreCounted pool_type pool_info _ s e refl h)

  -- The position of a callback that closes it or keeps it.
  closed_or_kept :
      (pool_type : PoolType) (user : Addr) (duration lp_amount : ℕ) (pool_info : PoolInfo)
      (info settled : LockupInfoV2) (withdraw_lp_stake : Bool)
      → load_pool_info (pool_of pool_type s) ≡ ok pool_info
      → LoadsFrom (pool_of pool_type s) user duration info
      → IsSettled cw chain astroport info settled
      → (withdraw_lp_stake ≡ true → IsOpenAt pool_type user duration s)
      → Ensures AreCounted (
          if withdraw_lp_stake
          then close_position pool_type user duration lp_amount pool_info settled s
          else ok (keep_position pool_type user duration settled s))
  closed_or_kept pool_type user duration lp_amount pool_info info settled withdraw_lp_stake e from
        paid opened =
      Ensures-if withdraw_lp_stake
        (λ closing.
          let (stored, found, read) = from in
          let is_open : info.astroport_lp_transferred ≡ none =
            read.same_transferred ∙ (opened closing).is_open stored found in
          let units : open_units info ≡ info.lp_units_locked = rw is_open refl in
          close_position-AreCounted pool_type user duration lp_amount pool_info settled stored s e
            found (paid.same_units ∙ sym units ∙ read.same_units) h)
        (λ _. Ensures-pure (
          keep_position-AreCounted pool_type user duration info settled s from
            (rw (paid.same_transferred, paid.same_units) refl) h))

  pub withdraw_rewards-AreCounted :
      (env : Env) (pool_type : PoolType) (user : Addr) (duration : ℕ) (withdraw_lp_stake : Bool)
      → (withdraw_lp_stake ≡ true → IsOpenAt pool_type user duration s)
      → Ensures Counted (
          callback_withdraw_user_rewards cw chain astroport untrn env pool_type user duration
            withdraw_lp_stake s)
  unfolding callback_withdraw_user_rewards
  withdraw_rewards-AreCounted env pool_type user duration withdraw_lp_stake opened =
      Ensures-bind λ pool_info e. Ensures-bind λ info loaded. Ensures-bind λ generator _.
        Ensures-bind λ lp_amount _. Ensures-bind λ (settled, staking) paid. Ensures-bind λ s1 e1.
          Ensures-bind λ (s2, rewards) e2.
            let from =
              (compatible_load-LoadsFrom chain astroport (pool_of pool_type s) user duration
                  s.config.generator).holds
                info loaded in
            let is_settled =
              (pay_staking_rewards-IsSettled cw chain astroport generator user pool_info lp_amount
                  (load_user user s) withdraw_lp_stake info).holds
                (settled, staking) paid in
            let counted =
              (closed_or_kept pool_type user duration lp_amount pool_info info settled
                  withdraw_lp_stake e from is_settled opened).holds
                s1 e1 in
            Ensures-pure (
              (one_time_rewards-AreCounted cw chain astroport untrn user (load_user user s) s1
                  counted).holds
                (s2, rewards) e2)

  init_migrate-AreCounted :
      (env : Env) (pool_type : PoolType) (user : Addr) (duration : ℕ)
      → Ensures Counted (
          callback_init_migrate_lockup_to_pcl_pools cw chain astroport env pool_type user duration
            s)
  unfolding callback_init_migrate_lockup_to_pcl_pools
  init_migrate-AreCounted env pool_type user duration = Ensures-bind λ lockup _.
      Ensures-if (is_some lockup.astroport_lp_transferred) (λ _. Ensures-pure h)
        (λ _. Ensures-bind λ _ _. Ensures-bind λ _ _. Ensures-bind λ _ _. Ensures-pure h)

  transfer_all-AreCounted :
      (env : Env) (pool_type : PoolType) (user : Addr) (duration : ℕ)
      → Ensures Counted
          (callback_transfer_all_rewards cw chain astroport untrn env pool_type user duration s)
  unfolding callback_transfer_all_rewards
  transfer_all-AreCounted env pool_type user duration = Ensures-bind λ _ _. Ensures-bind λ _ _.
      Ensures-bind λ _ _. Ensures-bind λ _ _. Ensures-bind λ _ _. Ensures-bind λ (_, (_, _)) _.
        Ensures-bind λ (s1, rewards) e. Ensures-pure (
          (one_time_rewards-AreCounted cw chain astroport untrn user (load_user user s) s h).holds
            (s1, rewards) e)

  withdraw_lockup-AreCounted :
      (env : Env) (pool_type : PoolType) (user : Addr) (duration : ℕ) (generator lp_token : Addr)
      (lp_amount : ℕ)
      → IsOpenAt pool_type user duration s
      → Ensures Counted (
          callback_withdraw_user_lockup cw chain astroport untrn env pool_type user duration
            generator lp_token lp_amount s)
  unfolding callback_withdraw_user_lockup
  withdraw_lockup-AreCounted env pool_type user duration generator lp_token lp_amount opened =
      Ensures-bind λ _ _. Ensures-bind λ _ _. Ensures-bind λ _ _. Ensures-bind λ _ _.
        Ensures-bind λ _ _. Ensures-bind λ info loaded. Ensures-bind λ pool_info e.
          Ensures-bind λ s1 closing.
            let from =
              (compatible_load-LoadsFrom chain astroport (pool_of pool_type s) user duration
                  s.config.generator).holds
                info loaded in
            let counted =
              (closed_or_kept pool_type user duration lp_amount pool_info info info true e from
                  (record { same_units = refl; same_transferred = refl }) (λ _. opened)).holds
                s1 closing in
            Ensures-pure counted

  migrate_user-AreCounted :
      (pool_type : PoolType) (user : Addr) (duration ntrn_balance : ℕ) (paired : Denom)
      (paired_balance : ℕ)
      → Ensures Counted (
          callback_migrate_user_lockup_to_pcl_pair cw chain astroport untrn pool_type user duration
            ntrn_balance paired paired_balance s)
  unfolding callback_migrate_user_lockup_to_pcl_pair
  migrate_user-AreCounted pool_type user duration ntrn_balance paired paired_balance =
      Ensures-bind λ _ _. Ensures-bind λ _ _. Ensures-bind λ _ _. Ensures-bind λ _ _.
        Ensures-bind λ _ _.
          Ensures-bind
            λ _ _. Ensures-bind λ _ _. Ensures-bind λ _ _. Ensures-bind λ _ _. Ensures-pure h

  pub callback_step-AreCounted :
      (env : Env) (msg : CallbackMsg)
      → AllowsCallback msg s
      → (ownership : Ownership)
      → Ensures Counted (callback_step cw chain astroport ownership untrn env msg s)
  unfolding callback_step
  callback_step-AreCounted env (update_pool_on_dual_rewards_claim pool_type prev prev_proxy) a o =
      update_pool-AreCounted pool_type prev prev_proxy
  callback_step-AreCounted env (withdraw_user_lockup_rewards pool_type user duration w) a o =
      withdraw_rewards-AreCounted env pool_type user duration w a
  callback_step-AreCounted env (init_migrate_lockup pool_type user duration) a o =
      init_migrate-AreCounted env pool_type user duration
  callback_step-AreCounted env (transfer_all_rewards_before_migration pool_type user duration) a o =
      transfer_all-AreCounted env pool_type user duration
  callback_step-AreCounted env (withdraw_user_lockup pool_type user duration generator lp lp_amount)
        a o =
      withdraw_lockup-AreCounted env pool_type user duration generator lp lp_amount a
  callback_step-AreCounted env
        (migrate_user_lockup_to_pcl_pair pool_type user duration ntrn paired paired_balance) a o =
      migrate_user-AreCounted pool_type user duration ntrn paired paired_balance
