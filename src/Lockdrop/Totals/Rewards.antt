-- ===== src/Lockdrop/Totals/Rewards.antt =====
-- The rewards do not touch the amounts that a pool counts.
use neutron_tge_contracts.Prelude.{
  ℕ, ◌≡◌, refl, sym, ◌∙◌, Bool, some, List, [], ◌∷◌, ◌==◌, Bool-cases, inl, inr,
}
use neutron_tge_contracts.Prelude.Result.{ok, Ensures, Ensures-bind, Ensures-if, Ensures-pure}
use neutron_tge_contracts.Cosmwasm.{Addr, Denom, Cosmwasm, MessageInfo, Env}
use neutron_tge_contracts.Auction.Types.{PoolType}
use neutron_tge_contracts.Lockdrop.Types.{PoolInfo, UserInfo, LockupInfoV2, Store}
use neutron_tge_contracts.Lockdrop.Chain.{Chain, Astroport}
use neutron_tge_contracts.Lockdrop.Storage.{pool_of, set_pool, load_pool_info}
use neutron_tge_contracts.Lockdrop.Rewards.{
  update_position, update_positions, update_user_lockup_positions_and_calc_rewards, user_keys,
}
use neutron_tge_contracts.Lockdrop.Staking.{settle, one_time_rewards}
use neutron_tge_contracts.Lockdrop.Claim.{
  keep_position, with_rewards, handle_claim_rewards_and_unlock_for_lockup, pay_staking_rewards,
}
use neutron_tge_contracts.Lockdrop.Totals.{
  open_units, AreCounted, pool_of-IsCounted, set_pool-AreCounted, keep-IsCounted,
}
use neutron_tge_contracts.Lockdrop.Totals.Positions.{
  LoadsFrom, compatible_load-LoadsFrom, units-save,
}
use neutron_tge_contracts.Lockdrop.Totals.Lockups.{Counted, load_pool_info-locked}

-- The pool is saved with the same amount.
pub resave-AreCounted :
    (pool_type : PoolType) (info info' : PoolInfo) (s : Store)
    → load_pool_info (pool_of pool_type s) ≡ ok info
    → info'.amount_in_lockups ≡ info.amount_in_lockups
    → AreCounted s
    → AreCounted (set_pool pool_type (record (pool_of pool_type s) { pool_info = some info' }) s)
resave-AreCounted pool_type info info' s e same h =
    let counted = pool_of-IsCounted pool_type s h in
    set_pool-AreCounted pool_type _ s
      (record {
        pool_total =
            same ∙ sym (load_pool_info-locked (pool_of pool_type s) info e) ∙ counted.pool_total;
        user_total = counted.user_total;
      })
      h

-- A position is saved with the units that were read.
pub keep_position-AreCounted :
    (pool_type : PoolType) (user : Addr) (duration : ℕ) (info info' : LockupInfoV2) (s : Store)
    → LoadsFrom (pool_of pool_type s) user duration info
    → open_units info' ≡ open_units info
    → AreCounted s
    → AreCounted (keep_position pool_type user duration info' s)
keep_position-AreCounted pool_type user duration info info' s from same h =
    set_pool-AreCounted pool_type _ s
      (keep-IsCounted user _ (pool_of pool_type s)
        (units-save user duration info info' (pool_of pool_type s) from same)
        (pool_of-IsCounted pool_type s h))
      h

module _ (cw : Cosmwasm) (chain : Chain) (astroport : Astroport) where
  update_position-AreCounted :
      (user : Addr) (pool_type : PoolType) (duration total : ℕ) (s : Store)
      → AreCounted s
      → Ensures
          (λ r. AreCounted r.1)
          (update_position cw chain astroport user pool_type duration total s)
  unfolding update_position
  update_position-AreCounted user pool_type duration total s h = Ensures-bind λ pool_info _.
      Ensures-bind λ info loaded. Ensures-bind λ rewards _. Ensures-bind λ next _.
        let from =
          (compatible_load-LoadsFrom chain astroport (pool_of pool_type s) user duration
              s.config.generator).holds
            info loaded in
        elim (Bool-cases (info.ntrn_rewards == 0)) [
          | inl new ↦ rw new (
              Ensures-pure (
                keep_position-AreCounted pool_type user duration info
                  (record info { ntrn_rewards = rewards }) s from refl h))
          | inr old ↦ rw old (Ensures-pure h)
        ]

  update_positions-AreCounted :
      (user : Addr) (keys : List (PoolType × ℕ)) (total : ℕ) (s : Store)
      → AreCounted s
      → Ensures (λ r. AreCounted r.1) (update_positions cw chain astroport user keys total s)
  unfolding update_positions
  update_positions-AreCounted user [] total s h = Ensures-pure h
  update_positions-AreCounted user ((pool_type, duration) ∷ keys) total s h =
      Ensures-bind λ (next, s') e.
        update_positions-AreCounted user keys next s'
          ((update_position-AreCounted user pool_type duration total s h).holds (next, s') e)

  pub with_rewards-AreCounted :
      (user : Addr) (user_info : UserInfo) (s : Store)
      → AreCounted s
      → Ensures (λ r. AreCounted r.1) (with_rewards cw chain astroport user user_info s)
  unfolding with_rewards update_user_lockup_positions_and_calc_rewards
  with_rewards-AreCounted user user_info s h =
      Ensures-if (user_info.total_ntrn_rewards == 0)
        (λ _. Ensures-bind λ (total, s') e.
          Ensures-pure
            ((update_positions-AreCounted user (user_keys user s) 0 s h).holds (total, s') e))
        (λ _. Ensures-pure h)

  pub claim-AreCounted :
      (env : Env) (info : MessageInfo) (pool_type : PoolType) (duration : ℕ)
      (withdraw_lp_stake : Bool) (s : Store)
      → AreCounted s
      → Ensures Counted (
          handle_claim_rewards_and_unlock_for_lockup cw chain astroport env info pool_type duration
            withdraw_lp_stake s)
  unfolding handle_claim_rewards_and_unlock_for_lockup
  claim-AreCounted env info pool_type duration withdraw_lp_stake s h = Ensures-bind λ _ _.
      Ensures-bind λ _ _. Ensures-bind λ _ _. Ensures-bind λ old_info _.
        Ensures-bind λ (user_info, s1) e. Ensures-bind λ lockup _. Ensures-bind λ _ _.
          Ensures-bind λ _ _. Ensures-bind λ _ _.
            let counted =
              (with_rewards-AreCounted info.sender old_info s h).holds (user_info, s1) e in
            Ensures-pure (record { atom_pool = counted.atom_pool; usdc_pool = counted.usdc_pool })

  -- A payment of rewards changes the debts of a position only.
  pub record IsSettled (info info' : LockupInfoV2) : Type 0 where
    pub same_units : info'.lp_units_locked ≡ info.lp_units_locked
    pub same_transferred : info'.astroport_lp_transferred ≡ info.astroport_lp_transferred

  settle-IsSettled :
      (pool_info : PoolInfo) (lp_amount : ℕ) (info : LockupInfoV2)
      → Ensures (λ r. IsSettled info r.0) (settle cw chain astroport pool_info lp_amount info)
  unfolding settle
  settle-IsSettled pool_info lp_amount info = Ensures-bind λ _ _. Ensures-bind λ _ _.
      Ensures-bind λ (_, _) _. Ensures-pure (record { same_units = refl; same_transferred = refl })

  pub pay_staking_rewards-IsSettled :
      (generator user : Addr) (pool_info : PoolInfo) (lp_amount : ℕ) (user_info : UserInfo)
      (withdraw_lp_stake : Bool) (info : LockupInfoV2)
      → Ensures
          (λ r. IsSettled info r.0)
          (pay_staking_rewards cw chain astroport generator user pool_info lp_amount user_info
            withdraw_lp_stake info)
  unfolding pay_staking_rewards
  pay_staking_rewards-IsSettled generator user pool_info lp_amount user_info withdraw_lp_stake
        info =
      Ensures-if pool_info.is_staked
        (λ _. Ensures-bind λ denom _. Ensures-bind λ (settled, (due, rewards)) e.
          Ensures-bind λ _ _.
            Ensures-pure
              ((settle-IsSettled pool_info lp_amount info).holds (settled, (due, rewards)) e))
        (λ _. Ensures-pure (record { same_units = refl; same_transferred = refl }))

  pub one_time_rewards-AreCounted :
      (untrn : Denom) (user : Addr) (user_info : UserInfo) (s : Store)
      → AreCounted s
      → Ensures Counted (one_time_rewards cw chain astroport untrn user user_info s)
  unfolding one_time_rewards
  one_time_rewards-AreCounted untrn user user_info s h =
      Ensures-if user_info.ntrn_transferred (λ _. Ensures-pure h)
        (λ _. Ensures-bind λ _ _.
          Ensures-bind
            λ _ _. Ensures-pure (record { atom_pool = h.atom_pool; usdc_pool = h.usdc_pool }))
