-- ===== src/Lockdrop/Unlock.antt =====
-- What the callback of an unlock leaves refuses every further claim for the position.
pub mod Closed
use neutron_tge_contracts.Prelude.{
  ℕ, ◌≤◌, ◌≡◌, ◌≢◌, refl, sym, ap, ◌∙◌, Bool, true, false, Option, none, some, List, [], ◌∷◌, arith,
  ◌==◌, if◌then◌else◌, is_some, Bool-cases, inl, inr,
}
use neutron_tge_contracts.Prelude.Map.{Map, lookup, insert, lookup-insert}
use neutron_tge_contracts.Prelude.Result.{
  Result, ok, err, ok_or-eq-ok, Ensures, Ensures-bind, Ensures-if, Ensures-mono, Ensures-pure,
}
use neutron_tge_contracts.Cosmwasm.{Addr, Denom, Cosmwasm, MessageInfo, Env}
use neutron_tge_contracts.Auction.Types.{PoolType, usdc, atom}
use neutron_tge_contracts.Lockdrop.Types.{
  PoolInfo, UserInfo, LockupInfoV2, StoredLockup, v2, PoolData, Store, Msg,
}
use neutron_tge_contracts.Lockdrop.Chain.{Chain, Astroport}
use neutron_tge_contracts.Lockdrop.Storage.{
  pool_of, set_pool, positions_of, position, save_position,
}
use neutron_tge_contracts.Lockdrop.Rewards.{
  update_position, update_positions, update_user_lockup_positions_and_calc_rewards, user_keys,
}
use neutron_tge_contracts.Lockdrop.Lockups.{load_user}
use neutron_tge_contracts.Lockdrop.Staking.{one_time_rewards}
use neutron_tge_contracts.Lockdrop.Claim.{
  close_position, with_rewards, handle_claim_rewards_and_unlock_for_lockup,
  callback_withdraw_user_rewards,
}
use neutron_tge_contracts.Lockdrop.Totals.{transferred_of}
use neutron_tge_contracts.Lockdrop.Totals.Positions.{compatible_load-LoadsFrom}
use neutron_tge_contracts.Lockdrop.Limits.Stored.{pool_of-set_pool, position-insert}
use neutron_tge_contracts.Lockdrop.Unlock.Closed.{
  IsClosed, IsClosedAt, same_pools-IsClosed, with_rewards-IsClosed, unlock-IsClosed,
}

-- No claim finds a closed position.
claim_refused :
    (cw : Cosmwasm) (chain : Chain) (astroport : Astroport) (env : Env) (info : MessageInfo)
    (pool_type : PoolType) (duration : ℕ) (withdraw_lp_stake : Bool) (s : Store)
    → IsClosedAt pool_type info.sender duration s
    → Ensures
        (λ r. false ≡ true)
        (handle_claim_rewards_and_unlock_for_lockup cw chain astroport env info pool_type duration
          withdraw_lp_stake s)
unfolding handle_claim_rewards_and_unlock_for_lockup
claim_refused cw chain astroport env info pool_type duration withdraw_lp_stake s h =
    Ensures-bind λ _ _. Ensures-bind λ _ _. Ensures-bind λ _ _. Ensures-bind λ old_info _.
      Ensures-bind λ (user_info, s1) e. Ensures-bind λ lockup loaded. Ensures-bind λ _ _.
        Ensures-bind λ _ closed. Ensures-bind λ _ _.
          let s2 : Store = record s1 { users = insert info.sender user_info s1.users } in
          let still = same_pools-IsClosed pool_type info.sender duration s1 s2 refl refl (
            (with_rewards-IsClosed cw chain astroport pool_type info.sender duration old_info s
                h).holds
              (user_info, s1) e) in
          let from =
            (compatible_load-LoadsFrom chain astroport (pool_of pool_type s2) info.sender duration
                s.config.generator).holds
              lockup loaded in
          let same : still.stored ≡ from.0 = cc (still.is_found, from.1) in
          let transferred : lockup.astroport_lp_transferred ≡ some still.amount =
            from.2.same_transferred ∙ (rw same at still.is_transferred) in
          let refused = rw transferred at closed in cc

-- Whatever the other contracts answer: once the callback of an unlock has succeeded for a position
-- of a user, no claim by this user for the same pool and duration succeeds on the storage that it
-- leaves, with or without an unlock, at any time and with any answers of the other contracts.
pub unlock_once :
    (cw : Cosmwasm) (chain chain' : Chain) (astroport : Astroport) (untrn : Denom) (env later : Env)
    (info : MessageInfo) (pool_type : PoolType) (duration : ℕ) (again : Bool) (s : Store)
    (r r' : Store × List Msg)
    → callback_withdraw_user_rewards cw chain astroport untrn env pool_type info.sender duration
        true s
      ≡ ok r
    → handle_claim_rewards_and_unlock_for_lockup cw chain' astroport later info pool_type duration
        again r.0
      ≢ ok r'
unlock_once cw chain chain' astroport untrn env later info pool_type duration again s r r' h h' =
    let closed =
      (unlock-IsClosed cw chain astroport pool_type info.sender duration untrn env s).holds r h in
    let absurd =
      (claim_refused cw chain' astroport later info pool_type duration again r.0 closed).holds r'
        h' in
    cc
