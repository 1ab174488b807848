-- ===== src/Lockdrop/Unlock/Closed.antt =====
-- A position whose LP tokens are transferred stays so.
use neutron_tge_contracts.Prelude.{
  ℕ, ◌≡◌, refl, ◌∙◌, true, Option, some, List, [], ◌∷◌, arith, ◌==◌, Bool-cases, inl, inr,
}
use neutron_tge_contracts.Prelude.Map.{Map, insert, lookup-insert}
use neutron_tge_contracts.Prelude.Result.{Ensures, Ensures-bind, Ensures-if, Ensures-pure}
use neutron_tge_contracts.Cosmwasm.{Addr, Denom, Cosmwasm, Env}
use neutron_tge_contracts.Auction.Types.{PoolType, usdc, atom}
use neutron_tge_contracts.Lockdrop.Types.{
  PoolInfo, UserInfo, LockupInfoV2, StoredLockup, v2, PoolData, Store,
}
use neutron_tge_contracts.Lockdrop.Chain.{Chain, Astroport}
use neutron_tge_contracts.Lockdrop.Storage.{
  pool_of, set_pool, positions_of, position, save_position,
}
use neutron_tge_contracts.Lockdrop.Rewards.{
  update_position, update_positions, update_user_lockup_positions_and_calc_rewards, user_keys,
}
use neutron_tge_contracts.Lockdrop.Lockups.{load_user}
use neutron_tge_contracts.Lockdrop.Staking.{one_time_rewards}
use neutron_tge_contracts.Lockdrop.Claim.{
  close_position, with_rewards, callback_withdraw_user_rewards,
}
use neutron_tge_contracts.Lockdrop.Totals.{transferred_of}
use neutron_tge_contracts.Lockdrop.Totals.Positions.{compatible_load-LoadsFrom}
use neutron_tge_contracts.Lockdrop.Limits.Stored.{pool_of-set_pool, position-insert}

-- The LP tokens of the position are transferred.
pub record IsClosed (found : Option StoredLockup) : Type 0 where
  pub stored : StoredLockup
  pub amount : ℕ
  pub is_found : found ≡ some stored
  pub is_transferred : transferred_of stored ≡ some amount

abbrev pub IsClosedAt : PoolType → Addr → ℕ → Store → Type 0
IsClosedAt pool_type user duration s =
    IsClosed (position user duration (pool_of pool_type s).lockups)

-- A save of another position of the same user, or of the same one, still closed.
save-IsClosed :
    (user duration other : ℕ) (info : LockupInfoV2) (lockups : Map (Map StoredLockup))
    → ((amount : ℕ) (stored : StoredLockup)
        → position user other lockups ≡ some stored
        → transferred_of stored ≡ some amount
        → info.astroport_lp_transferred ≡ some amount)
    → IsClosed (position user duration lockups)
    → IsClosed (position user duration (save_position user other info lockups))
save-IsClosed user duration other info lockups keeps h =
    let m = positions_of user lockups in
    let own : positions_of user (save_position user other info lockups) ≡ insert other (v2 info) m =
      rw (lookup-insert user user (insert other (v2 info) m) lockups) (ground arith) in
    elim (Bool-cases (duration == other)) [
      | inl here ↦
          let same : duration ≡ other = ground arith in
          record {
            stored = v2 info;
            amount = h.amount;
            is_found = rw (own, lookup-insert other duration (v2 info) m, here) refl;
            is_transferred = keeps h.amount h.stored (rw same at h.is_found) h.is_transferred;
          }
      | inr there ↦ record {
        stored = h.stored;
        amount = h.amount;
        is_found = rw (own, lookup-insert other duration (v2 info) m, there) h.is_found;
        is_transferred = h.is_transferred;
      }
    ]

-- A change of one pool, for the positions in either.
set_pool-IsClosed :
    (pool_type other : PoolType) (user duration : ℕ) (p : PoolData) (s : Store)
    → (IsClosed (position user duration (pool_of other s).lockups)
        → IsClosed (position user duration p.lockups))
    → IsClosedAt pool_type user duration s
    → IsClosedAt pool_type user duration (set_pool other p s)
set_pool-IsClosed usdc usdc user duration p s keeps h = keeps h
set_pool-IsClosed atom atom user duration p s keeps h = keeps h
set_pool-IsClosed usdc atom user duration p s keeps h = h
set_pool-IsClosed atom usdc user duration p s keeps h = h

pub same_pools-IsClosed :
    (pool_type : PoolType) (user duration : ℕ) (s s' : Store)
    → s'.atom_pool ≡ s.atom_pool
    → s'.usdc_pool ≡ s.usdc_pool
    → IsClosedAt pool_type user duration s
    → IsClosedAt pool_type user duration s'
same_pools-IsClosed usdc user duration s s' e e' h = rw e' h
same_pools-IsClosed atom user duration s s' e e' h = rw e h

module _ (cw : Cosmwasm) (chain : Chain) (astroport : Astroport) (pool_type : PoolType)
    (user duration : ℕ) where
  update_position-IsClosed :
      (other : PoolType) (other_duration total : ℕ) (s : Store)
      → IsClosedAt pool_type user duration s
      → Ensures
          (λ r. IsClosedAt pool_type user duration r.1)
          (update_position cw chain astroport user other other_duration total s)
  unfolding update_position
  update_position-IsClosed other other_duration total s h = Ensures-bind λ pool_info _.
      Ensures-bind λ info loaded. Ensures-bind λ rewards _. Ensures-bind λ next _.
        let from =
          (compatible_load-LoadsFrom chain astroport (pool_of other s) user other_duration
              s.config.generator).holds
            info loaded in
        elim (Bool-cases (info.ntrn_rewards == 0)) [
          | inl new ↦ rw new (
              Ensures-pure (
                set_pool-IsClosed pool_type other user duration _ s
                  (save-IsClosed user duration other_duration
                    (record info { ntrn_rewards = rewards }) (pool_of other s).lockups
                    (λ amount stored found closed.
                      let same : stored ≡ from.0 = cc (found, from.1) in
                      from.2.same_transferred ∙ (rw same at closed)))
                  h))
          | inr old ↦ rw old (Ensures-pure h)
        ]

  update_positions-IsClosed :
      (keys : List (PoolType × ℕ)) (total : ℕ) (s : Store)
      → IsClosedAt pool_type user duration s
      → Ensures
          (λ r. IsClosedAt pool_type user duration r.1)
          (update_positions cw chain astroport user keys total s)
  unfolding update_positions
  update_positions-IsClosed [] total s h = Ensures-pure h
  update_positions-IsClosed ((other, other_duration) ∷ keys) total s h =
      Ensures-bind λ (next, s') e.
        update_positions-IsClosed keys next s'
          ((update_position-IsClosed other other_duration total s h).holds (next, s') e)

  pub with_rewards-IsClosed :
      (user_info : UserInfo) (s : Store)
      → IsClosedAt pool_type user duration s
      → Ensures
          (λ r. IsClosedAt pool_type user duration r.1)
          (with_rewards cw chain astroport user user_info s)
  unfolding with_rewards update_user_lockup_positions_and_calc_rewards
  with_rewards-IsClosed user_info s h =
      Ensures-if (user_info.total_ntrn_rewards == 0)
        (λ _. Ensures-bind λ (total, s') e.
          Ensures-pure ((update_positions-IsClosed (user_keys user s) 0 s h).holds (total, s') e))
        (λ _. Ensures-pure h)

  close_position-IsClosed :
      (lp_amount : ℕ) (pool_info : PoolInfo) (info : LockupInfoV2) (s : Store)
      → Ensures
          (IsClosedAt pool_type user duration)
          (close_position pool_type user duration lp_amount pool_info info s)
  unfolding close_position
  close_position-IsClosed lp_amount pool_info info s = Ensures-bind λ locked _.
      Ensures-bind λ total _. Ensures-pure (record {
        stored = v2 (record info { astroport_lp_transferred = some lp_amount });
        amount = lp_amount;
        is_found = rw (pool_of-set_pool pool_type _ s) (
            position-insert user duration
              (record info { astroport_lp_transferred = some lp_amount })
              (positions_of user (pool_of pool_type s).lockups) (pool_of pool_type s).lockups);
        is_transferred = refl;
      })

  one_time_rewards-IsClosed :
      (untrn : Denom) (user_info : UserInfo) (s : Store)
      → IsClosedAt pool_type user duration s
      → Ensures
          (λ r. IsClosedAt pool_type user duration r.0)
          (one_time_rewards cw chain astroport untrn user user_info s)
  unfolding one_time_rewards
  one_time_rewards-IsClosed untrn user_info s h =
      Ensures-if user_info.ntrn_transferred (λ _. Ensures-pure h)
        (λ _. Ensures-bind λ _ _.
          Ensures-bind
            λ _ _. Ensures-pure (same_pools-IsClosed pool_type user duration s _ refl refl h))

  pub unlock-IsClosed :
      (untrn : Denom) (env : Env) (s : Store)
      → Ensures
          (λ r. IsClosedAt pool_type user duration r.0)
          (callback_withdraw_user_rewards cw chain astroport untrn env pool_type user duration true
            s)
  unfolding callback_withdraw_user_rewards
  unlock-IsClosed untrn env s = Ensures-bind λ pool_info _. Ensures-bind λ _ _. Ensures-bind λ _ _.
      Ensures-bind λ lp_amount _. Ensures-bind λ (settled, _) _. Ensures-bind λ s1 e.
        Ensures-bind λ (s2, rewards) e'. Ensures-pure (
          (one_time_rewards-IsClosed untrn (load_user user s) s1
              ((close_position-IsClosed lp_amount pool_info settled s).holds s1 e)).holds
            (s2, rewards) e')
