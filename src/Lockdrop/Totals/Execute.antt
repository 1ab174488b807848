-- ===== src/Lockdrop/Totals/Execute.antt =====
-- Every message of the lockdrop keeps the amounts equal to the sums over the positions.
use neutron_tge_contracts.Prelude.{
  ℕ, ◌≡◌, refl, sym, true, Option, some, Bool-cases, inl, inr, ◌==◌,
}
use neutron_tge_contracts.Prelude.Map.{sum_values}
use neutron_tge_contracts.Prelude.Result.{Ensures, Ensures-bind, Ensures-pure}
use neutron_tge_contracts.Cosmwasm.{Addr, Denom, Cosmwasm, MessageInfo, Env}
use neutron_tge_contracts.Auction.Types.{PoolType, usdc, atom}
use neutron_tge_contracts.Lockdrop.Types.{PoolData, Store}
use neutron_tge_contracts.Lockdrop.Chain.{Chain, Astroport, Ownership}
use neutron_tge_contracts.Lockdrop.Storage.{set_pool}
use neutron_tge_contracts.Lockdrop.Admin.{
  Cw20ReceiveMsg, new_pool, handle_update_config, handle_set_token_info,
  handle_increasing_ntrn_incentives, handle_initialize_pool, receive_cw20,
}
use neutron_tge_contracts.Lockdrop.Migration.{handle_migrate_liquidity_to_pcl_pools}
use neutron_tge_contracts.Lockdrop.Execute.{
  ExecuteMsg, increase_lockup_for, receive, increase_ntrn_incentives, update_config, set_token_info,
  withdraw_from_lockup, claim_rewards_and_optionally_unlock, callback_msg, propose_new_owner_msg,
  drop_ownership_proposal_msg, claim_ownership_msg, migrate_liquidity_to_pcl_pools, handle_callback,
  execute,
}
use neutron_tge_contracts.Lockdrop.Totals.{units_held, IsCounted, AreCounted}
use neutron_tge_contracts.Lockdrop.Totals.Lockups.{Counted, increase-AreCounted}
use neutron_tge_contracts.Lockdrop.Totals.Withdraw.{withdraw-AreCounted}
use neutron_tge_contracts.Lockdrop.Totals.Rewards.{
  resave-AreCounted, with_rewards-AreCounted, claim-AreCounted,
}
use neutron_tge_contracts.Lockdrop.Totals.Callbacks.{
  IsOpenAt, AllowsCallback, callback_step-AreCounted,
}

-- No position has units in either pool.
pub record IsUnused (s : Store) : Type 0 where
  pub atom_empty : sum_values units_held s.atom_pool.lockups ≡ 0
  pub usdc_empty : sum_values units_held s.usdc_pool.lockups ≡ 0

-- A message that changes the units of a position finds it open, and the pools are set up before
-- there are positions.
abbrev pub Allows : Cosmwasm → ExecuteMsg → Store → Type 0
Allows cw (increase_lockup_for user_address pool_type amount duration) s =
    (user : Addr) → cw.addr_validate user_address ≡ some user → IsOpenAt pool_type user duration s
Allows cw (withdraw_from_lockup user_address pool_type duration amount) s =
    (user : Addr) → cw.addr_validate user_address ≡ some user → IsOpenAt pool_type user duration s
Allows cw (set_token_info atom_token usdc_token generator) s = IsUnused s
Allows cw (callback_msg msg) s = AllowsCallback msg s
Allows cw _ s = Unit

new_pool-IsCounted :
    (lp_token : Addr) (p : PoolData)
    → sum_values units_held p.lockups ≡ 0
    → IsCounted p
    → IsCounted (new_pool lp_token p)
new_pool-IsCounted lp_token p empty h = record { pool_total = sym empty; user_total = h.user_total }

-- The total share is not counted.
with_share :
    (pool_type : PoolType) (p : PoolData) (total : ℕ) (s : Store)
    → AreCounted (set_pool pool_type p s)
    → AreCounted (set_pool pool_type p (record s { total_incentives_share = total }))
with_share usdc p total s c = record { atom_pool = c.atom_pool; usdc_pool = c.usdc_pool }
with_share atom p total s c = record { atom_pool = c.atom_pool; usdc_pool = c.usdc_pool }

module _ (cw : Cosmwasm) (chain : Chain) (astroport : Astroport) (untrn : Denom) (s : Store)
    (h : AreCounted s) where
  set_token_info-AreCounted :
      (info : MessageInfo) (usdc_token atom_token generator : ℕ)
      → IsUnused s
      → Ensures Counted (handle_set_token_info cw info usdc_token atom_token generator s)
  unfolding handle_set_token_info
  set_token_info-AreCounted info usdc_token atom_token generator unused = Ensures-bind λ _ _.
      Ensures-bind λ atom_lp _. Ensures-bind λ usdc_lp _. Ensures-bind λ _ _. Ensures-pure (record {
        atom_pool = new_pool-IsCounted atom_lp s.atom_pool unused.atom_empty h.atom_pool;
        usdc_pool = new_pool-IsCounted usdc_lp s.usdc_pool unused.usdc_empty h.usdc_pool;
      })

  receive-AreCounted :
      (env : Env) (info : MessageInfo) (msg : Cw20ReceiveMsg)
      → Ensures Counted (receive_cw20 cw env info msg s)
  unfolding receive_cw20 handle_initialize_pool
  receive-AreCounted env info msg = Ensures-bind λ _ _. Ensures-bind λ _ _.
      Ensures-bind λ (pool_type, share) _. Ensures-bind λ _ _. Ensures-bind λ pool_info e.
        Ensures-bind λ _ _. Ensures-bind λ _ _. Ensures-bind λ _ _. Ensures-bind λ _ _.
          let resaved =
            resave-AreCounted pool_type pool_info
              (record pool_info { incentives_share = share; is_staked = true }) s e refl h in
          Ensures-pure (with_share pool_type _ _ s resaved)

  migrate_pools-AreCounted :
      (env : Env) (info : MessageInfo) (user_address : Option ℕ)
      → Ensures Counted
          (handle_migrate_liquidity_to_pcl_pools cw chain astroport env info user_address s)
  unfolding handle_migrate_liquidity_to_pcl_pools
  migrate_pools-AreCounted env info user_address = Ensures-bind λ user _. Ensures-bind λ old_info _.
      Ensures-bind λ (user_info, s1) e.
        let counted =
          (with_rewards-AreCounted cw chain astroport user old_info s h).holds (user_info, s1) e in
        elim (Bool-cases (old_info.total_ntrn_rewards == 0)) [
          | inl new ↦ rw new (
              Ensures-pure
                (record { atom_pool = counted.atom_pool; usdc_pool = counted.usdc_pool }))
          | inr old ↦ rw old (Ensures-pure h)
        ]

  -- From whomever the message is and whatever the other contracts answer: if the amounts of both
  -- pools and the totals of all users were the sums over the positions whose LP tokens are not
  -- transferred, they are so after a call that succeeds, under two conditions. A message that
  -- changes the units of a position finds the position open; and `SetTokenInfo` comes while no
  -- position has units, since it sets the amounts of both pools to 0.
  pub execute-AreCounted :
      (ownership : Ownership) (env : Env) (info : MessageInfo) (msg : ExecuteMsg)
      → Allows cw msg s
      → Ensures Counted (execute cw chain astroport ownership untrn env info msg s)
  unfolding execute
  execute-AreCounted o env info (increase_lockup_for user pool_type amount duration) a =
      increase-AreCounted cw chain astroport env info user pool_type duration amount s a h
  execute-AreCounted o env info (receive msg) a = receive-AreCounted env info msg
  execute-AreCounted o env info increase_ntrn_incentives a =
      unfold handle_increasing_ntrn_incentives in
      Ensures-bind λ _ _. Ensures-bind λ _ _. Ensures-bind λ _ _.
        Ensures-bind
          λ _ _. Ensures-pure (record { atom_pool = h.atom_pool; usdc_pool = h.usdc_pool })
  execute-AreCounted o env info (update_config new_config) a =
      unfold handle_update_config in
      Ensures-bind λ _ _. Ensures-bind λ _ _.
        Ensures-bind
          λ _ _. Ensures-pure (record { atom_pool = h.atom_pool; usdc_pool = h.usdc_pool })
  execute-AreCounted o env info (set_token_info atom_token usdc_token generator) a =
      set_token_info-AreCounted info usdc_token atom_token generator a
  execute-AreCounted o env info (withdraw_from_lockup user pool_type duration amount) a =
      withdraw-AreCounted cw chain astroport env info user pool_type duration amount s a h
  execute-AreCounted o env info (claim_rewards_and_optionally_unlock pool_type duration w) a =
      claim-AreCounted cw chain astroport env info pool_type duration w s h
  execute-AreCounted o env info (callback_msg msg) a =
      unfold handle_callback in
      Ensures-bind λ _ _. callback_step-AreCounted cw chain astroport untrn s h env msg a o
  execute-AreCounted o env info (propose_new_owner_msg owner expires_in) a =
      Ensures-bind λ _ _. Ensures-pure (record { atom_pool = h.atom_pool; usdc_pool = h.usdc_pool })
  execute-AreCounted o env info drop_ownership_proposal_msg a =
      Ensures-bind λ _ _. Ensures-pure (record { atom_pool = h.atom_pool; usdc_pool = h.usdc_pool })
  execute-AreCounted o env info claim_ownership_msg a =
      Ensures-bind λ _ _. Ensures-pure (record { atom_pool = h.atom_pool; usdc_pool = h.usdc_pool })
  execute-AreCounted o env info (migrate_liquidity_to_pcl_pools user) a =
      migrate_pools-AreCounted env info user
