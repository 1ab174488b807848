-- ===== src/Auction/Totals/Execute.antt =====
-- Every message of the auction keeps the totals equal to the sums over the users.
use neutron_tge_contracts.Prelude.{ℕ, ◌+◌, ◌≡◌, Option, some, List, [], arith}
use neutron_tge_contracts.Prelude.Map.{Map, lookup}
use neutron_tge_contracts.Prelude.Result.{
  ok_or-eq-ok, Ensures, Ensures-bind, Ensures-mono, Ensures-pure,
}
use neutron_tge_contracts.Cosmwasm.{Addr, Cosmwasm, MessageInfo, Env}
use neutron_tge_contracts.Auction.Types.{
  PoolType, usdc, atom, State, UserInfo, Store, Msg, user_not_found,
}
use neutron_tge_contracts.Auction.Deposit.{execute_deposit, take_out, execute_withdraw}
use neutron_tge_contracts.Auction.Lock.{
  set_locked, execute_lock_lp_tokens, execute_withdraw_lp_tokens,
}
use neutron_tge_contracts.Auction.Pool.{
  Querier, execute_set_pool_size, execute_init_pool, execute_finalize_init_pool,
}
use neutron_tge_contracts.Auction.Admin.{execute_update_config, execute_set_token_info}
use neutron_tge_contracts.Auction.Execute.{
  ExecuteMsg, update_config, set_token_info, deposit, withdraw, init_pool, set_pool_size, lock_lp,
  withdraw_lp, migrate_to_vesting, finalize_pool_initialization, execute,
}
use neutron_tge_contracts.Auction.Locks.{
  locked_by, locked_total, lock_asset_moves, unlock_asset_moves, guard_finds_user,
}
use neutron_tge_contracts.Auction.Totals.Migrate.{migrate-Migrated}
use neutron_tge_contracts.Auction.Totals.{IsConsistent, insert-IsConsistent}

abbrev pub Consistent : Store × List Msg → Type 0
Consistent r = IsConsistent r.0.users r.0.state

module _ (s : Store) (h : IsConsistent s.users s.state) where
  deposit-IsConsistent :
      (env : Env) (info : MessageInfo) → Ensures Consistent (execute_deposit env info s)
  unfolding execute_deposit
  deposit-IsConsistent env info = Ensures-bind λ denoms _. Ensures-bind λ is_open _.
      Ensures-bind λ _ _. Ensures-bind λ amounts _. Ensures-bind λ _ _. Ensures-bind λ total_usdc e.
        Ensures-bind λ total_atom e'. Ensures-bind λ user_usdc u. Ensures-bind λ user_atom u'.
          Ensures-pure (
            insert-IsConsistent info.sender _ s.users s.state _
              (record {
                usdc_total = ground arith;
                atom_total = ground arith;
                usdc_locks = omega arith;
                atom_locks = omega arith;
              })
              h)

  take_out-IsConsistent :
      (env : Env) (info : MessageInfo) (usdc_denom atom_denom usdc atom : ℕ) (user : UserInfo)
      → lookup info.sender s.users ≡ some user
      → Ensures Consistent (take_out env info usdc_denom atom_denom usdc atom user s)
  unfolding take_out
  take_out-IsConsistent env info usdc_denom atom_denom usdc_amount atom_amount user known =
      Ensures-bind λ _ _. Ensures-bind λ total_usdc e. Ensures-bind λ total_atom e'.
        Ensures-bind λ user_usdc u. Ensures-bind λ user_atom u'. Ensures-pure (
          insert-IsConsistent info.sender _ s.users s.state _
            (record {
              usdc_total = ground arith;
              atom_total = ground arith;
              usdc_locks = ground arith;
              atom_locks = ground arith;
            })
            h)

  withdraw-IsConsistent :
      (cw : Cosmwasm) (env : Env) (info : MessageInfo) (amount_usdc amount_atom : ℕ)
      → Ensures Consistent (execute_withdraw cw env info amount_usdc amount_atom s)
  unfolding execute_withdraw
  withdraw-IsConsistent cw env info amount_usdc amount_atom =
      Ensures-bind λ (usdc_denom, atom_denom) _. Ensures-bind λ user found. Ensures-bind λ _ _.
        Ensures-bind λ _ _. Ensures-bind λ _ _. Ensures-bind λ _ _. Ensures-bind λ _ _.
          Ensures-bind λ _ _.
            take_out-IsConsistent env info usdc_denom atom_denom amount_usdc amount_atom user
              (ok_or-eq-ok user_not_found (lookup info.sender s.users) found)

  -- One pool's locks move together.
  set_locked-IsConsistent :
      (asset : PoolType) (user_locked total_locked : ℕ) (user : UserInfo) (sender : Addr)
      → lookup sender s.users ≡ some user
      → user_locked + locked_total asset s.state ≡ locked_by asset user + total_locked
      → Consistent (set_locked asset user_locked total_locked user sender s, [])
  set_locked-IsConsistent usdc user_locked total_locked user sender known moves =
      insert-IsConsistent sender _ s.users s.state _
        (record {
          usdc_total = ground arith;
          atom_total = ground arith;
          usdc_locks = ground arith;
          atom_locks = ground arith;
        })
        h
  set_locked-IsConsistent atom user_locked total_locked user sender known moves =
      insert-IsConsistent sender _ s.users s.state _
        (record {
          usdc_total = ground arith;
          atom_total = ground arith;
          usdc_locks = ground arith;
          atom_locks = ground arith;
        })
        h

  lock-IsConsistent :
      (cw : Cosmwasm) (env : Env) (info : MessageInfo) (asset : PoolType) (amount duration : ℕ)
      → Ensures Consistent (execute_lock_lp_tokens cw env info asset amount duration s)
  unfolding execute_lock_lp_tokens
  lock-IsConsistent cw env info asset amount duration = Ensures-bind λ (user, lockdrop) guarded.
      Ensures-bind λ lp _. Ensures-bind λ (user_locked, total_locked) e. Ensures-pure (
        set_locked-IsConsistent asset user_locked total_locked user info.sender
          (guard_finds_user s env info user lockdrop guarded)
          (lock_asset_moves asset lp user s.state amount user_locked total_locked e).1)

  unlock-IsConsistent :
      (env : Env) (info : MessageInfo) (asset : PoolType) (amount duration : ℕ)
      → Ensures Consistent (execute_withdraw_lp_tokens env info asset amount duration s)
  unfolding execute_withdraw_lp_tokens
  unlock-IsConsistent env info asset amount duration = Ensures-bind λ (user, lockdrop) guarded.
      Ensures-bind λ (user_locked, total_locked) e. Ensures-pure (
        set_locked-IsConsistent asset user_locked total_locked user info.sender
          (guard_finds_user s env info user lockdrop guarded)
          (unlock_asset_moves asset user s.state amount user_locked total_locked e))

-- The sizes of the pool and the shares minted are no totals.
same_totals :
    {users : Map UserInfo} {state : State} {usdc_minted atom_minted : Option ℕ}
    {time usdc_ntrn atom_ntrn usdc_lp atom_lp : ℕ}
    → IsConsistent users state
    → IsConsistent users (record state {
      lp_usdc_shares_minted = usdc_minted;
      lp_atom_shares_minted = atom_minted;
      pool_init_timestamp = time;
      usdc_ntrn_size = usdc_ntrn;
      atom_ntrn_size = atom_ntrn;
      usdc_lp_size = usdc_lp;
      atom_lp_size = atom_lp;
    })
same_totals h = record {
  sorted = h.sorted;
  usdc_total = h.usdc_total;
  atom_total = h.atom_total;
  usdc_locks = h.usdc_locks;
  atom_locks = h.atom_locks;
}

-- Whatever the message: if the call succeeds and the totals were the sums over the users, of the
-- deposits and of the locks in either asset, they are so after it.
pub execute-IsConsistent :
    (cw : Cosmwasm) (sqrt : ℕ → ℕ) (querier : Querier) (env : Env) (info : MessageInfo)
    (msg : ExecuteMsg) (s : Store)
    → IsConsistent s.users s.state
    → Ensures Consistent (execute cw sqrt querier env info msg s)
unfolding execute
execute-IsConsistent cw sqrt querier env info (update_config new_config) s h =
    unfold execute_update_config in
    Ensures-bind λ _ _.
      Ensures-bind λ _ _. Ensures-bind λ _ _. Ensures-bind λ _ _. Ensures-bind λ _ _. Ensures-pure h
execute-IsConsistent cw sqrt querier env info (set_token_info usdc_denom atom_denom pool_info) s h =
    unfold execute_set_token_info in Ensures-bind λ _ _. Ensures-bind λ _ _. Ensures-pure h
execute-IsConsistent cw sqrt querier env info deposit s h = deposit-IsConsistent s h env info
execute-IsConsistent cw sqrt querier env info (withdraw amount_usdc amount_atom) s h =
    withdraw-IsConsistent s h cw env info amount_usdc amount_atom
execute-IsConsistent cw sqrt querier env info init_pool s h =
    unfold execute_init_pool in
    Ensures-bind λ _ _. Ensures-bind λ _ _. Ensures-bind λ _ _.
      Ensures-bind λ _ _. Ensures-bind λ _ _. Ensures-bind λ _ _. Ensures-bind λ _ _. Ensures-pure h
execute-IsConsistent cw sqrt querier env info set_pool_size s h =
    unfold execute_set_pool_size in
    Ensures-bind λ _ _. Ensures-bind λ _ _. Ensures-bind λ _ _. Ensures-bind λ _ _.
      Ensures-bind λ _ _. Ensures-bind λ _ _. Ensures-bind λ _ _. Ensures-bind λ _ _.
        Ensures-bind λ _ _. Ensures-bind λ _ _. Ensures-bind λ _ _. Ensures-pure (same_totals h)
execute-IsConsistent cw sqrt querier env info (lock_lp asset amount duration) s h =
    lock-IsConsistent s h cw env info asset amount duration
execute-IsConsistent cw sqrt querier env info (withdraw_lp asset amount duration) s h =
    unlock-IsConsistent s h env info asset amount duration
execute-IsConsistent cw sqrt querier env info migrate_to_vesting s h =
    Ensures-mono (λ r m. rw m.1 m.0.consistent) (migrate-Migrated cw env s h)
execute-IsConsistent cw sqrt querier env info (finalize_pool_initialization prev) s h =
    unfold execute_finalize_init_pool in
    Ensures-bind λ _ _. Ensures-bind λ _ _. Ensures-bind λ _ _.
      Ensures-bind λ _ _. Ensures-bind λ _ _. Ensures-bind λ _ _. Ensures-pure (same_totals h)
