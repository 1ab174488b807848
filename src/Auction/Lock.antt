-- ===== src/Auction/Lock.antt =====
-- `get_user_lp_info`, `execute_lock_lp_tokens` and `execute_withdraw_lp_tokens` of
-- contracts/auction/src/contract.rs.
use neutron_tge_contracts.Prelude.{ℕ, ◌/◌, ◌||◌, [], ◌∷◌, ltb, ◌==◌, if◌then◌else◌}
use neutron_tge_contracts.Prelude.Map.{lookup, insert}
use neutron_tge_contracts.Prelude.Result.{
  Result, ok, ◌>>=◌, ◌>>◌, reject_if, ok_or, checked_add, checked_sub,
}
use neutron_tge_contracts.Cosmwasm.{Addr, Cosmwasm, MessageInfo, Env}
use neutron_tge_contracts.Auction.Types.{
  PoolType, usdc, atom, State, UserInfo, UserLpInfo, AuctionError, increase_lockup_for,
  withdraw_from_lockup, Store, Outcome, user_not_found, pool_size_not_set, lock_window_closed,
  lockdrop_not_set, nothing_deposited, not_enough_lp, overflow, panicked,
}
use neutron_tge_contracts.Auction.Windows.{is_lock_window_closed}

module _ (cw : Cosmwasm) where
  -- A user's part of a pool's tokens, before it is halved.
  unfoldable pub lp_share : ℕ → ℕ → ℕ → Result AuctionError ℕ
  lp_share user_deposited total_deposited total_lp_tokens =
      if total_deposited == 0 then ok 0 else (do
        ratio ← ok_or panicked (cw.from_ratio user_deposited total_deposited)
        ok_or panicked (cw.mul_decimal total_lp_tokens ratio))

  unfoldable pub get_user_lp_info : UserInfo → State → Result AuctionError UserLpInfo
  get_user_lp_info user state = do
    atom_lp ← lp_share user.atom_deposited state.total_atom_deposited state.atom_lp_size
    usdc_lp ← lp_share user.usdc_deposited state.total_usdc_deposited state.usdc_lp_size
    ok (record { atom_lp_amount = atom_lp / 2; usdc_lp_amount = usdc_lp / 2 })

-- The lock of one pool's tokens: the user's new lock and the total's.
unfoldable pub lock_more : ℕ → ℕ → ℕ → ℕ → ℕ → Result AuctionError (ℕ × ℕ)
lock_more deposited lp_amount user_locked total_locked amount = do
  reject_if (deposited == 0) nothing_deposited
  free ← checked_sub panicked lp_amount user_locked
  reject_if (ltb free amount) not_enough_lp
  user ← checked_add overflow user_locked amount
  total ← checked_add overflow total_locked amount
  ok (user, total)

unfoldable pub unlock : ℕ → ℕ → ℕ → Result AuctionError (ℕ × ℕ)
unlock user_locked total_locked amount = do
  user ← checked_sub overflow user_locked amount
  total ← checked_sub overflow total_locked amount
  ok (user, total)

-- The user and the state with the locks of one pool set.
abbrev pub set_locked : PoolType → ℕ → ℕ → UserInfo → Addr → Store → Store
set_locked usdc user_locked total_locked user sender s = record s {
  users = insert sender (record user { usdc_lp_locked = user_locked }) s.users;
  state = record (s.state) { usdc_lp_locked = total_locked };
}
set_locked atom user_locked total_locked user sender s = record s {
  users = insert sender (record user { atom_lp_locked = user_locked }) s.users;
  state = record (s.state) { atom_lp_locked = total_locked };
}

abbrev pub lock_asset : PoolType → UserLpInfo → UserInfo → State → ℕ → Result AuctionError (ℕ × ℕ)
lock_asset usdc lp user state amount =
    lock_more user.usdc_deposited lp.usdc_lp_amount user.usdc_lp_locked state.usdc_lp_locked amount
lock_asset atom lp user state amount =
    lock_more user.atom_deposited lp.atom_lp_amount user.atom_lp_locked state.atom_lp_locked amount

abbrev pub unlock_asset : PoolType → UserInfo → State → ℕ → Result AuctionError (ℕ × ℕ)
unlock_asset usdc user state amount = unlock user.usdc_lp_locked state.usdc_lp_locked amount
unlock_asset atom user state amount = unlock user.atom_lp_locked state.atom_lp_locked amount

-- The checks that both calls begin with; what passes is the user and the lockdrop's address.
unfoldable pub lock_guard : Env → MessageInfo → Store → Result AuctionError (UserInfo × Addr)
lock_guard env info s = do
  user ← ok_or user_not_found (lookup info.sender s.users)
  reject_if (s.state.atom_ntrn_size == 0 || s.state.usdc_ntrn_size == 0) pool_size_not_set
  closed ← is_lock_window_closed env.time s.config
  reject_if closed lock_window_closed
  lockdrop ← ok_or lockdrop_not_set s.config.lockdrop_contract_address
  ok (user, lockdrop)

module _ (cw : Cosmwasm) where
  unfoldable pub execute_lock_lp_tokens : Env → MessageInfo → PoolType → ℕ → ℕ → Store → Outcome
  execute_lock_lp_tokens env info asset amount duration s = do
    (user, lockdrop) ← lock_guard env info s
    lp ← get_user_lp_info cw user s.state
    (user_locked, total_locked) ← lock_asset asset lp user s.state amount
    ok (
      set_locked asset user_locked total_locked user info.sender s,
      increase_lockup_for lockdrop info.sender asset amount duration ∷ [],
    )

unfoldable pub execute_withdraw_lp_tokens : Env → MessageInfo → PoolType → ℕ → ℕ → Store → Outcome
execute_withdraw_lp_tokens env info asset amount duration s = do
  (user, lockdrop) ← lock_guard env info s
  (user_locked, total_locked) ← unlock_asset asset user s.state amount
  ok (
    set_locked asset user_locked total_locked user info.sender s,
    withdraw_from_lockup lockdrop info.sender asset amount duration ∷ [],
  )
