-- ===== src/Auction/Locks.antt =====
-- What a lock of LP tokens requires and leaves: `execute_lock_lp_tokens` and
-- `execute_withdraw_lp_tokens` of contracts/auction/src/contract.rs.
use neutron_tge_contracts.Prelude.{
  ℕ, ◌+◌, ◌≤◌, ◌<◌, ◌≡◌, refl, sym, false, ◌||◌, some, List, [], ◌∷◌, arith, ◌==◌,
}
use neutron_tge_contracts.Prelude.Map.{lookup, insert, lookup-insert}
use neutron_tge_contracts.Prelude.Result.{
  ok, ◌>>=◌, reject_if, ok_or-eq-ok, Ensures, Ensures-bind, Ensures-pure,
}
use neutron_tge_contracts.Cosmwasm.{Addr, Cosmwasm, MessageInfo, Env}
use neutron_tge_contracts.Auction.Types.{
  PoolType, usdc, atom, Config, State, UserInfo, UserLpInfo, Msg, increase_lockup_for,
  user_not_found, Store, pool_size_not_set, lockdrop_not_set,
}
use neutron_tge_contracts.Auction.Windows.{is_lock_window_closed, are_windows_closed}
use neutron_tge_contracts.Auction.Lock.{
  get_user_lp_info, lock_more, set_locked, lock_asset, unlock, unlock_asset, lock_guard,
  execute_lock_lp_tokens,
}

abbrev pub locked_by : PoolType → UserInfo → ℕ
locked_by usdc user = user.usdc_lp_locked
locked_by atom user = user.atom_lp_locked

abbrev pub locked_total : PoolType → State → ℕ
locked_total usdc state = state.usdc_lp_locked
locked_total atom state = state.atom_lp_locked

abbrev pub lp_of : PoolType → UserLpInfo → ℕ
lp_of usdc lp = lp.usdc_lp_amount
lp_of atom lp = lp.atom_lp_amount

-- A lock adds the amount to the user's and to the total, and stays within the user's tokens.
pub lock_asset_moves :
    (asset : PoolType) (lp : UserLpInfo) (user : UserInfo) (state : State)
    (amount user_locked total_locked : ℕ)
    → lock_asset asset lp user state amount ≡ ok (user_locked, total_locked)
    → (user_locked ≤ lp_of asset lp)
      × (user_locked + locked_total asset state ≡ locked_by asset user + total_locked)
      × (user_locked ≡ locked_by asset user + amount)
unfolding lock_more ◌>>=◌
lock_asset_moves usdc lp user state amount user_locked total_locked e = ground arith
lock_asset_moves atom lp user state amount user_locked total_locked e = ground arith

pub unlock_asset_moves :
    (asset : PoolType) (user : UserInfo) (state : State) (amount user_locked total_locked : ℕ)
    → unlock_asset asset user state amount ≡ ok (user_locked, total_locked)
    → user_locked + locked_total asset state ≡ locked_by asset user + total_locked
unfolding unlock ◌>>=◌
unlock_asset_moves usdc user state amount user_locked total_locked e = ground arith
unlock_asset_moves atom user state amount user_locked total_locked e = ground arith

-- When the window to lock LP tokens ends.
abbrev pub lock_window_end : Config → ℕ
lock_window_end config =
    config.init_timestamp + config.deposit_window + config.withdrawal_window
    + config.lp_tokens_lock_window

-- What the checks pass, and what they require.
abbrev pub Guarded : Env → MessageInfo → Store → UserInfo × Addr → Type 0
Guarded env info s (user, lockdrop) =
    (lookup info.sender s.users ≡ some user)
    × (s.config.lockdrop_contract_address ≡ some lockdrop)
    × (env.time < lock_window_end s.config)
    × (0 < s.state.atom_ntrn_size)
    × (0 < s.state.usdc_ntrn_size)

open_before_end :
    (now : ℕ) (config : Config)
    → is_lock_window_closed now config ≡ ok false
    → now < lock_window_end config
unfolding is_lock_window_closed are_windows_closed ◌>>=◌
open_before_end now config h = ground arith

both_sized : (a b : ℕ) → reject_if (a == 0 || b == 0) pool_size_not_set ≡ ok tt → (0 < a) × (0 < b)
both_sized a b h = (ground arith, ground arith)

pub lock_guard-Guarded :
    (env : Env) (info : MessageInfo) (s : Store)
    → Ensures (Guarded env info s) (lock_guard env info s)
unfolding lock_guard
lock_guard-Guarded env info s = Ensures-bind λ user found. Ensures-bind λ _ sized.
    Ensures-bind λ closed window. Ensures-bind λ _ is_open. Ensures-bind λ lockdrop set.
      let (atom_sized, usdc_sized) =
        both_sized s.state.atom_ntrn_size s.state.usdc_ntrn_size sized in
      let still_open : closed ≡ false = ground (arith, is_open) in
      Ensures-pure (
        ok_or-eq-ok user_not_found (lookup info.sender s.users) found,
        ok_or-eq-ok lockdrop_not_set s.config.lockdrop_contract_address set,
        open_before_end env.time s.config (rw still_open at window),
        atom_sized,
        usdc_sized,
      )

pub guard_finds_user :
    (s : Store) (env : Env) (info : MessageInfo) (user : UserInfo) (lockdrop : Addr)
    → lock_guard env info s ≡ ok (user, lockdrop)
    → lookup info.sender s.users ≡ some user
guard_finds_user s env info user lockdrop e =
    ((lock_guard-Guarded env info s).holds (user, lockdrop) e).0

-- The lock of one user in one pool is now `locked`; the total moved with it.
pub record IsLocked (asset : PoolType) (sender : Addr) (user : UserInfo) (locked : ℕ) (s s' : Store)
    : Type 0 where
  pub own_lock :
      (new : UserInfo) × (lookup sender s'.users ≡ some new) × (locked_by asset new ≡ locked)
  pub other_users : (j : Addr) → (j == sender) ≡ false → lookup j s'.users ≡ lookup j s.users
  pub total :
      locked + locked_total asset s.state ≡ locked_by asset user + locked_total asset s'.state
  pub same_config : s'.config ≡ s.config

set_locked-IsLocked :
    (asset : PoolType) (user_locked total_locked : ℕ) (user : UserInfo) (sender : Addr) (s : Store)
    → user_locked + locked_total asset s.state ≡ locked_by asset user + total_locked
    → IsLocked asset sender user user_locked s
        (set_locked asset user_locked total_locked user sender s)
set_locked-IsLocked usdc user_locked total_locked user sender s moved =
    let new : UserInfo = record user { usdc_lp_locked = user_locked } in
    let stored : lookup sender (insert sender new s.users) ≡ some new =
      ground (arith, lookup-insert sender sender new s.users) in
    record {
      own_lock = (new, stored, refl);
      other_users = λ j differs. ground (arith, lookup-insert sender j new s.users);
      total = moved;
      same_config = refl;
    }
set_locked-IsLocked atom user_locked total_locked user sender s moved =
    let new : UserInfo = record user { atom_lp_locked = user_locked } in
    let stored : lookup sender (insert sender new s.users) ≡ some new =
      ground (arith, lookup-insert sender sender new s.users) in
    record {
      own_lock = (new, stored, refl);
      other_users = λ j differs. ground (arith, lookup-insert sender j new s.users);
      total = moved;
      same_config = refl;
    }

abbrev pub Locks :
    Cosmwasm → Env → MessageInfo → PoolType → ℕ → ℕ → Store → Store × List Msg → Type 0
Locks cw env info asset amount duration s r =
    (user : UserInfo) × (lp : UserLpInfo) × (lockdrop : Addr) × Guarded env info s (user, lockdrop)
    × (get_user_lp_info cw user s.state ≡ ok lp)
    × (locked_by asset user + amount ≤ lp_of asset lp)
    × IsLocked asset info.sender user (locked_by asset user + amount) s r.0
    × (r.1 ≡ increase_lockup_for lockdrop info.sender asset amount duration ∷ [])

-- A successful lock is of a known user, before the end of the window to lock LP tokens, while both
-- pool sizes are set and the lockdrop contract is known; it keeps the user's lock in the pool
-- within the user's LP tokens. The lock and its total grow by the amount, no other user and
-- nothing of the configuration changes, and the one message sent goes to the lockdrop contract of
-- the configuration and has it lock the same amount for the sender.
pub lock-Locks :
    (cw : Cosmwasm) (env : Env) (info : MessageInfo) (asset : PoolType) (amount duration : ℕ)
    (s : Store)
    → Ensures
        (Locks cw env info asset amount duration s)
        (execute_lock_lp_tokens cw env info asset amount duration s)
unfolding execute_lock_lp_tokens
lock-Locks cw env info asset amount duration s = Ensures-bind λ (user, lockdrop) guard.
    Ensures-bind λ lp e. Ensures-bind λ (user_locked, total_locked) m.
      let (within, total, sum) =
        lock_asset_moves asset lp user s.state amount user_locked total_locked m in
      let moves = set_locked-IsLocked asset user_locked total_locked user info.sender s total in
      Ensures-pure (
        user,
        lp,
        lockdrop,
        (lock_guard-Guarded env info s).holds (user, lockdrop) guard,
        e,
        rw sum at within,
        rw (sym sum) moves,
        refl,
      )
