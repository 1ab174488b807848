-- ===== src/Lockdrop/Limits/Withdraw.antt =====
-- `handle_withdraw_from_lockup`: what a withdrawal requires, what it leaves, and that there is one.
use native.Mathlib.Nat.{div-mul-le_self, mul-le-mul_right}
use neutron_tge_contracts.Prelude.{
  ℕ, ◌-◌, ◌*◌, ◌/◌, ◌≤◌, ◌<◌, ◌≡◌, ◌≢◌, refl, sym, true, false, some, List, arith, leb,
  if◌then◌else◌,
}
use neutron_tge_contracts.Prelude.Result.{
  ok, ◌>>=◌, ok_or-eq-ok, Ensures, Ensures-bind, Ensures-mono,
}
use neutron_tge_contracts.Cosmwasm.{Addr, Cosmwasm, IsExact, MessageInfo, Env, decimal_one}
use neutron_tge_contracts.Auction.Types.{PoolType}
use neutron_tge_contracts.Lockdrop.Types.{LockupInfoV2, v2, Store, Msg, std_error}
use neutron_tge_contracts.Lockdrop.Chain.{Chain, Astroport, IsAstroport}
use neutron_tge_contracts.Lockdrop.Storage.{pool_of, position, upgrade, compatible_load}
use neutron_tge_contracts.Lockdrop.Lockups.{handle_withdraw_from_lockup}
use neutron_tge_contracts.Lockdrop.Limits.{
  locked_at, HasWindows, max_percent_at, max_percent_at-half, max_percent_lem, max_withdrawal_floor,
  windows_end-eq,
}
use neutron_tge_contracts.Lockdrop.Limits.Stored.{
  flag_at, IsLessened, IsPermitted, take_from_lockup-IsLessened,
}

abbrev pub WithdrawsUnits :
    Cosmwasm
    → Chain
    → Astroport
    → Env
    → MessageInfo
    → ℕ
    → PoolType
    → ℕ
    → ℕ
    → Store
    → Store × List Msg
    → Type 0
WithdrawsUnits cw chain astroport env info user_address pool_type duration amount s r =
    (user : Addr) × (lockup : LockupInfoV2) × (cw.addr_validate user_address ≡ some user)
    × (compatible_load chain astroport (pool_of pool_type s) user duration s.config.generator
        ≡ ok lockup)
    × IsPermitted env info amount s.config lockup
    × IsLessened env.time pool_type user duration amount lockup s r

half_taken :
    (amount units percent : ℕ)
    → 0 < amount
    → percent ≤ 500000000000000000
    → amount ≤ units * percent / decimal_one
    → amount < units
half_taken amount units percent positive half within =
    omega (arith, div-mul-le_self (units * percent) decimal_one, mul-le-mul_right units half)

module _ (cw : Cosmwasm) (exact : IsExact cw) (astroport : Astroport)
    (is_astroport : IsAstroport astroport) where
  -- If the windows are in range, a successful withdrawal from a position is asked for by the
  -- auction before the end of the windows; it is the first since the end of the lock window, takes
  -- something, and takes at most the part of the position's units that the time allows. Nothing is
  -- sent; the amount of the pool shrinks by what is taken, a position that is not emptied keeps the
  -- rest, with the flag set once the lock window is over, and no other user's positions in the pool
  -- and nothing of the configuration changes.
  pub withdraw-WithdrawsUnits :
      (chain : Chain) (env : Env) (info : MessageInfo) (user_address : ℕ) (pool_type : PoolType)
      (duration amount : ℕ) (s : Store)
      → HasWindows s.config
      → Ensures
          (WithdrawsUnits cw chain astroport env info user_address pool_type duration amount s)
          (handle_withdraw_from_lockup cw chain astroport env info user_address pool_type duration
            amount s)
  unfolding handle_withdraw_from_lockup
  withdraw-WithdrawsUnits chain env info user_address pool_type duration amount s range =
      Ensures-bind λ _ by_auction. Ensures-bind λ closed c. Ensures-bind λ _ in_time.
        Ensures-bind λ _ positive. Ensures-bind λ pool_info e. Ensures-bind λ user valid.
          Ensures-bind λ lockup loaded. Ensures-bind λ _ first. Ensures-bind λ percent p.
            Ensures-bind λ max_allowed m. Ensures-bind λ _ within. Ensures-bind λ locked l.
              let same : percent ≡ max_percent_at env.time s.config =
                cc (p, max_percent_lem cw exact env.time s.config range) in
              let floor : max_allowed
                  ≡ lockup.lp_units_locked * max_percent_at env.time s.config / decimal_one =
                rw same at (
                  (max_withdrawal_floor cw exact astroport lockup.lp_units_locked percent
                      is_astroport).holds
                    max_allowed m) in
              let same_end : locked ≡ locked_at s.config = ground arith in
              let closing = windows_end-eq s.config closed c in
              let early : env.time < closed = ground arith in
              let fits : amount ≤ max_allowed = ground (arith, within) in
              let some_taken : 0 < amount = ground (arith, positive) in
              let is_sender : info.sender ≡ s.config.auction_contract =
                ground (arith, by_auction) in
              let is_first : lockup.withdrawal_flag ≡ false = ground (arith, first) in
              let flagged : (if leb locked env.time then true else lockup.withdrawal_flag)
                  ≡ flag_at env.time s.config lockup.withdrawal_flag =
                rw same_end refl in
              Ensures-mono
                (λ r lessened. (
                  user,
                  lockup,
                  ok_or-eq-ok std_error (cw.addr_validate user_address) valid,
                  loaded,
                  record {
                    by_auction = is_sender;
                    in_time = omega (arith, early, closing);
                    some_taken = some_taken;
                    is_first = is_first;
                    within = omega (arith, floor, fits);
                  },
                  lessened,
                ))
                (take_from_lockup-IsLessened cw chain astroport env.time pool_type user duration
                  amount pool_info lockup _ s e flagged)

  -- If the windows are in range and the lock window is over, a successful withdrawal from a
  -- position is the last one: whatever the other contracts answer, none succeeds on the storage
  -- that it leaves, for the same user, pool and duration.
  pub withdraw_units_once :
      (chain chain' : Chain) (env later : Env) (info again : MessageInfo) (user_address : ℕ)
      (pool_type : PoolType) (duration amount more : ℕ) (s : Store) (r r' : Store × List Msg)
      → HasWindows s.config
      → locked_at s.config ≤ env.time
      → handle_withdraw_from_lockup cw chain astroport env info user_address pool_type duration
          amount s
        ≡ ok r
      → handle_withdraw_from_lockup cw chain' astroport later again user_address pool_type duration
          more r.0
        ≢ ok r'
  unfolding compatible_load upgrade ◌>>=◌
  withdraw_units_once chain chain' env later info again user_address pool_type duration amount more
        s r r' range over h h' =
      let (user, lockup, valid, loaded, permitted, lessened) =
        (withdraw-WithdrawsUnits chain env info user_address pool_type duration amount s
            range).holds
          r h in
      let (user', lockup', valid', loaded', permitted', lessened') =
        (withdraw-WithdrawsUnits chain' later again user_address pool_type duration more r.0
            (rw lessened.same_config range)).holds
          r' h' in
      let same_user : user' ≡ user = cc in
      let half = max_percent_at-half env.time s.config over in
      let less : amount < lockup.lp_units_locked =
        half_taken amount lockup.lp_units_locked (max_percent_at env.time s.config)
          permitted.some_taken half permitted.within in
      let is_over : leb (locked_at s.config) env.time ≡ true = ground (arith, over) in
      let left : LockupInfoV2 = record lockup {
        lp_units_locked = lockup.lp_units_locked - amount;
        withdrawal_flag = true;
      } in
      let flagged : position user duration (pool_of pool_type r.0).lockups ≡ some (v2 left) =
        rw is_over at (lessened.rest less) in
      let found : ok left ≡ ok lockup' = rw (same_user, flagged) at loaded' in
      let same_flag : lockup'.withdrawal_flag ≡ true =
        let same : left ≡ lockup' = cc in rw (sym same) refl in
      let unflagged = permitted'.is_first in cc
