-- ===== src/Auction/Deposit.antt =====
-- `execute_deposit` and `execute_withdraw` of contracts/auction/src/contract.rs.
pub mod Limits
use neutron_tge_contracts.Prelude.{
  ℕ, ◌-◌, Bool, true, false, not, ◌&&◌, ◌||◌, Option, none, some, List, [], ◌∷◌, ◌++◌, ltb, leb,
  ◌==◌, if◌then◌else◌, unwrap_or,
}
use neutron_tge_contracts.Prelude.Map.{lookup, insert}
use neutron_tge_contracts.Prelude.Result.{
  Result, ok, err, ◌>>=◌, ◌>>◌, ensure, reject_if, ok_or, checked_add, checked_sub, add_u64,
}
use neutron_tge_contracts.Cosmwasm.{Denom, Coin, Cosmwasm, MessageInfo, Env}
use neutron_tge_contracts.Auction.Types.{
  Config, State, UserInfo, AuctionError, Msg, bank_send, Store, Outcome, usdc_denom_not_set,
  atom_denom_not_set, deposit_window_closed, invalid_denom, no_coins, user_not_found,
  already_withdrawn, exceeds_limit, nothing_withdrawn, panicked,
}
use neutron_tge_contracts.Auction.Windows.{is_deposit_open, allowed_withdrawal_percent}

-- The denominations of USDC and ATOM.
unfoldable pub get_denoms : Config → Result AuctionError (Denom × Denom)
get_denoms config = do
  usdc_denom ← ok_or usdc_denom_not_set config.usdc_denom
  atom_denom ← ok_or atom_denom_not_set config.atom_denom
  ok (usdc_denom, atom_denom)

-- The loop over the coins; a later coin of a denomination replaces an earlier one.
unfoldable pub read_funds : Denom → Denom → List Coin → ℕ → ℕ → Result AuctionError (ℕ × ℕ)
read_funds usdc_denom atom_denom [] usdc atom = ok (usdc, atom)
read_funds usdc_denom atom_denom (fund ∷ rest) usdc atom =
    let as_usdc = read_funds usdc_denom atom_denom rest fund.amount atom in
    let as_atom = read_funds usdc_denom atom_denom rest usdc fund.amount in
    if fund.denom == usdc_denom
    then as_usdc
    else if fund.denom == atom_denom
    then as_atom
    else err invalid_denom

-- `UserInfo::default()`
abbrev pub no_user : UserInfo
no_user = record {
  usdc_deposited = 0;
  atom_deposited = 0;
  withdrawn = false;
  usdc_lp_locked = 0;
  atom_lp_locked = 0;
  is_vested = false;
}

unfoldable pub execute_deposit : Env → MessageInfo → Store → Outcome
execute_deposit env info s = do
  (usdc_denom, atom_denom) ← get_denoms s.config
  is_open ← is_deposit_open env.time s.config
  ensure is_open deposit_window_closed
  (usdc, atom) ← read_funds usdc_denom atom_denom info.funds 0 0
  reject_if (usdc == 0 && atom == 0) no_coins
  let user = unwrap_or no_user (lookup info.sender s.users)
  total_usdc ← checked_add panicked s.state.total_usdc_deposited usdc
  total_atom ← checked_add panicked s.state.total_atom_deposited atom
  user_usdc ← checked_add panicked user.usdc_deposited usdc
  user_atom ← checked_add panicked user.atom_deposited atom
  ok (
    record s {
      state = record (s.state) {
        total_usdc_deposited = total_usdc;
        total_atom_deposited = total_atom;
      };
      users =
          insert info.sender
            (record user { usdc_deposited = user_usdc; atom_deposited = user_atom }) s.users;
    },
    [],
  )

-- A transfer to the user, if there is something to transfer.
abbrev pub send_if : MessageInfo → Denom → ℕ → List Msg
send_if info denom amount = if ltb 0 amount then bank_send info.sender denom amount ∷ [] else []

-- The state after a withdrawal; `withdrawn` is set once the deposit window is over.
unfoldable pub take_out : Env → MessageInfo → Denom → Denom → ℕ → ℕ → UserInfo → Store → Outcome
take_out env info usdc_denom atom_denom usdc atom user s = do
  deposit_end ← add_u64 panicked s.config.init_timestamp s.config.deposit_window
  total_usdc ← checked_sub panicked s.state.total_usdc_deposited usdc
  total_atom ← checked_sub panicked s.state.total_atom_deposited atom
  user_usdc ← checked_sub panicked user.usdc_deposited usdc
  user_atom ← checked_sub panicked user.atom_deposited atom
  ok (
    record s {
      state = record (s.state) {
        total_usdc_deposited = total_usdc;
        total_atom_deposited = total_atom;
      };
      users =
          insert info.sender
            (record user {
              usdc_deposited = user_usdc;
              atom_deposited = user_atom;
              withdrawn = if leb deposit_end env.time then true else user.withdrawn;
            })
            s.users;
    },
    send_if info usdc_denom usdc ++ send_if info atom_denom atom,
  )

module _ (cw : Cosmwasm) where
  unfoldable pub execute_withdraw : Env → MessageInfo → ℕ → ℕ → Store → Outcome
  execute_withdraw env info amount_usdc amount_atom s = do
    (usdc_denom, atom_denom) ← get_denoms s.config
    user ← ok_or user_not_found (lookup info.sender s.users)
    reject_if user.withdrawn already_withdrawn
    percent ← allowed_withdrawal_percent cw env.time s.config
    max_usdc ← ok_or panicked (cw.mul_decimal user.usdc_deposited percent)
    max_atom ← ok_or panicked (cw.mul_decimal user.atom_deposited percent)
    reject_if (ltb max_usdc amount_usdc || ltb max_atom amount_atom) exceeds_limit
    reject_if (amount_usdc == 0 && amount_atom == 0) nothing_withdrawn
    take_out env info usdc_denom atom_denom amount_usdc amount_atom user s
