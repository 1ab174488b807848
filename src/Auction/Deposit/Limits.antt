-- ===== src/Auction/Deposit/Limits.antt =====
-- What a withdrawal may take, and when there is none.
use neutron_tge_contracts.Prelude.{
  ℕ, ◌+◌, ◌-◌, ◌*◌, ◌/◌, ◌≤◌, ◌<◌, ◌≡◌, ◌≢◌, refl, sym, true, false, some, List, ◌++◌, arith, leb,
  ◌==◌, if◌then◌else◌,
}
use neutron_tge_contracts.Prelude.Map.{lookup, lookup-insert}
use neutron_tge_contracts.Prelude.Result.{
  ok, err, ◌>>=◌, ok_or-eq-ok, Ensures, Ensures-bind, Ensures-mono, Ensures-pure,
}
use neutron_tge_contracts.Cosmwasm.{Denom, Cosmwasm, IsExact, MessageInfo, Env, decimal_one}
use neutron_tge_contracts.Auction.Types.{
  Config, UserInfo, Msg, Store, user_not_found, already_withdrawn, panicked,
}
use neutron_tge_contracts.Auction.Windows.Percent.{
  deposit_end, windows_end, HasRange, percent_at, allowed_withdrawal_percent_lem,
}
use neutron_tge_contracts.Auction.Deposit.{get_denoms, send_if, take_out, execute_withdraw}

-- The storage and the messages after `usdc` and `atom` are taken out of the deposits of `user`.
pub record IsTaken (env : Env) (info : MessageInfo) (usdc_denom atom_denom : Denom) (usdc atom : ℕ)
    (user : UserInfo) (s : Store) (r : Store × List Msg) : Type 0 where
  pub own_deposits :
      lookup info.sender r.0.users
      ≡ some (record user {
        usdc_deposited = user.usdc_deposited - usdc;
        atom_deposited = user.atom_deposited - atom;
        withdrawn = if leb (deposit_end s.config) env.time then true else user.withdrawn;
      })
  pub other_users : (j : ℕ) → (j == info.sender) ≡ false → lookup j r.0.users ≡ lookup j s.users
  pub usdc_total : r.0.state.total_usdc_deposited + usdc ≡ s.state.total_usdc_deposited
  pub atom_total : r.0.state.total_atom_deposited + atom ≡ s.state.total_atom_deposited
  pub messages : r.1 ≡ send_if info usdc_denom usdc ++ send_if info atom_denom atom
  pub same_config : r.0.config ≡ s.config

take_out-IsTaken :
    (env : Env) (info : MessageInfo) (usdc_denom atom_denom : Denom) (usdc atom : ℕ)
    (user : UserInfo) (s : Store)
    → Ensures
        (IsTaken env info usdc_denom atom_denom usdc atom user s)
        (take_out env info usdc_denom atom_denom usdc atom user s)
unfolding take_out
take_out-IsTaken env info usdc_denom atom_denom usdc atom user s = Ensures-bind λ window_end w.
    Ensures-bind λ total_usdc e. Ensures-bind λ total_atom e'. Ensures-bind λ user_usdc u.
      Ensures-bind λ user_atom u'.
        let user' : UserInfo = record user {
          usdc_deposited = user_usdc;
          atom_deposited = user_atom;
          withdrawn = if leb window_end env.time then true else user.withdrawn;
        } in
        let same_end : window_end ≡ deposit_end s.config = ground arith in
        let usdc_left : user_usdc ≡ user.usdc_deposited - usdc = ground arith in
        let atom_left : user_atom ≡ user.atom_deposited - atom = ground arith in
        Ensures-pure (record {
          own_deposits =
              rw (sym same_end, sym usdc_left, sym atom_left)
                (ground (arith, lookup-insert info.sender info.sender user' s.users));
          other_users = λ j differs. ground (arith, lookup-insert info.sender j user' s.users);
          usdc_total = ground arith;
          atom_total = ground arith;
          messages = refl;
          same_config = refl;
        })

-- A withdrawal of what the time allows, by a user who has a deposit and has not used the last
-- chance.
pub record IsAllowed (now usdc atom : ℕ) (config : Config) (user : UserInfo) : Type 0 where
  pub is_first : user.withdrawn ≡ false
  pub some_taken : 0 < usdc + atom
  pub within_usdc : usdc ≤ user.usdc_deposited * percent_at now config / decimal_one
  pub within_atom : atom ≤ user.atom_deposited * percent_at now config / decimal_one

abbrev pub Withdraws : Env → MessageInfo → ℕ → ℕ → Store → Store × List Msg → Type 0
Withdraws env info usdc atom s r =
    (usdc_denom : Denom) × (atom_denom : Denom) × (user : UserInfo) × (s.config.usdc_denom
      ≡ some usdc_denom)
    × (s.config.atom_denom ≡ some atom_denom)
    × (lookup info.sender s.users ≡ some user)
    × IsAllowed env.time usdc atom s.config user
    × IsTaken env info usdc_denom atom_denom usdc atom user s r

get_denoms_lem :
    (config : Config) (usdc_denom atom_denom : Denom)
    → get_denoms config ≡ ok (usdc_denom, atom_denom)
    → (config.usdc_denom ≡ some usdc_denom) × (config.atom_denom ≡ some atom_denom)
unfolding get_denoms ◌>>=◌
get_denoms_lem config usdc_denom atom_denom h = (ground arith, ground arith)

module _ (cw : Cosmwasm) (exact : IsExact cw) where
  -- If the windows are in range, a successful withdrawal is the first since the end of the deposit
  -- window, takes something, and takes of each token at most the part of the user's deposit that
  -- the time allows. The user's deposits and the totals shrink by what is taken, and it is sent to
  -- the user in the token's denomination; the flag is set if the deposit window is over; no other
  -- user and nothing of the configuration changes.
  pub withdraw-Withdraws :
      (env : Env) (info : MessageInfo) (amount_usdc amount_atom : ℕ) (s : Store)
      → HasRange s.config
      → Ensures
          (Withdraws env info amount_usdc amount_atom s)
          (execute_withdraw cw env info amount_usdc amount_atom s)
  unfolding execute_withdraw
  withdraw-Withdraws env info amount_usdc amount_atom s range =
      Ensures-bind λ (usdc_denom, atom_denom) set. Ensures-bind λ user found.
        Ensures-bind λ _ first. Ensures-bind λ percent p. Ensures-bind λ max_usdc m.
          Ensures-bind λ max_atom m'. Ensures-bind λ _ within. Ensures-bind λ _ positive.
            let denoms = get_denoms_lem s.config usdc_denom atom_denom set in
            let same : percent ≡ percent_at env.time s.config =
              cc (p, allowed_withdrawal_percent_lem cw exact env.time s.config range) in
            let floor_usdc : max_usdc
                ≡ user.usdc_deposited * percent_at env.time s.config / decimal_one =
              rw same at (
                exact.mul_decimal_floor user.usdc_deposited percent max_usdc
                  (ok_or-eq-ok panicked (cw.mul_decimal user.usdc_deposited percent) m)) in
            let floor_atom : max_atom
                ≡ user.atom_deposited * percent_at env.time s.config / decimal_one =
              rw same at (
                exact.mul_decimal_floor user.atom_deposited percent max_atom
                  (ok_or-eq-ok panicked (cw.mul_decimal user.atom_deposited percent) m')) in
            let fits : (amount_usdc ≤ max_usdc) × (amount_atom ≤ max_atom) =
              (ground (arith, within), ground (arith, within)) in
            Ensures-mono
              (λ r taken. (
                usdc_denom,
                atom_denom,
                user,
                denoms.0,
                denoms.1,
                ok_or-eq-ok user_not_found (lookup info.sender s.users) found,
                record {
                  is_first = ground (arith, first);
                  some_taken = ground (arith, positive);
                  within_usdc = omega (arith, floor_usdc, fits.0);
                  within_atom = omega (arith, floor_atom, fits.1);
                },
                taken,
              ))
              (take_out-IsTaken env info usdc_denom atom_denom amount_usdc amount_atom user s)

  -- Once the deposit window is over, a successful withdrawal is the user's last one: each later
  -- one on the storage that it leaves is refused as already withdrawn.
  pub withdraw_once :
      (env later : Env) (info again : MessageInfo) (amount_usdc amount_atom more_usdc more_atom : ℕ)
      (s : Store) (r : Store × List Msg)
      → HasRange s.config
      → deposit_end s.config ≤ env.time
      → again.sender ≡ info.sender
      → execute_withdraw cw env info amount_usdc amount_atom s ≡ ok r
      → execute_withdraw cw later again more_usdc more_atom r.0 ≡ err already_withdrawn
  unfolding execute_withdraw get_denoms ◌>>=◌
  withdraw_once env later info again amount_usdc amount_atom more_usdc more_atom s r range over same
        h =
      let (usdc_denom, atom_denom, user, set_usdc, set_atom, found, allowed, taken) =
        (withdraw-Withdraws env info amount_usdc amount_atom s range).holds r h in
      let is_over : leb (deposit_end s.config) env.time ≡ true = ground (arith, over) in
      rw (taken.same_config, set_usdc, set_atom, same, taken.own_deposits, is_over) refl

  -- If the withdrawal window is not empty, then at the end of the windows and after it, no withdrawal succeeds.
  pub withdraw_closed :
      (env : Env) (info : MessageInfo) (amount_usdc amount_atom : ℕ) (s : Store)
      (r : Store × List Msg)
      → HasRange s.config
      → 0 < s.config.withdrawal_window
      → windows_end s.config ≤ env.time
      → execute_withdraw cw env info amount_usdc amount_atom s ≢ ok r
  unfolding percent_at
  withdraw_closed env info amount_usdc amount_atom s r range some_window over h =
      let (usdc_denom, atom_denom, user, set_usdc, set_atom, found, allowed, taken) =
        (withdraw-Withdraws env info amount_usdc amount_atom s range).holds r h in
      let nothing : percent_at env.time s.config ≡ 0 = ground (arith, some_window, over) in
      omega (
        arith,
        allowed.some_taken,
        rw nothing at allowed.within_usdc,
        rw nothing at allowed.within_atom,
      )
