-- ===== src/Auction/Migrate/Batches.antt =====
-- Which accounts a migration hands over, and where: an independent list of them.
use neutron_tge_contracts.Prelude.{
  ℕ, ◌+◌, ◌-◌, ◌≡◌, refl, sym, ap, ◌∙◌, List, [], ◌∷◌, ◌++◌, arith, ◌==◌, if◌then◌else◌, sum_of,
  append-nil, append_assoc,
}
use neutron_tge_contracts.Prelude.Map.{Map}
use neutron_tge_contracts.Prelude.Result.{
  Result, ok, err, Ensures, Ensures-bind, Ensures-if, Ensures-pure, Ensures-mono,
}
use neutron_tge_contracts.Cosmwasm.{Addr, Cosmwasm}
use neutron_tge_contracts.Vesting.Types.{VestingAccount}
use neutron_tge_contracts.Vesting.Register.Totals.{account_grant}
use neutron_tge_contracts.Auction.Types.{
  PoolType, usdc, atom, Config, State, UserInfo, UserLpInfo, AuctionError, Msg, send_to_vesting,
}
use neutron_tge_contracts.Auction.Lock.{get_user_lp_info}
use neutron_tge_contracts.Auction.Locks.{lp_of, locked_by}
use neutron_tge_contracts.Auction.Migrate.{
  linear_account, Batch, add_to_batch, Progress, migrate_user, migrate_users,
}

-- The tokens of a user in a pool that are not locked.
abbrev pub free_of : PoolType → UserInfo → Result AuctionError UserLpInfo → ℕ
free_of asset user (ok lp) = lp_of asset lp - locked_by asset user
free_of asset user (err e) = 0

abbrev pub batch_of : PoolType → Progress → Batch
batch_of usdc p = p.usdc_batch
batch_of atom p = p.atom_batch

abbrev pub account_of : ℕ → ℕ → Addr → ℕ → List VestingAccount
account_of now duration addr amount =
    if amount == 0 then [] else linear_account addr now (now + duration) amount ∷ []

-- The accounts of the users in a pool: what is not locked vests from now on.
abbrev pub accounts_of :
    Cosmwasm → ℕ → Config → State → PoolType → Map UserInfo → List VestingAccount
accounts_of cw now config state asset [] = []
accounts_of cw now config state asset ((addr, user) ∷ xs) =
    account_of now config.vesting_lp_duration addr
      (free_of asset user (get_user_lp_info cw user state))
    ++ accounts_of cw now config state asset xs

-- One transfer of the sum of the accounts, if there is anything to transfer.
abbrev pub handed_to : ℕ → Addr → List VestingAccount → List Msg
handed_to lp_token vesting accounts =
    if sum_of account_grant accounts == 0
    then []
    else send_to_vesting lp_token vesting (sum_of account_grant accounts) accounts ∷ []

add_to_batch_lem :
    (now duration addr amount : ℕ) (batch : Batch)
    → Ensures
        (λ b. b.accounts ≡ batch.accounts ++ account_of now duration addr amount)
        (add_to_batch now duration addr amount batch)
unfolding add_to_batch
add_to_batch_lem now duration addr amount batch =
    Ensures-if (amount == 0) (λ empty. Ensures-pure (rw empty (sym (append-nil batch.accounts))))
      λ positive. Ensures-bind λ end e. Ensures-bind λ total _.
        let end_is : end ≡ now + duration = ground (arith, e) in
        Ensures-pure (rw (positive, end_is) refl)

module _ (cw : Cosmwasm) (now : ℕ) (config : Config) (state : State) where
  pub migrate_user_lem :
      (addr : ℕ) (user : UserInfo) (p : Progress) (asset : PoolType)
      → Ensures
          (λ p'.
            (batch_of asset p').accounts
            ≡ (batch_of asset p).accounts
              ++ account_of now config.vesting_lp_duration addr
                  (free_of asset user (get_user_lp_info cw user state)))
          (migrate_user cw now config state addr user p)
  unfolding migrate_user
  migrate_user_lem addr user p usdc = Ensures-bind λ lp e. Ensures-bind λ vest_atom _.
      Ensures-bind λ vest_usdc u. Ensures-bind λ atom_batch _. Ensures-bind λ usdc_batch b.
        let rest : vest_usdc ≡ lp.usdc_lp_amount - user.usdc_lp_locked = ground (arith, u) in
        Ensures-pure (
          rw (e, sym rest)
            ((add_to_batch_lem now config.vesting_lp_duration addr vest_usdc p.usdc_batch).holds
              usdc_batch b))
  migrate_user_lem addr user p atom = Ensures-bind λ lp e. Ensures-bind λ vest_atom a.
      Ensures-bind λ vest_usdc _. Ensures-bind λ atom_batch b. Ensures-bind λ usdc_batch _.
        let rest : vest_atom ≡ lp.atom_lp_amount - user.atom_lp_locked = ground (arith, a) in
        Ensures-pure (
          rw (e, sym rest)
            ((add_to_batch_lem now config.vesting_lp_duration addr vest_atom p.atom_batch).holds
              atom_batch b))

  pub migrate_users_lem :
      (xs : Map UserInfo) (p : Progress) (asset : PoolType)
      → Ensures
          (λ p'.
            (batch_of asset p').accounts
            ≡ (batch_of asset p).accounts ++ accounts_of cw now config state asset xs)
          (migrate_users cw now config state xs p)
  unfolding migrate_users
  migrate_users_lem [] p asset = Ensures-pure (sym (append-nil (batch_of asset p).accounts))
  migrate_users_lem ((addr, user) ∷ xs) p asset = Ensures-bind λ p' e.
      let own =
        account_of now config.vesting_lp_duration addr
          (free_of asset user (get_user_lp_info cw user state)) in
      Ensures-mono
        (λ p'' rest.
          let step = (migrate_user_lem addr user p asset).holds p' e in
          rest
          ∙ ap (λ done. done ++ accounts_of cw now config state asset xs) step
          ∙ append_assoc (batch_of asset p).accounts own (accounts_of cw now config state asset xs))
        (migrate_users_lem xs p' asset)
