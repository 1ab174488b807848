-- ===== src/Auction/Migrate/Handover.antt =====
-- What the auction sends to the vesting contracts is what they accept.
use neutron_tge_contracts.Prelude.{
  ℕ, ◌+◌, ◌≤◌, ◌<◌, ◌≡◌, refl, true, false, ◌++◌, some, List, [], ◌∷◌, arith, ◌==◌, take, All,
  All-append, sum_of, sum_of-append,
}
use neutron_tge_contracts.Prelude.Map.{Map}
use neutron_tge_contracts.Prelude.Map.Order.{All-take}
use neutron_tge_contracts.Prelude.Result.{
  ok, ◌>>=◌, ok_or-eq-ok, add_u64, u128_max, Ensures, Ensures-bind, Ensures-if, Ensures-pure,
}
use neutron_tge_contracts.Cosmwasm.{Addr, Cosmwasm, MessageInfo, Env}
use neutron_tge_contracts.Vesting.Types as VestingTypes
use neutron_tge_contracts.Vesting.Types.{VestingAccount, token}
use neutron_tge_contracts.Vesting.Claim.{get_vesting_token, is_sender_whitelisted}
use neutron_tge_contracts.Vesting.Execute.{Cw20ReceiveMsg, Calls, receive_cw20}
use neutron_tge_contracts.Auction.Migrate.Batches.{accounts_of, handed_to, migrate_users_lem}
use neutron_tge_contracts.Vesting.Register.Totals.{account_grant}
use neutron_tge_contracts.Vesting.Register.Accept.{IsAcceptable, register_accepts}
use neutron_tge_contracts.Vesting.Invariant.{state_of}
use neutron_tge_contracts.Auction.Types.{
  PoolType, usdc, atom, PoolInfo, Config, State, UserInfo, Store, Msg, pool_info_not_set, panicked,
}
use neutron_tge_contracts.Auction.Migrate.{
  not_vested, linear_account, Batch, add_to_batch, Progress, migrate_user, migrate_users,
  send_batch, execute_migrate_to_vesting,
}
use neutron_tge_contracts.Auction.Totals.Migrate.{All-not_vested}

abbrev pub IsKnown : Cosmwasm → ℕ × UserInfo → Type 0
IsKnown cw e = cw.addr_validate e.0 ≡ some e.0

pub record IsBatch (cw : Cosmwasm) (batch : Batch) : Type 0 where
  pub total : batch.total ≡ sum_of account_grant batch.accounts
  pub accounts : All (IsAcceptable cw) batch.accounts

-- The vesting library, with the storage `s`, takes `accounts` from `sender` through the LP token,
-- and grants exactly their sum.
abbrev pub IsAccepted :
    Cosmwasm → Calls → Addr → Addr → List VestingAccount → VestingTypes.Store → Type 0
IsAccepted cw calls lp_token sender accounts s =
    let call : MessageInfo = record { sender = lp_token; funds = [] } in
    let msg : Cw20ReceiveMsg = record {
      sender = sender;
      amount = sum_of account_grant accounts;
      hook = some accounts;
    } in
    (r : VestingTypes.Store × List VestingTypes.Transfer) × (receive_cw20 cw calls call msg s
      ≡ ok r)
    × ((state_of r.0).total_granted ≡ (state_of s).total_granted + sum_of account_grant accounts)

module _ (cw : Cosmwasm) (now : ℕ) (config : Config) (state : State)
    (lasts : 0 < config.vesting_lp_duration) where
  linear_account-IsAcceptable :
      (addr end amount : ℕ)
      → cw.addr_validate addr ≡ some addr
      → (amount == 0) ≡ false
      → add_u64 panicked now config.vesting_lp_duration ≡ ok end
      → IsAcceptable cw (linear_account addr now end amount)
  linear_account-IsAcceptable addr end amount known positive e = record {
    known = known;
    valid = ((ground arith, ground arith), tt);
  }

  add_to_batch-IsBatch :
      (addr amount : ℕ) (batch : Batch)
      → cw.addr_validate addr ≡ some addr
      → IsBatch cw batch
      → Ensures (IsBatch cw) (add_to_batch now config.vesting_lp_duration addr amount batch)
  unfolding add_to_batch
  add_to_batch-IsBatch addr amount batch known h =
      Ensures-if (amount == 0) (λ _. Ensures-pure h)
        λ positive. Ensures-bind λ end e. Ensures-bind λ total e'.
          let account = linear_account addr now end amount in
          Ensures-pure (record {
            total =
                ground (arith, h.total, sum_of-append account_grant batch.accounts (account ∷ []));
            accounts =
                All-append (IsAcceptable cw) batch.accounts (account ∷ []) h.accounts
                  (linear_account-IsAcceptable addr end amount known positive e, tt);
          })

  abbrev BothBatches : Progress → Type 0
  BothBatches p = IsBatch cw p.atom_batch × IsBatch cw p.usdc_batch

  migrate_user-IsBatch :
      (addr : ℕ) (user : UserInfo) (p : Progress)
      → cw.addr_validate addr ≡ some addr
      → BothBatches p
      → Ensures BothBatches (migrate_user cw now config state addr user p)
  unfolding migrate_user
  migrate_user-IsBatch addr user p known h = Ensures-bind λ lp _. Ensures-bind λ vest_atom _.
      Ensures-bind λ vest_usdc _. Ensures-bind λ atom_batch e. Ensures-bind λ usdc_batch e'.
        Ensures-pure (
          (add_to_batch-IsBatch addr vest_atom p.atom_batch known h.0).holds atom_batch e,
          (add_to_batch-IsBatch addr vest_usdc p.usdc_batch known h.1).holds usdc_batch e',
        )

  migrate_users-IsBatch :
      (xs : Map UserInfo) (p : Progress)
      → All (IsKnown cw) xs
      → BothBatches p
      → Ensures BothBatches (migrate_users cw now config state xs p)
  unfolding migrate_users
  migrate_users-IsBatch [] p known h = Ensures-pure h
  migrate_users-IsBatch ((addr, user) ∷ xs) p known h = Ensures-bind λ p' e.
      migrate_users-IsBatch xs p' known.1 ((migrate_user-IsBatch addr user p known.0 h).holds p' e)

abbrev pub lp_token_of : PoolType → PoolInfo → ℕ
lp_token_of usdc pools = pools.ntrn_usdc_lp_token_address
lp_token_of atom pools = pools.ntrn_atom_lp_token_address

-- The accounts of one pool that a migration hands over: of the next pack of users.
abbrev pub handed_over : Cosmwasm → Env → PoolType → Store → List VestingAccount
handed_over cw env asset s =
    accounts_of cw env.time s.config s.state asset
      (take s.config.vesting_migration_pack_size (not_vested s.users))

-- The messages of a migration: what goes to the vesting contract of each pool.
abbrev pub messages_of : Cosmwasm → Env → PoolInfo → Store → List Msg
messages_of cw env pools s =
    handed_to pools.ntrn_atom_lp_token_address s.config.vesting_atom_contract_address
      (handed_over cw env atom s)
    ++ handed_to pools.ntrn_usdc_lp_token_address s.config.vesting_usdc_contract_address
        (handed_over cw env usdc s)

accepted :
    (cw : Cosmwasm) (calls : Calls) (lp_token sender : ℕ) (accounts : List VestingAccount)
    (s : VestingTypes.Store)
    → cw.addr_validate sender ≡ some sender
    → All (IsAcceptable cw) accounts
    → s.config.vesting_token ≡ some (token lp_token)
    → is_sender_whitelisted s sender ≡ true
    → (state_of s).total_granted + sum_of account_grant accounts ≤ u128_max
    → IsAccepted cw calls lp_token sender accounts s
unfolding receive_cw20 ◌>>=◌
accepted cw calls lp_token sender accounts s known acceptable stored listed fits =
    let (r, registers, grows) = register_accepts cw accounts s acceptable fits in
    let self : (lp_token == lp_token) ≡ true = ground arith in
    let token_is : get_vesting_token s.config ≡ ok (token lp_token) = rw stored refl in
    (r, rw (token_is, known, listed, self) registers, grows)

send_batch_lem :
    (cw : Cosmwasm) (lp_token vesting : ℕ) (batch : Batch) (accounts : List VestingAccount)
    → IsBatch cw batch
    → batch.accounts ≡ accounts
    → send_batch lp_token vesting batch ≡ handed_to lp_token vesting accounts
send_batch_lem cw lp_token vesting batch accounts h same = rw (h.total, same) refl

migrate-IsHandover :
    (cw : Cosmwasm) (env : Env) (s : Store) (pools : PoolInfo)
    → 0 < s.config.vesting_lp_duration
    → All (IsKnown cw) s.users
    → s.config.pool_info ≡ some pools
    → Ensures
        (λ r.
          (r.1 ≡ messages_of cw env pools s)
          × All (IsAcceptable cw) (handed_over cw env usdc s)
          × All (IsAcceptable cw) (handed_over cw env atom s))
        (execute_migrate_to_vesting cw env s)
unfolding execute_migrate_to_vesting
migrate-IsHandover cw env s pools lasts known set =
    let n = s.config.vesting_migration_pack_size in
    let xs = take n (not_vested s.users) in
    let xs_known =
      All-take (IsKnown cw) n (not_vested s.users) (All-not_vested (IsKnown cw) s.users known) in
    let start : Progress = record {
      atom_batch = record { accounts = []; total = 0 };
      usdc_batch = record { accounts = []; total = 0 };
      users = s.users;
    } in
    let loop =
      migrate_users-IsBatch cw env.time s.config s.state lasts xs start xs_known
        (record { total = refl; accounts = tt }, record { total = refl; accounts = tt }) in
    Ensures-bind λ stored found. Ensures-bind λ _ _. Ensures-bind λ _ _. Ensures-bind λ p e.
      let batches = loop.holds p e in
      let atom_is = (migrate_users_lem cw env.time s.config s.state xs start atom).holds p e in
      let usdc_is = (migrate_users_lem cw env.time s.config s.state xs start usdc).holds p e in
      let same : stored ≡ pools = cc (ok_or-eq-ok pool_info_not_set s.config.pool_info found) in
      Ensures-pure (
        rw
            (
              send_batch_lem cw stored.ntrn_atom_lp_token_address
                  s.config.vesting_atom_contract_address p.atom_batch (handed_over cw env atom s)
                  batches.0 atom_is,
              send_batch_lem cw stored.ntrn_usdc_lp_token_address
                  s.config.vesting_usdc_contract_address p.usdc_batch (handed_over cw env usdc s)
                  batches.1 usdc_is,
              same,
            )
            refl,
        rw usdc_is at (batches.1.accounts),
        rw atom_is at (batches.0.accounts),
      )

-- If vesting takes time and the users' and the contract's own addresses are valid, a successful
-- migration sends at most one message for each pool, with the pool's LP token to the pool's
-- vesting contract: the accounts are those of the next pack of users, with what each has not
-- locked of its LP tokens, vesting linearly from now on, and the amount is their sum. For either
-- pool, a vesting contract on any storage takes these accounts from the auction through
-- `receive_cw20` and grants exactly the amount, if its vesting token is the pool's LP token, the
-- auction is its owner or a manager and its total stays in range.
pub migrate-IsAccepted :
    (cw : Cosmwasm) (calls : Calls) (env : Env) (s : Store) (r : Store × List Msg)
    (pools : PoolInfo) (asset : PoolType) (receiver : VestingTypes.Store)
    → 0 < s.config.vesting_lp_duration
    → All (IsKnown cw) s.users
    → cw.addr_validate env.contract ≡ some env.contract
    → s.config.pool_info ≡ some pools
    → execute_migrate_to_vesting cw env s ≡ ok r
    → receiver.config.vesting_token ≡ some (token (lp_token_of asset pools))
    → is_sender_whitelisted receiver env.contract ≡ true
    → (state_of receiver).total_granted + sum_of account_grant (handed_over cw env asset s)
      ≤ u128_max
    → (r.1 ≡ messages_of cw env pools s)
      × IsAccepted cw calls
          (lp_token_of asset pools)
          env.contract
          (handed_over cw env asset s)
          receiver
migrate-IsAccepted cw calls env s r pools asset receiver lasts known own set h stored listed fits =
    let (messages, usdc_accounts, atom_accounts) =
      (migrate-IsHandover cw env s pools lasts known set).holds r h in
    (
      messages,
      accepted cw calls (lp_token_of asset pools) env.contract (handed_over cw env asset s) receiver
          own
          (elim asset as (λ a. All (IsAcceptable cw) (handed_over cw env a s)) [
            | usdc ↦ usdc_accounts
            | atom ↦ atom_accounts
          ])
          stored listed fits,
    )
