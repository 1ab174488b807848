-- ===== src/Credits/Handlers.antt =====
-- The handlers of contracts/credits/src/contract.rs.
use neutron_tge_contracts.Prelude.{ℕ, min, Option, none, some, List, [], ◌∷◌, ◌==◌, ltb}
use neutron_tge_contracts.Prelude.Map.{lookup, insert}
use neutron_tge_contracts.Prelude.Result.{
  Result, ok, err, ◌>>=◌, ◌>>◌, ensure, reject_if, ok_or, checked_add,
}
use neutron_tge_contracts.Cosmwasm.{Addr, Denom, Coin, Cosmwasm, MessageInfo, Env}
use neutron_tge_contracts.Credits.Types.{
  Allocation, CreditsError, UpdateConfigMsg, Store, Outcome, std_error, panicked, unauthorized,
  too_early_to_claim, no_funds_to_claim, incorrect_funds_supplied, no_funds_supplied,
  airdrop_not_configured, lockdrop_not_configured, when_withdrawable_is_not_configured,
  already_vested, cw20_error,
}
use neutron_tge_contracts.Credits.Token.{Cw20}
use neutron_tge_contracts.Credits.Schedules.{compute_withdrawable_amount}

-- The amount of the first coin, which must be untrn.
abbrev pub try_find_untrns : Denom → List Coin → Result CreditsError ℕ
try_find_untrns untrn [] = err no_funds_supplied
try_find_untrns untrn (coin ∷ rest) =
    ensure (coin.denom == untrn) incorrect_funds_supplied >> ok coin.amount

-- `ALLOCATIONS.update` with a vesting without a cliff.
abbrev pub new_allocation : Option Allocation → ℕ → ℕ → ℕ → ℕ → Result CreditsError Allocation
new_allocation none address amount start_time duration = ok (record {
  allocated_amount = amount;
  withdrawn_amount = 0;
  schedule = record { start_time = start_time; cliff = 0; duration = duration };
})
new_allocation (some old) address amount start_time duration = err (already_vested address)

-- `if let Some(a) = update { field = Some(addr_validate(a)?) }`
abbrev pub update_address : Cosmwasm → Option ℕ → Option Addr → Result CreditsError (Option Addr)
update_address cw none old = ok old
update_address cw (some a) old = do addr ← ok_or std_error (cw.addr_validate a); ok (some addr)

abbrev pub update_time : Option ℕ → Option ℕ → Option ℕ
update_time none old = old
update_time (some time) old = some time

module _ {Token : Type 0} (cw : Cosmwasm) (cw20 : Cw20 Token) (untrn : Denom) where
  unfoldable pub instantiate : ℕ → Result CreditsError (Store Token)
  instantiate dao = do
    dao_address ← ok_or std_error (cw.addr_validate dao)
    ok (record {
      config = record {
        dao_address = dao_address;
        airdrop_address = none;
        lockdrop_address = none;
        when_withdrawable = none;
      };
      allocations = [];
      token = cw20.create dao_address;
    })

  unfoldable pub burn_and_send : MessageInfo → ℕ → Store Token → Outcome Token
  burn_and_send info amount s = do
    token ← ok_or cw20_error (cw20.execute_burn info amount s.token)
    ok (record s { token = token }, record { recipient = info.sender; amount = amount } ∷ [])

  unfoldable pub execute_update_config : MessageInfo → UpdateConfigMsg → Store Token → Outcome Token
  execute_update_config info msg s = do
    ensure (info.sender == s.config.dao_address) unauthorized
    airdrop ← update_address cw msg.airdrop_address s.config.airdrop_address
    lockdrop ← update_address cw msg.lockdrop_address s.config.lockdrop_address
    ok (
      record s {
        config = record (s.config) {
          airdrop_address = airdrop;
          lockdrop_address = lockdrop;
          when_withdrawable = update_time msg.when_withdrawable s.config.when_withdrawable;
        };
      },
      [],
    )

  unfoldable pub execute_add_vesting : MessageInfo → ℕ → ℕ → ℕ → ℕ → Store Token → Outcome Token
  execute_add_vesting info address amount start_time duration s = do
    airdrop ← ok_or airdrop_not_configured s.config.airdrop_address
    ensure (info.sender == airdrop) unauthorized
    balance ← ok_or std_error (cw20.query_balance s.token address)
    reject_if (ltb balance amount) no_funds_supplied
    vested_to ← ok_or std_error (cw.addr_validate address)
    allocation ← new_allocation (lookup vested_to s.allocations) address amount start_time duration
    ok (record s { allocations = insert vested_to allocation s.allocations }, [])

  unfoldable pub execute_transfer : MessageInfo → ℕ → ℕ → Store Token → Outcome Token
  execute_transfer info recipient amount s = do
    airdrop ← ok_or airdrop_not_configured s.config.airdrop_address
    ensure (info.sender == airdrop) unauthorized
    token ← ok_or cw20_error (cw20.execute_transfer info recipient amount s.token)
    ok (record s { token = token }, [])

  unfoldable pub execute_withdraw : Env → MessageInfo → Store Token → Outcome Token
  execute_withdraw env info s = do
    when_withdrawable ← ok_or when_withdrawable_is_not_configured s.config.when_withdrawable
    reject_if (ltb env.time when_withdrawable) too_early_to_claim
    allocation ← ok_or std_error (lookup info.sender s.allocations)
    max_amount ←
        compute_withdrawable_amount cw allocation.allocated_amount allocation.withdrawn_amount
          allocation.schedule env.time
    reject_if (max_amount == 0) no_funds_to_claim
    actual_balance ← ok_or std_error (cw20.balance s.token info.sender)
    let to_withdraw = min max_amount actual_balance
    reject_if (to_withdraw == 0) no_funds_to_claim
    withdrawn ← checked_add panicked allocation.withdrawn_amount to_withdraw
    burn_and_send info to_withdraw (record s {
      allocations =
          insert info.sender (record allocation { withdrawn_amount = withdrawn }) s.allocations;
    })

  unfoldable pub execute_burn : MessageInfo → ℕ → Store Token → Outcome Token
  execute_burn info amount s = do
    airdrop ← ok_or airdrop_not_configured s.config.airdrop_address
    ensure (info.sender == airdrop) unauthorized
    burn_and_send info amount s

  unfoldable pub execute_burn_from : MessageInfo → ℕ → ℕ → Store Token → Outcome Token
  execute_burn_from info owner amount s = do
    lockdrop ← ok_or lockdrop_not_configured s.config.lockdrop_address
    ensure (info.sender == lockdrop) unauthorized
    sender ← ok_or std_error (cw.addr_validate owner)
    burn_and_send (record info { sender = sender }) amount s

  unfoldable pub execute_mint : MessageInfo → Store Token → Outcome Token
  execute_mint info s = do
    untrn_amount ← try_find_untrns untrn info.funds
    recipient ← ok_or airdrop_not_configured s.config.airdrop_address
    token ← ok_or cw20_error (cw20.execute_mint info recipient untrn_amount s.token)
    ok (record s { token = token }, [])
