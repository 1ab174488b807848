-- ===== src/Lockdrop/Chain.antt =====
-- What the lockdrop calls of other contracts and of the astroport package.
use neutron_tge_contracts.Prelude.{ℕ, ◌*◌, ◌≤◌, ◌≡◌, Option, some, List}
use neutron_tge_contracts.Prelude.Result.{u128_max}
use neutron_tge_contracts.Cosmwasm.{Addr, Denom, MessageInfo, Env, decimal_one}
use neutron_tge_contracts.Vesting.Types.{AssetInfo, OwnershipProposal}
use neutron_tge_contracts.Lockdrop.Types.{Asset, AssetAmounts}

-- `PendingTokenResponse`
pub record PendingTokens : Type 0 where
  pub pending : ℕ
  pub pending_on_proxy : Option (List Asset)

-- The answers during a call, about the contract itself where a query names an account; `none` is a
-- query that fails.
pub record Chain : Type 0 where
  -- queries of the generator for an LP token: `PendingToken`, the `base_reward_token` of
  -- `RewardInfo`, `Deposit`, and the proxies of `PoolInfo`
  pub pending_tokens : Addr → Addr → Option PendingTokens
  pub base_reward_token : Addr → Addr → Option Denom
  pub generator_deposit : Addr → Addr → Option ℕ
  pub proxies : Addr → Addr → Option (List Addr)
  -- raw queries of the generator and of a token
  pub raw_proxy_asset : Addr → Addr → Option AssetInfo
  pub raw_generator_deposit : Addr → Addr → Option ℕ
  pub raw_balance : Addr → Option ℕ
  -- `Balance` of a token, for an account
  pub token_balance : Addr → Addr → Option ℕ
  pub bank_balance : Denom → Option ℕ
  -- `AssetInfo::query_pool`
  pub asset_balance : AssetInfo → Option ℕ
  -- `WithdrawableAmount` and `VestedAmount` of the credits contract
  pub withdrawable_amount : Addr → Addr → Option ℕ
  pub vested_amount : Addr → Addr → Option ℕ
  -- `Minter` of an LP token, and the assets of `Pool`
  pub minter : Addr → Option Addr
  pub pool_assets : Addr → Option (List Asset)

-- The operations of the astroport package: `RestrictedVector::update` (the new vector and value)
-- and `load`, `IntegerToDecimal::to_decimal` and `DecimalCheckedOps::checked_mul_uint128`.
pub record Astroport : Type 0 where
  pub update : AssetInfo → ℕ → AssetAmounts → Option (AssetAmounts × ℕ)
  pub load : AssetInfo → AssetAmounts → Option ℕ
  pub to_decimal : ℕ → Option ℕ
  pub checked_mul_uint128 : ℕ → ℕ → Option ℕ

pub record IsAstroport (astroport : Astroport) : Type 0 where
  pub to_decimal_exact : (a r : ℕ) → astroport.to_decimal a ≡ some r → r ≡ a * decimal_one
  pub to_decimal_total :
      (a : ℕ) → a * decimal_one ≤ u128_max → astroport.to_decimal a ≡ some (a * decimal_one)

-- The ownership proposals of the astroport package: `none` is an error, otherwise the proposal that
-- is saved, that it is removed, and the new owner.
pub record Ownership : Type 0 where
  pub propose_new_owner : MessageInfo → Env → ℕ → ℕ → Addr → Option OwnershipProposal
  pub drop_ownership_proposal : MessageInfo → Addr → Option (Unit {0})
  pub claim_ownership : MessageInfo → Env → Option OwnershipProposal → Option Addr
