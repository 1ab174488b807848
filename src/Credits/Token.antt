-- ===== src/Credits/Token.antt =====
-- What the contract calls of `cw20_base`, and what that crate documents of it.
use neutron_tge_contracts.Prelude.{ℕ, ◌+◌, ◌≡◌, Option, some, ◌==◌, if◌then◌else◌, unwrap_or}
use neutron_tge_contracts.Cosmwasm.{Addr, MessageInfo}

-- `none` is an error of the crate.
pub record Cw20 (Token : Type 0) : Type 0 where
  -- `TOKEN_INFO` with no supply, and the minter
  pub create : Addr → Token
  pub total_supply : Token → ℕ
  -- `BALANCES`
  pub balance : Token → Addr → Option ℕ
  -- `query_balance`
  pub query_balance : Token → ℕ → Option ℕ
  pub execute_transfer : MessageInfo → ℕ → ℕ → Token → Option Token
  pub execute_burn : MessageInfo → ℕ → Token → Option Token
  pub execute_mint : MessageInfo → Addr → ℕ → Token → Option Token

pub record IsToken {Token : Type 0} (cw20 : Cw20 Token) : Type 0 where
  pub create_supply : (minter : Addr) → cw20.total_supply (cw20.create minter) ≡ 0
  pub transfer_supply :
      (info : MessageInfo) (recipient amount : ℕ) (t t' : Token)
      → cw20.execute_transfer info recipient amount t ≡ some t'
      → cw20.total_supply t' ≡ cw20.total_supply t
  pub burn_supply :
      (info : MessageInfo) (amount : ℕ) (t t' : Token)
      → cw20.execute_burn info amount t ≡ some t'
      → cw20.total_supply t' + amount ≡ cw20.total_supply t
  pub burn_balance :
      (info : MessageInfo) (amount : ℕ) (t t' : Token) (addr : Addr)
      → cw20.execute_burn info amount t ≡ some t'
      → unwrap_or 0 (cw20.balance t' addr) + (if addr == info.sender then amount else 0)
        ≡ unwrap_or 0 (cw20.balance t addr)
  pub mint_supply :
      (info : MessageInfo) (recipient amount : ℕ) (t t' : Token)
      → cw20.execute_mint info recipient amount t ≡ some t'
      → cw20.total_supply t' ≡ cw20.total_supply t + amount
