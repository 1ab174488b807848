-- ===== src/Airdrop/Types.antt =====
-- contracts/cw20-merkle-airdrop/src: state.rs, msg.rs and error.rs. The hashes and the hexadecimal
-- texts are those of other crates.
use neutron_tge_contracts.Prelude.{ℕ, Bool, Option, List}
use neutron_tge_contracts.Prelude.Map.{Map}
use neutron_tge_contracts.Prelude.Result.{Result}
use neutron_tge_contracts.Cosmwasm.{Addr, Denom}

pub record Config : Type 0 where
  pub owner : Addr
  pub credits_address : Addr
  pub reserve_address : Addr

-- A field for each item. `merkle_root` is a text; `claims` is `CLAIM`.
pub record Store : Type 0 where
  pub config : Config
  pub airdrop_start : ℕ
  pub vesting_start : ℕ
  pub vesting_duration : ℕ
  pub amount : ℕ
  pub amount_claimed : ℕ
  pub account_map : Map ℕ
  pub merkle_root : ℕ
  pub claims : Map Bool
  pub hrp : Option ℕ
  pub paused : Bool

-- `panicked` is a panic; `wrong_hex` is an error of the `hex` crate.
pub data AirdropError : Type 0 where
  std_error wrong_hex unauthorized claimed verification_failed vesting_before_airdrop : AirdropError
  panicked query_failed paused_error not_paused : AirdropError
  expired withdraw_all_unavailable not_begun : ℕ → AirdropError

pub record InstantiateMsg : Type 0 where
  pub credits_address : ℕ
  pub reserve_address : ℕ
  pub merkle_root : ℕ
  pub airdrop_start : ℕ
  pub vesting_start : ℕ
  pub vesting_duration_seconds : ℕ
  pub total_amount : Option ℕ
  pub hrp : Option ℕ

pub data ExecuteMsg : Type 0 where
  claim : ℕ → List ℕ → ExecuteMsg
  withdraw_all pause resume : ExecuteMsg
  update_reserve : ℕ → ExecuteMsg

-- The messages of a response: to the credits contract, `Transfer`, `AddVesting` and `Burn`; and a
-- bank transfer.
pub data Msg : Type 0 where
  transfer : Addr → Addr → ℕ → Msg
  add_vesting : Addr → Addr → ℕ → ℕ → ℕ → Msg
  burn : Addr → ℕ → Msg
  bank_send : Addr → Denom → ℕ → Msg

abbrev pub Outcome : Type 0
Outcome = Result AirdropError (Store × List Msg)

-- `Sha256::digest` of an address and an amount written one after the other, and of two digests one
-- after the other; `hex::decode_to_slice` of a text into 32 bytes. Bytes are the number that they
-- are in big-endian order.
pub record Hashing : Type 0 where
  pub digest_claim : Addr → ℕ → ℕ
  pub digest_pair : ℕ → ℕ → ℕ
  pub decode : ℕ → Option ℕ
