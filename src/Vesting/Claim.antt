-- ===== src/Vesting/Claim.antt =====
-- `claim`, `set_vesting_token`, `get_vesting_token` and `is_sender_whitelisted` of
-- packages/vesting-base/src/handlers.rs.
pub mod Payout
use neutron_tge_contracts.Prelude.{
  ℕ, Bool, true, not, ◌&&◌, Option, none, some, [], ◌∷◌, ◌==◌, ltb, unwrap_or, is_some,
  if◌then◌else◌,
}
use neutron_tge_contracts.Prelude.Map.{lookup, insert}
use neutron_tge_contracts.Prelude.Result.{Result, ok, ◌>>=◌, ◌>>◌, reject_if, ok_or, checked_add}
use neutron_tge_contracts.Cosmwasm.{Addr, Cosmwasm, MessageInfo, Env}
use neutron_tge_contracts.Vesting.Types.{
  AssetInfo, Config, VestingInfo, ContractError, std_error, overflow, unauthorized,
  amount_is_not_available, vesting_token_is_not_set, vesting_token_already_set, Store, Transfer,
  Outcome,
}
use neutron_tge_contracts.Vesting.Amounts.{compute_available_amount}

abbrev pub get_vesting_token : Config → Result ContractError AssetInfo
get_vesting_token config = ok_or vesting_token_is_not_set config.vesting_token

abbrev pub is_sender_whitelisted : Store → Addr → Bool
is_sender_whitelisted s sender =
    if sender == s.config.owner then true else is_some (lookup sender s.vesting_managers)

-- `if a > available_amount { return Err }`
abbrev pub choose_amount : Option ℕ → ℕ → Result ContractError ℕ
choose_amount none available = ok available
choose_amount (some a) available = do reject_if (ltb available a) amount_is_not_available; ok a

-- The payout of `amount`, which is not 0.
unfoldable pub pay_claim : Addr → ℕ → VestingInfo → Transfer → Store → Outcome
pay_claim sender amount info transfer s = do
  released ← checked_add overflow info.released_amount amount
  state ← ok_or amount_is_not_available s.vesting_state
  total ← checked_add overflow state.total_released amount
  ok (
    record s {
      vesting_info = insert sender (record info { released_amount = released }) s.vesting_info;
      vesting_state = some (record state { total_released = total });
    },
    transfer ∷ [],
  )

module _ (cw : Cosmwasm) where
  unfoldable pub claim : Env → MessageInfo → Option ℕ → Option ℕ → Store → Outcome
  unfolding pay_claim
  claim env info recipient amount s = do
    vesting_token ← get_vesting_token s.config
    sender_info ← ok_or std_error (lookup info.sender s.vesting_info)
    available ← compute_available_amount cw env.time sender_info
    claim_amount ← choose_amount amount available
    if claim_amount == 0
        then ok (s, [])
        else pay_claim info.sender claim_amount sender_info
            (record {
              asset = vesting_token;
              amount = claim_amount;
              recipient = unwrap_or info.sender recipient;
            })
            s

-- `check` is `AssetInfo::check`.
unfoldable pub set_vesting_token :
    (AssetInfo → Result ContractError (Unit {0})) → MessageInfo → AssetInfo → Store → Outcome
set_vesting_token check info asset s = do
  reject_if
      (not (info.sender == s.config.owner) && not (info.sender == s.config.token_info_manager))
      unauthorized
  reject_if (is_some s.config.vesting_token) vesting_token_already_set
  check asset
  ok (record s { config = record (s.config) { vesting_token = some asset } }, [])
