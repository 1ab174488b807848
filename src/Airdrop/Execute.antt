-- ===== src/Airdrop/Execute.antt =====
-- contracts/cw20-merkle-airdrop/src/contract.rs.
use neutron_tge_contracts.Prelude.{
  ℕ, Bool, true, false, not, ◌&&◌, Option, List, [], ◌∷◌, ltb, leb, ◌==◌, if◌then◌else◌, is_some,
  unwrap_or,
}
use neutron_tge_contracts.Prelude.Map.{lookup, insert}
use neutron_tge_contracts.Prelude.Result.{
  Result, ok, ◌>>=◌, ◌>>◌, ensure, reject_if, ok_or, add_u64, checked_add,
}
use neutron_tge_contracts.Cosmwasm.{Addr, Denom, Cosmwasm, MessageInfo, Env}
use neutron_tge_contracts.Airdrop.Types.{
  Store, AirdropError, std_error, wrong_hex, unauthorized, claimed, verification_failed,
  vesting_before_airdrop, panicked, query_failed, paused_error, not_paused, expired,
  withdraw_all_unavailable, not_begun, InstantiateMsg, ExecuteMsg, claim, withdraw_all, pause,
  resume, update_reserve, transfer, add_vesting, burn, bank_send, Outcome, Hashing,
}

abbrev pub expiration_of : Store → Result AirdropError ℕ
expiration_of s = add_u64 panicked s.vesting_start s.vesting_duration

module _ (cw : Cosmwasm) (hashing : Hashing) where
  unfoldable pub instantiate : MessageInfo → InstantiateMsg → Result AirdropError Store
  instantiate info msg = do
    credits ← ok_or std_error (cw.addr_validate msg.credits_address)
    reserve ← ok_or std_error (cw.addr_validate msg.reserve_address)
    _ ← ok_or wrong_hex (hashing.decode msg.merkle_root)
    reject_if (ltb msg.vesting_start msg.airdrop_start) vesting_before_airdrop
    ok (record {
      config = record { owner = info.sender; credits_address = credits; reserve_address = reserve };
      airdrop_start = msg.airdrop_start;
      vesting_start = msg.vesting_start;
      vesting_duration = msg.vesting_duration_seconds;
      amount = unwrap_or 0 msg.total_amount;
      amount_claimed = 0;
      account_map = [];
      merkle_root = msg.merkle_root;
      claims = [];
      hrp = msg.hrp;
      paused = false;
    })

  -- The digest of two digests in order.
  abbrev pub join : ℕ → ℕ → ℕ
  join a b = if leb a b then hashing.digest_pair a b else hashing.digest_pair b a

  -- The fold over the proof.
  unfoldable pub fold_proof : ℕ → List ℕ → Result AirdropError ℕ
  fold_proof hash [] = ok hash
  fold_proof hash (p ∷ proof) = do
    proof_buf ← ok_or wrong_hex (hashing.decode p)
    fold_proof (join hash proof_buf) proof

  unfoldable pub execute_claim : Env → MessageInfo → ℕ → List ℕ → Store → Outcome
  execute_claim env info amount proof s = do
    reject_if (ltb env.time s.airdrop_start) (not_begun s.airdrop_start)
    expiration ← expiration_of s
    reject_if (ltb expiration env.time) (expired expiration)
    reject_if s.paused paused_error
    reject_if (is_some (lookup info.sender s.claims)) claimed
    hash ← fold_proof (hashing.digest_claim info.sender amount) proof
    root_buf ← ok_or wrong_hex (hashing.decode s.merkle_root)
    ensure (root_buf == hash) verification_failed
    claimed_amount ← checked_add panicked s.amount_claimed amount
    ok (
      record s { claims = insert info.sender true s.claims; amount_claimed = claimed_amount },
      transfer s.config.credits_address info.sender amount
          ∷ add_vesting s.config.credits_address info.sender amount s.vesting_start
              s.vesting_duration
          ∷ [],
    )

  -- `balance` is the contract's own balance at the credits contract.
  unfoldable pub execute_withdraw_all :
      (Addr → Option ℕ) → Denom → Env → MessageInfo → Store → Outcome
  execute_withdraw_all balance untrn env info s = do
    ensure (info.sender == s.config.reserve_address) unauthorized
    expiration ← expiration_of s
    reject_if (leb env.time expiration) (withdraw_all_unavailable expiration)
    reject_if s.paused paused_error
    amount ← ok_or query_failed (balance s.config.credits_address)
    ok (
      s,
      burn s.config.credits_address amount ∷ bank_send s.config.reserve_address untrn amount ∷ [],
    )

  unfoldable pub execute_update_reserve : MessageInfo → ℕ → Store → Outcome
  execute_update_reserve info address s = do
    reject_if (not (s.config.owner == info.sender) && not (s.config.reserve_address == info.sender))
        unauthorized
    reserve ← ok_or std_error (cw.addr_validate address)
    ok (record s { config = record (s.config) { reserve_address = reserve } }, [])

  unfoldable pub execute_pause : Env → MessageInfo → Store → Outcome
  execute_pause env info s = do
    ensure (info.sender == s.config.owner) unauthorized
    reject_if (ltb env.time s.airdrop_start) (not_begun s.airdrop_start)
    expiration ← expiration_of s
    reject_if (ltb expiration env.time) (expired expiration)
    ok (record s { paused = true }, [])

  unfoldable pub execute_resume : Env → MessageInfo → Store → Outcome
  execute_resume env info s = do
    ensure (info.sender == s.config.owner) unauthorized
    reject_if (ltb env.time s.airdrop_start) (not_begun s.airdrop_start)
    expiration ← expiration_of s
    reject_if (ltb expiration env.time) (expired expiration)
    ensure s.paused not_paused
    ok (record s { paused = false }, [])

  unfoldable pub execute :
      (Addr → Option ℕ) → Denom → Env → MessageInfo → ExecuteMsg → Store → Outcome
  execute balance untrn env info (claim amount proof) s = execute_claim env info amount proof s
  execute balance untrn env info withdraw_all s = execute_withdraw_all balance untrn env info s
  execute balance untrn env info pause s = execute_pause env info s
  execute balance untrn env info resume s = execute_resume env info s
  execute balance untrn env info (update_reserve address) s = execute_update_reserve info address s

-- `unwrap_or(false)` of `CLAIM`; the other queries answer with items of the storage.
abbrev pub query_is_claimed : Addr → Store → Bool
query_is_claimed address s = unwrap_or false (lookup address s.claims)

abbrev pub query_total_claimed : Store → ℕ
query_total_claimed s = s.amount_claimed

abbrev pub query_is_paused : Store → Bool
query_is_paused s = s.paused
