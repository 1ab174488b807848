-- ===== src/Vesting/Queries/Sums.antt =====
-- What the queries answer on a sound storage.
use neutron_tge_contracts.Prelude.{
  ℕ, ◌+◌, ◌-◌, ◌≤◌, ◌≡◌, refl, true, Option, none, some, List, [], ◌∷◌, arith, unwrap_or,
  if◌then◌else◌, ◌==◌,
}
use neutron_tge_contracts.Prelude.Map.{
  Map, lookup, sum_values, AllValues, AllValues-lookup, measure-le-sum,
}
use neutron_tge_contracts.Prelude.Result.{ok, ◌>>=◌, u128_max}
use neutron_tge_contracts.Cosmwasm.{Addr, Cosmwasm, MessageInfo, Env}
use neutron_tge_contracts.Vesting.Types.{VestingInfo, VestingState, Store, Transfer}
use neutron_tge_contracts.Vesting.Claim.{claim}
use neutron_tge_contracts.Vesting.Claim.Payout.{claim-Claims}
use neutron_tge_contracts.Vesting.Flow.{paid}
use neutron_tge_contracts.Vesting.Register.Accept.{add_granted_accepts}
use neutron_tge_contracts.Vesting.Register.{zero_state}
use neutron_tge_contracts.Vesting.Invariant.{granted_to, released_to, IsCovered, IsSound}
use neutron_tge_contracts.Vesting.Queries.{
  compute_unclaimed_amount, total_unclaimed_of, query_vesting_available_amount,
  query_unclaimed_amount_at_height, query_total_unclaimed_amount_at_height,
}

-- What an account is granted and has not been paid.
abbrev pub unclaimed : VestingInfo → ℕ
unclaimed info = granted_to info - released_to info

sum-unclaimed :
    (m : Map VestingInfo)
    → AllValues IsCovered m
    → sum_values unclaimed m + sum_values released_to m ≡ sum_values granted_to m
sum-unclaimed [] h = refl
sum-unclaimed ((k, v) ∷ m) h = omega (arith, h.0.covered, sum-unclaimed m h.1)

total_unclaimed_lem :
    (o : Option VestingState) (total : ℕ)
    → (unwrap_or zero_state o).total_granted ≡ total + (unwrap_or zero_state o).total_released
    → total_unclaimed_of o ≡ ok total
total_unclaimed_lem none total h = ground arith
total_unclaimed_lem (some state) total h = ground arith

-- If the storage at the height is sound and the contract has the historical extension: the total
-- that the query answers is the sum over the accounts of what is granted and not yet released.
pub query_total_unclaimed_lem :
    (past s : Store)
    → IsSound past
    → s.config.extensions.historical ≡ true
    → query_total_unclaimed_amount_at_height past s ≡ ok (sum_values unclaimed past.vesting_info)
unfolding query_total_unclaimed_amount_at_height ◌>>=◌
query_total_unclaimed_lem past s sound enabled =
    let total = sum_values unclaimed past.vesting_info in
    let sums = sum-unclaimed past.vesting_info sound.accounts in
    rw enabled (
      total_unclaimed_lem past.vesting_state total
        (omega (arith, sums, sound.granted_total, sound.released_total)))

unclaimed_lem :
    (info : VestingInfo)
    → info.released_amount ≤ granted_to info
    → granted_to info ≤ u128_max
    → compute_unclaimed_amount info ≡ ok (unclaimed info)
unfolding compute_unclaimed_amount ◌>>=◌
unclaimed_lem info covered fits = ground (arith, add_granted_accepts 0 info.schedules)

-- For a valid address with an account in a sound storage at the height: the query of the unclaimed
-- amount succeeds with what the account is granted and has not been paid.
pub query_unclaimed_lem :
    (cw : Cosmwasm) (addr : Addr) (info : VestingInfo) (past s : Store)
    → IsSound past
    → s.config.extensions.historical ≡ true
    → cw.addr_validate addr ≡ some addr
    → lookup addr past.vesting_info ≡ some info
    → query_unclaimed_amount_at_height cw addr past s ≡ ok (unclaimed info)
unfolding query_unclaimed_amount_at_height ◌>>=◌
query_unclaimed_lem cw addr info past s sound enabled known found =
    let is_covered = AllValues-lookup IsCovered addr info past.vesting_info sound.accounts found in
    let one = measure-le-sum granted_to addr info past.vesting_info found in
    let fits : granted_to info ≤ u128_max =
      omega (arith, one, sound.granted_total, sound.in_range) in
    rw (enabled, known, found) (unclaimed_lem info is_covered.covered fits)

paid_one :
    (amount : ℕ) (t : Transfer)
    → t.amount ≡ amount
    → paid (if amount == 0 then [] else t ∷ []) ≡ amount
paid_one amount t h = ground arith

-- For a sender whose address is valid: a successful claim that names no amount pays exactly what
-- the query of the available amount answers before it.
pub claim-query :
    (cw : Cosmwasm) (env : Env) (info : MessageInfo) (recipient : Option ℕ) (s : Store)
    (r : Store × List Transfer)
    → cw.addr_validate info.sender ≡ some info.sender
    → claim cw env info recipient none s ≡ ok r
    → query_vesting_available_amount cw env info.sender s ≡ ok (paid r.1)
unfolding query_vesting_available_amount ◌>>=◌
claim-query cw env info recipient s r known h =
    let (asset, account, available, a, named, found, e, which, within, claims) =
      (claim-Claims cw env info recipient none s).holds r h in
    let amount : paid r.1 ≡ a = rw claims.transfers (paid_one a _ refl) in
    rw (known, found, e, amount, which) refl
