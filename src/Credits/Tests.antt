-- ===== src/Credits/Tests.antt =====
-- The credits contract on concrete data, and the theorems at such data.
use neutron_tge_contracts.Prelude.{
  ℕ, ◌+◌, ◌-◌, ◌≤◌, ◌≡◌, refl, sym, Bool, true, false, ◌&&◌, Bool-cases, inl, inr, none, some, List,
  [], ◌∷◌, arith, leb, ◌==◌, if◌then◌else◌, unwrap_or,
}
use neutron_tge_contracts.Prelude.Map.{Map, lookup, insert, lookup-insert, AllValues}
use neutron_tge_contracts.Prelude.Result.{ok, ◌>>=◌, checked_sub}
use neutron_tge_contracts.Cosmwasm.{Addr, Coin, MessageInfo, Env}
use neutron_tge_contracts.Samples.{exact_cw, exact_cw-IsExact}
use neutron_tge_contracts.Credits.Types.{
  Allocation, ExecuteMsg, update_config, add_vesting, transfer, withdraw, mint, Payment, Store,
  overflow,
}
use neutron_tge_contracts.Credits.Token.{Cw20, IsToken}
use neutron_tge_contracts.Credits.Schedules.{
  vested_amount, linear_amount, compute_withdrawable_amount,
}
use neutron_tge_contracts.Credits.Schedules.Vested.{
  vested_at, compute_withdrawable_amount_lem, withdrawable_mono,
}
use neutron_tge_contracts.Credits.Handlers.{
  instantiate, burn_and_send, execute_update_config, execute_add_vesting, execute_transfer,
  execute_withdraw, execute_mint,
}
use neutron_tge_contracts.Credits.Execute.{execute, query_withdrawable_amount}
use neutron_tge_contracts.Credits.Withdrawals.{PaysOut, withdraw-PaysOut, withdraw-query}
use neutron_tge_contracts.Credits.Allocations.{Keeps, IsWithin, execute-Keeps, execute-IsWithin}
use neutron_tge_contracts.Credits.Runs.{Call, opening, run, run_backed}

record SampleToken : Type 0 where
  supply : ℕ
  balances : Map ℕ
  minter : Addr

abbrev held_by : SampleToken → Addr → ℕ
held_by t addr = unwrap_or 0 (lookup addr t.balances)

abbrev moved : Addr → Addr → ℕ → SampleToken → SampleToken
moved sender recipient amount t =
    let taken = record t { balances = insert sender (held_by t sender - amount) t.balances } in
    record taken { balances = insert recipient (held_by taken recipient + amount) taken.balances }

abbrev burnt : Addr → ℕ → SampleToken → SampleToken
burnt sender amount t = record t {
  supply = t.supply - amount;
  balances = insert sender (held_by t sender - amount) t.balances;
}

abbrev sample_cw20 : Cw20 SampleToken
sample_cw20 = record {
  create = λ minter. record { supply = 0; balances = []; minter = minter };
  total_supply = λ t. t.supply;
  balance = λ t addr. lookup addr t.balances;
  query_balance = λ t addr. some (held_by t addr);
  execute_transfer = λ info recipient amount t.
      if leb amount (held_by t info.sender)
      then some (moved info.sender recipient amount t)
      else none;
  execute_burn = λ info amount t.
      if leb amount (held_by t info.sender) && leb amount t.supply
      then some (burnt info.sender amount t)
      else none;
  execute_mint = λ info recipient amount t.
      if info.sender == t.minter
      then some (record t {
        supply = t.supply + amount;
        balances = insert recipient (held_by t recipient + amount) t.balances;
      })
      else none;
}

burnt_balance :
    (sender amount addr : ℕ) (t : SampleToken)
    → amount ≤ held_by t sender
    → held_by (burnt sender amount t) addr + (if addr == sender then amount else 0) ≡ held_by t addr
burnt_balance sender amount addr t enough = elim (Bool-cases (addr == sender)) [
  | inl same ↦
      let e : addr ≡ sender = ground arith in
      rw (lookup-insert sender addr (held_by t sender - amount) t.balances, same)
        (rw e (omega arith))
  | inr differs ↦
      rw (lookup-insert sender addr (held_by t sender - amount) t.balances, differs) (omega arith)
]

burn_balance_of :
    (info : MessageInfo) (amount : ℕ) (t t' : SampleToken) (addr : Addr)
    → sample_cw20.execute_burn info amount t ≡ some t'
    → unwrap_or 0 (sample_cw20.balance t' addr) + (if addr == info.sender then amount else 0)
      ≡ unwrap_or 0 (sample_cw20.balance t addr)
burn_balance_of info amount t t' addr h =
    let enough : amount ≤ held_by t info.sender = ground arith in
    let e : burnt info.sender amount t ≡ t' = ground arith in
    rw (sym e) (burnt_balance info.sender amount addr t enough)

supply_after :
    (b : Bool) (t t' : SampleToken) → (if b then some t else none) ≡ some t' → t.supply ≡ t'.supply
supply_after true t t' h = ground arith
supply_after false t t' h = cc

sample_cw20-IsToken : IsToken sample_cw20
sample_cw20-IsToken = record {
  create_supply = λ minter. refl;
  transfer_supply = λ info recipient amount t t' h. sym (supply_after _ _ t' h);
  burn_supply =
      λ info amount t t' h. ground (arith, supply_after _ (burnt info.sender amount t) t' h);
  burn_balance = burn_balance_of;
  mint_supply = λ info recipient amount t t' h. sym (supply_after _ _ t' h);
}

abbrev call_by : ℕ → Addr → List Coin → ExecuteMsg → Call
call_by now sender funds msg = record {
  env = record { time = now; height = 1; contract = 99 };
  info = record { sender = sender; funds = funds };
  msg = msg;
}

abbrev at_150 : Env
at_150 = record { time = 150; height = 1; contract = 99 }

abbrev by_user : MessageInfo
by_user = record { sender = 5; funds = [] }

-- After the instantiation by the DAO at address 1.
abbrev first_store : Store SampleToken
first_store = record {
  config = record {
    dao_address = 1;
    airdrop_address = none;
    lockdrop_address = none;
    when_withdrawable = none;
  };
  allocations = [];
  token = record { supply = 0; balances = []; minter = 1 };
}

-- 600 of 1000 cNTRN are with the user at address 5, and vest from 100 to 200.
abbrev vesting_store : ℕ → Store SampleToken
vesting_store withdrawn = record {
  config = record {
    dao_address = 1;
    airdrop_address = some 2;
    lockdrop_address = some 3;
    when_withdrawable = some 100;
  };
  allocations =
      (
        5,
        record {
          allocated_amount = 600;
          withdrawn_amount = withdrawn;
          schedule = record { start_time = 100; cliff = 0; duration = 100 };
        },
      )
      ∷ [];
  token = record {
    supply = 1000 - withdrawn;
    balances = (2, 400) ∷ (5, 600 - withdrawn) ∷ [];
    minter = 1;
  };
}

abbrev half_payment : List Payment
half_payment = record { recipient = 5; amount = 300 } ∷ []

abbrev sample_run : List Call
sample_run =
    call_by 10 1 [] (
      update_config (record {
        airdrop_address = some 2;
        lockdrop_address = some 3;
        when_withdrawable = some 100;
      }))
    ∷ call_by 20 1 (record { denom = 7; amount = 1000 } ∷ []) mint
    ∷ call_by 30 2 [] (transfer 5 600)
    ∷ call_by 40 2 [] (add_vesting 5 600 100 100)
    ∷ call_by 50 5 [] withdraw
    ∷ call_by 150 5 [] withdraw
    ∷ []

instantiates : instantiate exact_cw sample_cw20 7 1 ≡ ok first_store
unfolding instantiate ◌>>=◌
instantiates = refl

sample_run_lem :
    run exact_cw sample_cw20 7 sample_run (opening first_store)
    ≡ record { store = vesting_store 300; total_received = 1000; total_paid = 300 }
unfolding run execute execute_update_config execute_mint execute_transfer execute_add_vesting
    execute_withdraw burn_and_send compute_withdrawable_amount vested_amount linear_amount lookup
    insert ◌>>=◌
sample_run_lem = refl

run_backed_example :
    (run exact_cw sample_cw20 7 sample_run (opening first_store)).store.token.supply
      + (run exact_cw sample_cw20 7 sample_run (opening first_store)).total_paid
    ≤ (run exact_cw sample_cw20 7 sample_run (opening first_store)).total_received
run_backed_example =
    run_backed exact_cw sample_cw20 7 sample_cw20-IsToken 1 first_store sample_run instantiates

withdraws_half :
    execute_withdraw exact_cw sample_cw20 7 at_150 by_user (vesting_store 0)
    ≡ ok (vesting_store 300, half_payment)
unfolding execute_withdraw burn_and_send compute_withdrawable_amount vested_amount linear_amount
    lookup insert ◌>>=◌
withdraws_half = refl

executes_withdrawal :
    execute exact_cw sample_cw20 7 at_150 by_user withdraw (vesting_store 0)
    ≡ ok (vesting_store 300, half_payment)
unfolding execute
executes_withdrawal = withdraws_half

abbrev allocation_of : ℕ → Allocation
allocation_of withdrawn = record {
  allocated_amount = 600;
  withdrawn_amount = withdrawn;
  schedule = record { start_time = 100; cliff = 0; duration = 100 };
}

found_of : lookup 5 (vesting_store 0).allocations ≡ some (allocation_of 0)
unfolding lookup
found_of = refl

execute-Keeps_example : Keeps 5 (allocation_of 0) (vesting_store 300, half_payment)
execute-Keeps_example =
    (execute-Keeps exact_cw sample_cw20 7 at_150 by_user withdraw (vesting_store 0) 5
        (allocation_of 0) found_of).holds
      (vesting_store 300, half_payment) executes_withdrawal

execute-IsWithin_example : AllValues IsWithin (vesting_store 300).allocations
execute-IsWithin_example =
    (execute-IsWithin exact_cw sample_cw20 7 exact_cw-IsExact (vesting_store 0) (omega arith, tt)
        at_150 by_user withdraw).holds
      (vesting_store 300, half_payment) executes_withdrawal

withdraw-PaysOut_example :
    PaysOut exact_cw sample_cw20 7 at_150 by_user
      (vesting_store 0)
      (vesting_store 300, half_payment)
withdraw-PaysOut_example =
    (withdraw-PaysOut exact_cw sample_cw20 7 at_150 by_user (vesting_store 0)).holds
      (vesting_store 300, half_payment) withdraws_half

withdraw-query_example :
    (amount : ℕ) × (query_withdrawable_amount exact_cw sample_cw20 7 at_150 5 (vesting_store 0)
      ≡ ok amount)
    × (half_payment ≡ record { recipient = 5; amount = amount } ∷ [])
withdraw-query_example =
    withdraw-query exact_cw sample_cw20 7 at_150 by_user (vesting_store 0)
      (vesting_store 300, half_payment) refl withdraws_half

compute_withdrawable_amount_example :
    compute_withdrawable_amount exact_cw 600 100 (allocation_of 100).schedule 150
    ≡ checked_sub overflow (vested_at 600 (allocation_of 100).schedule 150) 100
compute_withdrawable_amount_example =
    compute_withdrawable_amount_lem exact_cw exact_cw-IsExact 600 100 (allocation_of 100).schedule
      150 (record { cliff_end = omega arith; schedule_end = omega arith }) (omega arith)

withdrawable_at_150 :
    compute_withdrawable_amount exact_cw 600 100 (allocation_of 100).schedule 150 ≡ ok 200
unfolding compute_withdrawable_amount vested_amount linear_amount ◌>>=◌
withdrawable_at_150 = refl

withdrawable_mono_example :
    (b : ℕ) × (compute_withdrawable_amount exact_cw 600 100 (allocation_of 100).schedule 180 ≡ ok b)
    × (200 ≤ b)
    × (b + 100 ≤ 600)
withdrawable_mono_example =
    withdrawable_mono exact_cw exact_cw-IsExact 600 100 (allocation_of 100).schedule 150 180 200
      (record { cliff_end = omega arith; schedule_end = omega arith }) (omega arith) (omega arith)
      withdrawable_at_150
