-- ===== src/Vesting/Flow/Register.antt =====
-- A registration takes in exactly what it grants.
use neutron_tge_contracts.Prelude.{ℕ, List, arith}
use neutron_tge_contracts.Prelude.Result.{Ensures, Ensures-bind, Ensures-pure}
use neutron_tge_contracts.Cosmwasm.{Cosmwasm}
use neutron_tge_contracts.Vesting.Types.{VestingAccount, Store}
use neutron_tge_contracts.Vesting.Register.{register_vesting_accounts}
use neutron_tge_contracts.Vesting.Register.Totals.{register_accounts-Adds}
use neutron_tge_contracts.Vesting.Invariant.{IsSound}
use neutron_tge_contracts.Vesting.Flow.{Flows}

pub register-Flows :
    (cw : Cosmwasm) (accounts : List VestingAccount) (amount : ℕ) (s : Store)
    → IsSound s
    → Ensures (Flows amount s) (register_vesting_accounts cw accounts amount s)
unfolding register_vesting_accounts
register-Flows cw accounts amount s sound = Ensures-bind λ (to_deposit, infos) e.
    Ensures-bind λ _ matches. Ensures-bind λ total e'.
      let adds = (register_accounts-Adds cw accounts 0 s.vesting_info sound.accounts).holds _ e in
      Ensures-pure (record {
        sound = record {
          granted_total = ground (arith, adds.1.more_granted, sound.granted_total);
          released_total = ground (arith, adds.1.same_released, sound.released_total);
          accounts = adds.1.covered;
          in_range = ground arith;
        };
        balance = ground arith;
      })
