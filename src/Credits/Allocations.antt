-- ===== src/Credits/Allocations.antt =====
-- What every message leaves of the allocations.
use neutron_tge_contracts.Prelude.{
  ℕ, ◌+◌, ◌*◌, ◌≤◌, ◌<◌, ◌≡◌, refl, ap, min, Bool, true, false, inl, inr, Option, none, some, List,
  arith, ltb, ◌==◌, Bool-cases,
}
use neutron_tge_contracts.Prelude.Ratio.{ratio_le}
use neutron_tge_contracts.Prelude.Map.{Map, lookup, lookup-insert, AllValues, AllValues-insert}
use neutron_tge_contracts.Prelude.Result.{
  ok, ok_or-eq-ok, Ensures, Ensures-bind, Ensures-if, Ensures-mono, Ensures-pure,
}
use neutron_tge_contracts.Cosmwasm.{Addr, Denom, Cosmwasm, IsExact, MessageInfo, Env}
use neutron_tge_contracts.Credits.Types.{
  Schedule, Allocation, ExecuteMsg, update_config, add_vesting, transfer, withdraw, burn, burn_from,
  mint, Payment, Store, panicked,
}
use neutron_tge_contracts.Credits.Token.{Cw20}
use neutron_tge_contracts.Credits.Schedules.{
  linear_amount, vested_amount, compute_withdrawable_amount,
}
use neutron_tge_contracts.Credits.Handlers.{
  new_allocation, burn_and_send, execute_update_config, execute_add_vesting, execute_transfer,
  execute_withdraw, execute_burn, execute_burn_from, execute_mint,
}
use neutron_tge_contracts.Credits.Execute.{execute}
use neutron_tge_contracts.Credits.Withdrawals.{IsPaidOut, withdraw-PaysOut}

abbrev pub IsWithin : Allocation → Type 0
IsWithin a = a.withdrawn_amount ≤ a.allocated_amount

-- The allocation of `addr` is there, with the same amount and schedule, and no less withdrawn.
abbrev pub Keeps : {Token : Type 0} → Addr → Allocation → Store Token × List Payment → Type 0
Keeps addr old r =
    (new : Allocation) × (lookup addr r.0.allocations ≡ some new)
    × (new.allocated_amount ≡ old.allocated_amount)
    × (new.schedule ≡ old.schedule)
    × (old.withdrawn_amount ≤ new.withdrawn_amount)

abbrev SameAllocations : {Token : Type 0} → Store Token → Store Token × List Payment → Type 0
SameAllocations s r = r.0.allocations ≡ s.allocations

new_allocation_lem :
    (o : Option Allocation) (address amount start_time duration : ℕ) (a : Allocation)
    → new_allocation o address amount start_time duration ≡ ok a
    → (o ≡ none) × (a.withdrawn_amount ≡ 0)
new_allocation_lem none address amount start_time duration a h = (refl, ground arith)
new_allocation_lem (some old) address amount start_time duration a h = cc

module _ (cw : Cosmwasm) (exact : IsExact cw) where
  linear_amount-Bounded :
      (allocated : ℕ) (schedule : Schedule) (now : ℕ)
      → now < schedule.start_time + schedule.duration
      → Ensures (λ v. v ≤ allocated) (linear_amount cw allocated schedule now)
  unfolding linear_amount
  linear_amount-Bounded allocated schedule now inside = Ensures-bind λ passed p. record {
    holds = λ v e.
        let (floor, _) =
          exact.multiply_ratio_floor allocated passed schedule.duration v
            (ok_or-eq-ok panicked (cw.multiply_ratio allocated passed schedule.duration) e) in
        let short : passed ≤ schedule.duration = ground (arith, inside, p) in
        let share = ratio_le passed allocated schedule.duration short in
        let turned : allocated * passed ≡ passed * allocated = omega arith in
        rw (floor, turned) share;
  }

  vested_amount-Bounded :
      (allocated : ℕ) (schedule : Schedule) (now : ℕ)
      → Ensures (λ v. v ≤ allocated) (vested_amount cw allocated schedule now)
  unfolding vested_amount
  vested_amount-Bounded allocated schedule now = Ensures-bind λ cliff_end _.
      Ensures-if (ltb now cliff_end) (λ _. Ensures-pure (omega arith))
        λ _. Ensures-bind λ schedule_end e.
          Ensures-if (ltb now schedule_end)
            (λ inside. linear_amount-Bounded allocated schedule now (ground (arith, inside, e)))
            λ _. Ensures-pure (omega arith)

  withdrawable-le-allocated :
      (allocated withdrawn : ℕ) (schedule : Schedule) (now : ℕ)
      → Ensures
          (λ a. withdrawn + a ≤ allocated)
          (compute_withdrawable_amount cw allocated withdrawn schedule now)
  unfolding compute_withdrawable_amount
  withdrawable-le-allocated allocated withdrawn schedule now = Ensures-bind λ v e.
      let within = (vested_amount-Bounded allocated schedule now).holds v e in
      record { holds = λ a e'. ground (arith, within, e') }

module _ {Token : Type 0} (cw : Cosmwasm) (cw20 : Cw20 Token) (untrn : Denom) where
  burn_and_send-SameAllocations :
      (info : MessageInfo) (amount : ℕ) (s : Store Token)
      → Ensures (SameAllocations s) (burn_and_send cw cw20 untrn info amount s)
  unfolding burn_and_send
  burn_and_send-SameAllocations info amount s = Ensures-bind λ _ _. Ensures-pure refl

  -- Every message but `AddVesting` and `Withdraw`.
  abbrev IsOther : ExecuteMsg → Type 0
  IsOther (add_vesting address amount start_time duration) = ⊥
  IsOther withdraw = ⊥
  IsOther _ = Unit

  other-SameAllocations :
      (env : Env) (info : MessageInfo) (msg : ExecuteMsg) (s : Store Token)
      → IsOther msg
      → Ensures (SameAllocations s) (execute cw cw20 untrn env info msg s)
  unfolding execute
  other-SameAllocations env info (update_config config) s h =
      unfold execute_update_config in
      Ensures-bind λ _ _. Ensures-bind λ _ _. Ensures-bind λ _ _. Ensures-pure refl
  other-SameAllocations env info (transfer recipient amount) s h =
      unfold execute_transfer in
      Ensures-bind λ _ _. Ensures-bind λ _ _. Ensures-bind λ _ _. Ensures-pure refl
  other-SameAllocations env info (burn amount) s h =
      unfold execute_burn in
      Ensures-bind λ _ _. Ensures-bind λ _ _. burn_and_send-SameAllocations info amount s
  other-SameAllocations env info (burn_from owner amount) s h =
      unfold execute_burn_from in
      Ensures-bind λ _ _. Ensures-bind λ _ _.
        Ensures-bind
          λ sender _. burn_and_send-SameAllocations (record info { sender = sender }) amount s
  other-SameAllocations env info mint s h =
      unfold execute_mint in
      Ensures-bind λ _ _. Ensures-bind λ _ _. Ensures-bind λ _ _. Ensures-pure refl
  other-SameAllocations env info (add_vesting address amount start_time duration) s h = elim h [ ]
  other-SameAllocations env info withdraw s h = elim h [ ]

  add_vesting-Keeps :
      (info : MessageInfo) (address amount start_time duration : ℕ) (s : Store Token) (addr : Addr)
      (old : Allocation)
      → lookup addr s.allocations ≡ some old
      → Ensures
          (Keeps addr old)
          (execute_add_vesting cw cw20 untrn info address amount start_time duration s)
  unfolding execute_add_vesting
  add_vesting-Keeps info address amount start_time duration s addr old known = Ensures-bind λ _ _.
      Ensures-bind λ _ _. Ensures-bind λ _ _. Ensures-bind λ _ _. Ensures-bind λ vested_to _.
        Ensures-bind λ new e.
          let (absent, _) =
            new_allocation_lem (lookup vested_to s.allocations) address amount start_time duration
              new e in
          Ensures-pure (
            old,
            elim (Bool-cases (addr == vested_to)) [
              | inl same ↦
                  let e' : addr ≡ vested_to = ground arith in
                  let absent' : lookup addr s.allocations ≡ none = rw e' absent in cc
              | inr differs ↦ rw (lookup-insert vested_to addr new s.allocations, differs) known
            ],
            refl,
            refl,
            omega arith,
          )

  paid_out-Keeps :
      (info : MessageInfo) (allocation : Allocation) (amount : ℕ) (s : Store Token) (addr : Addr)
      (old : Allocation) (r : Store Token × List Payment)
      → lookup addr s.allocations ≡ some old
      → lookup info.sender s.allocations ≡ some allocation
      → IsPaidOut cw cw20 untrn info allocation amount s r
      → (b : Bool) → (addr == info.sender) ≡ b
      → Keeps addr old r
  paid_out-Keeps info allocation amount s addr old r known found done true same =
      let e : addr ≡ info.sender = ground arith in
      let found' : lookup addr s.allocations ≡ some allocation = rw e found in
      let is_old : allocation ≡ old = cc in
      let new : Allocation = record allocation {
        withdrawn_amount = allocation.withdrawn_amount + amount;
      } in
      let stored : lookup addr r.0.allocations ≡ some new = rw e done.own_allocation in
      let same_start = ap (λ (a : Allocation). a.withdrawn_amount) is_old in
      let grown : old.withdrawn_amount ≤ new.withdrawn_amount = omega (arith, same_start) in
      (
        new,
        stored,
        ap (λ (a : Allocation). a.allocated_amount) is_old,
        ap (λ (a : Allocation). a.schedule) is_old,
        grown,
      )
  paid_out-Keeps info allocation amount s addr old r known found done false differs =
      let stored : lookup addr r.0.allocations ≡ some old =
        rw (done.other_allocations addr differs) known in
      (old, stored, refl, refl, omega arith)

  withdraw-Keeps :
      (env : Env) (info : MessageInfo) (s : Store Token) (addr : Addr) (old : Allocation)
      → lookup addr s.allocations ≡ some old
      → Ensures (Keeps addr old) (execute_withdraw cw cw20 untrn env info s)
  withdraw-Keeps env info s addr old known =
      Ensures-mono
        (λ r (opened, allocation, max_amount, balance, _, _, found, _, _, _, done).
          paid_out-Keeps info allocation (min max_amount balance) s addr old r known found done
            (addr == info.sender) refl)
        (withdraw-PaysOut cw cw20 untrn env info s)

  other-Keeps :
      (env : Env) (info : MessageInfo) (msg : ExecuteMsg) (s : Store Token) (addr : Addr)
      (old : Allocation)
      → IsOther msg
      → lookup addr s.allocations ≡ some old
      → Ensures (Keeps addr old) (execute cw cw20 untrn env info msg s)
  other-Keeps env info msg s addr old is_other known =
      Ensures-mono
        (λ r same.
          let stored : lookup addr r.0.allocations ≡ some old = rw same known in
          (old, stored, refl, refl, omega arith))
        (other-SameAllocations env info msg s is_other)

  -- Whatever the message: if the call succeeds, an allocation that was there is there after it,
  -- with the same amount and the same schedule, and what is withdrawn of it has not shrunk.
  pub execute-Keeps :
      (env : Env) (info : MessageInfo) (msg : ExecuteMsg) (s : Store Token) (addr : Addr)
      (old : Allocation)
      → lookup addr s.allocations ≡ some old
      → Ensures (Keeps addr old) (execute cw cw20 untrn env info msg s)
  unfolding execute
  execute-Keeps env info (add_vesting address amount start_time duration) s addr old known =
      add_vesting-Keeps info address amount start_time duration s addr old known
  execute-Keeps env info withdraw s addr old known = withdraw-Keeps env info s addr old known
  execute-Keeps env info (update_config config) s addr old known =
      other-Keeps env info (update_config config) s addr old tt known
  execute-Keeps env info (transfer recipient amount) s addr old known =
      other-Keeps env info (transfer recipient amount) s addr old tt known
  execute-Keeps env info (burn amount) s addr old known =
      other-Keeps env info (burn amount) s addr old tt known
  execute-Keeps env info (burn_from owner amount) s addr old known =
      other-Keeps env info (burn_from owner amount) s addr old tt known
  execute-Keeps env info mint s addr old known = other-Keeps env info mint s addr old tt known

  module _ (exact : IsExact cw) (s : Store Token) (h : AllValues IsWithin s.allocations) where
    add_vesting-IsWithin :
        (info : MessageInfo) (address amount start_time duration : ℕ)
        → Ensures
            (λ r. AllValues IsWithin r.0.allocations)
            (execute_add_vesting cw cw20 untrn info address amount start_time duration s)
    unfolding execute_add_vesting
    add_vesting-IsWithin info address amount start_time duration = Ensures-bind λ _ _.
        Ensures-bind λ _ _. Ensures-bind λ _ _. Ensures-bind λ _ _. Ensures-bind λ vested_to _.
          Ensures-bind λ new e.
            let (_, nothing) =
              new_allocation_lem (lookup vested_to s.allocations) address amount start_time duration
                new e in
            Ensures-pure
              (AllValues-insert IsWithin vested_to new s.allocations (omega (arith, nothing)) h)

    withdraw-IsWithin :
        (env : Env) (info : MessageInfo)
        → Ensures
            (λ r. AllValues IsWithin r.0.allocations)
            (execute_withdraw cw cw20 untrn env info s)
    unfolding execute_withdraw burn_and_send
    withdraw-IsWithin env info = Ensures-bind λ _ _. Ensures-bind λ _ _.
        Ensures-bind λ allocation _. Ensures-bind λ max_amount e. Ensures-bind λ _ _.
          Ensures-bind λ balance _. Ensures-bind λ _ _. Ensures-bind λ withdrawn w.
            Ensures-bind λ token _.
              let within =
                (withdrawable-le-allocated cw exact allocation.allocated_amount
                    allocation.withdrawn_amount allocation.schedule env.time).holds
                  max_amount e in
              Ensures-pure (
                AllValues-insert IsWithin info.sender _ s.allocations (ground (arith, within, w)) h)

    same-IsWithin : (m : Map Allocation) → m ≡ s.allocations → AllValues IsWithin m
    same-IsWithin m same = rw same h

    other-IsWithin :
        (env : Env) (info : MessageInfo) (msg : ExecuteMsg)
        → IsOther msg
        → Ensures (λ r. AllValues IsWithin r.0.allocations) (execute cw cw20 untrn env info msg s)
    other-IsWithin env info msg is_other =
        Ensures-mono (λ r same. same-IsWithin r.0.allocations same)
          (other-SameAllocations env info msg s is_other)

    -- Whatever the message: if no account had withdrawn more than its allocation and the call
    -- succeeds, none has after it.
    pub execute-IsWithin :
        (env : Env) (info : MessageInfo) (msg : ExecuteMsg)
        → Ensures (λ r. AllValues IsWithin r.0.allocations) (execute cw cw20 untrn env info msg s)
    unfolding execute
    execute-IsWithin env info (add_vesting address amount start_time duration) =
        add_vesting-IsWithin info address amount start_time duration
    execute-IsWithin env info withdraw = withdraw-IsWithin env info
    execute-IsWithin env info (update_config config) =
        other-IsWithin env info (update_config config) tt
    execute-IsWithin env info (transfer recipient amount) =
        other-IsWithin env info (transfer recipient amount) tt
    execute-IsWithin env info (burn amount) = other-IsWithin env info (burn amount) tt
    execute-IsWithin env info (burn_from owner amount) =
        other-IsWithin env info (burn_from owner amount) tt
    execute-IsWithin env info mint = other-IsWithin env info mint tt
