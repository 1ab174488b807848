-- ===== src/Credits/Withdrawals.antt =====
-- What the allocations are for: a withdrawal, and what every message leaves of an allocation.
use neutron_tge_contracts.Prelude.{
  ℕ, ◌+◌, ◌≤◌, ◌<◌, ◌≡◌, refl, min, false, some, List, [], ◌∷◌, arith, ◌==◌,
}
use neutron_tge_contracts.Prelude.Map.{lookup, insert, lookup-insert}
use neutron_tge_contracts.Prelude.Result.{
  ok, ◌>>=◌, ok_or-eq-ok, Ensures, Ensures-bind, Ensures-mono, Ensures-pure,
}
use neutron_tge_contracts.Cosmwasm.{Addr, Denom, Cosmwasm, MessageInfo, Env}
use neutron_tge_contracts.Credits.Types.{
  Allocation, Payment, Store, std_error, when_withdrawable_is_not_configured,
}
use neutron_tge_contracts.Credits.Token.{Cw20}
use neutron_tge_contracts.Credits.Schedules.{compute_withdrawable_amount}
use neutron_tge_contracts.Credits.Handlers.{burn_and_send, execute_withdraw}
use neutron_tge_contracts.Credits.Execute.{query_withdrawable_amount}

module _ {Token : Type 0} (cw : Cosmwasm) (cw20 : Cw20 Token) (untrn : Denom) where
  -- The payment of `amount` to the sender, out of the allocation.
  pub record IsPaidOut (info : MessageInfo) (allocation : Allocation) (amount : ℕ) (s : Store Token)
      (r : Store Token × List Payment) : Type 0 where
    pub payment : r.1 ≡ record { recipient = info.sender; amount = amount } ∷ []
    pub burnt : cw20.execute_burn info amount s.token ≡ some r.0.token
    pub own_allocation :
        lookup info.sender r.0.allocations
        ≡ some (record allocation { withdrawn_amount = allocation.withdrawn_amount + amount })
    pub other_allocations :
        (j : Addr) → (j == info.sender) ≡ false → lookup j r.0.allocations ≡ lookup j s.allocations
    pub same_config : r.0.config ≡ s.config

  abbrev pub PaysOut : Env → MessageInfo → Store Token → Store Token × List Payment → Type 0
  PaysOut env info s r =
      (opened : ℕ) × (allocation : Allocation) × (max_amount : ℕ) × (balance : ℕ)
      × (s.config.when_withdrawable ≡ some opened)
      × (opened ≤ env.time)
      × (lookup info.sender s.allocations ≡ some allocation)
      × (compute_withdrawable_amount cw allocation.allocated_amount allocation.withdrawn_amount
            allocation.schedule env.time
          ≡ ok max_amount)
      × (cw20.balance s.token info.sender ≡ some balance)
      × (0 < min max_amount balance)
      × IsPaidOut info allocation (min max_amount balance) s r

  burn_and_send-IsPaidOut :
      (info : MessageInfo) (allocation : Allocation) (amount withdrawn : ℕ) (s : Store Token)
      → withdrawn ≡ allocation.withdrawn_amount + amount
      → Ensures (IsPaidOut info allocation amount s) (
          burn_and_send cw cw20 untrn info amount (record s {
            allocations =
                insert info.sender
                  (record allocation { withdrawn_amount = withdrawn })
                  s.allocations;
          }))
  unfolding burn_and_send
  burn_and_send-IsPaidOut info allocation amount withdrawn s sum =
      let new : Allocation = record allocation { withdrawn_amount = withdrawn } in
      Ensures-bind λ token e. Ensures-pure (record {
        payment = refl;
        burnt = ok_or-eq-ok _ (cw20.execute_burn info amount s.token) e;
        own_allocation =
            rw sum (ground (arith, lookup-insert info.sender info.sender new s.allocations));
        other_allocations =
            λ j differs. ground (arith, lookup-insert info.sender j new s.allocations);
        same_config = refl;
      })

  -- A successful withdrawal is made when withdrawals are open. It burns the smaller of what the
  -- schedule lets out and the balance, which is not 0, and pays the same amount of untrn to the
  -- sender; what is withdrawn of the sender's allocation grows by it, and no other allocation and
  -- nothing of the configuration changes.
  pub withdraw-PaysOut :
      (env : Env) (info : MessageInfo) (s : Store Token)
      → Ensures (PaysOut env info s) (execute_withdraw cw cw20 untrn env info s)
  unfolding execute_withdraw
  withdraw-PaysOut env info s = Ensures-bind λ opened set. Ensures-bind λ _ early.
      Ensures-bind λ allocation found. Ensures-bind λ max_amount e. Ensures-bind λ _ _.
        Ensures-bind λ balance b. Ensures-bind λ _ positive. Ensures-bind λ withdrawn w.
          Ensures-mono
            (λ r done. (
              opened,
              allocation,
              max_amount,
              balance,
              ok_or-eq-ok when_withdrawable_is_not_configured s.config.when_withdrawable set,
              ground (arith, early),
              ok_or-eq-ok std_error (lookup info.sender s.allocations) found,
              e,
              ok_or-eq-ok std_error (cw20.balance s.token info.sender) b,
              ground (arith, positive),
              done,
            ))
            (burn_and_send-IsPaidOut info allocation (min max_amount balance) withdrawn s
              (ground (arith, w)))

  -- For a sender whose address is valid: a successful withdrawal pays exactly what the query of
  -- the withdrawable amount answers before it.
  pub withdraw-query :
      (env : Env) (info : MessageInfo) (s : Store Token) (r : Store Token × List Payment)
      → cw.addr_validate info.sender ≡ some info.sender
      → execute_withdraw cw cw20 untrn env info s ≡ ok r
      → (amount : ℕ) × (query_withdrawable_amount cw cw20 untrn env info.sender s ≡ ok amount)
        × (r.1 ≡ record { recipient = info.sender; amount = amount } ∷ [])
  unfolding query_withdrawable_amount ◌>>=◌
  withdraw-query env info s r known h =
      let (opened, allocation, max_amount, balance, _, _, found, e, b, _, done) =
        (withdraw-PaysOut env info s).holds r h in
      (min max_amount balance, rw (known, found, e, b) refl, done.payment)
