-- ===== src/Lockdrop/Tests/Authority.antt =====
-- The ownership of the lockdrop on concrete data.
use neutron_tge_contracts.Prelude.{
  ◌+◌, ◌≤◌, ◌≡◌, refl, Option, none, some, [], arith, ◌==◌, ◌&&◌, leb, if◌then◌else◌,
}
use neutron_tge_contracts.Prelude.Result.{ok, ◌>>=◌}
use neutron_tge_contracts.Cosmwasm.{Addr, MessageInfo, Env}
use neutron_tge_contracts.Samples.{exact_cw}
use neutron_tge_contracts.Vesting.Types.{OwnershipProposal}
use neutron_tge_contracts.Lockdrop.Types.{Store}
use neutron_tge_contracts.Lockdrop.Chain.{Ownership}
use neutron_tge_contracts.Lockdrop.Execute.{claim_ownership_msg, execute}
use neutron_tge_contracts.Lockdrop.Authority.{IsOwnership, Entitled, execute-IsEntitled}
use neutron_tge_contracts.Lockdrop.Samples.{quiet_chain, exact_astroport, sample_store, at, from}

abbrev new_owner_of : MessageInfo → Env → Option OwnershipProposal → Option Addr
new_owner_of info env none = none
new_owner_of info env (some p) =
    if info.sender == p.owner && leb env.time p.ttl then some p.owner else none

-- The owner proposes and drops, and the proposed owner claims in time.
abbrev checked_ownership : Ownership
checked_ownership = record {
  propose_new_owner = λ info env owner expires current.
      if info.sender == current
      then some (record { owner = owner; ttl = env.time + expires })
      else none;
  drop_ownership_proposal = λ info current. if info.sender == current then some tt else none;
  claim_ownership = new_owner_of;
}

new_owner_is_proposed :
    (info : MessageInfo) (env : Env) (proposal : Option OwnershipProposal) (new_owner : Addr)
    → new_owner_of info env proposal ≡ some new_owner
    → (p : OwnershipProposal) × (proposal ≡ some p)
      × (info.sender ≡ p.owner)
      × (new_owner ≡ p.owner)
      × (env.time ≤ p.ttl)
new_owner_is_proposed info env none new_owner h = cc
new_owner_is_proposed info env (some p) new_owner h =
    (p, refl, ground arith, ground arith, ground arith)

checked_ownership-IsOwnership : IsOwnership checked_ownership
checked_ownership-IsOwnership = record {
  propose_by_owner = λ info env new_owner expires_in owner p h. ground arith;
  drop_by_owner = λ info owner h. ground arith;
  claim_by_proposed = new_owner_is_proposed;
}

-- The owner has proposed 8 until 5000.
abbrev proposed_store : Store
proposed_store = record sample_store {
  ownership_proposal = some (record { owner = 8; ttl = 5000 });
}

abbrev claimed_store : Store
claimed_store = record sample_store { config = record (sample_store.config) { owner = 8 } }

ownership_is_claimed :
    execute exact_cw quiet_chain exact_astroport checked_ownership 9
      (at 4000)
      (from 8)
      claim_ownership_msg
      proposed_store
    ≡ ok (claimed_store, [])
unfolding execute ◌>>=◌
ownership_is_claimed = refl

execute-IsEntitled_example :
    Entitled exact_cw (at 4000) (from 8) claim_ownership_msg proposed_store claimed_store
execute-IsEntitled_example =
    (execute-IsEntitled exact_cw quiet_chain exact_astroport checked_ownership
        checked_ownership-IsOwnership 9 (at 4000) (from 8) claim_ownership_msg proposed_store).holds
      (claimed_store, []) ownership_is_claimed
