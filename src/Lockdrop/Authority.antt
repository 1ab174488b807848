-- ===== src/Lockdrop/Authority.antt =====
-- Who may call the messages of the lockdrop, and when.
use neutron_tge_contracts.Prelude.{
  ℕ, ◌≤◌, ◌<◌, ◌≡◌, sym, ◌∙◌, ◌⊎◌, inl, inr, Option, none, some, arith, not, ◌&&◌, ◌==◌, Bool,
  Bool-cases,
}
use neutron_tge_contracts.Prelude.Map.{lookup}
use neutron_tge_contracts.Prelude.Result.{
  ok, reject_if, ok_or-eq-ok, Ensures, Ensures-bind, Ensures-pure,
}
use neutron_tge_contracts.Cosmwasm.{Addr, Denom, Cosmwasm, MessageInfo, Env}
use neutron_tge_contracts.Vesting.Types.{OwnershipProposal}
use neutron_tge_contracts.Auction.Types.{PoolType}
use neutron_tge_contracts.Lockdrop.Types.{
  Config, PoolInfo, UserInfo, Store, std_error, unauthorized,
}
use neutron_tge_contracts.Lockdrop.Storage.{pool_of}
use neutron_tge_contracts.Lockdrop.Amounts.{lock_end}
use neutron_tge_contracts.Lockdrop.Limits.{locked_at, closed_at, windows_end-eq}
use neutron_tge_contracts.Lockdrop.Chain.{Chain, Astroport, Ownership}
use neutron_tge_contracts.Lockdrop.Admin.{
  Cw20ReceiveMsg, handle_update_config, handle_set_token_info, handle_increasing_ntrn_incentives,
  handle_initialize_pool, receive_cw20,
}
use neutron_tge_contracts.Lockdrop.Lockups.{handle_increase_lockup, handle_withdraw_from_lockup}
use neutron_tge_contracts.Lockdrop.Claim.{handle_claim_rewards_and_unlock_for_lockup}
use neutron_tge_contracts.Lockdrop.Migration.{handle_migrate_liquidity_to_pcl_pools}
use neutron_tge_contracts.Lockdrop.Execute.{
  ExecuteMsg, increase_lockup_for, receive, increase_ntrn_incentives, update_config, set_token_info,
  withdraw_from_lockup, claim_rewards_and_optionally_unlock, callback_msg, propose_new_owner_msg,
  drop_ownership_proposal_msg, claim_ownership_msg, migrate_liquidity_to_pcl_pools, handle_callback,
  execute,
}

-- What the documentation of the ownership proposals says of a success.
pub record IsOwnership (ownership : Ownership) : Type 0 where
  pub propose_by_owner :
      (info : MessageInfo) (env : Env) (new_owner expires_in : ℕ) (owner : Addr)
      (p : OwnershipProposal)
      → ownership.propose_new_owner info env new_owner expires_in owner ≡ some p
      → info.sender ≡ owner
  pub drop_by_owner :
      (info : MessageInfo) (owner : Addr)
      → ownership.drop_ownership_proposal info owner ≡ some tt
      → info.sender ≡ owner
  pub claim_by_proposed :
      (info : MessageInfo) (env : Env) (proposal : Option OwnershipProposal) (new_owner : Addr)
      → ownership.claim_ownership info env proposal ≡ some new_owner
      → (p : OwnershipProposal) × (proposal ≡ some p)
        × (info.sender ≡ p.owner)
        × (new_owner ≡ p.owner)
        × (env.time ≤ p.ttl)

-- The auction hands the LP tokens of a pool over through the pool's own LP token.
pub record HandsOver (cw : Cosmwasm) (info : MessageInfo) (msg : Cw20ReceiveMsg) (s : Store)
    : Type 0 where
  pub pool_type : PoolType
  pub share : ℕ
  pub pool_info : PoolInfo
  pub hook : msg.hook ≡ some (pool_type, share)
  pub from_auction : cw.addr_validate msg.sender ≡ some s.config.auction_contract
  pub stored : (pool_of pool_type s).pool_info ≡ some pool_info
  pub by_token : info.sender ≡ pool_info.lp_token
  pub positive : 0 < msg.amount

-- The sender and the time that a message is for, with the new owner that it leaves.
abbrev pub Entitled : Cosmwasm → Env → MessageInfo → ExecuteMsg → Store → Store → Type 0
Entitled cw env info (increase_lockup_for user pool_type amount duration) s s' =
    (info.sender ≡ s.config.auction_contract) × (env.time < locked_at s.config)
Entitled cw env info (withdraw_from_lockup user pool_type duration amount) s s' =
    (info.sender ≡ s.config.auction_contract) × (env.time < closed_at s.config)
Entitled cw env info (receive msg) s s' = HandsOver cw info msg s
Entitled cw env info increase_ntrn_incentives s s' = env.time < closed_at s.config
Entitled cw env info (update_config new_config) s s' = info.sender ≡ s.config.owner
Entitled cw env info (set_token_info atom_token usdc_token generator) s s' =
    (info.sender ≡ s.config.owner) ⊎ (info.sender ≡ s.config.token_info_manager)
Entitled cw env info (claim_rewards_and_optionally_unlock pool_type duration withdraw) s s' =
    (closed_at s.config ≤ env.time) × ((user : UserInfo) × (lookup info.sender s.users ≡ some user))
Entitled cw env info (callback_msg msg) s s' = info.sender ≡ env.contract
Entitled cw env info (propose_new_owner_msg owner expires_in) s s' = info.sender ≡ s.config.owner
Entitled cw env info drop_ownership_proposal_msg s s' = info.sender ≡ s.config.owner
Entitled cw env info claim_ownership_msg s s' =
    (p : OwnershipProposal) × (s.ownership_proposal ≡ some p)
    × (info.sender ≡ p.owner)
    × (env.time ≤ p.ttl)
    × (s'.config.owner ≡ info.sender)
Entitled cw env info (migrate_liquidity_to_pcl_pools none) s s' =
    (user : UserInfo) × (lookup info.sender s.users ≡ some user)
Entitled cw env info (migrate_liquidity_to_pcl_pools (some address)) s s' =
    (addr : Addr) × (user : UserInfo) × (cw.addr_validate address ≡ some addr)
    × (lookup addr s.users ≡ some user)

locked_at_lem : (config : Config) (n : ℕ) → lock_end config ≡ ok n → n ≡ locked_at config
locked_at_lem config n h = ground arith

owner_or_manager :
    (sender owner manager : ℕ)
    → reject_if (not (sender == owner) && not (sender == manager)) unauthorized ≡ ok tt
    → (sender ≡ owner) ⊎ (sender ≡ manager)
owner_or_manager sender owner manager h = elim (Bool-cases (sender == owner)) [
  | inl own ↦ inl (ground (arith, own))
  | inr other ↦ inr (ground (arith, h, other))
]

module _ (cw : Cosmwasm) (env : Env) (info : MessageInfo) (s : Store) where
  receive-HandsOver :
      (msg : Cw20ReceiveMsg)
      → Ensures (λ r. HandsOver cw info msg s) (receive_cw20 cw env info msg s)
  unfolding receive_cw20 handle_initialize_pool
  receive-HandsOver msg = Ensures-bind λ sender known. Ensures-bind λ _ amount.
      Ensures-bind λ (pool_type, share) hook. Ensures-bind λ _ own. Ensures-bind λ pool_info found.
        Ensures-bind λ _ token. record {
          holds = λ r _.
              let is_auction : sender ≡ s.config.auction_contract = ground (arith, own) in
              record {
                pool_type = pool_type;
                share = share;
                pool_info = pool_info;
                hook = ok_or-eq-ok std_error msg.hook hook;
                from_auction =
                    rw (sym is_auction) (ok_or-eq-ok std_error (cw.addr_validate msg.sender) known);
                stored = ok_or-eq-ok std_error (pool_of pool_type s).pool_info found;
                by_token = ground (arith, token);
                positive = ground (arith, amount);
              };
        }

  increase-IsInTime :
      (chain : Chain) (astroport : Astroport) (user : ℕ) (pool_type : PoolType)
      (duration amount : ℕ)
      → Ensures
          (λ r. (info.sender ≡ s.config.auction_contract) × (env.time < locked_at s.config))
          (handle_increase_lockup cw chain astroport env info user pool_type duration amount s)
  unfolding handle_increase_lockup
  increase-IsInTime chain astroport user pool_type duration amount = Ensures-bind λ _ own.
      Ensures-bind λ locked e. Ensures-bind λ _ before. record {
        holds =
            λ r _. (ground (arith, own), ground (arith, before, locked_at_lem s.config locked e));
      }

  withdraw-IsInTime :
      (chain : Chain) (astroport : Astroport) (user : ℕ) (pool_type : PoolType)
      (duration amount : ℕ)
      → Ensures
          (λ r. (info.sender ≡ s.config.auction_contract) × (env.time < closed_at s.config))
          (handle_withdraw_from_lockup cw chain astroport env info user pool_type duration amount s)
  unfolding handle_withdraw_from_lockup
  withdraw-IsInTime chain astroport user pool_type duration amount = Ensures-bind λ _ own.
      Ensures-bind λ closed e. Ensures-bind λ _ before. record {
        holds =
            λ r _. (ground (arith, own), ground (arith, before, windows_end-eq s.config closed e));
      }

  claim-IsInTime :
      (chain : Chain) (astroport : Astroport) (pool_type : PoolType) (duration : ℕ) (w : Bool)
      → Ensures
          (λ r.
            (closed_at s.config ≤ env.time)
            × ((user : UserInfo) × (lookup info.sender s.users ≡ some user)))
          (handle_claim_rewards_and_unlock_for_lockup cw chain astroport env info pool_type duration
            w s)
  unfolding handle_claim_rewards_and_unlock_for_lockup
  claim-IsInTime chain astroport pool_type duration w = Ensures-bind λ closed e.
      Ensures-bind λ _ after. Ensures-bind λ _ _. Ensures-bind λ user found. record {
        holds = λ r _. (
          ground (arith, after, windows_end-eq s.config closed e),
          (user, ok_or-eq-ok std_error (lookup info.sender s.users) found),
        );
      }

-- If the package of the ownership proposals does as it documents, a message that succeeds has the
-- following sender and time. An increase and a withdrawal of a position come from the auction,
-- before the end of the lock window and of both windows; the LP tokens of a pool come from the
-- auction, through the LP token of that pool, a positive amount; incentives come before the end of
-- both windows; the configuration and a proposal of a new owner and its removal come from the
-- owner, the tokens from the owner or the token info manager, a callback from the contract itself.
-- A claim comes after the end of both windows from a user who is stored, and a migration is for
-- one. The ownership goes to the sender, who is the proposed owner, before the proposal expires.
pub execute-IsEntitled :
    (cw : Cosmwasm) (chain : Chain) (astroport : Astroport) (ownership : Ownership)
    (lawful : IsOwnership ownership) (untrn : Denom) (env : Env) (info : MessageInfo)
    (msg : ExecuteMsg) (s : Store)
    → Ensures
        (λ r. Entitled cw env info msg s r.0)
        (execute cw chain astroport ownership untrn env info msg s)
unfolding execute
execute-IsEntitled cw chain astroport o lawful untrn env info (increase_lockup_for u p a d) s =
    increase-IsInTime cw env info s chain astroport u p d a
execute-IsEntitled cw chain astroport o lawful untrn env info (withdraw_from_lockup u p d a) s =
    withdraw-IsInTime cw env info s chain astroport u p d a
execute-IsEntitled cw chain astroport o lawful untrn env info (receive msg) s =
    receive-HandsOver cw env info s msg
execute-IsEntitled cw chain astroport o lawful untrn env info increase_ntrn_incentives s =
    unfold handle_increasing_ntrn_incentives in
    Ensures-bind λ closed e.
      Ensures-bind λ _ before. record {
        holds = λ r _. ground (arith, before, windows_end-eq s.config closed e);
      }
execute-IsEntitled cw chain astroport o lawful untrn env info (update_config new_config) s =
    unfold handle_update_config in
    Ensures-bind λ _ own. record { holds = λ r _. ground (arith, own) }
execute-IsEntitled cw chain astroport o lawful untrn env info (set_token_info a u g) s =
    unfold handle_set_token_info in
    Ensures-bind λ _ known. record {
      holds = λ r _. owner_or_manager info.sender s.config.owner s.config.token_info_manager known;
    }
execute-IsEntitled cw chain astroport o lawful untrn env info
      (claim_rewards_and_optionally_unlock p d w) s =
    claim-IsInTime cw env info s chain astroport p d w
execute-IsEntitled cw chain astroport o lawful untrn env info (callback_msg msg) s =
    unfold handle_callback in Ensures-bind λ _ own. record { holds = λ r _. ground (arith, own) }
execute-IsEntitled cw chain astroport o lawful untrn env info (propose_new_owner_msg n e) s =
    Ensures-bind λ p saved. record {
      holds = λ r _.
          lawful.propose_by_owner info env n e s.config.owner p
            (ok_or-eq-ok std_error (o.propose_new_owner info env n e s.config.owner) saved);
    }
execute-IsEntitled cw chain astroport o lawful untrn env info drop_ownership_proposal_msg s =
    Ensures-bind λ _ removed. record {
      holds = λ r _.
          lawful.drop_by_owner info s.config.owner
            (ok_or-eq-ok std_error (o.drop_ownership_proposal info s.config.owner) removed);
    }
execute-IsEntitled cw chain astroport o lawful untrn env info claim_ownership_msg s =
    Ensures-bind λ new_owner claimed.
      let (p, stored, sender, same, in_time) =
        lawful.claim_by_proposed info env s.ownership_proposal new_owner
          (ok_or-eq-ok std_error (o.claim_ownership info env s.ownership_proposal) claimed) in
      Ensures-pure (p, stored, sender, in_time, same ∙ sym sender)
execute-IsEntitled cw chain astroport o lawful untrn env info (migrate_liquidity_to_pcl_pools none)
      s =
    unfold handle_migrate_liquidity_to_pcl_pools in
    Ensures-bind λ user same. Ensures-bind λ old_info found. record {
      holds = λ r _.
          let own : user ≡ info.sender = cc same in
          (old_info, rw (sym own) (ok_or-eq-ok std_error (lookup user s.users) found));
    }
execute-IsEntitled cw chain astroport o lawful untrn env info
      (migrate_liquidity_to_pcl_pools (some address)) s =
    unfold handle_migrate_liquidity_to_pcl_pools in
    Ensures-bind λ user known. Ensures-bind λ old_info found. record {
      holds = λ r _. (
        user,
        old_info,
        ok_or-eq-ok std_error (cw.addr_validate address) known,
        ok_or-eq-ok std_error (lookup user s.users) found,
      );
    }
