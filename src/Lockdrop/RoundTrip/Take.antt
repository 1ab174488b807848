-- ===== src/Lockdrop/RoundTrip/Take.antt =====
-- What the withdrawal of the whole of a new position leaves.
use neutron_tge_contracts.Prelude.{
  ℕ, ◌+◌, ◌-◌, ◌≡◌, refl, sym, ap, ◌∙◌, true, false, none, some, [], arith, leb, ◌==◌,
  if◌then◌else◌, Bool-cases, inl, inr,
}
use neutron_tge_contracts.Prelude.Map.{lookup, insert, lookup-insert}
use neutron_tge_contracts.Prelude.Result.{ok, Yields, Yields-bind, Yields-pure}
use neutron_tge_contracts.Cosmwasm.{Addr, Cosmwasm}
use neutron_tge_contracts.Auction.Types.{PoolType}
use neutron_tge_contracts.Lockdrop.Types.{PoolInfo, LockupInfoV2, v2, PoolData, Store}
use neutron_tge_contracts.Lockdrop.Chain.{Chain, Astroport}
use neutron_tge_contracts.Lockdrop.Storage.{pool_of, set_pool, position, remove_position}
use neutron_tge_contracts.Lockdrop.Amounts.{calculate_weight}
use neutron_tge_contracts.Lockdrop.Lockups.{load_user, store_position, take_from_lockup}
use neutron_tge_contracts.Lockdrop.Totals.{total_of}
use neutron_tge_contracts.Lockdrop.Limits.Stored.{pool_of-set_pool, config-set_pool}
use neutron_tge_contracts.Lockdrop.RoundTrip.Open.{
  new_position, grown_pool, opened_pool, opened_user, opened,
}
use neutron_tge_contracts.Lockdrop.RoundTrip.Removed.{
  users-set_pool, IsRestored, restored_positions, taken-grown, Removes, store_position-Removes,
}

module _ (cw : Cosmwasm) (chain : Chain) (astroport : Astroport) where
  -- The storage with the new position: what the steps of the withdrawal find in it.
  module _ (pool_type : PoolType) (user duration amount weight unlock total : ℕ) (info : PoolInfo)
      (s : Store) (new : position user duration (pool_of pool_type s).lockups ≡ none)
      (loaded : (pool_of pool_type s).pool_info ≡ some info)
      (weighed : calculate_weight amount duration s.config ≡ ok weight)
      (summed : total ≡ total_of user (pool_of pool_type s).user_totals + amount) where
    abbrev after : Store
    after = opened pool_type user duration amount weight unlock total info s

    abbrev after_pool : PoolData
    after_pool = opened_pool user duration amount weight unlock total info (pool_of pool_type s)

    pub after-pool_of : pool_of pool_type after ≡ after_pool
    after-pool_of = pool_of-set_pool pool_type after_pool _

    after-load_user :
        (j : Addr) → load_user j after ≡ (if j == user then opened_user user s else load_user j s)
    after-load_user j = elim (Bool-cases (j == user)) [
      | inl here ↦
          rw
            (
              users-set_pool pool_type after_pool
                  (record s { users = insert user (opened_user user s) s.users }),
              lookup-insert user j (opened_user user s) s.users,
              here,
            )
            refl
      | inr there ↦
          rw
            (
              users-set_pool pool_type after_pool
                  (record s { users = insert user (opened_user user s) s.users }),
              lookup-insert user j (opened_user user s) s.users,
              there,
            )
            refl
    ]

    pub after-config : after.config ≡ s.config
    after-config = config-set_pool pool_type after_pool _

    -- The storage that the withdrawal writes.
    restored :
        (p' : PoolData) (s' : Store)
        → p' ≡ record after_pool { lockups = remove_position user duration after_pool.lockups }
        → s'.config ≡ after.config
        → ((j : Addr)
            → load_user j s' ≡ (
                if j == user
                then record (load_user user after) {
                  lockup_positions_index = (load_user user after).lockup_positions_index - 1;
                }
                else load_user j after))
        → IsRestored pool_type s (
          set_pool pool_type
              (record p' {
                pool_info = some info;
                user_totals = insert user (total - amount) p'.user_totals;
              })
              s',
          [],
        )
    restored p' s' same config users =
        let p = pool_of pool_type s in
        let last : PoolData = record p' {
          pool_info = some info;
          user_totals = insert user (total - amount) p'.user_totals;
        } in
        let stored = pool_of-set_pool pool_type last s' in
        let totals : p'.user_totals ≡ insert user total p.user_totals = rw same refl in
        let lockups : p'.lockups ≡ remove_position user duration after_pool.lockups =
          rw same refl in
        let paid : total - amount ≡ total_of user p.user_totals = omega (arith, summed) in
        let own : load_user user after ≡ opened_user user s =
          ground (arith, after-load_user user) in
        let index : (load_user user s).lockup_positions_index + 1 - 1
            ≡ (load_user user s).lockup_positions_index =
          omega arith in
        record {
          messages = refl;
          same_pool = rw stored (sym loaded);
          same_positions = λ j.
              rw (stored, lockups)
                (restored_positions user duration (v2 (new_position amount unlock)) p.lockups j
                  new);
          same_totals = λ j. elim (Bool-cases (j == user)) [
            | inl here ↦
                let e : j ≡ user = ground arith in
                rw (stored, lookup-insert user j (total - amount) p'.user_totals, here) (rw e paid)
            | inr there ↦
                rw
                  (
                    stored,
                    lookup-insert user j (total - amount) p'.user_totals,
                    there,
                    totals,
                    lookup-insert user j total p.user_totals,
                    there,
                  )
                  refl
          ];
          same_users = λ j. elim (Bool-cases (j == user)) [
            | inl here ↦
                let e : j ≡ user = ground arith in
                let less : load_user j s' ≡ record (load_user user after) {
                  lockup_positions_index = (load_user user after).lockup_positions_index - 1;
                } =
                  rw here at (users j) in
                rw (users-set_pool pool_type last s') (less ∙ (rw (own, index, e) refl))
            | inr there ↦
                let less : load_user j s' ≡ load_user j after = rw there at (users j) in
                let more : load_user j after ≡ load_user j s = rw there at (after-load_user j) in
                rw (users-set_pool pool_type last s') (less ∙ more)
          ];
          same_config = config-set_pool pool_type last s' ∙ config ∙ after-config;
        }

    abbrev emptied : LockupInfoV2
    emptied = record (new_position amount unlock) { lp_units_locked = 0; withdrawal_flag = false }

    take-steps :
        Yields
          (Removes cw chain astroport user duration (pool_of pool_type after) after)
          (store_position cw chain astroport user duration emptied (pool_of pool_type after) after)
        → Yields (IsRestored pool_type s) (
            take_from_lockup cw chain astroport pool_type user duration amount
              (grown_pool amount weight info)
              (new_position amount unlock)
              false
              after)
    unfolding take_from_lockup
    take-steps removed =
        let fits : leb amount amount ≡ true = ground arith in
        let nothing : amount - amount ≡ 0 = omega arith in
        let p' = removed.result.0 in
        let same : p'
            ≡ record after_pool { lockups = remove_position user duration after_pool.lockups } =
          removed.satisfies.0
          ∙ ap (λ (p : PoolData). record p { lockups = remove_position user duration p.lockups })
              after-pool_of in
        let totals : p'.user_totals ≡ insert user total (pool_of pool_type s).user_totals =
          ap (λ (p : PoolData). p.user_totals) same in
        let found : lookup user p'.user_totals ≡ some total =
          ap (lookup user) totals
          ∙ (ground (arith, lookup-insert user user total (pool_of pool_type s).user_totals)) in
        let covered : leb amount total ≡ true = ground (arith, summed) in
        Yields-bind _ 0 (rw (fits, nothing) refl) (
          Yields-bind _ info
            (rw after-config
              (taken-grown cw chain astroport amount duration weight s.config info weighed))
            (Yields-bind _ removed.result removed.returns (
              Yields-bind _ (total - amount) (rw (found, covered) refl) (
                Yields-pure
                  (restored p' removed.result.1 same removed.satisfies.1 removed.satisfies.2)))))

    pub take-IsRestored : Yields (IsRestored pool_type s) (
        take_from_lockup cw chain astroport pool_type user duration amount
          (grown_pool amount weight info)
          (new_position amount unlock)
          false
          after)
    take-IsRestored =
        let own : load_user user after ≡ opened_user user s =
          ground (arith, after-load_user user) in
        take-steps (
          store_position-Removes cw chain astroport user duration emptied (pool_of pool_type after)
            after refl (rw own (omega arith)))
