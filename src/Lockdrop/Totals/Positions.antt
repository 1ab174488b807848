-- ===== src/Lockdrop/Totals/Positions.antt =====
-- A position that is read, saved, closed or removed, in the amounts that are counted.
use neutron_tge_contracts.Prelude.{
  ℕ, ◌+◌, ◌≡◌, refl, ◌∙◌, Option, none, some, arith, Option-cases, inl, inr,
}
use neutron_tge_contracts.Prelude.Map.{
  Map, lookup, insert, erase, measure_at, sum-insert, sum-erase,
}
use neutron_tge_contracts.Prelude.Result.{
  ok_or-eq-ok, Ensures, Ensures-bind, Ensures-mono, Ensures-pure,
}
use neutron_tge_contracts.Cosmwasm.{Addr}
use neutron_tge_contracts.Lockdrop.Types.{
  PoolInfo, LockupInfoV2, StoredLockup, v1, v2, PoolData, std_error,
}
use neutron_tge_contracts.Lockdrop.Chain.{Chain, Astroport}
use neutron_tge_contracts.Lockdrop.Storage.{
  positions_of, position, upgrade, compatible_load, compatible_may_load,
}
use neutron_tge_contracts.Lockdrop.Totals.{transferred_of, open_units, units_of, units_held}

-- The position that is read is the stored one, as far as its LP tokens go.
pub record IsRead (stored : StoredLockup) (info : LockupInfoV2) : Type 0 where
  pub same_transferred : info.astroport_lp_transferred ≡ transferred_of stored
  pub same_units : open_units info ≡ units_of stored

-- No LP tokens of the position are transferred, if there is one.
pub record IsOpen (found : Option StoredLockup) : Type 0 where
  pub is_open : (stored : StoredLockup) → found ≡ some stored → transferred_of stored ≡ none

abbrev pub LoadsFrom : PoolData → Addr → ℕ → LockupInfoV2 → Type 0
LoadsFrom p user duration info =
    (stored : StoredLockup) × (position user duration p.lockups ≡ some stored) × IsRead stored info

abbrev pub found_units : Option LockupInfoV2 → ℕ
found_units none = 0
found_units (some info) = open_units info

abbrev pub found_transferred : Option LockupInfoV2 → Option ℕ
found_transferred none = none
found_transferred (some info) = info.astroport_lp_transferred

-- What is found is what is stored, and open.
pub record IsFound (p : PoolData) (user : Addr) (duration : ℕ) (found : Option LockupInfoV2)
    : Type 0 where
  pub same_units : found_units found ≡ measure_at units_of (position user duration p.lockups)
  pub is_open : found_transferred found ≡ none

module _ (chain : Chain) (astroport : Astroport) where
  upgrade-IsRead :
      (pool : Option PoolInfo) (generator : Option Addr) (stored : StoredLockup)
      → Ensures (IsRead stored) (upgrade chain astroport pool generator stored)
  unfolding upgrade
  upgrade-IsRead pool generator (v1 old) = Ensures-bind λ address _.
      Ensures-bind λ debt _. Ensures-pure (record { same_transferred = refl; same_units = refl })
  upgrade-IsRead pool generator (v2 info) =
      Ensures-pure (record { same_transferred = refl; same_units = refl })

  pub compatible_load-LoadsFrom :
      (p : PoolData) (user : Addr) (duration : ℕ) (generator : Option Addr)
      → Ensures
          (LoadsFrom p user duration)
          (compatible_load chain astroport p user duration generator)
  unfolding compatible_load
  compatible_load-LoadsFrom p user duration generator = Ensures-bind λ stored e.
      Ensures-mono
        (λ info read. (stored, ok_or-eq-ok std_error (position user duration p.lockups) e, read))
        (upgrade-IsRead p.pool_info generator stored)

  pub compatible_may_load-IsFound :
      (p : PoolData) (user : Addr) (duration : ℕ) (generator : Option Addr)
      → IsOpen (position user duration p.lockups)
      → Ensures
          (IsFound p user duration)
          (compatible_may_load chain astroport p user duration generator)
  unfolding compatible_may_load
  compatible_may_load-IsFound p user duration generator h =
      elim (Option-cases (position user duration p.lockups)) [
        | inl e ↦ rw e (Ensures-pure (record { same_units = rw e refl; is_open = refl }))
        | inr (stored, e) ↦ rw e (
            Ensures-bind λ info loaded.
              let read = (upgrade-IsRead p.pool_info generator stored).holds info loaded in
              Ensures-pure (record {
                same_units = rw e read.same_units;
                is_open = read.same_transferred ∙ h.is_open stored e;
              }))
      ]

-- The units of a user's positions after one is saved, or removed.
pub units-insert :
    (duration : ℕ) (info : LockupInfoV2) (m : Map StoredLockup)
    → units_held (insert duration (v2 info) m) + measure_at units_of (lookup duration m)
      ≡ units_held m + open_units info
units-insert duration info m = sum-insert units_of duration (v2 info) m

pub units-erase :
    (duration : ℕ) (stored : StoredLockup) (m : Map StoredLockup)
    → lookup duration m ≡ some stored
    → units_held (erase duration m) + units_of stored ≡ units_held m
units-erase duration stored m found = sum-erase units_of duration stored m found

-- A position is saved with the units that were read.
pub units-save :
    (user : Addr) (duration : ℕ) (info info' : LockupInfoV2) (p : PoolData)
    → LoadsFrom p user duration info
    → open_units info' ≡ open_units info
    → units_held (insert duration (v2 info') (positions_of user p.lockups))
      ≡ units_held (positions_of user p.lockups)
units-save user duration info info' p (stored, e, read) same =
    let measured : measure_at units_of (lookup duration (positions_of user p.lockups))
        ≡ units_of stored =
      rw e refl in
    omega (
      arith,
      measured,
      same,
      read.same_units,
      units-insert duration info' (positions_of user p.lockups),
    )
