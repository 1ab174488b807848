-- ===== src/Auction/Pool/Split.antt =====
-- How `set_pool_size` of contracts/auction/src/contract.rs divides the NTRN by the prices.
use neutron_tge_contracts.Prelude.{
  ℕ, ◌+◌, ◌*◌, ◌/◌, ◌≤◌, ◌<◌, ◌≡◌, refl, sym, some, List, [], ◌∷◌, arith,
}
use neutron_tge_contracts.Prelude.Result.{ok, ok_or-eq-ok, Ensures, Ensures-bind, Ensures-pure}
use neutron_tge_contracts.Cosmwasm.{Cosmwasm, IsExact, Env, decimal_one}
use neutron_tge_contracts.Auction.Types.{overflow, panicked, query_failed, Msg, Store}
use neutron_tge_contracts.Auction.Pool.{
  PriceFeedRate, Querier, usdc_share, compute_sizes, two_rates, execute_set_pool_size,
}
use neutron_tge_contracts.Auction.Pool.Sizes.{Sizes, set_pool_size-Sizes}

-- The ATOM deposits in USDC, at the prices `atom_price` and `usdc_price`.
abbrev pub in_usdc : ℕ → ℕ → ℕ → ℕ
in_usdc atom_price usdc_price atom_amount =
    atom_amount * decimal_one * decimal_one / (usdc_price * decimal_one / atom_price) / decimal_one

-- The NTRN that goes with USDC: the part that USDC has of the value of all deposits.
abbrev pub usdc_part : ℕ → ℕ → ℕ → ℕ → ℕ → ℕ
usdc_part atom_price usdc_price ntrn_amount usdc_amount atom_amount =
    ntrn_amount
    * (usdc_amount * decimal_one / (usdc_amount + in_usdc atom_price usdc_price atom_amount))
    / decimal_one

-- The prices are the two that the price feed answers, ATOM first; the ATOM price is not too old.
pub record IsSplit (querier : Querier) (env : Env) (s s' : Store) (ntrn_amount : ℕ) : Type 0 where
  pub atom_rate : PriceFeedRate
  pub usdc_rate : PriceFeedRate
  pub answered : querier.exchange_rates ≡ some (atom_rate ∷ usdc_rate ∷ [])
  pub is_recent : env.time ≤ atom_rate.resolve_time + s.config.max_exchange_rate_age
  pub priced : (0 < atom_rate.rate) × (0 < usdc_rate.rate * decimal_one / atom_rate.rate)
  pub balance : querier.ntrn_balance ≡ some ntrn_amount
  pub by_value :
      s'.state.usdc_ntrn_size
      ≡ usdc_part atom_rate.rate usdc_rate.rate ntrn_amount s.state.total_usdc_deposited
          s.state.total_atom_deposited

two_rates_lem :
    (rates : List PriceFeedRate) (a u : PriceFeedRate)
    → two_rates rates ≡ ok (a, u)
    → rates ≡ a ∷ u ∷ []
two_rates_lem [] a u h = cc
two_rates_lem (x ∷ []) a u h = cc
two_rates_lem (x ∷ y ∷ []) a u h = cc
two_rates_lem (x ∷ y ∷ z ∷ zs) a u h = cc

-- The share of USDC and the two prices it needs.
abbrev Share : ℕ → ℕ → ℕ → ℕ → ℕ → Type 0
Share atom_price usdc_price usdc_amount atom_amount share =
    (share ≡ usdc_amount * decimal_one / (usdc_amount + in_usdc atom_price usdc_price atom_amount))
    × (0 < atom_price)
    × (0 < usdc_price * decimal_one / atom_price)

usdc_share_lem :
    (cw : Cosmwasm) (exact : IsExact cw) (sqrt : ℕ → ℕ) (a u : PriceFeedRate)
    (usdc_amount atom_amount : ℕ)
    → Ensures
        (Share a.rate u.rate usdc_amount atom_amount)
        (usdc_share cw sqrt a u usdc_amount atom_amount)
unfolding usdc_share
usdc_share_lem cw exact sqrt a u usdc_amount atom_amount = Ensures-bind λ ratio r.
    Ensures-bind λ scaled d. Ensures-bind λ value v. Ensures-bind λ all_value total. record {
      holds = λ share s.
          let (ratio_is, priced) =
            exact.from_ratio_floor u.rate a.rate ratio
              (ok_or-eq-ok panicked (cw.from_ratio u.rate a.rate) r) in
          let scaled_is =
            exact.decimal_of_exact atom_amount scaled
              (ok_or-eq-ok overflow (cw.decimal_of atom_amount) d) in
          let (value_is, positive) =
            exact.div_decimal_floor scaled ratio value
              (ok_or-eq-ok panicked (cw.div_decimal scaled ratio) v) in
          let (share_is, _) =
            exact.from_ratio_floor usdc_amount all_value share
              (ok_or-eq-ok panicked (cw.from_ratio usdc_amount all_value) s) in
          let floor_is = exact.floor_decimal_floor value in
          let total_is : all_value ≡ usdc_amount + cw.floor_decimal value = ground (arith, total) in
          let all_is : all_value ≡ usdc_amount + in_usdc a.rate u.rate atom_amount =
            rw (total_is, floor_is, value_is, scaled_is, ratio_is) refl in
          (rw (share_is, all_is) refl, priced, rw (sym ratio_is) positive);
    }

-- The USDC part of the sizes.
compute_sizes_part :
    (cw : Cosmwasm) (exact : IsExact cw) (sqrt : ℕ → ℕ) (a u : PriceFeedRate)
    (ntrn_amount usdc_amount atom_amount : ℕ)
    → Ensures
        (λ sizes.
          (sizes.usdc_ntrn ≡ usdc_part a.rate u.rate ntrn_amount usdc_amount atom_amount)
          × (0 < a.rate)
          × (0 < u.rate * decimal_one / a.rate))
        (compute_sizes cw sqrt a u ntrn_amount usdc_amount atom_amount)
unfolding compute_sizes
compute_sizes_part cw exact sqrt a u ntrn_amount usdc_amount atom_amount = Ensures-bind λ share s.
    Ensures-bind λ usdc_ntrn m. Ensures-bind λ atom_ntrn _. Ensures-bind λ atom_lp _.
      Ensures-bind λ usdc_lp _.
        let (share_is, priced, positive) =
          (usdc_share_lem cw exact sqrt a u usdc_amount atom_amount).holds share s in
        let product =
          exact.mul_decimal_floor ntrn_amount share usdc_ntrn
            (ok_or-eq-ok panicked (cw.mul_decimal ntrn_amount share) m) in
        Ensures-pure (rw (product, share_is) refl, priced, positive)

set_pool_size-IsSplit :
    (cw : Cosmwasm) (exact : IsExact cw) (sqrt : ℕ → ℕ) (querier : Querier) (env : Env) (s : Store)
    → Ensures
        (λ r. (ntrn_amount : ℕ) × IsSplit querier env s r.0 ntrn_amount)
        (execute_set_pool_size cw sqrt querier env s)
unfolding execute_set_pool_size
set_pool_size-IsSplit cw exact sqrt querier env s = Ensures-bind λ _ _. Ensures-bind λ _ _.
    Ensures-bind λ _ _. Ensures-bind λ _ _. Ensures-bind λ ntrn_amount balance.
      Ensures-bind λ rates answer. Ensures-bind λ (atom_rate, usdc_rate) two.
        Ensures-bind λ oldest age. Ensures-bind λ _ recent. Ensures-bind λ _ _.
          Ensures-bind λ sizes computed.
            let (part, priced, positive) =
              (compute_sizes_part cw exact sqrt atom_rate usdc_rate ntrn_amount
                  s.state.total_usdc_deposited s.state.total_atom_deposited).holds
                sizes computed in
            let answered = ok_or-eq-ok query_failed querier.exchange_rates answer in
            Ensures-pure (
              ntrn_amount,
              record {
                atom_rate = atom_rate;
                usdc_rate = usdc_rate;
                answered = rw (sym (two_rates_lem rates atom_rate usdc_rate two)) answered;
                is_recent = ground (arith, age, recent);
                priced = (priced, positive);
                balance = ok_or-eq-ok query_failed querier.ntrn_balance balance;
                by_value = part;
              },
            )

-- A successful call is made after the end of the windows, before any size is stored, with at
-- least the least amount of NTRN and a price of ATOM that is not older than the greatest age. The
-- price feed answers two prices, of ATOM and of USDC, and the NTRN of the contract is divided
-- between the two pools by the value of their deposits at these prices: the value of ATOM in USDC
-- is its amount divided by the price of USDC in ATOM, and USDC takes its part of the sum, each
-- step rounded down. Each pool stores the liquidity tokens that it will mint, the root of the
-- product of its two amounts less the minimum liquidity, and nothing else is changed or sent.
pub set_pool_size-Splits :
    (cw : Cosmwasm) (exact : IsExact cw) (sqrt : ℕ → ℕ) (querier : Querier) (env : Env) (s : Store)
    (r : Store × List Msg)
    → execute_set_pool_size cw sqrt querier env s ≡ ok r
    → Sizes sqrt querier env s r × ((ntrn_amount : ℕ) × IsSplit querier env s r.0 ntrn_amount)
set_pool_size-Splits cw exact sqrt querier env s r h = (
  (set_pool_size-Sizes cw sqrt querier env s).holds r h,
  (set_pool_size-IsSplit cw exact sqrt querier env s).holds r h,
)
