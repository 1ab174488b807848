-- ===== src/Auction/Pool/Sizes.antt =====
-- What `set_pool_size` stores, and that it stores it once.
use neutron_tge_contracts.Prelude.{
  ℕ, ◌+◌, ◌*◌, ◌≤◌, ◌<◌, ◌≡◌, refl, true, not, ◌||◌, Option, some, none, is_some, List, [], arith,
  ◌==◌,
}
use neutron_tge_contracts.Prelude.Result.{
  ok, err, ◌>>=◌, ok_or-eq-ok, reject_if, Ensures, Ensures-bind, Ensures-pure,
}
use neutron_tge_contracts.Cosmwasm.{Cosmwasm, Env}
use neutron_tge_contracts.Auction.Types.{
  Config, State, AuctionError, liquidity_already_added, Msg, Store, query_failed,
  pool_size_already_set,
}
use neutron_tge_contracts.Auction.Windows.{are_windows_closed}
use neutron_tge_contracts.Auction.Windows.Percent.{windows_end}
use neutron_tge_contracts.Auction.Pool.{
  PriceFeedRate, Querier, minimum_liquidity_amount, get_lp_size, compute_sizes,
  execute_set_pool_size,
}

-- The sizes that are stored for `ntrn_amount` of NTRN and the deposits of `s`.
pub record IsSized (sqrt : ℕ → ℕ) (ntrn_amount : ℕ) (s : Store) (state : State) : Type 0 where
  pub all_ntrn : state.usdc_ntrn_size + state.atom_ntrn_size ≡ ntrn_amount
  pub usdc_lp :
      state.usdc_lp_size + minimum_liquidity_amount
      ≡ sqrt (state.usdc_ntrn_size * s.state.total_usdc_deposited)
  pub atom_lp :
      state.atom_lp_size + minimum_liquidity_amount
      ≡ sqrt (state.atom_ntrn_size * s.state.total_atom_deposited)

abbrev pub Sizes : (ℕ → ℕ) → Querier → Env → Store → Store × List Msg → Type 0
Sizes sqrt querier env s r =
    (ntrn_amount : ℕ) × (querier.ntrn_balance ≡ some ntrn_amount)
    × (s.config.min_ntrn_amount ≤ ntrn_amount)
    × (are_windows_closed env.time s.config ≡ ok true)
    × (windows_end s.config ≤ env.time)
    × (s.state.lp_usdc_shares_minted ≡ none)
    × (s.state.lp_atom_shares_minted ≡ none)
    × (s.state.usdc_ntrn_size ≡ 0)
    × (s.state.atom_ntrn_size ≡ 0)
    × IsSized sqrt ntrn_amount s r.0.state
    × (r.0 ≡ record s {
      state = record (s.state) {
        usdc_ntrn_size = r.0.state.usdc_ntrn_size;
        atom_ntrn_size = r.0.state.atom_ntrn_size;
        usdc_lp_size = r.0.state.usdc_lp_size;
        atom_lp_size = r.0.state.atom_lp_size;
      };
    })
    × (r.1 ≡ [])

get_lp_size_lem :
    (cw : Cosmwasm) (sqrt : ℕ → ℕ) (token1 token2 size : ℕ)
    → get_lp_size cw sqrt token1 token2 ≡ ok size
    → size + minimum_liquidity_amount ≡ sqrt (token1 * token2)
unfolding get_lp_size ◌>>=◌
get_lp_size_lem cw sqrt token1 token2 size h = ground arith

closed_after_end :
    (now : ℕ) (config : Config) → are_windows_closed now config ≡ ok true → windows_end config ≤ now
unfolding are_windows_closed ◌>>=◌
closed_after_end now config h = ground arith

closed_later :
    (now later : ℕ) (config : Config)
    → now ≤ later
    → are_windows_closed now config ≡ ok true
    → are_windows_closed later config ≡ ok true
unfolding are_windows_closed ◌>>=◌
closed_later now later config after h = ground arith

some_stored : (a b : ℕ) → 0 < a + b → (not (a == 0) || not (b == 0)) ≡ true
some_stored a b h = ground arith

compute_sizes_lem :
    (cw : Cosmwasm) (sqrt : ℕ → ℕ) (atom_rate usdc_rate : PriceFeedRate)
    (ntrn_amount usdc_amount atom_amount : ℕ)
    → Ensures
        (λ sizes.
          (sizes.usdc_ntrn + sizes.atom_ntrn ≡ ntrn_amount)
          × (sizes.usdc_lp + minimum_liquidity_amount ≡ sqrt (sizes.usdc_ntrn * usdc_amount))
          × (sizes.atom_lp + minimum_liquidity_amount ≡ sqrt (sizes.atom_ntrn * atom_amount)))
        (compute_sizes cw sqrt atom_rate usdc_rate ntrn_amount usdc_amount atom_amount)
unfolding compute_sizes
compute_sizes_lem cw sqrt atom_rate usdc_rate ntrn_amount usdc_amount atom_amount =
    Ensures-bind λ ratio _. Ensures-bind λ usdc_ntrn _. Ensures-bind λ atom_ntrn rest.
      Ensures-bind λ atom_lp a. Ensures-bind λ usdc_lp u. Ensures-pure (
        ground arith,
        get_lp_size_lem cw sqrt usdc_ntrn usdc_amount usdc_lp u,
        get_lp_size_lem cw sqrt atom_ntrn atom_amount atom_lp a,
      )

none_minted_lem :
    (a b : Option ℕ) (e : AuctionError)
    → reject_if (is_some a || is_some b) e ≡ ok tt
    → (a ≡ none) × (b ≡ none)
none_minted_lem none none e h = (refl, refl)
none_minted_lem none (some y) e h = cc
none_minted_lem (some x) b e h = cc

-- A successful call is made after the end of the windows, before any size is stored, and with at
-- least the least amount of NTRN. It divides all the NTRN of the contract between the two pools,
-- stores for each pool the liquidity tokens that it will mint, the root of the product of its two
-- amounts less the minimum liquidity, and changes and sends nothing else.
pub set_pool_size-Sizes :
    (cw : Cosmwasm) (sqrt : ℕ → ℕ) (querier : Querier) (env : Env) (s : Store)
    → Ensures (Sizes sqrt querier env s) (execute_set_pool_size cw sqrt querier env s)
unfolding execute_set_pool_size
set_pool_size-Sizes cw sqrt querier env s = Ensures-bind λ _ no_pool. Ensures-bind λ closed over.
    Ensures-bind λ _ is_over. Ensures-bind λ _ unset. Ensures-bind λ ntrn_amount balance.
      Ensures-bind λ rates _. Ensures-bind λ (atom_rate, usdc_rate) _. Ensures-bind λ oldest _.
        Ensures-bind λ _ _. Ensures-bind λ _ enough. Ensures-bind λ sizes computed.
          let facts =
            (compute_sizes_lem cw sqrt atom_rate usdc_rate ntrn_amount s.state.total_usdc_deposited
                s.state.total_atom_deposited).holds
              sizes computed in
          let none_minted =
            none_minted_lem s.state.lp_usdc_shares_minted s.state.lp_atom_shares_minted
              liquidity_already_added no_pool in
          let is_closed : closed ≡ true = ground (arith, is_over) in
          Ensures-pure (
            ntrn_amount,
            ok_or-eq-ok query_failed querier.ntrn_balance balance,
            ground (arith, enough),
            rw is_closed at over,
            closed_after_end env.time s.config (rw is_closed at over),
            none_minted.0,
            none_minted.1,
            ground (arith, unset),
            ground (arith, unset),
            record { all_ntrn = facts.0; usdc_lp = facts.1; atom_lp = facts.2 },
            refl,
            refl,
          )

-- Where the least amount of NTRN is not 0, the call succeeds at most once: at any later time, a
-- call on the storage that the first leaves is refused as already made.
pub set_pool_size_once :
    (cw : Cosmwasm) (sqrt : ℕ → ℕ) (querier again : Querier) (env later : Env) (s : Store)
    (r : Store × List Msg)
    → 0 < s.config.min_ntrn_amount
    → env.time ≤ later.time
    → execute_set_pool_size cw sqrt querier env s ≡ ok r
    → execute_set_pool_size cw sqrt again later r.0 ≡ err pool_size_already_set
unfolding execute_set_pool_size ◌>>=◌
set_pool_size_once cw sqrt querier again env later s r positive after h =
    let (ntrn_amount, balance, enough, was_closed, over, no_usdc, no_atom, _, _, sized, same, _) =
      (set_pool_size-Sizes cw sqrt querier env s).holds r h in
    let still_closed = closed_later env.time later.time s.config after was_closed in
    let stored =
      some_stored r.0.state.usdc_ntrn_size r.0.state.atom_ntrn_size
        (omega (arith, sized.all_ntrn, enough, positive)) in
    rw (same, no_usdc, no_atom, still_closed, stored) refl
