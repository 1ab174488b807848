-- ===== src/Airdrop/Tests.antt =====
-- The airdrop on concrete data, and the theorems at such data.
use neutron_tge_contracts.Prelude.{ℕ, ◌+◌, ◌*◌, ◌≡◌, refl, false, none, some, List, [], ◌∷◌, arith}
use neutron_tge_contracts.Prelude.Map.{lookup, insert}
use neutron_tge_contracts.Prelude.Result.{ok, ◌>>=◌, Yields}
use neutron_tge_contracts.Cosmwasm.{MessageInfo, Env}
use neutron_tge_contracts.Samples.{exact_cw}
use neutron_tge_contracts.Airdrop.Types.{Store, InstantiateMsg, claim, Hashing}
use neutron_tge_contracts.Airdrop.Execute.{instantiate, fold_proof, execute_claim, execute}
use neutron_tge_contracts.Airdrop.Runs.{Call, opening, run, IsFair, run-IsFair}
use neutron_tge_contracts.Airdrop.Tree.{
  leaf, node, root_hash, LeadsUp, at_leaf, from_left, IsPaidTo, claim_available,
}

-- A text of 32 bytes is the number that they are.
abbrev plain_hashing : Hashing
plain_hashing = record {
  digest_claim = λ address amount. address * 1000 + amount;
  digest_pair = λ a b. a * 100000 + b;
  decode = λ text. some text;
}

abbrev from : ℕ → MessageInfo
from sender = record { sender = sender; funds = [] }

abbrev at : ℕ → Env
at now = record { time = now; height = 1; contract = 20 }

-- 50 for 7, and 60 for 8; the airdrop starts at 100, and the vesting is from 200 to 300.
abbrev sample_msg : InstantiateMsg
sample_msg = record {
  credits_address = 5;
  reserve_address = 6;
  merkle_root = 705008060;
  airdrop_start = 100;
  vesting_start = 200;
  vesting_duration_seconds = 100;
  total_amount = none;
  hrp = none;
}

abbrev sample_store : Store
sample_store = record {
  config = record { owner = 1; credits_address = 5; reserve_address = 6 };
  airdrop_start = 100;
  vesting_start = 200;
  vesting_duration = 100;
  amount = 0;
  amount_claimed = 0;
  account_map = [];
  merkle_root = 705008060;
  claims = [];
  hrp = none;
  paused = false;
}

instantiate_run : instantiate exact_cw plain_hashing (from 1) sample_msg ≡ ok sample_store
unfolding instantiate ◌>>=◌
instantiate_run = refl

-- 7 claims twice.
abbrev sample_calls : List Call
sample_calls =
    record { env = at 150; info = from 7; msg = claim 50 (8060 ∷ []) }
    ∷ record { env = at 160; info = from 7; msg = claim 50 (8060 ∷ []) }
    ∷ []

claims_run :
    (run exact_cw plain_hashing (λ a. some 0) 9 sample_calls (opening sample_store)).payments
    ≡ (7, 50) ∷ []
unfolding run execute execute_claim fold_proof ◌>>=◌ lookup insert
claims_run = refl

run-IsFair_example :
    IsFair exact_cw plain_hashing 705008060
      (run exact_cw plain_hashing (λ a. some 0) 9 sample_calls (opening sample_store))
run-IsFair_example =
    run-IsFair exact_cw plain_hashing (λ a. some 0) 9 (from 1) sample_msg sample_store sample_calls
      instantiate_run

sample-LeadsUp : LeadsUp exact_cw plain_hashing 7 50 (node (leaf 7 50) (leaf 8 60)) (8060 ∷ [])
unfolding root_hash
sample-LeadsUp = from_left (leaf 7 50) (leaf 8 60) [] 8060 at_leaf refl

sample_root :
    some 705008060 ≡ some (root_hash exact_cw plain_hashing (node (leaf 7 50) (leaf 8 60)))
unfolding root_hash
sample_root = refl

claim_available_example :
    Yields
      (IsPaidTo exact_cw plain_hashing (from 7) 50 sample_store)
      (execute_claim exact_cw plain_hashing (at 150) (from 7) 50 (8060 ∷ []) sample_store)
unfolding lookup
claim_available_example =
    claim_available exact_cw plain_hashing (at 150) (from 7) 50 (node (leaf 7 50) (leaf 8 60))
      (8060 ∷ []) sample_store sample_root sample-LeadsUp
      (record {
        is_begun = ground arith;
        is_not_over = ground arith;
        in_range = ground arith;
        is_not_paused = refl;
      })
      refl (ground arith)
