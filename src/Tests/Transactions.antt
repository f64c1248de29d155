-- ===== src/Tests/Transactions.antt =====
-- Nonces, keys and replacement transactions on concrete runs.
use seth.Prelude.{
  ℕ, ◌+◌, ◌≤◌, ◌<◌, ◌&&◌, true, ◌≡◌, ◌≢◌, refl, some, List, [], ◌∷◌, length, get_elem?, leb, ltb,
  if◌then◌else◌, ℕ_discrete,
}
use seth.Prelude.Int.{ℤ, pos, ◌+ℤ◌, ◌*ℤ◌}
use seth.Prelude.Text.{Text, codes, text_dec}
use seth.Prelude.Words.{two63, int64, int64_of_word, uint64_of_int, add64}
use seth.Prelude.Errors.{Result, ok, err}
use seth.Prelude.Map.{lookup, insert}
use seth.Config.{Config, NonceManagerCfg, GasBumpConfig, has_max_bump_gas_price}
use seth.ClientBuilder.{default_config}
use seth.Nonce.{
  NonceManager, zero_nonces, new_nonce_manager, nonce_of, refreshed, refresh, keys_from,
  fill_channel, fill, update_nonces, next_nonce, taken, take_key, time_out, remove, give_up,
  sync_key, fail_attempt, attempt_with, attempt, Move, takes, times_out, attempts, move, moves,
}
use seth.Nonce.Keys.{free, busy, held, total, moves-held}
use seth.Nonce.Nonces.{next_nonces, counting, next_nonces-update_nonces}
use seth.Retry.{
  TxBody, Tx, dynamic_fee, access_list, Chain, max_price_error, index_of, check_max_price, low64,
  strategy_of, replacement, bump_with, checked_pending, key_of_sender, prepare_replacement,
}
use seth.Retry.Bumped.{IsBumped, prepare_replacement-IsBumped}

program : Unit {0}
unfolding text_dec ℕ_discrete int64 int64_of_word uint64_of_int add64 ◌+ℤ◌ ◌*ℤ◌ lookup insert
    has_max_bump_gas_price default_config zero_nonces new_nonce_manager nonce_of refreshed refresh
    keys_from fill_channel fill update_nonces next_nonce taken take_key time_out remove give_up
    sync_key fail_attempt attempt_with attempt move moves free busy held total next_nonces counting
    index_of check_max_price low64 strategy_of replacement bump_with checked_pending key_of_sender
    prepare_replacement
program = tt

abbrev cfg : NonceManagerCfg
cfg = record {
  key_sync_rate_limit_sec = pos 10;
  key_sync_timeout = pos 60;
  key_sync_retries = 2;
  key_sync_retry_delay = pos 5;
}

-- The node has nonce 7 for every address.
abbrev node : Text → Result ℕ
node addr = ok 7

abbrev pub addresses : List Text
addresses = codes "root" ∷ codes "a" ∷ codes "b" ∷ []

abbrev manager : NonceManager
manager = new_nonce_manager cfg addresses

abbrev filled : NonceManager
filled = (update_nonces node manager).0

filled_run : update_nonces node manager ≡ (filled, ok tt)
unfolding program
filled_run = refl

filled_keys :
    filled.synced_keys ≡ record { key_num = 1; nonce = 7 } ∷ record { key_num = 2; nonce = 7 } ∷ []
unfolding program
filled_keys = refl

-- Both keys are taken; the second one's transaction is confirmed, the first one's never is.
abbrev run : List Move
run = takes ∷ takes ∷ attempts 1 (ok 8) ∷ attempts 0 (ok 7) ∷ attempts 0 (ok 7) ∷ times_out ∷ []

run_keys : (moves run filled).synced_keys ≡ record { key_num = 2; nonce = 8 } ∷ []
unfolding program
run_keys = refl

one_key_left : total (moves run filled) ≡ 1
unfolding program
one_key_left = refl

moves-held_example :
    ((k : ℕ) → held k (moves run filled) ≤ (if leb 1 k && ltb k (length addresses) then 1 else 0))
    × (total (moves run filled) < length addresses)
unfolding program
moves-held_example = moves-held node manager filled run refl filled_run

next_nonces-update_nonces_example :
    (w : ℕ) × (node (codes "a") ≡ ok w)
    × (w + 3 < two63
        → ((next_nonces 3 (codes "a") filled).0 ≡ counting 3 w)
          × ((other : Text)
              → codes "a" ≢ other
              → nonce_of (next_nonces 3 (codes "a") filled).1.nonces other
                ≡ nonce_of filled.nonces other))
unfolding program
next_nonces-update_nonces_example =
    next_nonces-update_nonces node manager filled (codes "a") (pos 0) 3 filled_run refl

-- A signed transaction is the transaction itself; all are of the second address.
abbrev pub chain : Chain Tx
chain = record {
  body = λ tx. tx;
  by_hash = λ tx. ok true;
  sender = λ tx. ok (codes "a");
  sign = λ i tx. ok tx;
  send = λ tx. ok tt;
}

abbrev pub double : ℤ → ℤ
double price = price *ℤ pos 2

abbrev pub bump : GasBumpConfig
bump = record { retries = 3; max_gas_price = pos 100; strategy_fn = some double }

abbrev pub bumping : Config
bumping = record default_config { gas_bump = some bump }

abbrev pub body : TxBody
body = record { nonce = 4; to = some (codes "b"); value = pos 9; gas = 21000; payload = [] }

abbrev pub stuck : Tx
stuck = dynamic_fee body (pos 30) (pos 20)

replaced_run :
    prepare_replacement chain bumping addresses stuck ≡ ok (dynamic_fee body (pos 60) (pos 40))
unfolding program
replaced_run = refl

too_high :
    prepare_replacement chain bumping addresses (dynamic_fee body (pos 40) (pos 20))
    ≡ err max_price_error
unfolding program
too_high = refl

-- The replacement of an access list transaction offers nothing.
lost_price :
    prepare_replacement chain bumping addresses (access_list body (pos 30) [])
    ≡ ok (access_list body (pos 0) [])
unfolding program
lost_price = refl

prepare_replacement-IsBumped_example :
    (chain.by_hash stuck ≡ ok true)
    × (i : ℕ) × (from : Text) × (chain.sender stuck ≡ ok from)
    × (get_elem? addresses i ≡ some from)
    × (new : Tx) × (chain.sign i new ≡ ok (dynamic_fee body (pos 60) (pos 40)))
    × (chain.send (dynamic_fee body (pos 60) (pos 40)) ≡ ok tt)
    × (used : GasBumpConfig) × (bumping.gas_bump ≡ some used)
    × IsBumped bumping used stuck new
prepare_replacement-IsBumped_example =
    prepare_replacement-IsBumped chain bumping addresses stuck (dynamic_fee body (pos 60) (pos 40))
      replaced_run
