-- ===== src/Nonce.antt =====
-- nonce.go: the nonce manager. The goroutine that waits until a key is synced is an entry of
-- `syncing`, and a run is a list of moves: which goroutine moves next, and what the node answers it.
pub mod Keys
pub mod Nonces
use seth.Prelude.{
  ℕ, zero, suc, ◌+◌, Option, none, some, List, [], ◌∷◌, ◌++◌, length, if◌then◌else◌, ◌==◌,
  get_elem?, drop,
}
use seth.Prelude.Int.{ℤ, pos, negsuc, ◌+ℤ◌}
use seth.Prelude.Words.{int64, int64_of_word, uint64_of_int, add64}
use seth.Prelude.Text.{Text, codes, text_dec}
use seth.Prelude.Errors.{Error, plain, Result, ok, err, Done}
use seth.Prelude.Map.{Map, lookup, insert}
use seth.Config.{NonceManagerCfg}

abbrev pub key_sync_error : Error
key_sync_error = plain (codes "failed to sync the key")

-- TimeoutKeyNum, -80001
abbrev pub timeout_key_num : ℤ
timeout_key_num = negsuc 80_000

pub record KeyNonce : Type 0 where
  pub key_num : ℕ
  pub nonce : ℕ

-- A key that waits to be synced; `left` is the number of attempts that retry.Do has left.
pub record Syncing : Type 0 where
  pub key : KeyNonce
  pub left : ℕ

-- `synced_keys` is the channel, the next key first, and `errors` the errors of the client.
pub record NonceManager : Type 0 where
  pub cfg : NonceManagerCfg
  pub addresses : List Text
  pub nonces : Map Text ℤ
  pub synced_keys : List KeyNonce
  pub syncing : List Syncing
  pub errors : List Error

-- every address at zero
unfoldable pub zero_nonces : List Text → Map Text ℤ → Map Text ℤ
zero_nonces [] nonces = nonces
zero_nonces (addr ∷ addrs) nonces = zero_nonces addrs (insert text_dec addr (pos 0) nonces)

unfoldable pub new_nonce_manager : NonceManagerCfg → List Text → NonceManager
new_nonce_manager cfg addrs = record {
  cfg = cfg;
  addresses = addrs;
  nonces = zero_nonces addrs [];
  synced_keys = [];
  syncing = [];
  errors = [];
}

-- the value of a missing key is zero
unfoldable pub nonce_of : Map Text ℤ → Text → ℤ
nonce_of nonces addr = elim (lookup text_dec addr nonces) [ none ↦ pos 0 | some n ↦ n ]

-- one round of the loop over the nonces, at the answer of the node for the first address
unfoldable pub refreshed : Text → ℤ → Map Text ℤ → Map Text ℤ × Done → Result ℕ → Map Text ℤ × Done
refreshed addr n nonces (rest, done) (ok w) = ((addr, int64_of_word w) ∷ rest, done)
refreshed addr n nonces r (err e) = ((addr, n) ∷ nonces, err e)
refreshed addr n nonces r Result.panic = ((addr, n) ∷ nonces, Result.panic)

-- The loop over the nonces; `node` is NonceAt. What was refreshed before an error stays so.
unfoldable pub refresh : (Text → Result ℕ) → Map Text ℤ → Map Text ℤ × Done
refresh node [] = ([], ok tt)
refresh node ((addr, n) ∷ nonces) = refreshed addr n nonces (refresh node nonces) (node addr)

-- the keys from number `num` on, with their nonces
unfoldable pub keys_from : ℕ → Map Text ℤ → List Text → List KeyNonce
keys_from num nonces [] = []
keys_from num nonces (addr ∷ addrs) =
    record { key_num = num; nonce = uint64_of_int (nonce_of nonces addr) }
    ∷ keys_from (suc num) nonces addrs

-- The channel is made anew with all keys but the root key; without addresses the slice panics.
unfoldable pub fill_channel : NonceManager → Map Text ℤ → List Text → NonceManager × Done
fill_channel m nonces [] = (record m { nonces = nonces; synced_keys = [] }, Result.panic)
fill_channel m nonces (root ∷ addrs) =
    (record m { nonces = nonces; synced_keys = keys_from 1 nonces addrs }, ok tt)

unfoldable pub fill : NonceManager → Map Text ℤ × Done → NonceManager × Done
fill m (nonces, err e) = (record m { nonces = nonces }, err e)
fill m (nonces, Result.panic) = (record m { nonces = nonces }, Result.panic)
fill m (nonces, ok u) = fill_channel m nonces m.addresses

unfoldable pub update_nonces : (Text → Result ℕ) → NonceManager → NonceManager × Done
update_nonces node m = fill m (refresh node m.nonces)

-- The nonce to use, and the manager that counts it.
unfoldable pub next_nonce : Text → NonceManager → ℤ × NonceManager
next_nonce addr m = (
  nonce_of m.nonces addr,
  record m { nonces = insert text_dec addr (int64 (nonce_of m.nonces addr +ℤ pos 1)) m.nonces },
)

-- anySyncedKey, when a key comes out of the channel: its goroutine starts. `none` waits.
unfoldable pub taken : NonceManager → List KeyNonce → Option (ℤ × NonceManager)
taken m [] = none
taken m (key ∷ keys) = some (
  pos key.key_num,
  record m {
    synced_keys = keys;
    syncing = m.syncing ++ record { key = key; left = m.cfg.key_sync_retries } ∷ [];
  },
)

unfoldable pub take_key : NonceManager → Option (ℤ × NonceManager)
take_key m = taken m m.synced_keys

-- anySyncedKey, when the timeout comes first
unfoldable pub time_out : NonceManager → ℤ × NonceManager
time_out m = (timeout_key_num, record m { errors = m.errors ++ key_sync_error ∷ [] })

-- the goroutine `i` ends
unfoldable pub remove {ℓ} : {A : Type ℓ} → ℕ → List A → List A
remove i [] = []
remove zero (x ∷ xs) = xs
remove (suc i) (x ∷ xs) = x ∷ remove i xs

-- retry.Do ends with an error: the goroutine ends, and its key is lost
unfoldable pub give_up : ℕ → NonceManager → NonceManager
give_up i m = record m { syncing = remove i m.syncing; errors = m.errors ++ key_sync_error ∷ [] }

-- a failed attempt, with the number of attempts that are left after it
unfoldable pub fail_attempt : ℕ → ℕ → KeyNonce → NonceManager → NonceManager
fail_attempt i zero key m = give_up i m
fail_attempt i (suc left) key m = record m {
  syncing = record { key = key; left = suc left } ∷ remove i m.syncing;
}

-- the key is synced when the node's nonce is the next one
unfoldable pub sync_key : ℕ → ℕ → KeyNonce → Result ℕ → NonceManager → NonceManager
sync_key i left key (ok nonce) m =
    if nonce == add64 key.nonce 1
    then record m {
      syncing = remove i m.syncing;
      synced_keys = m.synced_keys ++ record { key_num = key.key_num; nonce = nonce } ∷ [];
    }
    else fail_attempt i left key m
sync_key i left key answer m = fail_attempt i left key m

-- the next attempt of goroutine `i`, at the node's answer. With no attempts at all, retry.Do fails without
-- a call of the function.
unfoldable pub attempt_with : ℕ → ℕ → KeyNonce → Result ℕ → NonceManager → NonceManager
attempt_with i zero key answer m = give_up i m
attempt_with i (suc left) key answer m = sync_key i left key answer m

unfoldable pub attempt : ℕ → Result ℕ → NonceManager → NonceManager
attempt i answer m = elim (get_elem? m.syncing i) [
  | none ↦ m
  | some s ↦ attempt_with i s.left s.key answer m
]

-- A move of the program: a call of anySyncedKey that gets a key or times out, a call of NextNonce, or
-- an attempt of a goroutine with the node's answer.
pub data Move : Type 0 where
  takes times_out : Move
  counts : Text → Move
  attempts : ℕ → Result ℕ → Move

unfoldable pub move : Move → NonceManager → NonceManager
move takes m = elim (take_key m) [ none ↦ m | some r ↦ r.1 ]
move times_out m = (time_out m).1
move (counts addr) m = (next_nonce addr m).1
move (attempts i answer) m = attempt i answer m

unfoldable pub moves : List Move → NonceManager → NonceManager
moves [] m = m
moves (x ∷ xs) m = moves xs (move x m)
