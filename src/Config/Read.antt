-- ===== src/Config/Read.antt =====
-- ReadConfig of config.go. The environment, the file system and the TOML parser are parameters.
pub mod Ready
use seth.Prelude.{
  ℕ, Bool, true, false, ◌&&◌, Option, none, some, List, [], ◌∷◌, ◌++◌, if◌then◌else◌, ◌≡◌, ◌≢◌,
  refl, sym, arith, get_elem?, Bool-cases, Option-cases, inl, inr,
}
use seth.Prelude.Text.{Text, codes, ◌==ₜ◌}
use seth.Prelude.Errors.{Error, plain, Result, ok, err, ◌>>=◌, bind-eq-ok, wrap_err, wrap_err-ok}
use seth.Config.{Network, Config, set, deref, the_network, write_at}
use seth.Config.Heap.{get_elem?-set}
use seth.Config.Validate.{default_dial_timeout}
use seth.ClientBuilder.{default_network_name}

-- The environment, os.ReadFile, toml.Unmarshal, filepath.Abs and filepath.Dir.
pub record System : Type 0 where
  pub getenv : Text → Text
  pub read_file : Text → Result Text
  pub unmarshal : Text → Result Config
  pub abs_path : Text → Result Text
  pub dir : Text → Text

abbrev pub config_path_var : Text
config_path_var = codes "SETH_CONFIG_PATH"

abbrev pub network_var : Text
network_var = codes "SETH_NETWORK"

abbrev pub url_var : Text
url_var = codes "SETH_URL"

abbrev pub root_key_var : Text
root_key_var = codes "SETH_ROOT_PRIVATE_KEY"

-- the loops over `Networks` that stop at the first one of that name
unfoldable pub find_network : List Network → Text → List ℕ → Result (Option ℕ)
find_network heap name [] = ok none
find_network heap name (p ∷ ps) = do
  n ← deref heap p
  if n.name ==ₜ name then ok (some p) else find_network heap name ps

unfoldable pub select_named : Config → Text → Result Config
select_named c snet = if snet ==ₜ [] then ok c else (do
  found ← find_network c.heap snet c.networks
  elim found [ none ↦ ok c | some p ↦ ok (record c { network = some p }) ])

abbrev pub not_selected_error : Error
not_selected_error = plain (
    codes
      "network not selected, set SETH_NETWORK=... or SETH_URL=..., check TOML config for available networks")

abbrev pub no_default_error : Error
no_default_error = plain (codes "default network not defined in the TOML file")

abbrev pub no_root_key_error : Error
no_root_key_error = plain (codes "no root private key were set, set SETH_ROOT_PRIVATE_KEY=...")

-- the default network under the given name and URL
unfoldable pub as_default : Text → Text → Network → Network
as_default snet url n = record n {
  name = if snet ==ₜ [] then default_network_name else snet;
  urls = url ∷ [];
}

unfoldable pub select_default : Config → Text → Text → Result Config
select_default c snet url = if url ==ₜ [] then err not_selected_error else (do
  found ← find_network c.heap default_network_name c.networks
  elim found [
    | none ↦ err no_default_error
    | some p ↦ write_at (record c { network = some p }) p (as_default snet url)
  ])

unfoldable pub select_network : Config → Text → Text → Result Config
select_network c snet url = do
  c' ← select_named c snet
  elim c'.network [ none ↦ select_default c' snet url | some p ↦ ok c' ]

-- the root key and the timeout of the network
unfoldable pub with_root_key : Text → Network → Network
with_root_key key n = record n {
  private_keys = n.private_keys ++ key ∷ [];
  dial_timeout = some (elim n.dial_timeout [ none ↦ default_dial_timeout | some d ↦ d ]);
}

unfoldable pub add_root_key : Config → Text → Result Config
add_root_key c key =
    if key ==ₜ []
    then err no_root_key_error
    else (elim c.network [ none ↦ Result.panic | some p ↦ write_at c p (with_root_key key) ])

unfoldable pub load : System → Text → Result Config
load sys path = do
  d ← wrap_err (codes "failed to read TOML config for seth") (sys.read_file path)
  c ← wrap_err (codes "failed to unmarshal TOML config for seth") (sys.unmarshal d)
  a ← sys.abs_path path
  ok (record c { config_dir = sys.dir a })

abbrev pub no_path_error : Error
no_path_error = plain (codes "toml config path is empty, set SETH_CONFIG_PATH")

unfoldable pub read_config : System → Result Config
read_config sys = if sys.getenv config_path_var ==ₜ [] then err no_path_error else (do
  c ← load sys (sys.getenv config_path_var)
  c' ← select_network c (sys.getenv network_var) (sys.getenv url_var)
  add_root_key c' (sys.getenv root_key_var))
