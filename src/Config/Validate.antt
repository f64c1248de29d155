-- ===== src/Config/Validate.antt =====
-- ValidateConfig of client.go: what it accepts, and how it normalises what it accepts.
pub mod Accepted
pub mod Allowed
pub mod Normal
use seth.Prelude.{
  ℕ, Bool, true, false, ◌||◌, Option, none, some, List, [], ◌∷◌, if◌then◌else◌, ◌==◌, ◌≡◌, ◌≢◌, ◌⊎◌,
  inl, inr, refl, arith, All, ◌<◌,
}
use seth.Prelude.Int.{ℤ, pos}
use seth.Prelude.Text.{Text, codes, ◌==ₜ◌, to_lower, to_upper}
use seth.Prelude.Errors.{Error, plain, Result, ok, ◌>>=◌}
use seth.Config.{Network, Config, the_network, set}

-- of gas_adjuster.go
abbrev pub priority_degen : Text
priority_degen = codes "degen"

abbrev pub priority_fast : Text
priority_fast = codes "fast"

abbrev pub priority_standard : Text
priority_standard = codes "standard"

abbrev pub priority_slow : Text
priority_slow = codes "slow"

-- of client.go
abbrev pub tracing_none : Text
tracing_none = codes "NONE"

abbrev pub tracing_reverted : Text
tracing_reverted = codes "REVERTED"

abbrev pub tracing_all : Text
tracing_all = codes "ALL"

abbrev pub output_console : Text
output_console = codes "console"

abbrev pub output_json : Text
output_json = codes "json"

abbrev pub output_dot : Text
output_dot = codes "dot"

-- DefaultDialTimeout, one minute in nanoseconds
abbrev pub default_dial_timeout : ℤ
default_dial_timeout = pos 60_000_000_000

abbrev pub blocks_error : Error
blocks_error = plain (
    codes
      "when automating gas estimation is enabled blocks must be greater than 0. fix it or disable gas estimation")

abbrev pub priority_error : Error
priority_error = plain (
    codes
      "when automating gas estimation is enabled priority must be fast, standard or slow. fix it or disable gas estimation")

abbrev pub tracing_error : Error
tracing_error = plain (codes "tracing level must be one of: NONE, REVERTED, ALL")

abbrev pub output_error : Error
output_error = plain (codes "trace output must be one of: console, json, dot")

-- the cases of the switch on the priority
unfoldable pub is_priority : Text → Bool
is_priority p =
    p ==ₜ priority_degen || p ==ₜ priority_fast || p ==ₜ priority_standard || p ==ₜ priority_slow

unfoldable pub is_tracing_level : Text → Bool
is_tracing_level l = l ==ₜ tracing_none || l ==ₜ tracing_reverted || l ==ₜ tracing_all

unfoldable pub is_output : Text → Bool
is_output o = o ==ₜ output_console || o ==ₜ output_json || o ==ₜ output_dot

-- the priority in lower case, "standard" where it is empty
unfoldable pub normal_priority : Text → Text
normal_priority p = if to_lower p ==ₜ [] then priority_standard else to_lower p

-- the tracing level in upper case, "REVERTED" where it is empty
unfoldable pub normal_tracing_level : Text → Text
normal_tracing_level l = if l ==ₜ [] then to_upper tracing_reverted else to_upper l

-- the first part: what it writes to the network stays written beside an error
unfoldable pub validate_estimation : Network → Network × Option Error
validate_estimation n =
    if n.gas_price_estimation_enabled
    then (if n.gas_price_estimation_blocks == 0 then (n, some blocks_error) else (
      record n {
        gas_price_estimation_tx_priority = normal_priority n.gas_price_estimation_tx_priority;
      },
      (if is_priority (normal_priority n.gas_price_estimation_tx_priority)
          then none
          else some priority_error),
    ))
    else (n, none)

-- the loop over the outputs
unfoldable pub validate_outputs : List Text → Option Error
validate_outputs [] = none
validate_outputs (o ∷ outputs) =
    if is_output (to_lower o) then validate_outputs outputs else some output_error

unfoldable pub with_dial_timeout : Network → Network
with_dial_timeout n = elim n.dial_timeout [
  | none ↦ record n { dial_timeout = some default_dial_timeout }
  | some d ↦ n
]

unfoldable pub put_network : Config → Network → Config
put_network c n = elim c.network [ none ↦ c | some p ↦ record c { heap = set c.heap p n } ]

-- the rest: the tracing level, the outputs and the timeout
unfoldable pub validate_tracing : Config → Network → Config × Option Error
validate_tracing c n =
    let c' = record c { tracing_level = normal_tracing_level c.tracing_level } in
    if is_tracing_level (normal_tracing_level c.tracing_level)
    then elim (validate_outputs c.trace_outputs) [
      | some e ↦ (c', some e)
      | none ↦ (put_network c' (with_dial_timeout n), none)
    ]
    else (c', some tracing_error)

-- the network is written back, and the rest follows if there was no error
unfoldable pub validate_rest : Config → Network × Option Error → Config × Option Error
validate_rest c (n, some e) = (put_network c n, some e)
validate_rest c (n, none) = validate_tracing (put_network c n) n

-- The configuration as it is left, beside the error. A nil network panics.
unfoldable pub validate_config : Config → Result (Config × Option Error)
validate_config c = do n ← the_network c; ok (validate_rest c (validate_estimation n))
