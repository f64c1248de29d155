-- ===== src/Decode.antt =====
-- decode.go: the inputs, outputs and events of a call as maps from names to values. The codec of
-- go-ethereum (its ABI types and hexadecimal conversions) is the parameter `Codec`.
pub mod Topics
use seth.Prelude.{
  ℕ, zero, suc, ◌+◌, Bool, true, false, Option, none, some, List, [], ◌∷◌, ◌++◌, if◌then◌else◌, ltb,
  length, drop, get_elem?, ◌==◌,
}
use seth.Prelude.Text.{Text, codes, text_dec, ◌==ₜ◌, decimal}
use seth.Prelude.Errors.{Error, plain, Result, ok, err, ◌>>=◌, wrap_err}
use seth.Prelude.Map.{Map, insert}
use seth.AbiFinder.{AbiLib}

-- abi.Argument, whose Go type is part of `kind`
pub record Argument (Kind : Type 0) : Type 0 where
  pub name : Text
  pub kind : Kind
  pub indexed : Bool

-- abi.Event; `id` is ID.Hex()
pub record Event (Kind : Type 0) : Type 0 where
  pub name : Text
  pub raw_name : Text
  pub sig : Text
  pub id : Text
  pub inputs : List (Argument Kind)

-- What DecodableLog gives: GetTopics and GetData.
pub record LogView : Type 0 where
  pub topics : List Text
  pub payload : Text

-- `box` is a string kept as an interface value. The unpacking functions are those of abi.Arguments,
-- abi.ABI and abi.ParseTopicsIntoMap.
pub record Codec (lib : AbiLib) : Type 1 where
  pub Kind : Type 0
  pub Value : Type 0
  pub box : Text → Value
  pub inputs : AbiLib.Method lib → List (Argument Kind)
  pub outputs : AbiLib.Method lib → List (Argument Kind)
  pub method_name : AbiLib.Method lib → Text
  pub method_sig : AbiLib.Method lib → Text
  pub method_id : AbiLib.Method lib → Text
  pub events : AbiLib.Abi lib → List (Event Kind)
  pub unpack_into_map : List (Argument Kind) → Text → Result (Map Text Value)
  pub unpack_values : List (Argument Kind) → Text → Result (List Value)
  pub unpack_event : AbiLib.Abi lib → Text → Text → Result (Map Text Value)
  pub parse_topics : List (Argument Kind) → List Text → Result (Map Text Value)
  pub hex2bytes : Text → Text
  pub bytes2hex : Text → Text
  pub hexutil_decode : Text → Result Text
  pub hex_to_hash : Text → Text
  pub hex_to_address : Text → Text

abbrev pub no_tx_data_error : Error
no_tx_data_error = plain (codes "no tx data or it's less than 4 bytes")

-- the loop over the topics of an event: the arguments at the same places that are indexed
unfoldable pub indexed_topics :
    {Kind : Type 0}
    → List (Argument Kind)
    → ℕ
    → List Text
    → Result (List (Argument Kind) × List Text)
indexed_topics args idx [] = ok ([], [])
indexed_topics args idx (topic ∷ topics) = do
  arg ← (elim (get_elem? args idx) [ none ↦ Result.panic | some a ↦ ok a ])
  rest ← indexed_topics args (suc idx) topics
  ok (if arg.indexed then (arg ∷ rest.0, topic ∷ rest.1) else rest)

-- `for k, v := range new { m[k] = v }`
unfoldable pub merge : {V : Type 0} → Map Text V → Map Text V → Map Text V
merge m [] = m
merge m ((k, v) ∷ new) = merge (insert text_dec k v m) new

-- the event data of a log that had none, from its two maps
unfoldable pub decoded_log_from_maps : {V : Type 0} → Map Text V → Map Text V → Map Text V
decoded_log_from_maps events_map topics_map = merge [] (merge (merge [] events_map) topics_map)

-- the values of unnamed outputs under their positions
unfoldable pub numbered : {V : Type 0} → ℕ → List V → Map Text V → Map Text V
numbered i [] m = m
numbered i (v ∷ vs) m = numbered (suc i) vs (insert text_dec (decimal i) v m)

-- The first output has no name. Without outputs it is `false`.
unfoldable pub is_unnamed : {Kind : Type 0} → List (Argument Kind) → Bool
is_unnamed [] = false
is_unnamed (a ∷ args) = a.name ==ₜ []

module _ (lib : AbiLib) (codec : Codec lib) where
  open lib use {Abi, Method}
  open codec use {
    Kind, Value, inputs, outputs, unpack_into_map, unpack_values, unpack_event, parse_topics,
  }

  -- `none` is a nil map
  unfoldable pub decode_tx_inputs : Text → Method → Result (Option (Map Text Value))
  decode_tx_inputs tx_data method =
      if ltb (length tx_data) 4
      then err no_tx_data_error
      else (if length (drop 4 tx_data) == 0
          then ok none
          else (if length (inputs method) == 0
              then ok none
              else (do m ← unpack_into_map (inputs method) (drop 4 tx_data); ok (some m))))

  unfoldable pub decode_tx_outputs : Text → Method → Result (Option (Map Text Value))
  decode_tx_outputs payload method =
      if length payload == 0
      then ok none
      else (if is_unnamed (outputs method)
          then (do vals ← unpack_values (outputs method) payload; ok (some (numbered 0 vals [])))
          else (do
            m ←
                wrap_err (codes "failed to decode transaction output")
                  (unpack_into_map (outputs method) payload)
            ok (some m)))

  -- the data of the log
  unfoldable pub decode_data : Abi → Event Kind → LogView → Result (Map Text Value)
  decode_data a event lo =
      if length lo.payload == 0
      then ok []
      else wrap_err (codes "failed to decode non-indexed log data")
          (unpack_event a event.name lo.payload)

  -- the topics after the first, which is the event itself
  unfoldable pub decode_topics : Event Kind → List Text → Result (Map Text Value)
  decode_topics event topics =
      if ltb 1 (length topics)
      then (do
        pairs ← indexed_topics event.inputs 0 (drop 1 topics)
        wrap_err (codes "failed to decode indexed log data") (parse_topics pairs.0 pairs.1))
      else ok []

  unfoldable pub decode_event_from_log :
      Abi → Event Kind → LogView → Result (Map Text Value × Map Text Value)
  decode_event_from_log a event lo = do
    events_map ← decode_data a event lo
    topics_map ← decode_topics event lo.topics
    ok (events_map, topics_map)
