-- ===== src/Tracing/Calls.antt =====
-- The calls of tracing.go: what the node reports of a call, and what the tracer makes of it.
use seth.Prelude.{ℕ, Option, List}
use seth.Prelude.Int.{ℤ}
use seth.Prelude.Text.{Text, codes}
use seth.Prelude.Map.{Map}

pub record TraceLog : Type 0 where
  pub address : Text
  pub payload : Text
  pub topics : List Text

-- the fields of Call but its calls
pub record CallFields : Type 0 where
  pub from : Text
  pub gas : Text
  pub gas_used : Text
  pub input : Text
  pub logs : List TraceLog
  pub output : Text
  pub to : Text
  pub call_type : Text
  pub value : Text
  pub error : Text

mutual
  pub data Call : Type 0 where
    call : CallFields → Calls → Call

  -- a list of calls
  pub data Calls : Type 0 where
    nil : Calls
    cons : Call → Calls → Calls

abbrev pub fields : Call → CallFields
fields (call f cs) = f

abbrev pub calls_of : Call → Calls
calls_of (call f cs) = cs

-- TXFourByteMetadataOutput
pub record FourByte : Type 0 where
  pub call_size : ℤ
  pub times : ℤ

-- Trace, with the call of the transaction itself
pub record Trace : Type 0 where
  pub tx_hash : Text
  pub four_byte : Map Text FourByte
  pub call_trace : Call

abbrev pub failed_to_decode : Text
failed_to_decode = codes "failed to decode"

abbrev pub no_data : Text
no_data = codes "no data"

abbrev pub comment_missing_abi : Text
comment_missing_abi = codes "Call not decoded due to missing ABI instance"

pub record DecodedCommonLog (V : Type 0) : Type 0 where
  pub signature : Text
  pub address : Text
  pub event_data : Map Text V
  pub topics : List Text

-- DecodedCall with its CommonData; `none` is a nil map
pub record DecodedCall (V : Type 0) : Type 0 where
  pub call_type : Text
  pub signature : Text
  pub method : Text
  pub input : Option (Map Text V)
  pub output : Option (Map Text V)
  pub nesting_level : ℤ
  pub parent_signature : Text
  pub error : Text
  pub from_address : Text
  pub to_address : Text
  pub from : Text
  pub to : Text
  pub events : List (DecodedCommonLog V)
  pub comment : Text
  pub value : ℤ
  pub gas_limit : ℕ
  pub gas_used : ℕ
