-- ===== src/Jptrace/Convert.antt =====
-- internal/jptrace/attributes.go, timestamp.go and ids.go: conversions of attributes, of times and
-- of identifiers. Go's decoding of hexadecimal digits is a parameter.
use Prim.Native.String.{len}
use jaeger.Prelude.{
  ℕ, ◌-◌, ◌*◌, ◌≡◌, String, [], ◌∷◌, Option, none, some, ltb, if◌then◌else◌, ◌==◌, nat_eq,
  string_eq, arith,
}
use jaeger.Prelude.Int.{ℤ, pos, negsuc}
use jaeger.Prelude.Map.{Map, insert}
use jaeger.Prelude.Words.{u64_mod}
use jaeger.Otlp.{Value, Attributes}

-- PcommonMapToPlainMap
unfoldable pub pcommon_map_to_plain_map :
    (Value → String) → Attributes → Map String String → Map String String
unfolding insert
pcommon_map_to_plain_map as_string [] m = m
pcommon_map_to_plain_map as_string ((k, v) ∷ attributes) m =
    pcommon_map_to_plain_map as_string attributes (insert k (as_string v) m)

-- PlainMapToPcommonMap, for the entries in the order in which Go ranges over them.
unfoldable pub plain_map_to_pcommon_map : Map String String → Attributes → Attributes
unfolding insert
plain_map_to_pcommon_map [] m = m
plain_map_to_pcommon_map ((k, v) ∷ attributes) m =
    plain_map_to_pcommon_map attributes (insert k (Value.str v) m)

-- TimeToUnixNano; `none` is Go's zero time, another time is its nanoseconds since the epoch, which
-- fit an int64.
unfoldable pub time_to_unix_nano : Option ℤ → ℕ
time_to_unix_nano none = 0
time_to_unix_nano (some (pos n)) = n
time_to_unix_nano (some (negsuc _)) = 0

-- UnixNanoToTime
unfoldable pub unix_nano_to_time : ℕ → Option ℤ
unix_nano_to_time n =
    if n == 0
    then none
    else if ltb n 9223372036854775808
    then some (pos n)
    else some (negsuc (u64_mod - n - 1))

-- A number of nanoseconds is read back from its time if it is below 2^63, and is read back as 0
-- otherwise, as its time is before the epoch.
pub time_to_unix_nano-unix_nano_to_time :
    (n : ℕ) → time_to_unix_nano (unix_nano_to_time n) ≡ (if ltb n 9223372036854775808 then n else 0)
unfolding time_to_unix_nano unix_nano_to_time
time_to_unix_nano-unix_nano_to_time n = ground arith

pub data IdError : Type 0 where
  wrong_length not_hex : IdError

pub data Decoded : Type 0 where
  failed : IdError → Decoded
  id : ℕ → Decoded

module _ (hex_decode : String → Option ℕ) where
  -- decodeHexID, for an identifier of so many bytes.
  unfoldable pub decode_hex_id : ℕ → String → Decoded
  decode_hex_id bytes s =
      if len s == 2 * bytes
      then elim (hex_decode s) [ none ↦ Decoded.failed IdError.not_hex | some n ↦ Decoded.id n ]
      else Decoded.failed IdError.wrong_length

  -- TraceIDFromString
  unfoldable pub trace_id_from_string : String → Decoded
  unfolding decode_hex_id
  trace_id_from_string = decode_hex_id 16

  -- SpanIDFromString
  unfoldable pub span_id_from_string : String → Decoded
  unfolding decode_hex_id
  span_id_from_string = decode_hex_id 8
