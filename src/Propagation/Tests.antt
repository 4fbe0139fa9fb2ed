-- ===== src/Propagation/Tests.antt =====
-- A context that goes through a carrier.
use apminsight_server_sdk_go.Prelude.{
  Bytes, ◌++◌, ◌≡◌, refl, true, false, [], ◌∷◌, ℕ, Bool, Bool-cases, inl, inr, ◌==◌, if◌then◌else◌,
  some, none, Option, List, replicate, All, arith, codes, bytes_eq,
}
use apminsight_server_sdk_go.Prelude.Int.{pos, atoi}
use apminsight_server_sdk_go.Propagation.{
  unknown, sampled, flags_client_sampled, flags_to_string, SpanContext,
}
use apminsight_server_sdk_go.Prelude.Strings.{split, to_lower, lower, has_prefix}
use apminsight_server_sdk_go.Propagation.TraceParent.{
  TraceParent, hex_digit, hex_field, id_field, version_field, parse_fields, parse_trace_parent,
}
use apminsight_server_sdk_go.Propagation.TraceParent.Accepted.{parse_trace_parent-header}
use apminsight_server_sdk_go.Propagation.TraceState.{
  parse_trace_state, limit_members, parse_members, add_member, has_key,
}
use apminsight_server_sdk_go.Propagation.Headers
use apminsight_server_sdk_go.Propagation.Headers.{
  Header, Library, HeaderContext, inject_headers, set_sample, set_baggage, remove_key,
  extract_headers, foreach_key, on_header, take_parent,
}
use apminsight_server_sdk_go.Propagation.Headers.RoundTrip.{Agrees, extract_headers-inject}
use apminsight_server_sdk_go.Propagation.Binary.{inject, extract, ok, failed}
use apminsight_server_sdk_go.Propagation.Binary.RoundTrip.{
  Fresh, IsWritable, extract-inject, extract-inject_undecided,
}

abbrev has_byte : ℕ → Bytes → Bool
has_byte b [] = false
has_byte b (c ∷ s) = if c == b then true else has_byte b s

abbrev context : SpanContext
context = record {
  trace_id = codes "t";
  span_id = codes "s";
  strategy = sampled;
  weight = pos 3;
  client_sampled = true;
  flags = flags_client_sampled;
  baggage = (codes "a", codes "1") ∷ (codes "b", codes "2") ∷ [];
}

context-Fresh : Fresh [] context.baggage
unfolding Fresh bytes_eq
context-Fresh = (tt, omega arith, omega arith, ((refl, tt), omega arith, omega arith, tt))

context-IsWritable : IsWritable context
context-IsWritable = record {
  decided = λ e. cc;
  trace_in = omega arith;
  span_in = omega arith;
  weight_in = (omega arith, omega arith);
  count_in = omega arith;
  keys = context-Fresh;
}

extract-inject_example :
    extract (inject context ++ 9 ∷ []) ≡ ok (record context { client_sampled = false }, 9 ∷ [])
extract-inject_example = extract-inject context (9 ∷ []) context-IsWritable

abbrev undecided : SpanContext
undecided = record context { strategy = unknown; baggage = [] }

extract-inject_undecided_example : extract (inject undecided) ≡ failed
extract-inject_undecided_example =
    extract-inject_undecided undecided refl refl (omega arith) (omega arith)

abbrev trace_id : Bytes
trace_id = codes "4bf92f3577b34da6a3ce929d0e0e4736"

abbrev span_id : Bytes
span_id = codes "00f067aa0ba902b7"

abbrev parent : TraceParent
parent = record { version = 0; trace_id = trace_id; parent_span_id = span_id; trace_flags = 1 }

parent_value :
    parse_trace_parent (codes "00-4bf92f3577b34da6a3ce929d0e0e4736-00f067aa0ba902b7-01")
    ≡ some parent
unfolding parse_trace_parent parse_fields version_field id_field hex_field hex_digit split bytes_eq
parent_value = refl

one_value : hex_field (codes "01") ≡ some 1
unfolding hex_field hex_digit
one_value = refl

trace_id_mixed : bytes_eq trace_id (replicate 32 b'0') ≡ false
unfolding bytes_eq
trace_id_mixed = refl

span_id_mixed : bytes_eq span_id (replicate 16 b'0') ≡ false
unfolding bytes_eq
span_id_mixed = refl

no_dash : (s : Bytes) → has_byte b'-' s ≡ false → All (λ c. (c == b'-') ≡ false) s
no_dash [] h = tt
no_dash (c ∷ s) h = elim (Bool-cases (c == b'-')) [
  | inl y ↦ let k : true ≡ false = (rw y at h) in absurd cc
  | inr n ↦ (n, no_dash s (rw n at h))
]

parse_trace_parent-header_example :
    parse_trace_parent
      (b'0' ∷ b'0' ∷ b'-' ∷ (trace_id ++ b'-' ∷ (span_id ++ b'-' ∷ (b'0' ∷ b'1' ∷ []))))
    ≡ some parent
parse_trace_parent-header_example =
    parse_trace_parent-header trace_id span_id [] b'0' b'1' 1 refl refl trace_id_mixed span_id_mixed
      (no_dash trace_id refl) (no_dash span_id refl) (refl, (refl, tt)) one_value tt

-- Keys and weights that are short enough to write down: no key changes, and the weight is 3.
abbrev library : Library
library = record { canonical = λ k. k; itoa = λ z. codes "3" }

abbrev carrier : List Header
carrier = inject_headers library context []

weight_read : (atoi (codes "3")).0 ≡ pos 3
unfolding atoi
weight_read = refl

extract_headers-inject_example :
    (ctx : HeaderContext) × (extract_headers carrier ≡ some ctx) × Agrees context ctx
extract_headers-inject_example =
    extract_headers-inject library context (λ k. refl) carrier weight_read (λ e. cc)
      (λ e. omega arith) (λ e. omega arith) (λ h m. m, λ h m. m)

carrier_value :
    carrier
    ≡ (codes "x-trace-id", codes "t")
      ∷ (codes "x-span-id", codes "s")
      ∷ (codes "x-sample-hit", codes "1")
      ∷ (codes "x-sample-weight", codes "3")
      ∷ (codes "x-baggage-a", codes "1")
      ∷ (codes "x-baggage-b", codes "2")
      ∷ (codes "x-sample-flags", codes "1")
      ∷ []
unfolding inject_headers set_sample set_baggage Headers.set remove_key bytes_eq flags_to_string
carrier_value = refl

abbrev state_text : Bytes
state_text = codes "app_id=7,,origin=web,a=b=c"

state_value :
    parse_trace_state state_text
    ≡ some (
        record { key = codes "app_id"; value = codes "7" }
        ∷ record { key = codes "origin"; value = codes "web" }
        ∷ [])
unfolding parse_trace_state limit_members parse_members add_member has_key split bytes_eq
state_value = refl

duplicate_key : parse_trace_state (codes "a=1,a=2") ≡ none
unfolding parse_trace_state limit_members parse_members add_member has_key split bytes_eq
duplicate_key = refl

-- The trace id of a request, if there is a context.
abbrev found_trace_id : Option HeaderContext → Bytes
found_trace_id none = []
found_trace_id (some ctx) = ctx.trace_id

abbrev own_ids : List Header
own_ids = (codes "X-Trace-Id", codes "t") ∷ (codes "X-Span-Id", codes "s") ∷ []

abbrev client_parent : List Header
client_parent =
    (codes "X-Rum-Traceparent", codes "00-4bf92f3577b34da6a3ce929d0e0e4736-00f067aa0ba902b7-01")
    ∷ []

-- With both kinds of headers, the trace id depends on the order in which Go ranges over the map.
order_matters :
    (found_trace_id (extract_headers (client_parent ++ own_ids)) ≡ codes "t")
    × (found_trace_id (extract_headers (own_ids ++ client_parent))
        ≡ codes "4bf92f3577b34da6a3ce929d0e0e4736")
unfolding extract_headers foreach_key on_header take_parent to_lower lower bytes_eq has_prefix
    parse_trace_parent parse_fields version_field id_field hex_field hex_digit split
order_matters = (refl, refl)
