-- ===== src/Propagation/Headers.antt =====
-- The HTTP headers of trace/aitracer/propagation.go. A carrier is the list of its keys and values,
-- in the order in which Go ranges over the map.
pub mod Injected
pub mod Carried
pub mod RoundTrip
use apminsight_server_sdk_go.Prelude.{
  ℕ, ◌+◌, Bool, true, false, ◌||◌, List, [], ◌∷◌, ◌++◌, Option, none, some, Bytes, codes, length,
  drop, ◌==◌, if◌then◌else◌, bytes_eq,
}
use apminsight_server_sdk_go.Prelude.Int.{ℤ, pos, eqb_ℤ, atoi, to_u32, of_u32}
use apminsight_server_sdk_go.Prelude.Strings.{to_lower, has_prefix}
use apminsight_server_sdk_go.Propagation.{
  SampleStrategy, unknown, not_sampled, sampled, SampleFlags, flags_unknown,
  sample_flags_from_int32, flags_to_string, SpanContext,
}
use apminsight_server_sdk_go.Propagation.TraceParent.{TraceParent, parse_trace_parent}
use apminsight_server_sdk_go.Propagation.TraceState.{
  Member, parse_trace_state, get_app_id, get_origin,
}

abbrev pub Header : Type 0
Header = Bytes × Bytes

abbrev pub trace_id_header : Bytes
trace_id_header = codes "x-trace-id"

abbrev pub span_id_header : Bytes
span_id_header = codes "x-span-id"

abbrev pub sample_hit_header : Bytes
sample_hit_header = codes "x-sample-hit"

abbrev pub sample_weight_header : Bytes
sample_weight_header = codes "x-sample-weight"

abbrev pub baggage_header_prefix : Bytes
baggage_header_prefix = codes "x-baggage-"

abbrev pub rum_w3c_traceparent : Bytes
rum_w3c_traceparent = codes "x-rum-traceparent"

abbrev pub rum_w3c_tracestate : Bytes
rum_w3c_tracestate = codes "x-rum-tracestate"

abbrev pub sample_flags_header : Bytes
sample_flags_header = codes "x-sample-flags"

-- The library: the canonical form of a header's key, and strconv.Itoa.
pub record Library : Type 0 where
  pub canonical : Bytes → Bytes
  pub itoa : ℤ → Bytes

-- `baggage` is a map, nil or not.
pub record HeaderContext : Type 0 where
  pub trace_id : Bytes
  pub span_id : Bytes
  pub sample_strategy : SampleStrategy
  pub sample_weight : ℤ
  pub client_sampled : Bool
  pub sample_flags : SampleFlags
  pub baggage : Bytes → Option Bytes

abbrev pub new_context : HeaderContext
new_context = record {
  trace_id = [];
  span_id = [];
  sample_strategy = unknown;
  sample_weight = pos 0;
  client_sampled = false;
  sample_flags = flags_unknown;
  baggage = λ k. none;
}

unfoldable pub remove_key : Bytes → List Header → List Header
remove_key k [] = []
remove_key k (h ∷ hs) = let rest = remove_key k hs in if bytes_eq h.0 k then rest else h ∷ rest

module _ (lib : Library) where
  -- http.Header.Set
  unfoldable pub set : Bytes → Bytes → List Header → List Header
  set key val c = remove_key (lib.canonical key) c ++ (lib.canonical key, val) ∷ []

  unfoldable pub set_sample : SampleStrategy → ℤ → List Header → List Header
  set_sample unknown weight c = c
  set_sample sampled weight c =
      set sample_weight_header (lib.itoa weight) (set sample_hit_header (codes "1") c)
  set_sample not_sampled weight c =
      set sample_weight_header (lib.itoa weight) (set sample_hit_header (codes "0") c)

  unfoldable pub set_baggage : List (Bytes × Bytes) → List Header → List Header
  set_baggage [] c = c
  set_baggage (item ∷ items) c = set_baggage items (set (baggage_header_prefix ++ item.0) item.1 c)

  unfoldable pub inject_headers : SpanContext → List Header → List Header
  inject_headers sc c = set sample_flags_header (flags_to_string sc.flags) (
      set_baggage sc.baggage (
        set_sample sc.strategy sc.weight
          (set span_id_header sc.span_id (set trace_id_header sc.trace_id c))))

unfoldable pub put_baggage : Bytes → Bytes → HeaderContext → HeaderContext
put_baggage key val ctx = record ctx {
  baggage = λ k. if bytes_eq k key then some val else ctx.baggage k;
}

unfoldable pub hit_strategy : ℤ → SampleStrategy → SampleStrategy
hit_strategy hit old =
    if eqb_ℤ hit (pos 0) then not_sampled else if eqb_ℤ hit (pos 1) then sampled else old

unfoldable pub take_parent : Option TraceParent → HeaderContext → HeaderContext
take_parent none ctx = ctx
take_parent (some tp) ctx = record ctx {
  trace_id = tp.trace_id;
  span_id = tp.parent_span_id;
  client_sampled = tp.trace_flags == 1;
}

unfoldable pub take_state : Option (List Member) → HeaderContext → HeaderContext
take_state none ctx = ctx
take_state (some ms) ctx =
    put_baggage (codes "apmplus.origin") (get_origin ms)
      (put_baggage (codes "apmplus.app_id") (get_app_id ms) ctx)

-- The switch on the key in lower case.
unfoldable pub on_header : Bytes → Bytes → HeaderContext → HeaderContext
on_header key val ctx =
    if bytes_eq key trace_id_header
    then record ctx { trace_id = val }
    else if bytes_eq key span_id_header
    then record ctx { span_id = val }
    else if bytes_eq key sample_hit_header
    then record ctx { sample_strategy = hit_strategy (atoi val).0 ctx.sample_strategy }
    else if bytes_eq key sample_weight_header
    then record ctx { sample_weight = (atoi val).0 }
    else if bytes_eq key rum_w3c_traceparent
    then take_parent (parse_trace_parent val) ctx
    else if bytes_eq key rum_w3c_tracestate
    then take_state (parse_trace_state val) ctx
    else if bytes_eq key sample_flags_header
    then record ctx { sample_flags = sample_flags_from_int32 (of_u32 (to_u32 (atoi val).0)) }
    else if has_prefix key baggage_header_prefix
    then put_baggage (drop (length baggage_header_prefix) key) val ctx
    else ctx

unfoldable pub foreach_key : List Header → HeaderContext → HeaderContext
foreach_key [] ctx = ctx
foreach_key (h ∷ hs) ctx = foreach_key hs (on_header (to_lower h.0) h.1 ctx)

-- `none` is the nil context without an error.
unfoldable pub extract_headers : List Header → Option HeaderContext
extract_headers hs =
    let ctx = foreach_key hs new_context in
    if (length ctx.trace_id == 0) || (length ctx.span_id == 0) then none else some ctx

-- The methods of an HTTPHeaderExtractSpanContext, `items` being its baggage in the order in which
-- Go ranges over it.
abbrev pub span_context_of : List (Bytes × Bytes) → HeaderContext → SpanContext
span_context_of items ctx = record {
  trace_id = ctx.trace_id;
  span_id = ctx.span_id;
  strategy = ctx.sample_strategy;
  weight = ctx.sample_weight;
  client_sampled = ctx.client_sampled;
  flags = ctx.sample_flags;
  baggage = items;
}

-- The context that `tracer.Extract` finds in headers, its error being ignored.
abbrev pub chain_of : List (Bytes × Bytes) → List Header → Option SpanContext
chain_of items hs = elim (extract_headers hs) [
  | none ↦ none
  | some ctx ↦ some (span_context_of items ctx)
]
