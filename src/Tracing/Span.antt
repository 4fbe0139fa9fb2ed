-- ===== src/Tracing/Span.antt =====
-- trace/aitracer/span.go: the span and its setters. A time.Time is its nanoseconds since an epoch.
-- A float64 is its bit pattern.
pub mod Flags
pub mod Reports
use apminsight_server_sdk_go.Prelude.{
  ℕ, ◌+◌, ◌-◌, Bool, true, false, List, [], ◌∷◌, ◌++◌, Option, none, some, Bytes, codes, ltb, ◌==◌,
  if◌then◌else◌, bytes_eq,
}
use apminsight_server_sdk_go.Prelude.Int.{ℤ, pos, negsuc, ltb_ℤ, to_int64}

pub data SpanType : Type 0 where
  common_span_type : SpanType
  server_span_type : SpanType
  client_span_type : SpanType

pub data ErrorKind : Type 0 where
  uncaught_exception : ErrorKind
  business_error : ErrorKind
  db_error : ErrorKind
  external_service_error : ErrorKind
  http_code_error : ErrorKind
  no_sql_error : ErrorKind
  mq_error : ErrorKind
  panic_error : ErrorKind

-- Without the stack, the time and the tags, which packages runtime, time and reflect supply.
pub record ErrorInfo : Type 0 where
  pub error_kind : ErrorKind
  pub error_message : Bytes

-- A Go map from strings, the keys in the order in which they were first set.
abbrev pub MapOf {ℓ} : Type ℓ → Type ℓ
MapOf V = List (Bytes × V)

abbrev pub Dict : Type 0
Dict = MapOf Bytes

-- `m[k] = v` and `m[k]`
unfoldable pub set_key {ℓ} : {V : Type ℓ} → Bytes → V → MapOf V → MapOf V
set_key k v [] = (k, v) ∷ []
set_key k v ((k', v') ∷ m) = if bytes_eq k k' then (k, v) ∷ m else (k', v') ∷ set_key k v m

unfoldable pub get_key {ℓ} : {V : Type ℓ} → Bytes → MapOf V → Option V
get_key k [] = none
get_key k ((k', v) ∷ m) = if bytes_eq k k' then some v else get_key k m

pub record Span : Type 0 where
  pub span_type : SpanType
  pub status : ℤ
  pub operation_name : Bytes
  pub server_resource : Bytes
  pub client_type : Bytes
  pub client_service : Bytes
  pub client_resource : Bytes
  pub error_info_list : List ErrorInfo
  pub start_time : ℕ
  pub finish_time : ℕ
  pub duration : ℤ
  pub tags_string : Dict
  pub tags_int64 : MapOf ℤ
  pub tags_float64 : MapOf ℕ
  pub span_id : Bytes
  pub parent_span_id : Bytes
  pub baggage : Dict
  pub finished : Bool
  pub collected : Bool

-- `t.Sub(u)`
pub sub_time : ℕ → ℕ → ℤ
sub_time t u = if ltb t u then negsuc (u - t - 1) else pos (t - u)

unfoldable pub set_tag_string : Bytes → Bytes → Span → Span
unfolding set_key
set_tag_string k v s = record s { tags_string = set_key k v s.tags_string }

unfoldable pub set_tag_int64 : Bytes → ℤ → Span → Span
unfolding set_key
set_tag_int64 k v s = record s { tags_int64 = set_key k v s.tags_int64 }

unfoldable pub set_tag_float64 : Bytes → ℕ → Span → Span
unfolding set_key
set_tag_float64 k v s = record s { tags_float64 = set_key k v s.tags_float64 }

-- The value of a tag, by its dynamic type: a string; int, int8 to int64; uint, uint8 to uint32;
-- float32 and float64; any other type.
pub data TagValue : Type 0 where
  string_value : Bytes → TagValue
  int_value : ℤ → TagValue
  uint_value : ℕ → TagValue
  float32_value : ℕ → TagValue
  float64_value : ℕ → TagValue
  other_value : TagValue

-- `widen` is the conversion of a float32 to float64.
unfoldable pub set_tag : (ℕ → ℕ) → Bytes → TagValue → Span → Span
unfolding set_tag_string set_tag_int64 set_tag_float64 to_int64
set_tag widen k (string_value v) s = set_tag_string k v s
set_tag widen k (int_value v) s = set_tag_int64 k v s
set_tag widen k (uint_value v) s = set_tag_int64 k (to_int64 v) s
set_tag widen k (float32_value v) s = set_tag_float64 k (widen v) s
set_tag widen k (float64_value v) s = set_tag_float64 k v s
set_tag widen k other_value s = s

unfoldable pub set_baggage_item : Bytes → Bytes → Span → Span
unfolding set_key
set_baggage_item k v s = record s { baggage = set_key k v s.baggage }

-- A missing key reads as the empty text.
unfoldable pub baggage_item : Bytes → Span → Bytes
unfolding get_key
baggage_item k s = elim (get_key k s.baggage) [ none ↦ [] | some v ↦ v ]

unfoldable pub set_status : ℤ → Span → Span
set_status status s = if s.finished then s else record s { status = status }

unfoldable pub record_error : ErrorInfo → Span → Span
record_error e s =
    if s.finished then s else record s { error_info_list = s.error_info_list ++ e ∷ [] }

-- fillTag, `slow_query` being `DbSlowQuery` of the dynamic config, if there is one.
pub fill_tag : Option ℤ → Span → Span
unfolding set_tag_string
fill_tag slow_query s =
    let is_slow : Bool = elim slow_query [ none ↦ false | some limit ↦ ltb_ℤ limit s.duration ] in
    let s' =
      if bytes_eq s.client_type (codes "mysql")
      then set_tag_string (codes "db.slow_query") (if is_slow then codes "1" else codes "0") s
      else s in
    set_tag_string (codes "sdk.language") (codes "Go") s'

-- The panic that recover() found: appended to the errors, and the status is 1.
pub capture : Option Bytes → Span → Span
capture none s = s
capture (some message) s = record s {
  error_info_list =
      s.error_info_list ++ record { error_kind = panic_error; error_message = message } ∷ [];
  status = pos 1;
}

-- FinishSpanOption, a zero FinishTime being `none`.
pub record FinishSpanOption : Type 0 where
  pub option_status : ℤ
  pub option_finish_time : Option ℕ
  pub disable_panic_capture : Bool

-- What Finish and FinishWithOption do to a span before emitMetric, once the swap of `finished`
-- succeeded.
unfoldable pub finish_fields : Option ℤ → ℕ → Option Bytes → Span → Span
unfolding sub_time fill_tag capture
finish_fields slow_query now panic s = capture panic (
    fill_tag slow_query
      (record s { finished = true; finish_time = now; duration = sub_time now s.start_time }))

unfoldable pub finish_fields_with_option :
    Option ℤ → ℕ → Option Bytes → FinishSpanOption → Span → Span
unfolding sub_time fill_tag capture
finish_fields_with_option slow_query now panic opt s =
    let time : ℕ = elim opt.option_finish_time [ none ↦ now | some t ↦ t ] in
    capture (if opt.disable_panic_capture then none else panic) (
      fill_tag slow_query (record s {
        finished = true;
        status = opt.option_status;
        finish_time = time;
        duration = sub_time time s.start_time;
      }))
