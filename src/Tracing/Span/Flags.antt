-- ===== src/Tracing/Span/Flags.antt =====
-- What the setters and Finish leave of a span's flags and id.
use apminsight_server_sdk_go.Prelude.{
  ℕ, ◌≡◌, refl, ◌∙◌, true, Option, none, some, Bytes, codes, bytes_eq, if◌then◌else◌, Bool-cases,
  inl, inr, arith,
}
use apminsight_server_sdk_go.Prelude.Int.{ℤ}
use apminsight_server_sdk_go.Tracing.Span.{
  ErrorInfo, Span, FinishSpanOption, set_status, record_error, set_tag_string, TagValue,
  string_value, int_value, uint_value, float32_value, float64_value, other_value, set_tag,
  set_baggage_item, fill_tag, capture, finish_fields, finish_fields_with_option, sub_time,
}

-- A write that leaves the flags and the id.
pub record IsQuiet (f : Span → Span) : Type 0 where
  pub finished_same : (s : Span) → (f s).finished ≡ s.finished
  pub collected_same : (s : Span) → (f s).collected ≡ s.collected
  pub id_same : (s : Span) → (f s).span_id ≡ s.span_id

-- The write of a Finish.
pub record IsFinishing (f : Span → Span) : Type 0 where
  pub finished_set : (s : Span) → (f s).finished ≡ true
  pub collected_kept : (s : Span) → (f s).collected ≡ s.collected
  pub id_kept : (s : Span) → (f s).span_id ≡ s.span_id

pub set_status-IsQuiet : (status : ℤ) → IsQuiet (set_status status)
unfolding set_status
set_status-IsQuiet status = record {
  finished_same = λ s. ground arith;
  collected_same = λ s. ground arith;
  id_same = λ s. ground arith;
}

pub record_error-IsQuiet : (e : ErrorInfo) → IsQuiet (record_error e)
unfolding record_error
record_error-IsQuiet e = record {
  finished_same = λ s. ground arith;
  collected_same = λ s. ground arith;
  id_same = λ s. ground arith;
}

set_tag-finished :
    (widen : ℕ → ℕ) (k : Bytes) (v : TagValue) (s : Span)
    → (set_tag widen k v s).finished ≡ s.finished
unfolding set_tag
set_tag-finished widen k (string_value v) s = refl
set_tag-finished widen k (int_value v) s = refl
set_tag-finished widen k (uint_value v) s = refl
set_tag-finished widen k (float32_value v) s = refl
set_tag-finished widen k (float64_value v) s = refl
set_tag-finished widen k other_value s = refl

set_tag-collected :
    (widen : ℕ → ℕ) (k : Bytes) (v : TagValue) (s : Span)
    → (set_tag widen k v s).collected ≡ s.collected
unfolding set_tag
set_tag-collected widen k (string_value v) s = refl
set_tag-collected widen k (int_value v) s = refl
set_tag-collected widen k (uint_value v) s = refl
set_tag-collected widen k (float32_value v) s = refl
set_tag-collected widen k (float64_value v) s = refl
set_tag-collected widen k other_value s = refl

set_tag-id :
    (widen : ℕ → ℕ) (k : Bytes) (v : TagValue) (s : Span)
    → (set_tag widen k v s).span_id ≡ s.span_id
unfolding set_tag
set_tag-id widen k (string_value v) s = refl
set_tag-id widen k (int_value v) s = refl
set_tag-id widen k (uint_value v) s = refl
set_tag-id widen k (float32_value v) s = refl
set_tag-id widen k (float64_value v) s = refl
set_tag-id widen k other_value s = refl

pub set_tag-IsQuiet : (widen : ℕ → ℕ) (k : Bytes) (v : TagValue) → IsQuiet (set_tag widen k v)
set_tag-IsQuiet widen k v = record {
  finished_same = λ s. set_tag-finished widen k v s;
  collected_same = λ s. set_tag-collected widen k v s;
  id_same = λ s. set_tag-id widen k v s;
}

pub set_baggage_item-IsQuiet : (k v : Bytes) → IsQuiet (set_baggage_item k v)
unfolding set_baggage_item
set_baggage_item-IsQuiet k v = record {
  finished_same = λ s. refl;
  collected_same = λ s. refl;
  id_same = λ s. refl;
}

fill_tag-IsQuiet : (slow : Option ℤ) → IsQuiet (fill_tag slow)
unfolding fill_tag set_tag_string
fill_tag-IsQuiet slow = record {
  finished_same = λ s. elim (Bool-cases (bytes_eq s.client_type (codes "mysql"))) [
    | inl y ↦ rw y refl
    | inr n ↦ rw n refl
  ];
  collected_same = λ s. elim (Bool-cases (bytes_eq s.client_type (codes "mysql"))) [
    | inl y ↦ rw y refl
    | inr n ↦ rw n refl
  ];
  id_same = λ s. elim (Bool-cases (bytes_eq s.client_type (codes "mysql"))) [
    | inl y ↦ rw y refl
    | inr n ↦ rw n refl
  ];
}

capture-IsQuiet : (panic : Option Bytes) → IsQuiet (capture panic)
unfolding capture
capture-IsQuiet none = record {
  finished_same = λ s. refl;
  collected_same = λ s. refl;
  id_same = λ s. refl;
}
capture-IsQuiet (some message) = record {
  finished_same = λ s. refl;
  collected_same = λ s. refl;
  id_same = λ s. refl;
}

-- Filling in the tags and the panic after a write that set `finished`.
then-IsFinishing :
    (slow : Option ℤ) (panic : Option Bytes) (f : Span → Span)
    → IsFinishing f
    → IsFinishing (λ s. capture panic (fill_tag slow (f s)))
then-IsFinishing slow panic f q =
    let c = capture-IsQuiet panic in
    let t = fill_tag-IsQuiet slow in
    record {
      finished_set = λ s. c.finished_same _ ∙ t.finished_same _ ∙ q.finished_set s;
      collected_kept = λ s. c.collected_same _ ∙ t.collected_same _ ∙ q.collected_kept s;
      id_kept = λ s. c.id_same _ ∙ t.id_same _ ∙ q.id_kept s;
    }

pub finish_fields-IsFinishing :
    (slow : Option ℤ) (now : ℕ) (panic : Option Bytes) → IsFinishing (finish_fields slow now panic)
unfolding finish_fields
finish_fields-IsFinishing slow now panic =
    then-IsFinishing slow panic
      (λ s. record s { finished = true; finish_time = now; duration = sub_time now s.start_time })
      (record { finished_set = λ s. refl; collected_kept = λ s. refl; id_kept = λ s. refl })

pub finish_fields_with_option-IsFinishing :
    (slow : Option ℤ) (now : ℕ) (panic : Option Bytes) (opt : FinishSpanOption)
    → IsFinishing (finish_fields_with_option slow now panic opt)
unfolding finish_fields_with_option
finish_fields_with_option-IsFinishing slow now panic opt =
    let time : ℕ = elim opt.option_finish_time [ none ↦ now | some t ↦ t ] in
    then-IsFinishing slow (if opt.disable_panic_capture then none else panic)
      (λ s. record s {
        finished = true;
        status = opt.option_status;
        finish_time = time;
        duration = sub_time time s.start_time;
      })
      (record { finished_set = λ s. refl; collected_kept = λ s. refl; id_kept = λ s. refl })
