-- ===== src/Tracing/Span/Reports.antt =====
-- What a span will show of a request: its report, and what the setters make of it.
use apminsight_server_sdk_go.Prelude.{
  ℕ, ◌≡◌, refl, ap, ◌∙◌, Bool, true, List, [], ◌∷◌, ◌++◌, Option, none, some, Bytes, codes,
  if◌then◌else◌, Bool-cases, inl, inr, bytes_eq,
}
use apminsight_server_sdk_go.Prelude.Int.{ℤ, pos}
use apminsight_server_sdk_go.Tracing.Span.{
  ErrorInfo, panic_error, MapOf, Span, FinishSpanOption, sub_time, set_tag_string, set_status,
  record_error, fill_tag, capture, finish_fields, finish_fields_with_option,
}

-- The status, the errors and the integer tags of a span, and whether it has finished.
pub record Report : Type 0 where
  pub status : ℤ
  pub errors : List ErrorInfo
  pub ints : MapOf ℤ
  pub finished : Bool

abbrev pub report : Span → Report
report s = record {
  status = s.status;
  errors = s.error_info_list;
  ints = s.tags_int64;
  finished = s.finished;
}

-- The panic that a Finish finds.
abbrev pub captured : Option Bytes → Report → Report
captured none r = r
captured (some m) r = record r {
  status = pos 1;
  errors = r.errors ++ record { error_kind = panic_error; error_message = m } ∷ [];
}

abbrev pub finished_report : Option Bytes → Report → Report
finished_report panic r = captured panic (record r { finished = true })

report-fill_tag : (slow : Option ℤ) (s : Span) → report (fill_tag slow s) ≡ report s
unfolding fill_tag set_tag_string
report-fill_tag slow s = elim (Bool-cases (bytes_eq s.client_type (codes "mysql"))) [
  | inl y ↦ rw y refl
  | inr n ↦ rw n refl
]

report-capture :
    (panic : Option Bytes) (s : Span) → report (capture panic s) ≡ captured panic (report s)
unfolding capture
report-capture none s = refl
report-capture (some m) s = refl

pub report-finish_fields :
    (slow : Option ℤ) (now : ℕ) (panic : Option Bytes) (s : Span)
    → report (finish_fields slow now panic s) ≡ finished_report panic (report s)
unfolding finish_fields
report-finish_fields slow now panic s =
    report-capture panic _ ∙ ap (captured panic) (report-fill_tag slow _)

pub report-finish_fields_with_option :
    (slow : Option ℤ) (now : ℕ) (opt : FinishSpanOption) (s : Span)
    → report (finish_fields_with_option slow now none opt s)
      ≡ record (report s) { finished = true; status = opt.option_status }
unfolding finish_fields_with_option
report-finish_fields_with_option slow now opt s =
    let time : ℕ = elim opt.option_finish_time [ none ↦ now | some t ↦ t ] in
    let s' : Span = record s {
      finished = true;
      status = opt.option_status;
      finish_time = time;
      duration = sub_time time s.start_time;
    } in
    elim (Bool-cases opt.disable_panic_capture) [
      | inl y ↦ rw y (report-capture none (fill_tag slow s') ∙ report-fill_tag slow s')
      | inr n ↦ rw n (report-capture none (fill_tag slow s') ∙ report-fill_tag slow s')
    ]

abbrev pub with_status : ℤ → Report → Report
with_status status r = if r.finished then r else record r { status = status }

abbrev pub with_error : ErrorInfo → Report → Report
with_error e r = if r.finished then r else record r { errors = r.errors ++ e ∷ [] }

pub report-set_status :
    (status : ℤ) (s : Span) → report (set_status status s) ≡ with_status status (report s)
unfolding set_status
report-set_status status s = elim (Bool-cases s.finished) [ inl y ↦ rw y refl | inr n ↦ rw n refl ]

pub report-record_error :
    (e : ErrorInfo) (s : Span) → report (record_error e s) ≡ with_error e (report s)
unfolding record_error
report-record_error e s = elim (Bool-cases s.finished) [ inl y ↦ rw y refl | inr n ↦ rw n refl ]
