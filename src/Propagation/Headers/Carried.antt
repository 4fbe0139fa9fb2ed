-- ===== src/Propagation/Headers/Carried.antt =====
-- The headers that are in the carrier when HTTPHeadersInjector is done.
use mathlib.Core.Path.{subst}
use mathlib.Core.List.{Memᴰ}
use apminsight_server_sdk_go.Prelude.{
  ◌≡◌, ◌≢◌, refl, sym, false, List, [], ◌∷◌, ◌++◌, Bytes, bytes_eq, All,
}
use apminsight_server_sdk_go.Prelude.Strings.{to_lower, lower}
use apminsight_server_sdk_go.Propagation.{unknown, flags_to_string, SpanContext}
use apminsight_server_sdk_go.Propagation.Headers.{
  Header, Library, HeaderContext, set, set_baggage, inject_headers, trace_id_header, span_id_header,
  sample_hit_header, sample_weight_header, baggage_header_prefix, sample_flags_header,
}
use apminsight_server_sdk_go.Propagation.Headers.Injected.{
  Kind, key_of, Fine, Sets, apply, on_header-apply, hit_text, set_sample-eq, ValueOf, Injected,
  KeepsLetters, set-Mem_self, set-Mem_other,
}

pub All-of_Mem :
    (P : Header → Type 0) (hs : List Header) → ((h : Header) → Memᴰ h hs → P h) → All P hs
All-of_Mem P [] f = tt
All-of_Mem P (h ∷ hs) f = (f h (Memᴰ.head refl), All-of_Mem P hs (λ g m. f g (Memᴰ.tail m)))

pub Mem-of_All : (P : Header → Type 0) (hs : List Header) (h : Header) → All P hs → Memᴰ h hs → P h
Mem-of_All P [] h a m = elim m [ ]
Mem-of_All P (g ∷ hs) h a (Memᴰ.head e) = subst P (sym e) a.0
Mem-of_All P (g ∷ hs) h a (Memᴰ.tail m) = Mem-of_All P hs h a.1 m

module _ (lib : Library) (sc : SpanContext) (letters : KeepsLetters lib) where
  -- A field that each kind of header keeps right.
  pub Injected-Fine :
      {X : Type 0} (field : HeaderContext → X) (x : X)
      → ((kind : Kind) (v : Bytes) (c : HeaderContext)
          → ValueOf lib sc kind v
          → field c ≡ x
          → field (apply kind v c) ≡ x)
      → (h : Header) → Injected lib sc h
      → Fine field x h
  Injected-Fine field x keeps h (kind, v, e, right) c known =
      rw (e, letters (key_of kind), on_header-apply kind v c) (keeps kind v c right known)

  pub Sets-apply :
      {X : Type 0} (field : HeaderContext → X) (x : X) (kind : Kind) (v : Bytes)
      → ((c : HeaderContext) → field (apply kind v c) ≡ x)
      → Sets field x (lib.canonical (key_of kind), v)
  Sets-apply field x kind v f c = rw (letters (key_of kind), on_header-apply kind v c) (f c)

  set_baggage-Mem :
      (j w : Bytes) (items : List (Bytes × Bytes)) (c : List Header)
      → ((k : Bytes) → bytes_eq (to_lower j) (to_lower (baggage_header_prefix ++ k)) ≡ false)
      → Memᴰ (lib.canonical j, w) c
      → Memᴰ (lib.canonical j, w) (set_baggage lib items c)
  unfolding set_baggage
  set_baggage-Mem j w [] c d m = m
  set_baggage-Mem j w (i ∷ items) c d m =
      set_baggage-Mem j w items (set lib (baggage_header_prefix ++ i.0) i.1 c) d
        (set-Mem_other lib j (baggage_header_prefix ++ i.0) i.1 w c letters (d i.0) m)

  abbrev ids : List Header
  ids = set lib span_id_header sc.span_id (set lib trace_id_header sc.trace_id [])

  abbrev with_hit : List Header
  with_hit = set lib sample_hit_header (hit_text sc.strategy) ids

  abbrev with_weight : List Header
  with_weight = set lib sample_weight_header (lib.itoa sc.weight) with_hit

  inject_headers-eq :
      sc.strategy ≢ unknown
      → inject_headers lib sc []
        ≡ set lib sample_flags_header
            (flags_to_string sc.flags)
            (set_baggage lib sc.baggage with_weight)
  unfolding inject_headers
  inject_headers-eq known = rw (set_sample-eq lib sc.strategy sc.weight ids known) refl

  -- A header that was there before the baggage is there at the end.
  Mem-inject_headers :
      (j w : Bytes)
      → sc.strategy ≢ unknown
      → ((k : Bytes) → bytes_eq (to_lower j) (to_lower (baggage_header_prefix ++ k)) ≡ false)
      → bytes_eq (to_lower j) (to_lower sample_flags_header) ≡ false
      → Memᴰ (lib.canonical j, w) with_weight
      → Memᴰ (lib.canonical j, w) (inject_headers lib sc [])
  Mem-inject_headers j w known d e m = rw (inject_headers-eq known) (
      set-Mem_other lib j sample_flags_header (flags_to_string sc.flags) w
        (set_baggage lib sc.baggage with_weight) letters e
        (set_baggage-Mem j w sc.baggage with_weight d m))

  pub Mem-trace :
      sc.strategy ≢ unknown
      → Memᴰ (lib.canonical trace_id_header, sc.trace_id) (inject_headers lib sc [])
  unfolding bytes_eq to_lower lower
  Mem-trace known =
      Mem-inject_headers trace_id_header sc.trace_id known (λ k. refl) refl
        (set-Mem_other lib trace_id_header sample_weight_header _ sc.trace_id with_hit letters refl
          (set-Mem_other lib trace_id_header sample_hit_header _ sc.trace_id ids letters refl (
            set-Mem_other lib trace_id_header span_id_header _ sc.trace_id
              (set lib trace_id_header sc.trace_id []) letters refl
              (set-Mem_self lib trace_id_header sc.trace_id []))))

  pub Mem-span :
      sc.strategy ≢ unknown
      → Memᴰ (lib.canonical span_id_header, sc.span_id) (inject_headers lib sc [])
  unfolding bytes_eq to_lower lower
  Mem-span known =
      Mem-inject_headers span_id_header sc.span_id known (λ k. refl) refl
        (set-Mem_other lib span_id_header sample_weight_header _ sc.span_id with_hit letters refl (
          set-Mem_other lib span_id_header sample_hit_header _ sc.span_id ids letters refl
            (set-Mem_self lib span_id_header sc.span_id (set lib trace_id_header sc.trace_id []))))

  pub Mem-hit :
      sc.strategy ≢ unknown
      → Memᴰ (lib.canonical sample_hit_header, hit_text sc.strategy) (inject_headers lib sc [])
  unfolding bytes_eq to_lower lower
  Mem-hit known =
      Mem-inject_headers sample_hit_header (hit_text sc.strategy) known (λ k. refl) refl
        (set-Mem_other lib sample_hit_header sample_weight_header _ (hit_text sc.strategy) with_hit
          letters refl (set-Mem_self lib sample_hit_header (hit_text sc.strategy) ids))

  pub Mem-weight :
      sc.strategy ≢ unknown
      → Memᴰ (lib.canonical sample_weight_header, lib.itoa sc.weight) (inject_headers lib sc [])
  unfolding bytes_eq to_lower lower
  Mem-weight known =
      Mem-inject_headers sample_weight_header (lib.itoa sc.weight) known (λ k. refl) refl
        (set-Mem_self lib sample_weight_header (lib.itoa sc.weight) with_hit)

  pub Mem-flags :
      sc.strategy ≢ unknown
      → Memᴰ
          (lib.canonical sample_flags_header, flags_to_string sc.flags)
          (inject_headers lib sc [])
  Mem-flags known = rw (inject_headers-eq known) (
      set-Mem_self lib sample_flags_header (flags_to_string sc.flags)
        (set_baggage lib sc.baggage with_weight))
