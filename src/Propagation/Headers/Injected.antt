-- ===== src/Propagation/Headers/Injected.antt =====
-- The headers that HTTPHeadersInjector sets, and what each of them does to the extracted context.
use mathlib.Core.Path.{subst}
use mathlib.Core.List.{Memᴰ}
use apminsight_server_sdk_go.Prelude.{
  ◌≡◌, ◌≢◌, refl, sym, ap, ◌∙◌, true, false, List, [], ◌∷◌, ◌++◌, Bytes, codes, bytes_eq,
  bytes_eq→eq, All, All-append, Bool-cases, inl, inr, bytes_eq_refl,
}
use apminsight_server_sdk_go.Prelude.Int.{ℤ, atoi, to_u32, of_u32}
use apminsight_server_sdk_go.Prelude.Strings.{to_lower, lower, has_prefix}
use apminsight_server_sdk_go.Propagation.{
  SampleStrategy, unknown, not_sampled, sampled, SampleFlags, flags_unknown, flags_not_sampled,
  flags_client_sampled, flags_server_sampled, flags_client_and_server_sampled,
  sample_flags_from_int32, flags_to_string, SpanContext,
}
use apminsight_server_sdk_go.Propagation.Headers.{
  Header, Library, HeaderContext, remove_key, set, set_sample, set_baggage, inject_headers,
  put_baggage, hit_strategy, on_header, foreach_key, trace_id_header, span_id_header,
  sample_hit_header, sample_weight_header, baggage_header_prefix, sample_flags_header,
}

-- A header that the injector sets.
pub data Kind : Type 0 where
  trace : Kind
  span : Kind
  hit : Kind
  weight : Kind
  flags : Kind
  item : Bytes → Bytes → Kind

abbrev pub key_of : Kind → Bytes
key_of trace = trace_id_header
key_of span = span_id_header
key_of hit = sample_hit_header
key_of weight = sample_weight_header
key_of flags = sample_flags_header
key_of (item k v) = baggage_header_prefix ++ k

module _ {X : Type 0} (field : HeaderContext → X) (x : X) where
  -- A header that does not spoil the field, and one that sets it.
  abbrev pub Fine : Header → Type 0
  Fine h = (c : HeaderContext) → field c ≡ x → field (on_header (to_lower h.0) h.1 c) ≡ x

  abbrev pub Sets : Header → Type 0
  Sets h = (c : HeaderContext) → field (on_header (to_lower h.0) h.1 c) ≡ x

  foreach_key-keeps :
      (hs : List Header) (c : HeaderContext)
      → All Fine hs
      → field c ≡ x
      → field (foreach_key hs c) ≡ x
  unfolding foreach_key
  foreach_key-keeps [] c f e = e
  foreach_key-keeps (h ∷ hs) c f e =
      foreach_key-keeps hs (on_header (to_lower h.0) h.1 c) f.1 (f.0 c e)

  pub foreach_key-Sets :
      (hs : List Header) (h : Header) (c : HeaderContext)
      → All Fine hs
      → Memᴰ h hs
      → Sets h
      → field (foreach_key hs c) ≡ x
  unfolding foreach_key
  foreach_key-Sets [] h c f m s = elim m [ ]
  foreach_key-Sets (g ∷ hs) h c f (Memᴰ.head e) s =
      foreach_key-keeps hs (on_header (to_lower g.0) g.1 c) f.1
        (subst (λ y. field (on_header (to_lower y.0) y.1 c) ≡ x) e (s c))
  foreach_key-Sets (g ∷ hs) h c f (Memᴰ.tail m) s =
      foreach_key-Sets hs h (on_header (to_lower g.0) g.1 c) f.1 m s

abbrev pub apply : Kind → Bytes → HeaderContext → HeaderContext
apply trace v c = record c { trace_id = v }
apply span v c = record c { span_id = v }
apply hit v c = record c { sample_strategy = hit_strategy (atoi v).0 c.sample_strategy }
apply weight v c = record c { sample_weight = (atoi v).0 }
apply flags v c = record c { sample_flags = sample_flags_from_int32 (of_u32 (to_u32 (atoi v).0)) }
apply (item k x) v c = put_baggage (to_lower k) v c

pub on_header-apply :
    (kind : Kind) (v : Bytes) (c : HeaderContext)
    → on_header (to_lower (key_of kind)) v c ≡ apply kind v c
unfolding on_header to_lower lower bytes_eq has_prefix
on_header-apply trace v c = refl
on_header-apply span v c = refl
on_header-apply hit v c = refl
on_header-apply weight v c = refl
on_header-apply flags v c = refl
on_header-apply (item k x) v c = refl

abbrev pub hit_text : SampleStrategy → Bytes
hit_text unknown = []
hit_text not_sampled = codes "0"
hit_text sampled = codes "1"

pub hit_strategy-hit_text :
    (st old : SampleStrategy) → st ≢ unknown → hit_strategy (atoi (hit_text st)).0 old ≡ st
unfolding hit_strategy atoi
hit_strategy-hit_text unknown old h = absurd (h refl)
hit_strategy-hit_text not_sampled old h = refl
hit_strategy-hit_text sampled old h = refl

pub flags-flags_to_string :
    (f : SampleFlags) → sample_flags_from_int32 (of_u32 (to_u32 (atoi (flags_to_string f)).0)) ≡ f
unfolding sample_flags_from_int32 flags_to_string of_u32 to_u32 atoi
flags-flags_to_string flags_unknown = refl
flags-flags_to_string flags_not_sampled = refl
flags-flags_to_string flags_client_sampled = refl
flags-flags_to_string flags_server_sampled = refl
flags-flags_to_string flags_client_and_server_sampled = refl

pub set_sample-eq :
    (lib : Library) (st : SampleStrategy) (w : ℤ) (c : List Header)
    → st ≢ unknown
    → set_sample lib st w c
      ≡ set lib sample_weight_header (lib.itoa w) (set lib sample_hit_header (hit_text st) c)
unfolding set_sample
set_sample-eq lib unknown w c h = absurd (h refl)
set_sample-eq lib not_sampled w c h = refl
set_sample-eq lib sampled w c h = refl

-- What the injector writes under a key of its own.
abbrev pub ValueOf : Library → SpanContext → Kind → Bytes → Type 0
ValueOf lib sc trace v = v ≡ sc.trace_id
ValueOf lib sc span v = v ≡ sc.span_id
ValueOf lib sc hit v = v ≡ hit_text sc.strategy
ValueOf lib sc weight v = v ≡ lib.itoa sc.weight
ValueOf lib sc flags v = v ≡ flags_to_string sc.flags
ValueOf lib sc (item k x) v = Unit {0}

abbrev pub Injected : Library → SpanContext → Header → Type 0
Injected lib sc h =
    (kind : Kind) × (v : Bytes) × (h ≡ (lib.canonical (key_of kind), v)) × ValueOf lib sc kind v

All-remove_key :
    (P : Header → Type 0) (k : Bytes) (hs : List Header) → All P hs → All P (remove_key k hs)
unfolding remove_key
All-remove_key P k [] a = a
All-remove_key P k (h ∷ hs) a = elim (Bool-cases (bytes_eq h.0 k)) [
  | inl e ↦ rw e (All-remove_key P k hs a.1)
  | inr e ↦ rw e (a.0, All-remove_key P k hs a.1)
]

Mem-remove_key :
    (k : Bytes) (h : Header) (hs : List Header)
    → bytes_eq h.0 k ≡ false
    → Memᴰ h hs
    → Memᴰ h (remove_key k hs)
unfolding remove_key
Mem-remove_key k h [] d m = elim m [ ]
Mem-remove_key k h (g ∷ hs) d (Memᴰ.head e) =
    let other : bytes_eq g.0 k ≡ false = subst (λ y. bytes_eq y.0 k ≡ false) e d in
    rw other (Memᴰ.head e)
Mem-remove_key k h (g ∷ hs) d (Memᴰ.tail m) = elim (Bool-cases (bytes_eq g.0 k)) [
  | inl e ↦ rw e (Mem-remove_key k h hs d m)
  | inr e ↦ rw e (Memᴰ.tail (Mem-remove_key k h hs d m))
]

Mem-append_left : (h : Header) (hs gs : List Header) → Memᴰ h hs → Memᴰ h (hs ++ gs)
Mem-append_left h [] gs m = elim m [ ]
Mem-append_left h (g ∷ hs) gs (Memᴰ.head e) = Memᴰ.head e
Mem-append_left h (g ∷ hs) gs (Memᴰ.tail m) = Memᴰ.tail (Mem-append_left h hs gs m)

Mem-append_last : (h : Header) (hs : List Header) → Memᴰ h (hs ++ h ∷ [])
Mem-append_last h [] = Memᴰ.head refl
Mem-append_last h (g ∷ hs) = Memᴰ.tail (Mem-append_last h hs)

module _ (lib : Library) where
  -- textproto.CanonicalMIMEHeaderKey changes the case of letters at most.
  abbrev pub KeepsLetters : Type 0
  KeepsLetters = (k : Bytes) → to_lower (lib.canonical k) ≡ to_lower k

  canonical_differ :
      (j k : Bytes)
      → KeepsLetters
      → bytes_eq (to_lower j) (to_lower k) ≡ false
      → bytes_eq (lib.canonical j) (lib.canonical k) ≡ false
  canonical_differ j k letters d =
      elim (Bool-cases (bytes_eq (lib.canonical j) (lib.canonical k))) [
        | inr e ↦ e
        | inl e ↦
            let same : to_lower j ≡ to_lower k =
              sym (letters j) ∙ ap to_lower (bytes_eq→eq _ _ e) ∙ letters k in
            let equal : bytes_eq (to_lower j) (to_lower k) ≡ true =
              rw same (bytes_eq_refl (to_lower k)) in
            absurd cc
      ]

  pub set-Mem_self : (k v : Bytes) (c : List Header) → Memᴰ (lib.canonical k, v) (set lib k v c)
  unfolding set
  set-Mem_self k v c = Mem-append_last (lib.canonical k, v) (remove_key (lib.canonical k) c)

  pub set-Mem_other :
      (j k v w : Bytes) (c : List Header)
      → KeepsLetters
      → bytes_eq (to_lower j) (to_lower k) ≡ false
      → Memᴰ (lib.canonical j, w) c
      → Memᴰ (lib.canonical j, w) (set lib k v c)
  unfolding set
  set-Mem_other j k v w c letters d m =
      Mem-append_left (lib.canonical j, w) (remove_key (lib.canonical k) c)
        ((lib.canonical k, v) ∷ [])
        (Mem-remove_key (lib.canonical k) (lib.canonical j, w) c (canonical_differ j k letters d) m)

  set-Injected :
      (sc : SpanContext) (kind : Kind) (v : Bytes) (c : List Header)
      → ValueOf lib sc kind v
      → All (Injected lib sc) c
      → All (Injected lib sc) (set lib (key_of kind) v c)
  unfolding set
  set-Injected sc kind v c e a =
      All-append (Injected lib sc) (remove_key (lib.canonical (key_of kind)) c)
        ((lib.canonical (key_of kind), v) ∷ [])
        (All-remove_key (Injected lib sc) (lib.canonical (key_of kind)) c a)
        ((kind, v, refl, e), tt)

  set_baggage-Injected :
      (sc : SpanContext) (items : List (Bytes × Bytes)) (c : List Header)
      → All (Injected lib sc) c
      → All (Injected lib sc) (set_baggage lib items c)
  unfolding set_baggage
  set_baggage-Injected sc [] c a = a
  set_baggage-Injected sc (i ∷ items) c a =
      set_baggage-Injected sc items (set lib (baggage_header_prefix ++ i.0) i.1 c)
        (set-Injected sc (item i.0 i.1) i.1 c tt a)

  pub inject_headers-Injected :
      (sc : SpanContext) → sc.strategy ≢ unknown → All (Injected lib sc) (inject_headers lib sc [])
  unfolding inject_headers
  inject_headers-Injected sc known = set-Injected sc flags (flags_to_string sc.flags) _ refl (
      set_baggage-Injected sc sc.baggage _ (
        rw (set_sample-eq lib sc.strategy sc.weight _ known) (
          set-Injected sc weight (lib.itoa sc.weight) _ refl (
            set-Injected sc hit (hit_text sc.strategy) _ refl (
              set-Injected sc span sc.span_id _ refl
                (set-Injected sc trace sc.trace_id [] refl tt))))))
