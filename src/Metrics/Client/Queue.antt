-- ===== src/Metrics/Client/Queue.antt =====
-- What happens to metrics between Emit and the senders.
use mathlib.Core.Path.{subst}
use apminsight_server_sdk_go.Prelude.{
  length-nil, ℕ, ◌+◌, ◌≤◌, ◌<◌, ◌≡◌, ◌⊎◌, refl, ◌∙◌, true, false, List, [], ◌∷◌, ◌++◌, append_assoc,
  append-nil, none, some, arith, Bytes, length, leb, ltb, ◌==◌, length-append, Bool-cases, inl, inr,
  Option-cases, some_inj,
}
use apminsight_server_sdk_go.Metrics.Format.{Tag, MetricItem}
use apminsight_server_sdk_go.Metrics.Client.{
  Message, MetricsClient, batch_size, async_channel_size, offer, emit_metric, put, put_flush,
  batch_flush,
}

-- The items in the channel, oldest first.
abbrev pub queued : List Message → List MetricItem
queued [] = []
queued (none ∷ ms) = queued ms
queued (some batch ∷ ms) = batch ++ queued ms

queued-append : (ms ns : List Message) → queued (ms ++ ns) ≡ queued ms ++ queued ns
queued-append [] ns = refl
queued-append (none ∷ ms) ns = queued-append ms ns
queued-append (some b ∷ ms) ns = simp (queued-append ms ns, append_assoc)

-- The batch is never full, and the channel holds no more than it may.
pub record IsValid (mc : MetricsClient) : Type 0 where
  pub batch_in : length mc.batch_buf < batch_size
  pub channel_in : length mc.data_buf ≤ async_channel_size

-- Emitting keeps the batch below its size and the channel within its capacity.
emit_metric-IsValid :
    (mc : MetricsClient) (mt : ℕ) (name : Bytes) (value : ℕ) (tags : List Tag)
    → IsValid mc
    → IsValid (emit_metric mc mt name value tags)
unfolding emit_metric
emit_metric-IsValid mc mt name value tags v = ground (
  arith,
  length-append mc.batch_buf (record { mt = mt; name = name; value = value; tags = tags } ∷ []),
  length-append mc.data_buf (
      some (mc.batch_buf ++ record { mt = mt; name = name; value = value; tags = tags } ∷ []) ∷ []),
)

-- All the items that wait, in the order in which they were emitted.
abbrev pub waiting : MetricsClient → List MetricItem
waiting mc = queued mc.data_buf ++ mc.batch_buf

-- With room in the channel, an emitted metric is the last of those that wait, and none before it
-- is lost.
emit_metric-keeps :
    (mc : MetricsClient) (mt : ℕ) (name : Bytes) (value : ℕ) (tags : List Tag)
    → length mc.data_buf < async_channel_size
    → waiting (emit_metric mc mt name value tags)
      ≡ waiting mc ++ record { mt = mt; name = name; value = value; tags = tags } ∷ []
unfolding emit_metric
emit_metric-keeps mc mt name value tags room =
    let item : MetricItem = record { mt = mt; name = name; value = value; tags = tags } in
    let has_room : ltb (length mc.data_buf) async_channel_size ≡ true = ground arith in
    elim (Bool-cases (leb batch_size (length (mc.batch_buf ++ item ∷ [])))) [
      | inl complete ↦
          rw complete (
            unfold offer in rw (has_room, queued-append, append-nil, append-nil, append_assoc) refl)
      | inr partial ↦ rw partial (rw append_assoc refl)
    ]

-- With a full channel, the metric that completes a batch loses the whole batch, `batch_size`
-- metrics at once, and is counted once.
emit_metric-drops :
    (mc : MetricsClient) (mt : ℕ) (name : Bytes) (value : ℕ) (tags : List Tag)
    → async_channel_size ≤ length mc.data_buf
    → length mc.batch_buf + 1 ≡ batch_size
    → (waiting (emit_metric mc mt name value tags) ≡ queued mc.data_buf)
      × ((emit_metric mc mt name value tags).monitor.metric_buffer_full
          ≡ mc.monitor.metric_buffer_full + 1)
      × (length (waiting mc) + 1
          ≡ length (waiting (emit_metric mc mt name value tags)) + batch_size)
unfolding emit_metric
emit_metric-drops mc mt name value tags full last =
    let item : MetricItem = record { mt = mt; name = name; value = value; tags = tags } in
    let no_room : ltb (length mc.data_buf) async_channel_size ≡ false = ground arith in
    let complete : leb batch_size (length (mc.batch_buf ++ item ∷ [])) ≡ true =
      ground (arith, length-append mc.batch_buf (item ∷ [])) in
    rw complete (
      unfold offer in
      rw no_room (append-nil _, refl, rw (append-nil, length-append) (omega (arith, last))))

emit_metric-incomplete :
    (mc : MetricsClient) (mt : ℕ) (name : Bytes) (value : ℕ) (tags : List Tag)
    → length mc.batch_buf + 1 < batch_size
    → waiting (emit_metric mc mt name value tags)
      ≡ waiting mc ++ record { mt = mt; name = name; value = value; tags = tags } ∷ []
unfolding emit_metric
emit_metric-incomplete mc mt name value tags h =
    let item : MetricItem = record { mt = mt; name = name; value = value; tags = tags } in
    let partial : leb batch_size (length (mc.batch_buf ++ item ∷ [])) ≡ false =
      ground (arith, length-append mc.batch_buf (item ∷ [])) in
    rw partial (rw append_assoc refl)

-- While the batch is below its size and the channel within its capacity, they stay so, and a
-- metric that is emitted becomes the last of those that wait, none before it being lost; or the
-- channel is full and the metric completes the batch: then the whole batch, `batch_size` metrics
-- with the new one, is lost and counted once.
pub emit_metric-waiting :
    (mc : MetricsClient) (mt : ℕ) (name : Bytes) (value : ℕ) (tags : List Tag)
    → IsValid mc
    → IsValid (emit_metric mc mt name value tags)
      × ((waiting (emit_metric mc mt name value tags)
            ≡ waiting mc ++ record { mt = mt; name = name; value = value; tags = tags } ∷ [])
          ⊎ ((length mc.data_buf ≡ async_channel_size)
              × (length mc.batch_buf + 1 ≡ batch_size)
              × (waiting (emit_metric mc mt name value tags) ≡ queued mc.data_buf)
              × ((emit_metric mc mt name value tags).monitor.metric_buffer_full
                  ≡ mc.monitor.metric_buffer_full + 1)))
emit_metric-waiting mc mt name value tags v = (
  emit_metric-IsValid mc mt name value tags v,
  elim (Bool-cases (ltb (length mc.data_buf) async_channel_size)) [
    | inl room ↦ inl (emit_metric-keeps mc mt name value tags (ground arith))
    | inr full ↦ elim (Bool-cases (length mc.batch_buf + 1 == batch_size)) [
      | inr early ↦ inl (emit_metric-incomplete mc mt name value tags (ground (arith, v.batch_in)))
      | inl last ↦
          let (e, n, lost) =
            emit_metric-drops mc mt name value tags (ground arith) (ground arith) in
          inr (ground (arith, v.channel_in), ground arith, e, n)
    ]
  ],
)

put-some :
    (mc mc' : MetricsClient) (m : Message)
    → put mc m ≡ some mc'
    → (mc'.data_buf ≡ mc.data_buf ++ m ∷ []) × (mc'.batch_buf ≡ mc.batch_buf)
unfolding put
put-some mc mc' m h = elim (Bool-cases (ltb (length mc.data_buf) async_channel_size)) [
  | inl room ↦
      subst (λ c. (c.data_buf ≡ mc.data_buf ++ m ∷ []) × (c.batch_buf ≡ mc.batch_buf))
        (some_inj (rw room at h)) (refl, refl)
  | inr full ↦ let k : none ≡ some mc' = (rw full at h) in absurd cc
]

put_room :
    (mc : MetricsClient) (m : Message)
    → length mc.data_buf < async_channel_size
    → put mc m ≡ some (record mc { data_buf = mc.data_buf ++ m ∷ [] })
unfolding put
put_room mc m h =
    let room : ltb (length mc.data_buf) async_channel_size ≡ true = ground arith in rw room refl

-- A flush that finds room moves the whole batch to the channel, followed by the nil: what waits
-- is the same, and its last message is the nil.
pub batch_flush-keeps :
    (mc mc' : MetricsClient)
    → batch_flush mc ≡ some mc'
    → (waiting mc' ≡ waiting mc)
      × (mc'.batch_buf ≡ [])
      × ((before : List Message) × (mc'.data_buf ≡ before ++ none ∷ []))
unfolding batch_flush put_flush
batch_flush-keeps mc mc' h = elim (Bool-cases (length mc.batch_buf == 0)) [
  | inl e ↦
      let (ed, eb) = put-some mc mc' none (rw e at h) in
      let nothing : mc.batch_buf ≡ [] = length-nil mc.batch_buf (ground arith) in
      (rw (ed, eb, queued-append, append-nil) refl, eb ∙ nothing, (mc.data_buf, ed))
  | inr e ↦ elim (Option-cases (put (record mc { batch_buf = [] }) (some mc.batch_buf))) [
    | inl stuck ↦ let k : none ≡ some mc' = (rw (e, stuck) at h) in absurd cc
    | inr (m1, e1) ↦
        let (ed1, eb1) = put-some _ m1 (some mc.batch_buf) e1 in
        let (ed, eb) = put-some m1 mc' none (rw (e, e1) at h) in
        (
          rw (ed, eb, queued-append, ed1, eb1, queued-append, append-nil, append-nil, append-nil)
              refl,
          eb ∙ eb1,
          (m1.data_buf, ed),
        )
  ]
]

-- A flush proceeds whenever the channel has room for two messages.
pub batch_flush_room :
    (mc : MetricsClient)
    → length mc.data_buf + 2 ≤ async_channel_size
    → (mc' : MetricsClient) × (batch_flush mc ≡ some mc')
unfolding batch_flush put_flush
batch_flush_room mc h = elim (Bool-cases (length mc.batch_buf == 0)) [
  | inl e ↦ rw e (_, put_room mc none (omega (arith, h)))
  | inr e ↦
      rw (e, put_room (record mc { batch_buf = [] }) (some mc.batch_buf) (omega (arith, h)))
        (_, put_room _ none (omega (arith, h, length-append mc.data_buf (some mc.batch_buf ∷ []))))
]
