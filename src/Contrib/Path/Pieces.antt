-- ===== src/Contrib/Path/Pieces.antt =====
-- What the normalizer writes, by the pieces of the path between slashes.
use apminsight_server_sdk_go.Prelude.{
  ℕ, ◌+◌, ◌-◌, ◌≡◌, refl, ap, ◌∙◌, true, false, List, [], ◌∷◌, ◌++◌, map, Bytes, length, take, drop,
  ltb, ◌==◌, if◌then◌else◌, arith, Bool-cases, inl, inr, append_assoc, append-nil, length-append,
  drop-append, take-append_of,
}
use apminsight_server_sdk_go.Prelude.Strings.{split, cons_head}
use apminsight_server_sdk_go.Contrib.Path.{
  find_from, ends_in_slash, find_splitters, write_segment, write_segments, default_path_normalizer,
}

-- The segments of a path: what strings.Split at the slashes gives, less the empty ones.
abbrev pub nonempty : List Bytes → List Bytes
nonempty [] = []
nonempty ([] ∷ ps) = nonempty ps
nonempty ((c ∷ p) ∷ ps) = (c ∷ p) ∷ nonempty ps

abbrev pub segments : Bytes → List Bytes
segments path = nonempty (split b'/' path)

-- Each after a slash.
abbrev pub join_after : List Bytes → Bytes
join_after [] = []
join_after (p ∷ ps) = b'/' ∷ (p ++ join_after ps)

abbrev pub or_slash : Bytes → Bytes
or_slash [] = b'/' ∷ []
or_slash (c ∷ s) = c ∷ s

abbrev pub NoSlash : Bytes → Type 0
NoSlash [] = Unit
NoSlash (c ∷ s) = ((c == b'/') ≡ false) × NoSlash s

-- A text joins the first piece.
abbrev prepend : Bytes → List Bytes → List Bytes
prepend cur [] = cur ∷ []
prepend cur (p ∷ ps) = (cur ++ p) ∷ ps

NoSlash-snoc : (cur : Bytes) (c : ℕ) → NoSlash cur → (c == b'/') ≡ false → NoSlash (cur ++ c ∷ [])
NoSlash-snoc [] c h e = (e, tt)
NoSlash-snoc (d ∷ cur) c h e = (h.0, NoSlash-snoc cur c h.1 e)

prepend-cons_head :
    (cur : Bytes) (c : ℕ) (ps : List Bytes)
    → prepend cur (cons_head c ps) ≡ prepend (cur ++ c ∷ []) ps
prepend-cons_head cur c [] = refl
prepend-cons_head cur c (p ∷ ps) = rw (append_assoc cur (c ∷ []) p)

split-ne-nil : (s : Bytes) → (p : Bytes) × (ps : List Bytes) × (split b'/' s ≡ p ∷ ps)
unfolding split
split-ne-nil [] = ([], [], refl)
split-ne-nil (c ∷ s) = elim (Bool-cases (c == b'/')) [
  | inl e ↦ ([], split b'/' s, rw e)
  | inr e ↦ let (p, ps, h) = split-ne-nil s in (c ∷ p, ps, rw (e, h))
]

prepend-nil : (s : Bytes) → prepend [] (split b'/' s) ≡ split b'/' s
prepend-nil s = let (p, ps, h) = split-ne-nil s in rw h

-- The position past the end, unless a slash stands there.
abbrev last_position : Bytes → List ℕ
last_position path = if ends_in_slash path then [] else length path ∷ []

ends_in_slash-append :
    (pre : Bytes) (c : ℕ) (cur : Bytes) → NoSlash (c ∷ cur) → ends_in_slash (pre ++ c ∷ cur) ≡ false
unfolding ends_in_slash
ends_in_slash-append [] c [] h = h.0
ends_in_slash-append [] c (d ∷ cur) h = ends_in_slash-append [] d cur h.1
ends_in_slash-append (p ∷ []) c cur h = ends_in_slash-append [] c cur h
ends_in_slash-append (p ∷ q ∷ pre) c cur h = ends_in_slash-append (q ∷ pre) c cur h

-- The slice of the path between a position and the end of a text there.
take-drop_between :
    (pre cur s : Bytes)
    → take (length pre + length cur - length pre) (drop (length pre) (pre ++ (cur ++ s))) ≡ cur
take-drop_between pre cur s = rw (drop-append pre (cur ++ s)) (take-append_of _ cur s (omega arith))

-- What is written for one piece.
abbrev written : Bytes → Bytes
written cur = join_after (map write_segment (nonempty (cur ∷ [])))

written-append :
    (cur : Bytes) (ps : List Bytes)
    → written cur ++ join_after (map write_segment (nonempty ps))
      ≡ join_after (map write_segment (nonempty (cur ∷ ps)))
written-append [] ps = refl
written-append (c ∷ cur) ps = rw (append-nil (write_segment (c ∷ cur))) refl

position_step :
    (pre cur s path : Bytes) (start idx : ℕ) (ends : List ℕ)
    → path ≡ pre ++ (cur ++ s)
    → start ≡ length pre
    → idx ≡ length pre + length cur
    → write_segments path start (idx ∷ ends) ≡ written cur ++ write_segments path (idx + 1) ends
unfolding write_segments
position_step pre [] s path start idx ends ep es ei =
    let stays : ltb start idx ≡ false = ground arith in rw stays
position_step pre (c ∷ cur) s path start idx ends ep es ei =
    let moves : ltb start idx ≡ true = ground arith in
    let slice : take (idx - start) (drop start path) ≡ c ∷ cur =
      rw (ep, es, ei) (take-drop_between pre (c ∷ cur) s) in
    rw (moves, slice, append-nil (write_segment (c ∷ cur)))

last_step :
    (pre cur path : Bytes) (start idx : ℕ)
    → path ≡ pre ++ cur
    → start ≡ length pre
    → idx ≡ length pre + length cur
    → NoSlash cur
    → write_segments path start (last_position path) ≡ written cur
unfolding write_segments
last_step pre [] path start idx ep es ei h = elim (Bool-cases (ends_in_slash path)) [
  | inl e ↦ rw e
  | inr e ↦
      let stays : ltb start (length path) ≡ false = rw (ep, append-nil) (ground arith) in
      rw (e, stays)
]
last_step pre (c ∷ cur) path start idx ep es ei h =
    let open_end : ends_in_slash path ≡ false = rw ep (ends_in_slash-append pre c cur h) in
    let end : length path ≡ idx = omega (arith, ap length ep, length-append pre (c ∷ cur)) in
    rw (open_end, end)
      (position_step pre (c ∷ cur) [] path start idx [] (rw (append-nil cur) ep) es ei
        ∙ append-nil (written (c ∷ cur)))

write_segments-eq :
    (pre cur s path : Bytes) (start idx : ℕ)
    → path ≡ pre ++ (cur ++ s)
    → start ≡ length pre
    → idx ≡ length pre + length cur
    → NoSlash cur
    → write_segments path start (find_from idx s ++ last_position path)
      ≡ join_after (map write_segment (nonempty (prepend cur (split b'/' s))))
unfolding find_from split
write_segments-eq pre cur [] path start idx ep es ei h =
    rw (append-nil cur) (last_step pre cur path start idx (rw (append-nil cur) at ep) es ei h)
write_segments-eq pre cur (d ∷ s) path start idx ep es ei h = elim (Bool-cases (d == b'/')) [
  | inl e ↦
      rw (e, append-nil cur)
        (position_step pre cur (d ∷ s) path start idx (find_from (idx + 1) s ++ last_position path)
            ep es ei
          ∙ ap (λ r. written cur ++ r)
              (write_segments-eq (pre ++ (cur ++ d ∷ [])) [] s path (idx + 1) (idx + 1)
                  (rw (append_assoc pre (cur ++ d ∷ []) s, append_assoc cur (d ∷ []) s) ep)
                  (omega (arith, length-append pre (cur ++ d ∷ []), length-append cur (d ∷ [])))
                  (omega (arith, length-append pre (cur ++ d ∷ []), length-append cur (d ∷ []))) tt
                ∙ ap (λ ps. join_after (map write_segment (nonempty ps))) (prepend-nil s))
          ∙ written-append cur (split b'/' s))
  | inr e ↦
      rw (e, prepend-cons_head cur d (split b'/' s))
        (write_segments-eq pre (cur ++ d ∷ []) s path start (idx + 1)
          (rw (append_assoc cur (d ∷ []) s) ep) es (omega (arith, length-append cur (d ∷ [])))
          (NoSlash-snoc cur d h e))
]

or_slash_if : (w : Bytes) → (if length w == 0 then b'/' ∷ [] else w) ≡ or_slash w
or_slash_if [] = refl
or_slash_if (c ∷ w) = let more : (length (c ∷ w) == 0) ≡ false = ground arith in rw more

-- The normalizer writes what `write_segment` gives for each segment of the path that is not empty,
-- each after a slash, and a slash alone if there is no such segment.
pub default_path_normalizer-eq :
    (path : Bytes)
    → default_path_normalizer path ≡ or_slash (join_after (map write_segment (segments path)))
unfolding default_path_normalizer split
default_path_normalizer-eq [] = refl
default_path_normalizer-eq (c ∷ s) =
    let more : (length (c ∷ s) == 0) ≡ false = ground arith in
    rw more (
      or_slash_if (write_segments (c ∷ s) 0 (find_splitters (c ∷ s)))
      ∙ ap or_slash (
          write_segments-eq [] [] (c ∷ s) (c ∷ s) 0 0 refl refl refl tt
          ∙ ap (λ ps. join_after (map write_segment (nonempty ps))) (prepend-nil (c ∷ s))))
