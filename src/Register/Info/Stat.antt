-- ===== src/Register/Info/Stat.antt =====
-- The time of the start, as it is read of the text of /proc/<pid>/stat.
use apminsight_server_sdk_go.Prelude.{
  ◌≤◌, ◌≡◌, refl, ap, ◌∙◌, true, false, List, [], ◌∷◌, ◌++◌, some, Bytes, length, get_elem?, All,
  arith,
}
use apminsight_server_sdk_go.Register.Info.{
  is_space, split_space, drop_empty, fields, ends_in_paren, after_name, parse_uint, start_ticks,
  join_space,
}

-- A word: not empty, and without white space.
abbrev pub IsWord : Bytes → Type 0
IsWord w = (1 ≤ length w) × All (λ c. is_space c ≡ false) w

split_space-append :
    (w rest : Bytes)
    → All (λ c. is_space c ≡ false) w
    → split_space (w ++ b' ' ∷ rest) ≡ w ∷ split_space rest
unfolding split_space
split_space-append [] rest h = refl
split_space-append (c ∷ w) rest h = rw (h.0, split_space-append w rest h.1) refl

split_space_of_word : (w : Bytes) → All (λ c. is_space c ≡ false) w → split_space w ≡ w ∷ []
unfolding split_space
split_space_of_word [] h = refl
split_space_of_word (c ∷ w) h = rw (h.0, split_space_of_word w h.1) refl

drop_empty-cons :
    (w : Bytes) (ps : List Bytes) → 1 ≤ length w → drop_empty (w ∷ ps) ≡ w ∷ drop_empty ps
unfolding drop_empty
drop_empty-cons [] ps h = absurd (omega arith)
drop_empty-cons (c ∷ w) ps h = refl

pub fields-join_space : (ws : List Bytes) → All IsWord ws → fields (join_space ws) ≡ ws
unfolding fields join_space drop_empty split_space
fields-join_space [] h = refl
fields-join_space (w ∷ []) h = rw (split_space_of_word w h.0.1) (drop_empty-cons w [] h.0.0)
fields-join_space (w ∷ v ∷ ws) h = rw (split_space-append w (join_space (v ∷ ws)) h.0.1) (
    drop_empty-cons w (split_space (join_space (v ∷ ws))) h.0.0
    ∙ ap (λ ps. w ∷ ps) (fields-join_space (v ∷ ws) h.1))

after_name-words :
    (words : List Bytes) (name : Bytes) (rest : List Bytes)
    → All (λ w. ends_in_paren w ≡ false) words
    → ends_in_paren name ≡ true
    → after_name (words ++ name ∷ rest) ≡ some rest
unfolding after_name
after_name-words [] name rest h e = rw e refl
after_name-words (w ∷ words) name rest h e = rw (h.0, after_name-words words name rest h.1 e) refl

-- Of a text of fields with a space between them, a pid, the words of a command's name, of which
-- the last and no other ends in a parenthesis, and at least twenty more, the time of the start is
-- what strconv.ParseUint makes of the 20th of these, the 22nd field if the name is one word.
pub start_ticks-fields :
    (pid : Bytes) (words : List Bytes) (name : Bytes) (rest : List Bytes) (f : Bytes)
    → All IsWord (pid ∷ (words ++ name ∷ rest))
    → All (λ w. ends_in_paren w ≡ false) words
    → ends_in_paren name ≡ true
    → get_elem? rest 19 ≡ some f
    → start_ticks (fields (join_space (pid ∷ (words ++ name ∷ rest)))) ≡ some (parse_uint f)
unfolding start_ticks
start_ticks-fields pid words name rest f h plain e there =
    rw
      (
        fields-join_space (pid ∷ (words ++ name ∷ rest)) h,
        start_ticks,
        after_name-words words name rest plain e,
        there,
      )
      refl
