-- ===== src/Settings/Notify.antt =====
-- What the notifiers are told.
use apminsight_server_sdk_go.Prelude.{
  ◌≡◌, refl, ap, true, false, List, [], ◌∷◌, Option, none, some, Bytes, bytes_eq→eq, Bool-cases,
  Option-cases, inl, inr,
}
use apminsight_server_sdk_go.Settings.{
  Response, Codec, Fetcher, new_settings_fetcher, get_settings, same_settings, update_settings,
  refresh_settings, start,
}

module _ {ℓ} {S : Type ℓ} (codec : Codec S) where
  abbrev pub latest : List S → Option S
  latest [] = none
  latest (s ∷ ss) = some s

  -- No settings are told twice in a row, as far as their bytes differ.
  abbrev pub Changing : List S → Type 0
  Changing [] = Unit
  Changing (s ∷ ss) = (same_settings codec (latest ss) s ≡ false) × Changing ss

  -- The bytes of the last settings of a sequence of responses, before which `o` were the last.
  abbrev bytes_of : Option S → Option Bytes
  bytes_of none = none
  bytes_of (some s) = some (codec.marshal s)

  abbrev pub last_fetched : Option S → List Response → Option S
  last_fetched o [] = o
  last_fetched o (r ∷ rs) = elim (get_settings codec r) [
    | none ↦ last_fetched o rs
    | some s ↦ last_fetched (some s) rs
  ]

  pub record IsCurrent (f : Fetcher S) (o : Option S) : Type ℓ where
    pub old : f.old_settings ≡ latest f.notified
    pub changing : Changing f.notified
    pub current : bytes_of (latest f.notified) ≡ bytes_of o

  same_settings-bytes :
      (o : Option S) (s : S) → same_settings codec o s ≡ true → bytes_of o ≡ some (codec.marshal s)
  unfolding same_settings
  same_settings-bytes none s h = absurd cc
  same_settings-bytes (some o) s h = ap some (bytes_eq→eq (codec.marshal o) (codec.marshal s) h)

  update_settings-IsCurrent :
      (f : Fetcher S) (o : Option S) (s : S)
      → IsCurrent f o
      → IsCurrent (update_settings codec f s) (some s)
  unfolding update_settings
  update_settings-IsCurrent f o s c = elim (Bool-cases (same_settings codec f.old_settings s)) [
    | inl same ↦ rw same (record {
      old = c.old;
      changing = c.changing;
      current = same_settings-bytes (latest f.notified) s (rw c.old at same);
    })
    | inr changed ↦
        rw changed
          (record { old = refl; changing = (rw c.old at changed, c.changing); current = refl })
  ]

  start-IsCurrent :
      (f : Fetcher S) (o : Option S) (rs : List Response)
      → IsCurrent f o
      → IsCurrent (start codec f rs) (last_fetched o rs)
  unfolding start refresh_settings
  start-IsCurrent f o [] c = c
  start-IsCurrent f o (r ∷ rs) c = elim (Option-cases (get_settings codec r)) [
    | inl e ↦ rw (e, refresh_settings, last_fetched) (start-IsCurrent f o rs c)
    | inr (s, e) ↦
        rw (e, refresh_settings, last_fetched)
          (start-IsCurrent (update_settings codec f s) (some s) rs
            (update_settings-IsCurrent f o s c))
  ]

  -- Over any responses of a new fetcher: what the notifiers were told last has the bytes of the
  -- last settings that were fetched without an error, they were told nothing if there were none,
  -- and no two settings with the same bytes were told one after the other.
  pub start_notifies :
      (rs : List Response) → IsCurrent (start codec new_settings_fetcher rs) (last_fetched none rs)
  start_notifies rs =
      start-IsCurrent new_settings_fetcher none rs
        (record { old = refl; changing = tt; current = refl })
