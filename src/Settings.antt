-- ===== src/Settings.antt =====
-- trace/internal/settings_fetcher/fetcher.go: the settings are fetched now and again, and the
-- notifiers are called when they have changed.
pub mod Notify
mod Tests
use apminsight_server_sdk_go.Prelude.{
  Bool, true, false, List, [], ◌∷◌, Option, none, some, Bytes, bytes_eq, if◌then◌else◌,
}

-- What http.Client's Do and the body give.
pub data Response : Type 0 where
  http_fail : Response
  status_not_ok : Response
  read_fail : Response
  body : Bytes → Response

-- The generated messages: Settings{}, Marshal, whose error the code ignores, and Unmarshal, with
-- `none` for an error.
pub record Codec {ℓ} (S : Type ℓ) : Type ℓ where
  pub empty : S
  pub marshal : S → Bytes
  pub unmarshal : Bytes → Option S

-- `notified` holds the calls of the notifiers, the latest first. Each call goes to all of them.
pub record Fetcher {ℓ} (S : Type ℓ) : Type ℓ where
  pub old_settings : Option S
  pub notified : List S

module _ {ℓ} {S : Type ℓ} where
  abbrev pub new_settings_fetcher : Fetcher S
  new_settings_fetcher = record { old_settings = none; notified = [] }

  module _ (codec : Codec S) where
    -- `none` is an error. A status other than OK returns the `err` of the call before, which is nil.
    unfoldable pub get_settings : Response → Option S
    get_settings http_fail = none
    get_settings status_not_ok = some codec.empty
    get_settings read_fail = none
    get_settings (body raw) = codec.unmarshal raw

    unfoldable pub same_settings : Option S → S → Bool
    same_settings none n = false
    same_settings (some o) n = bytes_eq (codec.marshal o) (codec.marshal n)

    unfoldable pub update_settings : Fetcher S → S → Fetcher S
    update_settings f s =
        if same_settings f.old_settings s
        then f
        else record { old_settings = some s; notified = s ∷ f.notified }

    unfoldable pub refresh_settings : Fetcher S → Response → Fetcher S
    refresh_settings f r = elim (get_settings r) [ none ↦ f | some s ↦ update_settings f s ]

    -- Start: one refresh, then one at each tick.
    unfoldable pub start : Fetcher S → List Response → Fetcher S
    start f [] = f
    start f (r ∷ rs) = start (refresh_settings f r) rs
