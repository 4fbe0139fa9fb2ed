-- ===== src/Settings/Tests.antt =====
-- A run of the settings fetcher.
use apminsight_server_sdk_go.Prelude.{◌≡◌, refl, List, [], ◌∷◌, none, some, Bytes, bytes_eq}
use apminsight_server_sdk_go.Settings.{
  Response, http_fail, status_not_ok, body, Codec, new_settings_fetcher, get_settings,
  same_settings, update_settings, refresh_settings, start,
}
use apminsight_server_sdk_go.Settings.Notify.{IsCurrent, last_fetched, start_notifies}

-- Settings that are their own bytes.
abbrev plain : Codec Bytes
plain = record { empty = []; marshal = λ s. s; unmarshal = λ s. some s }

abbrev responses : List Response
responses = body (1 ∷ []) ∷ http_fail ∷ body (1 ∷ []) ∷ body (2 ∷ []) ∷ []

start_notifies_example :
    IsCurrent plain (start plain new_settings_fetcher responses) (last_fetched plain none responses)
start_notifies_example = start_notifies plain responses

told : (start plain new_settings_fetcher responses).notified ≡ (2 ∷ []) ∷ (1 ∷ []) ∷ []
unfolding start refresh_settings update_settings same_settings get_settings bytes_eq
told = refl

-- A status other than OK empties the settings.
status_empties :
    (start plain new_settings_fetcher (body (1 ∷ []) ∷ status_not_ok ∷ [])).notified
    ≡ [] ∷ (1 ∷ []) ∷ []
unfolding start refresh_settings update_settings same_settings get_settings bytes_eq
status_empties = refl
