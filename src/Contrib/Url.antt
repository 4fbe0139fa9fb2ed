-- ===== src/Contrib/Url.antt =====
-- What the integrations read of a url.URL, and the tags that they set of it.
use apminsight_server_sdk_go.Prelude.{List, [], ◌∷◌, Option, none, some, Bytes, codes}

pub record Url : Type 0 where
  pub scheme : Bytes
  pub host : Bytes
  pub path : Bytes

unfoldable pub url_tags : Option Url → List (Bytes × Bytes)
url_tags none = []
url_tags (some url) =
    (codes "http.scheme", url.scheme)
    ∷ (codes "http.host", url.host)
    ∷ (codes "http.path", url.path)
    ∷ []
