-- ===== src/Remote/Url.antt =====
-- The parts of a *url.URL that the program reads and sets.
use https_proxy.Base.{List, [], ◌∷◌, Option, none, some}
use https_proxy.Base.Text.{Text}
use https_proxy.Base.Assoc.{insert, lookup, text_keys}

-- `port` is what Port() answers, and `query` is RawQuery as Query() reads it: the values of each key.
pub record Url : Type 0 where
  pub scheme : Text
  pub host : Text
  pub port : Text
  pub path : Text
  pub query : List (Text × List Text)

-- url.Values.Set.
abbrev pub set_query : Text → Text → List (Text × List Text) → List (Text × List Text)
set_query k v q = insert k (v ∷ []) q

-- url.Values.Get: the first value of a key, or the empty text.
abbrev pub first_value : Option (List Text) → Text
first_value none = []
first_value (some []) = []
first_value (some (v ∷ vs)) = v

abbrev pub get_query : Text → Url → Text
get_query k u = first_value (lookup k u.query)
