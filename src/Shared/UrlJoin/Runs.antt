-- ===== src/Shared/UrlJoin/Runs.antt =====
-- Joined paths at concrete inputs.
use https_proxy.Base.{◌≡◌, refl, [], ◌∷◌, ◌++◌}
use https_proxy.Base.Text.{codes, split}
use https_proxy.Shared.UrlJoin.{clean, join_url}
use https_proxy.Shared.UrlJoin.Laws.{IsElement, join_url_escapes}

joined : join_url (codes "/base/") (codes "/a//./b/") ≡ codes "/base/a/b/"
unfolding join_url split
joined = refl

above_root : join_url [] (codes "/../../x") ≡ codes "/x"
unfolding join_url split
above_root = refl

relative : clean (codes "a/../../b") ≡ codes "../b"
unfolding clean split
relative = refl

abbrev base-IsElement : IsElement (codes "public")
base-IsElement = record { not_empty = refl; no_slash = refl; not_dot = refl; not_dots = refl }

abbrev admin-IsElement : IsElement (codes "admin")
admin-IsElement = record { not_empty = refl; no_slash = refl; not_dot = refl; not_dots = refl }

join_url_escapes_example :
    join_url (b'/' ∷ codes "public") (codes "/../" ++ codes "admin") ≡ b'/' ∷ codes "admin"
join_url_escapes_example =
    join_url_escapes (codes "public") (codes "admin") base-IsElement admin-IsElement
