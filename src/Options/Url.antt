-- ===== src/Options/Url.antt =====
-- `ConstructURL` (internal/options/options.go).
use stprov.Prelude.{
  true, false, ◌||◌, [], ◌∷◌, ◌++◌, Text, codes, contains, has_prefix, replace_first, ok, ◌≡◌, refl,
  ap, arith,
}
use stprov.Options.{construct_url, verify_web_prefix}

verify_web_prefix-has_prefix :
    (url : Text) {result : Text}
    → verify_web_prefix url ≡ ok result
    → (result ≡ url)
      × (has_prefix url (codes "http://") || has_prefix url (codes "https://") ≡ true)
unfolding verify_web_prefix
verify_web_prefix-has_prefix url h = ground arith

-- A URL that is accepted, with its credentials in place, begins with one of the two schemes.
pub construct_url-has_prefix :
    (url user password : Text) {result : Text}
    → construct_url url user password ≡ ok result
    → has_prefix result (codes "http://") || has_prefix result (codes "https://") ≡ true
unfolding construct_url
construct_url-has_prefix url user password h =
    let (same, scheme) =
      verify_web_prefix-has_prefix
        (replace_first url (codes "user:password") (user ++ codes ":" ++ password)) h in
    rw same scheme

-- The credentials take the place of the pattern of a templated URL, whatever follows it.
pub construct_url-template :
    (user password rest : Text)
    → construct_url (codes "https://user:password@" ++ rest) user password
      ≡ ok (codes "https://" ++ ((user ++ codes ":" ++ password) ++ (codes "@" ++ rest)))
unfolding construct_url
construct_url-template user password rest = refl

replace_first-absent : (s old new : Text) → contains s old ≡ false → replace_first s old new ≡ s
unfolding contains replace_first
replace_first-absent [] old new h = refl
replace_first-absent (x ∷ s) old new h = ground (arith, replace_first-absent s old new)

-- A URL without the pattern is checked and used as it is.
pub construct_url-absent :
    (url user password : Text)
    → contains url (codes "user:password") ≡ false
    → construct_url url user password ≡ verify_web_prefix url
unfolding construct_url
construct_url-absent url user password h =
    ap verify_web_prefix
      (replace_first-absent url (codes "user:password") (user ++ codes ":" ++ password) h)
