-- ===== src/Storage/Config/Redis/Url.antt =====
-- `RedisConfig::full_url` of src/storage/config.rs.
use qml.Base.{
  ℕ, ◌≡◌, refl, ap, ◌∙◌, Option, none, some, [], ◌∷◌, ◌++◌, show, Bytes, codes, strip_prefix,
  replace, replace_from, replace-Absent, ends_with, Absent, if◌then◌else◌,
}
use qml.Storage.Config.Redis.{RedisConfig}

abbrev pub redis_scheme : Bytes
redis_scheme = codes "redis://"

unfoldable pub with_credentials_in : Bytes → Option Bytes → Option Bytes → Bytes
unfolding replace
with_credentials_in url (some username) (some password) =
    replace redis_scheme (redis_scheme ++ (username ++ (b':' ∷ (password ++ (b'@' ∷ []))))) url
with_credentials_in url none (some password) =
    replace redis_scheme (redis_scheme ++ (b':' ∷ (password ++ (b'@' ∷ [])))) url
with_credentials_in url username none = url

unfoldable pub with_database_in : Bytes → Option ℕ → Bytes
with_database_in url none = url
with_database_in url (some db) =
    (if ends_with b'/' url then url else url ++ (b'/' ∷ [])) ++ codes (show db)

unfoldable pub full_url : RedisConfig → Bytes
unfolding with_credentials_in with_database_in
full_url c = with_database_in (with_credentials_in c.url c.username c.password) c.database

-- The user part of a URL, with the sign that ends it. A user name without a password is left out.
abbrev pub userinfo : Option Bytes → Option Bytes → Bytes
userinfo (some username) (some password) = username ++ (b':' ∷ (password ++ (b'@' ∷ [])))
userinfo none (some password) = b':' ∷ (password ++ (b'@' ∷ []))
userinfo username none = []

abbrev pub tls_scheme : Bytes
tls_scheme = codes "rediss://"

replace_scheme :
    (to rest : Bytes)
    → Absent redis_scheme rest
    → replace redis_scheme to (redis_scheme ++ rest) ≡ to ++ rest
unfolding replace replace_from strip_prefix
replace_scheme to rest h = ap (◌++◌ to) (replace-Absent redis_scheme to rest h)

tls-Absent : (rest : Bytes) → Absent redis_scheme rest → Absent redis_scheme (tls_scheme ++ rest)
unfolding strip_prefix
tls-Absent rest h = (refl, (refl, (refl, (refl, (refl, (refl, (refl, (refl, (refl, h)))))))))

credentials_inserted :
    (username password : Option Bytes) (rest : Bytes)
    → Absent redis_scheme rest
    → with_credentials_in (redis_scheme ++ rest) username password
      ≡ redis_scheme ++ (userinfo username password ++ rest)
unfolding with_credentials_in
credentials_inserted (some u) (some p) rest h =
    replace_scheme (redis_scheme ++ userinfo (some u) (some p)) rest h
credentials_inserted none (some p) rest h =
    replace_scheme (redis_scheme ++ userinfo none (some p)) rest h
credentials_inserted none none rest h = refl
credentials_inserted (some u) none rest h = refl

credentials_dropped :
    (username password : Option Bytes) (rest : Bytes)
    → Absent redis_scheme rest
    → with_credentials_in (tls_scheme ++ rest) username password ≡ tls_scheme ++ rest
unfolding with_credentials_in replace
credentials_dropped (some u) (some p) rest h = replace-Absent redis_scheme _ _ (tls-Absent rest h)
credentials_dropped none (some p) rest h = replace-Absent redis_scheme _ _ (tls-Absent rest h)
credentials_dropped none none rest h = refl
credentials_dropped (some u) none rest h = refl

-- In a URL of the plain scheme the credentials stand between the scheme and the host, and then the
-- database follows, if there is one; in a URL of the TLS scheme the credentials of the configuration
-- are dropped without a word. The rest of the URL does not contain the plain scheme again.
pub full_url_lem :
    (c : RedisConfig) (rest : Bytes)
    → Absent redis_scheme rest
    → (c.url ≡ redis_scheme ++ rest
        → full_url c
          ≡ with_database_in (redis_scheme ++ (userinfo c.username c.password ++ rest)) c.database)
      × (c.url ≡ tls_scheme ++ rest → full_url c ≡ with_database_in (tls_scheme ++ rest) c.database)
unfolding full_url
full_url_lem c rest h = (
  (λ e.
      ap (λ u. with_database_in u c.database)
        (ap (λ u. with_credentials_in u c.username c.password) e
          ∙ credentials_inserted c.username c.password rest h)),
  (λ e.
      ap (λ u. with_database_in u c.database)
        (ap (λ u. with_credentials_in u c.username c.password) e
          ∙ credentials_dropped c.username c.password rest h)),
)
