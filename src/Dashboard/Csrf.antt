-- ===== src/Dashboard/Csrf.antt =====
-- `csrf_guard` and `authority_of` of src/dashboard/auth.rs. Headers are read by `to_str`, so they are
-- ASCII.
use qml.Base.{
  ℕ, ◌≡◌, ◌≢◌, refl, sym, ap, ◌∙◌, ◌⊎◌, to_ascii_lowercase, Bool, true, false, not, ◌||◌, inl, inr,
  Option, none, some, [], ◌∷◌, ◌++◌, arith, eqb, if◌then◌else◌, Bool-cases, Bytes, strip_prefix,
  lowercase, same_bytes, same_bytes_iff, Lacks,
}
use qml.Dashboard.Auth.{HeaderValue, visible, to_str, Answer, passes, forbidden}

pub data Method : Type 0 where
  get head post put patch delete options connect trace extension : Method

unfoldable pub is_mutation : Method → Bool
is_mutation post = true
is_mutation put = true
is_mutation patch = true
is_mutation delete = true
is_mutation _ = false

abbrev pub scheme_end : Bytes
scheme_end = b':' ∷ b'/' ∷ b'/' ∷ []

-- `url.split_once("://")`, of which the code keeps the second part.
unfoldable pub after_scheme : Bytes → Option Bytes
after_scheme [] = none
after_scheme (c ∷ s) = elim (strip_prefix scheme_end (c ∷ s)) [
  | some rest ↦ some rest
  | none ↦ after_scheme s
]

unfoldable pub ends_authority : ℕ → Bool
ends_authority c = eqb c b'/' || eqb c b'?' || eqb c b'#'

-- The first part of `split(['/', '?', '#'])`.
unfoldable pub first_part : Bytes → Bytes
unfolding ends_authority
first_part [] = []
first_part (c ∷ s) = if ends_authority c then [] else c ∷ first_part s

abbrev non_empty : Bytes → Option Bytes
non_empty [] = none
non_empty (c ∷ s) = some (lowercase (c ∷ s))

unfoldable pub authority_of : Bytes → Option Bytes
unfolding after_scheme first_part lowercase
authority_of url = elim (after_scheme url) [ none ↦ none | some rest ↦ non_empty (first_part rest) ]

abbrev pub and_then : Option Bytes → (Bytes → Option Bytes) → Option Bytes
and_then none f = none
and_then (some s) f = f s

-- `or_else`: the second header is looked at only if the first is not there at all.
abbrev pub or_else : Option HeaderValue → Option HeaderValue → Option HeaderValue
or_else none o = o
or_else (some h) o = some h

-- The headers of a request that the guard reads.
pub record Headers : Type 0 where
  pub host : Option HeaderValue
  pub origin : Option HeaderValue
  pub referer : Option HeaderValue

unfoldable pub same_origin : Option Bytes → Option Bytes → Bool
unfolding same_bytes lowercase
same_origin (some host) (some source) = same_bytes (lowercase host) (lowercase source)
same_origin (some host) none = false
same_origin none source = false

unfoldable pub csrf_guard : Method → Headers → Answer
unfolding is_mutation same_origin authority_of
csrf_guard method h =
    if not (is_mutation method)
    then passes
    else if same_origin (to_str h.host)
        (and_then (to_str (or_else h.origin h.referer)) authority_of)
    then passes
    else forbidden

-- No byte of an authority ends it, and what follows it starts with one that does, if with anything.
abbrev pub IsAuthority : Bytes → Type 0
IsAuthority [] = Unit
IsAuthority (c ∷ s) = (ends_authority c ≡ false) × IsAuthority s

abbrev pub Follows : Bytes → Type 0
Follows [] = Unit
Follows (c ∷ s) = ends_authority c ≡ true

first_part_lem : (a rest : Bytes) → IsAuthority a → Follows rest → first_part (a ++ rest) ≡ a
unfolding first_part
first_part_lem [] [] i f = refl
first_part_lem [] (c ∷ rest) i f = rw f refl
first_part_lem (c ∷ a) rest i f = rw (i.0, first_part_lem a rest i.1 f) refl

after_scheme_lem :
    (scheme rest : Bytes)
    → Lacks b':' scheme
    → after_scheme (scheme ++ (scheme_end ++ rest)) ≡ some rest
unfolding after_scheme strip_prefix
after_scheme_lem [] rest l = refl
after_scheme_lem (c ∷ scheme) rest l =
    let other : eqb b':' c ≡ false = ground (arith, l.0) in
    rw (other, after_scheme) (after_scheme_lem scheme rest l.1)

authority_of_lem :
    (scheme a rest : Bytes)
    → Lacks b':' scheme
    → a ≢ []
    → IsAuthority a
    → Follows rest
    → authority_of (scheme ++ (scheme_end ++ (a ++ rest))) ≡ some (lowercase a)
unfolding authority_of
authority_of_lem scheme [] rest l some_host i f = absurd (some_host refl)
authority_of_lem scheme (c ∷ a) rest l some_host i f =
    rw (after_scheme_lem scheme ((c ∷ a) ++ rest) l, authority_of, first_part_lem (c ∷ a) rest i f)
      refl

lowercase_idem : (s : Bytes) → lowercase (lowercase s) ≡ lowercase s
unfolding lowercase to_ascii_lowercase
lowercase_idem [] = refl
lowercase_idem (c ∷ s) = cc (lowercase_idem s, once c)
  where
    once : (c : ℕ) → to_ascii_lowercase (to_ascii_lowercase c) ≡ to_ascii_lowercase c
    once c = ground arith

-- The header that says where the request comes from: `Origin`, or `Referer` when there is no `Origin`.
abbrev pub ComesFrom : Headers → Bytes → Type 0
ComesFrom h url =
    (h.origin ≡ some (visible url)) ⊎ ((h.origin ≡ none) × (h.referer ≡ some (visible url)))

source_of :
    (h : Headers) (url : Bytes) → ComesFrom h url → to_str (or_else h.origin h.referer) ≡ some url
source_of h url (inl e) = rw e refl
source_of h url (inr (e, f)) = rw (e, f) refl

-- A request that changes state, and that comes from a page of some authority, passes exactly if that
-- is the host that it is sent to, up to the case of letters: a request with a `Host` header that
-- names the authority passes, one with another or without a readable `Host` is forbidden. An
-- `Origin` is decisive whatever the `Referer` says.
pub csrf_guard_origin :
    (method : Method) (h : Headers) (scheme a rest : Bytes)
    → is_mutation method ≡ true
    → Lacks b':' scheme
    → a ≢ []
    → IsAuthority a
    → Follows rest
    → ComesFrom h (scheme ++ (scheme_end ++ (a ++ rest)))
    → ((host : Bytes)
        → h.host ≡ some (visible host)
        → (lowercase host ≡ lowercase a → csrf_guard method h ≡ passes)
          × (lowercase host ≢ lowercase a → csrf_guard method h ≡ forbidden))
      × (to_str h.host ≡ none → csrf_guard method h ≡ forbidden)
unfolding csrf_guard same_origin
csrf_guard_origin method h scheme a rest mutates l some_host i f from =
    let url = scheme ++ (scheme_end ++ (a ++ rest)) in
    let source = source_of h url from in
    let named = authority_of_lem scheme a rest l some_host i f in
    (
      (λ host e.
          let found : to_str h.host ≡ some host = ap to_str e in
          (
            (λ same.
                rw (mutates, source, named, found)
                  (rw
                    ((same_bytes_iff (lowercase host) (lowercase (lowercase a))).1
                      (same ∙ sym (lowercase_idem a)))
                    refl)),
            (λ other. rw (mutates, source, named, found) (rw (refused host other) refl)),
          )),
      (λ missing. rw (mutates, missing) refl),
    )
  where
    refused :
        (host : Bytes)
        → lowercase host ≢ lowercase a
        → same_bytes (lowercase host) (lowercase (lowercase a)) ≡ false
    refused host other = elim (Bool-cases (same_bytes (lowercase host) (lowercase (lowercase a)))) [
      | inl e ↦ absurd (
          other
            ((same_bytes_iff (lowercase host) (lowercase (lowercase a))).0 e ∙ lowercase_idem a))
      | inr e ↦ e
    ]
