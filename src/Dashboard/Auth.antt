-- ===== src/Dashboard/Auth.antt =====
-- src/dashboard/auth.rs. A header is the bytes of its value; the header of an `Authorization`, an
-- `Origin` and the like is read by `to_str`, which the http crate grants for visible ASCII only. The
-- crates base64 and subtle are parameters.
pub mod Credentials
use qml.Base.{
  ℕ, zero, suc, ◌≡◌, ◌↔◌, Bool, true, false, not, ◌&&◌, ◌||◌, Option, none, some, List, [], ◌∷◌,
  ltb, leb, eqb, if◌then◌else◌, length, Bytes, strip_prefix, trim, split_once, lowercase,
  same_bytes,
}

pub data DashboardAuth : Type 0 where
  basic : Bytes → Bytes → DashboardAuth
  bearer : Bytes → DashboardAuth

-- A value of which `to_str` makes a text, and any other.
pub data HeaderValue : Type 0 where
  visible : Bytes → HeaderValue
  opaque : HeaderValue

abbrev pub to_str : Option HeaderValue → Option Bytes
to_str none = none
to_str (some (visible s)) = some s
to_str (some opaque) = none

-- `STANDARD.decode` of the crate base64, and `ct_eq` of the crate subtle.
pub record Crates : Type 0 where
  pub base64_decode : Bytes → Option Bytes
  pub ct_eq : Bytes → Bytes → Bool

pub record CrateLaws (crates : Crates) : Type 0 where
  pub ct_eq_iff : (a b : Bytes) → length a ≡ length b → (crates.ct_eq a b ≡ true) ↔ (a ≡ b)

-- How many bytes follow a first byte in UTF-8, and the range of the next one.
abbrev lead : ℕ → Option (ℕ × ℕ × ℕ)
lead c =
    if ltb c 128
    then some (0, 128, 191)
    else if ltb c 194
    then none
    else if ltb c 224
    then some (1, 128, 191)
    else if eqb c 224
    then some (2, 160, 191)
    else if eqb c 237
    then some (2, 128, 159)
    else if ltb c 240
    then some (2, 128, 191)
    else if eqb c 240
    then some (3, 144, 191)
    else if ltb c 244
    then some (3, 128, 191)
    else if eqb c 244
    then some (3, 128, 143)
    else none

-- `std::str::from_utf8`, as a test: with the bytes still to come of the present character.
unfoldable pub utf8_from : ℕ → ℕ → ℕ → Bytes → Bool
utf8_from zero lo hi [] = true
utf8_from (suc n) lo hi [] = false
utf8_from zero lo hi (c ∷ s) = elim (lead c) [
  | none ↦ false
  | some (n, lo', hi') ↦ utf8_from n lo' hi' s
]
utf8_from (suc n) lo hi (c ∷ s) =
    let rest = utf8_from n 128 191 s in if leb lo c && leb c hi then rest else false

unfoldable pub is_utf8 : Bytes → Bool
unfolding utf8_from
is_utf8 s = utf8_from 0 128 191 s

abbrev pub basic_prefix : Bytes
basic_prefix = b'B' ∷ b'a' ∷ b's' ∷ b'i' ∷ b'c' ∷ b' ' ∷ []

abbrev pub bearer_prefix : Bytes
bearer_prefix = b'B' ∷ b'e' ∷ b'a' ∷ b'r' ∷ b'e' ∷ b'r' ∷ b' ' ∷ []

-- The answer of a middleware: the request goes on, or it is refused.
pub data Answer : Type 0 where
  passes : Answer
  unauthorized_with_challenge unauthorized_plain forbidden : Answer

unfoldable pub unauthorized : DashboardAuth → Answer
unauthorized (basic _ _) = unauthorized_with_challenge
unauthorized (bearer _) = unauthorized_plain

module _ (crates : Crates) where
  unfoldable pub constant_time_eq : Bytes → Bytes → Bool
  constant_time_eq a b = if not (eqb (length a) (length b)) then false else crates.ct_eq a b

  -- What the decoded text is compared with: both comparisons are made.
  unfoldable pub check_pair : Option (Bytes × Bytes) → Bytes → Bytes → Bool
  unfolding constant_time_eq
  check_pair none expected_user expected_pass = false
  check_pair (some (user, pass)) expected_user expected_pass =
      let user_ok = constant_time_eq user expected_user in
      let pass_ok = constant_time_eq pass expected_pass in user_ok && pass_ok

  unfoldable pub check_decoded : Option Bytes → Bytes → Bytes → Bool
  unfolding check_pair is_utf8
  check_decoded none expected_user expected_pass = false
  check_decoded (some bytes) expected_user expected_pass =
      if is_utf8 bytes
      then check_pair (split_once b':' bytes) expected_user expected_pass
      else false

  unfoldable pub check_basic : Bytes → Bytes → Bytes → Bool
  unfolding check_decoded
  check_basic header_value expected_user expected_pass =
      elim (strip_prefix basic_prefix header_value) [
        | none ↦ false
        | some encoded ↦
            check_decoded (crates.base64_decode (trim encoded)) expected_user expected_pass
      ]

  unfoldable pub check_bearer : Bytes → Bytes → Bool
  unfolding constant_time_eq
  check_bearer header_value expected = elim (strip_prefix bearer_prefix header_value) [
    | none ↦ false
    | some token ↦ constant_time_eq (trim token) expected
  ]

  unfoldable pub is_authorized : DashboardAuth → Option Bytes → Bool
  unfolding check_basic check_bearer
  is_authorized (basic username password) (some h) = check_basic h username password
  is_authorized (bearer token) (some h) = check_bearer h token
  is_authorized (basic _ _) none = false
  is_authorized (bearer _) none = false

  unfoldable pub require_auth : DashboardAuth → Option HeaderValue → Answer
  unfolding is_authorized unauthorized
  require_auth auth authorization =
      if is_authorized auth (to_str authorization) then passes else unauthorized auth
