-- ===== src/Dashboard/Auth/Credentials.antt =====
-- Who passes `require_auth` of src/dashboard/auth.rs.
use qml.Base.{
  ◌≡◌, refl, sym, ap, subst, ◌∙◌, ◌↔◌, ◌⊎◌, Bool, true, false, ◌&&◌, inl, inr, Option, none, some,
  ◌∷◌, ◌++◌, arith, eqb, eqb_refl, eqb→eq, length, Bool-cases, Option-cases, Bytes, strip_prefix,
  strip_prefix_sound, trim, split_once, split_once_lem, split_once_sound, Lacks,
}
use qml.Dashboard.Auth.{
  DashboardAuth, basic, bearer, HeaderValue, visible, opaque, to_str, Crates, CrateLaws, is_utf8,
  basic_prefix, bearer_prefix, passes, unauthorized, constant_time_eq, check_pair, check_decoded,
  check_basic, check_bearer, is_authorized, require_auth,
}

module _ (crates : Crates) (laws : CrateLaws crates) where
  open laws use {ct_eq_iff}

  constant_time_eq_iff : (a b : Bytes) → (constant_time_eq crates a b ≡ true) ↔ (a ≡ b)
  unfolding constant_time_eq
  constant_time_eq_iff a b = elim (Bool-cases (eqb (length a) (length b))) [
    | inl e ↦ rw e (ct_eq_iff a b (eqb→eq (length a) (length b) e))
    | inr e ↦ rw e ((λ h. absurd (cc)), (λ h. absurd (differ h e)))
  ]
    where
      differ : a ≡ b → eqb (length a) (length b) ≡ false → ⊥
      differ h e =
          let k = subst (λ (c : Bytes). eqb (length a) (length c) ≡ false) (sym h) e in
          cc (eqb_refl (length a))

  -- What stands in the header of a request that passes.
  abbrev pub Credential : DashboardAuth → Bytes → Type 0
  Credential (basic user pass) h =
      (encoded : Bytes) × (h ≡ basic_prefix ++ encoded)
      × (crates.base64_decode (trim encoded) ≡ some (user ++ b':' ∷ pass))
      × (is_utf8 (user ++ b':' ∷ pass) ≡ true)
      × Lacks b':' user
  Credential (bearer token) h =
      (given : Bytes) × (h ≡ bearer_prefix ++ given) × (trim given ≡ token)

  pair_iff :
      (o : Option (Bytes × Bytes)) (user pass : Bytes)
      → (check_pair crates o user pass ≡ true) ↔ (o ≡ some (user, pass))
  unfolding check_pair
  pair_iff none user pass = ((λ h. absurd (cc)), (λ h. absurd (cc)))
  pair_iff (some (u, p)) user pass = (
    (λ h. both (constant_time_eq crates u user) (constant_time_eq crates p pass) refl refl h),
    (λ h. ground (
      arith,
      (constant_time_eq_iff u user).1 (ap fst (inside h)),
      (constant_time_eq_iff p pass).1 (ap snd (inside h)),
    )),
  )
    where
      fst : Bytes × Bytes → Bytes
      fst (a, b) = a

      snd : Bytes × Bytes → Bytes
      snd (a, b) = b

      inside :
          ◌≡◌ {A = Option (Bytes × Bytes)} (some (u, p)) (some (user, pass))
          → ◌≡◌ {A = Bytes × Bytes} (u, p) (user, pass)
      inside h = cc

      both :
          (a c : Bool)
          → constant_time_eq crates u user ≡ a
          → constant_time_eq crates p pass ≡ c
          → (a && c) ≡ true
          → ◌≡◌ {A = Option (Bytes × Bytes)} (some (u, p)) (some (user, pass))
      both true true e f h =
          cc ((constant_time_eq_iff u user).0 e, (constant_time_eq_iff p pass).0 f)
      both true false e f h = absurd (cc)
      both false c e f h = absurd (cc)

  decoded_iff :
      (o : Option Bytes) (user pass : Bytes)
      → (check_decoded crates o user pass ≡ true) ↔ (
          (o ≡ some (user ++ b':' ∷ pass))
          × (is_utf8 (user ++ b':' ∷ pass) ≡ true)
          × Lacks b':' user)
  unfolding check_decoded
  decoded_iff none user pass = ((λ h. absurd (cc)), (λ h. absurd (let e = h.0 in cc)))
  decoded_iff (some bytes) user pass = (to (Bool-cases (is_utf8 bytes)), from)
    where
      to :
          (is_utf8 bytes ≡ true) ⊎ (is_utf8 bytes ≡ false)
          → check_decoded crates (some bytes) user pass ≡ true
          → ◌≡◌ {A = Option Bytes} (some bytes) (some (user ++ b':' ∷ pass))
            × (is_utf8 (user ++ b':' ∷ pass) ≡ true)
            × Lacks b':' user
      to (inl e) h =
          let k : check_pair crates (split_once b':' bytes) user pass ≡ true = rw e at h in
          let (whole, free) =
            split_once_sound b':' bytes user pass
              ((pair_iff (split_once b':' bytes) user pass).0 k) in
          (ap some whole, subst (λ b. is_utf8 b ≡ true) whole e, free)
      to (inr e) h = absurd (let k : false ≡ true = rw e at h in cc)

      from :
          ◌≡◌ {A = Option Bytes} (some bytes) (some (user ++ b':' ∷ pass))
            × (is_utf8 (user ++ b':' ∷ pass) ≡ true)
            × Lacks b':' user
          → check_decoded crates (some bytes) user pass ≡ true
      from (e, u, free) =
          subst (λ o. check_decoded crates o user pass ≡ true) (sym e)
            (rw u (
              (pair_iff (split_once b':' (user ++ b':' ∷ pass)) user pass).1
                (split_once_lem b':' user pass free)))

  basic_prefixed :
      (encoded user pass : Bytes)
      → check_basic crates (basic_prefix ++ encoded) user pass
        ≡ check_decoded crates (crates.base64_decode (trim encoded)) user pass
  unfolding check_basic strip_prefix
  basic_prefixed encoded user pass = refl

  basic_iff :
      (h user pass : Bytes)
      → (check_basic crates h user pass ≡ true) ↔ Credential (basic user pass) h
  unfolding check_basic
  basic_iff h user pass = (
    (λ t. elim (Option-cases (strip_prefix basic_prefix h)) [
      | inl e ↦ absurd (let k : false ≡ true = rw (e, check_basic) at t in cc)
      | inr (encoded, e) ↦
          let k : check_decoded crates (crates.base64_decode (trim encoded)) user pass ≡ true =
            rw (e, check_basic) at t in
          let d = (decoded_iff (crates.base64_decode (trim encoded)) user pass).0 k in
          (encoded, strip_prefix_sound basic_prefix h encoded e, d.0, d.1, d.2)
    ]),
    (λ c.
        ap (λ g. check_basic crates g user pass) c.1
        ∙ basic_prefixed c.0 user pass
        ∙ (decoded_iff (crates.base64_decode (trim c.0)) user pass).1 (c.2, c.3, c.4)),
  )

  bearer_prefixed :
      (given token : Bytes)
      → check_bearer crates (bearer_prefix ++ given) token
        ≡ constant_time_eq crates (trim given) token
  unfolding check_bearer strip_prefix
  bearer_prefixed given token = refl

  bearer_iff :
      (h token : Bytes) → (check_bearer crates h token ≡ true) ↔ Credential (bearer token) h
  unfolding check_bearer
  bearer_iff h token = (
    (λ t. elim (Option-cases (strip_prefix bearer_prefix h)) [
      | inl e ↦ absurd (let k : false ≡ true = rw (e, check_bearer) at t in cc)
      | inr (given, e) ↦
          let k : constant_time_eq crates (trim given) token ≡ true = rw (e, check_bearer) at t in
          (
            given,
            strip_prefix_sound bearer_prefix h given e,
            (constant_time_eq_iff (trim given) token).0 k,
          )
    ]),
    (λ c.
        ap (λ g. check_bearer crates g token) c.1
        ∙ bearer_prefixed c.0 token
        ∙ (constant_time_eq_iff (trim c.0) token).1 c.2),
  )

  -- The header of a request carries the credential.
  abbrev pub Carries : DashboardAuth → Option HeaderValue → Type 0
  Carries auth none = ⊥
  Carries auth (some opaque) = ⊥
  Carries auth (some (visible h)) = Credential auth h

  authorized_iff :
      (auth : DashboardAuth) (header : Option HeaderValue)
      → (is_authorized crates auth (to_str header) ≡ true) ↔ Carries auth header
  unfolding is_authorized
  authorized_iff (basic user pass) none = ((λ h. absurd (cc)), (λ h. absurd h))
  authorized_iff (basic user pass) (some opaque) = ((λ h. absurd (cc)), (λ h. absurd h))
  authorized_iff (basic user pass) (some (visible h)) = basic_iff h user pass
  authorized_iff (bearer token) none = ((λ h. absurd (cc)), (λ h. absurd h))
  authorized_iff (bearer token) (some opaque) = ((λ h. absurd (cc)), (λ h. absurd h))
  authorized_iff (bearer token) (some (visible h)) = bearer_iff h token

  -- A request passes exactly if its `Authorization` header carries the credential: for Basic the
  -- encoded text of the user name, a colon and the password, where a user name with a colon in it
  -- never passes; for Bearer the token, with white space around it dropped. Any other request is
  -- answered with the refusal of the kind of authentication.
  pub require_auth_lem :
      (auth : DashboardAuth) (header : Option HeaderValue)
      → (Carries auth header → require_auth crates auth header ≡ passes)
        × (¬ Carries auth header → require_auth crates auth header ≡ unauthorized auth)
  unfolding require_auth
  require_auth_lem auth header = (
    (λ c. rw ((authorized_iff auth header).1 c) refl),
    (λ c. elim (Bool-cases (is_authorized crates auth (to_str header))) [
      | inl e ↦ absurd (c ((authorized_iff auth header).0 e))
      | inr e ↦ rw e refl
    ]),
  )
