-- ===== src/Dashboard/Examples/Guarding.antt =====
-- Runs and instances of the guards and the routes of the dashboard.
use qml.Base.{
  ◌≡◌, ◌≢◌, refl, true, false, Option, none, some, map, take, arith, inl, Bytes, codes, lowercase,
  same_bytes, same_bytes_iff,
}
use qml.Core.JobState.{JobStateKind}
use qml.Error.{ok}
use qml.Storage.Memory.Jobs.Paging.{wanted}
use qml.Dashboard.Examples.{storage}
use qml.Dashboard.Auth.{
  Crates, CrateLaws, DashboardAuth, basic, HeaderValue, visible, passes, forbidden, unauthorized,
  to_str, require_auth,
}
use qml.Dashboard.Auth.Credentials.{Carries, require_auth_lem}
use qml.Dashboard.Csrf.{post, Headers, csrf_guard, csrf_guard_origin, is_mutation, ends_authority}
use qml.Dashboard.Details.{details}
use qml.Dashboard.Routes.{response_success, response_error, get_queue_jobs, parse_job_state}
use qml.Dashboard.Routes.Listing.{of_queue, get_queue_jobs_lem}

-- A decoder that knows one text, and a plain comparison.
abbrev crates : Crates
crates = record {
  base64_decode =
      λ s. elim (same_bytes s (codes "YTpi")) [ true ↦ some (codes "a:b") | false ↦ none ];
  ct_eq = λ a b. same_bytes a b;
}

crate_laws : CrateLaws crates
crate_laws = record { ct_eq_iff = λ a b h. same_bytes_iff a b }

abbrev login : DashboardAuth
login = basic (codes "a") (codes "b")

abbrev authorization : Option HeaderValue
authorization = some (visible (codes "Basic YTpi"))

require_auth_lem_example :
    (Carries crates crate_laws login authorization
      → require_auth crates login authorization ≡ passes)
    × (¬ Carries crates crate_laws login authorization
        → require_auth crates login authorization ≡ unauthorized login)
require_auth_lem_example = require_auth_lem crates crate_laws login authorization

abbrev request : Headers
request = record {
  host = some (visible (codes "Dash:8080"));
  origin = some (visible (codes "http://evil.example/page"));
  referer = none;
}

csrf_guard_origin_example :
    ((host : Bytes)
      → request.host ≡ some (visible host)
      → (lowercase host ≡ lowercase (codes "evil.example") → csrf_guard post request ≡ passes)
        × (lowercase host ≢ lowercase (codes "evil.example") → csrf_guard post request ≡ forbidden))
    × (to_str request.host ≡ none → csrf_guard post request ≡ forbidden)
unfolding is_mutation ends_authority
csrf_guard_origin_example =
    csrf_guard_origin post request (codes "http") (codes "evil.example") (codes "/page") refl
      (refl, (refl, (refl, (refl, tt)))) (λ h. cc)
      (
        refl,
        (refl, (refl, (refl, (refl, (refl, (refl, (refl, (refl, (refl, (refl, (refl, tt))))))))))),
      )
      refl (inl refl)

get_queue_jobs_lem_example :
    (get_queue_jobs storage "mail" (record { state = none; limit = none; queue = none })
      ≡ some
          (ok (response_success (of_queue "mail" (map details (take 50 (wanted storage none)))))))
    × ((text : Bytes) (k : JobStateKind)
        → parse_job_state text ≡ some k
        → get_queue_jobs storage "mail" (record { state = some text; limit = none; queue = none })
          ≡ some (
              ok (
                response_success
                  (of_queue "mail" (map details (take 100 (wanted storage (some k))))))))
    × ((text : Bytes)
        → parse_job_state text ≡ none
        → get_queue_jobs storage "mail" (record { state = some text; limit = none; queue = none })
          ≡ some (ok (response_error "Invalid job state")))
get_queue_jobs_lem_example = get_queue_jobs_lem storage "mail" none none (omega arith)
