-- ===== src/Gateway/Router.antt =====
-- services/gateway/src/routes/mod.rs and health.rs, with the table of routes of routes/auth.rs.
pub mod Paths
pub mod Security
use home_ryanseipp.Prelude.{
  ℕ, String, Bool, true, false, ◌&&◌, Option, none, some, List, [], ◌∷◌, ◌++◌, find, any, map,
  str_eq,
}
use home_ryanseipp.Effect.{Bytes}

abbrev pub Headers : Type 0
Headers = List (String × String)

pub record Request : Type 0 where
  pub method : String
  pub path : String
  pub body : Bytes
  -- what the layer of `DefaultBodyLimit` tells the extractors
  pub body_limit : Option ℕ

pub record Response : Type 0 where
  pub status : ℕ
  pub headers : Headers
  pub body : Bytes

-- A handler over a state `S`, with the extraction of its arguments.
abbrev pub Handler : Type 0 → Type 0
Handler S = Request → S → Response × S

pub record Route (S : Type 0) : Type 0 where
  pub path : String
  pub method : String
  pub handler : Handler S

-- The handlers of routes/auth.rs with their `AppState`.
pub record AppState (S : Type 0) : Type 0 where
  pub sign_up : Handler S
  pub verify_email : Handler S
  pub login : Handler S
  pub logout : Handler S
  pub user_info : Handler S
  pub update_profile : Handler S
  pub update_password : Handler S
  pub resend_verification : Handler S

-- The crates `axum` and `tower-http`: whether the filter of a method takes a request, the routing of
-- a request to the handlers, the response of `Json` for a status text, and
-- `SetResponseHeaderLayer::overriding` on the headers of a response.
pub record Axum : Type 1 where
  pub takes : String → String → Bool
  pub serve : (S : Type 0) → List (Route S) → Handler S
  pub json_status : String → Response
  pub overriding : String → String → Headers → Headers

-- 1 MiB
abbrev pub max_body : ℕ
max_body = 1_048_576

-- the headers of the layers, the inner ones first
abbrev pub security_headers : Headers
security_headers =
    ("strict-transport-security", "max-age=63072000; includeSubDomains; preload")
    ∷ ("x-content-type-options", "nosniff")
    ∷ ("x-frame-options", "DENY")
    ∷ ("referrer-policy", "strict-origin-when-cross-origin")
    ∷ (
      "permissions-policy",
      "accelerometer=(), camera=(), geolocation=(), gyroscope=(), magnetometer=(), microphone=(), payment=(), usb=()",
    )
    ∷ ("content-security-policy", "default-src 'none'; frame-ancestors 'none'; base-uri 'none'")
    ∷ []

unfoldable pub override_all : Axum → Headers → Headers → Headers
override_all x [] hs = hs
override_all x (h ∷ layers) hs = override_all x layers (x.overriding h.0 h.1 hs)

module _ (x : Axum) {S : Type 0} where
  unfoldable pub health_check : Handler S
  health_check q s = (x.json_status "ok", s)

  -- `health::routes`
  abbrev pub health_routes : List (Route S)
  health_routes = record { path = "/healthz"; method = "GET"; handler = health_check } ∷ []

  -- `auth::routes`
  unfoldable pub auth_routes : AppState S → List (Route S)
  auth_routes a =
      record { path = "/api/v1/sign-up"; method = "POST"; handler = a.sign_up }
      ∷ record { path = "/api/v1/verify-email"; method = "POST"; handler = a.verify_email }
      ∷ record { path = "/api/v1/login"; method = "POST"; handler = a.login }
      ∷ record { path = "/api/v1/logout"; method = "POST"; handler = a.logout }
      ∷ record { path = "/api/v1/userinfo"; method = "GET"; handler = a.user_info }
      ∷ record { path = "/api/v1/profile"; method = "PATCH"; handler = a.update_profile }
      ∷ record { path = "/api/v1/update-password"; method = "POST"; handler = a.update_password }
      ∷ record {
        path = "/api/v1/resend-verification";
        method = "POST";
        handler = a.resend_verification;
      }
      ∷ []

  abbrev pub routes_of : Option (AppState S) → List (Route S)
  routes_of none = health_routes
  routes_of (some a) = health_routes ++ auth_routes a

  -- whether a route, whose path has no parameters, is for a request
  abbrev pub is_for : Request → Route S → Bool
  is_for q r = str_eq r.path q.path && x.takes r.method q.method

  -- `router`
  unfoldable pub router : Option (AppState S) → Handler S
  router state q s =
      let (resp, s') = x.serve S (routes_of state) (record q { body_limit = some max_body }) s in
      (record resp { headers = override_all x security_headers resp.headers }, s')
