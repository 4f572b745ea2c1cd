-- ===== src/Gateway/Router/Security.antt =====
-- The layers of routes/mod.rs around every response.
use home_ryanseipp.Prelude.{String, false, Option, List, [], ◌∷◌, ◌≡◌, map, select, str_eq}
use home_ryanseipp.Gateway.Router.{Headers, Request, Response, AppState, Axum}
use home_ryanseipp.Gateway.Router.Paths.{Leads}

-- The values of a name, in order.
abbrev pub values : String → Headers → List String
values name hs =
    map (λ (h : String × String). h.1) (select (λ (h : String × String). str_eq h.0 name) hs)

-- `overriding` leaves one value of its name, and leaves the other names.
pub record AxumLaws (x : Axum) : Type 0 where
  pub overridden :
      (name value : String) (hs : Headers) → values name (x.overriding name value hs) ≡ value ∷ []
  pub others :
      (name value other : String) (hs : Headers)
      → str_eq name other ≡ false
      → values other (x.overriding name value hs) ≡ values other hs

-- What a browser is to be told with every response.
abbrev pub required : Headers
required =
    ("content-security-policy", "default-src 'none'; frame-ancestors 'none'; base-uri 'none'")
    ∷ (
      "permissions-policy",
      "accelerometer=(), camera=(), geolocation=(), gyroscope=(), magnetometer=(), microphone=(), payment=(), usb=()",
    )
    ∷ ("referrer-policy", "strict-origin-when-cross-origin")
    ∷ ("strict-transport-security", "max-age=63072000; includeSubDomains; preload")
    ∷ ("x-content-type-options", "nosniff")
    ∷ ("x-frame-options", "DENY")
    ∷ []

-- The list has no entry of the name.
abbrev pub Lacks : String → Headers → Type 0
Lacks name [] = Unit
Lacks name (h ∷ hs) = (str_eq h.0 name ≡ false) × Lacks name hs

-- The headers have each name of the list once, with its value.
abbrev pub Sets : Headers → Headers → Type 0
Sets [] hs = Unit
Sets (l ∷ layers) hs = (values l.0 hs ≡ l.1 ∷ []) × Sets layers hs

abbrev AreDistinct : Headers → Type 0
AreDistinct [] = Unit
AreDistinct (l ∷ layers) = Lacks l.0 layers × AreDistinct layers

-- An answer has the status and the body that the routes lead to and leaves the state that they
-- leave, has the required headers, and the other headers that they lead to.
pub record IsSecured (x : Axum) {S : Type 0} (state : Option (AppState S)) (q : Request) (s : S)
    (other : String) (answer : Response × S) : Type 0 where
  pub inner : Response
  pub leads : Leads x state q s (inner, answer.1)
  pub status : answer.0.status ≡ inner.status
  pub body : answer.0.body ≡ inner.body
  pub sets : Sets required answer.0.headers
  pub keeps : values other answer.0.headers ≡ values other inner.headers
