-- ===== src/Examples/Routing.antt =====
-- A request to the router of services/gateway/src/routes/mod.rs.
use home_ryanseipp.Prelude.{
  ℕ, suc, String, Bool, not, ◌&&◌, Option, none, some, List, find, [], ◌∷◌, select, str_eq,
}
use home_ryanseipp.Gateway.Router.{Route, Request, Handler, AppState, Axum}

abbrev named : String → String × String → Bool
named name h = str_eq h.0 name

abbrev unnamed : String → String × String → Bool
unnamed name h = not (str_eq h.0 name)

abbrev run_first : (S : Type 0) → Option (Route S) → Handler S
run_first S none q s = (record { status = 404; headers = []; body = [] }, s)
run_first S (some r) q s = r.handler q s

abbrev first_route : (S : Type 0) → List (Route S) → Handler S
first_route S routes q =
    run_first S (find (λ (r : Route S). str_eq r.path q.path && str_eq r.method q.method) routes) q

abbrev toy_axum : Axum
toy_axum = record {
  takes = str_eq;
  serve = λ S routes. first_route S routes;
  json_status =
      λ s. record { status = 200; headers = ("content-type", "application/json") ∷ []; body = [] };
  overriding = λ name value hs. (name, value) ∷ select (unnamed name) hs;
}

-- A handler that counts its calls.
abbrev count : Handler ℕ
count q s = (
  record {
    status = 200;
    headers = ("set-cookie", "a=b") ∷ ("x-frame-options", "SAMEORIGIN") ∷ [];
    body = [];
  },
  suc s,
)

abbrev counters : AppState ℕ
counters = record {
  sign_up = count;
  verify_email = count;
  login = count;
  logout = count;
  user_info = count;
  update_profile = count;
  update_password = count;
  resend_verification = count;
}

abbrev asked : Request
asked = record { method = "POST"; path = "/api/v1/login"; body = []; body_limit = none }
