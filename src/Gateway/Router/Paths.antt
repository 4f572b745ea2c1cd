-- ===== src/Gateway/Router/Paths.antt =====
-- Which handler a request comes to (routes/mod.rs, routes/health.rs and routes/auth.rs).
use home_ryanseipp.Prelude.{
  String, Bool, true, false, ◌&&◌, Option, none, some, List, [], ◌∷◌, ◌≡◌, refl, sym, find, str_eq,
  All, Bool-cases, Option-cases, inl, inr, some-injective,
}
use mathlib.Core.Path.{subst}
use home_ryanseipp.Gateway.Router.{
  Request, Response, Handler, Route, AppState, Axum, is_for, health_check, auth_routes, routes_of,
}

-- A request goes to the first route that is for it, and if there is none, no handler runs.
pub record RoutingLaws (x : Axum) : Type 1 where
  pub served :
      (S : Type 0) (routes : List (Route S)) (q : Request) (s : S) (r : Route S)
      → find (is_for x q) routes ≡ some r
      → x.serve S routes q s ≡ r.handler q s
  pub unserved :
      (S : Type 0) (routes : List (Route S)) (q : Request) (s : S)
      → find (is_for x q) routes ≡ none
      → (x.serve S routes q s).1 ≡ s

-- The request as a handler gets it, with a limit of 1 MiB for the body.
abbrev pub limited : Request → Request
limited q = record q { body_limit = some 1_048_576 }

pub data Endpoint : Type 0 where
  sign_up verify_email login logout user_info update_profile update_password : Endpoint
  resend_verification : Endpoint

abbrev pub path_of : Endpoint → String
path_of sign_up = "/api/v1/sign-up"
path_of verify_email = "/api/v1/verify-email"
path_of login = "/api/v1/login"
path_of logout = "/api/v1/logout"
path_of user_info = "/api/v1/userinfo"
path_of update_profile = "/api/v1/profile"
path_of update_password = "/api/v1/update-password"
path_of resend_verification = "/api/v1/resend-verification"

abbrev pub method_of : Endpoint → String
method_of user_info = "GET"
method_of update_profile = "PATCH"
method_of _ = "POST"

abbrev pub handler_of : {S : Type 0} → AppState S → Endpoint → Handler S
handler_of a sign_up = a.sign_up
handler_of a verify_email = a.verify_email
handler_of a login = a.login
handler_of a logout = a.logout
handler_of a user_info = a.user_info
handler_of a update_profile = a.update_profile
handler_of a update_password = a.update_password
handler_of a resend_verification = a.resend_verification

module _ (x : Axum) where
  -- The request has the path, and the filter of the method takes it.
  abbrev pub asks : String → String → Request → Bool
  asks path method q = str_eq path q.path && x.takes method q.method

  -- No route is for the request.
  abbrev pub Unasked : {S : Type 0} → Option (AppState S) → Request → Type 0
  Unasked none q = asks "/healthz" "GET" q ≡ false
  Unasked (some a) q =
      (asks "/healthz" "GET" q ≡ false)
      × ((e : Endpoint) → asks (path_of e) (method_of e) q ≡ false)

  -- What a request comes to before the layers: a response and the state after it.
  pub data Leads {S : Type 0} (state : Option (AppState S)) (q : Request) (s : S)
      : Response × S → Type 0 where
    healthy : asks "/healthz" "GET" q ≡ true → Leads state q s (x.json_status "ok", s)
    handled :
        (a : AppState S) (e : Endpoint)
        → state ≡ some a
        → asks (path_of e) (method_of e) q ≡ true
        → Leads state q s (handler_of a e (limited q) s)
    nowhere : (r : Response) → Unasked state q → Leads state q s (r, s)

module _ {S : Type 0} (P : Route S → Type 0) (p : Route S → Bool) where
  find-some :
      (routes : List (Route S)) (r : Route S)
      → All (λ (r : Route S). p r ≡ true → P r) routes
      → find p routes ≡ some r
      → P r
  find-some [] r all h = cc
  find-some (k ∷ ks) r all h = elim (Bool-cases (p k)) [
    | inl hit ↦ subst P (some-injective (rw hit at h)) (all.0 hit)
    | inr miss ↦ find-some ks r all.1 (rw miss at h)
  ]

find-none :
    {S : Type 0} (p : Route S → Bool) (routes : List (Route S))
    → find p routes ≡ none
    → All (λ (r : Route S). p r ≡ false) routes
find-none p [] h = tt
find-none p (k ∷ ks) h = elim (Bool-cases (p k)) [
  | inl hit ↦ cc (rw hit at h)
  | inr miss ↦ (miss, find-none p ks (rw miss at h))
]

module _ (x : Axum) {S : Type 0} where
  abbrev Served : Option (AppState S) → Request → S → Route S → Type 0
  Served state q s r = Leads x state q s (r.handler (limited q) s)

  each_route :
      (state : Option (AppState S)) (q : Request) (s : S)
      → All
          (λ (r : Route S). is_for x (limited q) r ≡ true → Served state q s r)
          (routes_of x state)
  unfolding auth_routes health_check
  each_route none q s = (healthy, tt)
  each_route (some a) q s = (
    healthy,
    (
      handled a sign_up refl,
      (
        handled a verify_email refl,
        (
          handled a login refl,
          (
            handled a logout refl,
            (
              handled a user_info refl,
              (
                handled a update_profile refl,
                (handled a update_password refl, (handled a resend_verification refl, tt)),
              ),
            ),
          ),
        ),
      ),
    ),
  )

  no_route :
      (state : Option (AppState S)) (q : Request)
      → All (λ (r : Route S). is_for x (limited q) r ≡ false) (routes_of x state)
      → Unasked x state q
  unfolding auth_routes
  no_route none q h = h.0
  no_route (some a) q (health, rest) = (health, go rest)
    where
      go :
          All (λ (r : Route S). is_for x (limited q) r ≡ false) (auth_routes x a)
          → (e : Endpoint) → asks x (path_of e) (method_of e) q ≡ false
      go (h, _) sign_up = h
      go (_, (h, _)) verify_email = h
      go (_, (_, (h, _))) login = h
      go (_, (_, (_, (h, _)))) logout = h
      go (_, (_, (_, (_, (h, _))))) user_info = h
      go (_, (_, (_, (_, (_, (h, _)))))) update_profile = h
      go (_, (_, (_, (_, (_, (_, (h, _))))))) update_password = h
      go (_, (_, (_, (_, (_, (_, (_, (h, _)))))))) resend_verification = h

  pub routes-Leads :
      RoutingLaws x
      → (state : Option (AppState S)) (q : Request) (s : S)
      → Leads x state q s (x.serve S (routes_of x state) (limited q) s)
  routes-Leads routing state q s =
      elim (Option-cases (find (is_for x (limited q)) (routes_of x state))) [
        | inl e ↦
            let quiet = routing.unserved S (routes_of x state) (limited q) s e in
            let bare = x.serve S (routes_of x state) (limited q) s in
            subst (λ (t : S). Leads x state q s (bare.0, t)) (sym quiet)
              (nowhere bare.0 (no_route state q (find-none (is_for x (limited q)) _ e)))
        | inr (r, e) ↦
            subst (Leads x state q s) (sym (routing.served S (routes_of x state) (limited q) s r e))
              (find-some (Served state q s) (is_for x (limited q)) (routes_of x state) r
                (each_route state q s) e)
      ]
