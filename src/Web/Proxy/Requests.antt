-- ===== src/Web/Proxy/Requests.antt =====
-- What services/web/src/proxy.rs hands to its client for the gateway.
use home_ryanseipp.Prelude.{
  ◌≤◌, String, Bool, true, false, not, ◌||◌, some, ◌∷◌, ◌≡◌, str_eq, select, count_p, All,
}
use home_ryanseipp.Prelude.Text.{◌⧺◌, as_bytes, trim_end_matches}
use home_ryanseipp.Effect.{Bytes}
use home_ryanseipp.Web.Proxy.{
  Header, Headers, max_body_size, is_connection_header, is_forwarding_header, Http, Request,
  Outgoing, is_named, get, query_text, is_kept, forwarded_for, forwarded_proto, forwarded_host,
  body_of,
}

-- The headers that are not about the hop to the proxy.
abbrev pub is_end_to_end : Header → Bool
is_end_to_end h = not (is_forwarding_header h.0)

-- A header that the proxy may never pass on.
abbrev pub IsPassable : Header → Type 0
IsPassable h =
    (is_connection_header h.0
      || str_eq h.0 "host"
      || str_eq h.0 "content-length"
      || str_eq h.0 "proxy-authorization")
    ≡ false

-- What the gateway receives for a request.
pub record IsForwarded (gateway_url : String) (r : Request) (out : Outgoing) : Type 0 where
  pub method : out.method ≡ r.method
  pub url :
      out.url ≡ trim_end_matches b'/' gateway_url ⧺ ("/api/v1" ⧺ (r.path ⧺ query_text r.query))
  -- all that is not about a hop comes through, in order
  pub headers : select is_end_to_end out.headers ≡ select is_kept r.headers
  pub passable : All IsPassable out.headers
  -- one address list, which ends with the address of the client, one scheme, at most one host
  pub one_for : count_p (is_named "x-forwarded-for") out.headers ≡ 1
  pub ends :
      (before : String) × (get "x-forwarded-for" out.headers
        ≡ some (as_bytes (before ⧺ r.client_ip)))
  pub one_proto : count_p (is_named "x-forwarded-proto") out.headers ≡ 1
  pub one_host : count_p (is_named "x-forwarded-host") out.headers ≤ 1
  pub body : (b : Bytes) × (r.body max_body_size ≡ some b) × (out.body ≡ body_of b)

-- What comes after the kept headers.
abbrev added : Http → Request → Headers
added x r =
    ("x-forwarded-for", as_bytes (forwarded_for x r.client_ip (get "x-forwarded-for" r.headers)))
    ∷ ("x-forwarded-proto", forwarded_proto (get "x-forwarded-proto" r.headers))
    ∷ forwarded_host (get "x-forwarded-host" r.headers) (get "host" r.headers)

-- No header that is kept has a name that the proxy adds.
abbrev IsAdded : String → Type 0
IsAdded name = (h : Header) → is_kept h ≡ true → is_named name h ≡ false
