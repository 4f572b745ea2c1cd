-- ===== src/Web/Proxy.antt =====
-- services/web/src/proxy.rs: the proxy from the web server to the gateway. A header map is the list of
-- its entries, with names in small letters, as the crate `http` keeps them.
pub mod Requests
pub mod Responses
use home_ryanseipp.Prelude.{
  ℕ, ◌*◌, String, Bool, true, false, not, ◌||◌, Option, none, some, List, [], ◌∷◌, ◌++◌, str_eq,
  find, select, if◌then◌else◌,
}
use home_ryanseipp.Prelude.Text.{◌⧺◌, as_bytes, trim_end_matches}
use home_ryanseipp.Effect.{Bytes}

abbrev pub Header : Type 0
Header = String × Bytes

abbrev pub Headers : Type 0
Headers = List Header

-- 1 MiB
abbrev pub max_body_size : ℕ
max_body_size = 1_024 * 1_024

-- The names that both lists of hop-by-hop headers have.
abbrev pub is_connection_header : String → Bool
is_connection_header name =
    str_eq name "connection"
    || str_eq name "te"
    || str_eq name "trailer"
    || str_eq name "transfer-encoding"
    || str_eq name "upgrade"
    || str_eq name "keep-alive"

abbrev pub is_forwarding_header : String → Bool
is_forwarding_header name =
    str_eq name "x-forwarded-for"
    || str_eq name "x-forwarded-proto"
    || str_eq name "x-forwarded-host"

-- `is_dropped_request_header`
unfoldable pub is_dropped_request_header : String → Bool
is_dropped_request_header name =
    is_connection_header name
    || str_eq name "proxy-authenticate"
    || str_eq name "proxy-authorization"
    || str_eq name "content-length"
    || str_eq name "host"
    || is_forwarding_header name

-- `is_hop_by_hop_response`
unfoldable pub is_hop_by_hop_response : String → Bool
is_hop_by_hop_response name = is_connection_header name

-- What the crates `http` and `axum` offer: `HeaderValue::to_str`, `HeaderValue::from_bytes`,
-- `StatusCode::from_u16`, and the headers of `(status, body).into_response()` and of
-- `status.into_response()`.
pub record Http : Type 0 where
  pub to_str : Bytes → Option String
  pub header_value : Bytes → Option Bytes
  pub status_from_u16 : ℕ → Option ℕ
  pub body_headers : Bytes → Headers
  pub status_headers : Headers

-- A request to the proxy. Its body is what `to_bytes` gives under a limit.
pub record Request : Type 0 where
  pub method : String
  pub path : String
  pub query : Option String
  pub headers : Headers
  pub client_ip : String
  pub body : ℕ → Option Bytes

-- What the proxy hands to its client: the arguments of the builder calls, before `send`. The text of
-- the address is not yet parsed. That `reqwest` parses and normalises it there (dot segments
-- collapse, and a text that is no address is an error) and that its tracing middleware adds
-- `traceparent` and `tracestate` are part of the sending, which is a parameter.
pub record Outgoing : Type 0 where
  pub method : String
  pub url : String
  pub headers : Headers
  pub body : Option Bytes

-- The answer of the gateway; its body may break off.
pub record Upstream : Type 0 where
  pub status : ℕ
  pub headers : Headers
  pub body : Option Bytes

pub record Response : Type 0 where
  pub status : ℕ
  pub headers : Headers
  pub body : Bytes

abbrev pub is_named : String → Header → Bool
is_named name h = str_eq h.0 name

-- `headers.get(name)`, the first value
abbrev pub value_of : Option Header → Option Bytes
value_of none = none
value_of (some h) = some h.1

abbrev pub get : String → Headers → Option Bytes
get name headers = value_of (find (is_named name) headers)

abbrev pub query_text : Option String → String
query_text none = ""
query_text (some q) = "?" ⧺ q

-- the loop over the headers of the request
abbrev pub is_kept : Header → Bool
is_kept h = not (is_dropped_request_header h.0)

unfoldable pub kept_headers : Headers → Headers
kept_headers headers = select is_kept headers

abbrev pub text_or_empty : Option String → String
text_or_empty none = ""
text_or_empty (some s) = s

unfoldable pub forwarded_for : Http → String → Option Bytes → String
forwarded_for x client_ip none = client_ip
forwarded_for x client_ip (some existing) = text_or_empty (x.to_str existing) ⧺ (", " ⧺ client_ip)

unfoldable pub forwarded_proto : Option Bytes → Bytes
forwarded_proto none = as_bytes "https"
forwarded_proto (some proto) = proto

abbrev pub host_header : Option Bytes → Headers
host_header none = []
host_header (some host) = ("x-forwarded-host", host) ∷ []

unfoldable pub forwarded_host : Option Bytes → Option Bytes → Headers
forwarded_host (some host) own = host_header (some host)
forwarded_host none own = host_header own

unfoldable pub outgoing_headers : Http → Request → Headers
outgoing_headers x r =
    kept_headers r.headers
    ++ ((
      "x-forwarded-for",
      as_bytes (forwarded_for x r.client_ip (get "x-forwarded-for" r.headers)),
    )
        ∷ ("x-forwarded-proto", forwarded_proto (get "x-forwarded-proto" r.headers))
        ∷ forwarded_host (get "x-forwarded-host" r.headers) (get "host" r.headers))

abbrev pub body_of : Bytes → Option Bytes
body_of [] = none
body_of (b ∷ bs) = some (b ∷ bs)

-- the address without slashes at its end is that of `api_proxy`
abbrev pub outgoing_with : Http → String → Request → Option Bytes → Option Outgoing
outgoing_with x gateway_url r none = none
outgoing_with x gateway_url r (some body_bytes) = some (record {
  method = r.method;
  url = trim_end_matches b'/' gateway_url ⧺ ("/api/v1" ⧺ (r.path ⧺ query_text r.query));
  headers = outgoing_headers x r;
  body = body_of body_bytes;
})

-- What `proxy_handler` hands to its client, unless the body is refused.
unfoldable pub outgoing : Http → String → Request → Option Outgoing
outgoing x gateway_url r = outgoing_with x gateway_url r (r.body max_body_size)

abbrev pub empty_response : Http → ℕ → Response
empty_response x status = record { status = status; headers = x.status_headers; body = [] }

abbrev pub status_or_bad_gateway : Option ℕ → ℕ
status_or_bad_gateway none = 502
status_or_bad_gateway (some status) = status

abbrev pub bytes_or_default : Option Bytes → Bytes
bytes_or_default none = []
bytes_or_default (some b) = b

abbrev pub append_value : String → Option Bytes → Headers → Headers
append_value name none rest = rest
append_value name (some v) rest = (name, v) ∷ rest

-- the loop over the headers of the answer
unfoldable pub forward_headers : Http → Headers → Headers
forward_headers x [] = []
forward_headers x (h ∷ hs) =
    let rest = forward_headers x hs in
    if is_hop_by_hop_response h.0 then rest else append_value h.0 (x.header_value h.1) rest

-- the answer to what `req.send()` gives
unfoldable pub forward_response : Http → Option Upstream → Response
forward_response x none = empty_response x 502
forward_response x (some resp) =
    let resp_body = bytes_or_default resp.body in
    record {
      status = status_or_bad_gateway (x.status_from_u16 resp.status);
      headers = x.body_headers resp_body ++ forward_headers x resp.headers;
      body = resp_body;
    }

abbrev pub answer_for : Http → (Outgoing → Option Upstream) → Option Outgoing → Response
answer_for x send none = empty_response x 413
answer_for x send (some out) = forward_response x (send out)

-- `proxy_handler`
unfoldable pub proxy_handler : Http → String → (Outgoing → Option Upstream) → Request → Response
proxy_handler x gateway_url send r = answer_for x send (outgoing x gateway_url r)
