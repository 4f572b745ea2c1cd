-- ===== src/Examples/Proxying.antt =====
-- A request and an answer that pass through services/web/src/proxy.rs.
use home_ryanseipp.Prelude.{Option, some, [], ◌∷◌, ◌≡◌, refl, count_p}
use home_ryanseipp.Prelude.Text.{as_bytes, trim_end_matches}
use home_ryanseipp.Web.Proxy.{
  is_dropped_request_header, is_hop_by_hop_response, is_named, kept_headers, forwarded_for,
  forwarded_proto, forwarded_host, outgoing_headers, outgoing, proxy_handler, Http, Request,
  Outgoing, Upstream, Response,
}
use home_ryanseipp.Web.Proxy.Responses.{proxy_handler-repeats}

abbrev toy_http : Http
toy_http = record {
  to_str = λ b. some "10.0.0.1";
  header_value = some;
  status_from_u16 = some;
  body_headers = λ b. ("content-type", as_bytes "application/octet-stream") ∷ [];
  status_headers = [];
}

abbrev request : Request
request = record {
  method = "POST";
  path = "/auth/login";
  query = some "next=home";
  headers =
      ("host", as_bytes "home.ryanseipp.com")
      ∷ ("connection", as_bytes "close")
      ∷ ("cookie", as_bytes "theme=dark")
      ∷ ("x-forwarded-for", as_bytes "10.0.0.1")
      ∷ ("accept", as_bytes "*/*")
      ∷ [];
  client_ip = "192.0.2.7";
  body = λ limit. some (123 ∷ 125 ∷ []);
}

abbrev forwarded : Outgoing
forwarded = record {
  method = "POST";
  url = "http://gateway:8080/api/v1/auth/login?next=home";
  headers =
      ("cookie", as_bytes "theme=dark")
      ∷ ("accept", as_bytes "*/*")
      ∷ ("x-forwarded-for", as_bytes "10.0.0.1, 192.0.2.7")
      ∷ ("x-forwarded-proto", as_bytes "https")
      ∷ ("x-forwarded-host", as_bytes "home.ryanseipp.com")
      ∷ [];
  body = some (123 ∷ 125 ∷ []);
}

toy_forwarded : outgoing toy_http "http://gateway:8080/" request ≡ some forwarded
unfolding outgoing outgoing_headers kept_headers forwarded_for forwarded_proto forwarded_host
    is_dropped_request_header as_bytes trim_end_matches
toy_forwarded = refl

abbrev gateway_answer : Upstream
gateway_answer = record {
  status = 200;
  headers =
      ("content-type", as_bytes "application/json")
      ∷ ("transfer-encoding", as_bytes "chunked")
      ∷ [];
  body = some (123 ∷ 125 ∷ []);
}

abbrev answer_all : Outgoing → Option Upstream
answer_all out = some gateway_answer

abbrev received : Response
received = proxy_handler toy_http "http://gateway:8080/" answer_all request

proxy_handler-repeats_example : count_p (is_named "content-type") received.headers ≡ 2
unfolding is_hop_by_hop_response
proxy_handler-repeats_example =
    proxy_handler-repeats toy_http "http://gateway:8080/" answer_all request forwarded
      gateway_answer "content-type" toy_forwarded refl (refl, (refl, tt)) refl
