-- ===== src/Web/Proxy/Responses.antt =====
-- What the client receives from services/web/src/proxy.rs.
use home_ryanseipp.Prelude.{
  ◌+◌, String, Bool, true, false, not, Option, none, some, [], ◌∷◌, ◌≡◌, refl, ap, ◌∙◌, select,
  count_p, count_p-append, count_p-select_of_imp, eq_iff, All, arith,
}
use home_ryanseipp.Effect.{Bytes}
use home_ryanseipp.Web.Proxy.{
  Header, Headers, is_hop_by_hop_response, is_named, Http, Request, Outgoing, Upstream,
  max_body_size, bytes_or_default, forward_headers, forward_response, outgoing, outgoing_with,
  answer_for, proxy_handler, answer_for, outgoing_with,
}

-- The library takes every value that the answer can have.
abbrev pub AcceptsValues : Http → Headers → Type 0
AcceptsValues x hs = All (λ (h : Header). x.header_value h.1 ≡ some h.1) hs

abbrev pub is_passed : Header → Bool
is_passed h = not (is_hop_by_hop_response h.0)

forward_headers-select :
    (x : Http) (hs : Headers) → AcceptsValues x hs → forward_headers x hs ≡ select is_passed hs
unfolding forward_headers
forward_headers-select x [] a = refl
forward_headers-select x (h ∷ hs) a = rw (a.0, forward_headers-select x hs a.1) (ground arith)

passed :
    (name : String) (h : Header)
    → is_hop_by_hop_response name ≡ false
    → is_named name h ≡ true
    → is_passed h ≡ true
passed name h p e = rw ((eq_iff h.0 name).0 e, p) refl

-- A request with a body of more than 1 MiB, or one that cannot be read, is answered with 413, whatever
-- the gateway would say.
pub proxy_handler-refuses :
    (x : Http) (gateway_url : String) (send : Outgoing → Option Upstream) (r : Request)
    → r.body max_body_size ≡ none
    → (proxy_handler x gateway_url send r).status ≡ 413
unfolding proxy_handler outgoing
proxy_handler-refuses x gateway_url send r h =
    ap (λ (o : Option Bytes). (answer_for x send (outgoing_with x gateway_url r o)).status) h

-- If the gateway answers, with values that the library takes, a name that is not about the connection
-- stands in the answer once for each time that the gateway gives it, and once more if the
-- library gives it to a body: a `content-type` of the gateway is the second one.
pub proxy_handler-repeats :
    (x : Http) (gateway_url : String) (send : Outgoing → Option Upstream) (r : Request)
    (out : Outgoing) (resp : Upstream) (name : String)
    → outgoing x gateway_url r ≡ some out
    → send out ≡ some resp
    → AcceptsValues x resp.headers
    → is_hop_by_hop_response name ≡ false
    → count_p (is_named name) (proxy_handler x gateway_url send r).headers
      ≡ count_p (is_named name) (x.body_headers (bytes_or_default resp.body))
        + count_p (is_named name) resp.headers
unfolding proxy_handler forward_response
proxy_handler-repeats x gateway_url send r out resp name h k a p =
    ap (λ (o : Option Outgoing). count_p (is_named name) (answer_for x send o).headers) h
    ∙ ap (λ (o : Option Upstream). count_p (is_named name) (forward_response x o).headers) k
    ∙ count_p-append (is_named name) (x.body_headers (bytes_or_default resp.body))
        (forward_headers x resp.headers)
    ∙ ap
        (λ hs.
          count_p (is_named name) (x.body_headers (bytes_or_default resp.body))
          + count_p (is_named name) hs)
        (forward_headers-select x resp.headers a)
    ∙ omega (
      arith,
      count_p-select_of_imp (is_named name) is_passed resp.headers (λ h e. passed name h p e),
    )
