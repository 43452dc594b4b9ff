-- ===== src/Stellar/Rpc/Calls.antt =====
-- internal/stellar/rpc.go: when `call` succeeds, and what it sends.
use tallybook.Prelude.{
  ◌+◌, ◌%◌, ◌^◌, ◌≡◌, ◌⊎◌, ◌↔◌, refl, sym, ap, ◌∙◌, true, Option, none, some, arith, Bool-cases,
  Option-cases, inl, inr,
}
use tallybook.Prelude.Bytes.{Bytes, ascii}
use tallybook.Prelude.Result.{ok}
use tallybook.Stellar.Rpc.{
  Client, Params, RpcRequest, RpcResponse, HttpResponse, Wire, Session, add_id, decode_result,
  read_response, read_http, send_request, call,
}

module _ {N : Type 0} (wire : Wire N) {A : Type 0} (decode : Bytes → Option A)
    (method : Bytes) where
  -- The request that a session sends next.
  abbrev pub request_of : Session N → Params → RpcRequest
  request_of s params = record {
    jsonrpc = ascii "2.0";
    id = (s.client.next_id + 1) % 2 ^ 64;
    method = method;
    params = params;
  }

  -- A call that was answered: the request was posted to the client's URL, the reply has status 200
  -- and an envelope without an error, and the result in it is `a`.
  pub record Answered (s : Session N) (params : Params) (a : A) : Type 0 where
    pub body : Bytes
    pub marshalled : wire.marshal (request_of s params) ≡ some body
    pub url : wire.is_url s.client.url ≡ true
    pub http : HttpResponse
    pub replied : (wire.post s.net s.client.url body).1 ≡ some http
    pub status : http.status ≡ 200
    pub envelope : RpcResponse
    pub decoded : wire.decode_response http.body ≡ some envelope
    pub no_error : envelope.error ≡ none
    pub result : decode envelope.result ≡ some a

  read_response-ok :
      (o : Option RpcResponse) (a : A)
      → read_response wire decode method o ≡ ok a
      → (r : RpcResponse) × (o ≡ some r) × (r.error ≡ none) × (decode r.result ≡ some a)
  unfolding read_response decode_result
  read_response-ok none a h = cc
  read_response-ok (some r) a h = elim (Option-cases r.error) [
    | inr (e, f) ↦ ground arith
    | inl f ↦ elim (Option-cases (decode r.result)) [
      | inl d ↦ ground arith
      | inr (b, d) ↦ (r, refl, f, ground arith)
    ]
  ]

  read_http-ok :
      (o : Option HttpResponse) (a : A)
      → read_http wire decode method o ≡ ok a
      → (r : HttpResponse) × (o ≡ some r)
        × (r.status ≡ 200)
        × (read_response wire decode method (wire.decode_response r.body) ≡ ok a)
  unfolding read_http
  read_http-ok none a h = cc
  read_http-ok (some r) a h = (r, refl, ground arith, ground arith)

  -- The call once its request is marshalled.
  call-sent :
      (s : Session N) (params : Params) (body : Bytes)
      → wire.marshal (request_of s params) ≡ some body
      → wire.is_url s.client.url ≡ true
      → (call wire decode method s params).1
        ≡ read_http wire decode method (wire.post s.net s.client.url body).1
  unfolding call send_request add_id
  call-sent s params body m u = rw (m, u, call, send_request) refl

  call-Answered :
      (s : Session N) (params : Params) (a : A)
      → (call wire decode method s params).1 ≡ ok a
      → Answered s params a
  unfolding call send_request add_id
  call-Answered s params a h = elim (Option-cases (wire.marshal (request_of s params))) [
    | inl m ↦ ground arith
    | inr (body, m) ↦ elim (Bool-cases (wire.is_url s.client.url)) [
      | inr u ↦ ground arith
      | inl u ↦
          let e = call-sent s params body m u in
          let (http, p, st, k) = read_http-ok (wire.post s.net s.client.url body).1 a (sym e ∙ h) in
          let (r, d, n, x) = read_response-ok (wire.decode_response http.body) a k in
          record {
            body = body;
            marshalled = m;
            url = u;
            http = http;
            replied = p;
            status = st;
            envelope = r;
            decoded = d;
            no_error = n;
            result = x;
          }
    ]
  ]

  Answered-call :
      (s : Session N) (params : Params) (a : A)
      → Answered s params a
      → (call wire decode method s params).1 ≡ ok a
  unfolding read_http read_response decode_result
  Answered-call s params a x =
      call-sent s params x.body x.marshalled x.url
      ∙ (rw
          (
            x.replied, read_http, x.status, x.decoded, read_response, x.no_error, x.result,
            decode_result,
          )
          refl)

  -- What a request leaves of the session it is sent in.
  send_request-client :
      (s : Session N) (o : Option Bytes) → (send_request wire decode method s o).0.client ≡ s.client
  unfolding send_request
  send_request-client s none = refl
  send_request-client s (some body) = ground arith

  send_request-net :
      (s : Session N) (o : Option Bytes)
      → ((send_request wire decode method s o).0.net ≡ s.net)
        ⊎ ((body : Bytes) × (o ≡ some body)
            × ((send_request wire decode method s o).0.net ≡ (wire.post s.net s.client.url body).0))
  unfolding send_request
  send_request-net s none = inl refl
  send_request-net s (some body) = elim (Bool-cases (wire.is_url s.client.url)) [
    | inl u ↦ inr (body, refl, ground arith)
    | inr u ↦ inl (ground arith)
  ]

  -- The session whose request is on its way.
  abbrev counted : Session N → Session N
  counted s = record {
    client = record { url = s.client.url; next_id = (s.client.next_id + 1) % 2 ^ 64 };
    net = s.net;
  }

  pub call-net :
      (s : Session N) (params : Params)
      → ((call wire decode method s params).0.net ≡ s.net)
        ⊎ ((body : Bytes) × (wire.marshal (request_of s params) ≡ some body)
            × ((call wire decode method s params).0.net ≡ (wire.post s.net s.client.url body).0))
  unfolding call
  call-net s params = send_request-net (counted s) (wire.marshal (request_of s params))

  -- A call succeeds with a result if and only if its request could be marshalled and posted, and the
  -- reply has status 200, an envelope without an error and just that result. Whether it succeeds or
  -- not, it takes the next id, and the network sees at most one request, with that id.
  pub call_iff :
      (s : Session N) (params : Params) (a : A)
      → (((call wire decode method s params).1 ≡ ok a) ↔ Answered s params a)
        × ((call wire decode method s params).0.client.next_id ≡ (s.client.next_id + 1) % 2 ^ 64)
        × (((call wire decode method s params).0.net ≡ s.net)
            ⊎ ((body : Bytes) × (wire.marshal (request_of s params) ≡ some body)
                × ((call wire decode method s params).0.net
                    ≡ (wire.post s.net s.client.url body).0)))
  unfolding call send_request add_id
  call_iff s params a = (
    (call-Answered s params a, Answered-call s params a),
    ap (λ (c : Client). c.next_id)
        (send_request-client (counted s) (wire.marshal (request_of s params))),
    call-net s params,
  )
