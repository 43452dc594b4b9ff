-- ===== src/Httpapi/Metering/Recorded.antt =====
-- Served requests are recorded requests.
use tallybook.Prelude.{
  ℕ, ◌^◌, ◌<◌, length, ◌≡◌, ◌≢◌, refl, sym, true, false, Option, none, some, List, [], ◌∷◌, arith,
  Option-cases, Bool-cases, ◌⊎◌, inl, inr,
}
use tallybook.Prelude.Bytes.{Bytes, bytes_eq, eq_of_bytes_eq, ascii}
use tallybook.Prelude.Int.{ℤ, pos, ◌≤ℤ◌, ◌<ℤ◌}
use tallybook.Prelude.Result.{ok, Result-cases}
use tallybook.Prelude.Text.{Unicode, is_empty}
use tallybook.Merkle.Leaf.{endpoint_hash}
use tallybook.Meter.Pricing.{Catalog, PricedRequest, price}
use tallybook.Httpapi.Requests.{
  RecordedRequest, Row, Link, works, breaks_after, row_of, accepts, record_request, nullable,
  passes_channel, is_recorded, is_text, text_or_null, fits_texts,
}
use tallybook.Httpapi.Requests.Insert.{
  record_request-none, record_request-some, record_request-accepts, IsTakable-accepts,
}
use tallybook.Httpapi.Metering.{
  RequestInfo, Config, MeterError, served, refused, validate_info, units_of, meter_request,
  record_metered, handle,
}

-- `Validate` mirrors the table's constraint on the protocol and the channel.
validate_channel :
    (protocol channel : Bytes)
    → validate_info (record { consumer = b'G' ∷ []; protocol = protocol; channel = channel })
      ≡ ok tt
    → passes_channel protocol (nullable channel) ≡ true
unfolding validate_info passes_channel is_empty
validate_channel protocol [] h = ground arith
validate_channel protocol (b ∷ channel) h = ground arith

validate_info-passes_channel :
    (c : RequestInfo)
    → validate_info c ≡ ok tt
    → passes_channel c.protocol (nullable c.channel) ≡ true
unfolding validate_info is_empty
validate_info-passes_channel c v = validate_channel c.protocol c.channel (ground arith)

protocol_cases :
    (protocol : Bytes) (channel : Option Bytes)
    → passes_channel protocol channel ≡ true
    → (protocol ≡ ascii "x402")
      ⊎ ((protocol ≡ ascii "mpp_charge") ⊎ (protocol ≡ ascii "mpp_session"))
unfolding passes_channel
protocol_cases protocol channel h = elim (Bool-cases (bytes_eq protocol (ascii "x402"))) [
  | inl a ↦ inl (eq_of_bytes_eq _ _ a)
  | inr a ↦ elim (Bool-cases (bytes_eq protocol (ascii "mpp_charge"))) [
    | inl b ↦ inr (inl (eq_of_bytes_eq _ _ b))
    | inr b ↦ inr (inr (eq_of_bytes_eq _ _ (ground arith)))
  ]
]

-- What `Validate` accepts as a protocol is a text.
validate_info-is_text : (c : RequestInfo) → validate_info c ≡ ok tt → is_text c.protocol ≡ true
unfolding is_text
validate_info-is_text c v =
    elim (protocol_cases c.protocol (nullable c.channel) (validate_info-passes_channel c v)) [
      | inl e ↦ rw e refl
      | inr (inl e) ↦ rw e refl
      | inr (inr e) ↦ rw e refl
    ]

module _ {Request : Type 0} (u : Unicode) (sha256 : Bytes → Bytes) (cfg : Config Request)
    (pricer : Catalog) where
  -- The request that is recorded.
  abbrev pub request_of : RequestInfo → ℕ → Bytes → PricedRequest → Request → RecordedRequest
  request_of caller ledger request_id priced r = record {
    request_id = request_id;
    operator = cfg.operator;
    consumer = caller.consumer;
    endpoint_hash = endpoint_hash sha256 cfg.method cfg.path_template;
    method = cfg.method;
    path_template = cfg.path_template;
    unit_count = units_of cfg r;
    price_version = priced.price_version;
    charged_amount = some priced.charged_amount;
    protocol = caller.protocol;
    channel = caller.channel;
    observed_ledger = ledger;
  }

  -- Where a request that is recorded comes from: a caller that is known and well formed, the current
  -- ledger, the price at that ledger and a request id.
  pub record Metered (info : Option RequestInfo) (ledger : Option ℕ) (request_id : Option Bytes)
      (r : Request) (req : RecordedRequest) : Type 0 where
    pub caller : RequestInfo
    pub at_ledger : ℕ
    pub priced : PricedRequest
    pub id : Bytes
    pub known : info ≡ some caller
    pub well_formed : validate_info caller ≡ ok tt
    pub current : ledger ≡ some at_ledger
    pub charged : price u pricer at_ledger cfg.method cfg.path_template (units_of cfg r) ≡ ok priced
    pub random : request_id ≡ some id
    pub request : req ≡ request_of caller at_ledger id priced r

  meter_request_given :
      (c : RequestInfo) (l : ℕ) (i : Bytes) (r : Request) (req : RecordedRequest)
      → meter_request u sha256 cfg pricer (some c) (some l) (some i) r ≡ ok req
      → Metered (some c) (some l) (some i) r req
  unfolding meter_request
  meter_request_given c l i r req h = elim (Result-cases (validate_info c)) [
    | inr (x, v) ↦ ground arith
    | inl (t, v) ↦
        elim (Result-cases (price u pricer l cfg.method cfg.path_template (units_of cfg r))) [
          | inr (x, e) ↦ ground arith
          | inl (p, e) ↦
              let q : request_of c l i p r ≡ req = ground arith in
              record {
                caller = c;
                at_ledger = l;
                priced = p;
                id = i;
                known = refl;
                well_formed = v;
                current = refl;
                charged = e;
                random = refl;
                request = sym q;
              }
        ]
  ]

  meter_request-Metered :
      (info : Option RequestInfo) (ledger : Option ℕ) (request_id : Option Bytes) (r : Request)
      (req : RecordedRequest)
      → meter_request u sha256 cfg pricer info ledger request_id r ≡ ok req
      → Metered info ledger request_id r req
  unfolding meter_request
  meter_request-Metered none ledger request_id r req h = cc
  meter_request-Metered (some c) none request_id r req h = ground arith
  meter_request-Metered (some c) (some l) none r req h = ground arith
  meter_request-Metered (some c) (some l) (some i) r req h = meter_request_given c l i r req h

  -- A request that is served: it is metered, and its row stands on top of the table that it met.
  pub record Recorded (info : Option RequestInfo) (ledger : Option ℕ) (request_id : Option Bytes)
      (r : Request) (rows rows' : List Row) : Type 0 where
    pub recorded : RecordedRequest
    pub metered : Metered info ledger request_id r recorded
    pub amount : ℤ
    pub amount_eq : recorded.charged_amount ≡ some amount
    pub on_top : rows' ≡ row_of recorded amount ∷ rows
    pub accepted : accepts rows (row_of recorded amount) ≡ true

  -- The wrapped handler runs only for a request whose caller is known and well formed, that was
  -- priced at the current ledger for its units, and whose row, with that charge, that price version
  -- and that ledger, the table of requests has accepted and holds.
  pub handle-Recorded :
      (info : Option RequestInfo) (ledger : Option ℕ) (request_id : Option Bytes) (r : Request)
      (link : Link) (rows : List Row)
      → (handle u sha256 cfg pricer info ledger request_id r link rows).1 ≡ served
      → Recorded info ledger request_id r rows
          (handle u sha256 cfg pricer info ledger request_id r link rows).0
  unfolding handle record_metered
  handle-Recorded info ledger request_id r link rows =
      elim (Result-cases (meter_request u sha256 cfg pricer info ledger request_id r)) [
        | inr (x, e) ↦ rw (e, handle) (λ h. cc)
        | inl (req, e) ↦ elim (Option-cases (record_request link rows req).1) [
          | inr (x, f) ↦ rw (e, handle, record_metered, f) (λ h. cc)
          | inl f ↦
              rw (e, handle, record_metered)
                (λ h.
                  let (amount, p, q, a) = record_request-none link rows req f in
                  record {
                    recorded = req;
                    metered = meter_request-Metered info ledger request_id r req e;
                    amount = amount;
                    amount_eq = p;
                    on_top = q;
                    accepted = a;
                  })
        ]
      ]

  -- A request that is refused leaves the table of requests as it was, unless the database's answer
  -- to the insert was lost.
  pub handle_refused :
      (info : Option RequestInfo) (ledger : Option ℕ) (request_id : Option Bytes) (r : Request)
      (link : Link) (rows : List Row) (x : MeterError)
      → (handle u sha256 cfg pricer info ledger request_id r link rows).1 ≡ refused x
      → link ≢ breaks_after
      → (handle u sha256 cfg pricer info ledger request_id r link rows).0 ≡ rows
  unfolding handle record_metered
  handle_refused info ledger request_id r link rows x =
      elim (Result-cases (meter_request u sha256 cfg pricer info ledger request_id r)) [
        | inr (y, e) ↦ rw (e, handle) (λ h l. refl)
        | inl (req, e) ↦ elim (Option-cases (record_request link rows req).1) [
          | inr (y, f) ↦
              rw (e, handle, record_metered) (λ h l. record_request-some link rows req y f l)
          | inl f ↦ rw (e, handle, record_metered, f) (λ h l. cc)
        ]
      ]

  -- Where nothing fails, a well-formed caller's request that has a price is served, with its row on
  -- top. What `Validate` accepts passes the table's constraints on the protocol and the channel; the
  -- other constraints are the conditions: ids and hashes of 32 bytes, 1 to 2^63 - 1 units, a price
  -- version and a ledger below 2^31, a charge from 0 to 10^39 - 1, an id that no row has, and UTF-8
  -- without a zero byte in the operator, the consumer, the method, the path and the channel.
  pub handle_serves :
      (c : RequestInfo) (l : ℕ) (i : Bytes) (r : Request) (rows : List Row) (p : PricedRequest)
      → validate_info c ≡ ok tt
      → price u pricer l cfg.method cfg.path_template (units_of cfg r) ≡ ok p
      → length i ≡ 32
      → length (endpoint_hash sha256 cfg.method cfg.path_template) ≡ 32
      → 0 < units_of cfg r
      → units_of cfg r < 2 ^ 63
      → p.price_version < 2 ^ 31
      → l < 2 ^ 31
      → pos 0 ≤ℤ p.charged_amount
      → p.charged_amount <ℤ pos (10 ^ 39)
      → is_recorded i rows ≡ false
      → is_text cfg.operator ≡ true
      → is_text c.consumer ≡ true
      → is_text cfg.method ≡ true
      → is_text cfg.path_template ≡ true
      → text_or_null (nullable c.channel) ≡ true
      → handle u sha256 cfg pricer (some c) (some l) (some i) r works rows
        ≡ (row_of (request_of c l i p r) p.charged_amount ∷ rows, served)
  unfolding handle record_metered meter_request fits_texts
  handle_serves c l i r rows p v e il hl u1 u2 pv lf a0 a1 n to tc tm tp tn =
      let a : accepts rows (row_of (request_of c l i p r) p.charged_amount) ≡ true =
        IsTakable-accepts rows (row_of (request_of c l i p r) p.charged_amount) (record {
          id_length = il;
          hash_length = hl;
          some_unit = u1;
          units_fit = u2;
          version_fits = pv;
          ledger_fits = lf;
          no_debt = a0;
          amount_fits = a1;
          texts = let t = validate_info-is_text c v in rw (fits_texts, to, tc, tm, tp, t, tn) refl;
          channel_set = validate_info-passes_channel c v;
          new_id = n;
        }) in
      rw
        (
          v,
          e,
          handle,
          record_metered,
          meter_request,
          record_request-accepts rows (request_of c l i p r) p.charged_amount refl a,
        )
        refl
