-- ===== src/Stellar/Events/RoundTrip.antt =====
-- What the event decoders make of the events as the contracts emit them.
use tallybook.Prelude.{
  ◌≡◌, refl, Bool, true, false, Option, some, List, [], ◌∷◌, length, ◌==◌, arith, if◌then◌else◌,
  Bool-cases, inl, inr,
}
use tallybook.Prelude.Bytes.{Bytes, bytes_eq}
use tallybook.Prelude.Result.{ok}
use tallybook.Stellar.ScVal.{ScVal}
use tallybook.Stellar.Xdr.{
  Strkey, IsCodec, scv_address, scv_i128, scv_vec, decode_u32, decode_u64, decode_vec,
  decode_symbol,
}
use tallybook.Stellar.Xdr.Address.{decode_address-scv_address}
use tallybook.Stellar.Xdr.I128.{decode_scv_i128}
use tallybook.Stellar.Registry.{scv_protocol}
use tallybook.Stellar.Registry.RoundTrip.{
  decode_bytes32-bytes, decode_unit_enum_variant-scv_protocol,
}
use tallybook.Stellar.Events.{
  StatementAnchorEvent, ChannelOpenEvent, match_topics, matches_topic, decode_event_fields,
  decode_statement_anchor_event, decode_channel_open_event,
}

-- The same texts in the same order.
abbrev pub texts_eq : List Bytes → List Bytes → Bool
texts_eq [] [] = true
texts_eq [] (y ∷ ys) = false
texts_eq (x ∷ xs) [] = false
texts_eq (x ∷ xs) (y ∷ ys) = if bytes_eq x y then texts_eq xs ys else false

texts_eq-false : (xs ys : List Bytes) → (length xs == length ys) ≡ false → texts_eq xs ys ≡ false
texts_eq-false [] [] h = ground arith
texts_eq-false [] (y ∷ ys) h = refl
texts_eq-false (x ∷ xs) [] h = refl
texts_eq-false (x ∷ xs) (y ∷ ys) h = elim (Bool-cases (bytes_eq x y)) [
  | inl e ↦ rw e (texts_eq-false xs ys (ground arith))
  | inr e ↦ rw e refl
]

-- The base64 texts, and the symbols they stand for.
abbrev pub texts : List (Bytes × Bytes) → List Bytes
texts [] = []
texts ((t, s) ∷ ts) = t ∷ texts ts

abbrev pub symbols : List (Bytes × Bytes) → List Bytes
symbols [] = []
symbols ((t, s) ∷ ts) = s ∷ symbols ts

length-texts : (ts : List (Bytes × Bytes)) → length (texts ts) ≡ length (symbols ts)
length-texts [] = refl
length-texts ((t, s) ∷ ts) = omega (arith, length-texts ts)

module _ (unmarshal : Bytes → Option ScVal) where
  abbrev pub AreSymbols : List (Bytes × Bytes) → Type 0
  AreSymbols [] = Unit
  AreSymbols ((t, s) ∷ ts) = (unmarshal t ≡ some (ScVal.symbol s)) × AreSymbols ts

  match_topics_lem :
      (ts : List (Bytes × Bytes)) (want : List Bytes)
      → AreSymbols ts
      → length (symbols ts) ≡ length want
      → match_topics unmarshal (texts ts) want ≡ ok (texts_eq (symbols ts) want)
  unfolding match_topics decode_symbol
  match_topics_lem [] [] a h = refl
  match_topics_lem [] (w ∷ ws) a h = ground arith
  match_topics_lem ((t, s) ∷ ts) [] a h = ground arith
  match_topics_lem ((t, s) ∷ ts) (w ∷ ws) (a, b) h =
      rw (a, match_topics_lem ts ws b (omega arith))
        (elim (Bool-cases (bytes_eq s w)) [ inl e ↦ rw e refl | inr e ↦ rw e refl ])

  -- Where every topic is the wire form of a symbol, `MatchesTopic` reports, without an error,
  -- whether the symbols are the wanted texts, in that order and that number.
  pub matches_topic-texts_eq :
      (ts : List (Bytes × Bytes)) (want : List Bytes)
      → AreSymbols ts
      → matches_topic unmarshal (texts ts) want ≡ ok (texts_eq (symbols ts) want)
  unfolding matches_topic
  matches_topic-texts_eq ts want a = elim (Bool-cases (length (symbols ts) == length want)) [
    | inl e ↦ rw (matches_topic, length-texts ts, e) (match_topics_lem ts want a (ground arith))
    | inr e ↦ rw (matches_topic, length-texts ts, e, texts_eq-false (symbols ts) want e) refl
  ]

  module _ (strkey : Strkey) (codec : IsCodec strkey) where
    -- Over a strkey codec, an anchor event whose addresses and amounts are as the encoders make them and
    -- whose root has 32 bytes decodes to its seven fields.
    pub decode_statement_anchor_event-unmarshal :
        (text : Bytes) (e : StatementAnchorEvent) (operator consumer billed settled : ScVal)
        → scv_address strkey e.operator ≡ ok operator
        → scv_address strkey e.consumer ≡ ok consumer
        → scv_i128 (some e.amount_billed) ≡ ok billed
        → scv_i128 (some e.amount_settled) ≡ ok settled
        → length e.usage_root ≡ 32
        → unmarshal text
          ≡ some (
              scv_vec (
                operator
                ∷ consumer
                ∷ ScVal.u64 e.seq
                ∷ ScVal.bytes e.usage_root
                ∷ billed
                ∷ settled
                ∷ scv_protocol e.protocol
                ∷ []))
        → decode_statement_anchor_event unmarshal strkey text ≡ ok e
    unfolding decode_statement_anchor_event decode_event_fields decode_vec decode_u64
    decode_statement_anchor_event-unmarshal text e operator consumer billed settled o c b s l u =
        rw
          (
            u,
            decode_address-scv_address strkey codec e.operator operator o,
            decode_address-scv_address strkey codec e.consumer consumer c,
            decode_bytes32-bytes e.usage_root l,
            decode_scv_i128 e.amount_billed billed b,
            decode_scv_i128 e.amount_settled settled s,
            decode_unit_enum_variant-scv_protocol e.protocol,
          )
          refl

    -- Over a strkey codec, a channel's open event whose addresses and amount are as the encoders make
    -- them and whose commitment key has 32 bytes decodes to its six fields.
    pub decode_channel_open_event-unmarshal :
        (text : Bytes) (e : ChannelOpenEvent) (from to token amount : ScVal)
        → scv_address strkey e.from ≡ ok from
        → scv_address strkey e.to ≡ ok to
        → scv_address strkey e.token ≡ ok token
        → scv_i128 (some e.amount) ≡ ok amount
        → length e.commitment_key ≡ 32
        → unmarshal text
          ≡ some (
              scv_vec (
                from
                ∷ ScVal.bytes e.commitment_key
                ∷ to
                ∷ token
                ∷ amount
                ∷ ScVal.u32 e.refund_waiting_period
                ∷ []))
        → decode_channel_open_event unmarshal strkey text ≡ ok e
    unfolding decode_channel_open_event decode_event_fields decode_vec decode_u32
    decode_channel_open_event-unmarshal text e from to token amount f t k a l u =
        rw
          (
            u,
            decode_address-scv_address strkey codec e.from from f,
            decode_address-scv_address strkey codec e.to to t,
            decode_address-scv_address strkey codec e.token token k,
            decode_bytes32-bytes e.commitment_key l,
            decode_scv_i128 e.amount amount a,
          )
          refl
