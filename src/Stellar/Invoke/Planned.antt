-- ===== src/Stellar/Invoke/Planned.antt =====
-- internal/stellar/invoke.go: what is known of a transaction by the time it is signed, and of the
-- envelope that is then sent.
use tallybook.Stellar.Xdr.{to_int64, to_uint64}
use tallybook.Prelude.{◌+◌, ◌%◌, ◌^◌, none, ◌≡◌, refl, sym, subst, List, [], ◌∷◌}
use tallybook.Prelude.Bytes.{Bytes}
use tallybook.Prelude.Int.{ℤ}
use tallybook.Prelude.Result.{ok}
use tallybook.Stellar.ScVal.{ScVal}
use tallybook.Stellar.Auth.{AuthEntry, merge_auth_entries}
use tallybook.Stellar.Invoke.Node.{Node, through, through_lift}
use tallybook.Stellar.Invoke.Decode.{
  Operation, Transaction, Codecs, next_sequence, muxed_account, build_operation,
  decode_auth_entries,
}
use tallybook.Stellar.Invoke.Simulate.{Simulated, sim_transaction, simulate, fetch_sequence_number}
use tallybook.Stellar.Invoke.Prepare.{Plan, simulate_again, plan_call, plan}

module _ {D W : Type 0} (codecs : Codecs D) (node : Node W) (contract_id function : Bytes)
    (args : List ScVal) (extra : List AuthEntry) where
  -- A transaction of one operation, at the base fee.
  abbrev unsigned : Bytes → ℤ → Operation → Transaction D
  unsigned source seq op = record {
    source = source;
    fee = 100;
    seq_num = seq;
    operations = op ∷ [];
    data_ext = none;
  }

  -- The last simulation: the first one where there is no extra authorization, and otherwise another
  -- one, of the transaction with all of it.
  abbrev pub Last : Transaction D → Simulated → W → W → Simulated → List AuthEntry → Type 0
  Last tx first simulated w' final [] = (final ≡ first) × (w' ≡ simulated)
  Last tx first simulated w' final (e ∷ es) = simulate codecs node tx simulated ≡ (w', ok final)

  simulate_again-Last :
      (tx : Transaction D) (first final : Simulated) (simulated w' : W) (es : List AuthEntry)
      → simulate_again codecs node es tx first simulated ≡ (w', ok final)
      → Last tx first simulated w' final es
  unfolding simulate_again
  simulate_again-Last tx first final simulated w' [] h = (cc, cc)
  simulate_again-Last tx first final simulated w' (e ∷ es) h = h

  -- The account's next sequence number; a first simulation without authorization, which records
  -- entries; the operation with these and the extra ones merged; and, where there are extra ones, a
  -- second simulation of just that operation.
  pub record Planned (address : Bytes) (w w' : W) (p : Plan) : Type 0 where
    pub fetched : W
    pub sequence : ℤ
    pub account : fetch_sequence_number codecs node address w ≡ (fetched, ok sequence)
    pub seq_num : p.seq_num ≡ to_int64 ((to_uint64 sequence + 1) % 2 ^ 64)
    pub source : muxed_account codecs address ≡ ok p.source
    pub unsigned_op : Operation
    pub built : build_operation codecs contract_id function args [] ≡ ok unsigned_op
    pub simulated : W
    pub first : Simulated
    pub recording :
        simulate codecs node (unsigned p.source p.seq_num unsigned_op) fetched
        ≡ (simulated, ok first)
    pub recorded : List AuthEntry
    pub decoded : decode_auth_entries codecs first.first.auth ≡ ok recorded
    pub operation :
        build_operation codecs contract_id function args
          (merge_auth_entries codecs.auth recorded extra)
        ≡ ok p.operation
    pub final : Simulated
    pub again : Last (unsigned p.source p.seq_num p.operation) first simulated w' final extra
    pub result : p.simulated ≡ final.result

  plan_call-Planned :
      (address : Bytes) (w w1 w' : W) (p : Plan) (seq : ℤ) (source : Bytes) (op0 : Operation)
      → fetch_sequence_number codecs node address w ≡ (w1, ok seq)
      → muxed_account codecs address ≡ ok source
      → build_operation codecs contract_id function args [] ≡ ok op0
      → plan_call codecs node contract_id function args extra source (next_sequence seq) op0 w1
        ≡ (w', ok p)
      → Planned address w w' p
  unfolding plan_call next_sequence
  plan_call-Planned address w w1 w' p seq source op0 a b c h =
      through (simulate codecs node (sim_transaction codecs node source (next_sequence seq) op0) w1)
        _ w' p h
        (λ w2 s d h1.
          through_lift (decode_auth_entries codecs s.first.auth) _ w2 w' p h1 (λ recorded e h2.
            through_lift
              (build_operation codecs contract_id function args
                (merge_auth_entries codecs.auth recorded extra))
              _ w2 w' p h2
              (λ op f h3.
                through
                  (simulate_again codecs node extra
                    (sim_transaction codecs node source (next_sequence seq) op) s w2)
                  _ w' p h3
                  (λ w3 final g h4.
                    let made : Plan = record {
                      source = source;
                      seq_num = next_sequence seq;
                      operation = op;
                      simulated = final.result;
                    } in
                    let i : made ≡ p = cc in
                    let j : w3 ≡ w' = cc in
                    subst (Planned address w w') i (record {
                      fetched = w1;
                      sequence = seq;
                      account = a;
                      seq_num = refl;
                      source = b;
                      unsigned_op = op0;
                      built = c;
                      simulated = w2;
                      first = s;
                      recording = d;
                      recorded = recorded;
                      decoded = e;
                      operation = f;
                      final = final;
                      again =
                          simulate_again-Last
                            (sim_transaction codecs node source (next_sequence seq) op) s final w2
                            w' extra (rw (sym j) g);
                      result = refl;
                    })))))

  pub plan-Planned :
      (address : Bytes) (w w' : W) (p : Plan)
      → plan codecs node address contract_id function args extra w ≡ (w', ok p)
      → Planned address w w' p
  unfolding plan
  plan-Planned address w w' p h =
      through (fetch_sequence_number codecs node address w) _ w' p h (λ w1 seq a h1.
        through_lift (muxed_account codecs address) _ w1 w' p h1 (λ source b h2.
          through_lift (build_operation codecs contract_id function args []) _ w1 w' p h2
            (λ op0 c h3. plan_call-Planned address w w1 w' p seq source op0 a b c h3)))
