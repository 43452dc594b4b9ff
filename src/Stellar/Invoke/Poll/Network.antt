-- ===== src/Stellar/Invoke/Poll/Network.antt =====
-- internal/stellar/rpc.go and internal/stellar/invoke.go: polling over the JSON-RPC client.
use tallybook.Prelude.{◌+◌, ◌≤◌, ◌≡◌, sym, subst, true, inl, inr}
use native.Mathlib.Nat.{le_refl}
use tallybook.Prelude.Bytes.{Bytes, ascii}
use tallybook.Stellar.Rpc.{Wire, get_transaction, hash_params}
use tallybook.Stellar.Rpc.Calls.{call-net}
use tallybook.Stellar.Invoke.Node.{Clock, node_of}
use tallybook.Stellar.Invoke.Poll.{poll_interval}
use tallybook.Stellar.Invoke.Poll.Settles.{IsClock}

-- A network on which a request does not set the time back and a pause takes its interval.
pub record IsSteady {N : Type 0} (wire : Wire N) (clock : Clock N) : Type 0 where
  pub posts : (n : N) (url body : Bytes) → clock.now n ≤ clock.now (wire.post n url body).0
  pub ticks :
      (n : N) → (clock.pause n).1 ≡ true → clock.now n + poll_interval ≤ clock.now (clock.pause n).0

-- The client's polling has a clock on such a network.
pub node_of-IsClock :
    {N : Type 0} (wire : Wire N) (clock : Clock N)
    → IsSteady wire clock
    → IsClock (node_of wire clock)
unfolding node_of get_transaction
node_of-IsClock wire clock s = record {
  steady = λ w hash.
      elim (call-net wire wire.transaction (ascii "getTransaction") w (hash_params hash)) [
        | inl e ↦ subst (λ n. clock.now w.net ≤ clock.now n) (sym e) (le_refl (clock.now w.net))
        | inr (body, m, e) ↦
            subst (λ n. clock.now w.net ≤ clock.now n) (sym e) (s.posts w.net w.client.url body)
      ];
  ticks = λ w h. s.ticks w.net h;
}
