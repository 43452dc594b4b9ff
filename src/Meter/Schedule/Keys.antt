-- ===== src/Meter/Schedule/Keys.antt =====
-- The key of an endpoint, a method and a path joined by a space: when it tells endpoints apart.
-- The endpoint hash of internal/merkle hashes the same text.
use tallybook.Prelude.{
  ◌≡◌, refl, ap, ◌≢◌, ◌⊎◌, inl, inr, [], ◌∷◌, ◌++◌, All, append_assoc, Bool-cases,
}
use tallybook.Prelude.Bytes.{Bytes, bytes_eq, bytes_eq_iff}
use tallybook.Merkle.Leaf.{endpoint_hash}
use tallybook.Meter.Schedule.{schedule_key}

abbrev pub HasNoSpace : Bytes → Type 0
HasNoSpace = All (λ b. b ≢ b' ')

split_space :
    (m n p q : Bytes)
    → HasNoSpace m
    → HasNoSpace n
    → m ++ (b' ' ∷ p) ≡ n ++ (b' ' ∷ q)
    → (m ≡ n) × (p ≡ q)
split_space [] [] p q h k e = (refl, cc)
split_space [] (y ∷ n) p q h k e = absurd (k.0 (cc))
split_space (x ∷ m) [] p q h k e = absurd (h.0 (cc))
split_space (x ∷ m) (y ∷ n) p q h k e =
    let (a, b) = split_space m n p q h.1 k.1 (cc) in let c : x ≡ y = cc in (cc, b)

-- Two endpoints whose methods hold no space have one key only if they are the same endpoint.
pub schedule_key-injective :
    (m n p q : Bytes)
    → HasNoSpace m
    → HasNoSpace n
    → schedule_key m p ≡ schedule_key n q
    → (m ≡ n) × (p ≡ q)
unfolding schedule_key
schedule_key-injective m n p q h k e = split_space m n p q h k e

-- The endpoint hash of a leaf and the key of the schedule agree on which endpoints are the same:
-- equal keys have equal hashes, and equal hashes come from equal keys or from keys that differ and
-- have one sha256.
pub endpoint_hash-schedule_key :
    (sha256 : Bytes → Bytes) (m n p q : Bytes)
    → (schedule_key m p ≡ schedule_key n q → endpoint_hash sha256 m p ≡ endpoint_hash sha256 n q)
      × (endpoint_hash sha256 m p ≡ endpoint_hash sha256 n q
          → (schedule_key m p ≡ schedule_key n q)
            ⊎ ((schedule_key m p ≢ schedule_key n q)
                × (sha256 (schedule_key m p) ≡ sha256 (schedule_key n q))))
unfolding schedule_key endpoint_hash
endpoint_hash-schedule_key sha256 m n p q = (
  λ e. ap sha256 e,
  λ e.
      let x : Bytes = m ++ (b' ' ∷ p) in
      let y : Bytes = n ++ (b' ' ∷ q) in
      elim (Bool-cases (bytes_eq x y)) [
        | inl same ↦ inl ((bytes_eq_iff x y).0 same)
        | inr differ ↦ inr ((λ s. cc ((bytes_eq_iff x y).1 s)), e)
      ],
)

-- A method with a space in it shares its key with another endpoint, whose method ends at that space.
pub schedule_key_ambiguous :
    (m a b : Bytes) → schedule_key (m ++ (b' ' ∷ a)) b ≡ schedule_key m (a ++ (b' ' ∷ b))
unfolding schedule_key
schedule_key_ambiguous m a b = append_assoc m (b' ' ∷ a) (b' ' ∷ b)
