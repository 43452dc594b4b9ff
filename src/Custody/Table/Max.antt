-- ===== src/Custody/Table/Max.antt =====
-- internal/store/migrations/0003_commitments.sql: what the trigger's maximum and the unique
-- constraint's lookup say of every row.
use tallybook.Prelude.{
  ◌≡◌, refl, sym, true, false, Option, none, some, List, [], ◌∷◌, All, arith, Option-cases,
  Bool-cases, inl, inr,
}
use tallybook.Prelude.Bytes.{Bytes, bytes_eq, bytes_eq_refl}
use tallybook.Prelude.Int.{ℤ, ltb_ℤ, ◌≤ℤ◌, ◌<ℤ◌}
use tallybook.Custody.Table.{Row, current_max, rejects_regression, find_row, larger}

-- Every row of the channel is at most the amount.
abbrev pub AtMost : Bytes → ℤ → List Row → Type 0
AtMost channel m rows = All (λ q. bytes_eq q.channel channel ≡ true → q.cumulative_amount ≤ℤ m) rows

-- Every row of the channel is below the amount.
abbrev pub Below : Bytes → ℤ → List Row → Type 0
Below channel m rows = All (λ q. bytes_eq q.channel channel ≡ true → q.cumulative_amount <ℤ m) rows

AtMost-weaken :
    (channel : Bytes) (a b : ℤ) (rows : List Row)
    → a ≤ℤ b
    → AtMost channel a rows
    → AtMost channel b rows
AtMost-weaken channel a b [] l h = tt
AtMost-weaken channel a b (q ∷ rows) l h = (
  λ e. let k : q.cumulative_amount ≤ℤ a = h.0 e in omega arith,
  AtMost-weaken channel a b rows l h.1,
)

none_below :
    (channel : Bytes) (a : ℤ) (rows : List Row)
    → current_max channel rows ≡ none
    → AtMost channel a rows
unfolding current_max
none_below channel a [] h = tt
none_below channel a (q ∷ rows) h = elim (Bool-cases (bytes_eq q.channel channel)) [
  | inl e ↦ ground arith
  | inr e ↦ (λ f. cc, none_below channel a rows (ground arith))
]

larger-ge : (a : ℤ) (o : Option ℤ) (m : ℤ) → larger a o ≡ m → a ≤ℤ m
larger-ge a none m h = rw (sym h) (omega arith)
larger-ge a (some b) m h = elim (Bool-cases (ltb_ℤ a b)) [
  | inl l ↦ let e : b ≡ m = ground arith in rw (sym e) (ground arith)
  | inr l ↦ let e : a ≡ m = ground arith in rw (sym e) (omega arith)
]

larger-ge-some : (a b : ℤ) (o : Option ℤ) (m : ℤ) → o ≡ some b → larger a o ≡ m → b ≤ℤ m
larger-ge-some a b none m e h = cc
larger-ge-some a b (some c) m e h =
    let f : c ≡ b = cc in
    elim (Bool-cases (ltb_ℤ a c)) [
      | inl l ↦ let g : c ≡ m = ground arith in rw (sym f, g) (omega arith)
      | inr l ↦ let g : a ≡ m = ground arith in rw (sym f, sym g) (ground arith)
    ]

larger-le : (a c : ℤ) (o : Option ℤ) → a ≤ℤ c → ((b : ℤ) → o ≡ some b → b ≤ℤ c) → larger a o ≤ℤ c
larger-le a c none h k = h
larger-le a c (some b) h k =
    let l : b ≤ℤ c = k b refl in elim (Bool-cases (ltb_ℤ a b)) [ inl e ↦ rw e l | inr e ↦ rw e h ]

max-cons :
    (channel : Bytes) (m : ℤ) (q : Row) (rows : List Row)
    → bytes_eq q.channel channel ≡ true
    → current_max channel (q ∷ rows) ≡ some m
    → larger q.cumulative_amount (current_max channel rows) ≡ m
unfolding current_max
max-cons channel m q rows e h = cc

max_bound :
    (channel : Bytes) (m : ℤ) (rows : List Row)
    → current_max channel rows ≡ some m
    → AtMost channel m rows
unfolding current_max
max_bound channel m [] h = cc
max_bound channel m (q ∷ rows) h = elim (Bool-cases (bytes_eq q.channel channel)) [
  | inr e ↦ (λ f. cc, max_bound channel m rows (ground arith))
  | inl e ↦ (
    λ f. larger-ge q.cumulative_amount (current_max channel rows) m (max-cons channel m q rows e h),
    elim (Option-cases (current_max channel rows)) [
      | inl n ↦ none_below channel m rows n
      | inr (k, p) ↦
          AtMost-weaken channel k m rows
            (larger-ge-some q.cumulative_amount k (current_max channel rows) m p
              (max-cons channel m q rows e h))
            (max_bound channel k rows p)
    ],
  )
]

-- What the trigger lets through is at least every amount of the channel.
pub AtMost-of_rejects_regression :
    (channel : Bytes) (a : ℤ) (rows : List Row)
    → rejects_regression channel a rows ≡ false
    → AtMost channel a rows
unfolding rejects_regression
AtMost-of_rejects_regression channel a rows h = elim (Option-cases (current_max channel rows)) [
  | inl n ↦ none_below channel a rows n
  | inr (m, p) ↦ AtMost-weaken channel m a rows (ground arith) (max_bound channel m rows p)
]

max_le :
    (channel : Bytes) (a m : ℤ) (rows : List Row)
    → AtMost channel a rows
    → current_max channel rows ≡ some m
    → m ≤ℤ a
unfolding current_max
max_le channel a m [] h e = cc
max_le channel a m (q ∷ rows) h e = elim (Bool-cases (bytes_eq q.channel channel)) [
  | inr f ↦ max_le channel a m rows h.1 (ground arith)
  | inl f ↦ rw (sym (max-cons channel m q rows f e)) (
      larger-le q.cumulative_amount a (current_max channel rows) (h.0 f)
        (λ b p. max_le channel a b rows h.1 p))
]

-- And it lets every such amount through.
pub rejects_regression_of_AtMost :
    (channel : Bytes) (a : ℤ) (rows : List Row)
    → AtMost channel a rows
    → rejects_regression channel a rows ≡ false
unfolding rejects_regression
rejects_regression_of_AtMost channel a rows h = elim (Option-cases (current_max channel rows)) [
  | inl n ↦ rw (n, rejects_regression) refl
  | inr (m, p) ↦
      let l : m ≤ℤ a = max_le channel a m rows h p in rw (p, rejects_regression) (ground arith)
]

-- An amount that the trigger lets through and that no row has is above every amount of the channel.
pub Below-of_find_row :
    (channel : Bytes) (a : ℤ) (rows : List Row)
    → AtMost channel a rows
    → find_row channel a rows ≡ none
    → Below channel a rows
unfolding find_row
Below-of_find_row channel a [] h e = tt
Below-of_find_row channel a (q ∷ rows) h e = (
  λ f. let k : q.cumulative_amount ≤ℤ a = h.0 f in ground arith,
  Below-of_find_row channel a rows h.1 (ground arith),
)

pub find_row-push :
    (r : Row) (rows : List Row) → find_row r.channel r.cumulative_amount (r ∷ rows) ≡ some r
unfolding find_row
find_row-push r rows = ground (arith, bytes_eq_refl r.channel)
