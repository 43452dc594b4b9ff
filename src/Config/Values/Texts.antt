-- ===== src/Config/Values/Texts.antt =====
-- internal/config/config.go: what `validateURL` and `validateStrkeyLike` let through.
use tallybook.Prelude.{
  ℕ, ◌≡◌, refl, true, false, some, List, [], ◌∷◌, length, All, arith, Bool-cases, Option-cases, inl,
  inr,
}
use tallybook.Prelude.Bytes.{Bytes}
use tallybook.Prelude.Text.{is_empty}
use tallybook.Config.Values.{
  Url, Host, is_one_of, check_url, validate_url, is_base32, all_base32, starts_with,
  validate_strkey_like,
}

-- A URL with a host and with one of the schemes.
pub record IsUrl (h : Host) (value : Bytes) (schemes : List Bytes) : Type 0 where
  pub url : Url
  pub parsed : h.url_parse value ≡ some url
  pub host : is_empty url.host ≡ false
  pub scheme : is_one_of url.scheme schemes ≡ true

-- The shape of a Stellar address: 56 letters of base32, the first one given.
pub record IsStrkeyLike (value : Bytes) (prefix : ℕ) : Type 0 where
  pub tail : Bytes
  pub head : value ≡ prefix ∷ tail
  pub size : length value ≡ 56
  pub letters : All (λ b. is_base32 b ≡ true) value

module _ (h : Host) (name value : Bytes) (schemes : List Bytes) (e : is_empty value ≡ false) where
  pub validate_url-IsUrl : validate_url h name value schemes ≡ [] → IsUrl h value schemes
  unfolding validate_url check_url
  validate_url-IsUrl k = elim (Option-cases (h.url_parse value)) [
    | inl f ↦ ground arith
    | inr (u, f) ↦ record { url = u; parsed = f; host = ground arith; scheme = ground arith }
  ]

  pub IsUrl-validate_url : IsUrl h value schemes → validate_url h name value schemes ≡ []
  unfolding validate_url check_url
  IsUrl-validate_url k = rw (validate_url, e, k.parsed, check_url, k.host, k.scheme) refl

all_base32-All : (bs : Bytes) → all_base32 bs ≡ true → All (λ b. is_base32 b ≡ true) bs
unfolding all_base32
all_base32-All [] h = tt
all_base32-All (b ∷ bs) h = elim (Bool-cases (is_base32 b)) [
  | inl e ↦ (e, all_base32-All bs (ground arith))
  | inr e ↦ ground arith
]

All-all_base32 : (bs : Bytes) → All (λ b. is_base32 b ≡ true) bs → all_base32 bs ≡ true
unfolding all_base32
All-all_base32 [] h = refl
All-all_base32 (b ∷ bs) (h, hs) = rw (all_base32, h) (All-all_base32 bs hs)

starts_with-head :
    (prefix : ℕ) (value : Bytes)
    → starts_with prefix value ≡ true
    → (tail : Bytes) × (value ≡ prefix ∷ tail)
unfolding starts_with
starts_with-head prefix [] h = cc
starts_with-head prefix (b ∷ bs) h = let e : b ≡ prefix = ground arith in (bs, cc)

head-starts_with :
    (prefix : ℕ) (value tail : Bytes) → value ≡ prefix ∷ tail → starts_with prefix value ≡ true
unfolding starts_with
head-starts_with prefix [] tail h = cc
head-starts_with prefix (b ∷ bs) tail h = let e : b ≡ prefix = cc in ground arith

module _ (name value : Bytes) (prefix : ℕ) (e : is_empty value ≡ false) where
  pub validate_strkey_like-IsStrkeyLike :
      validate_strkey_like name value prefix ≡ [] → IsStrkeyLike value prefix
  unfolding validate_strkey_like
  validate_strkey_like-IsStrkeyLike k =
      let s : starts_with prefix value ≡ true = ground arith in
      let l : all_base32 value ≡ true = ground arith in
      let (tail, f) = starts_with-head prefix value s in
      record { tail = tail; head = f; size = ground arith; letters = all_base32-All value l }

  pub IsStrkeyLike-validate_strkey_like :
      IsStrkeyLike value prefix → validate_strkey_like name value prefix ≡ []
  unfolding validate_strkey_like
  IsStrkeyLike-validate_strkey_like k =
      let s = head-starts_with prefix value k.tail k.head in
      let l = All-all_base32 value k.letters in let z = k.size in ground arith
