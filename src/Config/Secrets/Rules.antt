-- ===== src/Config/Secrets/Rules.antt =====
-- internal/config/config.go: the rules for the secret, its source and the file it may stand in.
use tallybook.Prelude.{
  ◌≡◌, ◌≢◌, ◌⊎◌, refl, sym, true, false, some, List, [], ◌∷◌, ◌++◌, arith, Bool-cases, Option-cases,
  inl, inr,
}
use tallybook.Prelude.Bytes.{Bytes, bytes_eq, eq_of_bytes_eq}
use tallybook.Prelude.Result.{ok, Result-cases}
use tallybook.Prelude.Text.{is_empty, trim_space}
use tallybook.Config.Values.{Host, Lookup, Checked, filled, get, bad_source}
use tallybook.Config.Values.Right.{
  Given, NotGiven, Given-filled, filled-Given, Given-of_get, get-Given,
}
use tallybook.Config.Secrets.{
  Secret, env_operator_secret_source, env_operator_secret, env_operator_secret_path,
  secret_source_env, secret_source_file, no_secret, check_source, trimmed_secret, read_secret_file,
  reject_other, secret_from_env, secret_from_file, operator_secret,
}

pub cons_append-nil : {A : Type 0} (xs ys : List A) → xs ++ ys ≡ [] → (xs ≡ []) × (ys ≡ [])
cons_append-nil [] ys h = (refl, h)
cons_append-nil (x ∷ xs) ys h = cc

-- The source is one of the two that there are.
pub record IsSource (lookup : Lookup) (source : Bytes) : Type 0 where
  pub given : Given lookup env_operator_secret_source source
  pub known : (source ≡ secret_source_env) ⊎ (source ≡ secret_source_file)

-- The trimmed contents of the file at the path, which are not empty.
pub record IsFileSecret (h : Host) (path secret : Secret) : Type 0 where
  pub text : Bytes
  pub contents : h.read_file path.raw ≡ some text
  pub trimmed : trim_space h.unicode text ≡ secret.raw
  pub not_empty : is_empty secret.raw ≡ false

-- The secret stands in the variable that its source names, and the other variable is not given.
pub data IsOperatorSecret (h : Host) (lookup : Lookup) (source : Bytes) (secret path : Secret)
    : Type 0 where
  from_env :
      source ≡ secret_source_env
      → Given lookup env_operator_secret secret.raw
      → NotGiven lookup env_operator_secret_path
      → path ≡ no_secret
      → IsOperatorSecret h lookup source secret path
  from_file :
      source ≡ secret_source_file
      → Given lookup env_operator_secret_path path.raw
      → IsFileSecret h path secret
      → NotGiven lookup env_operator_secret
      → IsOperatorSecret h lookup source secret path

cons_append-not_nil : {A : Type 0} (xs : List A) (y : A) → xs ++ (y ∷ []) ≢ []
cons_append-not_nil [] y h = cc
cons_append-not_nil (x ∷ xs) y h = cc

-- A source that passes was read without an error, and is one of the two.
check_source-known :
    (p : Checked Bytes)
    → (check_source p).0 ≡ []
    → (p.0 ≡ [])
      × ((check_source p).1 ≡ p.1 × ((p.1 ≡ secret_source_env) ⊎ (p.1 ≡ secret_source_file))
          ⊎ (is_empty p.1 ≡ true))
unfolding check_source
check_source-known (errs, source) h = elim (Bool-cases (bytes_eq source secret_source_env)) [
  | inl a ↦ (ground arith, inl (ground arith, inl (eq_of_bytes_eq source secret_source_env a)))
  | inr a ↦ elim (Bool-cases (bytes_eq source secret_source_file)) [
    | inl b ↦ (ground arith, inl (ground arith, inr (eq_of_bytes_eq source secret_source_file b)))
    | inr b ↦ elim (Bool-cases (is_empty source)) [
      | inl c ↦ (ground arith, inr c)
      | inr c ↦
          let k : errs ++ (bad_source env_operator_secret_source ∷ []) ≡ [] = ground arith in
          absurd (cons_append-not_nil errs (bad_source env_operator_secret_source) k)
    ]
  ]
]

module _ (h : Host) (lookup : Lookup) where
  pub IsSource-of_check_source :
      (check_source (get lookup env_operator_secret_source)).0 ≡ []
      → IsSource lookup (check_source (get lookup env_operator_secret_source)).1
  IsSource-of_check_source k =
      let (e, s) = check_source-known (get lookup env_operator_secret_source) k in
      let g = Given-of_get lookup env_operator_secret_source e in
      elim s [
        | inr c ↦ let n = g.not_empty in cc
        | inl (f, c) ↦ rw f (record { given = g; known = c })
      ]

  pub check_source-IsSource :
      (source : Bytes)
      → IsSource lookup source
      → check_source (get lookup env_operator_secret_source) ≡ ([], source)
  unfolding check_source bytes_eq
  check_source-IsSource source s =
      rw (get-Given lookup env_operator_secret_source source s.given)
        (elim s.known [ inl e ↦ rw e refl | inr e ↦ rw e refl ])

  read_secret_file-IsFileSecret :
      (path secret : Secret) → read_secret_file h path.raw ≡ ok secret → IsFileSecret h path secret
  unfolding read_secret_file trimmed_secret
  read_secret_file-IsFileSecret path secret r = elim (Option-cases (h.read_file path.raw)) [
    | inl e ↦ ground arith
    | inr (text, e) ↦
        let n : is_empty (trim_space h.unicode text) ≡ false = ground arith in
        let k : trim_space h.unicode text ≡ secret.raw = ground arith in
        record { text = text; contents = e; trimmed = k; not_empty = rw (sym k) n }
  ]

  IsFileSecret-read_secret_file :
      (path secret : Secret) → IsFileSecret h path secret → read_secret_file h path.raw ≡ ok secret
  unfolding read_secret_file trimmed_secret
  IsFileSecret-read_secret_file path secret f =
      let e = f.contents in let k = f.trimmed in let n = f.not_empty in ground arith

  -- The secret and its path, as the switch on the source reads them.
  abbrev pub secrets_of : Bytes → Checked (Secret × Secret)
  secrets_of source =
      operator_secret h source (filled (lookup env_operator_secret))
        (filled (lookup env_operator_secret_path))

  IsOperatorSecret-of_env :
      (source : Bytes)
      → source ≡ secret_source_env
      → (secrets_of source).0 ≡ []
      → IsOperatorSecret h lookup source (secrets_of source).1.0 (secrets_of source).1.1
  unfolding operator_secret secret_from_env reject_other bytes_eq
  IsOperatorSecret-of_env source e = elim (Option-cases (filled (lookup env_operator_secret))) [
    | inl a ↦ rw (e, a, operator_secret, secret_from_env) (λ k. cc)
    | inr (s, a) ↦ elim (Option-cases (filled (lookup env_operator_secret_path))) [
      | inr (p, b) ↦ rw (e, a, b, operator_secret, secret_from_env, reject_other) (λ k. cc)
      | inl b ↦
          rw (e, a, b, operator_secret, secret_from_env, reject_other)
            (λ k. from_env refl (Given-filled lookup env_operator_secret s a) b refl)
    ]
  ]

  IsOperatorSecret-of_file :
      (source : Bytes)
      → source ≡ secret_source_file
      → (secrets_of source).0 ≡ []
      → IsOperatorSecret h lookup source (secrets_of source).1.0 (secrets_of source).1.1
  unfolding operator_secret secret_from_file reject_other bytes_eq
  IsOperatorSecret-of_file source e =
      elim (Option-cases (filled (lookup env_operator_secret_path))) [
        | inl a ↦ rw (e, a, operator_secret, secret_from_file) (λ k. cc)
        | inr (p, a) ↦ elim (Result-cases (read_secret_file h p)) [
          | inr (x, r) ↦ rw (e, a, operator_secret, secret_from_file, r) (λ k. cc)
          | inl (s, r) ↦ elim (Option-cases (filled (lookup env_operator_secret))) [
            | inr (q, b) ↦
                rw (e, a, b, operator_secret, secret_from_file, r, reject_other) (λ k. cc)
            | inl b ↦
                let f = read_secret_file-IsFileSecret (record { raw = p }) s r in
                rw (e, a, b, operator_secret, secret_from_file, r, reject_other)
                  (λ k. from_file refl (Given-filled lookup env_operator_secret_path p a) f b)
          ]
        ]
      ]

  pub IsOperatorSecret-of_secrets_of :
      (source : Bytes)
      → IsSource lookup source
      → (secrets_of source).0 ≡ []
      → IsOperatorSecret h lookup source (secrets_of source).1.0 (secrets_of source).1.1
  IsOperatorSecret-of_secrets_of source s k = elim s.known [
    | inl e ↦ IsOperatorSecret-of_env source e k
    | inr e ↦ IsOperatorSecret-of_file source e k
  ]

  pub secrets_of-IsOperatorSecret :
      (source : Bytes) (secret path : Secret)
      → IsOperatorSecret h lookup source secret path
      → secrets_of source ≡ ([], (secret, path))
  unfolding operator_secret secret_from_env secret_from_file reject_other bytes_eq
  secrets_of-IsOperatorSecret source secret path (from_env e g n p) =
      rw (e, filled-Given lookup env_operator_secret secret.raw g, n, operator_secret, p) refl
  secrets_of-IsOperatorSecret source secret path (from_file e g f n) =
      rw
        (
          e,
          filled-Given lookup env_operator_secret_path path.raw g,
          n,
          operator_secret,
          secret_from_file,
          IsFileSecret-read_secret_file path secret f,
        )
        refl
