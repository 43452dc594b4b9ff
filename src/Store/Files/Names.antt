-- ===== src/Store/Files/Names.antt =====
-- internal/store/migrate.go: the convention for file names, apart from the way it is matched.
use tallybook.Prelude.{
  ℕ, ◌≡◌, ◌↔◌, refl, sym, ap, Bool, true, false, some, [], ◌∷◌, ◌++◌, ◌==◌, All, arith, Bool-cases,
  inl, inr,
}
use tallybook.Prelude.Bytes.{Bytes, bytes_eq, eq_of_bytes_eq, bytes_eq_refl, ascii}
use tallybook.Prelude.Text.{is_empty}
use tallybook.Store.Files.{is_digit, is_word, span, match_suffix, match_digits, match_filename}

abbrev pub Run : (ℕ → Bool) → Bytes → Type 0
Run p bs = All (λ b. p b ≡ true) bs

-- "NNNN_name.sql": digits and a name, neither of them empty.
pub record IsFilename (name digits label : Bytes) : Type 0 where
  pub spelled : name ≡ digits ++ (b'_' ∷ (label ++ ascii ".sql"))
  pub digits_filled : is_empty digits ≡ false
  pub digits_run : Run is_digit digits
  pub label_filled : is_empty label ≡ false
  pub label_run : Run is_word label

-- A text that does not go on with a byte of the class.
abbrev Stops : (ℕ → Bool) → Bytes → Type 0
Stops p [] = Unit
Stops p (b ∷ bs) = p b ≡ false

module _ (p : ℕ → Bool) where
  span-append : (bs : Bytes) → bs ≡ (span p bs).0 ++ (span p bs).1
  unfolding span
  span-append [] = refl
  span-append (b ∷ bs) = elim (Bool-cases (p b)) [
    | inl e ↦ rw (e, span) (ap (λ x. b ∷ x) (span-append bs))
    | inr e ↦ rw (e, span) refl
  ]

  span-Run : (bs : Bytes) → Run p (span p bs).0
  unfolding span
  span-Run [] = tt
  span-Run (b ∷ bs) = elim (Bool-cases (p b)) [
    | inl e ↦ rw (e, span) ((e, span-Run bs))
    | inr e ↦ rw (e, span) tt
  ]

  span-Stops : (bs : Bytes) → Stops p bs → span p bs ≡ ([], bs)
  unfolding span
  span-Stops [] h = refl
  span-Stops (b ∷ bs) h = rw (h, span) refl

  span-Run-Stops :
      (run rest : Bytes) → Run p run → Stops p rest → span p (run ++ rest) ≡ (run, rest)
  unfolding span
  span-Run-Stops [] rest h k = span-Stops rest k
  span-Run-Stops (b ∷ run) rest h k = rw (span, h.0, span-Run-Stops run rest h.1 k) refl

match_suffix-IsFilename :
    (name ds : Bytes) (q : Bytes × Bytes) (digits label : Bytes)
    → match_suffix ds q ≡ some (digits, label)
    → name ≡ ds ++ (b'_' ∷ (q.0 ++ q.1))
    → is_empty ds ≡ false
    → Run is_digit ds
    → Run is_word q.0
    → IsFilename name digits label
unfolding match_suffix is_empty
match_suffix-IsFilename name ds ([], rest) digits label h n e r w = cc
match_suffix-IsFilename name ds (b ∷ bs, rest) digits label h n e r w =
    elim (Bool-cases (bytes_eq rest (ascii ".sql"))) [
      | inr f ↦ ground arith
      | inl f ↦
          let s : rest ≡ ascii ".sql" = eq_of_bytes_eq rest (ascii ".sql") f in
          let a : ds ≡ digits = ground arith in
          let c : (b ∷ bs) ≡ label = ground arith in
          rw (sym a, sym c)
            (record {
              spelled = rw (sym s) n;
              digits_filled = e;
              digits_run = r;
              label_filled = refl;
              label_run = w;
            })
    ]

match_digits-IsFilename :
    (name : Bytes) (q : Bytes × Bytes) (digits label : Bytes)
    → match_digits q ≡ some (digits, label)
    → name ≡ q.0 ++ q.1
    → Run is_digit q.0
    → IsFilename name digits label
unfolding match_digits is_empty
match_digits-IsFilename name ([], rest) digits label h n r = cc
match_digits-IsFilename name (d ∷ ds, []) digits label h n r = cc
match_digits-IsFilename name (d ∷ ds, c ∷ rest) digits label h n r = elim (Bool-cases (c == b'_')) [
  | inr f ↦ ground arith
  | inl f ↦
      let s : c ≡ b'_' = ground arith in
      match_suffix-IsFilename name (d ∷ ds) (span is_word rest) digits label (ground arith)
        (rw (sym s, sym (span-append is_word rest)) n) refl r (span-Run is_word rest)
]

match_suffix-filename :
    (digits label rest : Bytes)
    → is_empty label ≡ false
    → bytes_eq rest (ascii ".sql") ≡ true
    → match_suffix digits (label, rest) ≡ some (digits, label)
unfolding match_suffix is_empty
match_suffix-filename digits [] rest e h = cc
match_suffix-filename digits (b ∷ bs) rest e h = rw (match_suffix, h) refl

match_digits-filename :
    (digits label : Bytes)
    → is_empty digits ≡ false
    → is_empty label ≡ false
    → Run is_word label
    → match_digits (digits, b'_' ∷ (label ++ ascii ".sql")) ≡ some (digits, label)
unfolding match_digits is_empty is_word
match_digits-filename [] label d e r = cc
match_digits-filename (d ∷ ds) label h e r =
    rw (span-Run-Stops is_word label (ascii ".sql") r refl)
      (match_suffix-filename (d ∷ ds) label (ascii ".sql") e (bytes_eq_refl (ascii ".sql")))

-- A file name matches with a number and a label if and only if it is the number's digits, an
-- underscore, the label and ".sql", neither part empty.
pub match_filename_iff :
    (name digits label : Bytes)
    → (match_filename name ≡ some (digits, label)) ↔ IsFilename name digits label
unfolding match_filename is_digit
match_filename_iff name digits label = (
  λ h.
      match_digits-IsFilename name (span is_digit name) digits label h (span-append is_digit name)
        (span-Run is_digit name),
  λ h.
      rw
        (
          h.spelled,
          match_filename,
          span-Run-Stops is_digit digits (b'_' ∷ (label ++ ascii ".sql")) h.digits_run refl,
        )
        (match_digits-filename digits label h.digits_filled h.label_filled h.label_run),
)
