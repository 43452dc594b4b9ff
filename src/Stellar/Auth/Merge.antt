-- ===== src/Stellar/Auth/Merge.antt =====
-- internal/stellar/invoke.go: which entries `mergeAuthEntries` hands on.
use tallybook.Prelude.{Bool, true, false, Option, none, some, List, [], ◌∷◌, if◌then◌else◌}
use tallybook.Prelude.Bytes.{Bytes, bytes_eq}
use tallybook.Stellar.Auth.{AuthEntry, Sdk, address_key}

-- The first list where it has an entry, and the second where it has none.
abbrev pub or_else : List AuthEntry → List AuthEntry → List AuthEntry
or_else [] ys = ys
or_else (x ∷ xs) ys = x ∷ xs

module _ (sdk : Sdk) where
  has_key : Bytes → Option Bytes → Bool
  has_key key none = false
  has_key key (some k) = bytes_eq k key

  -- The entries for one address, in their order.
  unfoldable pub for_key : Bytes → List AuthEntry → List AuthEntry
  unfolding has_key
  for_key key [] = []
  for_key key (e ∷ es) =
      let rest = for_key key es in
      if has_key key (address_key sdk e.credentials) then e ∷ rest else rest

  is_keyless : Option Bytes → Bool
  is_keyless none = true
  is_keyless (some k) = false

  -- The entries without an address, those of the source account among them.
  unfoldable pub keyless : List AuthEntry → List AuthEntry
  unfolding is_keyless
  keyless [] = []
  keyless (e ∷ es) =
      let rest = keyless es in if is_keyless (address_key sdk e.credentials) then e ∷ rest else rest
