-- ===== src/Stellar/Xdr/Fields.antt =====
-- `DecodeMap` and `MapField`: what is found under a key, and when a map is refused.
use tallybook.Prelude.{◌≡◌, refl, Option, none, some, arith, List, [], ◌∷◌, if◌then◌else◌}
use tallybook.Prelude.Bytes.{Bytes, bytes_eq, bytes_eq_iff}
use tallybook.Prelude.Result.{ok, or_fail}
use tallybook.Stellar.ScVal.{ScVal, ScMapEntry, to_entries, of_entries}
use tallybook.Stellar.Xdr.{
  XdrError, Fields, insert, lookup, decode_entries, decode_map, map_field, map_entry, scv_map,
}

pub lookup-insert :
    (k j : Bytes) (v : ScVal) (m : Fields)
    → lookup j (insert k v m) ≡ (if bytes_eq k j then some v else lookup j m)
unfolding lookup insert
lookup-insert k j v [] = refl
lookup-insert k j v ((i, w) ∷ m) =
    ground (arith, bytes_eq_iff k j, bytes_eq_iff i k, bytes_eq_iff i j, lookup-insert k j v m)

-- The value of the last pair with a key, or `before` if there is none.
abbrev pub last_value : Bytes → List (Bytes × ScVal) → Option ScVal → Option ScVal
last_value j [] before = before
last_value j ((k, v) ∷ kvs) before = last_value j kvs (if bytes_eq k j then some v else before)

abbrev pub entries_of : List (Bytes × ScVal) → List ScMapEntry
entries_of [] = []
entries_of ((k, v) ∷ kvs) = map_entry k v ∷ entries_of kvs

decode_entries_lem :
    (kvs : List (Bytes × ScVal)) (out : Fields)
    → (m : Fields) × (decode_entries (entries_of kvs) out ≡ ok m)
      × ((j : Bytes) → lookup j m ≡ last_value j kvs (lookup j out))
unfolding decode_entries
decode_entries_lem [] out = (out, refl, λ j. refl)
decode_entries_lem ((k, v) ∷ kvs) out =
    let (m, e, h) = decode_entries_lem kvs (insert k v out) in
    (m, e, λ j. rw (← lookup-insert k j v out) (h j))

pub of_entries-to_entries : (es : List ScMapEntry) → of_entries (to_entries es) ≡ es
of_entries-to_entries [] = refl
of_entries-to_entries (e ∷ es) = rw (of_entries-to_entries es)

-- A map with symbols for keys decodes, whatever the order of its entries, and a field holds the
-- value of the last entry with its key; a key that no entry has is reported as missing.
pub map_field-decode_map :
    (kvs : List (Bytes × ScVal))
    → (m : Fields) × (decode_map (scv_map (entries_of kvs)) ≡ ok m)
      × ((key : Bytes)
          → map_field m key ≡ or_fail (last_value key kvs none) (XdrError.missing_field key))
unfolding decode_map map_field
map_field-decode_map kvs =
    let (m, e, h) = decode_entries_lem kvs [] in
    (m, rw (of_entries-to_entries (entries_of kvs)) e, λ key. rw (h key) (unfold lookup in refl))
