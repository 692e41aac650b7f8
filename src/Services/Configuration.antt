-- ===== src/Services/Configuration.antt =====
-- What SystemTable.ConfigurationTables of pkg/ueficore/config.go hands back for tables that the
-- firmware wrote.
use uki_stub.Common.{
  ◌%◌, ℕ, ◌+◌, ◌*◌, ◌^◌, ◌<◌, ◌≡◌, ◌≢◌, refl, sym, ap, ◌∙◌, List, [], ◌∷◌, ◌++◌, append_assoc,
  append-nil, arith, length, ltb, true, suc, take, drop, take-append, drop-append, drop-drop,
  length-append, slice-append, All, ok,
}
use uki_stub.Firmware.{Firmware}
use uki_stub.Wire.{le_bytes, le_value, unmarshal, fields, size_of}
use uki_stub.Wire.RoundTrip.{IsByte, length-le_bytes, le_value-le_bytes, take-le_bytes}
use uki_stub.Guid.{bytes, registry_format}
use uki_stub.Guid.RoundTrip.{bytes-registry_format}
use uki_stub.Services.Tables.{ConfigurationTable, read_table, read_tables}
use uki_stub.Services.System.{SystemTable, configuration_tables}

-- A GUID of 16 bytes, and an address.
abbrev pub IsTable : ConfigurationTable → Type 0
IsTable t = (length t.guid ≡ 16) × (All IsByte t.guid) × (t.vendor_table < 2 ^ 64)

abbrev entry : ConfigurationTable → List ℕ
entry t = t.guid ++ le_bytes 8 t.vendor_table

-- The bytes of tables, 24 for each.
unfoldable pub encode_tables : List ConfigurationTable → List ℕ
encode_tables [] = []
encode_tables (t ∷ ts) = entry t ++ encode_tables ts

length-entry : (t : ConfigurationTable) → IsTable t → length (entry t) ≡ 24
length-entry t h =
    omega
      (arith, h, length-append t.guid (le_bytes 8 t.vendor_table), length-le_bytes 8 t.vendor_table)

take-entry : (t : ConfigurationTable) → IsTable t → take 16 (entry t) ≡ t.guid
take-entry t h = rw h.0 at (take-append t.guid (le_bytes 8 t.vendor_table))

drop-entry : (t : ConfigurationTable) → IsTable t → drop 16 (entry t) ≡ le_bytes 8 t.vendor_table
drop-entry t h = rw h.0 at (drop-append t.guid (le_bytes 8 t.vendor_table))

unmarshal-entry :
    (t : ConfigurationTable)
    → IsTable t
    → unmarshal (16 ∷ 8 ∷ []) (entry t) ≡ ok (le_value t.guid ∷ t.vendor_table ∷ [])
unfolding unmarshal size_of fields
unmarshal-entry t h =
    let vendor = le_value-le_bytes 8 t.vendor_table (omega (arith, h)) in
    let whole = rw append-nil at (take-le_bytes 8 t.vendor_table []) in
    rw (length-entry t h, take-entry t h, drop-entry t h, whole, vendor) refl

read_table-entry :
    (t : ConfigurationTable) (i : ℕ) (buf behind : List ℕ)
    → IsTable t
    → drop i buf ≡ entry t ++ behind
    → read_table buf i ≡ ok t
unfolding read_table
read_table-entry t i buf behind h e =
    let cut = slice-append i 24 buf (entry t) behind e (length-entry t h) (omega arith) in
    rw (cut, unmarshal-entry t h, take-entry t h) refl

read_tables-encode_tables :
    (ts : List ConfigurationTable) (i table_size : ℕ) (buf rest : List ℕ)
    (c : List ConfigurationTable)
    → All IsTable ts
    → drop i buf ≡ encode_tables ts ++ rest
    → table_size ≡ i + 24 * length ts
    → read_tables (suc (length ts)) buf table_size i c ≡ ok (c ++ ts)
unfolding read_tables encode_tables
read_tables-encode_tables [] i table_size buf rest c h e size = ground (arith, size, append-nil c)
read_tables-encode_tables (t ∷ ts) i table_size buf rest c (ht, h) e size =
    let behind : drop i buf ≡ entry t ++ (encode_tables ts ++ rest) =
      e ∙ append_assoc (entry t) (encode_tables ts) rest in
    let next : drop (i + 24) buf ≡ encode_tables ts ++ rest =
      sym (drop-drop i 24 buf)
      ∙ ap (drop 24) behind
      ∙ rw (length-entry t ht) at (drop-append (entry t) (encode_tables ts ++ rest)) in
    let more : ltb i table_size ≡ true = ground (arith, size) in
    rw (more, read_table-entry t i buf (encode_tables ts ++ rest) ht behind)
      (read_tables-encode_tables ts (i + 24) table_size buf rest (c ++ t ∷ []) h next
          (omega (arith, size))
        ∙ ap ok (append_assoc c (t ∷ []) ts))

guids-registry_format :
    (ts : List ConfigurationTable)
    → All IsTable ts
    → All (λ (t : ConfigurationTable). bytes (registry_format t.guid) ≡ t.guid) ts
guids-registry_format [] h = tt
guids-registry_format (t ∷ ts) ((size, are_bytes, _), h) =
    (bytes-registry_format t.guid are_bytes size, guids-registry_format ts h)

-- If the system table announces as many tables as the firmware wrote at an address other than 0, at
-- least one and with fewer than 2 ^ 63 bytes, each with a GUID of 16 bytes and an address of 64 bits,
-- and the package dma gives their bytes, ConfigurationTables hands them back in order, and GUID.Bytes
-- reads the text of RegistryFormat of each back as its GUID.
pub configuration_tables-encode_tables :
    {W : Type 0} (fw : Firmware W) (d : SystemTable) (w : W) (ts : List ConfigurationTable)
    → d.number_of_table_entries ≡ length ts
    → ts ≢ []
    → 24 * length ts < 2 ^ 63
    → d.configuration_table ≢ 0
    → All IsTable ts
    → fw.region d.configuration_table (24 * length ts) (24 * length ts) w ≡ ok (encode_tables ts)
    → (configuration_tables fw d w ≡ (ok ts, w))
      × All (λ (t : ConfigurationTable). bytes (registry_format t.guid) ≡ t.guid) ts
unfolding configuration_tables
configuration_tables-encode_tables fw d w [] count some' few addr h found = absurd (some' refl)
configuration_tables-encode_tables fw d w (t ∷ ts) count some' few addr h found =
    let size : 24 * d.number_of_table_entries % 2 ^ 64 ≡ 24 * length (t ∷ ts) =
      omega (arith, count, few) in
    let read =
      read_tables-encode_tables (t ∷ ts) 0 (24 * length (t ∷ ts)) (encode_tables (t ∷ ts)) [] [] h
        (sym (append-nil _)) (omega arith) in
    (ground (arith, count, size, few, addr, found, read), guids-registry_format (t ∷ ts) h)
