-- ===== src/Services/Tables.antt =====
-- The loop of SystemTable.ConfigurationTables, config.go.
use uki_stub.Common.{
  ℕ, zero, suc, ◌+◌, List, [], ◌∷◌, ◌++◌, get_or, take, Outcome, ok, err, ◌>>=◌, slice, ltb,
  if◌then◌else◌, unfinished,
}
use uki_stub.Wire.{unmarshal}

pub record ConfigurationTable : Type 0 where
  pub guid : List ℕ
  pub vendor_table : ℕ

-- The entry of 24 bytes at an offset.
unfoldable pub read_table : List ℕ → ℕ → Outcome ConfigurationTable
unfolding unmarshal
read_table buf i = do
  entry ← slice buf i (i + 24)
  vs ← unmarshal (16 ∷ 8 ∷ []) entry
  ok (record { guid = take 16 entry; vendor_table = get_or vs 1 0 })

-- The loop of ConfigurationTables from an offset on, in so many rounds.
unfoldable pub read_tables :
    ℕ → List ℕ → ℕ → ℕ → List ConfigurationTable → Outcome (List ConfigurationTable)
unfolding read_table
read_tables zero buf table_size i c = err unfinished
read_tables (suc rounds) buf table_size i c =
    if ltb i table_size
    then (do t ← read_table buf i; read_tables rounds buf table_size (i + 24) (c ++ t ∷ []))
    else ok c
