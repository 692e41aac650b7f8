-- ===== src/DevicePath.antt =====
-- pkg/ueficore/path.go: device path nodes, the parser of a device path in firmware memory, and the
-- device path of a file. `dma.NewRegion` and `Reserve` are not part of the repository: the parser
-- takes what they give, an error or the buffer at the device path, whose capacity is its length.
pub mod Scan
pub mod RoundTrip
pub mod Files
use uki_stub.Common.{
  ℕ, zero, suc, ◌+◌, ◌-◌, ◌%◌, List, [], ◌∷◌, ◌++◌, if◌then◌else◌, ltb, ◌==◌, ◌&&◌, ◌||◌, Bool,
  length, take, get_or, Outcome, ok, err, ◌>>=◌, slice, nodes_limit, invalid_length,
}
use uki_stub.Utf16.{to_utf16}
use uki_stub.Wire.{marshal, unmarshal}

abbrev pub buffer_size : ℕ
buffer_size = 65536

abbrev pub max_depth : ℕ
max_depth = 16

pub record DevicePathNode : Type 0 where
  pub type : ℕ
  pub sub_type : ℕ
  pub length : ℕ

-- Two uint8 and a uint16.
abbrev pub node_layout : List ℕ
node_layout = 1 ∷ 1 ∷ 2 ∷ []

unfoldable pub node_bytes : DevicePathNode → List ℕ
unfolding marshal
node_bytes d = marshal node_layout (d.type ∷ d.sub_type ∷ d.length ∷ [])

unfoldable pub read_node : List ℕ → Outcome DevicePathNode
unfolding unmarshal
read_node buf = do
  vs ← unmarshal node_layout buf
  ok (record { type = get_or vs 0 0; sub_type = get_or vs 1 0; length = get_or vs 2 0 })

pub record DevicePath : Type 0 where
  pub node : DevicePathNode
  pub content : List ℕ

abbrev pub is_end : DevicePathNode → Bool
is_end node = node.type == 0x7f && node.sub_type == 0xff

-- `uint(d.Length - 4)`: the subtraction is in uint16.
abbrev pub data_size : DevicePathNode → ℕ
data_size node = (node.length + 65536 - 4) % 65536

-- The loop of devicePath, for `rounds` more iterations; it hands back the nodes and the offset of
-- the end node.
unfoldable pub scan : ℕ → List ℕ → ℕ → List DevicePath → Outcome (List DevicePath × ℕ)
unfolding read_node
scan zero buf off path = err nodes_limit
scan (suc rounds) buf off path = do
  head ← slice buf off (off + 4)
  node ← read_node head
  if is_end node
      then ok (path, off)
      else if node.length == 0 || ltb 0xff node.length
      then err invalid_length
      else do
        content ← slice buf (off + 4) (off + 4 + data_size node)
        scan rounds buf (off + 4 + data_size node)
            (path ++ record { node = node; content = content } ∷ [])

-- `desc` is a copy of the bytes before the end node.
unfoldable pub device_path : Outcome (List ℕ) → Outcome (List DevicePath × List ℕ)
device_path region = do buf ← region; (path, off) ← scan max_depth buf 0 []; ok (path, take off buf)

pub record FilePath : Type 0 where
  pub node : DevicePathNode
  pub path_name : List ℕ

unfoldable pub file_path_bytes : FilePath → List ℕ
unfolding node_bytes
file_path_bytes d = node_bytes d.node ++ d.path_name

-- The Media Device Path node of a file name, a list of runes. Its length is cut to 16 bits.
unfoldable pub file_node : List ℕ → FilePath
unfolding to_utf16
file_node name =
    let path_name = to_utf16 name in
    record {
      node = record { type = 0x04; sub_type = 0x04; length = (4 + length path_name) % 65536 };
      path_name = path_name;
    }

abbrev pub end_node : DevicePathNode
end_node = record { type = 0x7f; sub_type = 0xff; length = 4 }

unfoldable pub file_path : Outcome (List ℕ) → List ℕ → Outcome (List DevicePath × FilePath × List ℕ)
unfolding device_path file_node file_path_bytes node_bytes
file_path region name = do
  (path, desc) ← device_path region
  ok (path, file_node name, (desc ++ file_path_bytes (file_node name)) ++ node_bytes end_node)
