-- ===== src/DevicePath/RoundTrip.antt =====
-- The parser on the bytes of a device path, and on a node whose length is too short.
use uki_stub.Common.{
  slice-ok, ℕ, suc, ◌+◌, ◌-◌, ◌≤◌, ◌<◌, ◌≡◌, refl, sym, ap, ◌∙◌, false, List, [], ◌∷◌, ◌++◌,
  append_assoc, append-nil, arith, length, take, drop, length-append, length-drop, take-append,
  drop-append, drop-drop, All, nodes_limit, ok, err, panic, slice,
}
use uki_stub.DevicePath.{
  node_bytes, DevicePathNode, DevicePath, node_layout, is_end, data_size, scan, device_path,
  buffer_size, max_depth, end_node,
}
use uki_stub.DevicePath.Scan.{header_at, IsShort, scan-suc, IsNode, encode_path}
use uki_stub.Wire.{fields, size_of}
use uki_stub.Wire.RoundTrip.{fields-marshal, length-marshal}

-- The fields of a header fit their widths.
abbrev pub IsHeader : DevicePathNode → Type 0
IsHeader d = (d.type < 256) × (d.sub_type < 256) × (d.length < 65536)

length-node_bytes : (d : DevicePathNode) → length (node_bytes d) ≡ 4
unfolding node_bytes
length-node_bytes d =
    unfold size_of in length-marshal node_layout (d.type ∷ d.sub_type ∷ d.length ∷ [])

header_at-drop :
    (buf : List ℕ) (off : ℕ) (d : DevicePathNode) (more : List ℕ)
    → IsHeader d
    → drop off buf ≡ node_bytes d ++ more
    → header_at buf off ≡ d
header_at-drop buf off d more h e =
    let vs : List ℕ = d.type ∷ d.sub_type ∷ d.length ∷ [] in
    let read : fields node_layout (take 4 (drop off buf)) ≡ vs =
      rw e (unfold node_bytes in fields-marshal node_layout vs [] (omega arith)) in
    rw read

-- Where a node lies in the buffer: its header, its data and what follows.
record Lies (buf : List ℕ) (off : ℕ) (d : DevicePath) (more : List ℕ) : Type 0 where
  header : header_at buf off ≡ d.node
  content : take (length d.content) (drop (off + 4) buf) ≡ d.content
  next : drop (off + 4 + length d.content) buf ≡ more
  room : off + 4 + length d.content ≤ length buf

drop-Lies :
    (buf : List ℕ) (off : ℕ) (d : DevicePath) (more : List ℕ)
    → IsHeader d.node
    → drop off buf ≡ node_bytes d.node ++ (d.content ++ more)
    → off ≤ length buf
    → Lies buf off d more
drop-Lies buf off d more h e fits =
    let size : length (node_bytes d.node) ≡ 4 = length-node_bytes d.node in
    let behind : drop (off + 4) buf ≡ d.content ++ more =
      sym (drop-drop off 4 buf)
      ∙ (rw e (rw (← size) (drop-append (node_bytes d.node) (d.content ++ more)))) in
    record {
      header = header_at-drop buf off d.node (d.content ++ more) h e;
      content = rw behind (take-append d.content more);
      next =
          sym (drop-drop (off + 4) (length d.content) buf)
          ∙ (rw behind (drop-append d.content more));
      room = omega (
        arith,
        ap length e,
        length-drop off buf,
        length-append (node_bytes d.node) (d.content ++ more),
        length-append d.content more,
      );
    }

scan-node :
    (d : DevicePath) (rounds off : ℕ) (buf more : List ℕ) (path : List DevicePath)
    → IsNode d
    → Lies buf off d more
    → scan (suc rounds) buf off path ≡ scan rounds buf (off + 4 + length d.content) (path ++ d ∷ [])
scan-node d rounds off buf more path n l =
    rw (scan-suc rounds buf off path (omega (arith, l.room)), l.header)
      (ground (arith, slice-ok buf (off + 4) (length d.content), l.content, l.room))

scan-skip :
    (ds : List DevicePath) (rounds off : ℕ) (buf rest : List ℕ) (path : List DevicePath)
    → drop off buf ≡ encode_path ds ++ rest
    → off ≤ length buf
    → All IsNode ds
    → All (λ (d : DevicePath). IsHeader d.node) ds
    → scan (length ds + rounds) buf off path
      ≡ scan rounds buf (off + length (encode_path ds)) (path ++ ds)
unfolding encode_path
scan-skip [] rounds off buf rest path e fits n h = ground (arith, append-nil path)
scan-skip (d ∷ ds) rounds off buf rest path e fits (nd, n) (hd, h) =
    let e' : drop off buf ≡ node_bytes d.node ++ (d.content ++ (encode_path ds ++ rest)) =
      e ∙ simp append_assoc in
    let l = drop-Lies buf off d (encode_path ds ++ rest) hd e' fits in
    let count : suc (length ds) + rounds ≡ suc (length ds + rounds) = omega arith in
    let size : off + 4 + length d.content + length (encode_path ds)
        ≡ off + length (encode_path (d ∷ ds)) =
      omega (
        arith,
        length-append (node_bytes d.node) (d.content ++ encode_path ds),
        length-append d.content (encode_path ds),
        length-node_bytes d.node,
      ) in
    rw (
      count,
      scan-node d (length ds + rounds) off buf (encode_path ds ++ rest) path nd l,
      scan-skip ds rounds (off + 4 + length d.content) buf rest (path ++ d ∷ []) l.next l.room n h,
      size,
      append_assoc,
    )

scan-encode_path :
    (ds : List DevicePath) (rounds : ℕ) (rest : List ℕ)
    → All IsNode ds
    → All (λ (d : DevicePath). IsHeader d.node) ds
    → scan (length ds + rounds) (encode_path ds ++ rest) 0 []
      ≡ scan rounds (encode_path ds ++ rest) (length (encode_path ds)) ds
scan-encode_path ds rounds rest n h =
    scan-skip ds rounds 0 (encode_path ds ++ rest) rest [] refl (omega arith) n h ∙ ground arith

scan_end :
    (rounds off : ℕ) (buf : List ℕ) (path : List DevicePath)
    → off + 4 ≤ length buf
    → header_at buf off ≡ end_node
    → scan (suc rounds) buf off path ≡ ok (path, off)
scan_end rounds off buf path room e = rw (scan-suc rounds buf off path room) (ground arith)

scan_short :
    (rounds off : ℕ) (buf : List ℕ) (path : List DevicePath) (d : DevicePathNode)
    → off + 4 ≤ length buf
    → length buf ≡ buffer_size
    → header_at buf off ≡ d
    → IsShort d
    → is_end d ≡ false
    → scan (suc rounds) buf off path ≡ panic
scan_short rounds off buf path d room len e short more =
    let out : slice buf (off + 4) (off + 4 + data_size d) ≡ panic = ground arith in
    rw (scan-suc rounds buf off path room) (ground arith)

-- A device path of at most 15 well-formed nodes and an end node, in any memory that follows it, is
-- read back: the nodes, and the bytes in front of the end node.
pub device_path-encode_path :
    (ds : List DevicePath) (rest : List ℕ)
    → All IsNode ds
    → All (λ (d : DevicePath). IsHeader d.node) ds
    → length ds ≤ 15
    → device_path (ok (encode_path ds ++ (node_bytes end_node ++ rest))) ≡ ok (ds, encode_path ds)
unfolding device_path
device_path-encode_path ds rest n h small =
    let tail = node_bytes end_node ++ rest in
    let more = 15 - length ds in
    let count : max_depth ≡ length ds + suc more = omega arith in
    let at_end : header_at (encode_path ds ++ tail) (length (encode_path ds)) ≡ end_node =
      header_at-drop (encode_path ds ++ tail) _ end_node rest (omega arith)
        (drop-append (encode_path ds) tail) in
    let room : length (encode_path ds) + 4 ≤ length (encode_path ds ++ tail) = omega (
      arith,
      length-append (encode_path ds) tail,
      length-append (node_bytes end_node) rest,
      length-node_bytes end_node,
    ) in
    rw (
      count,
      scan-encode_path ds (suc more) tail n h,
      scan_end more _ _ ds room at_end,
      take-append (encode_path ds) tail,
    )

-- After at most 15 well-formed nodes a header that is no end node and whose length is 1, 2 or 3
-- makes the parser panic on its 64 KiB buffer: the length without the header wraps around in
-- uint16, and the slice of the data runs out of the buffer.
pub device_path_short :
    (ds : List DevicePath) (d : DevicePathNode) (rest : List ℕ)
    → All IsNode ds
    → All (λ (d : DevicePath). IsHeader d.node) ds
    → length ds ≤ 15
    → IsHeader d
    → IsShort d
    → is_end d ≡ false
    → length (encode_path ds ++ (node_bytes d ++ rest)) ≡ buffer_size
    → device_path (ok (encode_path ds ++ (node_bytes d ++ rest))) ≡ panic
unfolding device_path
device_path_short ds d rest n h small hd short more len =
    let tail = node_bytes d ++ rest in
    let buf = encode_path ds ++ tail in
    let left = 15 - length ds in
    let off = length (encode_path ds) in
    let count : max_depth ≡ length ds + suc left = omega arith in
    let here : header_at buf off ≡ d =
      header_at-drop buf off d rest hd (drop-append (encode_path ds) tail) in
    let room : off + 4 ≤ length buf = omega (
      arith,
      length-append (encode_path ds) tail,
      length-append (node_bytes d) rest,
      length-node_bytes d,
    ) in
    rw (
      count,
      scan-encode_path ds (suc left) tail n h,
      scan_short left off buf ds d room len here short more,
    )

-- A device path of 16 well-formed nodes or more is refused.
device_path_limit :
    (ds : List DevicePath) (rest : List ℕ)
    → All IsNode ds
    → All (λ (d : DevicePath). IsHeader d.node) ds
    → length ds ≡ 16
    → device_path (ok (encode_path ds ++ rest)) ≡ err nodes_limit
unfolding device_path
device_path_limit ds rest n h many =
    let count : max_depth ≡ length ds + 0 = omega arith in
    rw (count, scan-encode_path ds 0 rest n h) (unfold scan in refl)
