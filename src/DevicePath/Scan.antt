-- ===== src/DevicePath/Scan.antt =====
-- The parser on any buffer.
use uki_stub.Common.{
  ℕ, zero, suc, ◌+◌, ◌*◌, ◌≤◌, ◌<◌, ◌≡◌, refl, ◌∙◌, ◌≢◌, ◌⊎◌, inl, inr, false, ◌||◌, List, [], ◌∷◌,
  ◌++◌, append_assoc, append-nil, arith, ltb, leb, ◌==◌, if◌then◌else◌, leb→le, Bool-cases, length,
  get_or, take, drop, length-append, length-drop, length-take, take-length, take-add, All-take,
  All-drop, All-append, All, invalid_length, ok, err, panic, ◌>>=◌, first_link, slice-ok, slice,
}
use uki_stub.DevicePath.{
  node_bytes, DevicePathNode, DevicePath, node_layout, read_node, is_end, data_size, scan,
  device_path, buffer_size, max_depth,
}
use uki_stub.Wire.{fields, size_of}
use uki_stub.Wire.RoundTrip.{IsByte, marshal-fields}

-- The header at an offset of the buffer.
abbrev pub header_at : List ℕ → ℕ → DevicePathNode
header_at buf off =
    let vs = fields node_layout (take 4 (drop off buf)) in
    record { type = get_or vs 0 0; sub_type = get_or vs 1 0; length = get_or vs 2 0 }

-- A length that does not cover the header itself.
abbrev pub IsShort : DevicePathNode → Type 0
IsShort d = (1 ≤ d.length) × (d.length < 4)

read_node-header :
    (buf : List ℕ) (off : ℕ)
    → off + 4 ≤ length buf
    → read_node (take 4 (drop off buf)) ≡ ok (header_at buf off)
unfolding read_node
read_node-header buf off h = ground (arith, length-take 4 (drop off buf), length-drop off buf)

pub scan-suc :
    (rounds : ℕ) (buf : List ℕ) (off : ℕ) (path : List DevicePath)
    → off + 4 ≤ length buf
    → let d = header_at buf off in
      scan (suc rounds) buf off path ≡ (
        if is_end d
        then ok (path, off)
        else if d.length == 0 || ltb 0xff d.length
        then err invalid_length
        else do
          content ← slice buf (off + 4) (off + 4 + data_size d)
          scan rounds buf
              (off + 4 + data_size d)
              (path ++ record { node = d; content = content } ∷ []))
unfolding scan
scan-suc rounds buf off path h = rw (slice-ok buf off 4 h, read_node-header buf off h)

-- One more node was read: it keeps the offset inside what the rounds so far can reach.
scan-ne-panic :
    (rounds : ℕ) (buf : List ℕ) (off : ℕ) (path : List DevicePath)
    → ((o : ℕ) → ¬ IsShort (header_at buf o))
    → off + 255 * rounds + 4 ≤ length buf
    → scan rounds buf off path ≢ panic
scan-ne-panic zero buf off path short fits = unfold scan in λ e. cc
scan-ne-panic (suc rounds) buf off path short fits =
    let d = header_at buf off in
    rw (scan-suc rounds buf off path (omega arith)) (
      ground (
        arith,
        short off,
        slice-ok buf (off + 4) (data_size d),
        scan-ne-panic rounds buf (off + 4 + data_size d)
            (path ++ record { node = d; content = take (data_size d) (drop (off + 4) buf) } ∷ [])
            short,
      ))

-- A node as the parser hands it out: its length counts its header and its data, and it is no end.
abbrev pub IsNode : DevicePath → Type 0
IsNode d = (d.node.length ≡ 4 + length d.content) × (d.node.length ≤ 255) × (is_end d.node ≡ false)

unfoldable pub encode_path : List DevicePath → List ℕ
encode_path [] = []
encode_path (d ∷ ds) = node_bytes d.node ++ (d.content ++ encode_path ds)

pub encode_path-append :
    (ds es : List DevicePath) → encode_path (ds ++ es) ≡ encode_path ds ++ encode_path es
unfolding encode_path
encode_path-append [] es = refl
encode_path-append (d ∷ ds) es = simp (encode_path-append ds es, append_assoc)

node_bytes-header :
    (buf : List ℕ) (off : ℕ)
    → All IsByte buf
    → off + 4 ≤ length buf
    → node_bytes (header_at buf off) ≡ take 4 (drop off buf)
unfolding node_bytes fields
node_bytes-header buf off h fits =
    let head : List ℕ = take 4 (drop off buf) in
    let enough : length head ≡ 4 =
      omega (arith, length-take 4 (drop off buf), length-drop off buf) in
    marshal-fields node_layout head (All-take IsByte 4 _ (All-drop IsByte off buf h))
      (unfold size_of in omega arith)
    ∙ unfold size_of in take-length 4 head (omega arith)

-- What the loop keeps: the bytes before the offset are the nodes read so far.
pub record Sound (buf : List ℕ) (path : List DevicePath) (off : ℕ) : Type 0 where
  pub nodes : All IsNode path
  pub spells : take off buf ≡ encode_path path

Sound-next :
    (buf : List ℕ) (path : List DevicePath) (off n : ℕ)
    → let d = header_at buf off in
      All IsByte buf
      → off + 4 + n ≤ length buf
      → d.length ≡ 4 + n
      → d.length ≤ 255
      → is_end d ≡ false
      → Sound buf path off
      → Sound buf
          (path ++ record { node = d; content = take n (drop (off + 4) buf) } ∷ [])
          (off + 4 + n)
Sound-next buf path off n h fits len small more s = record {
  nodes = All-append IsNode path _ s.nodes (
    (omega (arith, length-take n (drop (off + 4) buf), length-drop (off + 4) buf), small, more),
    tt,
  );
  spells =
      rw (take-add (off + 4) n buf, take-add off 4 buf, s.spells, encode_path-append path)
        (unfold encode_path in
          rw (node_bytes-header buf off h (omega arith), append-nil, append_assoc));
}

-- The node at an offset, with the `n` bytes of data behind its header.
abbrev pub node_at : List ℕ → ℕ → ℕ → DevicePath
node_at buf off n = record { node = header_at buf off; content = take n (drop (off + 4) buf) }

-- What a round that led to a result did.
scan-suc_ok :
    (rounds : ℕ) (buf : List ℕ) (off : ℕ) (path : List DevicePath) (p : List DevicePath × ℕ)
    → length buf ≡ buffer_size
    → scan (suc rounds) buf off path ≡ ok p
    → let d = header_at buf off in
      let n = data_size d in
      (off + 4 ≤ length buf)
      × ((p ≡ (path, off))
          ⊎ ((is_end d ≡ false)
              × (d.length ≡ 4 + n)
              × (d.length ≤ 255)
              × (off + 4 + n ≤ length buf)
              × (scan rounds buf (off + 4 + n) (path ++ node_at buf off n ∷ []) ≡ ok p)))
scan-suc_ok rounds buf off path p len e = elim (Bool-cases (leb (off + 4) (length buf))) [
  | inl fits ↦
      let inside = leb→le _ _ fits in
      let d = header_at buf off in
      let e' = rw (scan-suc rounds buf off path inside) at e in
      (inside, ground (arith, slice-ok buf (off + 4) (data_size d)))
  | inr out ↦ absurd (unfold scan in ground arith)
]

scan-Sound :
    (rounds : ℕ) (buf : List ℕ) (off : ℕ) (path : List DevicePath) (p : List DevicePath × ℕ)
    → All IsByte buf
    → length buf ≡ buffer_size
    → Sound buf path off
    → scan rounds buf off path ≡ ok p
    → Sound buf p.0 p.1 × (p.1 + 4 ≤ length buf) × (length p.0 < length path + rounds)
scan-Sound zero buf off path p h len s e = unfold scan in cc
scan-Sound (suc rounds) buf off path p h len s e =
    let n = data_size (header_at buf off) in
    let (inside, next) = scan-suc_ok rounds buf off path p len e in
    elim next [
      | inl done ↦ rw done (s, inside, omega arith)
      | inr (more, covers, small, fits, rest) ↦
          let (sound, room, count) =
            scan-Sound rounds buf (off + 4 + n) (path ++ node_at buf off n ∷ []) p h len
              (Sound-next buf path off n h fits covers small more s) rest in
          (sound, room, omega (arith, length-append path (node_at buf off n ∷ [])))
    ]

-- On a 64 KiB buffer of bytes, a device path that is accepted has at most 15 nodes, each holding
-- exactly the data that its length announces and none an end node, and the bytes handed back with
-- it are the encoding of these nodes.
pub device_path_sound :
    (buf : List ℕ) {p : List DevicePath × List ℕ}
    → All IsByte buf
    → length buf ≡ buffer_size
    → device_path (ok buf) ≡ ok p
    → All IsNode p.0 × (length p.0 ≤ 15) × (p.1 ≡ encode_path p.0)
unfolding device_path
device_path_sound buf {p} h len e =
    let (q, scanned, result) = first_link _ (scan max_depth buf 0 []) e in
    let start : Sound buf [] 0 = record { nodes = tt; spells = unfold encode_path in refl } in
    let (sound, room, count) = scan-Sound max_depth buf 0 [] q h len start scanned in
    let same : p ≡ (q.0, take q.1 buf) = cc in rw same (sound.nodes, omega arith, sound.spells)

-- If no header in the buffer has a length of 1, 2 or 3, the parser does not panic.
pub device_path-ne-panic :
    (buf : List ℕ)
    → ((off : ℕ) → ¬ IsShort (header_at buf off))
    → length buf ≡ buffer_size
    → device_path (ok buf) ≢ panic
unfolding device_path
device_path-ne-panic buf short len = ground (arith, scan-ne-panic max_depth buf 0 [] short)
