-- ===== src/DevicePath/Files.antt =====
-- FS.FilePath: the device path of a file goes through the parser again.
use uki_stub.Common.{
  ℕ, ◌≤◌, ◌≡◌, refl, ◌∙◌, List, [], ◌∷◌, ◌++◌, append_assoc, append-nil, arith, length,
  length-append, All-append, All, Outcome, ok,
}
use uki_stub.Utf16.{to_utf16}
use uki_stub.DevicePath.{
  node_bytes, DevicePath, device_path, end_node, file_path, file_node, file_path_bytes,
}
use uki_stub.DevicePath.Scan.{IsNode, encode_path, encode_path-append}
use uki_stub.DevicePath.RoundTrip.{IsHeader, device_path-encode_path}

-- The node of the file name, as the parser hands it out.
abbrev pub file_device : List ℕ → DevicePath
file_device name = record { node = (file_node name).node; content = (file_node name).path_name }

file_device-IsNode : (name : List ℕ) → length (to_utf16 name) ≤ 251 → IsNode (file_device name)
unfolding file_node
file_device-IsNode name h = (omega arith, omega arith, refl)

file_device-IsHeader : (name : List ℕ) → IsHeader (file_device name).node
unfolding file_node
file_device-IsHeader name = omega arith

-- For a file name of at most 251 bytes in UTF-16 with its NUL, on a volume whose device path has at
-- most 14 nodes, FilePath appends one node with the name and an end node, and the parser reads the
-- result back as the nodes of the volume followed by that of the file.
pub file_path_reparse :
    (region : Outcome (List ℕ)) (ds : List DevicePath) (name rest : List ℕ)
    → device_path region ≡ ok (ds, encode_path ds)
    → All IsNode ds
    → All (λ (d : DevicePath). IsHeader d.node) ds
    → length ds ≤ 14
    → length (to_utf16 name) ≤ 251
    → (out : List ℕ) × (file_path region name ≡ ok (ds, file_node name, out))
      × (device_path (ok (out ++ rest))
          ≡ ok (ds ++ file_device name ∷ [], encode_path (ds ++ file_device name ∷ [])))
unfolding file_path
file_path_reparse region ds name rest e n h count small =
    let all = ds ++ file_device name ∷ [] in
    let same : encode_path all ≡ encode_path ds ++ file_path_bytes (file_node name) =
      encode_path-append ds _ ∙ unfold encode_path file_path_bytes in simp append-nil in
    let again =
      device_path-encode_path all rest
        (All-append IsNode ds _ n (file_device-IsNode name small, tt))
        (All-append (λ (d : DevicePath). IsHeader d.node) ds _ h (file_device-IsHeader name, tt))
        (omega (arith, length-append ds (file_device name ∷ []))) in
    (
      (encode_path ds ++ file_path_bytes (file_node name)) ++ node_bytes end_node,
      rw e,
      rw (← same, append_assoc) again,
    )
