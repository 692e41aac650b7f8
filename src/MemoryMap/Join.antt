-- ===== src/MemoryMap/Join.antt =====
-- What joining adjacent entries keeps.
use uki_stub.Common.{
  ℕ, ◌+◌, ◌^◌, ◌<◌, ◌≡◌, refl, ap, ◌∙◌, inl, inr, Bool, true, false, ◌&&◌, ◌||◌, some, List, [],
  ◌∷◌, ◌++◌, map, append_assoc, arith, ltb, leb, ◌==◌, if◌then◌else◌, Bool-cases, All,
}
use uki_stub.MemoryMap.{
  MemoryDescriptor, E820Types, E820Entry, MemRegion, descriptor_e820, entry_end, joins, grow,
  grow_last, last_entry, e820_loop, e820,
}

-- The entries from the current one on, with what joins it taken in.
pub merge : MemRegion → E820Entry → List E820Entry → List E820Entry
merge r cur [] = cur ∷ []
merge r cur (e ∷ es) =
    let joined = merge r (grow cur e.size) es in
    let apart = cur ∷ merge r e es in if joins r cur e then joined else apart

grow_last-append :
    (out : List E820Entry) (cur : E820Entry) (n : ℕ)
    → grow_last (out ++ cur ∷ []) n ≡ out ++ grow cur n ∷ []
unfolding grow_last
grow_last-append [] cur n = refl
grow_last-append (e ∷ []) cur n = refl
grow_last-append (e ∷ f ∷ out) cur n =
    ap (λ (l : List E820Entry). e ∷ l) (grow_last-append (f ∷ out) cur n)

last_entry-append :
    (out : List E820Entry) (cur : E820Entry) → last_entry (out ++ cur ∷ []) ≡ some cur
unfolding last_entry
last_entry-append [] cur = refl
last_entry-append (e ∷ []) cur = refl
last_entry-append (e ∷ f ∷ out) cur = last_entry-append (f ∷ out) cur

e820_loop-merge :
    (types : E820Types) (r : MemRegion) (ds : List MemoryDescriptor) (out : List E820Entry)
    (cur : E820Entry)
    → e820_loop types r ds (out ++ cur ∷ []) (some cur)
      ≡ out ++ merge r cur (map (descriptor_e820 types) ds)
unfolding e820_loop merge
e820_loop-merge types r [] out cur = refl
e820_loop-merge types r (d ∷ ds) out cur =
    let entry = descriptor_e820 types d in
    elim (Bool-cases (joins r cur entry)) [
      | inl e ↦
          rw (e, grow_last-append out cur entry.size, last_entry-append out (grow cur entry.size))
            (e820_loop-merge types r ds out (grow cur entry.size))
      | inr e ↦ rw (e, e820_loop-merge types r ds (out ++ cur ∷ []) entry, append_assoc)
    ]

-- The whole conversion: the first entry, and the others joined to it or not.
merge_all : MemRegion → List E820Entry → List E820Entry
unfolding merge
merge_all r [] = []
merge_all r (e ∷ es) = merge r e es

e820-merge_all :
    (types : E820Types) (r : MemRegion) (ds : List MemoryDescriptor)
    → e820 types r ds ≡ merge_all r (map (descriptor_e820 types) ds)
unfolding e820 merge_all
e820-merge_all types r [] = refl
e820-merge_all types r (d ∷ ds) = e820_loop-merge types r ds [] (descriptor_e820 types d)

-- The memory types of the entries that cover an address, in order.
unfoldable pub types_at : ℕ → List E820Entry → List ℕ
types_at a [] = []
types_at a (e ∷ es) =
    if leb e.addr a && ltb a (e.addr + e.size) then e.mem_type ∷ types_at a es else types_at a es

-- The entry ends below 2 ^ 64.
abbrev pub IsInRange : E820Entry → Type 0
IsInRange e = e.addr + e.size < 2 ^ 64

types_at-grow :
    (r : MemRegion) (a : ℕ) (cur e : E820Entry) (es : List E820Entry)
    → IsInRange cur
    → IsInRange e
    → joins r cur e ≡ true
    → types_at a (grow cur e.size ∷ es) ≡ types_at a (cur ∷ e ∷ es)
unfolding types_at joins
types_at-grow r a cur e es hc he j = ground arith

grow-IsInRange :
    (r : MemRegion) (cur e : E820Entry)
    → IsInRange cur
    → IsInRange e
    → joins r cur e ≡ true
    → IsInRange (grow cur e.size)
unfolding joins
grow-IsInRange r cur e hc he j = ground arith

types_at-cons :
    (a : ℕ) (e : E820Entry) (es fs : List E820Entry)
    → types_at a es ≡ types_at a fs
    → types_at a (e ∷ es) ≡ types_at a (e ∷ fs)
unfolding types_at
types_at-cons a e es fs h = rw h

types_at-merge :
    (r : MemRegion) (a : ℕ) (cur : E820Entry) (es : List E820Entry)
    → IsInRange cur
    → All IsInRange es
    → types_at a (merge r cur es) ≡ types_at a (cur ∷ es)
unfolding merge
types_at-merge r a cur [] hc h = refl
types_at-merge r a cur (e ∷ es) hc (he, h) = elim (Bool-cases (joins r cur e)) [
  | inl j ↦ rw j (
      types_at-merge r a (grow cur e.size) es (grow-IsInRange r cur e hc he j) h
      ∙ types_at-grow r a cur e es hc he j)
  | inr j ↦ rw j (types_at-cons a cur _ _ (types_at-merge r a e es he h))
]

types_at-merge_all :
    (r : MemRegion) (a : ℕ) (es : List E820Entry)
    → All IsInRange es
    → types_at a (merge_all r es) ≡ types_at a es
unfolding merge_all
types_at-merge_all r a [] h = refl
types_at-merge_all r a (e ∷ es) (he, h) = types_at-merge r a e es he h

-- Joining entries changes the memory type of no address: if no descriptor reaches 2 ^ 64, the E820
-- map gives every address the types, in order, that the descriptors give it one by one.
pub types_at-e820 :
    (types : E820Types) (r : MemRegion) (ds : List MemoryDescriptor) (a : ℕ)
    → All IsInRange (map (descriptor_e820 types) ds)
    → types_at a (e820 types r ds) ≡ types_at a (map (descriptor_e820 types) ds)
types_at-e820 types r ds a h =
    rw (e820-merge_all types r ds) (types_at-merge_all r a (map (descriptor_e820 types) ds) h)

-- Some entry starts, or ends, at the address.
unfoldable pub starts_at : ℕ → List E820Entry → Bool
starts_at a [] = false
starts_at a (e ∷ es) = e.addr == a || starts_at a es

unfoldable pub ends_at : ℕ → List E820Entry → Bool
ends_at a [] = false
ends_at a (e ∷ es) = entry_end e == a || ends_at a es

bounds-merge :
    (r : MemRegion) (cur : E820Entry) (es : List E820Entry)
    → (starts_at r.ram_start (merge r cur es) ≡ starts_at r.ram_start (cur ∷ es))
      × (ends_at r.ram_end (merge r cur es) ≡ ends_at r.ram_end (cur ∷ es))
unfolding merge starts_at ends_at joins
bounds-merge r cur [] = (refl, refl)
bounds-merge r cur (e ∷ es) =
    ground (arith, bounds-merge r (grow cur e.size) es, bounds-merge r e es)

bounds-merge_all :
    (r : MemRegion) (es : List E820Entry)
    → (starts_at r.ram_start (merge_all r es) ≡ starts_at r.ram_start es)
      × (ends_at r.ram_end (merge_all r es) ≡ ends_at r.ram_end es)
unfolding merge_all
bounds-merge_all r [] = (refl, refl)
bounds-merge_all r (e ∷ es) = bounds-merge r e es

bounds-e820 :
    (types : E820Types) (r : MemRegion) (ds : List MemoryDescriptor)
    → (starts_at r.ram_start (e820 types r ds)
        ≡ starts_at r.ram_start (map (descriptor_e820 types) ds))
      × (ends_at r.ram_end (e820 types r ds) ≡ ends_at r.ram_end (map (descriptor_e820 types) ds))
bounds-e820 types r ds =
    rw (e820-merge_all types r ds) (bounds-merge_all r (map (descriptor_e820 types) ds))

-- Each entry does not join the one before it.
abbrev pub IsApart : MemRegion → E820Entry → List E820Entry → Type 0
IsApart r cur [] = Unit {0}
IsApart r cur (e ∷ es) = (joins r cur e ≡ false) × IsApart r e es

abbrev pub IsSeparated : MemRegion → List E820Entry → Type 0
IsSeparated r [] = Unit {0}
IsSeparated r (e ∷ es) = IsApart r e es

merge-IsApart :
    (r : MemRegion) (p cur : E820Entry) (es : List E820Entry)
    → joins r p cur ≡ false
    → IsApart r p (merge r cur es)
unfolding merge
merge-IsApart r p cur [] h = (h, tt)
merge-IsApart r p cur (e ∷ es) h = elim (Bool-cases (joins r cur e)) [
  | inl j ↦ rw j (merge-IsApart r p (grow cur e.size) es (unfold joins in h))
  | inr j ↦ rw j (h, merge-IsApart r cur e es j)
]

merge-IsSeparated :
    (r : MemRegion) (cur : E820Entry) (es : List E820Entry) → IsSeparated r (merge r cur es)
unfolding merge
merge-IsSeparated r cur [] = tt
merge-IsSeparated r cur (e ∷ es) = elim (Bool-cases (joins r cur e)) [
  | inl j ↦ rw j (merge-IsSeparated r (grow cur e.size) es)
  | inr j ↦ rw j (merge-IsApart r cur e es j)
]

merge_all-IsSeparated : (r : MemRegion) (es : List E820Entry) → IsSeparated r (merge_all r es)
unfolding merge_all
merge_all-IsSeparated r [] = tt
merge_all-IsSeparated r (e ∷ es) = merge-IsSeparated r e es

e820-IsSeparated :
    (types : E820Types) (r : MemRegion) (ds : List MemoryDescriptor)
    → IsSeparated r (e820 types r ds)
e820-IsSeparated types r ds = rw (e820-merge_all types r ds) (merge_all-IsSeparated r _)

-- The memory of the runtime is kept apart: an entry of the E820 map starts at its start exactly if
-- a descriptor does, and one ends at its end exactly if a descriptor does. Beside this, joining is
-- complete: no entry of the map could still be joined to the one before it.
pub e820_joined :
    (types : E820Types) (r : MemRegion) (ds : List MemoryDescriptor)
    → (starts_at r.ram_start (e820 types r ds)
        ≡ starts_at r.ram_start (map (descriptor_e820 types) ds))
      × (ends_at r.ram_end (e820 types r ds) ≡ ends_at r.ram_end (map (descriptor_e820 types) ds))
      × IsSeparated r (e820 types r ds)
e820_joined types r ds =
    let (starts, ends) = bounds-e820 types r ds in (starts, ends, e820-IsSeparated types r ds)
