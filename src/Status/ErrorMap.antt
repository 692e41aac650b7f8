-- ===== src/Status/ErrorMap.antt =====
-- pkg/uefi/efistatus.go: the status codes of a 64-bit machine, the map errMap from a status to its
-- error, newError and StatusError. The map is passed along; `none` is the nil error.
use Prim.Native.String.{String}
use mathlib.Core.Path.{subst}
use uki_stub.Common.{
  ℕ, suc, ◌+◌, ◌^◌, ◌<◌, ◌≡◌, ◌≢◌, ◌↔◌, refl, sym, arith, List, [], ◌∷◌, ◌==◌, if◌then◌else◌,
  Option, none, some, Option-cases, Bool-cases, inl, inr,
}

-- The object behind a `*Error`: its fields, and the address that tells it from any other object.
pub record Error : Type 0 where
  pub address : ℕ
  pub code : ℕ
  pub msg : String

abbrev pub Entries : Type 0
Entries = List (ℕ × Error)

-- The map errMap, with the next address that `&Error{}` gives out.
pub record ErrMap : Type 0 where
  pub entries : Entries
  pub next : ℕ

abbrev pub no_errors : ErrMap
no_errors = record { entries = []; next = 1 }

-- `errorMask | n` on 64 bits, for `n` below the mask.
abbrev pub error_status : ℕ → ℕ
error_status n = 2 ^ 63 + n

pub find_error : ℕ → Entries → Option Error
find_error status [] = none
find_error status ((k, e) ∷ m) = if k == status then some e else find_error status m

-- `errMap[code] = err`
pub insert_error : ℕ → Error → Entries → Entries
insert_error code e [] = (code, e) ∷ []
insert_error code e ((k, d) ∷ m) =
    if k == code then (code, e) ∷ m else (k, d) ∷ insert_error code e m

pub new_error : ℕ → String → ErrMap → Error × ErrMap
new_error code msg m =
    let e : Error = record { address = m.next; code = code; msg = msg } in
    (e, record { entries = insert_error code e m.entries; next = suc m.next })

-- The variables' initialisers, in their order.
pub register : List (ℕ × String) → ErrMap → ErrMap
register [] m = m
register ((n, msg) ∷ rest) m = register rest (new_error (error_status n) msg m).1

abbrev pub known_errors : List (ℕ × String)
known_errors =
    (1, "image failed to load")
    ∷ (2, "a parameter was incorrect")
    ∷ (3, "operation not supported")
    ∷ (4, "buffer size incorrect for request")
    ∷ (5, "buffer too small; size returned in parameter")
    ∷ (6, "no data pending")
    ∷ (7, "physical device reported an error")
    ∷ (8, "device is write-protected")
    ∷ (9, "out of resources")
    ∷ (10, "filesystem inconsistency detected")
    ∷ (11, "no more space on filesystem")
    ∷ (12, "device contains no medium")
    ∷ (13, "medium changed since last access")
    ∷ (14, "item not found")
    ∷ (15, "access denied")
    ∷ (16, "server not found or no response")
    ∷ (17, "no device mapping exists")
    ∷ (18, "timeout expired")
    ∷ (19, "protocol not started")
    ∷ (20, "protocol already started")
    ∷ (21, "operation aborted")
    ∷ (22, "ICMP error during network operation")
    ∷ (23, "TFTP error during network operation")
    ∷ (24, "protocol error during network operation")
    ∷ (25, "requested version incompatible")
    ∷ (26, "security violation")
    ∷ (27, "CRC error detected")
    ∷ (28, "beginning or end of media reached")
    ∷ (31, "end of file reached")
    ∷ (32, "invalid language specified")
    ∷ (33, "data security status unknown or compromised")
    ∷ (34, "IP address conflict detected")
    ∷ (35, "HTTP error during network operation")
    ∷ []

pub err_map : ErrMap
unfolding register
err_map = register known_errors no_errors

-- StatusError registers an error for a status that it does not know.
pub status_error : ℕ → ErrMap → Option Error × ErrMap
unfolding find_error new_error
status_error status m = if status == 0 then (none, m) else elim (find_error status m.entries) [
  | some e ↦ (some e, m)
  | none ↦ let made = new_error status "unknown EFI error" m in (some made.0, made.1)
]

-- Every error stands under its own code, in an object of its own, which was given out before.
pub record IsValid (m : ErrMap) : Type 0 where
  pub keyed : (s : ℕ) (e : Error) → find_error s m.entries ≡ some e → e.code ≡ s
  pub given : (s : ℕ) (e : Error) → find_error s m.entries ≡ some e → e.address < m.next
  pub own :
      (s t : ℕ) (e d : Error)
      → find_error s m.entries ≡ some e
      → find_error t m.entries ≡ some d
      → e.address ≡ d.address
      → s ≡ t

find_error-insert_error :
    (status code : ℕ) (e : Error) (m : Entries)
    → find_error status (insert_error code e m)
      ≡ (if code == status then some e else find_error status m)
unfolding find_error insert_error
find_error-insert_error status code e [] = refl
find_error-insert_error status code e ((k, d) ∷ m) =
    ground (arith, find_error-insert_error status code e m)

pub no_errors-IsValid : IsValid no_errors
unfolding find_error
no_errors-IsValid = record {
  keyed = λ s e h. cc;
  given = λ s e h. absurd (ground (arith, h));
  own = λ s t e d h k same. absurd (ground (arith, h));
}

new_error-IsValid :
    (code : ℕ) (msg : String) (m : ErrMap) → IsValid m → IsValid (new_error code msg m).1
unfolding new_error
new_error-IsValid code msg m v =
    let made : Error = record { address = m.next; code = code; msg = msg } in
    let found = λ (s : ℕ). find_error-insert_error s code made m.entries in
    record {
      keyed = λ s e h. ground (arith, h, found s, v.keyed s e);
      given = λ s e h. ground (arith, h, found s, v.given s e);
      own = λ s t e d h k same.
          ground (arith, h, k, same, found s, found t, v.own s t e d, v.given s e, v.given t d);
    }

register-IsValid : (ks : List (ℕ × String)) (m : ErrMap) → IsValid m → IsValid (register ks m)
unfolding register
register-IsValid [] m v = v
register-IsValid ((n, msg) ∷ ks) m v =
    register-IsValid ks _ (new_error-IsValid (error_status n) msg m v)

pub err_map-IsValid : IsValid err_map
unfolding err_map
err_map-IsValid = register-IsValid known_errors no_errors no_errors-IsValid

pub status_error-IsValid : (status : ℕ) (m : ErrMap) → IsValid m → IsValid (status_error status m).1
unfolding status_error
status_error-IsValid status m v = elim (Bool-cases (status == 0)) [
  | inl fine ↦ rw fine v
  | inr bad ↦ elim (Option-cases (find_error status m.entries)) [
    | inl e ↦ rw (bad, e) (new_error-IsValid status "unknown EFI error" m v)
    | inr (x, e) ↦ rw (bad, e) v
  ]
]

-- The error of a status stands in the map behind the call.
status_error-find_error :
    (status : ℕ) (m : ErrMap)
    → status ≢ 0
    → (e : Error) × ((status_error status m).0 ≡ some e)
      × (find_error status (status_error status m).1.entries ≡ some e)
unfolding status_error new_error
status_error-find_error status m h = elim (Option-cases (find_error status m.entries)) [
  | inl e ↦
      let made : Error = record { address = m.next; code = status; msg = "unknown EFI error" } in
      let found = find_error-insert_error status status made m.entries in
      (made, ground (arith, h, e), ground (arith, h, e, found))
  | inr (x, e) ↦ (x, ground (arith, h, e), ground (arith, h, e))
]

-- An error that stands in the map stays there.
status_error-keeps :
    (s t : ℕ) (m : ErrMap) (e : Error)
    → find_error s m.entries ≡ some e
    → find_error s (status_error t m).1.entries ≡ some e
unfolding status_error new_error
status_error-keeps s t m e h =
    let made : Error = record { address = m.next; code = t; msg = "unknown EFI error" } in
    ground (arith, h, find_error-insert_error s t made m.entries)

pub status_error-some :
    (status : ℕ) (m : ErrMap) → status ≢ 0 → (e : Error) × ((status_error status m).0 ≡ some e)
status_error-some status m h = let (e, made, _) = status_error-find_error status m h in (e, made)

-- StatusError is called for one status behind the other.
pub ask_all : List ℕ → ErrMap → ErrMap
ask_all [] m = m
ask_all (t ∷ ts) m = ask_all ts (status_error t m).1

ask_all-IsValid : (ts : List ℕ) (m : ErrMap) → IsValid m → IsValid (ask_all ts m)
unfolding ask_all
ask_all-IsValid [] m v = v
ask_all-IsValid (t ∷ ts) m v = ask_all-IsValid ts _ (status_error-IsValid t m v)

ask_all-keeps :
    (s : ℕ) (ts : List ℕ) (m : ErrMap) (e : Error)
    → find_error s m.entries ≡ some e
    → find_error s (ask_all ts m).entries ≡ some e
unfolding ask_all
ask_all-keeps s [] m e h = h
ask_all-keeps s (t ∷ ts) m e h = ask_all-keeps s ts _ e (status_error-keeps s t m e h)

abbrev pub code_of : Option Error → Option ℕ
code_of none = none
code_of (some e) = some e.code

-- The pointer, `none` for nil.
abbrev pub pointer : Option Error → Option ℕ
pointer none = none
pointer (some e) = some e.address

status_error-nil : (status : ℕ) (m : ErrMap) → status ≡ 0 → (status_error status m).0 ≡ none
unfolding status_error
status_error-nil status m h = ground (arith, h)

pub status_error-code :
    (status : ℕ) (m : ErrMap)
    → IsValid m
    → code_of (status_error status m).0 ≡ (if status == 0 then none else some status)
status_error-code status m v = elim (Bool-cases (status == 0)) [
  | inl fine ↦ ground (arith, status_error-nil status m (ground (arith, fine)))
  | inr bad ↦
      let (e, made, found) = status_error-find_error status m (ground (arith, bad)) in
      ground (arith, made, bad, (status_error-IsValid status m v).keyed status e found)
]

-- The pointers that two calls return on a map where the first left its error are the same exactly
-- for the same status.
pointer_iff :
    (status t : ℕ) (m : ErrMap) (old : Option Error)
    → IsValid m
    → (status ≡ 0 → old ≡ none)
    → (status ≢ 0 → (e : Error) × (old ≡ some e) × (find_error status m.entries ≡ some e))
    → (pointer (status_error t m).0 ≡ pointer old) ↔ (t ≡ status)
pointer_iff status t m old v nil' kept = elim (Bool-cases (status == 0)) [
  | inl fine ↦
      let none' = nil' (ground (arith, fine)) in
      elim (Bool-cases (t == 0)) [
        | inl also ↦
            let same = status_error-nil t m (ground (arith, also)) in
            (λ p. ground (arith, fine, also), λ p. ground (arith, same, none'))
        | inr bad ↦
            let (d, made, found) = status_error-find_error t m (ground (arith, bad)) in
            (
              λ p. absurd (ground (arith, p, made, none')),
              λ p. absurd (ground (arith, p, fine, bad)),
            )
      ]
  | inr bad ↦
      let (e, old', found) = kept (ground (arith, bad)) in
      elim (Bool-cases (t == 0)) [
        | inl fine ↦
            let same = status_error-nil t m (ground (arith, fine)) in
            (
              λ p. absurd (ground (arith, p, same, old')),
              λ p. absurd (ground (arith, p, fine, bad)),
            )
        | inr also ↦
            let (d, made, found') = status_error-find_error t m (ground (arith, also)) in
            let keeps = status_error-keeps status t m e found in
            let one = (status_error-IsValid t m v).own t status d e found' keeps in
            (
              λ p. one (ground (arith, p, made, old')),
              λ p.
                  let there : find_error t (status_error t m).1.entries ≡ some e =
                    subst (λ (s : ℕ). find_error s (status_error t m).1.entries ≡ some e) (sym p)
                      keeps in
                  ground (arith, made, old', found', there),
            )
      ]
]

-- On a map in which every error stands under its own code in an object of its own, StatusError
-- returns nil for EFI_SUCCESS and otherwise an error with the status it was asked for. Whatever it
-- is asked in between, also for statuses it does not know, the map stays so, and a later call
-- returns the same pointer exactly if it asks for the same status, as errors.Is compares them.
pub status_error_contract :
    (status t : ℕ) (between : List ℕ) (m : ErrMap)
    → IsValid m
    → (code_of (status_error status m).0 ≡ (if status == 0 then none else some status))
      × IsValid (ask_all between (status_error status m).1)
      × ((pointer (status_error t (ask_all between (status_error status m).1)).0
            ≡ pointer (status_error status m).0)
          ↔ (t ≡ status))
status_error_contract status t between m v =
    let after = ask_all-IsValid between _ (status_error-IsValid status m v) in
    (
      status_error-code status m v,
      after,
      pointer_iff status t _ _ after (status_error-nil status m) (λ h.
          let (e, made, found) = status_error-find_error status m h in
          (e, made, ask_all-keeps status between _ e found)),
    )
