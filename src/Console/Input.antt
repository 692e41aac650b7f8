-- ===== src/Console/Input.antt =====
-- What Read of pkg/ueficore/console.go returns.
use uki_stub.Common.{
  ℕ, zero, suc, ◌+◌, ◌*◌, ◌/◌, ◌%◌, ◌^◌, ◌≤◌, ◌≡◌, refl, inl, inr, Option, none, List, [], ◌∷◌,
  arith, ltb, ◌==◌, if◌then◌else◌, Bool-cases, length, get_or, take, drop, Failure, ok,
}
use uki_stub.Firmware.{Firmware, value, buffer, at, call_service}
use uki_stub.Wire.{le_value}
use uki_stub.Status.{efi_not_ready, parse_status}
use uki_stub.Console.{Console, InputKey, input, read_keys, read}

-- `n` bytes of the buffer were overwritten and the rest was not touched.
unfoldable pub IsRead : List ℕ → ℕ → List ℕ → Type 0
IsRead p n q = (n ≤ length p) × (length q ≡ length p) × (drop n q ≡ drop n p)

none-IsRead : (p : List ℕ) → IsRead p 0 p
unfolding IsRead
none-IsRead p = (omega arith, refl, refl)

two-IsRead :
    (a b x y : ℕ) (p q : List ℕ) (n : ℕ) → IsRead p n q → IsRead (a ∷ b ∷ p) (n + 2) (x ∷ y ∷ q)
unfolding IsRead
two-IsRead a b x y p q n (le, len, eq) = (
  omega (arith, le),
  omega (arith, len),
  (let two : n + 2 ≡ suc (suc n) = omega arith in rw two eq),
)

module _ {W : Type 0} (fw : Firmware W) (c : Console) where
  input-ok :
      (k : InputKey) (w : W)
      → (s : ℕ) × (k' : InputKey) × (w' : W) × (input fw c k w ≡ (ok (s, k'), w'))
  unfolding input call_service
  input-ok k w = elim (Bool-cases (c.input == 0)) [
    | inl e ↦ (0, k, w, rw e)
    | inr e ↦
        let key = (k.scan_code % 256) ∷ (k.scan_code / 256) ∷ k.unicode_char in
        let r =
          fw.call
            (record { fn = at ((c.input + 0x08) % 2 ^ 64); args = value c.input ∷ buffer key ∷ [] })
            w in
        let bytes = get_or r.0.bufs 0 key in
        (
          r.0.status,
          record { scan_code = le_value (take 2 bytes); unicode_char = take 2 (drop 2 bytes) },
          r.1,
          rw e,
        )
  ]

  read_keys-IsRead :
      (m : ℕ) (k : InputKey) (p : List ℕ) (w : W)
      → length p ≡ 2 * m
      → (n : ℕ) × (q : List ℕ) × (e : Option Failure) × (w' : W) × (read_keys fw c k p w
          ≡ (ok (n, q, e), w'))
        × IsRead p n q
  unfolding read_keys
  read_keys-IsRead m k [] w h = (0, [], none, w, refl, none-IsRead [])
  read_keys-IsRead m k (a ∷ []) w h = absurd (omega (arith, h))
  read_keys-IsRead zero k (a ∷ b ∷ p) w h = absurd (omega (arith, h))
  read_keys-IsRead (suc m) k (a ∷ b ∷ p) w h =
      let (s, k', w1, i) = input-ok k w in
      let (n, q, e, w2, r, part) = read_keys-IsRead m k' p w1 (omega (arith, h)) in
      elim (Bool-cases (s % 256 == efi_not_ready)) [
        | inl late ↦ (0, a ∷ b ∷ p, none, w1, ground (arith, i, late), none-IsRead (a ∷ b ∷ p))
        | inr ready ↦ elim (Bool-cases (s == 0)) [
          | inr bad ↦ (
            0,
            a ∷ b ∷ p,
            parse_status s,
            w1,
            ground (arith, i, ready, bad),
            none-IsRead (a ∷ b ∷ p),
          )
          | inl fine ↦ (
            n + 2,
            (if ltb 0 k'.scan_code then k'.scan_code % 256 else get_or k'.unicode_char 0 a)
                ∷ (if ltb 0 k'.scan_code then k'.scan_code / 256 else get_or k'.unicode_char 1 b)
                ∷ q,
            e,
            w2,
            ground (arith, i, ready, fine, r),
            two-IsRead a b _ _ p q n part,
          )
        ]
      ]

  -- On a buffer of an even length Read always returns, the count fits the buffer, and the bytes
  -- beyond it are as they were.
  pub read-IsRead :
      (m : ℕ) (p : List ℕ) (w : W)
      → length p ≡ 2 * m
      → (n : ℕ) × (q : List ℕ) × (e : Option Failure) × (w' : W) × (read fw c p w
          ≡ (ok (n, q, e), w'))
        × IsRead p n q
  unfolding read
  read-IsRead m p w h =
      read_keys-IsRead m (record { scan_code = 0; unicode_char = 0 ∷ 0 ∷ [] }) p w h
