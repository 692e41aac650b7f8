-- ===== src/Tests/Ram.antt =====
-- Bytes behind addresses: a memory for the runs of the commands.
use uki_stub.Common.{
  ℕ, zero, suc, ◌+◌, ◌≤◌, ◌<◌, ◌≡◌, refl, ap, ◌∙◌, List, [], ◌∷◌, ◌++◌, arith, ◌==◌, if◌then◌else◌,
  length, drop, ==_ne, ==_self,
}
use uki_stub.Wire.Splice.{splice}

abbrev pub Memory : Type 0
Memory = ℕ → ℕ

abbrev pub set : ℕ → ℕ → Memory → Memory
set a b m x = if x == a then b else m x

abbrev pub load : ℕ → ℕ → Memory → List ℕ
load a zero m = []
load a (suc n) m = m a ∷ load (suc a) n m

abbrev pub store : ℕ → List ℕ → Memory → Memory
store a [] m = m
store a (b ∷ bytes) m = store (suc a) bytes (set a b m)

pub length-load : (a n : ℕ) (m : Memory) → length (load a n m) ≡ n
length-load a zero m = refl
length-load a (suc n) m = ap suc (length-load (suc a) n m)

store_above : (x a : ℕ) (bytes : List ℕ) (m : Memory) → x < a → store a bytes m x ≡ m x
store_above x a [] m h = refl
store_above x a (b ∷ bytes) m h =
    store_above x (suc a) bytes (set a b m) (omega arith) ∙ rw (==_ne x a (omega arith)) refl

load-set : (x a b n : ℕ) (m : Memory) → x < a → load a n (set x b m) ≡ load a n m
load-set x a b zero m h = refl
load-set x a b (suc n) m h =
    rw (==_ne a x (omega arith)) (ap (λ l. m a ∷ l) (load-set x (suc a) b n m (omega arith)))

load-store_start :
    (a n : ℕ) (bytes : List ℕ) (m : Memory)
    → length bytes ≤ n
    → load a n (store a bytes m) ≡ bytes ++ drop (length bytes) (load a n m)
load-store_start a n [] m h = refl
load-store_start a zero (b ∷ bytes) m h = absurd (omega arith)
load-store_start a (suc n) (b ∷ bytes) m h =
    let head : store (suc a) bytes (set a b m) a ≡ b =
      store_above a (suc a) bytes (set a b m) (omega arith) ∙ rw (==_self a) refl in
    let tail = load-store_start (suc a) n bytes (set a b m) (omega arith) in
    let rest = load-set a (suc a) b n m (omega arith) in rw (head, tail, rest) refl

-- A store inside the bytes that are loaded replaces those that it writes.
pub load-store :
    (a n off : ℕ) (bytes : List ℕ) (m : Memory)
    → off + length bytes ≤ n
    → load a n (store (a + off) bytes m) ≡ splice (load a n m) off bytes
load-store a n zero bytes m h =
    let e1 : a + 0 ≡ a = omega arith in
    let e2 : 0 + length bytes ≡ length bytes = omega arith in
    rw (e1, e2) (load-store_start a n bytes m (omega arith))
load-store a zero (suc off) bytes m h = absurd (omega arith)
load-store a (suc n) (suc off) bytes m h =
    let e1 : a + suc off ≡ suc a + off = omega arith in
    let e2 : suc off + length bytes ≡ suc (off + length bytes) = omega arith in
    let head = store_above a (suc a + off) bytes m (omega arith) in
    rw (e1, e2, head) (ap (λ l. m a ∷ l) (load-store (suc a) n off bytes m (omega arith)))
