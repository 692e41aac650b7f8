-- ===== src/Kernel/Loading.antt =====
-- What load and loadAndVerify of the commands hand back.
use uki_stub.Common.{
  is_eof, ℕ, zero, suc, ◌≤◌, ◌<◌, ◌≡◌, refl, ◌∙◌, ap, false, Option, none, some, List, [], ◌++◌,
  append_assoc, arith, length, take, ltb, if◌then◌else◌, Failure, Stage, opening, root_volume,
  reading, during, Outcome, ok, err,
}
use uki_stub.Firmware.{M, crash, check, return, zeros, ◌>>=◌, >>=-ok}
use uki_stub.Kernel.{Services, at_stage, read_all, read_file, load, load_and_verify}

module _ {W R F : Type 0} (api : Services W R F) where
  -- One call of Read for a buffer that holds `b`.
  abbrev pub read_more : F → List ℕ → M W (ℕ × List ℕ × Option Failure)
  read_more f b = api.read f (zeros (api.room (length b)))

  -- The file hands out these bytes behind `b`, in so many reads and one, and ends with this error
  -- or without one.
  pub data Serves (f : F) : ℕ → List ℕ → W → List ℕ → Option Failure → W → Type 0 where
    last :
        {b buf : List ℕ} {n : ℕ} {e : Failure} {w w' : W}
        → read_more f b w ≡ (ok (n, buf, some e), w')
        → n ≤ length buf
        → Serves f 0 b w (take n buf) (if is_eof e then none else some e) w'
    more :
        {k n : ℕ} {b buf s : List ℕ} {e : Option Failure} {w w1 w' : W}
        → read_more f b w ≡ (ok (n, buf, none), w1)
        → n ≤ length buf
        → Serves f k (b ++ take n buf) w1 s e w'
        → Serves f (suc k) b w (take n buf ++ s) e w'

  abbrev next : ℕ → F → List ℕ → ℕ × List ℕ × Option Failure → M W (List ℕ × Option Failure)
  next rounds f b r =
      let (count, buf, e) = r in
      if ltb (length buf) count then crash else elim e [
        | none ↦ read_all api rounds f (b ++ take count buf)
        | some e ↦ return (b ++ take count buf, if is_eof e then none else some e)
      ]

  not_more : (n m : ℕ) → n ≤ m → ltb m n ≡ false
  not_more n m h = ground arith

  read_all-Serves :
      (rounds : ℕ) (f : F) {k : ℕ} {b s : List ℕ} {e : Option Failure} {w w' : W}
      → Serves f k b w s e w'
      → k < rounds
      → read_all api rounds f b w ≡ (ok (b ++ s, e), w')
  unfolding read_all
  read_all-Serves zero f r h = absurd (omega arith)
  read_all-Serves (suc n) f {b = b} {w = w} (last {buf = buf} {n = c} r fits) h =
      >>=-ok (read_more f b) (next n f b) w r ∙ rw (not_more c (length buf) fits) refl
  read_all-Serves (suc n) f {b = b} {w = w} (more {n = c} {buf = buf} {s = s} {w1 = w1} r fits rest)
        h =
      >>=-ok (read_more f b) (next n f b) w r
      ∙ rw (not_more c (length buf) fits, ← append_assoc b (take c buf) s)
          (read_all-Serves n f rest (omega arith))

  at_stage_ok :
      {A : Type 0} (stage : Stage) (m : M W A) (w w' : W) (a : A)
      → m w ≡ (ok a, w')
      → at_stage stage m w ≡ (ok a, w')
  at_stage_ok stage m w w' a e = ap (λ r. at_stage stage (λ (_ : W). r) w) e

  read_file-Serves :
      (rounds : ℕ) (path : List ℕ) (root : R) (f : F) (k : ℕ) (s : List ℕ) (e : Option Failure)
      (w w1 w2 w' : W)
      → api.root w ≡ (ok root, w1)
      → api.open_file root path w1 ≡ (ok f, w2)
      → Serves f k [] w2 s e w'
      → k < rounds
      → read_file api rounds path w ≡ (ok (s, e), w')
  unfolding read_file
  read_file-Serves rounds path root f k s e w w1 w2 w' mounted opened serves h =
      let read : F → M W (List ℕ × Option Failure) = λ f. read_all api rounds f [] in
      let opening' : R → M W F = λ root. at_stage opening (api.open_file root path) in
      >>=-ok (at_stage root_volume api.root) (λ root. opening' root >>= read) w
        (at_stage_ok root_volume api.root w w1 root mounted)
      ∙ >>=-ok (opening' root) read w1
          (at_stage_ok opening (api.open_file root path) w1 w2 f opened)
      ∙ read_all-Serves rounds f serves h

  abbrev pub loaded : List ℕ → Option Failure → Outcome (List ℕ)
  loaded s none = ok s
  loaded s (some e) = err (during reading e)

  checked :
      (s : List ℕ) (e : Option Failure) (w : W) → at_stage reading (check s e) w ≡ (loaded s e, w)
  checked s none w = refl
  checked s (some e) w = refl

  -- On a file that can be opened and that serves the bytes `s` before it ends, load hands back all
  -- of them in order, or the error that ended the reading; loadAndVerify hands them back in both
  -- cases.
  pub load-Serves :
      (rounds : ℕ) (path : List ℕ) (root : R) (f : F) (k : ℕ) (s : List ℕ) (e : Option Failure)
      (w w1 w2 w' : W)
      → api.root w ≡ (ok root, w1)
      → api.open_file root path w1 ≡ (ok f, w2)
      → Serves f k [] w2 s e w'
      → k < rounds
      → (load api rounds path w ≡ (loaded s e, w'))
        × (load_and_verify api rounds path w ≡ (ok s, w'))
  unfolding load load_and_verify
  load-Serves rounds path root f k s e w w1 w2 w' mounted opened serves h =
      let all = read_file-Serves rounds path root f k s e w w1 w2 w' mounted opened serves h in
      let finish : List ℕ × Option Failure → M W (List ℕ) =
        λ r. at_stage reading (check (r.0) (r.1)) in
      (
        >>=-ok (read_file api rounds path) finish w all ∙ checked s e w',
        >>=-ok (read_file api rounds path) (λ r. return (r.0)) w all,
      )
