-- ===== src/Services/Reading.antt =====
-- The reading of a whole file of the firmware, as fs.ReadFile does for pkg/ueficore/image.go.
use uki_stub.Common.{
  ℕ, zero, suc, ◌+◌, ◌-◌, ◌<◌, ◌≤◌, ◌≡◌, ◌≢◌, refl, sym, ap, ◌∙◌, Option, none, some, List, [], ◌∷◌,
  ◌++◌, append_assoc, append-nil, drop-nil, length-take, length-drop, arith, length, take, drop,
  get_or, leb, ltb, if◌then◌else◌, length-append, is_eof, Failure, eof, ok, ◌==◌, Bool-cases, inl,
  inr,
}
use uki_stub.Firmware.{
  Firmware, Request, Reply, M, value, reference, buffer, held, left_in, zeros, length-zeros,
  call_service, crash, return, ◌>>=◌, >>=-ok,
}
use uki_stub.Status.{parse_status}
use uki_stub.Services.Files.{File, protocol_read, read}
use uki_stub.Services.Image.{read_to_end}

-- The request of Read for a buffer of `n` zeros.
abbrev pub read_request : File → ℕ → Request
read_request f n = record {
  fn = held f.file.read_fn;
  args = value f.addr ∷ reference n ∷ buffer (zeros n) ∷ [];
}

-- How EFI_FILE_PROTOCOL.Read serves a file of which the bytes `rest` are not yet read: as many as
-- fit the buffer, and none at the end.
abbrev pub IsServed : {W : Type 0} → Firmware W → File → (W → List ℕ) → Type 0
IsServed {W} fw f rest =
    (n : ℕ) (w : W)
    → n ≢ 0
    → let r = fw.call (read_request f n) w in
      (r.0.status ≡ 0)
      × (left_in r.0 0 n ≡ length (take n (rest w)))
      × (length (take n (rest w)) ≤ length (get_or r.0.bufs 0 (zeros n)))
      × (take (length (take n (rest w))) (get_or r.0.bufs 0 (zeros n)) ≡ take n (rest w))
      × (rest r.1 ≡ drop n (rest w))

module _ {W : Type 0} (fw : Firmware W) (f : File) (rest : W → List ℕ) where
  read_fine :
      (buf : List ℕ) (r : Reply) (w w' : W)
      → f.addr ≢ 0
      → length buf ≢ 0
      → fw.call
          (record {
            fn = held f.file.read_fn;
            args = value f.addr ∷ reference (length buf) ∷ buffer buf ∷ [];
          })
          w
        ≡ (r, w')
      → r.status ≡ 0
      → read fw f buf w ≡ (
        ok (
          left_in r 0 (length buf),
          get_or r.bufs 0 buf,
          (if left_in r 0 (length buf) == 0 then some eof else none),
        ),
        w',
      )
  unfolding read protocol_read call_service parse_status
  read_fine buf r w w' opened some' called fine = ground (arith, called, fine, opened, some')

  read-IsServed :
      (n : ℕ) (w : W)
      → f.addr ≢ 0
      → IsServed fw f rest
      → n ≢ 0
      → (buf : List ℕ) × (w' : W) × (read fw f (zeros n) w ≡ (
        ok (
          length (take n (rest w)),
          buf,
          (if length (take n (rest w)) == 0 then some eof else none),
        ),
        w',
      ))
        × (length (take n (rest w)) ≤ length buf)
        × (take (length (take n (rest w))) buf ≡ take n (rest w))
        × (rest w' ≡ drop n (rest w))
  read-IsServed n w opened served some' =
      let (fine, count, room, bytes, after) = served n w some' in
      let r = fw.call (read_request f n) w in
      let ask : ℕ → Request = λ k. record {
        fn = held f.file.read_fn;
        args = value f.addr ∷ reference k ∷ buffer (zeros n) ∷ [];
      } in
      let same = length-zeros n in
      let done =
        read_fine (zeros n) r.0 w r.1 opened (omega (arith, same, some'))
          (ap (λ k. fw.call (ask k) w) same) fine in
      (get_or r.0.bufs 0 (zeros n), r.1, rw (same, count) at done, room, bytes, after)

  no_more : (n : ℕ) (xs : List ℕ) → n ≢ 0 → length (take n xs) ≡ 0 → xs ≡ []
  no_more zero xs h e = absurd (h refl)
  no_more (suc n) [] h e = refl
  no_more (suc n) (x ∷ xs) h e = absurd (omega (arith, e))

  take-drop : (n : ℕ) (xs : List ℕ) → take n xs ++ drop n xs ≡ xs
  take-drop zero xs = refl
  take-drop (suc n) [] = refl
  take-drop (suc n) (x ∷ xs) = ap (λ l. x ∷ l) (take-drop n xs)

  module _ (grow : ℕ → ℕ) where
    -- The capacity for the next read, as `append` leaves it.
    abbrev room_for : ℕ → List ℕ → ℕ
    room_for cap b = if leb cap (length b) then grow cap else cap

    abbrev next : ℕ → ℕ → List ℕ → ℕ × List ℕ × Option Failure → M W (List ℕ × Option Failure)
    next rounds cap b r =
        let (count, buf, e) = r in
        if ltb (length buf) count then crash else elim e [
          | none ↦ read_to_end fw grow rounds f cap (b ++ take count buf)
          | some e ↦ return (b ++ take count buf, if is_eof e then none else some e)
        ]

    -- The error that comes with a count.
    abbrev at_end : ℕ → Option Failure
    at_end count = if count == 0 then some eof else none

    next_ends :
        (rounds cap : ℕ) (b buf : List ℕ) (w : W)
        → next rounds cap b (0, buf, at_end 0) w ≡ (ok (b, none), w)
    next_ends rounds cap b buf w = ground (arith, append-nil b)

    next_goes_on :
        (rounds cap count : ℕ) (b buf : List ℕ) (w : W)
        → count ≢ 0
        → count ≤ length buf
        → next rounds cap b (count, buf, at_end count) w
          ≡ read_to_end fw grow rounds f cap (b ++ take count buf) w
    next_goes_on rounds cap count b buf w some' fits = ground (arith, some', fits)

    room_for_lt :
        (cap : ℕ) (b : List ℕ) → ((c : ℕ) → c < grow c) → length b ≤ cap → length b < room_for cap b
    room_for_lt cap b grows fits = ground (arith, fits, grows cap)

    -- The loop behind `b` gives the bytes that are not yet read.
    abbrev pub Ends : List ℕ → W → M W (List ℕ × Option Failure) → Type 0
    Ends b w m = (w' : W) × (m w ≡ (ok (b ++ rest w, none), w')) × (rest w' ≡ [])

    next-Ends :
        (rounds cap n : ℕ) (b : List ℕ) (w : W)
        → f.addr ≢ 0
        → IsServed fw f rest
        → ((b' : List ℕ) (w' : W)
            → length b' ≤ cap
            → length (rest w') < rounds
            → Ends b' w' (read_to_end fw grow rounds f cap b'))
        → n ≢ 0
        → length b + n ≡ cap
        → length (rest w) < suc rounds
        → Ends b w (read fw f (zeros n) >>= next rounds cap b)
    next-Ends rounds cap n b w opened served further some' room_left enough =
        let (buf, w1, got, room, bytes, after) = read-IsServed n w opened served some' in
        let count = length (take n (rest w)) in
        let step = >>=-ok (read fw f (zeros n)) (next rounds cap b) w got in
        elim (Bool-cases (count == 0)) [
          | inl none_left ↦
              let none_in : rest w ≡ [] = no_more n (rest w) some' (ground (arith, none_left)) in
              (
                w1,
                step
                    ∙ ap (λ c. next rounds cap b (c, buf, at_end c) w1) (ground (arith, none_left))
                    ∙ next_ends rounds cap b buf w1
                    ∙ ap (λ l. (ok (l, none), w1)) (sym (ap (λ l. b ++ l) none_in ∙ append-nil b)),
                after ∙ ap (drop n) none_in ∙ drop-nil n,
              )
          | inr some_left ↦
              let longer : count ≢ 0 = ground (arith, some_left) in
              let more = next_goes_on rounds cap count b buf w1 longer room in
              let fits : length (b ++ take count buf) ≤ cap = omega (
                arith,
                length-append b (take count buf),
                ap length bytes,
                length-take n (rest w),
                room_left,
              ) in
              let fewer : length (rest w1) < rounds = omega (
                arith,
                ap length after,
                length-drop n (rest w),
                length-take n (rest w),
                longer,
                enough,
              ) in
              let (w2, whole, done) = further (b ++ take count buf) w1 fits fewer in
              let all : (b ++ take count buf) ++ rest w1 ≡ b ++ rest w =
                append_assoc b (take count buf) (rest w1)
                ∙ ap (λ l. b ++ l) (rw (bytes, after) (take-drop n (rest w))) in
              (w2, step ∙ more ∙ whole ∙ ap (λ l. (ok (l, none), w2)) all, done)
        ]

    pub read_to_end-rest :
        (rounds cap : ℕ) (b : List ℕ) (w : W)
        → f.addr ≢ 0
        → IsServed fw f rest
        → ((c : ℕ) → c < grow c)
        → length b ≤ cap
        → length (rest w) < rounds
        → Ends b w (read_to_end fw grow rounds f cap b)
    unfolding read_to_end
    read_to_end-rest zero cap b w opened served grows fits enough = absurd (omega (arith, enough))
    read_to_end-rest (suc rounds) cap b w opened served grows fits enough =
        let cap' = room_for cap b in
        let bigger = room_for_lt cap b grows fits in
        let further : (b' : List ℕ) (w' : W)
            → length b' ≤ cap'
            → length (rest w') < rounds
            → Ends b' w' (read_to_end fw grow rounds f cap' b') =
          λ b' w' fits fewer. read_to_end-rest rounds cap' b' w' opened served grows fits fewer in
        next-Ends rounds cap' (cap' - length b) b w opened served further (omega (arith, bigger))
          (omega (arith, bigger)) enough
