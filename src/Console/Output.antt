-- ===== src/Console/Output.antt =====
-- What Write sends to the firmware.
use uki_stub.Common.{
  ℕ, zero, suc, ◌/◌, ◌%◌, ◌≤◌, ◌≡◌, refl, sym, ap, ◌∙◌, ◌≢◌, inl, inr, false, ◌&&◌, ◌||◌, some,
  List, [], ◌∷◌, ◌++◌, append_assoc, append-nil, arith, ltb, leb, ◌==◌, if◌then◌else◌, Bool-cases,
  length, replicate, length-append, length-replicate, All-append, All,
}
use uki_stub.Utf8.{runes}
use uki_stub.Utf16.{encode, encode_rune, unit_bytes}
use uki_stub.Utf16.RoundTrip.{units, units-unit_bytes, length-encode}
use uki_stub.Console.{
  Console, tab, lf, cr, space, cub, bytes_equal, spaces, translate, last_byte, terminated, text,
}

-- The units that one unit of the text becomes, and those of a text.
pub expand_unit : Console → ℕ → List ℕ
expand_unit c r =
    if r == tab && ltb 0 c.replace_tabs
    then replicate c.replace_tabs space
    else if r == lf && c.force_line
    then lf ∷ cr ∷ []
    else r ∷ []

pub expand : Console → List ℕ → List ℕ
expand c [] = []
expand c (r ∷ rs) = expand_unit c r ++ expand c rs

unit_bytes-append : (us vs : List ℕ) → unit_bytes (us ++ vs) ≡ unit_bytes us ++ unit_bytes vs
unfolding unit_bytes
unit_bytes-append [] vs = refl
unit_bytes-append (u ∷ us) vs =
    ap (λ (l : List ℕ). (u % 256) ∷ (u / 256) ∷ l) (unit_bytes-append us vs)

spaces-unit_bytes : (n : ℕ) → spaces n ≡ unit_bytes (replicate n space)
unfolding spaces unit_bytes
spaces-unit_bytes zero = refl
spaces-unit_bytes (suc n) = ap (λ (l : List ℕ). space ∷ 0 ∷ l) (spaces-unit_bytes n)

translate-cons :
    (c : Console) (r : ℕ) (b s : List ℕ)
    → translate c (r ∷ b) s ≡ translate c b (s ++ unit_bytes (expand_unit c r))
unfolding translate expand_unit
translate-cons c r b s =
    ap (translate c b) (unfold unit_bytes in ground (arith, spaces-unit_bytes c.replace_tabs))

translate-expand : (c : Console) (b s : List ℕ) → translate c b s ≡ s ++ unit_bytes (expand c b)
unfolding expand
translate-expand c [] s = unfold translate unit_bytes in sym (append-nil s)
translate-expand c (r ∷ b) s =
    translate-cons c r b s
    ∙ translate-expand c b (s ++ unit_bytes (expand_unit c r))
    ∙ rw (unit_bytes-append (expand_unit c r) (expand c b)) (append_assoc s _ _)

abbrev pub IsText : List ℕ → Type 0
IsText = All (λ (u : ℕ). u ≢ 0)

replicate-IsText : (n : ℕ) → IsText (replicate n space)
replicate-IsText zero = tt
replicate-IsText (suc n) = (λ e. absurd (omega arith), replicate-IsText n)

expand_unit-IsText : (c : Console) (r : ℕ) → r ≢ 0 → IsText (expand_unit c r)
unfolding expand_unit
expand_unit-IsText c r h = elim (Bool-cases (r == tab && ltb 0 c.replace_tabs)) [
  | inl e ↦ rw e (replicate-IsText c.replace_tabs)
  | inr e ↦ rw e (elim (Bool-cases (r == lf && c.force_line)) [
    | inl f ↦ rw f (omega arith)
    | inr f ↦ rw f (h, tt)
  ])
]

expand-IsText : (c : Console) (us : List ℕ) → IsText us → IsText (expand c us)
unfolding expand
expand-IsText c [] h = tt
expand-IsText c (r ∷ us) (hr, h) =
    All-append (λ (u : ℕ). u ≢ 0) (expand_unit c r) (expand c us) (expand_unit-IsText c r hr)
      (expand-IsText c us h)

encode_rune-IsText : (r : ℕ) → r ≢ 0 → IsText (encode_rune r)
unfolding encode_rune
encode_rune-IsText r h = elim (Bool-cases (ltb r 0xd800 || (leb 0xe000 r && ltb r 0x10000))) [
  | inl e ↦ rw e (h, tt)
  | inr e ↦ rw e (elim (Bool-cases (leb 0x10000 r && leb r 0x10ffff)) [
    | inl f ↦ rw f (omega arith)
    | inr f ↦ rw f (omega arith)
  ])
]

encode-IsText : (rs : List ℕ) → IsText rs → IsText (encode rs)
unfolding encode
encode-IsText [] h = tt
encode-IsText (r ∷ rs) (hr, h) =
    All-append (λ (u : ℕ). u ≢ 0) (encode_rune r) (encode rs) (encode_rune-IsText r hr)
      (encode-IsText rs h)

last_byte-cons : (b : ℕ) (p : List ℕ) → (x : ℕ) × (last_byte (b ∷ p) ≡ some x)
unfolding last_byte
last_byte-cons b [] = (b, refl)
last_byte-cons b (c ∷ p) = last_byte-cons c p

-- A byte added behind whole units is no unit.
terminated-unit_bytes :
    (us : List ℕ) → us ≢ [] → (q : List ℕ) × (terminated (unit_bytes us) ≡ some q) × (units q ≡ us)
unfolding terminated
terminated-unit_bytes [] h = absurd (h refl)
terminated-unit_bytes (u ∷ us) h =
    let (x, last) = last_byte-cons (u % 256) ((u / 256) ∷ unit_bytes us) in
    let last' : last_byte (unit_bytes (u ∷ us)) ≡ some x = unfold unit_bytes in last in
    let whole : units (unit_bytes (u ∷ us)) ≡ u ∷ us =
      (rw append-nil at (units-unit_bytes (u ∷ us) [])) ∙ unfold units in append-nil (u ∷ us) in
    elim (Bool-cases (x == 0)) [
      | inl e ↦ (unit_bytes (u ∷ us), rw (last', terminated) (rw e), whole)
      | inr e ↦ (
        unit_bytes (u ∷ us) ++ 0 ∷ [],
        rw (last', terminated) (rw e),
        units-unit_bytes (u ∷ us) (0 ∷ []) ∙ unfold units in append-nil (u ∷ us),
      )
    ]

expand_unit-cons : (c : Console) (r : ℕ) → 1 ≤ length (expand_unit c r)
unfolding expand_unit
expand_unit-cons c r = ground (arith, length-replicate c.replace_tabs space)

length-expand : (c : Console) (us : List ℕ) → length us ≤ length (expand c us)
unfolding expand
length-expand c [] = omega arith
length-expand c (r ∷ us) =
    omega (
      arith,
      length-append (expand_unit c r) (expand c us),
      expand_unit-cons c r,
      length-expand c us,
    )

nonempty : (us : List ℕ) → 1 ≤ length us → us ≢ []
nonempty us h e = absurd (omega (arith, ap length e))

-- For a text that decodes to at least one character and is not Cursor Back, Output sends the
-- expansion of its UTF-16 form: as the console is set, tabs become spaces and a line feed is
-- followed by a carriage return.
write_text :
    (c : Console) (p : List ℕ)
    → bytes_equal cub p ≡ false
    → 1 ≤ length (runes p)
    → (q : List ℕ) × (terminated (text c p) ≡ some q) × (units q ≡ expand c (encode (runes p)))
unfolding text
write_text c p h n =
    rw (h, translate-expand c (encode (runes p)) [])
      (terminated-unit_bytes (expand c (encode (runes p)))
        (nonempty _ (omega (arith, length-expand c (encode (runes p)), length-encode (runes p)))))

-- For a text of at least one character, without NUL and other than Cursor Back, the buffer that
-- Output sends holds no NUL unit.
write_text-IsText :
    (c : Console) (p q : List ℕ)
    → bytes_equal cub p ≡ false
    → IsText (runes p)
    → 1 ≤ length (runes p)
    → terminated (text c p) ≡ some q
    → IsText (units q)
write_text-IsText c p q h t n e =
    let (q', e', u) = write_text c p h n in
    let same : q ≡ q' = cc (e, e') in rw (same, u) (expand-IsText c _ (encode-IsText _ t))

-- For a text that decodes to at least one character, all but NUL, and is not Cursor Back, Output
-- sends the expansion of its UTF-16 form: as the console is set, tabs become spaces and a line feed
-- is followed by a carriage return. No unit of what it sends is a NUL.
pub write_text_unterminated :
    (c : Console) (p : List ℕ)
    → bytes_equal cub p ≡ false
    → IsText (runes p)
    → 1 ≤ length (runes p)
    → (q : List ℕ) × (terminated (text c p) ≡ some q)
      × (units q ≡ expand c (encode (runes p)))
      × IsText (units q)
write_text_unterminated c p h t n =
    let (q, sent, same) = write_text c p h n in (q, sent, same, write_text-IsText c p q h t n sent)
