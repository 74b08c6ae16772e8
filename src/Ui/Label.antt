-- ===== src/Ui/Label.antt =====
-- The shortened label of a list item: what stands in the buffer, and what else is written.
use tutorial_os.Common.{
  ℕ, zero, suc, ◌+◌, ◌*◌, ◌^◌, ◌≤◌, ◌<◌, ◌≡◌, ◌∙◌, refl, sym, ap, ◌⊎◌, false, ◌==◌, Bool-cases, inl,
  inr, ltb, arith,
}
use tutorial_os.Memory.{Memory, load_byte, store_byte}
use tutorial_os.Memory.Laws.{
  Apart, load_byte-store_byte_self, load_byte-store_byte_ne, load_byte-lt,
}
use tutorial_os.CString.Compare.{IsText, at_zero, shift}
use tutorial_os.Ui.Text.{ui_memcpy, chars_that_fit, shortened, fill_truncated}

pub ui_memcpy-Apart :
    (n : ℕ) (m : Memory) (d s a : ℕ)
    → Apart n d 1 a
    → load_byte (ui_memcpy m d s n) a ≡ load_byte m a
unfolding ui_memcpy
ui_memcpy-Apart zero m d s a h = refl
ui_memcpy-Apart (suc n) m d s a h =
    ui_memcpy-Apart n (store_byte m d (load_byte m s)) (d + 1) (s + 1) a (omega arith)
    ∙ load_byte-store_byte_ne m d (load_byte m s) a (omega arith)

pub load_byte-ui_memcpy :
    (n : ℕ) (m : Memory) (d s i : ℕ)
    → Apart n d n s
    → i < n
    → load_byte (ui_memcpy m d s n) (d + i) ≡ load_byte m (s + i)
unfolding ui_memcpy
load_byte-ui_memcpy zero m d s i h hi = absurd (omega arith)
load_byte-ui_memcpy (suc n) m d s zero h hi =
    at_zero (ui_memcpy (store_byte m d (load_byte m s)) (d + 1) (s + 1) n) d
    ∙ ui_memcpy-Apart n (store_byte m d (load_byte m s)) (d + 1) (s + 1) d (omega arith)
    ∙ load_byte-store_byte_self m d (load_byte m s)
    ∙ omega (arith, load_byte-lt m s, at_zero m s)
load_byte-ui_memcpy (suc n) m d s (suc i) h hi =
    sym (shift (ui_memcpy (store_byte m d (load_byte m s)) (d + 1) (s + 1) n) d i)
    ∙ load_byte-ui_memcpy n (store_byte m d (load_byte m s)) (d + 1) (s + 1) i (omega arith)
        (omega arith)
    ∙ load_byte-store_byte_ne m d (load_byte m s) (s + 1 + i) (omega arith)
    ∙ shift m s i

shortened-le : (max_chars : ℕ) → shortened max_chars ≤ 252
shortened-le max_chars = ground arith

-- The buffer alone is written.
pub fill_truncated-Apart :
    (m : Memory) (t label max_chars a : ℕ)
    → Apart 256 t 1 a
    → load_byte (fill_truncated m t label (shortened max_chars)) a ≡ load_byte m a
unfolding fill_truncated
fill_truncated-Apart m t label max_chars a h =
    let n = shortened max_chars in
    let le = shortened-le max_chars in
    load_byte-store_byte_ne _ (t + n + 3) 0 a (omega arith)
    ∙ load_byte-store_byte_ne _ (t + n + 2) b'.' a (omega arith)
    ∙ load_byte-store_byte_ne _ (t + n + 1) b'.' a (omega arith)
    ∙ load_byte-store_byte_ne _ (t + n) b'.' a (omega arith)
    ∙ ui_memcpy-Apart n m t label a (omega arith)

-- the bytes of the buffer: the label's first ones, the dots and the NUL
fill_truncated-label :
    (m : Memory) (t label n i : ℕ)
    → Apart n t n label
    → i < n
    → load_byte (fill_truncated m t label n) (t + i) ≡ load_byte m (label + i)
unfolding fill_truncated
fill_truncated-label m t label n i h hi =
    load_byte-store_byte_ne _ (t + n + 3) 0 (t + i) (omega arith)
    ∙ load_byte-store_byte_ne _ (t + n + 2) b'.' (t + i) (omega arith)
    ∙ load_byte-store_byte_ne _ (t + n + 1) b'.' (t + i) (omega arith)
    ∙ load_byte-store_byte_ne _ (t + n) b'.' (t + i) (omega arith)
    ∙ load_byte-ui_memcpy n m t label i h hi

-- the three dots and the NUL from `a` on
record Dots (g : Memory) (a : ℕ) : Type 0 where
  first : load_byte g a ≡ b'.'
  second : load_byte g (a + 1) ≡ b'.'
  third : load_byte g (a + 2) ≡ b'.'
  ends : load_byte g (a + 3) ≡ 0

fill_truncated-Dots : (m : Memory) (t label n : ℕ) → Dots (fill_truncated m t label n) (t + n)
unfolding fill_truncated
fill_truncated-Dots m t label n = record {
  first =
      load_byte-store_byte_ne _ (t + n + 3) 0 (t + n) (omega arith)
      ∙ load_byte-store_byte_ne _ (t + n + 2) b'.' (t + n) (omega arith)
      ∙ load_byte-store_byte_ne _ (t + n + 1) b'.' (t + n) (omega arith)
      ∙ load_byte-store_byte_self _ (t + n) b'.';
  second =
      load_byte-store_byte_ne _ (t + n + 3) 0 (t + n + 1) (omega arith)
      ∙ load_byte-store_byte_ne _ (t + n + 2) b'.' (t + n + 1) (omega arith)
      ∙ load_byte-store_byte_self _ (t + n + 1) b'.';
  third =
      load_byte-store_byte_ne _ (t + n + 3) 0 (t + n + 2) (omega arith)
      ∙ load_byte-store_byte_self _ (t + n + 2) b'.';
  ends = load_byte-store_byte_self _ (t + n + 3) 0;
}

dot_at : (g : Memory) (t n i : ℕ) → Dots g (t + n) → n ≤ i → i < n + 3 → load_byte g (t + i) ≡ b'.'
dot_at g t n i dots le lt = elim (Bool-cases (i == n)) [
  | inl b ↦ ap (load_byte g) {x = t + i} {y = t + n} (ground arith) ∙ dots.first
  | inr b ↦ elim (Bool-cases (i == n + 1)) [
    | inl b1 ↦ ap (load_byte g) {x = t + i} {y = t + n + 1} (ground arith) ∙ dots.second
    | inr b1 ↦ ap (load_byte g) {x = t + i} {y = t + n + 2} (ground arith) ∙ dots.third
  ]
]

-- a text made of a text's first characters and three dots
dotted-IsText :
    (m g : Memory) (t label len n : ℕ)
    → IsText m label len
    → n < len
    → ((i : ℕ) → i < n → load_byte g (t + i) ≡ load_byte m (label + i))
    → Dots g (t + n)
    → IsText g t (n + 3)
dotted-IsText m g t label len n text lt same dots = record {
  chars = λ i hi e. elim (Bool-cases (ltb i n)) [
    | inl b ↦ text.chars i (ground arith) (sym (same i (ground arith)) ∙ e)
    | inr b ↦ absurd (omega (arith, e, dot_at g t n i dots (ground arith) hi))
  ];
  ends = ap (load_byte g) (omega arith) ∙ dots.ends;
}

-- Where a label of `len` characters is too long for `available` pixels and more than three characters
-- fit, the buffer, which does not overlap the label, comes to hold a text: the first characters of the
-- label, as many as leave room for three dots in the width and in the 256 bytes, and the dots.
pub fill_truncated_lem :
    (m : Memory) (t label len available : ℕ)
    → IsText m label len
    → available < 2 ^ 32
    → Apart 256 t len label
    → 3 < chars_that_fit available false
    → chars_that_fit available false < len
    → let n = shortened (chars_that_fit available false) in
      let g = fill_truncated m t label n in
      IsText g t (n + 3)
      × ((i : ℕ) → i < n → load_byte g (t + i) ≡ load_byte m (label + i))
      × ((i : ℕ) → n ≤ i → i < n + 3 → load_byte g (t + i) ≡ b'.')
      × ((n + 3) * 8 ≤ available)
      × (n + 4 ≤ 256)
      × ((n ≡ 252) ⊎ (available < (n + 4) * 8))
fill_truncated_lem m t label len available text lt apart low high =
    let n = shortened (chars_that_fit available false) in
    let small : n < len = ground arith in
    let short : n ≤ 252 = shortened-le (chars_that_fit available false) in
    let same : (i : ℕ)
        → i < n
        → load_byte (fill_truncated m t label n) (t + i) ≡ load_byte m (label + i) =
      λ i hi. fill_truncated-label m t label n i (omega arith) hi in
    let dots = fill_truncated-Dots m t label n in
    (
      dotted-IsText m _ t label len n text small same dots,
      same,
      λ i le hi. dot_at _ t n i dots le hi,
      ground arith,
      omega arith,
      ground arith,
    )
