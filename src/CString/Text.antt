-- ===== src/CString/Text.antt =====
-- strlen, strcpy and strncpy on NUL-terminated text.
use tutorial_os.Common.{
  ℕ, zero, suc, ◌+◌, ◌-◌, ◌≤◌, ◌<◌, ◌≡◌, ◌≢◌, ◌⊎◌, inl, inr, ◌∙◌, sym, some, Bool-cases, ◌==◌,
  if◌then◌else◌, arith,
}
use tutorial_os.Memory.{Memory, load_byte, store_byte}
use tutorial_os.Memory.Laws.{load_byte-store_byte_ne}
use tutorial_os.CString.{
  strlen_loop, strlen, strcpy_loop, strcpy, strncpy_copy, strncpy, copy_forward,
}
use tutorial_os.CString.Fill.{in_range, load_byte-fill_loop}
use tutorial_os.CString.Copy.{copied, load_byte-copy_forward}
use tutorial_os.CString.Compare.{IsText, IsText-tail, IsText-head, IsText-empty, shift, at_zero}

strlen_loop_lem :
    (fuel : ℕ) (m : Memory) (s n len : ℕ)
    → IsText m s n
    → len ≤ n
    → n < len + fuel
    → strlen_loop fuel m s len ≡ some n
unfolding strlen_loop
strlen_loop_lem zero m s n len t p k = absurd (omega arith)
strlen_loop_lem (suc fuel) m s n len t p k = elim (Bool-cases (len == n)) [
  | inl e ↦ ground (arith, t.ends)
  | inr ne ↦ ground (
    arith,
    t.chars len (ground arith),
    strlen_loop_lem fuel m s n (len + 1) t (ground arith) (omega arith),
  )
]

-- strlen is the number of characters before the first NUL; fuel for one more than these is enough.
pub strlen_lem :
    (fuel : ℕ) (m : Memory) (s n : ℕ) → IsText m s n → n < fuel → strlen fuel m s ≡ some n
unfolding strlen
strlen_lem fuel m s n t k = strlen_loop_lem fuel m s n 0 t (omega arith) (omega arith)

-- A text survives a write of its first byte to a place that the rest of it does not touch.
IsText-copy :
    (m : Memory) (d s n : ℕ)
    → IsText m s (suc n)
    → (d ≤ s) ⊎ (s + suc (suc n) ≤ d)
    → IsText (store_byte m d (load_byte m s)) (s + 1) n
IsText-copy m d s n t apart =
    let rest = IsText-tail m s n t in
    record {
      chars = λ i k e.
          rest.chars i k
            (sym (load_byte-store_byte_ne m d (load_byte m s) (s + 1 + i) (λ p. omega arith)) ∙ e);
      ends = load_byte-store_byte_ne m d (load_byte m s) (s + 1 + n) (λ p. omega arith) ∙ rest.ends;
    }

strcpy_loop_lem :
    (fuel : ℕ) (m : Memory) (d s n : ℕ)
    → IsText m s n
    → n < fuel
    → (d ≤ s) ⊎ (s + suc n ≤ d)
    → strcpy_loop fuel m d s ≡ some (copy_forward (suc n) m d s)
unfolding strcpy_loop copy_forward
strcpy_loop_lem zero m d s n t k apart = absurd (omega arith)
strcpy_loop_lem (suc fuel) m d s zero t k apart = ground (arith, IsText-empty m s t)
strcpy_loop_lem (suc fuel) m d s (suc n) t k apart = ground (
  arith,
  IsText-head m s n t,
  strcpy_loop_lem fuel (store_byte m d (load_byte m s)) (d + 1) (s + 1) n
      (IsText-copy m d s n t apart) (omega arith) (omega arith),
)

-- strcpy of a text that the destination does not overlap returns the destination, which then holds
-- the text and its NUL; nothing else is written.
pub strcpy_lem :
    (fuel : ℕ) (m : Memory) (d s n : ℕ)
    → IsText m s n
    → n < fuel
    → (d ≤ s) ⊎ (s + suc n ≤ d)
    → (m' : Memory) × (strcpy fuel m d s ≡ some (d, m'))
      × ((a : ℕ) → load_byte m' a ≡ copied m d s (suc n) a)
unfolding strcpy
strcpy_lem fuel m d s n t k apart = (
  copy_forward (suc n) m d s,
  rw (strcpy_loop_lem fuel m d s n t k apart, strcpy),
  λ a. load_byte-copy_forward (suc n) m d s a apart,
)

-- The copying loop counts the characters down, and not the NUL.
strncpy_copy_short :
    (n : ℕ) (m : Memory) (d s len : ℕ)
    → IsText m s len
    → len < n
    → (d ≤ s) ⊎ (s + suc len ≤ d)
    → strncpy_copy n m d s ≡ (copy_forward (suc len) m d s, d + suc len, n - len)
unfolding strncpy_copy copy_forward
strncpy_copy_short zero m d s len t k apart = absurd (omega arith)
strncpy_copy_short (suc n) m d s zero t k apart = ground (arith, IsText-empty m s t)
strncpy_copy_short (suc n) m d s (suc len) t k apart = ground (
  arith,
  IsText-head m s len t,
  strncpy_copy_short n (store_byte m d (load_byte m s)) (d + 1) (s + 1) len
      (IsText-copy m d s len t apart) (omega arith) (omega arith),
)

-- no NUL among the first `n` characters
abbrev pub NoNul : Memory → ℕ → ℕ → Type 0
NoNul m s n = (i : ℕ) → i < n → load_byte m (s + i) ≢ 0

NoNul-copy :
    (m : Memory) (d s n : ℕ)
    → NoNul m s (suc n)
    → (d ≤ s) ⊎ (s + suc n ≤ d)
    → NoNul (store_byte m d (load_byte m s)) (s + 1) n
NoNul-copy m d s n chars apart i k e = chars (suc i) (omega arith) (
    sym (shift m s i)
    ∙ sym (load_byte-store_byte_ne m d (load_byte m s) (s + 1 + i) (λ p. omega arith))
    ∙ e)

strncpy_copy_full :
    (n : ℕ) (m : Memory) (d s : ℕ)
    → NoNul m s n
    → (d ≤ s) ⊎ (s + n ≤ d)
    → strncpy_copy n m d s ≡ (copy_forward n m d s, d + n, 0)
unfolding strncpy_copy copy_forward
strncpy_copy_full zero m d s chars apart = ground arith
strncpy_copy_full (suc n) m d s chars apart = ground (
  arith,
  at_zero m s,
  chars 0 (omega arith),
  strncpy_copy_full n (store_byte m d (load_byte m s)) (d + 1) (s + 1)
      (NoNul-copy m d s n chars apart) (omega arith),
)

-- Where the first `n` characters hold no NUL, strncpy copies exactly these.
pub strncpy_full :
    (n : ℕ) (m : Memory) (d s a : ℕ)
    → NoNul m s n
    → (d ≤ s) ⊎ (s + n ≤ d)
    → load_byte (strncpy m d s n).1 a ≡ copied m d s n a
unfolding strncpy
strncpy_full n m d s a chars apart =
    rw (strncpy_copy_full n m d s chars apart) (load_byte-copy_forward n m d s a apart)

-- Where the text is shorter than n and the destination is not above the text's first byte or lies
-- behind its NUL, strncpy copies the text and fills with NULs up to and including index n, one byte
-- more than its bound.
pub strncpy_short :
    (n : ℕ) (m : Memory) (d s len a : ℕ)
    → IsText m s len
    → len < n
    → (d ≤ s) ⊎ (s + suc len ≤ d)
    → load_byte (strncpy m d s n).1 a
      ≡ (if in_range (d + suc len) (n - len) a then 0 else copied m d s (suc len) a)
unfolding strncpy
strncpy_short n m d s len a t k apart = rw (strncpy_copy_short n m d s len t k apart) (
    ground (
      arith,
      load_byte-fill_loop (n - len) (copy_forward (suc len) m d s) (d + suc len) 0 a,
      load_byte-copy_forward (suc len) m d s a apart,
    ))
