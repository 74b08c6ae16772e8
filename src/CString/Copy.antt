-- ===== src/CString/Copy.antt =====
-- memcpy and memmove: the destination gets the bytes that the source held before the call.
use tutorial_os.Common.{
  ℕ, zero, suc, ◌+◌, ◌-◌, ◌≤◌, ◌≡◌, ◌⊎◌, refl, ap, ◌||◌, ltb, if◌then◌else◌, arith,
}
use tutorial_os.Memory.{Memory, load_byte, store_byte}
use tutorial_os.Memory.Laws.{load_byte-store_byte_self, load_byte-store_byte_ne, load_byte-lt}
use tutorial_os.CString.{copy_forward, copy_backward, memcpy, memmove}
use tutorial_os.CString.Fill.{in_range}

-- the byte that stands at `a` when the `n` bytes from `s` have been copied to `d`
abbrev pub copied : Memory → ℕ → ℕ → ℕ → ℕ → ℕ
copied m d s n a = if in_range d n a then load_byte m (s + (a - d)) else load_byte m a

load_byte-copy_byte :
    (m : Memory) (d s a : ℕ)
    → load_byte (store_byte m d (load_byte m s)) a
      ≡ (if in_range d 1 a then load_byte m s else load_byte m a)
load_byte-copy_byte m d s a = ground (
  arith,
  load_byte-store_byte_self m d (load_byte m s),
  load_byte-lt m s,
  load_byte-store_byte_ne m d (load_byte m s) a,
)

-- Forward copying is safe where the destination starts below the source, or past its end.
pub load_byte-copy_forward :
    (n : ℕ) (m : Memory) (d s a : ℕ)
    → (d ≤ s) ⊎ (s + n ≤ d)
    → load_byte (copy_forward n m d s) a ≡ copied m d s n a
unfolding copy_forward
load_byte-copy_forward zero m d s a h = ground arith
load_byte-copy_forward (suc n) m d s a h = ground (
  arith,
  load_byte-copy_forward n (store_byte m d (load_byte m s)) (d + 1) (s + 1) a,
  load_byte-copy_byte m d s a,
  load_byte-copy_byte m d s (s + 1 + (a - (d + 1))),
)

-- Backward copying is safe where the destination starts above the source.
pub load_byte-copy_backward :
    (n : ℕ) (m : Memory) (d s a : ℕ)
    → s ≤ d
    → load_byte (copy_backward n m (d + n) (s + n)) a ≡ copied m d s n a
unfolding copy_backward
load_byte-copy_backward zero m d s a h = ground arith
load_byte-copy_backward (suc n) m d s a h =
    rw (pred_add d n, pred_add s n)
      (ground (
        arith,
        load_byte-copy_backward n (store_byte m (d + n) (load_byte m (s + n))) d s a h,
        load_byte-copy_byte m (d + n) (s + n) a,
        load_byte-copy_byte m (d + n) (s + n) (s + (a - d)),
      ))
  where
    pred_add : (x n : ℕ) → x + suc n - 1 ≡ x + n
    pred_add x n = omega arith

-- memcpy returns the destination, which holds the source's old bytes, and writes nothing else: where
-- the regions do not overlap, and also where the destination starts below the source.
pub load_byte-memcpy :
    (m : Memory) (d s n a : ℕ)
    → (d ≤ s) ⊎ (s + n ≤ d)
    → ((memcpy m d s n).0 ≡ d) × (load_byte (memcpy m d s n).1 a ≡ copied m d s n a)
unfolding memcpy
load_byte-memcpy m d s n a h = (refl, load_byte-copy_forward n m d s a h)

-- memmove returns the destination, which holds the source's old bytes, and writes nothing else,
-- however the two regions overlap.
pub load_byte-memmove :
    (m : Memory) (d s n a : ℕ)
    → ((memmove m d s n).0 ≡ d) × (load_byte (memmove m d s n).1 a ≡ copied m d s n a)
unfolding memmove
load_byte-memmove m d s n a = ground (
  arith,
  load_byte-copy_forward n m d s a,
  load_byte-copy_backward n m d s a,
  ap (load_byte m) (same_place d s a),
)
  where
    same_place : (d s a : ℕ) → (if ltb d s || ltb s d || ltb a d then a else s + (a - d)) ≡ a
    same_place d s a = ground arith
