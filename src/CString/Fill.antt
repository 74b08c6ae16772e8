-- ===== src/CString/Fill.antt =====
-- memset: every byte of the range, and no other.
use tutorial_os.Common.{
  ℕ, zero, suc, ◌+◌, ◌%◌, ◌≡◌, refl, Bool, ◌&&◌, ltb, leb, if◌then◌else◌, arith,
}
use tutorial_os.Memory.{Memory, load_byte, store_byte}
use tutorial_os.Memory.Laws.{load_byte-store_byte_self, load_byte-store_byte_ne}
use tutorial_os.CString.{fill_loop, memset}

-- `a` is one of the `n` addresses from `d`
abbrev pub in_range : ℕ → ℕ → ℕ → Bool
in_range d n a = leb d a && ltb a (d + n)

pub load_byte-fill_loop :
    (n : ℕ) (m : Memory) (p c a : ℕ)
    → load_byte (fill_loop n m p c) a ≡ (if in_range p n a then c % 256 else load_byte m a)
unfolding fill_loop
load_byte-fill_loop zero m p c a = ground arith
load_byte-fill_loop (suc n) m p c a = ground (
  arith,
  load_byte-fill_loop n (store_byte m p c) (p + 1) c a,
  load_byte-store_byte_self m p c,
  load_byte-store_byte_ne m p c a,
)

-- memset returns its first argument; afterwards the `n` bytes from `s` hold the low 8 bits of `c`,
-- and every other byte of memory is what it was.
pub load_byte-memset :
    (m : Memory) (s c n a : ℕ)
    → ((memset m s c n).0 ≡ s)
      × (load_byte (memset m s c n).1 a ≡ (if in_range s n a then c % 256 else load_byte m a))
unfolding memset
load_byte-memset m s c n a = (refl, load_byte-fill_loop n m s c a)
