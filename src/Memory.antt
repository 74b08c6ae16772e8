-- ===== src/Memory.antt =====
-- Byte-addressed memory: the target of every pointer of the program. A pointer is the number of its
-- first byte, NULL is 0, and words are little-endian.
pub mod Laws
pub mod Writes
use tutorial_os.Common.{ℕ, zero, suc, ◌+◌, ◌*◌, ◌/◌, ◌%◌, ◌==◌, if◌then◌else◌}

-- the byte at each address; a value is read modulo 256
abbrev pub Memory : Type 0
Memory = ℕ → ℕ

abbrev pub null : ℕ
null = 0

-- `*(uint8_t *)a`
unfoldable pub load_byte : Memory → ℕ → ℕ
load_byte m a = m a % 256

-- `*(uint8_t *)a = v`
unfoldable pub store_byte : Memory → ℕ → ℕ → Memory
store_byte m a v b = if a == b then v % 256 else m b

-- `n` bytes as one little-endian number
unfoldable pub load_bytes : ℕ → Memory → ℕ → ℕ
load_bytes zero m a = 0
load_bytes (suc n) m a = load_byte m a + 256 * load_bytes n m (a + 1)

unfoldable pub store_bytes : ℕ → Memory → ℕ → ℕ → Memory
store_bytes zero m a v = m
store_bytes (suc n) m a v = store_byte (store_bytes n m (a + 1) (v / 256)) a v

-- a uintptr_t or pointer
pub load64 : Memory → ℕ → ℕ
load64 m a = load_bytes 8 m a

pub store64 : Memory → ℕ → ℕ → Memory
store64 m a v = store_bytes 8 m a v

-- a uint32_t
pub load32 : Memory → ℕ → ℕ
load32 m a = load_bytes 4 m a

pub store32 : Memory → ℕ → ℕ → Memory
store32 m a v = store_bytes 4 m a v
