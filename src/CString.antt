-- ===== src/CString.antt =====
-- common/src/string.c: the memory and string functions that the compiler and the kernel call.
-- A pointer is an address, memory is passed on explicitly, and the loops over NUL-terminated text
-- take fuel (`none` when it runs out).
pub mod Fill
pub mod Copy
pub mod Compare
pub mod Text
mod Tests
use tutorial_os.Common.{
  ℕ, zero, suc, ◌+◌, ◌-◌, ℤ, pos, sub_ℕ, Bool, true, false, not, ◌&&◌, Option, none, some, ltb,
  ◌==◌, if◌then◌else◌,
}
use tutorial_os.Memory.{Memory, load_byte, store_byte}

-- `while (n--) *p++ = (uint8_t)c;`
pub fill_loop : ℕ → Memory → ℕ → ℕ → Memory
fill_loop zero m p c = m
fill_loop (suc n) m p c = fill_loop n (store_byte m p c) (p + 1) c

-- `c` is the bit pattern of the int argument.
pub memset : Memory → ℕ → ℕ → ℕ → ℕ × Memory
unfolding fill_loop
memset m s c n = (s, fill_loop n m s c)

-- `while (n--) *d++ = *s++;`
pub copy_forward : ℕ → Memory → ℕ → ℕ → Memory
copy_forward zero m d s = m
copy_forward (suc n) m d s = copy_forward n (store_byte m d (load_byte m s)) (d + 1) (s + 1)

-- `while (n--) *--d = *--s;`
pub copy_backward : ℕ → Memory → ℕ → ℕ → Memory
copy_backward zero m d s = m
copy_backward (suc n) m d s =
    copy_backward n (store_byte m (d - 1) (load_byte m (s - 1))) (d - 1) (s - 1)

pub memcpy : Memory → ℕ → ℕ → ℕ → ℕ × Memory
unfolding copy_forward
memcpy m dest src n = (dest, copy_forward n m dest src)

pub memmove : Memory → ℕ → ℕ → ℕ → ℕ × Memory
unfolding copy_forward copy_backward
memmove m dest src n =
    if ltb dest src
    then (dest, copy_forward n m dest src)
    else if ltb src dest
    then (dest, copy_backward n m (dest + n) (src + n))
    else (dest, m)

pub memcmp : ℕ → Memory → ℕ → ℕ → ℤ
memcmp zero m p1 p2 = pos 0
memcmp (suc n) m p1 p2 =
    let rest = memcmp n m (p1 + 1) (p2 + 1) in
    if not (load_byte m p1 == load_byte m p2) then sub_ℕ (load_byte m p1) (load_byte m p2) else rest

pub strlen_loop : ℕ → Memory → ℕ → ℕ → Option ℕ
strlen_loop zero m s len = none
strlen_loop (suc fuel) m s len =
    let rest = strlen_loop fuel m s (len + 1) in
    if not (load_byte m (s + len) == 0) then rest else some len

pub strlen : ℕ → Memory → ℕ → Option ℕ
unfolding strlen_loop
strlen fuel m s = strlen_loop fuel m s 0

pub strcmp : ℕ → Memory → ℕ → ℕ → Option ℤ
strcmp zero m s1 s2 = none
strcmp (suc fuel) m s1 s2 =
    let rest = strcmp fuel m (s1 + 1) (s2 + 1) in
    if not (load_byte m s1 == 0) && (load_byte m s1 == load_byte m s2)
    then rest
    else some (sub_ℕ (load_byte m s1) (load_byte m s2))

pub strncmp : ℕ → Memory → ℕ → ℕ → ℤ
strncmp zero m s1 s2 = pos 0
strncmp (suc n) m s1 s2 =
    let rest = strncmp n m (s1 + 1) (s2 + 1) in
    if not (load_byte m s1 == 0) && (load_byte m s1 == load_byte m s2)
    then rest
    else sub_ℕ (load_byte m s1) (load_byte m s2)

-- `while ((*d++ = *src++) != '\0');`
pub strcpy_loop : ℕ → Memory → ℕ → ℕ → Option Memory
strcpy_loop zero m d src = none
strcpy_loop (suc fuel) m d src =
    let m' = store_byte m d (load_byte m src) in
    let rest = strcpy_loop fuel m' (d + 1) (src + 1) in
    if not (load_byte m src == 0) then rest else some m'

pub strcpy : ℕ → Memory → ℕ → ℕ → Option (ℕ × Memory)
unfolding strcpy_loop
strcpy fuel m dest src = elim (strcpy_loop fuel m dest src) [
  | none ↦ none
  | some m' ↦ some (dest, m')
]

-- `while (n && (*d++ = *src++) != '\0') n--;`, with the memory, `d` and `n` that it leaves
pub strncpy_copy : ℕ → Memory → ℕ → ℕ → Memory × ℕ × ℕ
strncpy_copy zero m d src = (m, d, 0)
strncpy_copy (suc n) m d src =
    let m' = store_byte m d (load_byte m src) in
    let rest = strncpy_copy n m' (d + 1) (src + 1) in
    if not (load_byte m src == 0) then rest else (m', d + 1, suc n)

pub strncpy : Memory → ℕ → ℕ → ℕ → ℕ × Memory
unfolding strncpy_copy fill_loop
strncpy m dest src n =
    let (m', d, left) = strncpy_copy n m dest src in (dest, fill_loop left m' d 0)
