-- ===== src/CString/Tests.antt =====
-- The functions of string.c on a small memory.
use tutorial_os.Common.{
  ℕ, zero, suc, ◌+◌, ◌-◌, ◌%◌, ◌≤◌, ◌≡◌, ◌≢◌, ◌↔◌, inr, refl, ℤ, pos, some, [], ◌∷◌, get_or,
  if◌then◌else◌, arith,
}
use tutorial_os.Memory.{Memory, load_byte, store_byte}
use tutorial_os.CString.{memset, memmove, copy_backward, strlen, strcmp, strcpy, strncpy}
use tutorial_os.CString.Fill.{in_range, load_byte-memset}
use tutorial_os.CString.Copy.{copied, load_byte-memmove}
use tutorial_os.CString.Compare.{SameBytes, IsText, strcmp_lem}
use tutorial_os.CString.Text.{NoNul, strlen_lem, strcpy_lem, strncpy_short}

-- "abc" at 0, "abd" at 4
abbrev texts : Memory
texts a = get_or (97 ∷ 98 ∷ 99 ∷ 0 ∷ 97 ∷ 98 ∷ 100 ∷ 0 ∷ []) a 255

differ : (a b : ℕ) → a + 1 ≤ b → b ≢ a
differ a b h e = omega arith

texts-NoNul : NoNul texts 0 3
unfolding load_byte
texts-NoNul zero h = differ 0 97 (omega arith)
texts-NoNul (suc zero) h = differ 0 98 (omega arith)
texts-NoNul (suc (suc zero)) h = differ 0 99 (omega arith)
texts-NoNul (suc (suc (suc i))) h = absurd (omega arith)

texts-IsText : IsText texts 0 3
unfolding load_byte
texts-IsText = record { chars = texts-NoNul; ends = refl }

same_two : SameBytes texts 0 4 2
unfolding load_byte
same_two zero h = refl
same_two (suc zero) h = refl
same_two (suc (suc i)) h = absurd (omega arith)

third_differs : load_byte texts 2 ≢ load_byte texts 6
unfolding load_byte
third_differs = λ e. omega arith

-- an overlapping move, and what it leaves
moved : load_byte (memmove texts 1 0 4).1 2 ≡ 98
unfolding load_byte store_byte memmove copy_backward
moved = refl

load_byte-memset_example :
    ((memset texts 2 300 3).0 ≡ 2)
    × (load_byte (memset texts 2 300 3).1 4
        ≡ (if in_range 2 3 4 then 300 % 256 else load_byte texts 4))
load_byte-memset_example = load_byte-memset texts 2 300 3 4

load_byte-memmove_example :
    ((memmove texts 1 0 4).0 ≡ 1) × (load_byte (memmove texts 1 0 4).1 2 ≡ copied texts 1 0 4 2)
load_byte-memmove_example = load_byte-memmove texts 1 0 4 2

strcmp_example : (z : ℤ) × (strcmp 4 texts 0 4 ≡ some z) × ((z ≡ pos 0) ↔ SameBytes texts 0 4 4)
strcmp_example = strcmp_lem 4 texts 0 4 3 texts-IsText (omega arith)

strlen_example : strlen 4 texts 0 ≡ some 3
strlen_example = strlen_lem 4 texts 0 3 texts-IsText (omega arith)

strcpy_example :
    (m' : Memory) × (strcpy 4 texts 20 0 ≡ some (20, m'))
    × ((a : ℕ) → load_byte m' a ≡ copied texts 20 0 4 a)
strcpy_example = strcpy_lem 4 texts 20 0 3 texts-IsText (omega arith) (inr (omega arith))

-- the byte behind a buffer of 5 is written
strncpy_short_example :
    load_byte (strncpy texts 20 0 5).1 25
    ≡ (if in_range (20 + 4) (5 - 3) 25 then 0 else copied texts 20 0 4 25)
strncpy_short_example =
    strncpy_short 5 texts 20 0 3 25 texts-IsText (omega arith) (inr (omega arith))
