-- ===== src/Framebuffer/Font.antt =====
-- drivers/src/framebuffer/framebuffer.c: the two fonts, a list of rows for each character from 32 to 126.
use tutorial_os.Common.{ℕ, List, [], ◌∷◌}

-- the eight rows of a glyph, the leftmost pixel in the highest bit
abbrev glyph : ℕ → ℕ → ℕ → ℕ → ℕ → ℕ → ℕ → ℕ → List ℕ
glyph a b c d e f g h = a ∷ b ∷ c ∷ d ∷ e ∷ f ∷ g ∷ h ∷ []

abbrev tall : ℕ → ℕ → ℕ → ℕ → ℕ → ℕ → ℕ → ℕ → ℕ → ℕ → ℕ → ℕ → ℕ → ℕ → ℕ → ℕ → List ℕ
tall a b c d e f g h i j k l m n o p =
    a ∷ b ∷ c ∷ d ∷ e ∷ f ∷ g ∷ h ∷ i ∷ j ∷ k ∷ l ∷ m ∷ n ∷ o ∷ p ∷ []

unfoldable pub font_8x8 : List (List ℕ)
font_8x8 =
    glyph 0x00 0x00 0x00 0x00 0x00 0x00 0x00 0x00
    ∷ glyph 0x18 0x18 0x18 0x18 0x18 0x00 0x18 0x00
    ∷ glyph 0x6C 0x6C 0x24 0x00 0x00 0x00 0x00 0x00
    ∷ glyph 0x6C 0x6C 0xFE 0x6C 0xFE 0x6C 0x6C 0x00
    ∷ glyph 0x18 0x7E 0xC0 0x7C 0x06 0xFC 0x18 0x00
    ∷ glyph 0x00 0xC6 0xCC 0x18 0x30 0x66 0xC6 0x00
    ∷ glyph 0x38 0x6C 0x38 0x76 0xDC 0xCC 0x76 0x00
    ∷ glyph 0x18 0x18 0x30 0x00 0x00 0x00 0x00 0x00
    ∷ glyph 0x0C 0x18 0x30 0x30 0x30 0x18 0x0C 0x00
    ∷ glyph 0x30 0x18 0x0C 0x0C 0x0C 0x18 0x30 0x00
    ∷ glyph 0x00 0x66 0x3C 0xFF 0x3C 0x66 0x00 0x00
    ∷ glyph 0x00 0x18 0x18 0x7E 0x18 0x18 0x00 0x00
    ∷ glyph 0x00 0x00 0x00 0x00 0x00 0x18 0x18 0x30
    ∷ glyph 0x00 0x00 0x00 0x7E 0x00 0x00 0x00 0x00
    ∷ glyph 0x00 0x00 0x00 0x00 0x00 0x18 0x18 0x00
    ∷ glyph 0x06 0x0C 0x18 0x30 0x60 0xC0 0x80 0x00
    ∷ glyph 0x7C 0xCE 0xDE 0xF6 0xE6 0xC6 0x7C 0x00
    ∷ glyph 0x18 0x38 0x18 0x18 0x18 0x18 0x7E 0x00
    ∷ glyph 0x7C 0xC6 0x06 0x7C 0xC0 0xC0 0xFE 0x00
    ∷ glyph 0xFC 0x06 0x06 0x3C 0x06 0x06 0xFC 0x00
    ∷ glyph 0x0C 0xCC 0xCC 0xCC 0xFE 0x0C 0x0C 0x00
    ∷ glyph 0xFE 0xC0 0xFC 0x06 0x06 0xC6 0x7C 0x00
    ∷ glyph 0x7C 0xC0 0xC0 0xFC 0xC6 0xC6 0x7C 0x00
    ∷ glyph 0xFE 0x06 0x06 0x0C 0x18 0x18 0x18 0x00
    ∷ glyph 0x7C 0xC6 0xC6 0x7C 0xC6 0xC6 0x7C 0x00
    ∷ glyph 0x7C 0xC6 0xC6 0x7E 0x06 0x06 0x7C 0x00
    ∷ glyph 0x00 0x18 0x18 0x00 0x00 0x18 0x18 0x00
    ∷ glyph 0x00 0x18 0x18 0x00 0x00 0x18 0x18 0x30
    ∷ glyph 0x0C 0x18 0x30 0x60 0x30 0x18 0x0C 0x00
    ∷ glyph 0x00 0x00 0x7E 0x00 0x7E 0x00 0x00 0x00
    ∷ glyph 0x30 0x18 0x0C 0x06 0x0C 0x18 0x30 0x00
    ∷ glyph 0x3C 0x66 0x0C 0x18 0x18 0x00 0x18 0x00
    ∷ glyph 0x7C 0xC6 0xDE 0xDE 0xDE 0xC0 0x7E 0x00
    ∷ glyph 0x38 0x6C 0xC6 0xC6 0xFE 0xC6 0xC6 0x00
    ∷ glyph 0xFC 0xC6 0xC6 0xFC 0xC6 0xC6 0xFC 0x00
    ∷ glyph 0x7C 0xC6 0xC0 0xC0 0xC0 0xC6 0x7C 0x00
    ∷ glyph 0xF8 0xCC 0xC6 0xC6 0xC6 0xCC 0xF8 0x00
    ∷ glyph 0xFE 0xC0 0xC0 0xF8 0xC0 0xC0 0xFE 0x00
    ∷ glyph 0xFE 0xC0 0xC0 0xF8 0xC0 0xC0 0xC0 0x00
    ∷ glyph 0x7C 0xC6 0xC0 0xCE 0xC6 0xC6 0x7C 0x00
    ∷ glyph 0xC6 0xC6 0xC6 0xFE 0xC6 0xC6 0xC6 0x00
    ∷ glyph 0x7E 0x18 0x18 0x18 0x18 0x18 0x7E 0x00
    ∷ glyph 0x06 0x06 0x06 0x06 0xC6 0xC6 0x7C 0x00
    ∷ glyph 0xC6 0xCC 0xD8 0xF0 0xD8 0xCC 0xC6 0x00
    ∷ glyph 0xC0 0xC0 0xC0 0xC0 0xC0 0xC0 0xFE 0x00
    ∷ glyph 0xC6 0xEE 0xFE 0xD6 0xC6 0xC6 0xC6 0x00
    ∷ glyph 0xC6 0xE6 0xF6 0xDE 0xCE 0xC6 0xC6 0x00
    ∷ glyph 0x7C 0xC6 0xC6 0xC6 0xC6 0xC6 0x7C 0x00
    ∷ glyph 0xFC 0xC6 0xC6 0xFC 0xC0 0xC0 0xC0 0x00
    ∷ glyph 0x7C 0xC6 0xC6 0xC6 0xD6 0xDE 0x7C 0x06
    ∷ glyph 0xFC 0xC6 0xC6 0xFC 0xD8 0xCC 0xC6 0x00
    ∷ glyph 0x7C 0xC6 0xC0 0x7C 0x06 0xC6 0x7C 0x00
    ∷ glyph 0x7E 0x18 0x18 0x18 0x18 0x18 0x18 0x00
    ∷ glyph 0xC6 0xC6 0xC6 0xC6 0xC6 0xC6 0x7C 0x00
    ∷ glyph 0xC6 0xC6 0xC6 0xC6 0x6C 0x38 0x10 0x00
    ∷ glyph 0xC6 0xC6 0xC6 0xD6 0xFE 0xEE 0xC6 0x00
    ∷ glyph 0xC6 0xC6 0x6C 0x38 0x6C 0xC6 0xC6 0x00
    ∷ glyph 0x66 0x66 0x66 0x3C 0x18 0x18 0x18 0x00
    ∷ glyph 0xFE 0x06 0x0C 0x18 0x30 0x60 0xFE 0x00
    ∷ glyph 0x3C 0x30 0x30 0x30 0x30 0x30 0x3C 0x00
    ∷ glyph 0xC0 0x60 0x30 0x18 0x0C 0x06 0x02 0x00
    ∷ glyph 0x3C 0x0C 0x0C 0x0C 0x0C 0x0C 0x3C 0x00
    ∷ glyph 0x10 0x38 0x6C 0xC6 0x00 0x00 0x00 0x00
    ∷ glyph 0x00 0x00 0x00 0x00 0x00 0x00 0x00 0xFE
    ∷ glyph 0x18 0x18 0x0C 0x00 0x00 0x00 0x00 0x00
    ∷ glyph 0x00 0x00 0x7C 0x06 0x7E 0xC6 0x7E 0x00
    ∷ glyph 0xC0 0xC0 0xFC 0xC6 0xC6 0xC6 0xFC 0x00
    ∷ glyph 0x00 0x00 0x7C 0xC6 0xC0 0xC6 0x7C 0x00
    ∷ glyph 0x06 0x06 0x7E 0xC6 0xC6 0xC6 0x7E 0x00
    ∷ glyph 0x00 0x00 0x7C 0xC6 0xFE 0xC0 0x7C 0x00
    ∷ glyph 0x1C 0x30 0x30 0x7C 0x30 0x30 0x30 0x00
    ∷ glyph 0x00 0x00 0x7E 0xC6 0xC6 0x7E 0x06 0x7C
    ∷ glyph 0xC0 0xC0 0xFC 0xC6 0xC6 0xC6 0xC6 0x00
    ∷ glyph 0x18 0x00 0x38 0x18 0x18 0x18 0x3C 0x00
    ∷ glyph 0x18 0x00 0x38 0x18 0x18 0x18 0x18 0x70
    ∷ glyph 0xC0 0xC0 0xC6 0xCC 0xF8 0xCC 0xC6 0x00
    ∷ glyph 0x38 0x18 0x18 0x18 0x18 0x18 0x3C 0x00
    ∷ glyph 0x00 0x00 0xEC 0xFE 0xD6 0xC6 0xC6 0x00
    ∷ glyph 0x00 0x00 0xFC 0xC6 0xC6 0xC6 0xC6 0x00
    ∷ glyph 0x00 0x00 0x7C 0xC6 0xC6 0xC6 0x7C 0x00
    ∷ glyph 0x00 0x00 0xFC 0xC6 0xC6 0xFC 0xC0 0xC0
    ∷ glyph 0x00 0x00 0x7E 0xC6 0xC6 0x7E 0x06 0x06
    ∷ glyph 0x00 0x00 0xDC 0xE6 0xC0 0xC0 0xC0 0x00
    ∷ glyph 0x00 0x00 0x7E 0xC0 0x7C 0x06 0xFC 0x00
    ∷ glyph 0x30 0x30 0x7C 0x30 0x30 0x30 0x1C 0x00
    ∷ glyph 0x00 0x00 0xC6 0xC6 0xC6 0xC6 0x7E 0x00
    ∷ glyph 0x00 0x00 0xC6 0xC6 0xC6 0x6C 0x38 0x00
    ∷ glyph 0x00 0x00 0xC6 0xC6 0xD6 0xFE 0x6C 0x00
    ∷ glyph 0x00 0x00 0xC6 0x6C 0x38 0x6C 0xC6 0x00
    ∷ glyph 0x00 0x00 0xC6 0xC6 0xC6 0x7E 0x06 0x7C
    ∷ glyph 0x00 0x00 0xFE 0x0C 0x38 0x60 0xFE 0x00
    ∷ glyph 0x0E 0x18 0x18 0x70 0x18 0x18 0x0E 0x00
    ∷ glyph 0x18 0x18 0x18 0x18 0x18 0x18 0x18 0x00
    ∷ glyph 0x70 0x18 0x18 0x0E 0x18 0x18 0x70 0x00
    ∷ glyph 0x72 0x9C 0x00 0x00 0x00 0x00 0x00 0x00
    ∷ []

unfoldable pub font_8x16 : List (List ℕ)
font_8x16 =
    tall 0x00 0x00 0x00 0x00 0x00 0x00 0x00 0x00 0x00 0x00 0x00 0x00 0x00 0x00 0x00 0x00
    ∷ tall 0x00 0x00 0x18 0x3C 0x3C 0x3C 0x18 0x18 0x18 0x00 0x18 0x18 0x00 0x00 0x00 0x00
    ∷ tall 0x00 0x66 0x66 0x66 0x24 0x00 0x00 0x00 0x00 0x00 0x00 0x00 0x00 0x00 0x00 0x00
    ∷ tall 0x00 0x00 0x00 0x6C 0x6C 0xFE 0x6C 0x6C 0x6C 0xFE 0x6C 0x6C 0x00 0x00 0x00 0x00
    ∷ tall 0x18 0x18 0x7C 0xC6 0xC2 0xC0 0x7C 0x06 0x06 0x86 0xC6 0x7C 0x18 0x18 0x00 0x00
    ∷ tall 0x00 0x00 0x00 0x00 0xC2 0xC6 0x0C 0x18 0x30 0x60 0xC6 0x86 0x00 0x00 0x00 0x00
    ∷ tall 0x00 0x00 0x38 0x6C 0x6C 0x38 0x76 0xDC 0xCC 0xCC 0xCC 0x76 0x00 0x00 0x00 0x00
    ∷ tall 0x00 0x30 0x30 0x30 0x60 0x00 0x00 0x00 0x00 0x00 0x00 0x00 0x00 0x00 0x00 0x00
    ∷ tall 0x00 0x00 0x0C 0x18 0x30 0x30 0x30 0x30 0x30 0x30 0x18 0x0C 0x00 0x00 0x00 0x00
    ∷ tall 0x00 0x00 0x30 0x18 0x0C 0x0C 0x0C 0x0C 0x0C 0x0C 0x18 0x30 0x00 0x00 0x00 0x00
    ∷ tall 0x00 0x00 0x00 0x00 0x00 0x66 0x3C 0xFF 0x3C 0x66 0x00 0x00 0x00 0x00 0x00 0x00
    ∷ tall 0x00 0x00 0x00 0x00 0x00 0x18 0x18 0x7E 0x18 0x18 0x00 0x00 0x00 0x00 0x00 0x00
    ∷ tall 0x00 0x00 0x00 0x00 0x00 0x00 0x00 0x00 0x00 0x18 0x18 0x18 0x30 0x00 0x00 0x00
    ∷ tall 0x00 0x00 0x00 0x00 0x00 0x00 0x00 0xFE 0x00 0x00 0x00 0x00 0x00 0x00 0x00 0x00
    ∷ tall 0x00 0x00 0x00 0x00 0x00 0x00 0x00 0x00 0x00 0x00 0x18 0x18 0x00 0x00 0x00 0x00
    ∷ tall 0x00 0x00 0x00 0x00 0x02 0x06 0x0C 0x18 0x30 0x60 0xC0 0x80 0x00 0x00 0x00 0x00
    ∷ tall 0x00 0x00 0x38 0x6C 0xC6 0xC6 0xD6 0xD6 0xC6 0xC6 0x6C 0x38 0x00 0x00 0x00 0x00
    ∷ tall 0x00 0x00 0x18 0x38 0x78 0x18 0x18 0x18 0x18 0x18 0x18 0x7E 0x00 0x00 0x00 0x00
    ∷ tall 0x00 0x00 0x7C 0xC6 0x06 0x0C 0x18 0x30 0x60 0xC0 0xC6 0xFE 0x00 0x00 0x00 0x00
    ∷ tall 0x00 0x00 0x7C 0xC6 0x06 0x06 0x3C 0x06 0x06 0x06 0xC6 0x7C 0x00 0x00 0x00 0x00
    ∷ tall 0x00 0x00 0x0C 0x1C 0x3C 0x6C 0xCC 0xFE 0x0C 0x0C 0x0C 0x1E 0x00 0x00 0x00 0x00
    ∷ tall 0x00 0x00 0xFE 0xC0 0xC0 0xC0 0xFC 0x06 0x06 0x06 0xC6 0x7C 0x00 0x00 0x00 0x00
    ∷ tall 0x00 0x00 0x38 0x60 0xC0 0xC0 0xFC 0xC6 0xC6 0xC6 0xC6 0x7C 0x00 0x00 0x00 0x00
    ∷ tall 0x00 0x00 0xFE 0xC6 0x06 0x06 0x0C 0x18 0x30 0x30 0x30 0x30 0x00 0x00 0x00 0x00
    ∷ tall 0x00 0x00 0x7C 0xC6 0xC6 0xC6 0x7C 0xC6 0xC6 0xC6 0xC6 0x7C 0x00 0x00 0x00 0x00
    ∷ tall 0x00 0x00 0x7C 0xC6 0xC6 0xC6 0x7E 0x06 0x06 0x06 0x0C 0x78 0x00 0x00 0x00 0x00
    ∷ tall 0x00 0x00 0x00 0x00 0x18 0x18 0x00 0x00 0x00 0x18 0x18 0x00 0x00 0x00 0x00 0x00
    ∷ tall 0x00 0x00 0x00 0x00 0x18 0x18 0x00 0x00 0x00 0x18 0x18 0x30 0x00 0x00 0x00 0x00
    ∷ tall 0x00 0x00 0x00 0x06 0x0C 0x18 0x30 0x60 0x30 0x18 0x0C 0x06 0x00 0x00 0x00 0x00
    ∷ tall 0x00 0x00 0x00 0x00 0x00 0x7E 0x00 0x00 0x7E 0x00 0x00 0x00 0x00 0x00 0x00 0x00
    ∷ tall 0x00 0x00 0x00 0x60 0x30 0x18 0x0C 0x06 0x0C 0x18 0x30 0x60 0x00 0x00 0x00 0x00
    ∷ tall 0x00 0x00 0x7C 0xC6 0xC6 0x0C 0x18 0x18 0x18 0x00 0x18 0x18 0x00 0x00 0x00 0x00
    ∷ tall 0x00 0x00 0x00 0x7C 0xC6 0xC6 0xDE 0xDE 0xDE 0xDC 0xC0 0x7C 0x00 0x00 0x00 0x00
    ∷ tall 0x00 0x00 0x10 0x38 0x6C 0xC6 0xC6 0xFE 0xC6 0xC6 0xC6 0xC6 0x00 0x00 0x00 0x00
    ∷ tall 0x00 0x00 0xFC 0x66 0x66 0x66 0x7C 0x66 0x66 0x66 0x66 0xFC 0x00 0x00 0x00 0x00
    ∷ tall 0x00 0x00 0x3C 0x66 0xC2 0xC0 0xC0 0xC0 0xC0 0xC2 0x66 0x3C 0x00 0x00 0x00 0x00
    ∷ tall 0x00 0x00 0xF8 0x6C 0x66 0x66 0x66 0x66 0x66 0x66 0x6C 0xF8 0x00 0x00 0x00 0x00
    ∷ tall 0x00 0x00 0xFE 0x66 0x62 0x68 0x78 0x68 0x60 0x62 0x66 0xFE 0x00 0x00 0x00 0x00
    ∷ tall 0x00 0x00 0xFE 0x66 0x62 0x68 0x78 0x68 0x60 0x60 0x60 0xF0 0x00 0x00 0x00 0x00
    ∷ tall 0x00 0x00 0x3C 0x66 0xC2 0xC0 0xC0 0xDE 0xC6 0xC6 0x66 0x3A 0x00 0x00 0x00 0x00
    ∷ tall 0x00 0x00 0xC6 0xC6 0xC6 0xC6 0xFE 0xC6 0xC6 0xC6 0xC6 0xC6 0x00 0x00 0x00 0x00
    ∷ tall 0x00 0x00 0x3C 0x18 0x18 0x18 0x18 0x18 0x18 0x18 0x18 0x3C 0x00 0x00 0x00 0x00
    ∷ tall 0x00 0x00 0x1E 0x0C 0x0C 0x0C 0x0C 0x0C 0xCC 0xCC 0xCC 0x78 0x00 0x00 0x00 0x00
    ∷ tall 0x00 0x00 0xE6 0x66 0x66 0x6C 0x78 0x78 0x6C 0x66 0x66 0xE6 0x00 0x00 0x00 0x00
    ∷ tall 0x00 0x00 0xF0 0x60 0x60 0x60 0x60 0x60 0x60 0x62 0x66 0xFE 0x00 0x00 0x00 0x00
    ∷ tall 0x00 0x00 0xC6 0xEE 0xFE 0xFE 0xD6 0xC6 0xC6 0xC6 0xC6 0xC6 0x00 0x00 0x00 0x00
    ∷ tall 0x00 0x00 0xC6 0xE6 0xF6 0xFE 0xDE 0xCE 0xC6 0xC6 0xC6 0xC6 0x00 0x00 0x00 0x00
    ∷ tall 0x00 0x00 0x7C 0xC6 0xC6 0xC6 0xC6 0xC6 0xC6 0xC6 0xC6 0x7C 0x00 0x00 0x00 0x00
    ∷ tall 0x00 0x00 0xFC 0x66 0x66 0x66 0x7C 0x60 0x60 0x60 0x60 0xF0 0x00 0x00 0x00 0x00
    ∷ tall 0x00 0x00 0x7C 0xC6 0xC6 0xC6 0xC6 0xC6 0xC6 0xD6 0xDE 0x7C 0x0C 0x0E 0x00 0x00
    ∷ tall 0x00 0x00 0xFC 0x66 0x66 0x66 0x7C 0x6C 0x66 0x66 0x66 0xE6 0x00 0x00 0x00 0x00
    ∷ tall 0x00 0x00 0x7C 0xC6 0xC6 0x60 0x38 0x0C 0x06 0xC6 0xC6 0x7C 0x00 0x00 0x00 0x00
    ∷ tall 0x00 0x00 0x7E 0x7E 0x5A 0x18 0x18 0x18 0x18 0x18 0x18 0x3C 0x00 0x00 0x00 0x00
    ∷ tall 0x00 0x00 0xC6 0xC6 0xC6 0xC6 0xC6 0xC6 0xC6 0xC6 0xC6 0x7C 0x00 0x00 0x00 0x00
    ∷ tall 0x00 0x00 0xC6 0xC6 0xC6 0xC6 0xC6 0xC6 0xC6 0x6C 0x38 0x10 0x00 0x00 0x00 0x00
    ∷ tall 0x00 0x00 0xC6 0xC6 0xC6 0xC6 0xD6 0xD6 0xD6 0xFE 0xEE 0x6C 0x00 0x00 0x00 0x00
    ∷ tall 0x00 0x00 0xC6 0xC6 0x6C 0x7C 0x38 0x38 0x7C 0x6C 0xC6 0xC6 0x00 0x00 0x00 0x00
    ∷ tall 0x00 0x00 0x66 0x66 0x66 0x66 0x3C 0x18 0x18 0x18 0x18 0x3C 0x00 0x00 0x00 0x00
    ∷ tall 0x00 0x00 0xFE 0xC6 0x86 0x0C 0x18 0x30 0x60 0xC2 0xC6 0xFE 0x00 0x00 0x00 0x00
    ∷ tall 0x00 0x00 0x3C 0x30 0x30 0x30 0x30 0x30 0x30 0x30 0x30 0x3C 0x00 0x00 0x00 0x00
    ∷ tall 0x00 0x00 0x00 0x80 0xC0 0x60 0x30 0x18 0x0C 0x06 0x02 0x00 0x00 0x00 0x00 0x00
    ∷ tall 0x00 0x00 0x3C 0x0C 0x0C 0x0C 0x0C 0x0C 0x0C 0x0C 0x0C 0x3C 0x00 0x00 0x00 0x00
    ∷ tall 0x10 0x38 0x6C 0xC6 0x00 0x00 0x00 0x00 0x00 0x00 0x00 0x00 0x00 0x00 0x00 0x00
    ∷ tall 0x00 0x00 0x00 0x00 0x00 0x00 0x00 0x00 0x00 0x00 0x00 0x00 0x00 0xFF 0x00 0x00
    ∷ tall 0x00 0x30 0x18 0x0C 0x00 0x00 0x00 0x00 0x00 0x00 0x00 0x00 0x00 0x00 0x00 0x00
    ∷ tall 0x00 0x00 0x00 0x00 0x00 0x78 0x0C 0x7C 0xCC 0xCC 0xCC 0x76 0x00 0x00 0x00 0x00
    ∷ tall 0x00 0x00 0xE0 0x60 0x60 0x78 0x6C 0x66 0x66 0x66 0x66 0x7C 0x00 0x00 0x00 0x00
    ∷ tall 0x00 0x00 0x00 0x00 0x00 0x7C 0xC6 0xC0 0xC0 0xC0 0xC6 0x7C 0x00 0x00 0x00 0x00
    ∷ tall 0x00 0x00 0x1C 0x0C 0x0C 0x3C 0x6C 0xCC 0xCC 0xCC 0xCC 0x76 0x00 0x00 0x00 0x00
    ∷ tall 0x00 0x00 0x00 0x00 0x00 0x7C 0xC6 0xFE 0xC0 0xC0 0xC6 0x7C 0x00 0x00 0x00 0x00
    ∷ tall 0x00 0x00 0x1C 0x36 0x32 0x30 0x78 0x30 0x30 0x30 0x30 0x78 0x00 0x00 0x00 0x00
    ∷ tall 0x00 0x00 0x00 0x00 0x00 0x76 0xCC 0xCC 0xCC 0xCC 0xCC 0x7C 0x0C 0xCC 0x78 0x00
    ∷ tall 0x00 0x00 0xE0 0x60 0x60 0x6C 0x76 0x66 0x66 0x66 0x66 0xE6 0x00 0x00 0x00 0x00
    ∷ tall 0x00 0x00 0x18 0x18 0x00 0x38 0x18 0x18 0x18 0x18 0x18 0x3C 0x00 0x00 0x00 0x00
    ∷ tall 0x00 0x00 0x06 0x06 0x00 0x0E 0x06 0x06 0x06 0x06 0x06 0x06 0x66 0x66 0x3C 0x00
    ∷ tall 0x00 0x00 0xE0 0x60 0x60 0x66 0x6C 0x78 0x78 0x6C 0x66 0xE6 0x00 0x00 0x00 0x00
    ∷ tall 0x00 0x00 0x38 0x18 0x18 0x18 0x18 0x18 0x18 0x18 0x18 0x3C 0x00 0x00 0x00 0x00
    ∷ tall 0x00 0x00 0x00 0x00 0x00 0xEC 0xFE 0xD6 0xD6 0xD6 0xD6 0xC6 0x00 0x00 0x00 0x00
    ∷ tall 0x00 0x00 0x00 0x00 0x00 0xDC 0x66 0x66 0x66 0x66 0x66 0x66 0x00 0x00 0x00 0x00
    ∷ tall 0x00 0x00 0x00 0x00 0x00 0x7C 0xC6 0xC6 0xC6 0xC6 0xC6 0x7C 0x00 0x00 0x00 0x00
    ∷ tall 0x00 0x00 0x00 0x00 0x00 0xDC 0x66 0x66 0x66 0x66 0x66 0x7C 0x60 0x60 0xF0 0x00
    ∷ tall 0x00 0x00 0x00 0x00 0x00 0x76 0xCC 0xCC 0xCC 0xCC 0xCC 0x7C 0x0C 0x0C 0x1E 0x00
    ∷ tall 0x00 0x00 0x00 0x00 0x00 0xDC 0x76 0x66 0x60 0x60 0x60 0xF0 0x00 0x00 0x00 0x00
    ∷ tall 0x00 0x00 0x00 0x00 0x00 0x7C 0xC6 0x60 0x38 0x0C 0xC6 0x7C 0x00 0x00 0x00 0x00
    ∷ tall 0x00 0x00 0x10 0x30 0x30 0xFC 0x30 0x30 0x30 0x30 0x36 0x1C 0x00 0x00 0x00 0x00
    ∷ tall 0x00 0x00 0x00 0x00 0x00 0xCC 0xCC 0xCC 0xCC 0xCC 0xCC 0x76 0x00 0x00 0x00 0x00
    ∷ tall 0x00 0x00 0x00 0x00 0x00 0x66 0x66 0x66 0x66 0x66 0x3C 0x18 0x00 0x00 0x00 0x00
    ∷ tall 0x00 0x00 0x00 0x00 0x00 0xC6 0xC6 0xD6 0xD6 0xD6 0xFE 0x6C 0x00 0x00 0x00 0x00
    ∷ tall 0x00 0x00 0x00 0x00 0x00 0xC6 0x6C 0x38 0x38 0x38 0x6C 0xC6 0x00 0x00 0x00 0x00
    ∷ tall 0x00 0x00 0x00 0x00 0x00 0xC6 0xC6 0xC6 0xC6 0xC6 0xC6 0x7E 0x06 0x0C 0xF8 0x00
    ∷ tall 0x00 0x00 0x00 0x00 0x00 0xFE 0xCC 0x18 0x30 0x60 0xC6 0xFE 0x00 0x00 0x00 0x00
    ∷ tall 0x00 0x00 0x0E 0x18 0x18 0x18 0x70 0x18 0x18 0x18 0x18 0x0E 0x00 0x00 0x00 0x00
    ∷ tall 0x00 0x00 0x18 0x18 0x18 0x18 0x00 0x18 0x18 0x18 0x18 0x18 0x00 0x00 0x00 0x00
    ∷ tall 0x00 0x00 0x70 0x18 0x18 0x18 0x0E 0x18 0x18 0x18 0x18 0x70 0x00 0x00 0x00 0x00
    ∷ tall 0x00 0x00 0x76 0xDC 0x00 0x00 0x00 0x00 0x00 0x00 0x00 0x00 0x00 0x00 0x00 0x00
    ∷ []
