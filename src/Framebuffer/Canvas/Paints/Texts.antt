-- ===== src/Framebuffer/Canvas/Paints/Texts.antt =====
-- Text, scaled bitmaps and bitmap regions touch only visible bytes.
use tutorial_os.Common.{
  ℕ, zero, suc, ◌+◌, ◌||◌, List, Option, none, some, leb, ltb, ◌==◌, if◌then◌else◌,
}
use tutorial_os.Memory.{Memory, null, load_byte}
use tutorial_os.Framebuffer.{add32, Framebuffer}
use tutorial_os.Framebuffer.Int32.{mul32}
use tutorial_os.Framebuffer.Canvas.{Canvas, ◌>>=◌, for_up, put}
use tutorial_os.Framebuffer.Font.{font_8x8, font_8x16}
use tutorial_os.Framebuffer.Text.{
  char_width, glyph_bit, for_glyph, plot_solid, plot_set, fb_draw_char, fb_draw_char_transparent,
  fb_draw_char_large, fb_draw_char_large_transparent, square, fb_draw_char_scaled,
  draw_char_scaled_transparent, string_loop, fb_draw_string, fb_draw_string_transparent,
  fb_draw_string_large, fb_draw_string_large_transparent, fb_draw_string_scaled,
  fb_draw_string_scaled_transparent, fb_text_width, fb_draw_string_centered, fb_draw_string_center,
}
use tutorial_os.Framebuffer.Blit.{
  Bitmap, scaled_px, fb_blit_bitmap_scaled, region_px, fb_blit_bitmap_region,
}
use tutorial_os.Framebuffer.Canvas.Paints.{
  Ready, Painted, Each, Each-some, Each-none, for_up-keeps, if-keeps,
}
use tutorial_os.Framebuffer.Canvas.Paints.Basic.{put-Painted, put_if-Painted}
use tutorial_os.Framebuffer.Canvas.Paints.Column.{put_blend-Painted}

-- The number that a drawing needs first may not be found.
pub given-Each :
    {P : Canvas → Type 0} (o : Option ℕ) (g : ℕ → Option Canvas)
    → ((n : ℕ) → Each P (g n))
    → Each P (o >>= g)
given-Each none g h = Each-none
given-Each (some n) g h = h n

module _ {f : Framebuffer} {m : Memory} (r : Ready f) where
  -- two loops, one within the other
  grid-Painted :
      (body : ℕ → ℕ → Canvas → Canvas) (n k : ℕ) (c : Canvas)
      → ((i j : ℕ) (d : Canvas) → Painted f m d → Painted f m (body i j d))
      → Painted f m c
      → Painted f m (for_up (λ i. for_up (body i) k 0) n 0 c)
  grid-Painted body n k c keep p =
      for_up-keeps (Painted f m) (λ i. for_up (body i) k 0)
        (λ i d q. for_up-keeps (Painted f m) (body i) (keep i) k 0 d q) n 0 c p

  solid-Painted :
      (font : List (List ℕ)) (rows x y ch fg bg : ℕ) (c : Canvas)
      → Painted f m c
      → Painted f m (for_glyph rows (plot_solid font x y ch fg bg) c)
  solid-Painted font rows x y ch fg bg c p =
      grid-Painted (plot_solid font x y ch fg bg) rows 8 c
        (λ row col d q. put-Painted r (add32 x col) (add32 y row) _ d q) p

  set-Painted :
      (font : List (List ℕ)) (rows x y ch fg : ℕ) (c : Canvas)
      → Painted f m c
      → Painted f m (for_glyph rows (plot_set font x y ch fg) c)
  set-Painted font rows x y ch fg c p =
      grid-Painted (plot_set font x y ch fg) rows 8 c
        (λ row col d q.
          put_if-Painted r (glyph_bit font ch row col) (add32 x col) (add32 y row) fg d q)
        p

  pub char-Painted :
      (x y ch fg bg : ℕ) (c : Canvas) → Painted f m c → Painted f m (fb_draw_char x y ch fg bg c)
  unfolding fb_draw_char
  char-Painted x y ch fg bg c p = solid-Painted font_8x8 8 x y ch fg bg c p

  pub char_transparent-Painted :
      (x y ch fg : ℕ) (c : Canvas)
      → Painted f m c
      → Painted f m (fb_draw_char_transparent x y ch fg c)
  unfolding fb_draw_char_transparent
  char_transparent-Painted x y ch fg c p = set-Painted font_8x8 8 x y ch fg c p

  pub char_large-Painted :
      (x y ch fg bg : ℕ) (c : Canvas)
      → Painted f m c
      → Painted f m (fb_draw_char_large x y ch fg bg c)
  unfolding fb_draw_char_large
  char_large-Painted x y ch fg bg c p = solid-Painted font_8x16 16 x y ch fg bg c p

  pub char_large_transparent-Painted :
      (x y ch fg : ℕ) (c : Canvas)
      → Painted f m c
      → Painted f m (fb_draw_char_large_transparent x y ch fg c)
  unfolding fb_draw_char_large_transparent
  char_large_transparent-Painted x y ch fg c p = set-Painted font_8x16 16 x y ch fg c p

  square-Painted :
      (x y scale row col color : ℕ) (c : Canvas)
      → Painted f m c
      → Painted f m (square x y scale row col color c)
  square-Painted x y scale row col color c p =
      grid-Painted
        (λ sy sx.
          put (add32 (add32 x (mul32 col scale)) sx) (add32 (add32 y (mul32 row scale)) sy) color)
        scale scale c (λ sy sx d q. put-Painted r _ _ color d q) p

  pub char_scaled-Painted :
      (x y ch fg bg scale : ℕ) (c : Canvas)
      → Painted f m c
      → Painted f m (fb_draw_char_scaled x y ch fg bg scale c)
  unfolding fb_draw_char_scaled
  char_scaled-Painted x y ch fg bg scale c p =
      grid-Painted
        (λ row col. square x y scale row col (if glyph_bit font_8x8 ch row col then fg else bg)) 8 8
        c (λ row col d q. square-Painted x y scale row col _ d q) p

  pub char_scaled_transparent-Painted :
      (x y ch fg scale : ℕ) (c : Canvas)
      → Painted f m c
      → Painted f m (draw_char_scaled_transparent x y ch fg scale c)
  unfolding draw_char_scaled_transparent
  char_scaled_transparent-Painted x y ch fg scale c p =
      grid-Painted
        (λ row col d. if glyph_bit font_8x8 ch row col then square x y scale row col fg d else d) 8
        8 c
        (λ row col d q.
          if-keeps (Painted f m) (glyph_bit font_8x8 ch row col) (square x y scale row col fg d) d
            (square-Painted x y scale row col fg d q) q)
        p

  string_loop-Painted :
      (fuel : ℕ) (draw : ℕ → ℕ → Canvas → Canvas) (char_w x str : ℕ) (c : Canvas)
      → ((x ch : ℕ) (d : Canvas) → Painted f m d → Painted f m (draw x ch d))
      → Painted f m c
      → Each (Painted f m) (string_loop fuel draw char_w x str c)
  unfolding string_loop
  string_loop-Painted zero draw char_w x str c keep p = Each-none
  string_loop-Painted (suc fuel) draw char_w x str c keep p =
      let P = Each (Painted f m) in
      if-keeps P (load_byte c.1 str == 0) (some c) _ (Each-some c p) (
        if-keeps P (ltb c.0.width (add32 x char_w)) (some c) _ (Each-some c p) (
          string_loop-Painted fuel draw char_w (add32 x char_w) (str + 1)
            (draw x (load_byte c.1 str) c) keep (keep x (load_byte c.1 str) c p)))

  pub string-Painted :
      (fuel x y str fg bg : ℕ) (c : Canvas)
      → Painted f m c
      → Each (Painted f m) (fb_draw_string fuel x y str fg bg c)
  unfolding fb_draw_string
  string-Painted fuel x y str fg bg c p =
      string_loop-Painted fuel (λ x' ch. fb_draw_char x' y ch fg bg) char_width x str c
        (λ x' ch d q. char-Painted x' y ch fg bg d q) p

  pub string_transparent-Painted :
      (fuel x y str fg : ℕ) (c : Canvas)
      → Painted f m c
      → Each (Painted f m) (fb_draw_string_transparent fuel x y str fg c)
  unfolding fb_draw_string_transparent
  string_transparent-Painted fuel x y str fg c p =
      string_loop-Painted fuel (λ x' ch. fb_draw_char_transparent x' y ch fg) char_width x str c
        (λ x' ch d q. char_transparent-Painted x' y ch fg d q) p

  pub string_large-Painted :
      (fuel x y str fg bg : ℕ) (c : Canvas)
      → Painted f m c
      → Each (Painted f m) (fb_draw_string_large fuel x y str fg bg c)
  unfolding fb_draw_string_large
  string_large-Painted fuel x y str fg bg c p =
      string_loop-Painted fuel (λ x' ch. fb_draw_char_large x' y ch fg bg) char_width x str c
        (λ x' ch d q. char_large-Painted x' y ch fg bg d q) p

  pub string_large_transparent-Painted :
      (fuel x y str fg : ℕ) (c : Canvas)
      → Painted f m c
      → Each (Painted f m) (fb_draw_string_large_transparent fuel x y str fg c)
  unfolding fb_draw_string_large_transparent
  string_large_transparent-Painted fuel x y str fg c p =
      string_loop-Painted fuel (λ x' ch. fb_draw_char_large_transparent x' y ch fg) char_width x str
        c (λ x' ch d q. char_large_transparent-Painted x' y ch fg d q) p

  pub string_scaled-Painted :
      (fuel x y str fg bg scale : ℕ) (c : Canvas)
      → Painted f m c
      → Each (Painted f m) (fb_draw_string_scaled fuel x y str fg bg scale c)
  unfolding fb_draw_string_scaled
  string_scaled-Painted fuel x y str fg bg scale c p =
      string_loop-Painted fuel (λ x' ch. fb_draw_char_scaled x' y ch fg bg scale)
        (mul32 char_width scale) x str c (λ x' ch d q. char_scaled-Painted x' y ch fg bg scale d q)
        p

  pub string_scaled_transparent-Painted :
      (fuel x y str fg scale : ℕ) (c : Canvas)
      → Painted f m c
      → Each (Painted f m) (fb_draw_string_scaled_transparent fuel x y str fg scale c)
  unfolding fb_draw_string_scaled_transparent
  string_scaled_transparent-Painted fuel x y str fg scale c p =
      if-keeps (Each (Painted f m)) (leb scale 1) _ _
        (string_transparent-Painted fuel x y str fg c p)
        (string_loop-Painted fuel (λ x' ch. draw_char_scaled_transparent x' y ch fg scale)
          (mul32 char_width scale) x str c
          (λ x' ch d q. char_scaled_transparent-Painted x' y ch fg scale d q) p)

  pub string_centered-Painted :
      (fuel y str fg bg : ℕ) (c : Canvas)
      → Painted f m c
      → Each (Painted f m) (fb_draw_string_centered fuel y str fg bg c)
  unfolding fb_draw_string_centered
  string_centered-Painted fuel y str fg bg c p =
      given-Each (fb_text_width fuel c.1 str) _ (λ n. string-Painted fuel _ y str fg bg c p)

  pub string_center-Painted :
      (fuel str fg bg : ℕ) (c : Canvas)
      → Painted f m c
      → Each (Painted f m) (fb_draw_string_center fuel str fg bg c)
  unfolding fb_draw_string_center
  string_center-Painted fuel str fg bg c p =
      given-Each (fb_text_width fuel c.1 str) _ (λ n. string-Painted fuel _ _ str fg bg c p)

  scaled_px-Painted :
      (b : Bitmap) (x y sx sy dy dx : ℕ) (c : Canvas)
      → Painted f m c
      → Painted f m (scaled_px b x y sx sy dy dx c)
  unfolding scaled_px
  scaled_px-Painted b x y sx sy dy dx c p = put_if-Painted r _ (add32 x dx) (add32 y dy) _ c p

  pub scaled-Painted :
      (x y : ℕ) (b : Option Bitmap) (sx sy : ℕ) (c : Canvas)
      → Painted f m c
      → Painted f m (fb_blit_bitmap_scaled x y b sx sy c)
  unfolding fb_blit_bitmap_scaled
  scaled-Painted x y none sx sy c p = p
  scaled-Painted x y (some b) sx sy c p =
      if-keeps (Painted f m) (b.pixels == null || sx == 0 || sy == 0) c _ p (
        grid-Painted (scaled_px b x y sx sy) (mul32 b.height sy) (mul32 b.width sx) c
          (scaled_px-Painted b x y sx sy) p)

  region_px-Painted :
      (b : Bitmap) (sx sy dx dy row col : ℕ) (c : Canvas)
      → Painted f m c
      → Painted f m (region_px b sx sy dx dy row col c)
  unfolding region_px
  region_px-Painted b sx sy dx dy row col c p =
      if-keeps (Painted f m) _ _ c (put_blend-Painted r (add32 dx col) (add32 dy row) _ c p) p

  pub region-Painted :
      (b : Option Bitmap) (sx sy sw sh dx dy : ℕ) (c : Canvas)
      → Painted f m c
      → Painted f m (fb_blit_bitmap_region b sx sy sw sh dx dy c)
  unfolding fb_blit_bitmap_region
  region-Painted none sx sy sw sh dx dy c p = p
  region-Painted (some b) sx sy sw sh dx dy c p =
      if-keeps (Painted f m) (b.pixels == null) c _ p
        (grid-Painted (region_px b sx sy dx dy) sh sw c (region_px-Painted b sx sy dx dy) p)
