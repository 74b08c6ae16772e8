-- ===== src/Framebuffer/Text/Glyph.antt =====
-- What a character shows: every pixel of its cell has the colour that the font says.
use tutorial_os.Common.{
  ℕ, zero, suc, ◌+◌, ◌-◌, ◌<◌, ◌^◌, ◌≡◌, refl, ◌∙◌, ap, ap₂, sym, Bool, true, false, not, ◌&&◌, leb,
  ◌==◌, if◌then◌else◌, arith, Bool-cases, inl, inr, ℕ_discrete, eq→==, ne→==_false, lt→leb_false,
}
use tutorial_os.Memory.{Memory}
use tutorial_os.Framebuffer.{add32, Framebuffer, is_clipped, fb_put_pixel, fb_get_pixel}
use tutorial_os.Framebuffer.Pixel.{Shaped, as_stored, get_pixel-put_pixel}
use tutorial_os.Framebuffer.Fill.Shown.{covers}
use tutorial_os.Framebuffer.Canvas.{Canvas, for_up, put_if}
use tutorial_os.Framebuffer.Font.{font_8x8}
use tutorial_os.Framebuffer.Text.{glyph_bit, for_glyph, fb_draw_char, fb_draw_char_transparent}

-- a value that is new where a test holds
abbrev pub either : Bool → ℕ → ℕ → ℕ
either b u v = if b then u else v

pair-put_if :
    (fb : Framebuffer) (m : Memory) (b : Bool) (x y color : ℕ)
    → put_if b x y color (fb, m) ≡ (fb, (put_if b x y color (fb, m)).1)
pair-put_if fb m true x y color = refl
pair-put_if fb m false x y color = refl

here :
    (b y s : Bool) (u v : ℕ) → either (b && (true && y) && s) u v ≡ either (true && y && b && s) u v
here true true s u v = refl
here true false s u v = refl
here false true s u v = refl
here false false s u v = refl

elsewhere : (b y s : Bool) (u v : ℕ) → either (b && (false && y) && s) u v ≡ v
elsewhere true y s u v = refl
elsewhere false y s u v = refl

-- A row is its first column and the rest.
join :
    (on : ℕ → Bool) (val : ℕ → ℕ) (x i n p : ℕ) (y s : Bool) (old : ℕ)
    → either
        (covers (x + (i + 1)) n p && y && on (p - x) && s)
        (val (p - x))
        (either (on i && ((x + i == p) && y) && s) (val i) old)
      ≡ either (covers (x + i) (suc n) p && y && on (p - x) && s) (val (p - x)) old
join on val x i n p y s old = elim (ℕ_discrete (x + i) p) [
  | yes e ↦
      let rest : covers (x + (i + 1)) n p ≡ false = ground arith in
      let all : covers (x + i) (suc n) p ≡ true = ground arith in
      let column : p - x ≡ i = omega arith in
      rw (rest, all, eq→== (x + i) p e, column) (here (on i) y s (val i) old)
  | no ne ↦
      let all : covers (x + i) (suc n) p ≡ covers (x + (i + 1)) n p = ground arith in
      rw (all, ne→==_false (x + i) p ne)
        (ap (either (covers (x + (i + 1)) n p && y && on (p - x) && s) (val (p - x)))
          (elsewhere (on i) y s (val i) old))
]

covers_zero : (x y : ℕ) → covers x 0 y ≡ false
covers_zero x y = ground arith

module _ (fb : Framebuffer) (sh : Shaped fb) (x' y' : ℕ) (hx' : x' < fb.width)
    (hy' : y' < fb.height) where
  abbrev seen : Memory → ℕ
  seen m = fb_get_pixel fb m x' y'

  abbrev shown : Bool
  shown = not (is_clipped fb x' y')

  hit :
      (m : Memory) (color : ℕ)
      → color < 2 ^ 32
      → seen (fb_put_pixel fb m x' y' color)
        ≡ either shown (as_stored fb.pixel_format color) (seen m)
  unfolding fb_put_pixel
  hit m color small = elim (Bool-cases (is_clipped fb x' y')) [
    | inl e ↦ rw (lt→leb_false x' fb.width hx', lt→leb_false y' fb.height hy', e) refl
    | inr e ↦
        get_pixel-put_pixel fb m x' y' color x' y' sh small hx' hy' e hx' hy'
        ∙ rw (eq→== x' x' refl, eq→== y' y' refl, e) refl
  ]

  miss :
      (m : Memory) (x y color : ℕ)
      → color < 2 ^ 32
      → (x == x' && y == y') ≡ false
      → seen (fb_put_pixel fb m x y color) ≡ seen m
  unfolding fb_put_pixel
  miss m x y color small far = elim (Bool-cases (leb fb.width x)) [
    | inl e ↦ rw e refl
    | inr e ↦ elim (Bool-cases (leb fb.height y)) [
      | inl e' ↦ rw (e, e') refl
      | inr e' ↦ elim (Bool-cases (is_clipped fb x y)) [
        | inl e2 ↦ rw (e, e', e2) refl
        | inr e2 ↦
            get_pixel-put_pixel fb m x y color x' y' sh small (ground arith) (ground arith) e2 hx'
              hy'
            ∙ rw far refl
      ]
    ]
  ]

  -- fb_put_pixel at any point
  pub put-seen :
      (m : Memory) (x y color : ℕ)
      → color < 2 ^ 32
      → seen (fb_put_pixel fb m x y color)
        ≡ either ((x == x' && y == y') && shown) (as_stored fb.pixel_format color) (seen m)
  put-seen m x y color small = elim (Bool-cases (x == x' && y == y')) [
    | inl same ↦ rw same (
        ap₂ (λ a b. seen (fb_put_pixel fb m a b color)) (both-left x y same) (both-right x y same)
        ∙ hit m color small)
    | inr far ↦ rw far (miss m x y color small far)
  ]
    where
      both-left : (x y : ℕ) → (x == x' && y == y') ≡ true → x ≡ x'
      both-left x y e = ground arith

      both-right : (x y : ℕ) → (x == x' && y == y') ≡ true → y ≡ y'
      both-right x y e = ground arith

  put_if-seen :
      (m : Memory) (b : Bool) (x y color : ℕ)
      → color < 2 ^ 32
      → seen (put_if b x y color (fb, m)).1
        ≡ either (b && (x == x' && y == y') && shown) (as_stored fb.pixel_format color) (seen m)
  put_if-seen m true x y color small = put-seen m x y color small
  put_if-seen m false x y color small = refl

  -- a row of a glyph from its column `i` on
  row_loop-seen :
      (on : ℕ → Bool) (colour : ℕ → ℕ) (x y n i : ℕ) (m : Memory)
      → ((j : ℕ) → colour j < 2 ^ 32)
      → x + i + n < 2 ^ 32
      → seen (for_up (λ j. put_if (on j) (add32 x j) y (colour j)) n i (fb, m)).1
        ≡ either
            (covers (x + i) n x' && (y == y') && on (x' - x) && shown)
            (as_stored fb.pixel_format (colour (x' - x)))
            (seen m)
  row_loop-seen on colour x y zero i m small fits = rw (covers_zero (x + i) x') refl
  row_loop-seen on colour x y (suc n) i m small fits =
      let put_i = put_if (on i) (add32 x i) y (colour i) (fb, m) in
      let body = λ (j : ℕ). put_if (on j) (add32 x j) y (colour j) in
      let place : add32 x i ≡ x + i = omega arith in
      let f = fb.pixel_format in
      let start =
        ap (λ c. seen (for_up body n (i + 1) c).1)
          (pair-put_if fb m (on i) (add32 x i) y (colour i))
        ∙ row_loop-seen on colour x y n (i + 1) put_i.1 small (omega arith)
        ∙ ap
            (λ v.
              either (covers (x + (i + 1)) n x' && (y == y') && on (x' - x) && shown)
                (as_stored f (colour (x' - x))) v)
            (put_if-seen m (on i) (add32 x i) y (colour i) (small i)) in
      start ∙ rw place (join on (λ j. as_stored f (colour j)) x i n x' (y == y') shown (seen m))

put_if-frame : (b : Bool) (x y color : ℕ) (c : Canvas) → (put_if b x y color c).0 ≡ c.0
put_if-frame true x y color c = refl
put_if-frame false x y color c = refl

row_loop-frame :
    (on : ℕ → Bool) (colour : ℕ → ℕ) (x y n i : ℕ) (c : Canvas)
    → (for_up (λ j. put_if (on j) (add32 x j) y (colour j)) n i c).0 ≡ c.0
row_loop-frame on colour x y zero i c = refl
row_loop-frame on colour x y (suc n) i c =
    row_loop-frame on colour x y n (i + 1) (put_if (on i) (add32 x i) y (colour i) c)
    ∙ put_if-frame (on i) (add32 x i) y (colour i) c

-- the test of a row in the order of `join`
row_test :
    (a b c d : Bool) (u v : ℕ)
    → either (a && b && c && d) u v ≡ either ((a && c) && (b && true) && d) u v
row_test a b c d u v = ground arith

rows_test :
    (a b c d : Bool) (u v : ℕ)
    → either (a && b && c && d) u v ≡ either (b && true && (a && c) && d) u v
rows_test a b c d u v = ground arith

-- the pixels of a glyph, drawn where `on` holds
abbrev plot : ℕ → ℕ → (ℕ → ℕ → Bool) → (ℕ → ℕ → ℕ) → ℕ → ℕ → Canvas → Canvas
plot x y on colour row col c = put_if (on row col) (add32 x col) (add32 y row) (colour row col) c

module _ (fb : Framebuffer) (sh : Shaped fb) (x' y' : ℕ) (hx' : x' < fb.width)
    (hy' : y' < fb.height) (x y : ℕ) (on : ℕ → ℕ → Bool) (colour : ℕ → ℕ → ℕ)
    (fits : x + 8 < 2 ^ 32) (small : (i j : ℕ) → colour i j < 2 ^ 32) where
  abbrev val : ℕ → ℕ
  val i = as_stored fb.pixel_format (colour i (x' - x))

  rows_loop-seen :
      (n i : ℕ) (m : Memory)
      → y + i + n < 2 ^ 32
      → fb_get_pixel fb (for_up (λ row. for_up (plot x y on colour row) 8 0) n i (fb, m)).1 x' y'
        ≡ either
            (covers x 8 x'
              && covers (y + i) n y'
              && on (y' - y) (x' - x)
              && not (is_clipped fb x' y'))
            (val (y' - y))
            (fb_get_pixel fb m x' y')
  rows_loop-seen zero i m low = sym (
      rows_test (covers x 8 x') (covers (y + i) 0 y') (on (y' - y) (x' - x))
        (not (is_clipped fb x' y')) (val (y' - y)) (fb_get_pixel fb m x' y')
      ∙ rw (covers_zero (y + i) y') refl)
  rows_loop-seen (suc n) i m low =
      let s = not (is_clipped fb x' y') in
      let old = fb_get_pixel fb m x' y' in
      let on' = λ (j : ℕ). covers x 8 x' && on j (x' - x) in
      let first = for_up (plot x y on colour i) 8 0 (fb, m) in
      let place : add32 y i ≡ y + i = omega arith in
      let none_more : x + 0 ≡ x = omega arith in
      let pair : first ≡ (fb, first.1) =
        ap (λ f. (f, first.1)) (row_loop-frame (on i) (colour i) x (add32 y i) 8 0 (fb, m)) in
      let row : fb_get_pixel fb first.1 x' y'
          ≡ either (on' i && ((y + i == y') && true) && s) (val i) old =
        row_loop-seen fb sh x' y' hx' hy' (on i) (colour i) x (add32 y i) 8 0 m (small i)
          (omega arith)
        ∙ rw (place, none_more)
            (row_test (covers x 8 x') (y + i == y') (on i (x' - x)) s (val i) old) in
      ap
        (λ c. fb_get_pixel fb (for_up (λ r. for_up (plot x y on colour r) 8 0) n (i + 1) c).1 x' y')
        pair
      ∙ rows_loop-seen n (i + 1) first.1 (omega arith)
      ∙ rows_test (covers x 8 x') (covers (y + (i + 1)) n y') (on (y' - y) (x' - x)) s
          (val (y' - y)) (fb_get_pixel fb first.1 x' y')
      ∙ ap (either (covers (y + (i + 1)) n y' && true && on' (y' - y) && s) (val (y' - y))) row
      ∙ join on' val y i n y' true s old
      ∙ sym (
          rows_test (covers x 8 x') (covers (y + i) (suc n) y') (on (y' - y) (x' - x)) s
            (val (y' - y)) old)

  glyph-seen :
      (n : ℕ) (m : Memory)
      → y + n < 2 ^ 32
      → fb_get_pixel fb (for_glyph n (plot x y on colour) (fb, m)).1 x' y'
        ≡ either
            (covers x 8 x' && covers y n y' && on (y' - y) (x' - x) && not (is_clipped fb x' y'))
            (val (y' - y))
            (fb_get_pixel fb m x' y')
  glyph-seen n m low =
      let none_more : y + 0 ≡ y = omega arith in
      rows_loop-seen n 0 m (omega arith) ∙ rw none_more refl

solid_test : (a b d : Bool) (u v : ℕ) → either (a && b && true && d) u v ≡ either (a && b && d) u v
solid_test a b d u v = ground arith

either-lt : (b : Bool) (u v k : ℕ) → u < k → v < k → either b u v < k
either-lt true u v k hu hv = hu
either-lt false u v k hu hv = hv

-- On a framebuffer whose rows have room and that is smaller than 4 GiB, a character of the small font at
-- a place whose ends do not wrap around gives each pixel of its 8 by 8 cell that is on the screen and not
-- clipped the colour of the font's bit there, the foreground where it is set and the background, or with
-- fb_draw_char_transparent nothing new, where it is not; no other pixel of the screen changes.
pub get_pixel-draw_char :
    (x y ch fg bg : ℕ) (c : Canvas) (x' y' : ℕ)
    → Shaped c.0
    → fg < 2 ^ 32
    → bg < 2 ^ 32
    → x + 8 < 2 ^ 32
    → y + 8 < 2 ^ 32
    → x' < c.0.width
    → y' < c.0.height
    → (fb_get_pixel c.0 (fb_draw_char x y ch fg bg c).1 x' y' ≡ (
        if covers x 8 x' && covers y 8 y' && not (is_clipped c.0 x' y')
        then as_stored c.0.pixel_format (if glyph_bit font_8x8 ch (y' - y) (x' - x) then fg else bg)
        else fb_get_pixel c.0 c.1 x' y'))
      × (fb_get_pixel c.0 (fb_draw_char_transparent x y ch fg c).1 x' y' ≡ (
          if covers x 8 x'
            && covers y 8 y'
            && glyph_bit font_8x8 ch (y' - y) (x' - x)
            && not (is_clipped c.0 x' y')
          then as_stored c.0.pixel_format fg
          else fb_get_pixel c.0 c.1 x' y'))
unfolding fb_draw_char fb_draw_char_transparent
get_pixel-draw_char x y ch fg bg c x' y' sh small_fg small_bg fx fy hx' hy' =
    let font = font_8x8 in
    let colour = λ (i j : ℕ). if glyph_bit font ch i j then fg else bg in
    (
      glyph-seen c.0 sh x' y' hx' hy' x y (λ i j. true) colour fx
            (λ i j. either-lt (glyph_bit font ch i j) fg bg (2 ^ 32) small_fg small_bg) 8 c.1 fy
          ∙ solid_test (covers x 8 x') (covers y 8 y') (not (is_clipped c.0 x' y'))
              (as_stored c.0.pixel_format (colour (y' - y) (x' - x))) (fb_get_pixel c.0 c.1 x' y'),
      glyph-seen c.0 sh x' y' hx' hy' x y (glyph_bit font ch) (λ i j. fg) fx (λ i j. small_fg) 8 c.1
          fy,
    )
