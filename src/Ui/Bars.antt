-- ===== src/Ui/Bars.antt =====
-- Where the thumb of a scrollbar and the fill of a progress bar lie.
use tutorial_os.Common.{
  ℕ, zero, suc, ◌+◌, ◌-◌, ◌*◌, ◌/◌, ◌^◌, ◌≤◌, ◌<◌, ◌≡◌, ◌∙◌, sym, ap, ltb, ◌&&◌, if◌then◌else◌,
  arith, subst,
}
use native.Mathlib.Nat.{
  mul-le-mul_right, mul-le-mul_left, div-le_of_le-mul, mul-div_cancel_left, le_trans,
}
use tutorial_os.Framebuffer.{sub32}
use tutorial_os.Framebuffer.Int32.{mul32}
use tutorial_os.Ui.{Theme}
use tutorial_os.Ui.Gauges.{thumb_height, thumb_offset, fill_width}
use tutorial_os.Ui.Text.{clamp100}

-- a share of a length
share-le : (a b n : ℕ) → a ≤ b → a * n / b ≤ n
share-le a b n le = div-le_of_le-mul b (mul-le-mul_right n le)

share-all : (b n : ℕ) → 0 < b → b * n / b ≡ n
share-all b n pos = mul-div_cancel_left n pos

mul32-is : (a b c n : ℕ) → a ≤ c → b ≤ n → c * n < 2 ^ 32 → mul32 a b ≡ a * b
mul32-is a b c n la lb lt =
    let small : a * b ≤ c * n = le_trans (mul-le-mul_right b la) (mul-le-mul_left c lb) in
    omega arith

thumb_height-le :
    (theme : Theme) (h visible_count total_count : ℕ)
    → visible_count < total_count
    → total_count * h < 2 ^ 32
    → theme.spacing.md ≤ h
    → thumb_height theme h visible_count total_count ≤ h
thumb_height-le theme h visible_count total_count lt fits room =
    let product = mul32-is visible_count h total_count h (omega arith) (omega arith) fits in
    let share = share-le visible_count total_count h (omega arith) in
    ground (arith, ap (λ k. k / total_count) product)

sub32-is : (a b : ℕ) → b ≤ a → a < 2 ^ 32 → sub32 a b ≡ a - b
sub32-is a b le lt = omega arith

-- the offset of the thumb, in a range of `k` pixels for `n` positions
abbrev place : ℕ → ℕ → ℕ → ℕ
place i n k = if ltb 0 n && ltb 0 k then mul32 i k / n else 0

place-is : (i n k h : ℕ) → 0 < n → i ≤ n → k ≤ h → n * h < 2 ^ 32 → place i n k ≡ i * k / n
place-is i n zero h pos le lk fits = ground arith
place-is i n (suc k) h pos le lk fits =
    let product = mul32-is i (suc k) n h le lk fits in ground (arith, ap (λ j. j / n) product)

thumb_offset-is :
    (theme : Theme) (h scroll_offset visible_count total_count : ℕ)
    → visible_count < total_count
    → total_count < 2 ^ 32
    → scroll_offset ≤ total_count - visible_count
    → h < 2 ^ 32
    → total_count * h < 2 ^ 32
    → theme.spacing.md ≤ h
    → thumb_offset theme h scroll_offset visible_count total_count
      ≡ scroll_offset
        * (h - thumb_height theme h visible_count total_count)
        / (total_count - visible_count)
thumb_offset-is theme h scroll_offset visible_count total_count lt small within tall fits room =
    let le = thumb_height-le theme h visible_count total_count lt fits room in
    let range = total_count - visible_count in
    let less : range * h ≤ total_count * h = mul-le-mul_right h (omega arith) in
    ap (λ n. place scroll_offset n (sub32 h (thumb_height theme h visible_count total_count)))
      (sub32-is total_count visible_count (omega arith) small)
    ∙ ap (place scroll_offset range)
        (sub32-is h (thumb_height theme h visible_count total_count) le tall)
    ∙ place-is scroll_offset range (h - thumb_height theme h visible_count total_count) h
        (omega arith) within (omega arith) (omega arith)

-- The thumb of a scrollbar lies within the track, at its start for the first position and at its end for
-- the last one, and is never shorter than the medium spacing, where the track has room for this and
-- the product of the count with the track's height does not wrap around.
pub thumb_lem :
    (theme : Theme) (h scroll_offset visible_count total_count : ℕ)
    → visible_count < total_count
    → total_count < 2 ^ 32
    → scroll_offset ≤ total_count - visible_count
    → h < 2 ^ 32
    → total_count * h < 2 ^ 32
    → theme.spacing.md ≤ h
    → let height = thumb_height theme h visible_count total_count in
      (theme.spacing.md ≤ height)
      × (thumb_offset theme h scroll_offset visible_count total_count + height ≤ h)
      × (thumb_offset theme h 0 visible_count total_count ≡ 0)
      × (thumb_offset theme h (total_count - visible_count) visible_count total_count + height ≡ h)
thumb_lem theme h scroll_offset visible_count total_count lt small within tall fits room =
    let height = thumb_height theme h visible_count total_count in
    let range = total_count - visible_count in
    let le : height ≤ h = thumb_height-le theme h visible_count total_count lt fits room in
    let share = share-le scroll_offset range (h - height) within in
    let all = share-all range (h - height) (omega arith) in
    let place =
      thumb_offset-is theme h scroll_offset visible_count total_count lt small within tall fits
        room in
    let last =
      thumb_offset-is theme h range visible_count total_count lt small (omega arith) tall fits
        room in
    (ground arith, omega (arith, place, share), ground arith, omega (arith, last, all))

-- at least the width of two corners
abbrev rounded : ℕ → ℕ → ℕ
rounded radius f = if ltb f (mul32 radius 2) then mul32 radius 2 else f

rounded-le : (radius f w : ℕ) → radius * 2 ≤ w → w < 2 ^ 32 → f ≤ w → rounded radius f ≤ w
rounded-le radius f w corners lt le = ground arith

rounded-ge :
    (radius f w : ℕ)
    → radius * 2 ≤ w
    → w < 2 ^ 32
    → (radius * 2 ≤ rounded radius f) × (f ≤ rounded radius f)
rounded-ge radius f w corners lt = (ground arith, ground arith)

rounded_mono : (radius f g : ℕ) → f ≤ g → rounded radius f ≤ rounded radius g
rounded_mono radius f g le = ground arith

fill_width-is :
    (radius w p : ℕ)
    → p ≤ 100
    → 100 * w < 2 ^ 32
    → fill_width radius w p ≡ rounded radius (p * w / 100)
fill_width-is radius w p le fits =
    ap (λ n. rounded radius (n / 100)) (mul32-is p w 100 w le (omega arith) fits)

clamped : (q : ℕ) → clamp100 (100 + q) ≡ 100
clamped q = ground arith

-- The fill of a progress bar is never wider than the bar, at least as wide as its two corners, grows with
-- the percentage, and fills the bar from 100 percent on, where the corners fit into the bar and a
-- hundred times the width does not wrap around.
pub fill_width_lem :
    (radius w p q : ℕ)
    → p ≤ q
    → radius * 2 ≤ w
    → 100 * w < 2 ^ 32
    → (fill_width radius w (clamp100 q) ≤ w)
      × (radius * 2 ≤ fill_width radius w (clamp100 p))
      × (fill_width radius w (clamp100 p) ≤ fill_width radius w (clamp100 q))
      × (fill_width radius w (clamp100 (100 + q)) ≡ w)
fill_width_lem radius w p q le corners fits =
    let a = clamp100 p in
    let b = clamp100 q in
    let le1 : a ≤ b = ground arith in
    let le2 : b ≤ 100 = ground arith in
    let lt : w < 2 ^ 32 = omega arith in
    let is_a = fill_width-is radius w a (omega arith) fits in
    let is_b = fill_width-is radius w b le2 fits in
    let full : fill_width radius w 100 ≡ rounded radius w =
      fill_width-is radius w 100 (omega arith) fits
      ∙ ap (rounded radius) (share-all 100 w (omega arith)) in
    let most = rounded-le radius w w corners lt (omega arith) in
    let least = rounded-ge radius w w corners lt in
    let grows : a * w / 100 ≤ b * w / 100 = omega (arith, mul-le-mul_right w le1) in
    (
      subst (λ n. n ≤ w) (sym is_b)
          (rounded-le radius (b * w / 100) w corners lt (share-le b 100 w le2)),
      subst (λ n. radius * 2 ≤ n) (sym is_a) (rounded-ge radius (a * w / 100) w corners lt).0,
      subst (λ n. n ≤ fill_width radius w b) (sym is_a)
          (subst (λ n. rounded radius (a * w / 100) ≤ n) (sym is_b)
            (rounded_mono radius (a * w / 100) (b * w / 100) grows)),
      ap (fill_width radius w) (clamped q) ∙ full ∙ omega (arith, most, least),
    )
