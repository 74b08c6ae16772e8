-- ===== src/Ui/Overlap.antt =====
-- The points of an intersection and of the parts of a split rectangle.
use tutorial_os.Common.{
  ℕ, ◌+◌, ◌-◌, ◌^◌, ◌<◌, ◌≡◌, ◌∙◌, refl, sym, ap, Bool, true, false, Bool-cases, inl, inr, ◌||◌,
  ◌&&◌, if◌then◌else◌, arith,
}
use tutorial_os.Framebuffer.{add32, sub32, lt_i32, min_i32, max_i32, biased}
use tutorial_os.Framebuffer.Int32.{le_i32}
use tutorial_os.Ui.{UiRect}
use tutorial_os.Ui.Rect.{
  rect_zero, ui_rect_contains, ui_rect_intersect, at_most, ui_rect_split_top, ui_rect_split_bottom,
  ui_rect_split_left, ui_rect_split_right,
}

-- a coordinate whose length does not lead past the largest signed number
pub record Length (x w : ℕ) : Type 0 where
  pub pattern : x < 2 ^ 32
  pub fits : biased x + w < 2 ^ 32

abbrev span : ℕ → ℕ → ℕ → Bool
span x w p = le_i32 x p && lt_i32 p (add32 x w)

biased-add32 : (x w : ℕ) → Length x w → biased (add32 x w) ≡ biased x + w
biased-add32 x w l = omega (arith, l.fits)

-- where two lengths overlap
both-overlap :
    (xa wa xb wb p : ℕ)
    → Length xa wa
    → Length xb wb
    → le_i32 (min_i32 (add32 xa wa) (add32 xb wb)) (max_i32 xa xb) ≡ false
    → span (max_i32 xa xb) (sub32 (min_i32 (add32 xa wa) (add32 xb wb)) (max_i32 xa xb)) p
      ≡ (span xa wa p && span xb wb p)
both-overlap xa wa xb wb p la lb some_left =
    ground (
      arith,
      biased-add32 xa wa la,
      biased-add32 xb wb lb,
      la.pattern,
      lb.pattern,
      la.fits,
      lb.fits,
    )

-- where they do not
both-apart :
    (xa wa xb wb p : ℕ)
    → Length xa wa
    → Length xb wb
    → le_i32 (min_i32 (add32 xa wa) (add32 xb wb)) (max_i32 xa xb) ≡ true
    → (span xa wa p && span xb wb p) ≡ false
both-apart xa wa xb wb p la lb none_left =
    ground (arith, biased-add32 xa wa la, biased-add32 xb wb lb)

-- a rectangle whose right and bottom edges are signed numbers
pub record Within (r : UiRect) : Type 0 where
  pub across : Length r.x r.w
  pub down : Length r.y r.h

zero-empty : (x y : ℕ) → ui_rect_contains rect_zero x y ≡ false
unfolding ui_rect_contains
zero-empty x y = ground arith

common_first : (a b c : Bool) → ((a && b) || (a && c)) ≡ (a && (b || c))
common_first a b c = ground arith

common_second : (a b c : Bool) → ((a && c) || (b && c)) ≡ ((a || b) && c)
common_second a b c = ground arith

none_across : (a b c d : Bool) → (a && c) ≡ false → ((a && b) && (c && d)) ≡ false
none_across a b c d h = ground arith

none_down : (a b c d : Bool) → (b && d) ≡ false → ((a && b) && (c && d)) ≡ false
none_down a b c d h = ground arith

regroup : (a b c d : Bool) → ((a && c) && (b && d)) ≡ ((a && b) && (c && d))
regroup a b c d = ground arith

in_either :
    (empty : Bool) (r : UiRect) (x y : ℕ) (inside : Bool)
    → (empty ≡ true → inside ≡ false)
    → (empty ≡ false → ui_rect_contains r x y ≡ inside)
    → ui_rect_contains (if empty then rect_zero else r) x y ≡ inside
in_either true r x y inside out within = zero-empty x y ∙ sym (out refl)
in_either false r x y inside out within = within refl

or-left : (a b : Bool) → (a || b) ≡ false → a ≡ false
or-left a b h = ground arith

or-right : (a b : Bool) → (a || b) ≡ false → b ≡ false
or-right a b h = ground arith

or-rest : (a b : Bool) → (a || b) ≡ true → a ≡ false → b ≡ true
or-rest a b h e = ground arith

-- A point lies in the intersection of two rectangles exactly when it lies in both; the right and bottom
-- edges of the two must be representable as signed numbers.
pub contains-intersect :
    (a b : UiRect) (x y : ℕ)
    → Within a
    → Within b
    → ui_rect_contains (ui_rect_intersect a b) x y
      ≡ (ui_rect_contains a x y && ui_rect_contains b x y)
unfolding ui_rect_contains ui_rect_intersect
contains-intersect a b x y wa wb =
    let across = le_i32 (min_i32 (add32 a.x a.w) (add32 b.x b.w)) (max_i32 a.x b.x) in
    let down = le_i32 (min_i32 (add32 a.y a.h) (add32 b.y b.h)) (max_i32 a.y b.y) in
    let xa = span a.x a.w x in
    let ya = span a.y a.h y in
    let xb = span b.x b.w x in
    let yb = span b.y b.h y in
    in_either (across || down) _ x y ((xa && ya) && (xb && yb))
      (λ e. elim (Bool-cases across) [
        | inl e1 ↦ none_across xa ya xb yb (both-apart a.x a.w b.x b.w x wa.across wb.across e1)
        | inr e1 ↦
            none_down xa ya xb yb
              (both-apart a.y a.h b.y b.h y wa.down wb.down (or-rest across down e e1))
      ])
      (λ e.
        ap
          (λ z.
            z
            && span (max_i32 a.y b.y)
                (sub32 (min_i32 (add32 a.y a.h) (add32 b.y b.h)) (max_i32 a.y b.y)) y)
          (both-overlap a.x a.w b.x b.w x wa.across wb.across (or-left across down e))
        ∙ ap (λ z. (xa && xb) && z)
            (both-overlap a.y a.h b.y b.h y wa.down wb.down (or-right across down e))
        ∙ regroup xa ya xb yb)

-- a length cut in two
abbrev first : ℕ → ℕ → ℕ → ℕ → Bool
first x w n p = span x (at_most w n) p

abbrev second : ℕ → ℕ → ℕ → ℕ → Bool
second x w n p = span (add32 x (sub32 w (at_most w (w - n)))) (at_most w (w - n)) p

first-or-second : (x w n p : ℕ) → Length x w → (first x w n p || second x w n p) ≡ span x w p
first-or-second x w n p l = ground (arith, l.pattern, l.fits)

first-not_second : (x w n p : ℕ) → Length x w → (first x w n p && second x w n p) ≡ false
first-not_second x w n p l = ground (arith, l.pattern, l.fits)

-- The upper n lines of a rectangle and its lower lines but for n have each point of the rectangle in
-- exactly one of them, and no other point; likewise with columns. The right and bottom edges must be
-- representable as signed numbers.
pub contains-split :
    (r : UiRect) (n x y : ℕ)
    → Within r
    → let top = ui_rect_contains (ui_rect_split_top r n) x y in
      let bottom = ui_rect_contains (ui_rect_split_bottom r (r.h - n)) x y in
      let left = ui_rect_contains (ui_rect_split_left r n) x y in
      let right = ui_rect_contains (ui_rect_split_right r (r.w - n)) x y in
      ((top || bottom) ≡ ui_rect_contains r x y)
      × ((top && bottom) ≡ false)
      × ((left || right) ≡ ui_rect_contains r x y)
      × ((left && right) ≡ false)
unfolding ui_rect_contains ui_rect_split_top ui_rect_split_bottom ui_rect_split_left
    ui_rect_split_right
contains-split r n x y w =
    let across = span r.x r.w x in
    let down = span r.y r.h y in
    let top = first r.y r.h n y in
    let bottom = second r.y r.h n y in
    let left = first r.x r.w n x in
    let right = second r.x r.w n x in
    (
      common_first across top bottom ∙ ap (λ z. across && z) (first-or-second r.y r.h n y w.down),
      none_down across top across bottom (first-not_second r.y r.h n y w.down),
      common_second left right down ∙ ap (λ z. z && down) (first-or-second r.x r.w n x w.across),
      none_across left down right down (first-not_second r.x r.w n x w.across),
    )
