-- ===== src/Framebuffer/Segment/Bresenham.antt =====
-- fb_draw_line ends: the error term stays within one and a half steps, so the cursor reaches the end of
-- both axes in the same round.
use tutorial_os.Common.{
  ℕ, zero, suc, ◌+◌, ◌*◌, ◌%◌, ◌≤◌, ◌<◌, ◌^◌, ◌≡◌, ◌∙◌, ap, ap₂, true, false, not, ◌&&◌, Option,
  some, leb, ◌==◌, if◌then◌else◌, arith, Bool-cases, inl, inr, eq→==, leb→le,
}
use tutorial_os.Framebuffer.{add32, sub32, biased, lt_i32}
use tutorial_os.Framebuffer.Int32.{mul32, neg32, le_i32, is_negative, abs_i32, minus_one}
use tutorial_os.Framebuffer.Canvas.{Canvas, put_if}
use tutorial_os.Framebuffer.Segment.{Cursor, Slope, advance, line_loop, fb_draw_line}

-- `n` steps by `s` from `x`
steps : ℕ → ℕ → ℕ → ℕ
steps zero s x = x
steps (suc n) s x = steps n s (add32 x s)

steps-up : (n x : ℕ) → x < 2 ^ 32 → steps n 1 x ≡ (x + n) % 2 ^ 32
unfolding steps
steps-up zero x h = omega arith
steps-up (suc n) x h = omega (arith, steps-up n (add32 x 1) (omega arith))

steps-down : (n x : ℕ) → x < 2 ^ 32 → n < 2 ^ 32 → steps n minus_one x ≡ sub32 x n
unfolding steps
steps-down zero x h k = omega arith
steps-down (suc n) x h k =
    omega (arith, steps-down n (add32 x minus_one) (omega arith) (omega arith))

-- the values that the tests and sums of a round have, for an error term that is not too large
module _ (dx dy err : ℕ) (hx : dx < 2 ^ 29) (hy : dy < 2 ^ 29) (he : err < 2 ^ 32)
    (low : 2 ^ 32 ≤ 2 * biased err + 3 * dy) (high : 2 * biased err ≤ 2 ^ 32 + 3 * dx) where
  right-is : le_i32 (neg32 dy) (mul32 2 err) ≡ leb (2 ^ 32) (2 * biased err + dy)
  right-is = ground arith

  down-is : le_i32 (mul32 2 err) dx ≡ leb (2 * biased err) (2 ^ 32 + dx)
  down-is = ground arith

  minus-dy : biased (add32 err (neg32 dy)) + dy ≡ biased err
  minus-dy = omega arith

  plus-dx : biased (add32 err dx) ≡ biased err + dx
  plus-dx = omega arith

-- With `a` steps across and `b` steps along left, the error term is the one that the line has there.
record Near (dx dy a b err : ℕ) : Type 0 where
  word : err < 2 ^ 32
  sum : biased err + dx * b + dy ≡ 2 ^ 31 + dx + dy * a
  low : 2 ^ 32 ≤ 2 * biased err + 3 * dy
  high : 2 * biased err ≤ 2 ^ 32 + 3 * dx
  across : a ≤ dx
  along : b ≤ dy

module _ (dx dy err : ℕ) (hx : dx < 2 ^ 29) (hy : dy < 2 ^ 29) where
  -- a step across, a step along, and both
  Near-right :
      (a b : ℕ)
      → Near dx dy (suc a) b err
      → 2 ^ 32 ≤ 2 * biased err + dy
      → Near dx dy a b (add32 err (neg32 dy))
  Near-right a b k right =
      let m = minus-dy dx dy err hx hy k.word k.low k.high in
      let e : dy * suc a ≡ dy * a + dy = grind arith in
      record {
        word = omega arith;
        sum = omega (arith, k.sum);
        low = omega (arith, k.low);
        high = omega (arith, k.high);
        across = omega (arith, k.across);
        along = k.along;
      }

  Near-down :
      (a b : ℕ)
      → Near dx dy a (suc b) err
      → 2 * biased err ≤ 2 ^ 32 + dx
      → Near dx dy a b (add32 err dx)
  Near-down a b k down =
      let m = plus-dx dx dy err hx hy k.word k.low k.high in
      let e : dx * suc b ≡ dx * b + dx = grind arith in
      record {
        word = omega arith;
        sum = omega (arith, k.sum);
        low = omega (arith, k.low);
        high = omega (arith, k.high);
        across = k.across;
        along = omega (arith, k.along);
      }

  -- No step leads past the end of an axis.
  right-left : (a b : ℕ) → Near dx dy a b err → 0 < a + b → 2 ^ 32 ≤ 2 * biased err + dy → 0 < a
  right-left zero zero k some_left right = absurd (omega arith)
  right-left zero (suc b) k some_left right =
      let e : dx * suc b ≡ dx * b + dx = grind arith in absurd (omega (arith, k.sum, k.along))
  right-left (suc a) b k some_left right = omega arith

  down-left : (a b : ℕ) → Near dx dy a b err → 0 < a + b → 2 * biased err ≤ 2 ^ 32 + dx → 0 < b
  down-left zero zero k some_left down = absurd (omega arith)
  down-left (suc a) zero k some_left down =
      let e : dy * suc a ≡ dy * a + dy = grind arith in absurd (omega (arith, k.sum, k.across))
  down-left a (suc b) k some_left down = omega arith

abbrev line : ℕ → ℕ → ℕ → ℕ → ℕ → ℕ → Slope
line dx dy sx sy x1 y1 = record { dx = dx; dy = neg32 dy; sx = sx; sy = sy; x1 = x1; y1 = y1 }

module _ (dx dy sx sy x1 y1 : ℕ) (hx : dx < 2 ^ 29) (hy : dy < 2 ^ 29) where
  -- the cursor with `a` steps across and `b` steps along left to the end point
  record Walk (a b : ℕ) (p : Cursor) : Type 0 where
    near : Near dx dy a b p.err
    end_x : steps a sx p.x ≡ x1
    end_y : steps b sy p.y ≡ y1

  -- what is left after a round
  record Less (a b : ℕ) (p : Cursor) : Type 0 where
    a' : ℕ
    b' : ℕ
    walk : Walk a' b' p
    less : a' + b' < a + b

  tests :
      (a b : ℕ) (p : Cursor)
      → Walk a b p
      → (le_i32 (neg32 dy) (mul32 2 p.err) ≡ leb (2 ^ 32) (2 * biased p.err + dy))
        × (le_i32 (mul32 2 p.err) dx ≡ leb (2 * biased p.err) (2 ^ 32 + dx))
  tests a b p w =
      let k = w.near in
      (
        right-is dx dy p.err hx hy k.word k.low k.high,
        down-is dx dy p.err hx hy k.word k.low k.high,
      )

  after_both :
      (a b : ℕ) (p : Cursor)
      → Walk (suc a) (suc b) p
      → 2 ^ 32 ≤ 2 * biased p.err + dy
      → 2 * biased p.err ≤ 2 ^ 32 + dx
      → Walk a b
          (record { x = add32 p.x sx; y = add32 p.y sy; err = add32 (add32 p.err (neg32 dy)) dx })
  unfolding steps
  after_both a b p w right down =
      let k = Near-right dx dy p.err hx hy a (suc b) w.near right in
      let m = minus-dy dx dy p.err hx hy w.near.word w.near.low w.near.high in
      record {
        near = Near-down dx dy (add32 p.err (neg32 dy)) hx hy a b k (omega arith);
        end_x = w.end_x;
        end_y = w.end_y;
      }

  after_right :
      (a b : ℕ) (p : Cursor)
      → Walk (suc a) b p
      → 2 ^ 32 ≤ 2 * biased p.err + dy
      → Walk a b (record { x = add32 p.x sx; y = p.y; err = add32 p.err (neg32 dy) })
  unfolding steps
  after_right a b p w right = record {
    near = Near-right dx dy p.err hx hy a b w.near right;
    end_x = w.end_x;
    end_y = w.end_y;
  }

  after_down :
      (a b : ℕ) (p : Cursor)
      → Walk a (suc b) p
      → 2 * biased p.err ≤ 2 ^ 32 + dx
      → Walk a b (record { x = p.x; y = add32 p.y sy; err = add32 p.err dx })
  unfolding steps
  after_down a b p w down = record {
    near = Near-down dx dy p.err hx hy a b w.near down;
    end_x = w.end_x;
    end_y = w.end_y;
  }

  Less-both :
      (a b : ℕ) (p : Cursor)
      → Walk a b p
      → 2 ^ 32 ≤ 2 * biased p.err + dy
      → 2 * biased p.err ≤ 2 ^ 32 + dx
      → 0 < a
      → 0 < b
      → Less a b
          (record { x = add32 p.x sx; y = add32 p.y sy; err = add32 (add32 p.err (neg32 dy)) dx })
  Less-both zero b p w right down ha hb = absurd (omega arith)
  Less-both (suc a) zero p w right down ha hb = absurd (omega arith)
  Less-both (suc a) (suc b) p w right down ha hb = record {
    a' = a;
    b' = b;
    walk = after_both a b p w right down;
    less = omega arith;
  }

  Less-right :
      (a b : ℕ) (p : Cursor)
      → Walk a b p
      → 2 ^ 32 ≤ 2 * biased p.err + dy
      → 0 < a
      → Less a b (record { x = add32 p.x sx; y = p.y; err = add32 p.err (neg32 dy) })
  Less-right zero b p w right ha = absurd (omega arith)
  Less-right (suc a) b p w right ha = record {
    a' = a;
    b' = b;
    walk = after_right a b p w right;
    less = omega arith;
  }

  Less-down :
      (a b : ℕ) (p : Cursor)
      → Walk a b p
      → 2 * biased p.err ≤ 2 ^ 32 + dx
      → 0 < b
      → Less a b (record { x = p.x; y = add32 p.y sy; err = add32 p.err dx })
  Less-down a zero p w down hb = absurd (omega arith)
  Less-down a (suc b) p w down hb = record {
    a' = a;
    b' = b;
    walk = after_down a b p w down;
    less = omega arith;
  }

  advance-Less :
      (a b : ℕ) (p : Cursor)
      → Walk a b p
      → 0 < a + b
      → Less a b (advance (line dx dy sx sy x1 y1) p)
  unfolding advance
  advance-Less a b p w left =
      let (right_is, down_is) = tests a b p w in
      let over_a : leb (2 ^ 32) (2 * biased p.err + dy) ≡ true → 0 < a =
        λ e. right-left dx dy p.err hx hy a b w.near left (leb→le _ _ e) in
      let over_b : leb (2 * biased p.err) (2 ^ 32 + dx) ≡ true → 0 < b =
        λ e. down-left dx dy p.err hx hy a b w.near left (leb→le _ _ e) in
      elim (Bool-cases (leb (2 ^ 32) (2 * biased p.err + dy))) [
        | inl right ↦ elim (Bool-cases (leb (2 * biased p.err) (2 ^ 32 + dx))) [
          | inl down ↦
              rw (right_is ∙ right, down_is ∙ down)
                (Less-both a b p w (leb→le _ _ right) (leb→le _ _ down) (over_a right)
                  (over_b down))
          | inr over ↦
              rw (right_is ∙ right, down_is ∙ over)
                (Less-right a b p w (leb→le _ _ right) (over_a right))
        ]
        | inr under ↦ elim (Bool-cases (leb (2 * biased p.err) (2 ^ 32 + dx))) [
          | inl down ↦
              rw (right_is ∙ under, down_is ∙ down)
                (Less-down a b p w (leb→le _ _ down) (over_b down))
          | inr over ↦ absurd (ground arith)
        ]
      ]

  -- the pixel that ends the line
  abbrev last : ℕ → Canvas → Canvas
  last color d = put_if (not (is_negative x1) && not (is_negative y1)) x1 y1 color d

  abbrev Ends : ℕ → Option Canvas → Type 0
  Ends color o = (d : Canvas) × (o ≡ some (last color d))

  -- The loop's test holds where no steps are left.
  steps-left : (a b : ℕ) (p : Cursor) → Walk a b p → (p.x == x1 && p.y == y1) ≡ false → 0 < a + b
  unfolding steps
  steps-left zero zero p w go =
      absurd (cc (go, ap₂ (λ s t. s && t) (eq→== p.x x1 w.end_x) (eq→== p.y y1 w.end_y)))
  steps-left zero (suc b) p w go = omega arith
  steps-left (suc a) b p w go = omega arith

  at_end : (x y : ℕ) → (x == x1 && y == y1) ≡ true → (x ≡ x1) × (y ≡ y1)
  at_end x y e = (ground arith, ground arith)

  loop-Ends :
      (fuel a b color : ℕ) (p : Cursor) (c : Canvas)
      → Walk a b p
      → a + b < fuel
      → Ends color (line_loop fuel (line dx dy sx sy x1 y1) color p c)
  unfolding line_loop
  loop-Ends zero a b color p c w h = absurd (omega arith)
  loop-Ends (suc fuel) a b color p c w h =
      let d = put_if (not (is_negative p.x) && not (is_negative p.y)) p.x p.y color c in
      elim (Bool-cases (p.x == x1 && p.y == y1)) [
        | inl stop ↦
            let (ex, ey) = at_end p.x p.y stop in
            (
              c,
              rw stop (
                  ap some (
                    ap₂ (λ x y. put_if (not (is_negative x) && not (is_negative y)) x y color c) ex
                      ey)),
            )
        | inr go ↦
            let l = advance-Less a b p w (steps-left a b p w go) in
            let (e, ends) =
              loop-Ends fuel l.a' l.b' color (advance (line dx dy sx sy x1 y1) p) d l.walk
                (omega (arith, l.less)) in
            (e, rw go ends)
      ]

-- two signed coordinates that are less than 2 ^ 29 apart
pub record NearBy (x0 x1 : ℕ) : Type 0 where
  pub word0 : x0 < 2 ^ 32
  pub word1 : x1 < 2 ^ 32
  pub before : biased x0 < biased x1 + 2 ^ 29
  pub after : biased x1 < biased x0 + 2 ^ 29

abbrev pub distance : ℕ → ℕ → ℕ
distance x0 x1 = abs_i32 (sub32 x1 x0)

distance-lt : (x0 x1 : ℕ) → NearBy x0 x1 → distance x0 x1 < 2 ^ 29
distance-lt x0 x1 n = ground (arith, n.word0, n.word1, n.before, n.after)

-- As many steps as the distance lead from one to the other.
steps-distance :
    (x0 x1 : ℕ)
    → NearBy x0 x1
    → steps (distance x0 x1) (if lt_i32 x0 x1 then 1 else minus_one) x0 ≡ x1
steps-distance x0 x1 n = elim (Bool-cases (lt_i32 x0 x1)) [
  | inl up ↦
      rw up
        (steps-up (distance x0 x1) x0 n.word0 ∙ ground (arith, n.word0, n.word1, n.before, n.after))
  | inr down ↦
      let less = distance-lt x0 x1 n in
      rw down (
        steps-down (distance x0 x1) x0 n.word0 (omega arith)
        ∙ ground (arith, n.word0, n.word1, n.before, n.after))
]

first-Near : (dx dy : ℕ) → dx < 2 ^ 29 → dy < 2 ^ 29 → Near dx dy dx dy (add32 dx (neg32 dy))
first-Near dx dy hx hy =
    let e : dx * dy ≡ dy * dx = grind arith in
    record {
      word = omega arith;
      sum = omega arith;
      low = omega arith;
      high = omega arith;
      across = omega arith;
      along = omega arith;
    }

-- Between end points that are less than 2 ^ 29 apart on each axis, and with fuel for one round more
-- than the two distances together, fb_draw_line returns, and the pixel it puts last is the end point.
pub line-ends :
    (fuel x0 y0 x1 y1 color : ℕ) (c : Canvas)
    → NearBy x0 x1
    → NearBy y0 y1
    → distance x0 x1 + distance y0 y1 < fuel
    → (d : Canvas) × (fb_draw_line fuel x0 y0 x1 y1 color c
        ≡ some (put_if (not (is_negative x1) && not (is_negative y1)) x1 y1 color d))
unfolding fb_draw_line
line-ends fuel x0 y0 x1 y1 color c nx ny h =
    let dx = distance x0 x1 in
    let dy = distance y0 y1 in
    let sx = if lt_i32 x0 x1 then 1 else minus_one in
    let sy = if lt_i32 y0 y1 then 1 else minus_one in
    let hx = distance-lt x0 x1 nx in
    let hy = distance-lt y0 y1 ny in
    loop-Ends dx dy sx sy x1 y1 hx hy fuel dx dy color
      (record { x = x0; y = y0; err = add32 dx (neg32 dy) }) c
      (record {
        near = first-Near dx dy hx hy;
        end_x = steps-distance x0 x1 nx;
        end_y = steps-distance y0 y1 ny;
      })
      h
