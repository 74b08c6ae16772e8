-- ===== src/Framebuffer/Clip.antt =====
-- The clip stack: fb_push_clip intersects, fb_pop_clip restores, and every clip stays on the screen.
pub mod Stack
use tutorial_os.Common.{
  ℕ, ◌+◌, ◌-◌, ◌%◌, ◌≤◌, ◌<◌, ◌^◌, ◌≡◌, ◌≢◌, refl, ◌∙◌, ap, sym, Bool, true, false, not, ◌&&◌, ◌||◌,
  List, length, get_or, set, get_or-set_self, get_or-set_ne, length-set, ltb, leb, if◌then◌else◌,
  arith, Bool-cases, inl, inr, ap₂,
}
use tutorial_os.Framebuffer.{
  fb_max_clip_depth, add32, sub32, biased, lt_i32, min_i32, max_i32, Rect, rect, Framebuffer,
  no_clip, fb_get_clip, is_clipped, clip_to, fb_push_clip, fb_pop_clip, fb_reset_clip,
}

-- `x` is one of the `w` positions from `c` on, for a signed `c`
abbrev pub spans : ℕ → ℕ → ℕ → Bool
spans c w x = not (lt_i32 x c) && lt_i32 x (add32 c w)

-- The numbers are such that no sum leaves the signed range.
pub record Fits (c : Rect) : Type 0 where
  pub x : biased c.x + c.w < 2 ^ 32
  pub y : biased c.y + c.h < 2 ^ 32
  pub x-lt : c.x < 2 ^ 32
  pub y-lt : c.y < 2 ^ 32

-- a clip rectangle on a screen of less than 2 ^ 31 pixels either way
pub record OnScreen (width height : ℕ) (c : Rect) : Type 0 where
  pub x : c.x + c.w ≤ width
  pub y : c.y + c.h ≤ height

-- one axis of the test in is_clipped
abbrev pub within : ℕ → ℕ → ℕ → Bool
within c w p = not (ltb p c) && not (leb (add32 c w) p)

abbrev pub shows : Rect → ℕ → ℕ → Bool
shows c x y = within c.x c.w x && within c.y c.h y

module _ (c cw r rw : ℕ) (hc : c + cw < 2 ^ 31) (lr : r < 2 ^ 32) where
  abbrev lo : ℕ
  lo = max_i32 r c

  abbrev hi : ℕ
  hi = min_i32 (add32 r rw) (add32 c cw)

  axis-some :
      (p : ℕ)
      → biased r + rw < 2 ^ 32
      → p < 2 ^ 31
      → lt_i32 lo hi ≡ true
      → within lo (sub32 hi lo) p ≡ (within c cw p && spans r rw p)
  axis-some p hr hp h = ground arith

  axis-none :
      (p : ℕ)
      → biased r + rw < 2 ^ 32
      → p < 2 ^ 31
      → lt_i32 lo hi ≡ false
      → (within c cw p && spans r rw p) ≡ false
  axis-none p hr hp h = ground arith

  -- The part that is left ends no later, whether or not `r + rw` wraps around.
  axis-le : lt_i32 lo hi ≡ true → lo + sub32 hi lo ≤ c + cw
  axis-le h = ground arith

within-empty : (p : ℕ) → within 0 0 p ≡ false
within-empty p = ground arith

pub &&-swap : (a b s t : Bool) → ((a && s) && (b && t)) ≡ ((a && b) && (s && t))
&&-swap true true s t = refl
&&-swap true false true t = refl
&&-swap true false false t = refl
&&-swap false b s t = refl

pub &&-false_left : (a b s t : Bool) → (a && s) ≡ false → ((a && b) && (s && t)) ≡ false
&&-false_left true b false t h = by_cases b
  where
    by_cases : (b : Bool) → ((true && b) && false) ≡ false
    by_cases true = refl
    by_cases false = refl
&&-false_left true b true t h = absurd (cc h)
&&-false_left false b s t h = refl

pub &&-false_right : (a b s t : Bool) → (b && t) ≡ false → ((a && b) && (s && t)) ≡ false
&&-false_right false b s t h = refl
&&-false_right true false s t h = refl
&&-false_right true true true false h = refl
&&-false_right true true false false h = refl
&&-false_right true true s true h = absurd (cc h)

module _ (cur r : Rect) (hx : cur.x + cur.w < 2 ^ 31) (hy : cur.y + cur.h < 2 ^ 31) where
  -- The new clip rectangle shows a pixel exactly when the old one does and the pixel is in `r`.
  clip_to-shows :
      Fits r
      → (x y : ℕ) → x < 2 ^ 31
      → y < 2 ^ 31
      → shows (clip_to cur r) x y ≡ (shows cur x y && (spans r.x r.w x && spans r.y r.h y))
  unfolding clip_to
  clip_to-shows f x y px py =
      elim (Bool-cases
        (lt_i32 (lo cur.x cur.w r.x r.w hx f.x-lt) (hi cur.x cur.w r.x r.w hx f.x-lt))) [
          | inl ex ↦
              elim (Bool-cases
                (lt_i32 (lo cur.y cur.h r.y r.h hy f.y-lt) (hi cur.y cur.h r.y r.h hy f.y-lt))) [
                  | inl ey ↦
                      rw (ex, ey)
                        (ap₂ (λ a b. a && b) (axis-some cur.x cur.w r.x r.w hx f.x-lt x f.x px ex)
                            (axis-some cur.y cur.h r.y r.h hy f.y-lt y f.y py ey)
                          ∙ &&-swap (within cur.x cur.w x) (within cur.y cur.h y) (spans r.x r.w x)
                              (spans r.y r.h y))
                  | inr ey ↦
                      rw (ex, ey)
                        (rw (within-empty x) (
                          sym (
                            &&-false_right (within cur.x cur.w x) (within cur.y cur.h y)
                              (spans r.x r.w x) (spans r.y r.h y)
                              (axis-none cur.y cur.h r.y r.h hy f.y-lt y f.y py ey))))
                ]
          | inr ex ↦ rw ex (
              rw (within-empty x) (
                sym (
                  &&-false_left (within cur.x cur.w x) (within cur.y cur.h y) (spans r.x r.w x)
                    (spans r.y r.h y) (axis-none cur.x cur.w r.x r.w hx f.x-lt x f.x px ex))))
        ]

  clip_to-OnScreen :
      (width height : ℕ)
      → r.x < 2 ^ 32
      → r.y < 2 ^ 32
      → OnScreen width height cur
      → OnScreen width height (clip_to cur r)
  unfolding clip_to
  clip_to-OnScreen width height lx ly s =
      elim (Bool-cases (lt_i32 (lo cur.x cur.w r.x r.w hx lx) (hi cur.x cur.w r.x r.w hx lx))) [
        | inl ex ↦
            elim (Bool-cases
              (lt_i32 (lo cur.y cur.h r.y r.h hy ly) (hi cur.y cur.h r.y r.h hy ly))) [
                | inl ey ↦
                    rw (ex, ey)
                      (record {
                        x = omega (arith, axis-le cur.x cur.w r.x r.w hx lx ex, s.x);
                        y = omega (arith, axis-le cur.y cur.h r.y r.h hy ly ey, s.y);
                      })
                | inr ey ↦ rw (ex, ey) (record { x = omega arith; y = omega arith })
              ]
        | inr ex ↦ rw ex (record { x = omega arith; y = omega arith })
      ]
