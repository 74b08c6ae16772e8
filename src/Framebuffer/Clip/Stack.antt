-- ===== src/Framebuffer/Clip/Stack.antt =====
-- The stack of clip rectangles: the invariant, and what pushing and popping mean for a pixel.
use tutorial_os.Common.{
  ℕ, ◌+◌, ◌≤◌, ◌<◌, ◌^◌, ◌≡◌, refl, ◌∙◌, ap, sym, subst, Bool, true, false, not, ◌&&◌, ◌||◌, length,
  get_or, set, get_or-set_self, get_or-set_ne, length-set, arith, dec_lt, ℕ_discrete, le→leb,
  lt→ltb, le→ltb_false, lt→leb_false,
}
use tutorial_os.Framebuffer.{
  fb_max_clip_depth, Rect, rect, Framebuffer, no_clip, fb_get_clip, is_clipped, clip_to,
  fb_push_clip, fb_pop_clip, fb_reset_clip,
}
use tutorial_os.Framebuffer.Clip.{spans, Fits, OnScreen, shows, clip_to-shows, clip_to-OnScreen}

-- Every clip rectangle of the stack lies on the screen, and the stack has not overflowed.
pub record Clipped (fb : Framebuffer) : Type 0 where
  pub depth : fb.clip_depth < fb_max_clip_depth
  pub slots : length fb.clip_stack ≡ fb_max_clip_depth
  pub width : fb.width < 2 ^ 31
  pub height : fb.height < 2 ^ 31
  pub all :
      (i : ℕ) → i ≤ fb.clip_depth → OnScreen fb.width fb.height (get_or fb.clip_stack i no_clip)

abbrev pushed : Framebuffer → Rect → Framebuffer
pushed fb r = record fb {
  clip_depth = fb.clip_depth + 1;
  clip_stack = set fb.clip_stack (fb.clip_depth + 1) (clip_to (fb_get_clip fb) r);
}

push_eq :
    (fb : Framebuffer) (r : Rect)
    → fb.clip_depth + 1 < fb_max_clip_depth
    → fb_push_clip fb r ≡ (true, pushed fb r)
unfolding fb_push_clip
push_eq fb r h = rw (lt→leb_false fb.clip_depth 15 (omega arith)) refl

push_full :
    (fb : Framebuffer) (r : Rect)
    → fb_max_clip_depth ≤ fb.clip_depth + 1
    → fb_push_clip fb r ≡ (false, fb)
unfolding fb_push_clip
push_full fb r h = rw (le→leb 15 fb.clip_depth (omega arith)) refl

module _ {fb : Framebuffer} (inv : Clipped fb) where
  pub top-OnScreen : OnScreen fb.width fb.height (fb_get_clip fb)
  unfolding fb_get_clip
  top-OnScreen = inv.all fb.clip_depth (omega arith)

  pushed-Clipped :
      (r : Rect)
      → r.x < 2 ^ 32
      → r.y < 2 ^ 32
      → fb.clip_depth + 1 < fb_max_clip_depth
      → Clipped (pushed fb r)
  pushed-Clipped r lx ly room = record {
    depth = room;
    slots = length-set fb.clip_stack (fb.clip_depth + 1) (clip_to (fb_get_clip fb) r) ∙ inv.slots;
    width = inv.width;
    height = inv.height;
    all = λ i hi. elim (ℕ_discrete (fb.clip_depth + 1) i) [
      | yes e ↦
          subst (OnScreen fb.width fb.height)
            (sym (
              ap
                (λ j.
                  get_or (set fb.clip_stack (fb.clip_depth + 1) (clip_to (fb_get_clip fb) r)) j
                    no_clip)
                (sym e)
              ∙ get_or-set_self fb.clip_stack (fb.clip_depth + 1) (clip_to (fb_get_clip fb) r)
                  no_clip (omega (arith, inv.slots))))
            (clip_to-OnScreen (fb_get_clip fb) r (omega (arith, top-OnScreen.x, inv.width))
              (omega (arith, top-OnScreen.y, inv.height)) fb.width fb.height lx ly top-OnScreen)
      | no ne ↦
          subst (OnScreen fb.width fb.height)
            (sym (
              get_or-set_ne fb.clip_stack (fb.clip_depth + 1) i (clip_to (fb_get_clip fb) r) no_clip
                ne))
            (inv.all i (omega arith))
    ];
  }

  push-Clipped : (r : Rect) → r.x < 2 ^ 32 → r.y < 2 ^ 32 → Clipped (fb_push_clip fb r).1
  push-Clipped r lx ly = elim (dec_lt (fb.clip_depth + 1) fb_max_clip_depth) [
    | yes room ↦ subst (λ k. Clipped k.1) (sym (push_eq fb r room)) (pushed-Clipped r lx ly room)
    | no full ↦ subst (λ k. Clipped k.1) (sym (push_full fb r (omega arith))) inv
  ]

  pop-Clipped : Clipped (fb_pop_clip fb)
  unfolding fb_pop_clip
  pop-Clipped = elim (dec_lt 0 fb.clip_depth) [
    | yes some ↦ rw (lt→ltb 0 fb.clip_depth some) (record {
      depth = omega (arith, inv.depth);
      slots = inv.slots;
      width = inv.width;
      height = inv.height;
      all = λ i hi. inv.all i (omega arith);
    })
    | no empty ↦ rw (le→ltb_false 0 fb.clip_depth (omega arith)) inv
  ]

  reset-Clipped : Clipped (fb_reset_clip fb)
  unfolding fb_reset_clip
  reset-Clipped = record {
    depth = omega arith;
    slots = length-set fb.clip_stack 0 (rect 0 0 fb.width fb.height) ∙ inv.slots;
    width = inv.width;
    height = inv.height;
    all = λ i hi. elim (ℕ_discrete 0 i) [
      | yes e ↦
          subst (OnScreen fb.width fb.height)
            (sym (
              ap (λ j. get_or (set fb.clip_stack 0 (rect 0 0 fb.width fb.height)) j no_clip) (sym e)
              ∙ get_or-set_self fb.clip_stack 0 (rect 0 0 fb.width fb.height) no_clip
                  (omega (arith, inv.slots))))
            (record { x = omega arith; y = omega arith })
      | no ne ↦ absurd (ne (omega arith))
    ];
  }

  -- Pushing, popping and resetting keep every clip rectangle of the stack on the screen, and the stack
  -- within its 16 slots, for every rectangle that is pushed, sums that wrap around included.
  pub Clipped-kept :
      (r : Rect)
      → r.x < 2 ^ 32
      → r.y < 2 ^ 32
      → Clipped (fb_push_clip fb r).1 × Clipped (fb_pop_clip fb) × Clipped (fb_reset_clip fb)
  Clipped-kept r lx ly = (push-Clipped r lx ly, pop-Clipped, reset-Clipped)

  is_clipped-shows : (x y : ℕ) → is_clipped fb x y ≡ not (shows (fb_get_clip fb) x y)
  unfolding is_clipped
  is_clipped-shows x y = ground arith

pub is_clipped_top :
    (fb : Framebuffer) (c : Rect) (x y : ℕ)
    → fb_get_clip fb ≡ c
    → is_clipped fb x y ≡ not (shows c x y)
unfolding is_clipped
is_clipped_top fb c x y e = rw e (ground arith)

pushed_top :
    (fb : Framebuffer) (r : Rect)
    → Clipped fb
    → fb.clip_depth + 1 < fb_max_clip_depth
    → fb_get_clip (pushed fb r) ≡ clip_to (fb_get_clip fb) r
unfolding fb_get_clip
pushed_top fb r inv room =
    get_or-set_self fb.clip_stack (fb.clip_depth + 1)
      (clip_to (get_or fb.clip_stack fb.clip_depth no_clip) r) no_clip (omega (arith, inv.slots))

not_&& : (a b : Bool) → not (a && b) ≡ (not a || not b)
not_&& true b = refl
not_&& false b = refl

-- With a clip stack in order that has room, on a screen of less than 2 ^ 31 pixels each way,
-- fb_push_clip succeeds, and afterwards a pixel with coordinates below 2 ^ 31 is clipped exactly
-- when it was clipped before or lies outside the rectangle pushed, whose sums must fit a signed
-- number.
pub push_clip-is_clipped :
    (fb : Framebuffer) (r : Rect) (x y : ℕ)
    → Clipped fb
    → fb.clip_depth + 1 < fb_max_clip_depth
    → Fits r
    → x < 2 ^ 31
    → y < 2 ^ 31
    → ((fb_push_clip fb r).0 ≡ true)
      × (is_clipped (fb_push_clip fb r).1 x y
          ≡ (is_clipped fb x y || not (spans r.x r.w x && spans r.y r.h y)))
push_clip-is_clipped fb r x y inv room f px py =
    let cur = fb_get_clip fb in
    let top = top-OnScreen inv in
    let e = push_eq fb r room in
    (
      ap (λ k. k.0) e,
      ap (λ k. is_clipped k.1 x y) e
          ∙ is_clipped_top (pushed fb r) (clip_to cur r) x y (pushed_top fb r inv room)
          ∙ ap not (
              clip_to-shows cur r (omega (arith, top.x, inv.width))
                (omega (arith, top.y, inv.height)) f x y px py)
          ∙ not_&& (shows cur x y) (spans r.x r.w x && spans r.y r.h y)
          ∙ ap (λ b. b || not (spans r.x r.w x && spans r.y r.h y))
              (sym (is_clipped_top fb cur x y refl)),
    )

pop_pushed :
    (fb : Framebuffer) (r : Rect) (i : ℕ)
    → i ≤ fb.clip_depth
    → ((fb_pop_clip (pushed fb r)).clip_depth ≡ fb.clip_depth)
      × (get_or (fb_pop_clip (pushed fb r)).clip_stack i no_clip ≡ get_or fb.clip_stack i no_clip)
unfolding fb_pop_clip
pop_pushed fb r i h = rw (lt→ltb 0 (fb.clip_depth + 1) (omega arith)) (
  omega arith,
  get_or-set_ne fb.clip_stack (fb.clip_depth + 1) i (clip_to (fb_get_clip fb) r) no_clip
      (λ e. omega arith),
)

-- fb_pop_clip after a successful fb_push_clip restores the depth and every clip rectangle in use.
pub pop_clip-push_clip :
    (fb : Framebuffer) (r : Rect) (i : ℕ)
    → (fb_push_clip fb r).0 ≡ true
    → i ≤ fb.clip_depth
    → ((fb_pop_clip (fb_push_clip fb r).1).clip_depth ≡ fb.clip_depth)
      × (get_or (fb_pop_clip (fb_push_clip fb r).1).clip_stack i no_clip
          ≡ get_or fb.clip_stack i no_clip)
pop_clip-push_clip fb r i done h = elim (dec_lt (fb.clip_depth + 1) fb_max_clip_depth) [
  | yes room ↦
      subst
        (λ k.
          ((fb_pop_clip k.1).clip_depth ≡ fb.clip_depth)
          × (get_or (fb_pop_clip k.1).clip_stack i no_clip ≡ get_or fb.clip_stack i no_clip))
        (sym (push_eq fb r room)) (pop_pushed fb r i h)
  | no full ↦ absurd (cc (done, ap (λ k. k.0) (push_full fb r (omega arith))))
]
