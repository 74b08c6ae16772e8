-- ===== src/Framebuffer/Command/Session.antt =====
-- A whole session of drawing: commands, clearing, and the handling of clip and dirty rectangles in any
-- order.
pub mod Flips
pub mod Frames
use tutorial_os.Common.{
  List, ℕ, ◌+◌, ◌*◌, ◌%◌, ◌≤◌, ◌<◌, ◌^◌, ◌≡◌, ◌⊎◌, inl, inr, refl, ◌∙◌, ap, sym, subst, some, leb,
  ltb, arith, Bool-cases,
}
use tutorial_os.Memory.{load_byte}
use tutorial_os.Framebuffer.{
  PixelFormat, Rect, rect, Framebuffer, fb_push_clip, fb_pop_clip, fb_reset_clip, fb_mark_dirty,
  fb_mark_all_dirty, fb_clear_dirty,
}
use tutorial_os.Framebuffer.Clip.Stack.{Clipped, Clipped-kept}
use tutorial_os.Framebuffer.Pixel.{pixel_bytes, Shaped, row-is, row-after, column-le}
use tutorial_os.Framebuffer.Canvas.{Canvas}
use tutorial_os.Framebuffer.Area.Clear.{clear-OffScreen}
use tutorial_os.Framebuffer.Area.{fb_clear}
use tutorial_os.Framebuffer.Canvas.Paints.{
  Ready, undirtied, Hidden, OffScreen, Ready-undirtied, undirtied-Ready,
}
use tutorial_os.Framebuffer.Canvas.Paints.Basic.{mark_dirty-frame}
use tutorial_os.Framebuffer.Command.{Command, run, run-Hidden}

-- one call
pub data Step : Canvas → Canvas → Type 0 where
  draw : {c c' : Canvas} (fuel : ℕ) (command : Command) → run fuel command c ≡ some c' → Step c c'
  push :
      (c : Canvas) (r : Rect) → r.x < 2 ^ 32 → r.y < 2 ^ 32 → Step c ((fb_push_clip c.0 r).1, c.1)
  pop : (c : Canvas) → Step c (fb_pop_clip c.0, c.1)
  reset : (c : Canvas) → Step c (fb_reset_clip c.0, c.1)
  mark : (c : Canvas) (x y w h : ℕ) → Step c (fb_mark_dirty c.0 x y w h, c.1)
  mark_all : (c : Canvas) → Step c (fb_mark_all_dirty c.0, c.1)
  unmark : (c : Canvas) → Step c (fb_clear_dirty c.0, c.1)
  clear : (c : Canvas) (color : ℕ) → Step c (fb_clear color c)

pub data Reach (c : Canvas) : Canvas → Type 0 where
  here : Reach c c
  next : {d e : Canvas} → Reach c d → Step d e → Reach c e

-- where the buffers lie in memory and how their pixels are laid out
abbrev geometry : Framebuffer → ℕ × ℕ × ℕ × ℕ × PixelFormat × List ℕ × ℕ × ℕ × ℕ
geometry fb = (
  fb.addr, fb.width, fb.height, fb.pitch, fb.pixel_format, fb.buffers, fb.front_buffer,
  fb.back_buffer, fb.buffer_size,
)

abbrev Room : ℕ × ℕ × ℕ × ℕ × PixelFormat × List ℕ × ℕ × ℕ × ℕ → Type 0
Room g = (pixel_bytes g.4 * g.1 ≤ g.3) × (g.2 * g.3 < 2 ^ 32) × (g.3 % 4 ≡ 0)

-- what a call keeps of a canvas, with the byte `a` off the screen
record Kept (a : ℕ) (c d : Canvas) : Type 0 where
  place : geometry d.0 ≡ geometry c.0
  stack : Clipped d.0
  byte : load_byte d.1 a ≡ load_byte c.1 a

Kept-Ready : {a : ℕ} {c d : Canvas} → Ready c.0 → Kept a c d → Ready d.0
Kept-Ready {a} {c} {d} r k =
    let room : Room (geometry d.0) =
      subst Room (sym k.place) (r.shaped.rows, r.shaped.size, r.words) in
    record { shaped = record { rows = room.0; size = room.1 }; clipped = k.stack; words = room.2 }

OffScreen-Hidden : (fb : Framebuffer) (a : ℕ) → Shaped fb → OffScreen fb a → Hidden fb a
OffScreen-Hidden fb a sh (inl h) x y hx hy shown = inr (omega (arith, row-is fb sh y hy))
OffScreen-Hidden fb a sh (inr h) x y hx hy shown =
    inl (omega (arith, row-is fb sh y hy, row-after fb sh y fb.height hy, column-le fb sh x hx))

push-place : (fb : Framebuffer) (r : Rect) → geometry (fb_push_clip fb r).1 ≡ geometry fb
unfolding fb_push_clip
push-place fb r = elim (Bool-cases (leb 15 fb.clip_depth)) [ inl e ↦ rw e refl | inr e ↦ rw e refl ]

pop-place : (fb : Framebuffer) → geometry (fb_pop_clip fb) ≡ geometry fb
unfolding fb_pop_clip
pop-place fb = elim (Bool-cases (ltb 0 fb.clip_depth)) [ inl e ↦ rw e refl | inr e ↦ rw e refl ]

reset-place : (fb : Framebuffer) → geometry (fb_reset_clip fb) ≡ geometry fb
unfolding fb_reset_clip
reset-place fb = refl

-- A call that changes the dirty rectangles alone keeps the rest.
undirtied-Kept :
    {a : ℕ} (c d : Canvas)
    → Ready c.0
    → undirtied d.0 ≡ undirtied c.0
    → load_byte d.1 a ≡ load_byte c.1 a
    → Kept a c d
undirtied-Kept c d r e same = record {
  place = ap geometry e;
  stack = (undirtied-Ready (subst Ready (sym e) (Ready-undirtied r))).clipped;
  byte = same;
}

mark_all-frame : (fb : Framebuffer) → undirtied (fb_mark_all_dirty fb) ≡ undirtied fb
unfolding fb_mark_all_dirty
mark_all-frame fb = refl

unmark-frame : (fb : Framebuffer) → undirtied (fb_clear_dirty fb) ≡ undirtied fb
unfolding fb_clear_dirty
unmark-frame fb = refl

clear-frame : (color : ℕ) (c : Canvas) → undirtied (fb_clear color c).0 ≡ undirtied c.0
unfolding fb_clear
clear-frame color c = mark_all-frame c.0

Step-Kept : {a : ℕ} {c d : Canvas} → Ready c.0 → OffScreen c.0 a → Step c d → Kept a c d
Step-Kept {a} r off (draw {c} {c'} fuel command done) =
    let kept = run-Hidden fuel command c c' a r done (OffScreen-Hidden c.0 a r.shaped off) in
    undirtied-Kept c c' r kept.0 kept.1
Step-Kept r off (push c s lx ly) = record {
  place = push-place c.0 s;
  stack = (Clipped-kept r.clipped s lx ly).0;
  byte = refl;
}
Step-Kept r off (pop c) = record {
  place = pop-place c.0;
  stack = (Clipped-kept r.clipped (rect 0 0 0 0) (omega arith) (omega arith)).1;
  byte = refl;
}
Step-Kept r off (reset c) = record {
  place = reset-place c.0;
  stack = (Clipped-kept r.clipped (rect 0 0 0 0) (omega arith) (omega arith)).2;
  byte = refl;
}
Step-Kept r off (mark c x y w h) =
    undirtied-Kept c (fb_mark_dirty c.0 x y w h, c.1) r (mark_dirty-frame c.0 x y w h) refl
Step-Kept r off (mark_all c) =
    undirtied-Kept c (fb_mark_all_dirty c.0, c.1) r (mark_all-frame c.0) refl
Step-Kept r off (unmark c) = undirtied-Kept c (fb_clear_dirty c.0, c.1) r (unmark-frame c.0) refl
Step-Kept {a} r off (clear c color) =
    undirtied-Kept c (fb_clear color c) r (clear-frame color c)
      (clear-OffScreen color c a r.shaped r.words off)

OffScreen-place :
    (fb fb' : Framebuffer) (a : ℕ) → geometry fb' ≡ geometry fb → OffScreen fb a → OffScreen fb' a
OffScreen-place fb fb' a e off = subst (λ g. (a < g.0) ⊎ (g.0 + g.2 * g.3 ≤ a)) (sym e) off

Reach-Kept : {a : ℕ} {c d : Canvas} → Ready c.0 → OffScreen c.0 a → Reach c d → Kept a c d
Reach-Kept r off here = record { place = refl; stack = r.clipped; byte = refl }
Reach-Kept {a} {c} r off (next {d} reach step) =
    let before = Reach-Kept r off reach in
    let after = Step-Kept (Kept-Ready r before) (OffScreen-place c.0 d.0 a before.place off) step in
    record {
      place = after.place ∙ before.place;
      stack = after.stack;
      byte = after.byte ∙ before.byte;
    }

-- From a framebuffer that can be drawn on, no sequence of drawing commands, clearing, clip changes and
-- dirty marks writes a byte outside the rows of the screen, and the framebuffer can be drawn on
-- throughout: its clip rectangles stay on the screen, which stays where it is.
pub Reach-OffScreen :
    (c d : Canvas) (a : ℕ)
    → Ready c.0
    → Reach c d
    → OffScreen c.0 a
    → Ready d.0 × (d.0.addr ≡ c.0.addr) × (load_byte d.1 a ≡ load_byte c.1 a)
Reach-OffScreen c d a r reach off =
    let kept = Reach-Kept r off reach in (Kept-Ready r kept, ap (λ g. g.0) kept.place, kept.byte)
