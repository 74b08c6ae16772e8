-- ===== src/Framebuffer/Canvas.antt =====
-- The state that the drawing functions of framebuffer.c pass on, a framebuffer with the memory that its
-- pixels lie in, and the loops they are built from.
pub mod Paints
use tutorial_os.Common.{ℕ, zero, suc, ◌+◌, ◌-◌, Bool, Option, none, some, if◌then◌else◌}
use tutorial_os.Memory.{Memory}
use tutorial_os.Framebuffer.{Framebuffer, fb_put_pixel}
use tutorial_os.Framebuffer.Fill.{fb_fill_rect}
use tutorial_os.Framebuffer.Line.{fb_draw_hline}

abbrev pub Canvas : Type 0
Canvas = Framebuffer × Memory

-- A drawing that may not return is an Option, `none` when its loop runs out of fuel.
infixl 5 ◌>>=◌
abbrev pub ◌>>=◌ {ℓ κ} : {A : Type ℓ} {B : Type κ} → Option A → (A → Option B) → Option B
none >>= f = none
some a >>= f = f a

-- `for (i = start; i < start + n; i++) body(i)`
abbrev pub for_up {ℓ} : {A : Type ℓ} → (ℕ → A → A) → ℕ → ℕ → A → A
for_up body zero i a = a
for_up body (suc n) i a = for_up body n (i + 1) (body i a)

-- the same with a body that may not return
abbrev pub try_up {ℓ} : {A : Type ℓ} → (ℕ → A → Option A) → ℕ → ℕ → A → Option A
try_up body zero i a = some a
try_up body (suc n) i a = body i a >>= try_up body n (i + 1)

abbrev pub put : ℕ → ℕ → ℕ → Canvas → Canvas
put x y color c = (c.0, fb_put_pixel c.0 c.1 x y color)

abbrev pub put_if : Bool → ℕ → ℕ → ℕ → Canvas → Canvas
put_if test x y color c = if test then put x y color c else c

abbrev pub hline : ℕ → ℕ → ℕ → ℕ → Canvas → Canvas
hline x y len color c = (c.0, fb_draw_hline c.0 c.1 x y len color)

abbrev pub fill : ℕ → ℕ → ℕ → ℕ → ℕ → Canvas → Canvas
fill x y w h color c = fb_fill_rect c.0 c.1 x y w h color
