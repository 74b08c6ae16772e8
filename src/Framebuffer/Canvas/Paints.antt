-- ===== src/Framebuffer/Canvas/Paints.antt =====
-- What drawing may touch: the bytes of the pixels that are on the screen and not clipped, and the
-- record of dirty rectangles.
pub mod Basic
pub mod Column
pub mod Lines
pub mod Areas
pub mod Texts
use tutorial_os.Common.{
  ◌⊎◌, ℕ, zero, suc, ◌+◌, ◌*◌, ◌%◌, ◌≤◌, ◌<◌, ◌^◌, ◌≡◌, refl, ◌∙◌, ap, sym, subst, Bool, true,
  false, Option, none, some, List, [], if◌then◌else◌, arith,
}
use tutorial_os.Memory.{Memory, load_byte}
use tutorial_os.Memory.Laws.{Apart}
use tutorial_os.Framebuffer.{Framebuffer, fb_get_clip, is_clipped, fb_row}
use tutorial_os.Framebuffer.Clip.Stack.{Clipped}
use tutorial_os.Framebuffer.Pixel.{pixel_bytes, Shaped}
use tutorial_os.Framebuffer.Canvas.{Canvas, ◌>>=◌, for_up, try_up}

-- A framebuffer that can be drawn on: rows with room, whole words, and clip rectangles on the screen.
pub record Ready (fb : Framebuffer) : Type 0 where
  pub shaped : Shaped fb
  pub clipped : Clipped fb
  pub words : fb.pitch % 4 ≡ 0

-- a framebuffer without its record of dirty rectangles
abbrev pub undirtied : Framebuffer → Framebuffer
undirtied fb = record fb { dirty_rects = []; dirty_count = 0; full_dirty = false }

-- the byte belongs to no pixel that is on the screen and not clipped
abbrev pub Hidden : Framebuffer → ℕ → Type 0
Hidden fb a =
    (x y : ℕ)
    → x < fb.width
    → y < fb.height
    → is_clipped fb x y ≡ false
    → Apart (pixel_bytes fb.pixel_format) (fb_row fb y + pixel_bytes fb.pixel_format * x) 1 a

-- a byte outside the rows of the screen
abbrev pub OffScreen : Framebuffer → ℕ → Type 0
OffScreen fb a = (a < fb.addr) ⊎ (fb.addr + fb.height * fb.pitch ≤ a)

-- the canvas is `f` with the memory `m`, but for dirty rectangles and bytes that are not hidden
pub record Painted (f : Framebuffer) (m : Memory) (c : Canvas) : Type 0 where
  pub frame : undirtied c.0 ≡ undirtied f
  pub rest : (a : ℕ) → Hidden f a → load_byte c.1 a ≡ load_byte m a

-- every result of a drawing that may not return
pub record Each (P : Canvas → Type 0) (o : Option Canvas) : Type 0 where
  pub holds : (c : Canvas) → o ≡ some c → P c

pub Hidden-undirtied : (fb : Framebuffer) (a : ℕ) → Hidden fb a → Hidden (undirtied fb) a
unfolding is_clipped fb_get_clip fb_row
Hidden-undirtied fb a h = h

pub undirtied-Hidden : (fb : Framebuffer) (a : ℕ) → Hidden (undirtied fb) a → Hidden fb a
unfolding is_clipped fb_get_clip fb_row
undirtied-Hidden fb a h = h

pub Ready-undirtied : {fb : Framebuffer} → Ready fb → Ready (undirtied fb)
Ready-undirtied r = record {
  shaped = record { rows = r.shaped.rows; size = r.shaped.size };
  clipped = record {
    depth = r.clipped.depth;
    slots = r.clipped.slots;
    width = r.clipped.width;
    height = r.clipped.height;
    all = r.clipped.all;
  };
  words = r.words;
}

pub undirtied-Ready : {fb : Framebuffer} → Ready (undirtied fb) → Ready fb
undirtied-Ready r = record {
  shaped = record { rows = r.shaped.rows; size = r.shaped.size };
  clipped = record {
    depth = r.clipped.depth;
    slots = r.clipped.slots;
    width = r.clipped.width;
    height = r.clipped.height;
    all = r.clipped.all;
  };
  words = r.words;
}

pub Painted-refl : (c : Canvas) → Painted c.0 c.1 c
Painted-refl c = record { frame = refl; rest = λ a h. refl }

-- loops keep what their body keeps
pub for_up-keeps {ℓ κ} :
    {A : Type ℓ} (P : A → Type κ) (body : ℕ → A → A)
    → ((i : ℕ) (a : A) → P a → P (body i a))
    → (n i : ℕ) (a : A) → P a
    → P (for_up body n i a)
for_up-keeps P body keep zero i a h = h
for_up-keeps P body keep (suc n) i a h = for_up-keeps P body keep n (i + 1) (body i a) (keep i a h)

-- the same where the body keeps it only in the rounds that are made
pub for_up-within {ℓ κ} :
    {A : Type ℓ} (P : A → Type κ) (body : ℕ → A → A)
    → (n i : ℕ) → ((j : ℕ) → i ≤ j → j < i + n → (a : A) → P a → P (body j a))
    → (a : A) → P a
    → P (for_up body n i a)
for_up-within P body zero i keep a h = h
for_up-within P body (suc n) i keep a h =
    for_up-within P body n (i + 1) (λ j le lt. keep j (omega arith) (omega arith)) (body i a)
      (keep i (omega arith) (omega arith) a h)

pub Each-some : {P : Canvas → Type 0} (c : Canvas) → P c → Each P (some c)
Each-some {P} c h = record { holds = λ c' e. subst P (ap (λ o. from o c) e) h }
  where
    from : Option Canvas → Canvas → Canvas
    from (some a) d = a
    from none d = d

pub Each-none : {P : Canvas → Type 0} → Each P none
Each-none = record { holds = λ c e. absurd (cc e) }

pub Each->>= :
    {P : Canvas → Type 0} (o : Option Canvas) (g : Canvas → Option Canvas)
    → Each P o
    → ((c : Canvas) → P c → Each P (g c))
    → Each P (o >>= g)
Each->>= none g ho hg = Each-none
Each->>= (some a) g ho hg = hg a (ho.holds a refl)

pub try_up-keeps :
    {P : Canvas → Type 0} (body : ℕ → Canvas → Option Canvas)
    → ((i : ℕ) (c : Canvas) → P c → Each P (body i c))
    → (n i : ℕ) (c : Canvas) → P c
    → Each P (try_up body n i c)
try_up-keeps body keep zero i c h = Each-some c h
try_up-keeps body keep (suc n) i c h =
    Each->>= (body i c) (try_up body n (i + 1)) (keep i c h)
      (λ d hd. try_up-keeps body keep n (i + 1) d hd)

pub if-keeps {ℓ κ} :
    {A : Type ℓ} (P : A → Type κ) (b : Bool) (u v : A) → P u → P v → P (if b then u else v)
if-keeps P true u v hu hv = hu
if-keeps P false u v hu hv = hv
