-- ===== src/Framebuffer/Command/Session/Flips.antt =====
-- Drawing and presenting in any order: what is shown, what is drawn on, and what is written back
-- from the cache.
use tutorial_os.Common.{
  ℕ, ◌+◌, ◌*◌, ◌≤◌, ◌<◌, ◌^◌, ◌≡◌, ◌⊎◌, refl, ◌∙◌, ap, sym, subst, Bool, true, false, not, List, [],
  ◌∷◌, ◌++◌, get_or, if◌then◌else◌, arith,
}
use tutorial_os.Framebuffer.{Framebuffer, fb_clear_dirty}
use tutorial_os.Framebuffer.Int32.{mul32}
use tutorial_os.Framebuffer.Canvas.{Canvas}
use tutorial_os.Framebuffer.Canvas.Paints.{Ready, OffScreen, if-keeps}
use tutorial_os.Framebuffer.Present.{
  fb_set_vsync, fb_swap_buffers, Action, dsb, clean_dcache, set_virtual_offset, wait_vsync,
  fb_flip_display, fb_present, fb_present_immediate,
}
use tutorial_os.Framebuffer.Command.Session.{Step, geometry}

-- Calls that draw and calls that present, with what they do to the hardware.
pub data Frames (c : Canvas) : List Action → Canvas → Type 0 where
  start : Frames c [] c
  step : {ts : List Action} {d e : Canvas} → Frames c ts d → Step d e → Frames c ts e
  present :
      {ts : List Action} {d : Canvas}
      → Frames c ts d
      → Frames c (ts ++ (fb_present d.0).0) ((fb_present d.0).1, d.1)
  present_immediate :
      {ts : List Action} {d : Canvas} → Frames c ts d → Frames c (ts ++ fb_present_immediate d.0) d
  set_vsync :
      {ts : List Action} {d : Canvas} (enabled : Bool)
      → Frames c ts d
      → Frames c ts (fb_set_vsync enabled d.0, d.1)

-- The hardware shows the rows from the virtual offset that was set last.
abbrev pub shown : ℕ → List Action → ℕ
shown y [] = y
shown y (dsb ∷ ts) = shown y ts
shown y (clean_dcache a n ∷ ts) = shown y ts
shown y (set_virtual_offset x v ∷ ts) = shown v ts
shown y (wait_vsync ∷ ts) = shown y ts

pub shown-append : (y : ℕ) (ts bs : List Action) → shown y (ts ++ bs) ≡ shown (shown y ts) bs
shown-append y [] bs = refl
shown-append y (dsb ∷ ts) bs = shown-append y ts bs
shown-append y (clean_dcache a n ∷ ts) bs = shown-append y ts bs
shown-append y (set_virtual_offset x v ∷ ts) bs = shown-append v ts bs
shown-append y (wait_vsync ∷ ts) bs = shown-append y ts bs

-- What is done to the hardware: the bytes of one screen are written back between barriers, and a
-- screen is shown right after its own bytes have been.
pub data Flushed (a h p : ℕ) : List Action → Type 0 where
  nothing : Flushed a h p []
  written :
      {ts : List Action} (y : ℕ)
      → Flushed a h p ts
      → Flushed a h p (ts ++ dsb ∷ clean_dcache (a + y * p) (h * p) ∷ dsb ∷ [])
  shown_at :
      {ts : List Action} (y : ℕ) (enabled : Bool)
      → Flushed a h p ts
      → Flushed a h p (
          ts
          ++ dsb
            ∷ clean_dcache (a + y * p) (h * p)
            ∷ dsb
            ∷ set_virtual_offset 0 y
            ∷ (if enabled then wait_vsync ∷ [] else []))

append_nil : (ts : List Action) → ts ++ [] ≡ ts
append_nil [] = refl
append_nil (t ∷ ts) = ap (λ us. t ∷ us) (append_nil ts)

-- the two buffers, one shown and one drawn on
pub data Turn : ℕ → ℕ → Type 0 where
  second_drawn : Turn 0 1
  first_drawn : Turn 1 0

-- Two screens of `h` rows of `p` bytes from `a` on; the hardware shows the one at row `y`, and the other
-- one is drawn on.
pub record Double (a h p y : ℕ) (fb : Framebuffer) : Type 0 where
  pub ready : Ready fb
  pub height : fb.height ≡ h
  pub pitch : fb.pitch ≡ p
  pub size : fb.buffer_size ≡ h * p
  pub drawn : fb.addr ≡ a + fb.back_buffer * (h * p)
  pub first : get_or fb.buffers 0 0 ≡ a
  pub second : get_or fb.buffers 1 0 ≡ a + h * p
  pub turn : Turn fb.front_buffer fb.back_buffer
  pub shows : y ≡ fb.front_buffer * h

buffer-at :
    {a h p y : ℕ} {fb : Framebuffer} (i j : ℕ)
    → Double a h p y fb
    → Turn i j
    → get_or fb.buffers i 0 ≡ a + i * (h * p)
buffer-at i j d second_drawn = d.first ∙ omega arith
buffer-at i j d first_drawn = d.second ∙ omega arith

turned : {i j : ℕ} → Turn i j → Turn j i
turned second_drawn = first_drawn
turned first_drawn = second_drawn

shown-wait : (y : ℕ) (enabled : Bool) → shown y (if enabled then wait_vsync ∷ [] else []) ≡ y
shown-wait y true = refl
shown-wait y false = refl

row-of : (i j h : ℕ) → h < 2 ^ 31 → Turn i j → mul32 i h ≡ i * h
row-of i j h low second_drawn = omega arith
row-of i j h low first_drawn = omega arith

off-drawn :
    (a n i j b : ℕ) → Turn i j → (b < a) ⊎ (a + 2 * n ≤ b) → (b < a + j * n) ⊎ (a + j * n + n ≤ b)
off-drawn a n i j b second_drawn h = omega arith
off-drawn a n i j b first_drawn h = omega arith

module _ (a h p : ℕ) (low : h < 2 ^ 31) where
  pub place-Double :
      {y : ℕ} {fb fb' : Framebuffer}
      → Double a h p y fb
      → Ready fb'
      → geometry fb' ≡ geometry fb
      → Double a h p y fb'
  place-Double {y} {fb} {fb'} b r e = record {
    ready = r;
    height = ap (λ g. g.2) e ∙ b.height;
    pitch = ap (λ g. g.3) e ∙ b.pitch;
    size = ap (λ g. g.8) e ∙ b.size;
    drawn = subst (λ g. g.0 ≡ a + g.7 * (h * p)) (sym e) b.drawn;
    first = ap (λ g. get_or g.5 0 0) e ∙ b.first;
    second = ap (λ g. get_or g.5 1 0) e ∙ b.second;
    turn = subst (λ g. Turn g.6 g.7) (sym e) b.turn;
    shows = subst (λ g. y ≡ g.6 * h) (sym e) b.shows;
  }

  pub drawn-OffScreen :
      {y : ℕ} {fb : Framebuffer} (b : ℕ)
      → Double a h p y fb
      → (b < a) ⊎ (a + 2 * (h * p) ≤ b)
      → OffScreen fb b
  drawn-OffScreen {y} {fb} b d out =
      rw (d.drawn, d.height, d.pitch)
        (off-drawn a (h * p) fb.front_buffer fb.back_buffer b d.turn out)

  pub present-Double :
      {y : ℕ} {fb : Framebuffer}
      → Double a h p y fb
      → Double a h p (shown y (fb_present fb).0) (fb_present fb).1
  unfolding fb_present fb_swap_buffers fb_flip_display fb_clear_dirty
  present-Double {y} {fb} d =
      if-keeps (λ (r : List Action × Framebuffer). Double a h p (shown y r.0) r.1)
        (not fb.initialized) ([], fb) _ d
        (record {
          ready = record {
            shaped = record { rows = d.ready.shaped.rows; size = d.ready.shaped.size };
            clipped = record {
              depth = d.ready.clipped.depth;
              slots = d.ready.clipped.slots;
              width = d.ready.clipped.width;
              height = d.ready.clipped.height;
              all = d.ready.clipped.all;
            };
            words = d.ready.words;
          };
          height = d.height;
          pitch = d.pitch;
          size = d.size;
          drawn = buffer-at fb.front_buffer fb.back_buffer d d.turn;
          first = d.first;
          second = d.second;
          turn = turned d.turn;
          shows =
              shown-wait (mul32 fb.back_buffer fb.height) fb.vsync_enabled
              ∙ ap (mul32 fb.back_buffer) d.height
              ∙ row-of fb.back_buffer fb.front_buffer h low (turned d.turn);
        })

  Flushed-show :
      (ts : List Action) (b n y : ℕ) (enabled : Bool)
      → b ≡ a + y * p
      → n ≡ h * p
      → Flushed a h p ts
      → Flushed a h p (
          ts
          ++ dsb
            ∷ clean_dcache b n
            ∷ dsb
            ∷ set_virtual_offset 0 y
            ∷ (if enabled then wait_vsync ∷ [] else []))
  Flushed-show ts b n y enabled e k f = rw (e, k) (shown_at y enabled f)

  Flushed-write :
      (ts : List Action) (b n y : ℕ)
      → b ≡ a + y * p
      → n ≡ h * p
      → Flushed a h p ts
      → Flushed a h p (ts ++ dsb ∷ clean_dcache b n ∷ dsb ∷ [])
  Flushed-write ts b n y e k f = rw (e, k) (written y f)

  row_address : (i j : ℕ) → Turn i j → a + j * (h * p) ≡ a + j * h * p
  row_address i j second_drawn = omega arith
  row_address i j first_drawn = omega arith

  pub present-Flushed :
      {y : ℕ} {fb : Framebuffer} (ts : List Action)
      → Double a h p y fb
      → Flushed a h p ts
      → Flushed a h p (ts ++ (fb_present fb).0)
  unfolding fb_present fb_swap_buffers fb_flip_display
  present-Flushed {y} {fb} ts d f =
      if-keeps (λ (r : List Action × Framebuffer). Flushed a h p (ts ++ r.0)) (not fb.initialized)
        ([], fb) _ (subst (Flushed a h p) (sym (append_nil ts)) f)
        (Flushed-show ts fb.addr fb.buffer_size (mul32 fb.back_buffer fb.height) fb.vsync_enabled
          (d.drawn
            ∙ row_address fb.front_buffer fb.back_buffer d.turn
            ∙ ap (λ k. a + k * p)
                (sym (
                  ap (mul32 fb.back_buffer) d.height
                  ∙ row-of fb.back_buffer fb.front_buffer h low (turned d.turn))))
          d.size f)

  pub immediate-Flushed :
      {y : ℕ} {fb : Framebuffer} (ts : List Action)
      → Double a h p y fb
      → Flushed a h p ts
      → Flushed a h p (ts ++ fb_present_immediate fb)
  unfolding fb_present_immediate
  immediate-Flushed {y} {fb} ts d f =
      if-keeps (λ us. Flushed a h p (ts ++ us)) (not fb.initialized) [] _
        (subst (Flushed a h p) (sym (append_nil ts)) f)
        (Flushed-write ts fb.addr fb.buffer_size (fb.back_buffer * h)
          (d.drawn ∙ row_address fb.front_buffer fb.back_buffer d.turn) d.size f)

  pub immediate-shown : (y : ℕ) (fb : Framebuffer) → shown y (fb_present_immediate fb) ≡ y
  unfolding fb_present_immediate
  immediate-shown y fb = if-keeps (λ us. shown y us ≡ y) (not fb.initialized) [] _ refl refl

  pub vsync-Double :
      {y : ℕ} {fb : Framebuffer} (enabled : Bool)
      → Double a h p y fb
      → Double a h p y (fb_set_vsync enabled fb)
  unfolding fb_set_vsync
  vsync-Double {y} {fb} enabled d = record {
    ready = record {
      shaped = record { rows = d.ready.shaped.rows; size = d.ready.shaped.size };
      clipped = record {
        depth = d.ready.clipped.depth;
        slots = d.ready.clipped.slots;
        width = d.ready.clipped.width;
        height = d.ready.clipped.height;
        all = d.ready.clipped.all;
      };
      words = d.ready.words;
    };
    height = d.height;
    pitch = d.pitch;
    size = d.size;
    drawn = d.drawn;
    first = d.first;
    second = d.second;
    turn = d.turn;
    shows = d.shows;
  }
