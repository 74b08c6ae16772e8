-- ===== src/Framebuffer/Present/Buffers.antt =====
-- What fb_init_with_size makes of an answer of the mailbox.
use tutorial_os.Common.{
  ℕ, ◌+◌, ◌*◌, ◌%◌, ◌≤◌, ◌<◌, ◌^◌, ◌≡◌, ◌≢◌, refl, ◌∙◌, sym, subst, Bool, true, List, get_or, set,
  length, length-set, get_or-set_self, arith, ne→==_false,
}
use tutorial_os.Framebuffer.{rect, Framebuffer, no_clip, fb_max_clip_depth}
use tutorial_os.Framebuffer.Clip.{OnScreen}
use tutorial_os.Framebuffer.Clip.Stack.{Clipped}
use tutorial_os.Framebuffer.Pixel.{pixel_bytes, Shaped}
use tutorial_os.Framebuffer.Present.{
  Mailbox, init_message, alloc_idx, pitch_idx, bus_to_arm, set_up, fb_init_with_size,
}

-- What a successful answer of the mailbox brings: a buffer with room for the two screens of the message,
-- and rows of whole words with room for their pixels, less than 4 GiB for one screen.
pub record Granted (width height bytes : ℕ) (answer : Bool × List ℕ) : Type 0 where
  pub succeeded : answer.0 ≡ true
  pub some_addr : get_or answer.1 alloc_idx 0 ≢ 0
  pub some_size : get_or answer.1 (alloc_idx + 1) 0 ≢ 0
  pub rows : bytes * width ≤ get_or answer.1 pitch_idx 0
  pub words : get_or answer.1 pitch_idx 0 % 4 ≡ 0
  pub size : height * get_or answer.1 pitch_idx 0 < 2 ^ 32
  pub room : 2 * (height * get_or answer.1 pitch_idx 0) ≤ get_or answer.1 (alloc_idx + 1) 0

pub init-is_set_up :
    (call : Mailbox) (width height : ℕ) (fb : Framebuffer)
    → Granted width height (pixel_bytes fb.pixel_format) (call (init_message width height))
    → fb_init_with_size call width height fb ≡ (
      true,
      set_up width height
          (bus_to_arm (get_or (call (init_message width height)).1 alloc_idx 0))
          (get_or (call (init_message width height)).1 pitch_idx 0)
          fb,
    )
unfolding fb_init_with_size
init-is_set_up call width height fb g =
    rw g.succeeded (rw (ne→==_false _ 0 g.some_addr) (rw (ne→==_false _ 0 g.some_size) refl))

module _ (width height addr pitch : ℕ) (fb : Framebuffer) where
  abbrev up : Framebuffer
  up = set_up width height addr pitch fb

  pub up-Clipped :
      width < 2 ^ 31 → height < 2 ^ 31 → length fb.clip_stack ≡ fb_max_clip_depth → Clipped up
  unfolding set_up
  up-Clipped hw hh slots = record {
    depth = omega arith;
    slots = length-set fb.clip_stack 0 (rect 0 0 width height) ∙ slots;
    width = hw;
    height = hh;
    all = λ i hi.
        let e : 0 ≡ i = omega arith in
        subst
          (λ j.
            OnScreen width height (get_or (set fb.clip_stack 0 (rect 0 0 width height)) j no_clip))
          e
          (subst (OnScreen width height)
            (sym (get_or-set_self fb.clip_stack 0 (rect 0 0 width height) no_clip (omega arith)))
            (record { x = omega arith; y = omega arith }));
  }

  pub up-Shaped : pixel_bytes fb.pixel_format * width ≤ pitch → height * pitch < 2 ^ 32 → Shaped up
  unfolding set_up
  up-Shaped rows size = record { rows = rows; size = size }

  pub up-words : pitch % 4 ≡ 0 → up.pitch % 4 ≡ 0
  unfolding set_up
  up-words words = words
