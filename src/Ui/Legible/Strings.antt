-- ===== src/Ui/Legible/Strings.antt =====
-- Legible texts and labels are drawn to their end.
use tutorial_os.Common.{
  ℕ, zero, suc, ◌+◌, ◌≤◌, ◌<◌, ◌≡◌, refl, subst, ◌^◌, ◌&&◌, true, false, Bool-cases, inl, inr, some,
  leb, ltb, ◌==◌, arith,
}
use tutorial_os.Memory.{Memory, load_byte}
use tutorial_os.CString.Compare.{IsText, IsText-tail, IsText-empty, at_zero}
use tutorial_os.Framebuffer.{add32, Framebuffer}
use tutorial_os.Framebuffer.Canvas.{Canvas}
use tutorial_os.Framebuffer.Text.{
  char_width, string_loop, fb_draw_char_transparent, fb_draw_string_transparent,
  draw_char_scaled_transparent, fb_draw_string_scaled_transparent,
}
use tutorial_os.Framebuffer.Canvas.Paints.{Ready, Hidden, Painted}
use tutorial_os.Framebuffer.Canvas.Paints.Texts.{
  char_transparent-Painted, char_scaled_transparent-Painted,
}
use tutorial_os.Framebuffer.Int32.{mul32}
use tutorial_os.Ui.{Theme}
use tutorial_os.Ui.Label.{fill_truncated_lem}
use tutorial_os.Ui.Text.{wstr, chars_that_fit, shortened, fill_truncated, draw_label}
use tutorial_os.Ui.Drawn.{Drawn}
use tutorial_os.Ui.Legible.{
  Returns, Returns-if, Legible, Legible-Drawn, ui_strlen-null, ui_strlen_lem, none_less,
}

module _ {f : Framebuffer} {m : Memory} where
  string_loop-Returns :
      (fuel : ℕ) (draw : ℕ → ℕ → Canvas → Canvas) (char_w x s n : ℕ) (c : Canvas)
      → ((x ch : ℕ) (d : Canvas) → Painted f m d → Painted f m (draw x ch d))
      → Painted f m c
      → IsText m s n
      → n < fuel
      → ((i : ℕ) → i ≤ n → Hidden f (s + i))
      → Returns (string_loop fuel draw char_w x s c)
  unfolding string_loop
  string_loop-Returns zero draw char_w x s n c keep p text lt hidden = absurd (omega arith)
  string_loop-Returns (suc fuel) draw char_w x s zero c keep p text lt hidden =
      let e = p.rest (s + 0) (hidden 0 (omega arith)) in
      (c, ground (arith, at_zero c.1 s, e, at_zero m s, IsText-empty m s text))
  string_loop-Returns (suc fuel) draw char_w x s (suc n) c keep p text lt hidden =
      Returns-if (load_byte c.1 s == 0) (some c) _ (c, refl)
        (Returns-if (ltb c.0.width (add32 x char_w)) (some c) _ (c, refl)
          (string_loop-Returns fuel draw char_w (add32 x char_w) (s + 1) n
            (draw x (load_byte c.1 s) c) keep (keep x (load_byte c.1 s) c p)
            (IsText-tail m s n text) (omega arith)
            (λ i le. subst (Hidden f) (omega arith) (hidden (i + 1) (omega arith)))))

  transparent-Returns :
      (fuel x y s color n : ℕ) (c : Canvas)
      → Ready f
      → Painted f m c
      → IsText m s n
      → n < fuel
      → ((i : ℕ) → i ≤ n → Hidden f (s + i))
      → Returns (fb_draw_string_transparent fuel x y s color c)
  unfolding fb_draw_string_transparent
  transparent-Returns fuel x y s color n c r p text lt hidden =
      string_loop-Returns fuel (λ x' ch. fb_draw_char_transparent x' y ch color) char_width x s n c
        (λ x' ch d q. char_transparent-Painted r x' y ch color d q) p text lt hidden

  scaled-Returns :
      (fuel x y s color scale n : ℕ) (c : Canvas)
      → Ready f
      → Painted f m c
      → IsText m s n
      → n < fuel
      → ((i : ℕ) → i ≤ n → Hidden f (s + i))
      → Returns (fb_draw_string_scaled_transparent fuel x y s color scale c)
  unfolding fb_draw_string_scaled_transparent
  scaled-Returns fuel x y s color scale n c r p text lt hidden =
      Returns-if (leb scale 1) _ _ (transparent-Returns fuel x y s color n c r p text lt hidden) (
        string_loop-Returns fuel (λ x' ch. draw_char_scaled_transparent x' y ch color scale)
          (mul32 char_width scale) x s n c
          (λ x' ch d q. char_scaled_transparent-Painted r x' y ch color scale d q) p text lt hidden)

-- the canvas as the start of what follows
pub fresh : {f : Framebuffer} {m : Memory} {t : ℕ} {c : Canvas} → Drawn f m t c → Painted f c.1 c
fresh h = record { frame = h.frame; rest = λ a hidden. refl }

-- Legible texts are drawn to their end.
module _ {f : Framebuffer} {m : Memory} {fuel t s : ℕ} (r : Ready f)
    (l : Legible f m fuel t s) where
  pub string-Returns :
      (x y color : ℕ) (c : Canvas)
      → Drawn f m t c
      → Returns (fb_draw_string_transparent fuel x y s color c)
  string-Returns x y color c h =
      let now = Legible-Drawn h l in
      transparent-Returns fuel x y s color now.length c r (fresh h) now.text now.enough now.hidden

  pub wstr-Returns :
      (theme : Theme) (x y color : ℕ) (c : Canvas)
      → Drawn f m t c
      → Returns (wstr fuel theme x y s color c)
  unfolding wstr
  wstr-Returns theme x y color c h =
      let now = Legible-Drawn h l in
      Returns-if (leb theme.font_scale 1) _ _ (string-Returns x y color c h) (
        scaled-Returns fuel x y s color theme.font_scale now.length c r (fresh h) now.text
          now.enough now.hidden)

-- a buffer of 256 bytes that drawing does not touch
abbrev pub Buffer : Framebuffer → ℕ → Type 0
Buffer f t = (i : ℕ) → i < 256 → Hidden f (t + i)

shortened-Returns :
    {f : Framebuffer} {m : Memory} {fuel t label : ℕ} {c : Canvas}
    → Ready f
    → (l : Legible f c.1 fuel t label) → Buffer f t
    → 255 < fuel
    → (x y available color : ℕ) → available < 2 ^ 32
    → Drawn f m t c
    → (ltb (chars_that_fit available false) l.length && ltb 3 (chars_that_fit available false))
      ≡ true
    → Returns (
        fb_draw_string_transparent fuel x y t color
          (c.0, fill_truncated c.1 t label (shortened (chars_that_fit available false))))
shortened-Returns {f} {m} {fuel} {t} {label} {c} r l buffer much x y available color small h b =
    let n = shortened (chars_that_fit available false) in
    let made =
      fill_truncated_lem c.1 t label l.length available l.text small (omega (arith, l.apart))
        (ground arith) (ground arith) in
    transparent-Returns fuel x y t color (n + 3) (c.0, fill_truncated c.1 t label n) r
      (record { frame = h.frame; rest = λ a hidden. refl }) made.0 (omega (arith, made))
      (λ i le. buffer i (omega (arith, made)))

pub label-Returns :
    {f : Framebuffer} {m : Memory} {fuel t label : ℕ}
    → Ready f
    → Legible f m fuel t label
    → Buffer f t
    → 255 < fuel
    → (x y available color : ℕ) (c : Canvas) → available < 2 ^ 32
    → Drawn f m t c
    → Returns (draw_label fuel t x y label available color c)
unfolding draw_label
label-Returns {f} {m} {fuel} {t} {label} r l buffer much x y available color c small h =
    let now = Legible-Drawn h l in
    let fits = chars_that_fit available false in
    let whole = string-Returns r l x y color c h in
    elim (Bool-cases (label == 0)) [
      | inl z ↦ rw (ui_strlen-null fuel c.1 label z) (rw (none_less fits (ltb 3 fits)) whole)
      | inr ne ↦
          rw (ui_strlen_lem fuel c.1 label now.length now.text now.enough (ground arith))
            (elim (Bool-cases (ltb fits now.length && ltb 3 fits)) [
              | inl b ↦ rw b (shortened-Returns r now buffer much x y available color small h b)
              | inr b ↦ rw b whole
            ])
    ]
