-- ===== src/Ui/Legible.antt =====
-- Texts that drawing does not change, and that reading or drawing them ends.
pub mod Strings
use tutorial_os.Common.{
  ℕ, zero, suc, ◌+◌, ◌-◌, ◌*◌, ◌≤◌, ◌<◌, ◌≡◌, ◌≢◌, ◌∙◌, refl, sym, ap, subst, ◌^◌, ◌&&◌, Bool, true,
  false, Bool-cases, inl, inr, Option, none, some, List, [], ◌∷◌, leb, ltb, ◌==◌, if◌then◌else◌,
  arith,
}
use tutorial_os.Memory.{Memory, load_byte}
use tutorial_os.Memory.Laws.{Apart}
use tutorial_os.CString.Compare.{IsText, IsText-tail, IsText-head, IsText-empty, at_zero}
use tutorial_os.Framebuffer.{add32, Framebuffer}
use tutorial_os.Framebuffer.Canvas.{Canvas, ◌>>=◌}
use tutorial_os.Framebuffer.Text.{
  char_width, string_loop, strlen_local, fb_text_width, fb_draw_char_transparent,
  fb_draw_string_transparent, draw_char_scaled_transparent, fb_draw_string_scaled_transparent,
}
use tutorial_os.Framebuffer.Canvas.Paints.{Ready, Hidden, Painted, Each}
use tutorial_os.Framebuffer.Canvas.Paints.Texts.{
  char_transparent-Painted, char_scaled_transparent-Painted,
}
use tutorial_os.Framebuffer.Int32.{mul32}
use tutorial_os.Ui.{Theme}
use tutorial_os.Ui.Label.{fill_truncated_lem}
use tutorial_os.Ui.Text.{
  wstr, wtw, ui_strlen_loop, ui_strlen, chars_that_fit, shortened, fill_truncated, draw_label,
}
use tutorial_os.Ui.Drawn.{Drawn}

abbrev pub Returns : Option Canvas → Type 0
Returns o = (c : Canvas) × (o ≡ some c)

pub Returns-if :
    (b : Bool) (o p : Option Canvas) → Returns o → Returns p → Returns (if b then o else p)
Returns-if true o p ho hp = ho
Returns-if false o p ho hp = hp

pub Returns->>= :
    {P : Canvas → Type 0} (o : Option Canvas) (g : Canvas → Option Canvas)
    → Returns o
    → Each P o
    → ((c : Canvas) → P c → Returns (g c))
    → Returns (o >>= g)
Returns->>= none g h e k = absurd (cc h.1)
Returns->>= (some c) g h e k = k c (e.holds c refl)

-- A text of fewer bytes than the fuel, in bytes that drawing does not touch, apart from the 256 bytes
-- from `t` on.
pub record Legible (f : Framebuffer) (m : Memory) (fuel t s : ℕ) : Type 0 where
  pub length : ℕ
  pub text : IsText m s length
  pub enough : length < fuel
  pub hidden : (i : ℕ) → i ≤ length → Hidden f (s + i)
  pub apart : Apart 256 t (length + 1) s

IsText-same :
    (m g : Memory) (s n : ℕ)
    → ((i : ℕ) → i ≤ n → load_byte g (s + i) ≡ load_byte m (s + i))
    → IsText m s n
    → IsText g s n
IsText-same m g s n same text = record {
  chars = λ i lt e. text.chars i lt (sym (same i (omega arith)) ∙ e);
  ends = same n (omega arith) ∙ text.ends;
}

-- A legible text stands unchanged on what is drawn.
pub Legible-Drawn :
    {f : Framebuffer} {m : Memory} {fuel t s : ℕ} {c : Canvas}
    → Drawn f m t c
    → Legible f m fuel t s
    → Legible f c.1 fuel t s
Legible-Drawn {f} {m} {fuel} {t} {s} {c} h l = record {
  length = l.length;
  text =
      IsText-same m c.1 s l.length (λ i le. h.rest (s + i) (l.hidden i le) (omega (arith, l.apart)))
        l.text;
  enough = l.enough;
  hidden = l.hidden;
  apart = l.apart;
}

strlen_local_lem :
    (fuel : ℕ) (m : Memory) (s n len : ℕ)
    → IsText m s n
    → n < fuel
    → strlen_local fuel m s len ≡ some (len + n)
unfolding strlen_local
strlen_local_lem zero m s n len text lt = absurd (omega arith)
strlen_local_lem (suc fuel) m s zero len text lt = ground (arith, IsText-empty m s text)
strlen_local_lem (suc fuel) m s (suc n) len text lt = ground (
  arith,
  IsText-head m s n text,
  strlen_local_lem fuel m (s + 1) n (len + 1) (IsText-tail m s n text) (omega arith),
)

ui_strlen_loop_lem :
    (fuel : ℕ) (m : Memory) (s n len : ℕ)
    → IsText m s n
    → n < fuel
    → ui_strlen_loop fuel m s len ≡ some (len + n)
unfolding ui_strlen_loop
ui_strlen_loop_lem zero m s n len text lt = absurd (omega arith)
ui_strlen_loop_lem (suc fuel) m s zero len text lt = ground (arith, IsText-empty m s text)
ui_strlen_loop_lem (suc fuel) m s (suc n) len text lt = ground (
  arith,
  IsText-head m s n text,
  ui_strlen_loop_lem fuel m (s + 1) n (len + 1) (IsText-tail m s n text) (omega arith),
)

pub ui_strlen_lem :
    (fuel : ℕ) (m : Memory) (s n : ℕ)
    → IsText m s n
    → n < fuel
    → s ≢ 0
    → ui_strlen fuel m s ≡ some n
unfolding ui_strlen
ui_strlen_lem fuel m s n text lt ne = ground (arith, ui_strlen_loop_lem fuel m s n 0 text lt)

none_less : (n : ℕ) (b : Bool) → (ltb n 0 && b) ≡ false
none_less n b = ground arith

pub ui_strlen-null : (fuel : ℕ) (m : Memory) (s : ℕ) → (s == 0) ≡ true → ui_strlen fuel m s ≡ some 0
unfolding ui_strlen
ui_strlen-null fuel m s z = ground arith

-- what is done with the width of a text returns if it does for every width
pub width-Returns :
    {f : Framebuffer} {m : Memory} {fuel t s : ℕ} (g : ℕ → Option Canvas)
    → Legible f m fuel t s
    → ((w : ℕ) → Returns (g w))
    → Returns (fb_text_width fuel m s >>= g)
unfolding fb_text_width
width-Returns {f} {m} {fuel} {t} {s} g l k =
    rw (strlen_local_lem fuel m s l.length 0 l.text l.enough) (k _)

-- the same with a number computed from the width
pub computed-Returns :
    {f : Framebuffer} {m : Memory} {fuel t s : ℕ} (h : ℕ → ℕ) (g : ℕ → Option Canvas)
    → Legible f m fuel t s
    → ((w : ℕ) → Returns (g w))
    → Returns (fb_text_width fuel m s >>= (λ w. some (h w)) >>= g)
unfolding fb_text_width
computed-Returns {f} {m} {fuel} {t} {s} h g l k =
    rw (strlen_local_lem fuel m s l.length 0 l.text l.enough) (k _)

pub wtw-Returns :
    {f : Framebuffer} {m : Memory} {fuel t s : ℕ} (theme : Theme) (g : ℕ → Option Canvas)
    → Legible f m fuel t s
    → ((w : ℕ) → Returns (g w))
    → Returns (wtw fuel theme m s >>= g)
unfolding wtw
wtw-Returns theme g l k = computed-Returns (λ w. mul32 w theme.font_scale) g l k
