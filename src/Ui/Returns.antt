-- ===== src/Ui/Returns.antt =====
-- The texts that widgets read, and that every widget but a list item is drawn to its end.
pub mod Items
pub mod Shown
use tutorial_os.Common.{
  ℕ, zero, suc, ◌+◌, ◌*◌, ◌/◌, ◌<◌, ◌^◌, ◌≡◌, refl, Bool, true, false, ◌||◌, ◌&&◌, Option, none,
  some, List, [], ◌∷◌, ◌==◌, if◌then◌else◌, arith, Bool-cases, inl, inr, subst,
}
use tutorial_os.Memory.{Memory, null, load_byte}
use tutorial_os.Framebuffer.{add32, sub32, Framebuffer}
use tutorial_os.Framebuffer.Int32.{mul32}
use tutorial_os.Framebuffer.Canvas.{Canvas, ◌>>=◌}
use tutorial_os.Framebuffer.Area.{fb_fill_rounded_rect}
use tutorial_os.Framebuffer.Shape.Octants.{circles-return}
use tutorial_os.Framebuffer.Canvas.Paints.{Ready, Each, Painted, if-keeps}
use tutorial_os.Framebuffer.Canvas.Paints.Areas.{fill_rounded-Painted}
use tutorial_os.Ui.{UiRect, Theme, off_screen}
use tutorial_os.Ui.Widgets.{
  PanelStyle, panel_flat, panel_elevated, panel_modal, panel_outlined, panel_styled, ui_draw_panel,
  ui_draw_panel_with_header, ButtonState, ui_draw_button, ui_draw_badge, ToastStyle, ui_draw_toast,
  Hint, hint_loop, ui_draw_help_bar, ui_draw_section_header,
}
use tutorial_os.Ui.Items.{
  has_text, badge_width, draw_selection, draw_item_badge, ui_draw_list_item,
  ui_draw_list_item_with_badge,
}
use tutorial_os.Ui.Paints.{panel-Painted}
use tutorial_os.Ui.Widget.{
  Widget, panel, panel_with_header, button, list_item, list_item_with_badge, badge, scrollbar_v,
  progress_bar, divider_h, divider_v, toast, help_bar, section_header, show,
}
use tutorial_os.Ui.Legible.{
  Returns, Returns-if, Returns->>=, Legible, Legible-Drawn, width-Returns, computed-Returns,
  wtw-Returns,
}
use tutorial_os.Ui.Drawn.{
  Drawn, Painted-Drawn, Each-Drawn, string-Drawn, label-Drawn, selection-Drawn,
}
use tutorial_os.Ui.Legible.Strings.{fresh, string-Returns, wstr-Returns, Buffer, label-Returns}

pub data Every (P : ℕ → Type 0) : List ℕ → Type 0 where
  every : Every P []
  also : {s : ℕ} {ss : List ℕ} → P s → Every P ss → Every P (s ∷ ss)

abbrev pub hint_texts : List Hint → List ℕ
hint_texts [] = []
hint_texts (hint ∷ hints) = hint.key ∷ hint.action ∷ hint_texts hints

-- a text that may be NULL
abbrev pub optional : ℕ → List ℕ
optional s = if s == null then [] else s ∷ []

-- the texts that a widget reads, `marker` being the one of a selected item
abbrev pub texts : ℕ → Widget → List ℕ
texts marker (panel bounds style) = []
texts marker (panel_with_header bounds title) = title ∷ []
texts marker (button bounds label state) = label ∷ []
texts marker (list_item bounds label selected) = marker ∷ label ∷ []
texts marker (list_item_with_badge bounds label text selected) = marker ∷ label ∷ optional text
texts marker (badge x y label) = optional label
texts marker (scrollbar_v bounds scroll_offset visible_count total_count) = []
texts marker (progress_bar bounds progress_pct color) = []
texts marker (divider_h x y width) = []
texts marker (divider_v x y height) = []
texts marker (toast bounds message style) = message ∷ []
texts marker (help_bar bounds hints) = hint_texts hints
texts marker (section_header bounds title) = title ∷ []

head-of : {P : ℕ → Type 0} {s : ℕ} → Every P (s ∷ []) → P s
head-of (also h every) = h

pub given : {P : ℕ → Type 0} (s : ℕ) → (s == null) ≡ false → Every P (optional s) → P s
given {P} s ne h = head-of (subst (λ b. Every P (if b then [] else s ∷ [])) ne h)

pub has_text-ne : (m : Memory) (s : ℕ) → has_text m s ≡ true → (s == null) ≡ false
has_text-ne m s h = ground arith

or_true : (b : Bool) → (b || true) ≡ true
or_true true = refl
or_true false = refl

pub fill-Drawn :
    {f : Framebuffer} {m : Memory} {t : ℕ} (r : Ready f) (x y w h radius color : ℕ) (c : Canvas)
    → Drawn f m t c
    → Drawn f m t (fb_fill_rounded_rect x y w h radius color c)
fill-Drawn r x y w h radius color c d =
    Painted-Drawn d (fill_rounded-Painted r x y w h radius color c (fresh d))

pub guarded-Returns :
    (test : Bool) (c : Canvas) (o : Option Canvas)
    → Returns o
    → Returns (if test then some c else o)
guarded-Returns test c o h = Returns-if test (some c) o (c, refl) h

styled-Returns :
    (fuel : ℕ) (bounds : UiRect) (theme : Theme) (style : PanelStyle) (c : Canvas)
    → theme.radii.md < 2 ^ 30
    → theme.radii.md + 2 < fuel
    → Returns (panel_styled fuel bounds theme style c)
unfolding panel_styled
styled-Returns fuel bounds theme panel_flat c small enough = (_, refl)
styled-Returns fuel bounds theme panel_elevated c small enough = (_, refl)
styled-Returns fuel bounds theme panel_modal c small enough = (_, refl)
styled-Returns fuel bounds theme panel_outlined c small enough =
    (circles-return fuel theme.radii.md _ c bounds.x bounds.y bounds.w bounds.h small enough).2

pub panel-Returns :
    (fuel : ℕ) (bounds : UiRect) (theme : Theme) (style : PanelStyle) (c : Canvas)
    → theme.radii.md < 2 ^ 30
    → theme.radii.md + 2 < fuel
    → Returns (ui_draw_panel fuel bounds theme style c)
unfolding ui_draw_panel
panel-Returns fuel bounds theme style c small enough =
    guarded-Returns (off_screen bounds.x bounds.y) c _
      (styled-Returns fuel bounds theme style c small enough)

module _ {f : Framebuffer} {m : Memory} {fuel t : ℕ} (r : Ready f) where
  pub header-Returns :
      (bounds : UiRect) (theme : Theme) (title : ℕ) (c : Canvas)
      → theme.radii.md < 2 ^ 30
      → theme.radii.md + 2 < fuel
      → Legible f m fuel t title
      → Drawn f m t c
      → Returns (ui_draw_panel_with_header fuel bounds theme title c)
  unfolding ui_draw_panel_with_header
  header-Returns bounds theme title c small enough l d =
      guarded-Returns (off_screen bounds.x bounds.y) c _ (
        Returns->>= _ _ (panel-Returns fuel bounds theme panel_elevated c small enough)
          (Each-Drawn _ d (panel-Painted r fuel bounds theme panel_elevated c))
          (λ c1 d1.
            Returns->>= _ _ (string-Returns r l _ _ _ _ (fill-Drawn r _ _ _ _ _ _ c1 d1))
              (string-Drawn r t fuel _ _ title _ _ (fill-Drawn r _ _ _ _ _ _ c1 d1))
              (λ c2 d2. (_, refl))))

  pub button-Returns :
      (bounds : UiRect) (theme : Theme) (label : ℕ) (state : ButtonState) (c : Canvas)
      → Legible f m fuel t label
      → Drawn f m t c
      → Returns (ui_draw_button fuel bounds theme label state c)
  unfolding ui_draw_button
  button-Returns bounds theme label state c l d =
      let shadowed = if-keeps (Drawn f m t) _ _ c (fill-Drawn r _ _ _ _ _ _ c d) d in
      let filled = fill-Drawn r _ _ _ _ _ _ _ shadowed in
      guarded-Returns (off_screen bounds.x bounds.y) c _
        (width-Returns _ (Legible-Drawn filled l) (λ w. string-Returns r l _ _ _ _ filled))

  pub badge-Returns :
      (x y : ℕ) (theme : Theme) (label : ℕ) (c : Canvas)
      → Every (Legible f m fuel t) (optional label)
      → Drawn f m t c
      → Returns (ui_draw_badge fuel x y theme label c)
  unfolding ui_draw_badge
  badge-Returns x y theme label c h d = elim (Bool-cases (label == null)) [
    | inl b ↦ rw b (rw (or_true (off_screen x y)) (c, refl))
    | inr b ↦ guarded-Returns (off_screen x y || label == null) c _ (
        width-Returns _ (Legible-Drawn d (given label b h))
          (λ w. string-Returns r (given label b h) _ _ _ _ (fill-Drawn r _ _ _ _ _ _ c d)))
  ]

  pub toast-Returns :
      (bounds : UiRect) (theme : Theme) (message : ℕ) (style : ToastStyle) (c : Canvas)
      → Legible f m fuel t message
      → Drawn f m t c
      → Returns (ui_draw_toast fuel bounds theme message style c)
  unfolding ui_draw_toast
  toast-Returns bounds theme message style c l d =
      let filled = fill-Drawn r _ _ _ _ _ _ _ (fill-Drawn r _ _ _ _ _ _ c d) in
      guarded-Returns (off_screen bounds.x bounds.y) c _
        (wtw-Returns theme _ (Legible-Drawn filled l) (λ w. wstr-Returns r l theme _ _ _ _ filled))

  pub section-Returns :
      (bounds : UiRect) (theme : Theme) (title : ℕ) (c : Canvas)
      → Legible f m fuel t title
      → Drawn f m t c
      → Returns (ui_draw_section_header fuel bounds theme title c)
  unfolding ui_draw_section_header
  section-Returns bounds theme title c l d = guarded-Returns (off_screen bounds.x bounds.y) c _ (
      Returns->>= _ _ (string-Returns r l _ _ _ c d) (string-Drawn r t fuel _ _ title _ c d)
        (λ c1 d1. width-Returns _ (Legible-Drawn d1 l) (λ w. (_, refl))))

  hint_loop-Returns :
      (theme : Theme) (y : ℕ) (hints : List Hint) (x : ℕ) (c : Canvas)
      → Every (Legible f m fuel t) (hint_texts hints)
      → Drawn f m t c
      → Returns (hint_loop fuel theme x y hints c)
  unfolding hint_loop
  hint_loop-Returns theme y [] x c ls d = (c, refl)
  hint_loop-Returns theme y (hint ∷ hints) x c (also key (also action rest)) d =
      width-Returns _ (Legible-Drawn d key) (λ w.
        Returns->>= _ _ (string-Returns r key _ _ _ _ (fill-Drawn r _ _ _ _ _ _ c d))
          (string-Drawn r t fuel _ _ hint.key _ _ (fill-Drawn r _ _ _ _ _ _ c d))
          (λ c1 d1.
            Returns->>= _ _ (string-Returns r action _ _ _ c1 d1)
              (string-Drawn r t fuel _ _ hint.action _ c1 d1)
              (λ c2 d2.
                width-Returns _ (Legible-Drawn d2 action)
                  (λ v. hint_loop-Returns theme y hints _ c2 rest d2))))

  pub help_bar-Returns :
      (bounds : UiRect) (theme : Theme) (hints : List Hint) (c : Canvas)
      → Every (Legible f m fuel t) (hint_texts hints)
      → Drawn f m t c
      → Returns (ui_draw_help_bar fuel bounds theme hints c)
  unfolding ui_draw_help_bar
  help_bar-Returns bounds theme hints c ls d =
      guarded-Returns (off_screen bounds.x bounds.y) c _ (hint_loop-Returns theme _ hints _ c ls d)
