-- ===== src/Framebuffer/Screen/Moved.antt =====
-- fb_copy_rect moves a rectangle as a whole, also where it overlaps the place that it is moved to: the
-- order of the copies is such that no pixel is read after it has been overwritten.
use tutorial_os.Common.{
  ℕ, zero, suc, ◌+◌, ◌-◌, ◌%◌, ◌≤◌, ◌<◌, ◌^◌, ◌≡◌, inl, inr, refl, ◌∙◌, ap, ap₂, sym, subst, Bool,
  true, false, ◌&&◌, ◌||◌, ltb, leb, ◌==◌, if◌then◌else◌, arith, Bool-cases,
}
use tutorial_os.Memory.{Memory}
use tutorial_os.Framebuffer.{add32, PixelFormat, Framebuffer, fb_get_pixel}
use tutorial_os.Framebuffer.Fill.Shown.{covers}
use tutorial_os.Framebuffer.Pixel.{Shaped}
use tutorial_os.Framebuffer.Canvas.{Canvas, for_up}
use tutorial_os.Framebuffer.Screen.{for_down, pixel_at, move_px, copy_px, copy_rows, fb_copy_rect}
use tutorial_os.Framebuffer.Screen.Raw.{raw, decode, get-raw, pixel_at-is, moved, raw-move}

for_up-steps {ℓ κ} :
    {A : Type ℓ} (P : ℕ → A → Type κ) (body : ℕ → A → A)
    → (n i : ℕ) → ((j : ℕ) → j < i + n → (a : A) → P j a → P (j + 1) (body j a))
    → (a : A) → P i a
    → P (i + n) (for_up body n i a)
for_up-steps P body zero i step a h = let e : i ≡ i + 0 = omega arith in subst (λ k. P k a) e h
for_up-steps P body (suc n) i step a h =
    let e : i + 1 + n ≡ i + suc n = omega arith in
    subst (λ k. P k (for_up body n (i + 1) (body i a))) e
      (for_up-steps P body n (i + 1) (λ j lt. step j (omega arith)) (body i a)
        (step i (omega arith) a h))

for_down-steps {ℓ κ} :
    {A : Type ℓ} (P : ℕ → A → Type κ) (body : ℕ → A → A)
    → (n : ℕ) → ((j : ℕ) → j < n → (a : A) → P (suc j) a → P j (body (suc j) a))
    → (a : A) → P n a
    → P 0 (for_down body n a)
for_down-steps P body zero step a h = h
for_down-steps P body (suc n) step a h =
    for_down-steps P body n (λ j lt. step j (omega arith)) (body (suc n) a)
      (step n (omega arith) a h)

covers-offset : (s n x : ℕ) → covers s n x ≡ true → x - s < n
covers-offset s n x e = ground arith

same-or : (b : Bool) (r c : ℕ) → (b || (r == r && c == c)) ≡ true
same-or b r c = ground arith

or_false : (b : Bool) → (b || false) ≡ b
or_false true = refl
or_false false = refl

and_false : (a b d : Bool) → d ≡ false → (a && b && d) ≡ false
and_false a b d e = ground arith

other-place :
    (dx w dy h p q r c : ℕ)
    → covers dx w p ≡ true
    → covers dy h q ≡ true
    → (p == dx + c && q == dy + r) ≡ false
    → (q - dy == r && p - dx == c) ≡ false
other-place dx w dy h p q r c e e' miss = ground arith

-- what is left of a call that uses equal addresses
move-cong :
    (f : PixelFormat) (m : Memory) (s s' d d' : ℕ)
    → s ≡ s'
    → d ≡ d'
    → move_px f m s d ≡ move_px f m s' d'
move-cong f m s s' d d' e e' = ap₂ (move_px f m) e e'

module _ (fb : Framebuffer) (sh : Shaped fb) (al : fb.pitch % 4 ≡ 0) (m0 : Memory)
    (sx sy dx dy w h : ℕ) (bsx : sx + w ≤ fb.width) (bsy : sy + h ≤ fb.height)
    (bdx : dx + w ≤ fb.width) (bdy : dy + h ≤ fb.height) (narrow : fb.width < 2 ^ 31)
    (low : fb.height < 2 ^ 31) where
  -- the pixel (p, q) belongs to the part of the target that `done` names by row and column
  abbrev reached : (ℕ → ℕ → Bool) → ℕ → ℕ → Bool
  reached done p q = covers dx w p && covers dy h q && done (q - dy) (p - dx)

  abbrev goal : (ℕ → ℕ → Bool) → ℕ → ℕ → ℕ
  goal done p q =
      if reached done p q then raw fb m0 (sx + (p - dx)) (sy + (q - dy)) else raw fb m0 p q

  -- The part `done` has been copied, and no other pixel has changed.
  Partly : (ℕ → ℕ → Bool) → Memory → Type 0
  Partly done m = (p q : ℕ) → p < fb.width → q < fb.height → raw fb m p q ≡ goal done p q

  reached-at :
      (done done' : ℕ → ℕ → Bool) (p q : ℕ)
      → (covers dx w p ≡ true
          → covers dy h q ≡ true
          → done (q - dy) (p - dx) ≡ done' (q - dy) (p - dx))
      → reached done p q ≡ reached done' p q
  reached-at done done' p q same = elim (Bool-cases (covers dx w p)) [
    | inr e ↦ rw e refl
    | inl e ↦ elim (Bool-cases (covers dy h q)) [
      | inr e' ↦ rw (e, e') refl
      | inl e' ↦ ap (λ b. covers dx w p && covers dy h q && b) (same e e')
    ]
  ]

  reached-cong :
      (done done' : ℕ → ℕ → Bool)
      → ((i j : ℕ) → i < h → j < w → done i j ≡ done' i j)
      → (p q : ℕ) → reached done p q ≡ reached done' p q
  reached-cong done done' same p q =
      reached-at done done' p q
        (λ e e'. same (q - dy) (p - dx) (covers-offset dy h q e') (covers-offset dx w p e))

  hit-goal :
      (done : ℕ → ℕ → Bool) (r c p q : ℕ)
      → r < h
      → c < w
      → (p == dx + c && q == dy + r) ≡ true
      → done r c ≡ true
      → goal done p q ≡ raw fb m0 (sx + c) (sy + r)
  hit-goal done r c p q hr hc hit on =
      let ep : p - dx ≡ c = ground arith in
      let eq : q - dy ≡ r = ground arith in
      let cx : covers dx w p ≡ true = ground arith in
      let cy : covers dy h q ≡ true = ground arith in rw (cx, cy, ep, eq, on) refl

  Partly-cong :
      (done done' : ℕ → ℕ → Bool) (m : Memory)
      → ((i j : ℕ) → i < h → j < w → done i j ≡ done' i j)
      → Partly done m
      → Partly done' m
  unfolding Partly
  Partly-cong done done' m same k p q hp hq =
      k p q hp hq
      ∙ ap (λ b. if b then raw fb m0 (sx + (p - dx)) (sy + (q - dy)) else raw fb m0 p q)
          (reached-cong done done' same p q)

  copy-is :
      (r c : ℕ) (m : Memory)
      → (hr : r < h) → (hc : c < w)
      → copy_px fb sx sy dx dy r c m
        ≡ moved fb sh m
            (sx + c)
            (sy + r)
            (dx + c)
            (dy + r)
            (omega arith)
            (omega arith)
            (omega arith)
            (omega arith)
  unfolding copy_px
  copy-is r c m hr hc =
      let ex : add32 sx c ≡ sx + c = omega arith in
      let ey : add32 sy r ≡ sy + r = omega arith in
      let ex' : add32 dx c ≡ dx + c = omega arith in
      let ey' : add32 dy r ≡ dy + r = omega arith in
      move-cong fb.pixel_format m _ _ _ _
        (ap₂ (pixel_at fb.pixel_format fb) ex ey
          ∙ pixel_at-is fb (sx + c) (sy + r) sh al (omega arith) (omega arith))
        (ap₂ (pixel_at fb.pixel_format fb) ex' ey'
          ∙ pixel_at-is fb (dx + c) (dy + r) sh al (omega arith) (omega arith))

  -- A pixel that is read before it is overwritten moves to its place.
  px-Partly :
      (done done' : ℕ → ℕ → Bool) (r c : ℕ) (m : Memory)
      → r < h
      → c < w
      → reached done (sx + c) (sy + r) ≡ false
      → ((i j : ℕ) → done' i j ≡ (done i j || (i == r && j == c)))
      → Partly done m
      → Partly done' (copy_px fb sx sy dx dy r c m)
  unfolding Partly
  px-Partly done done' r c m hr hc fresh now k p q hp hq =
      let source = k (sx + c) (sy + r) (omega arith) (omega arith) in
      ap (λ g. raw fb g p q) (copy-is r c m hr hc)
      ∙ raw-move fb sh m (sx + c) (sy + r) (dx + c) (dy + r) (omega arith) (omega arith)
          (omega arith) (omega arith) p q hp hq
      ∙ elim (Bool-cases (p == dx + c && q == dy + r)) [
        | inl hit ↦ rw hit (
            source
            ∙ rw fresh (sym (hit-goal done' r c p q hr hc hit (now r c ∙ same-or (done r c) r c))))
        | inr miss ↦ rw miss (
            k p q hp hq
            ∙ ap (λ b. if b then raw fb m0 (sx + (p - dx)) (sy + (q - dy)) else raw fb m0 p q)
                (reached-at done done' p q (λ e e'. sym (
                  now (q - dy) (p - dx)
                  ∙ ap (λ b. done (q - dy) (p - dx) || b) (other-place dx w dy h p q r c e e' miss)
                  ∙ or_false (done (q - dy) (p - dx))))))
      ]

  -- the part that has been copied before row `r` and column `c`, in the one order and in the other
  abbrev above : ℕ → ℕ → ℕ → ℕ → Bool
  above r c i j = ltb i r || (i == r && ltb j c)

  abbrev below : ℕ → ℕ → ℕ → ℕ → Bool
  below r c i j = leb r i || (suc i == r && leb c j)

  forwards :
      ((ltb sy dy || (sy == dy && ltb sx dx)) ≡ false)
      → (r c : ℕ) → r < h
      → c < w
      → reached (above r c) (sx + c) (sy + r) ≡ false
  forwards order r c hr hc = ground arith

  backwards :
      ((ltb sy dy || (sy == dy && ltb sx dx)) ≡ true)
      → (r c : ℕ) → r < h
      → c < w
      → reached (below (suc r) (suc c)) (sx + c) (sy + r) ≡ false
  backwards order r c hr hc = ground arith

  above-next : (r c i j : ℕ) → above r (c + 1) i j ≡ (above r c i j || (i == r && j == c))
  above-next r c i j = ground arith

  below-next :
      (r c i j : ℕ) → below (suc r) c i j ≡ (below (suc r) (suc c) i j || (i == r && j == c))
  below-next r c i j = ground arith

  above-row : (r i j : ℕ) → i < h → j < w → above r w i j ≡ above (r + 1) 0 i j
  above-row r i j hi hj = ground arith

  below-row : (r i j : ℕ) → i < h → j < w → below (suc r) 0 i j ≡ below r w i j
  below-row r i j hi hj = ground arith

  start : (done : ℕ → ℕ → Bool) → ((i j : ℕ) → i < h → j < w → done i j ≡ false) → Partly done m0
  unfolding Partly
  start done none p q hp hq =
      ap (λ b. if b then raw fb m0 (sx + (p - dx)) (sy + (q - dy)) else raw fb m0 p q)
        (sym (and_false (covers dx w p) (covers dy h q) false refl)
          ∙ reached-cong (λ i j. false) done (λ i j hi hj. sym (none i j hi hj)) p q)

  abbrev px : ℕ → ℕ → Memory → Memory
  px = copy_px fb sx sy dx dy

  up_row :
      ((ltb sy dy || (sy == dy && ltb sx dx)) ≡ false)
      → (r : ℕ) (m : Memory) → r < h
      → Partly (above r 0) m
      → Partly (above (r + 1) 0) (for_up (px r) w 0 m)
  up_row order r m hr k =
      Partly-cong (above r (0 + w)) (above (r + 1) 0) (for_up (px r) w 0 m)
        (λ i j hi hj. let e : 0 + w ≡ w = omega arith in rw e (above-row r i j hi hj))
        (for_up-steps (λ c. Partly (above r c)) (px r) w 0
          (λ c hc g kg.
            px-Partly (above r c) (above r (c + 1)) r c g hr (omega arith)
              (forwards order r c hr (omega arith)) (above-next r c) kg)
          m k)

  up_all :
      ((ltb sy dy || (sy == dy && ltb sx dx)) ≡ false)
      → Partly (above (0 + h) 0) (for_up (λ r. for_up (px r) w 0) h 0 m0)
  up_all order =
      for_up-steps (λ r. Partly (above r 0)) (λ r. for_up (px r) w 0) h 0
        (λ r hr g kg. up_row order r g (omega arith) kg) m0
        (start (above 0 0) (λ i j hi hj. ground arith))

  down_row :
      ((ltb sy dy || (sy == dy && ltb sx dx)) ≡ true)
      → (r : ℕ) (m : Memory) → r < h
      → Partly (below (suc r) w) m
      → Partly (below r w) (for_down (λ c. px (suc r - 1) (c - 1)) w m)
  down_row order r m hr k =
      Partly-cong (below (suc r) 0) (below r w) (for_down (λ c. px (suc r - 1) (c - 1)) w m)
        (λ i j hi hj. below-row r i j hi hj)
        (for_down-steps (λ c. Partly (below (suc r) c)) (λ c. px (suc r - 1) (c - 1)) w
          (λ c hc g kg.
            let er : suc r - 1 ≡ r = omega arith in
            let ec : suc c - 1 ≡ c = omega arith in
            rw (er, ec)
              (px-Partly (below (suc r) (suc c)) (below (suc r) c) r c g hr hc
                (backwards order r c hr hc) (below-next r c) kg))
          m k)

  down_all :
      ((ltb sy dy || (sy == dy && ltb sx dx)) ≡ true)
      → Partly (below 0 w) (for_down (λ r. for_down (λ c. px (r - 1) (c - 1)) w) h m0)
  down_all order =
      for_down-steps (λ r. Partly (below r w)) (λ r. for_down (λ c. px (r - 1) (c - 1)) w) h
        (λ r hr g kg. down_row order r g hr kg) m0 (start (below h w) (λ i j hi hj. ground arith))

  abbrev everything : ℕ → ℕ → Bool
  everything i j = true

  copied : Partly everything (copy_rows fb sx sy dx dy w h m0)
  unfolding copy_rows
  copied = elim (Bool-cases (ltb sy dy || (sy == dy && ltb sx dx))) [
    | inl order ↦
        rw order (Partly-cong (below 0 w) everything _ (λ i j hi hj. ground arith) (down_all order))
    | inr order ↦
        rw order
          (Partly-cong (above (0 + h) 0) everything _ (λ i j hi hj. ground arith) (up_all order))
  ]

covers-below : (s n k t x : ℕ) → covers s n x ≡ true → k + n ≤ t → k + (x - s) < t
covers-below s n k t x e h = ground arith

-- Where source and target lie on the screen, on a framebuffer with room for its rows and a pitch of whole
-- words, fb_copy_rect gives every pixel of the target the colour that its pixel of the source had before
-- the call, however the two overlap, and changes no other pixel of the screen.
pub get_pixel-copy_rect :
    (sx sy dx dy w h : ℕ) (c : Canvas) (x' y' : ℕ)
    → Shaped c.0
    → c.0.pitch % 4 ≡ 0
    → c.0.width < 2 ^ 31
    → c.0.height < 2 ^ 31
    → sx + w ≤ c.0.width
    → sy + h ≤ c.0.height
    → dx + w ≤ c.0.width
    → dy + h ≤ c.0.height
    → x' < c.0.width
    → y' < c.0.height
    → fb_get_pixel c.0 (fb_copy_rect sx sy dx dy w h c).1 x' y' ≡ (
        if covers dx w x' && covers dy h y'
        then fb_get_pixel c.0 c.1 (sx + (x' - dx)) (sy + (y' - dy))
        else fb_get_pixel c.0 c.1 x' y')
unfolding fb_copy_rect Partly
get_pixel-copy_rect sx sy dx dy w h c x' y' sh al narrow low bsx bsy bdx bdy hx' hy' =
    let fb = c.0 in
    let m = c.1 in
    get-raw fb (copy_rows fb sx sy dx dy w h m) x' y' hx' hy'
    ∙ ap (decode fb.pixel_format)
        (copied fb sh al m sx sy dx dy w h bsx bsy bdx bdy narrow low x' y' hx' hy')
    ∙ elim (Bool-cases (covers dx w x')) [
      | inr e ↦ rw e (sym (get-raw fb m x' y' hx' hy'))
      | inl e ↦ elim (Bool-cases (covers dy h y')) [
        | inr e' ↦ rw (e, e') (sym (get-raw fb m x' y' hx' hy'))
        | inl e' ↦
            rw (e, e')
              (sym (
                get-raw fb m (sx + (x' - dx)) (sy + (y' - dy))
                  (covers-below dx w sx fb.width x' e bsx)
                  (covers-below dy h sy fb.height y' e' bsy)))
      ]
    ]
