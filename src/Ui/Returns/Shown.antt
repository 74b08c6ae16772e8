-- ===== src/Ui/Returns/Shown.antt =====
-- Every widget is drawn to its end.
use tutorial_os.Framebuffer.Canvas.{Canvas}
use tutorial_os.Ui.Widget.{Widget}
use tutorial_os.Ui.Legible.{Legible}
use tutorial_os.Ui.Drawn.{Drawn}
