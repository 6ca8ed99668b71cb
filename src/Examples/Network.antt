-- ===== src/Examples/Network.antt =====
-- Examples for internal/hexify.
use stprov.Prelude.{replicate, ◌≡◌}
use stprov.Hexify.{format}
use stprov.Hexify.Lines.{lines, format-lines}

format-lines_example : format (replicate 17 0) ≡ lines (replicate 17 0) 0 2
format-lines_example = format-lines (replicate 17 0)
