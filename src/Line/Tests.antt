-- ===== src/Line/Tests.antt =====
-- sw/common/zline.c: a typed line, and the theorems there.
use zeitlos.Prelude.{◌≡◌, refl, false, [], ◌∷◌, Bytes, replicate}
use zeitlos.Line.{Line, z_line_feed, backspace}
use zeitlos.Line.Edit.{text, feed_all}

abbrev fresh : Line
fresh = record { buf = replicate 129 0; len = 0; had_cr = false }

-- "lz", a delete, "s".
abbrev typed : Bytes
typed = 108 ∷ 122 ∷ 127 ∷ 115 ∷ []

ls : text (feed_all 4 typed fresh) ≡ 108 ∷ 115 ∷ []
unfolding z_line_feed backspace
ls = refl
