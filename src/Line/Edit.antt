-- ===== src/Line/Edit.antt =====
-- sw/common/zline.c: the line buffer behaves as a text that is edited at its end.
use zeitlos.Prelude.{
  ℕ, zero, suc, ◌+◌, ◌-◌, ◌<◌, ◌≤◌, ◌≡◌, ◌∙◌, refl, ap, arith, Bool, ◌||◌, ◌&&◌, not, [], ◌∷◌, ◌++◌,
  Bytes, ltb, leb, ◌==◌, if◌then◌else◌, set, get_or, get_or-set, take, length, length-set,
  length-take,
}
use zeitlos.Line.{z_line_max, Line, z_line_reset, echo, complete, backspace, z_line_feed}

pub record IsValid (line : Line) : Type 0 where
  pub room : length line.buf ≡ z_line_max + 1
  pub fits : line.len ≤ z_line_max

-- The line so far.
abbrev pub text : Line → Bytes
text line = take line.len line.buf

abbrev pub drop_last : Bytes → Bytes
drop_last [] = []
drop_last (x ∷ []) = []
drop_last (x ∷ y ∷ ys) = x ∷ drop_last (y ∷ ys)

abbrev pub is_end : ℕ → Bool
is_end byte = byte == 0x0d || byte == 0x0a

-- The specification: a printable byte is appended while there is room, a delete drops the last one, and no
-- other byte changes the text.
abbrev pub edit : Bytes → ℕ → Bytes
edit t byte =
    if is_end byte
    then t
    else if byte == 0x7f || byte == 0x08
    then drop_last t
    else if ltb byte 0x20 || leb 0x7f byte
    then t
    else if leb z_line_max (length t)
    then t
    else t ++ (byte ∷ [])

take-set : (n b : ℕ) (xs : Bytes) → take n (set xs n b) ≡ take n xs
take-set zero b xs = refl
take-set (suc n) b [] = refl
take-set (suc n) b (x ∷ xs) = ap (◌∷◌ x) (take-set n b xs)

take-set_next :
    (n b : ℕ) (xs : Bytes) → n < length xs → take (n + 1) (set xs n b) ≡ take n xs ++ (b ∷ [])
take-set_next zero b [] h = elim h [ ]
take-set_next zero b (x ∷ xs) h = refl
take-set_next (suc n) b [] h = elim h [ ]
take-set_next (suc n) b (x ∷ xs) h = ground (arith, take-set_next n b xs (omega (arith, h)))

drop_last-take : (n : ℕ) (xs : Bytes) → n < length xs → drop_last (take (suc n) xs) ≡ take n xs
drop_last-take n [] h = elim h [ ]
drop_last-take zero (x ∷ xs) h = refl
drop_last-take (suc n) (x ∷ []) h = (let bad : ⊥ = omega (arith, h) in elim bad [ ])
drop_last-take (suc n) (x ∷ y ∷ ys) h = ap (◌∷◌ x) (drop_last-take n (y ∷ ys) (omega (arith, h)))

text-length : (line : Line) → IsValid line → length (text line) ≡ line.len
text-length line v = omega (arith, length-take line.len line.buf, v.fits, v.room)

-- A line behind a byte.
abbrev pub fed : ℕ → ℕ → Line → Line
fed echo_cap byte line = (z_line_feed echo_cap byte line).1

pub z_line_feed-IsValid :
    (echo_cap byte : ℕ) (line : Line) → IsValid line → IsValid (fed echo_cap byte line)
unfolding z_line_feed complete backspace
z_line_feed-IsValid echo_cap byte line v =
    ground (arith, v, length-set line.buf line.len 0, length-set line.buf line.len byte)

last_dropped : (n : ℕ) (xs : Bytes) → n ≤ length xs → drop_last (take n xs) ≡ take (n - 1) xs
last_dropped zero xs h = refl
last_dropped (suc n) xs h =
    drop_last-take n xs (omega (arith, h)) ∙ ap (λ k. take k xs) (omega arith)

deleted : (line : Line) → IsValid line → drop_last (text line) ≡ take (line.len - 1) line.buf
deleted line v = last_dropped line.len line.buf (omega (arith, v.room, v.fits))

-- What a byte does to a line.
pub record Fed (echo_cap byte : ℕ) (line : Line) : Type 0 where
  pub valid : IsValid (fed echo_cap byte line)
  pub edits : text (fed echo_cap byte line) ≡ edit (text line) byte
  pub completes :
      (z_line_feed echo_cap byte line).0
      ≡ (if byte == 0x0d || (byte == 0x0a && not line.had_cr) then 1 else 0)
  pub terminated :
      (if (z_line_feed echo_cap byte line).0 == 1
        then get_or (fed echo_cap byte line).buf (fed echo_cap byte line).len 1
        else 0)
      ≡ 0
  pub echoes : length (z_line_feed echo_cap byte line).2 ≤ 3
  pub fits_echo : length (z_line_feed echo_cap byte line).2 ≤ echo_cap

pub z_line_feed_lem : (echo_cap byte : ℕ) (line : Line) → IsValid line → Fed echo_cap byte line
unfolding z_line_feed complete backspace echo
z_line_feed_lem echo_cap byte line v =
    let n = text-length line v in
    record {
      valid = z_line_feed-IsValid echo_cap byte line v;
      edits = ground (
        arith,
        n,
        deleted line v,
        take-set line.len 0 line.buf,
        take-set_next line.len byte line.buf (omega (arith, v.room, v.fits)),
      );
      completes = ground arith;
      terminated =
          ground (arith, get_or-set line.buf line.len line.len 0 1 (omega (arith, v.room, v.fits)));
      echoes = ground arith;
      fits_echo = ground arith;
    }

-- Bytes fed one after another, without a look at what is returned.
abbrev pub feed_all : ℕ → Bytes → Line → Line
feed_all echo_cap [] line = line
feed_all echo_cap (b ∷ bs) line = feed_all echo_cap bs (fed echo_cap b line)

abbrev pub edit_all : Bytes → Bytes → Bytes
edit_all t [] = t
edit_all t (b ∷ bs) = edit_all (edit t b) bs

-- Whatever bytes are fed to a valid line, its text is what the editing makes of them, one by one.
pub feed_all_lem :
    (echo_cap : ℕ) (bs : Bytes) (line : Line)
    → IsValid line
    → text (feed_all echo_cap bs line) ≡ edit_all (text line) bs
feed_all_lem echo_cap [] line v = refl
feed_all_lem echo_cap (b ∷ bs) line v =
    let f = z_line_feed_lem echo_cap b line v in
    feed_all_lem echo_cap bs (fed echo_cap b line) f.valid ∙ ap (λ t. edit_all t bs) f.edits

-- After a CR a following LF is swallowed; but the reset that a completed line calls for forgets the CR, and
-- then the LF completes a second, empty line.
pub z_line_reset_forgets_cr :
    (echo_cap : ℕ) (line : Line)
    → let ended = fed echo_cap 0x0d line in
      ((z_line_feed echo_cap 0x0a ended).0 ≡ 0)
      × ((z_line_feed echo_cap 0x0a (z_line_reset ended)).0 ≡ 1)
      × (text (fed echo_cap 0x0a (z_line_reset ended)) ≡ [])
unfolding z_line_feed z_line_reset complete
z_line_reset_forgets_cr echo_cap line = (ground arith, ground arith, ground arith)
