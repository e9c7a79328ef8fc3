-- ===== src/Line.antt =====
-- Lines out of single bytes (sw/common/zline.c, sw/common/zline.h): the editing of one line, and what is
-- echoed.
pub mod Edit
mod Tests
use zeitlos.Prelude.{
  ℕ, ◌+◌, ◌-◌, Bool, true, false, ◌||◌, List, [], ◌∷◌, Bytes, ltb, leb, ◌==◌, if◌then◌else◌, set,
}

abbrev pub z_line_max : ℕ
z_line_max = 128

-- `z_line_t`.
pub record Line : Type 0 where
  pub buf : Bytes
  pub len : ℕ
  pub had_cr : Bool

pub z_line_reset : Line → Line
z_line_reset line = record { buf = set line.buf 0 0; len = 0; had_cr = false }

-- What is echoed, if there is room for it.
pub echo : ℕ → ℕ → Bytes → Bytes
echo echo_cap n bytes = if leb n echo_cap then bytes else []

-- The end of a line: `buf` is terminated, and a new line is echoed.
pub complete : ℕ → Bool → Line → ℕ × Line × Bytes
complete echo_cap cr line = (
  1,
  record line { buf = set line.buf line.len 0; had_cr = cr },
  echo echo_cap 2 (0x0d ∷ 0x0a ∷ []),
)

pub backspace : ℕ → Line → ℕ × Line × Bytes
backspace echo_cap line =
    if ltb 0 line.len
    then (0, record line { len = line.len - 1 }, echo echo_cap 3 (0x08 ∷ 0x20 ∷ 0x08 ∷ []))
    else (0, line, [])

-- The result is 1 for a complete line; the last part is `echo`, of `*echo_len` bytes.
pub z_line_feed : ℕ → ℕ → Line → ℕ × Line × Bytes
z_line_feed echo_cap byte line =
    if byte == 0x0d
    then complete echo_cap true line
    else if byte == 0x0a
    then (if line.had_cr
        then (0, record line { had_cr = false }, [])
        else complete echo_cap false line)
    else (let rest : Line = record line { had_cr = false } in
        if byte == 0x7f || byte == 0x08
        then backspace echo_cap rest
        else if ltb byte 0x20 || leb 0x7f byte
        then (0, rest, [])
        else if leb z_line_max rest.len
        then (0, rest, [])
        else (
          0,
          record rest { buf = set rest.buf rest.len byte; len = rest.len + 1 },
          echo echo_cap 1 (byte ∷ []),
        ))
