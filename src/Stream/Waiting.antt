-- ===== src/Stream/Waiting.antt =====
-- sw/common/zstream.c: the consumer's blocking calls, over what the clock and the mailbox give.
use zeitlos.Prelude.{
  ℕ, ◌*◌, false, Option, none, some, List, [], ◌∷◌, Bytes, ltb, ◌==◌, if◌then◌else◌, not, ◌||◌,
  sub32,
}
use zeitlos.Stream.{
  Payload, Message, Effect, send, zstream_tag, Consumer, Cevent, error, open_failed, set_err, about,
  handle_open, handle_chunk, handle_error, z_stream_open_reply, z_stream_pull, zstream_open_async,
}

abbrev pub timeout_ticks : ℕ
timeout_ticks = 3 * 732

abbrev pub not_open : Bytes
not_open = 115 ∷ 116 ∷ 114 ∷ 101 ∷ 97 ∷ 109 ∷ 32 ∷ 110 ∷ 111 ∷ 116 ∷ 32 ∷ 111 ∷ 112 ∷ 101 ∷ 110 ∷ []

abbrev pub timed_out_chunk : Bytes
timed_out_chunk =
    116 ∷ 105 ∷ 109 ∷ 101 ∷ 100 ∷ 32 ∷ 111 ∷ 117 ∷ 116 ∷ 32 ∷ 119 ∷ 97 ∷ 105 ∷ 116 ∷ 105 ∷ 110 ∷ 103
    ∷ 32 ∷ 102 ∷ 111 ∷ 114 ∷ 32 ∷ 110 ∷ 101 ∷ 120 ∷ 116 ∷ 32 ∷ 99 ∷ 104 ∷ 117 ∷ 110 ∷ 107 ∷ []

-- What one turn of a waiting loop meets: the clock, and what `z_msg_read` gives, if anything.
abbrev pub Poll : Type 0
Poll = ℕ × Option Message

-- The loop of `zstream_pull`, from `start`; `none` when the polls run out. An event other than
-- `irrelevant` is what the call returns.
unfoldable pub pull_loop : ℕ → ℕ → Consumer → List Poll → Option (Cevent × Consumer)
pull_loop err_len start st [] = none
pull_loop err_len start st ((now, m) ∷ ps) =
    let rest = pull_loop err_len start st ps in
    if ltb (sub32 now start) timeout_ticks
    then (elim m [
      | none ↦ rest
      | some msg ↦
          if not (msg.tag == zstream_tag st.stream_id st.seq)
          then rest
          else if msg.subject == 403
          then some (handle_chunk err_len msg.obj st)
          else if msg.subject == 404
          then some (Cevent.eof, record st { active = false })
          else if msg.subject == 405
          then some (handle_error err_len msg.obj st)
          else rest
    ])
    else some (error (set_err err_len timed_out_chunk), record st { active = false })

-- The message that is sent, and what the loop returns.
unfoldable pub zstream_pull :
    ℕ → ℕ → Consumer → List Poll → List Effect × Option (Cevent × Consumer)
zstream_pull err_len start st ps =
    if not st.active
    then ([], some (error (set_err err_len not_open), st))
    else (send (about z_stream_pull st) ∷ [], pull_loop err_len start st ps)

abbrev pub timed_out_open : Bytes
timed_out_open =
    116 ∷ 105 ∷ 109 ∷ 101 ∷ 100 ∷ 32 ∷ 111 ∷ 117 ∷ 116 ∷ 32 ∷ 119 ∷ 97 ∷ 105 ∷ 116 ∷ 105 ∷ 110 ∷ 103
    ∷ 32 ∷ 116 ∷ 111 ∷ 32 ∷ 111 ∷ 112 ∷ 101 ∷ 110 ∷ 32 ∷ 115 ∷ 116 ∷ 114 ∷ 101 ∷ 97 ∷ 109 ∷ []

-- The loop of `zstream_open`.
unfoldable pub open_loop : ℕ → ℕ → Consumer → List Poll → Option (Cevent × Consumer)
open_loop err_len start st [] = none
open_loop err_len start st ((now, m) ∷ ps) =
    let rest = open_loop err_len start st ps in
    if ltb (sub32 now start) timeout_ticks
    then (elim m [
      | none ↦ rest
      | some msg ↦
          if not (msg.subject == z_stream_open_reply) || not (msg.tag == st.open_tag)
          then rest
          else some (handle_open err_len msg.obj st)
    ])
    else some (open_failed (set_err err_len timed_out_open), st)

-- `next_open_tag` is the call's own counter; the consumer is set up as by `zstream_open_async`.
unfoldable pub zstream_open :
    ℕ → ℕ → ℕ → ℕ → Payload → List Poll → List Effect × Option (Cevent × Consumer)
zstream_open err_len start next_open_tag producer_pid open_payload ps =
    let (st, _, es) = zstream_open_async next_open_tag producer_pid open_payload in
    (es, open_loop err_len start st ps)
