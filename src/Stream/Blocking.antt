-- ===== src/Stream/Blocking.antt =====
-- sw/common/zstream.c: the consumer's blocking calls, and that they decide as its handler does.
use zeitlos.Prelude.{
  ℕ, ◌≡◌, ◌∙◌, refl, sym, ap, arith, Bool, true, false, Option, none, some, List, [], ◌∷◌, ltb,
  ◌==◌, if◌then◌else◌, not, ◌||◌, sub32, Bool-cases, inl, inr,
}
use zeitlos.Stream.{
  Payload, nothing, other, number, text, blob, Message, zstream_tag, Consumer, Cevent, irrelevant,
  error, open_failed, set_err, zstream_consumer_handle, handle_open, handle_reply, handle_chunk,
  handle_error, z_stream_open_reply, zstream_open_async,
}
use zeitlos.Stream.Waiting.{
  timeout_ticks, timed_out_chunk, Poll, pull_loop, zstream_pull, timed_out_open, open_loop,
  zstream_open,
}

-- The messages of the polls before the time is up.
abbrev pub in_time : ℕ → List Poll → List Message
in_time start [] = []
in_time start ((now, none) ∷ ps) =
    if ltb (sub32 now start) timeout_ticks then in_time start ps else []
in_time start ((now, some m) ∷ ps) =
    if ltb (sub32 now start) timeout_ticks then m ∷ in_time start ps else []

-- Is the time up at one of them?
abbrev pub expires : ℕ → List Poll → Bool
expires start [] = false
expires start ((now, m) ∷ ps) =
    if ltb (sub32 now start) timeout_ticks then expires start ps else true

-- What the handler makes of the first message that is relevant to it, or else `otherwise`.
abbrev pub first_event :
    ℕ → Consumer → Option (Cevent × Consumer) → List Message → Option (Cevent × Consumer)
first_event err_len st otherwise [] = otherwise
first_event err_len st otherwise (m ∷ ms) =
    let rest = first_event err_len st otherwise ms in
    elim (zstream_consumer_handle err_len st m).0 [
      | irrelevant ↦ rest
      | _ ↦ some (zstream_consumer_handle err_len st m)
    ]

-- One message, by the loop and by the handler.
abbrev loop_takes : ℕ → Consumer → Option (Cevent × Consumer) → Message → Option (Cevent × Consumer)
loop_takes err_len st rest msg =
    if not (msg.tag == zstream_tag st.stream_id st.seq)
    then rest
    else if msg.subject == 403
    then some (handle_chunk err_len msg.obj st)
    else if msg.subject == 404
    then some (Cevent.eof, record st { active = false })
    else if msg.subject == 405
    then some (handle_error err_len msg.obj st)
    else rest

-- An open stream's message, sorted by its tag and its subject.
sorted :
    (err_len : ℕ) (st : Consumer) (msg : Message)
    → st.active ≡ true
    → zstream_consumer_handle err_len st msg ≡ (
        if not (msg.tag == zstream_tag st.stream_id st.seq)
        then (irrelevant, st)
        else handle_reply err_len msg st)
unfolding zstream_consumer_handle
sorted err_len st msg a = ground (arith, a)

abbrev takes : Option (Cevent × Consumer) → Cevent × Consumer → Option (Cevent × Consumer)
takes rest r = elim (r.0) [ irrelevant ↦ rest | _ ↦ some r ]

chunk_takes :
    (err_len : ℕ) (obj : Payload) (st : Consumer) (rest : Option (Cevent × Consumer))
    → takes rest (handle_chunk err_len obj st) ≡ some (handle_chunk err_len obj st)
unfolding handle_chunk
chunk_takes err_len nothing st rest = refl
chunk_takes err_len other st rest = refl
chunk_takes err_len (number n) st rest = refl
chunk_takes err_len (text t) st rest = refl
chunk_takes err_len (blob d) st rest = refl

error_takes :
    (err_len : ℕ) (obj : Payload) (st : Consumer) (rest : Option (Cevent × Consumer))
    → takes rest (handle_error err_len obj st) ≡ some (handle_error err_len obj st)
unfolding handle_error
error_takes err_len nothing st rest = refl
error_takes err_len other st rest = refl
error_takes err_len (number n) st rest = refl
error_takes err_len (text none) st rest = refl
error_takes err_len (text (some s)) st rest = refl
error_takes err_len (blob d) st rest = refl

handler-loop :
    (err_len : ℕ) (st : Consumer) (rest : Option (Cevent × Consumer)) (msg : Message)
    → st.active ≡ true
    → takes rest (zstream_consumer_handle err_len st msg) ≡ loop_takes err_len st rest msg
unfolding handle_reply
handler-loop err_len st rest msg a =
    ap (takes rest) (sorted err_len st msg a)
    ∙ elim (Bool-cases (msg.tag == zstream_tag st.stream_id st.seq)) [
      | inr e ↦ rw e refl
      | inl e ↦ elim (Bool-cases (msg.subject == 403)) [
        | inl c ↦ rw (e, c) (chunk_takes err_len msg.obj st rest)
        | inr c ↦ elim (Bool-cases (msg.subject == 404)) [
          | inl f ↦ rw (e, c, f) refl
          | inr f ↦ elim (Bool-cases (msg.subject == 405)) [
            | inl g ↦ rw (e, c, f, g) (error_takes err_len msg.obj st rest)
            | inr g ↦ rw (e, c, f, g) refl
          ]
        ]
      ]
    ]

abbrev on_timeout : ℕ → ℕ → Consumer → List Poll → Option (Cevent × Consumer)
on_timeout err_len start st ps =
    if expires start ps
    then some (error (set_err err_len timed_out_chunk), record st { active = false })
    else none

pull_loop_lem :
    (err_len start : ℕ) (st : Consumer) (ps : List Poll)
    → st.active ≡ true
    → pull_loop err_len start st ps
      ≡ first_event err_len st (on_timeout err_len start st ps) (in_time start ps)
unfolding pull_loop
pull_loop_lem err_len start st [] a = refl
pull_loop_lem err_len start st ((now, none) ∷ ps) a =
    elim (Bool-cases (ltb (sub32 now start) timeout_ticks)) [
      | inl e ↦ rw e (pull_loop_lem err_len start st ps a)
      | inr e ↦ rw e refl
    ]
pull_loop_lem err_len start st ((now, some m) ∷ ps) a =
    elim (Bool-cases (ltb (sub32 now start) timeout_ticks)) [
      | inl e ↦ rw e (
          ap (λ r. loop_takes err_len st r m) (pull_loop_lem err_len start st ps a)
          ∙ sym (handler-loop err_len st _ m a))
      | inr e ↦ rw e refl
    ]

active_pull :
    (err_len start : ℕ) (st : Consumer) (ps : List Poll)
    → st.active ≡ true
    → (zstream_pull err_len start st ps).1 ≡ pull_loop err_len start st ps
unfolding zstream_pull
active_pull err_len start st ps a = ground (arith, a)

-- An open stream's blocking pull returns what the handler makes of the first message in time that is
-- relevant to it. When no such message comes, it returns the time-out as soon as a poll is past it, and
-- waits on until then.
pub zstream_pull_lem :
    (err_len start : ℕ) (st : Consumer) (ps : List Poll)
    → st.active ≡ true
    → (zstream_pull err_len start st ps).1
      ≡ first_event err_len st
          (if expires start ps
            then some (error (set_err err_len timed_out_chunk), record st { active = false })
            else none)
          (in_time start ps)
zstream_pull_lem err_len start st ps a =
    active_pull err_len start st ps a ∙ pull_loop_lem err_len start st ps a

open_takes :
    (err_len : ℕ) (obj : Payload) (st : Consumer) (rest : Option (Cevent × Consumer))
    → takes rest (handle_open err_len obj st) ≡ some (handle_open err_len obj st)
unfolding handle_open
open_takes err_len nothing st rest = refl
open_takes err_len other st rest = refl
open_takes err_len (number n) st rest = refl
open_takes err_len (text none) st rest = refl
open_takes err_len (text (some s)) st rest = refl
open_takes err_len (blob d) st rest = refl

opening :
    (err_len : ℕ) (st : Consumer) (msg : Message)
    → st.active ≡ false
    → st.stream_id ≡ 0
    → zstream_consumer_handle err_len st msg ≡ (
        if not (msg.subject == z_stream_open_reply) || not (msg.tag == st.open_tag)
        then (irrelevant, st)
        else handle_open err_len msg.obj st)
unfolding zstream_consumer_handle
opening err_len st msg a z = ground (arith, a, z)

abbrev open_turn : ℕ → Consumer → Option (Cevent × Consumer) → Message → Option (Cevent × Consumer)
open_turn err_len st rest msg =
    if not (msg.subject == z_stream_open_reply) || not (msg.tag == st.open_tag)
    then rest
    else some (handle_open err_len msg.obj st)

handler-open :
    (err_len : ℕ) (st : Consumer) (rest : Option (Cevent × Consumer)) (msg : Message)
    → st.active ≡ false
    → st.stream_id ≡ 0
    → takes rest (zstream_consumer_handle err_len st msg) ≡ open_turn err_len st rest msg
handler-open err_len st rest msg a z =
    ap (takes rest) (opening err_len st msg a z)
    ∙ elim (Bool-cases (not (msg.subject == z_stream_open_reply) || not (msg.tag == st.open_tag))) [
      | inl e ↦ rw e refl
      | inr e ↦ rw e (open_takes err_len msg.obj st rest)
    ]

abbrev open_timeout : ℕ → ℕ → Consumer → List Poll → Option (Cevent × Consumer)
open_timeout err_len start st ps =
    if expires start ps then some (open_failed (set_err err_len timed_out_open), st) else none

open_loop_lem :
    (err_len start : ℕ) (st : Consumer) (ps : List Poll)
    → st.active ≡ false
    → st.stream_id ≡ 0
    → open_loop err_len start st ps
      ≡ first_event err_len st (open_timeout err_len start st ps) (in_time start ps)
unfolding open_loop
open_loop_lem err_len start st [] a z = refl
open_loop_lem err_len start st ((now, none) ∷ ps) a z =
    elim (Bool-cases (ltb (sub32 now start) timeout_ticks)) [
      | inl e ↦ rw e (open_loop_lem err_len start st ps a z)
      | inr e ↦ rw e refl
    ]
open_loop_lem err_len start st ((now, some m) ∷ ps) a z =
    elim (Bool-cases (ltb (sub32 now start) timeout_ticks)) [
      | inl e ↦ rw e (
          ap (λ r. open_turn err_len st r m) (open_loop_lem err_len start st ps a z)
          ∙ sym (handler-open err_len st _ m a z))
      | inr e ↦ rw e refl
    ]

-- A blocking open sends what the other form sends, and returns what the handler makes of the first message
-- in time that is relevant to the waiting consumer. When no such message comes, it returns the time-out as
-- soon as a poll is past it, and waits on until then.
pub zstream_open_lem :
    (err_len start tag pid : ℕ) (request : Payload) (ps : List Poll)
    → let (st, _, es) = zstream_open_async tag pid request in
      zstream_open err_len start tag pid request ps ≡ (
        es,
        first_event err_len st
            (if expires start ps
              then some (open_failed (set_err err_len timed_out_open), st)
              else none)
            (in_time start ps),
      )
unfolding zstream_open zstream_open_async
zstream_open_lem err_len start tag pid request ps =
    ap (λ r. ((zstream_open_async tag pid request).2, r))
      (open_loop_lem err_len start (zstream_open_async tag pid request).0 ps refl refl)
