-- ===== src/Msg/Queue.antt =====
-- The specification of a mailbox: a queue of at most `mailbox_depth` envelopes, oldest first.
use zeitlos.Prelude.{Option, none, some, List, [], ◌∷◌, ◌++◌, length, leb, if◌then◌else◌}
use zeitlos.Msg.{Envelope, Rv, ok, fail, mailbox_depth}

unfoldable pub push : List Envelope → Envelope → Rv × List Envelope
push q x = if leb mailbox_depth (length q) then (fail, q) else (ok, q ++ (x ∷ []))

unfoldable pub pop : List Envelope → Option Envelope × List Envelope
pop [] = (none, [])
pop (x ∷ q) = (some x, q)
