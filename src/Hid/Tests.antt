-- ===== src/Hid/Tests.antt =====
-- sw/os/hid.c: two reports, and the theorems there.
use zeitlos.Prelude.{ℕ, ◌/◌, ◌%◌, ◌^◌, ◌≡◌, refl, [], ◌∷◌, arith, replicate, ◌==◌, if◌then◌else◌}
use zeitlos.Hid.{Fifo, Port, hid_usage_valid, report_keys, hid_irq_common}
use zeitlos.Hid.Ring.{IsValid, contents}
use zeitlos.Hid.Edges.{report_events, enqueue_all, hid_irq_common_lem}

abbrev empty : Fifo
empty = record { slots = replicate 32 0; head = 0; tail = 0 }

empty-IsValid : IsValid empty
empty-IsValid = record { sized = refl; head_in = omega arith; tail_in = omega arith }

-- A keyboard with the usage 4 held, and then with 5 in its place.
abbrev holding_a : Port
holding_a = record { modifiers = 0; keys = 4 ∷ 0 ∷ 0 ∷ 0 ∷ [] }

abbrev info : ℕ
info = 0x0100_0000

abbrev keys : ℕ
keys = 0x0500_0000

let_go_and_pressed : report_events info keys holding_a ≡ 8 ∷ 11 ∷ []
unfolding hid_usage_valid
let_go_and_pressed = refl

hid_irq_common_lem_example :
    let (st, f) = hid_irq_common info keys holding_a empty in
    let keyboard = info / 2 ^ 24 % 4 == 1 in
    IsValid f
    × (st ≡ (
        if keyboard
        then record { modifiers = info % 2 ^ 8; keys = report_keys keys }
        else holding_a))
    × (contents f ≡ (
        if keyboard
        then enqueue_all (report_events info keys holding_a) (contents empty)
        else contents empty))
hid_irq_common_lem_example = hid_irq_common_lem info keys holding_a empty empty-IsValid
