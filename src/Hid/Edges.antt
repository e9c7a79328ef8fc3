-- ===== src/Hid/Edges.antt =====
-- sw/os/hid.c: the events of a report, and what a reader learns from them.
use zeitlos.Prelude.{
  ℕ, zero, suc, ◌+◌, ◌/◌, ◌%◌, ◌^◌, ◌≤◌, ◌<◌, ◌≡◌, ◌∙◌, refl, sym, ap, ap₂, Bool, true, false, ◌||◌,
  ◌&&◌, not, List, [], ◌∷◌, ◌++◌, arith, leb, ◌==◌, if◌then◌else◌, Bool-cases, inl, inr, All,
  ℕ_discrete,
}
use zeitlos.Hid.{
  Fifo, Port, hid_event, hid_push, hid_usage_valid, key_in_set, bit, push_modifiers, push_missing,
  report_keys, hid_irq_common,
}
use zeitlos.Hid.Ring.{IsValid, contents, enqueue, hid_push-IsValid, hid_push_refines}

-- What an event says, read back.
abbrev pub event_usage : ℕ → ℕ
event_usage ev = ev / 2 % 2 ^ 8

abbrev pub event_mods : ℕ → ℕ
event_mods ev = ev / 2 ^ 9 % 2 ^ 8

abbrev pub event_pressed : ℕ → Bool
event_pressed ev = ev % 2 == 1

-- An event is read back whole, and is never the negative word that an empty ring is reported by.
pub hid_event_lem :
    (usage mods : ℕ) (pressed : Bool)
    → usage < 256
    → mods < 256
    → let ev = hid_event usage mods pressed in
      (event_usage ev ≡ usage)
      × (event_mods ev ≡ mods)
      × (event_pressed ev ≡ pressed)
      × (ev < 2 ^ 31)
hid_event_lem usage mods true hu hm = ground (arith, hu, hm)
hid_event_lem usage mods false hu hm = ground (arith, hu, hm)

-- The events of the modifiers, and of the keys of one list that are not in the other.
abbrev pub modifier_events : ℕ → ℕ → ℕ → ℕ → List ℕ
modifier_events old new b zero = []
modifier_events old new b (suc n) =
    let rest = modifier_events old new (b + 1) n in
    if bit old b == bit new b then rest else hid_event (0xe0 + b) new (bit new b == 1) ∷ rest

abbrev pub missing_events : Bool → ℕ → List ℕ → List ℕ → List ℕ
missing_events pressed mods others [] = []
missing_events pressed mods others (u ∷ us) =
    let rest = missing_events pressed mods others us in
    if hid_usage_valid u && not (key_in_set others u) then hid_event u mods pressed ∷ rest else rest

abbrev pub enqueue_all : List ℕ → List ℕ → List ℕ
enqueue_all [] q = q
enqueue_all (ev ∷ evs) q = enqueue_all evs (enqueue ev q)

-- A ring behind some events: still valid, and with them in its queue.
record Queued (evs : List ℕ) (f g : Fifo) : Type 0 where
  valid : IsValid g
  holds : contents g ≡ enqueue_all evs (contents f)

Queued-one : (ev : ℕ) (f : Fifo) → IsValid f → Queued (ev ∷ []) f (hid_push ev f)
Queued-one ev f v = record { valid = hid_push-IsValid ev f v; holds = hid_push_refines ev f v }

push_modifiers-Queued :
    (old new b n : ℕ) (f : Fifo)
    → IsValid f
    → Queued (modifier_events old new b n) f (push_modifiers old new b n f)
unfolding push_modifiers
push_modifiers-Queued old new b zero f v = record { valid = v; holds = refl }
push_modifiers-Queued old new b (suc n) f v = elim (Bool-cases (bit old b == bit new b)) [
  | inl e ↦ rw e (push_modifiers-Queued old new (b + 1) n f v)
  | inr e ↦
      let one = Queued-one (hid_event (0xe0 + b) new (bit new b == 1)) f v in
      let rest = push_modifiers-Queued old new (b + 1) n _ one.valid in
      rw e (record {
        valid = rest.valid;
        holds = rest.holds ∙ ap (enqueue_all (modifier_events old new (b + 1) n)) one.holds;
      })
]

push_missing-Queued :
    (pressed : Bool) (mods : ℕ) (others us : List ℕ) (f : Fifo)
    → IsValid f
    → Queued (missing_events pressed mods others us) f (push_missing pressed mods others us f)
unfolding push_missing
push_missing-Queued pressed mods others [] f v = record { valid = v; holds = refl }
push_missing-Queued pressed mods others (u ∷ us) f v = elim (Bool-cases (hid_usage_valid u)) [
  | inr bad ↦ rw bad (push_missing-Queued pressed mods others us f v)
  | inl good ↦ elim (Bool-cases (key_in_set others u)) [
    | inl e ↦ rw (good, e) (push_missing-Queued pressed mods others us f v)
    | inr e ↦
        let one = Queued-one (hid_event u mods pressed) f v in
        let rest = push_missing-Queued pressed mods others us _ one.valid in
        rw (good, e)
          (record {
            valid = rest.valid;
            holds = rest.holds ∙ ap (enqueue_all (missing_events pressed mods others us)) one.holds;
          })
  ]
]

-- The events of a keyboard's report: the modifiers that changed, the keys that were let go, and the keys that
-- are new.
abbrev pub report_events : ℕ → ℕ → Port → List ℕ
report_events info keys st =
    let mods = info % 2 ^ 8 in
    let cur = report_keys keys in
    (if mods == st.modifiers then [] else modifier_events st.modifiers mods 0 8)
    ++ (missing_events false mods cur st.keys ++ missing_events true mods st.keys cur)

enqueue_all-append :
    (xs ys q : List ℕ) → enqueue_all (xs ++ ys) q ≡ enqueue_all ys (enqueue_all xs q)
enqueue_all-append [] ys q = refl
enqueue_all-append (x ∷ xs) ys q = enqueue_all-append xs ys (enqueue x q)

Queued-trans :
    (xs ys : List ℕ) (f g h : Fifo) → Queued xs f g → Queued ys g h → Queued (xs ++ ys) f h
Queued-trans xs ys f g h a b = record {
  valid = b.valid;
  holds = b.holds ∙ ap (enqueue_all ys) a.holds ∙ sym (enqueue_all-append xs ys (contents f));
}

modifiers-Queued :
    (old new : ℕ) (f : Fifo)
    → IsValid f
    → Queued
        (if new == old then [] else modifier_events old new 0 8)
        f
        (if new == old then f else push_modifiers old new 0 8 f)
modifiers-Queued old new f v = elim (Bool-cases (new == old)) [
  | inl e ↦ rw e (record { valid = v; holds = refl })
  | inr e ↦ rw e (push_modifiers-Queued old new 0 8 f v)
]

-- A keyboard's report becomes the new state of its port, and its events are queued in order, as far as there
-- is room; the report of another device changes nothing.
pub hid_irq_common_lem :
    (info keys : ℕ) (st : Port) (f : Fifo)
    → IsValid f
    → let (st', f') = hid_irq_common info keys st f in
      let keyboard = info / 2 ^ 24 % 4 == 1 in
      IsValid f'
      × (st'
          ≡ (if keyboard then record { modifiers = info % 2 ^ 8; keys = report_keys keys } else st))
      × (contents f' ≡ (
          if keyboard then enqueue_all (report_events info keys st) (contents f) else contents f))
unfolding hid_irq_common
hid_irq_common_lem info keys st f v = elim (Bool-cases (info / 2 ^ 24 % 4 == 1)) [
  | inr e ↦ rw e (v, refl, refl)
  | inl e ↦
      let mods = info % 2 ^ 8 in
      let cur = report_keys keys in
      let a = modifiers-Queued st.modifiers mods f v in
      let b = push_missing-Queued false mods cur st.keys _ a.valid in
      let c = push_missing-Queued true mods st.keys cur _ b.valid in
      let all = Queued-trans _ _ _ _ _ a (Queued-trans _ _ _ _ _ b c) in
      rw e (all.valid, refl, all.holds)
]

-- A reader that follows one key.
abbrev pub track : ℕ → Bool → List ℕ → Bool
track u held [] = held
track u held (ev ∷ evs) = track u (if event_usage ev == u then event_pressed ev else held) evs

track-append :
    (u : ℕ) (xs ys : List ℕ) (held : Bool) → track u held (xs ++ ys) ≡ track u (track u held xs) ys
track-append u [] ys held = refl
track-append u (x ∷ xs) ys held = track-append u xs ys _

track_event :
    (u k mods : ℕ) (pressed held : Bool) (evs : List ℕ)
    → k < 256
    → track u held (hid_event k mods pressed ∷ evs) ≡ track u (if k == u then pressed else held) evs
track_event u k mods true held evs h =
    ap (λ b. track u b evs)
      (ap₂ (λ x p. if x == u then p else held) (omega (arith, h)) (ground (arith, h)))
track_event u k mods false held evs h =
    ap (λ b. track u b evs)
      (ap₂ (λ x p. if x == u then p else held) (omega (arith, h)) (ground (arith, h)))

-- A key of the list that makes an event, and one that makes none.
new_key :
    (k u : ℕ) (pressed held : Bool) (others us : List ℕ)
    → (leb 4 k && not (key_in_set others k)) ≡ true
    → (if key_in_set us u && not (key_in_set others u)
        then pressed
        else if k == u
        then pressed
        else held)
      ≡ (if (k == u || key_in_set us u) && not (key_in_set others u) then pressed else held)
new_key k u pressed held others us c = elim (ℕ_discrete k u) [
  | yes e ↦
      let here : (k == u) ≡ true = ground (arith, e) in
      let free : key_in_set others u ≡ false = ground (arith, c, ap (key_in_set others) e) in
      rw (here, free) (ground arith)
  | no ne ↦ (let other : (k == u) ≡ false = ground (arith, ne) in rw other refl)
]

old_key :
    (k u : ℕ) (pressed held : Bool) (others us : List ℕ)
    → 4 ≤ u
    → (leb 4 k && not (key_in_set others k)) ≡ false
    → (if key_in_set us u && not (key_in_set others u) then pressed else held)
      ≡ (if (k == u || key_in_set us u) && not (key_in_set others u) then pressed else held)
old_key k u pressed held others us hu c = elim (ℕ_discrete k u) [
  | yes e ↦
      let taken : key_in_set others u ≡ true = ground (arith, hu, c, e, ap (key_in_set others) e) in
      rw taken (ground arith)
  | no ne ↦ (let other : (k == u) ≡ false = ground (arith, ne) in rw other refl)
]

track-missing_events :
    (u : ℕ) (pressed : Bool) (mods : ℕ) (others us : List ℕ) (held : Bool)
    → 4 ≤ u
    → All (λ k. k < 256) us
    → track u held (missing_events pressed mods others us)
      ≡ (if key_in_set us u && not (key_in_set others u) then pressed else held)
unfolding hid_usage_valid
track-missing_events u pressed mods others [] held hu a = refl
track-missing_events u pressed mods others (k ∷ us) held hu a =
    let rest = track-missing_events u pressed mods others us in
    elim (Bool-cases (leb 4 k && not (key_in_set others k))) [
      | inl c ↦ rw c (
          track_event u k mods pressed held (missing_events pressed mods others us) a.0
          ∙ rest (if k == u then pressed else held) hu a.1
          ∙ new_key k u pressed held others us c)
      | inr c ↦ rw c (rest held hu a.1 ∙ old_key k u pressed held others us hu c)
    ]

track-modifier_events :
    (u old new b n : ℕ) (held : Bool)
    → u < 0xe0
    → b + n ≤ 8
    → track u held (modifier_events old new b n) ≡ held
track-modifier_events u old new b zero held hu hb = refl
track-modifier_events u old new b (suc n) held hu hb =
    let rest = track-modifier_events u old new (b + 1) n held hu (omega (arith, hb)) in
    elim (Bool-cases (bit old b == bit new b)) [
      | inl e ↦ rw e rest
      | inr e ↦
          let other : (0xe0 + b == u) ≡ false = ground (arith, hu) in
          rw e (
            track_event u (0xe0 + b) new (bit new b == 1) held (modifier_events old new (b + 1) n)
              (omega (arith, hb))
            ∙ ap
                (λ c.
                  track u (if c then bit new b == 1 else held) (modifier_events old new (b + 1) n))
                other
            ∙ rest)
    ]

report_keys_small : (keys : ℕ) → All (λ k. k < 256) (report_keys keys)
report_keys_small keys = ground arith

edge :
    (old cur : Bool)
    → (if cur && not old then true else if old && not cur then false else old) ≡ cur
edge old cur = ground arith

-- A reader that follows a key by the events of a report, from whether the key was held, learns whether the
-- report holds it.
pub track-report_events :
    (u info keys : ℕ) (st : Port)
    → 4 ≤ u
    → u < 0xe0
    → All (λ k. k < 256) st.keys
    → track u (key_in_set st.keys u) (report_events info keys st) ≡ key_in_set (report_keys keys) u
track-report_events u info keys st hu hv a =
    let mods = info % 2 ^ 8 in
    let cur = report_keys keys in
    let old = key_in_set st.keys u in
    let gone = missing_events false mods cur st.keys in
    let new = missing_events true mods st.keys cur in
    let quiet : track u old
          (if mods == st.modifiers then [] else modifier_events st.modifiers mods 0 8)
        ≡ old =
      elim (Bool-cases (mods == st.modifiers)) [
        | inl e ↦ rw e refl
        | inr e ↦ rw e (track-modifier_events u st.modifiers mods 0 8 old hv (omega arith))
      ] in
    track-append u (if mods == st.modifiers then [] else modifier_events st.modifiers mods 0 8)
      (gone ++ new) old
    ∙ ap (λ b. track u b (gone ++ new)) quiet
    ∙ track-append u gone new old
    ∙ ap (λ b. track u b new) (track-missing_events u false mods cur st.keys old hu a)
    ∙ track-missing_events u true mods st.keys cur _ hu (report_keys_small keys)
    ∙ edge old (key_in_set cur u)
