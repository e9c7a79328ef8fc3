-- ===== src/Hid.antt =====
-- The keyboard driver (sw/os/hid.c): reports of the keys that are held become events of the keys that
-- changed, in a ring that the readers drain. A report is the two registers of its port.
pub mod Ring
pub mod Edges
mod Tests
use zeitlos.Prelude.{
  ℕ, zero, suc, ◌+◌, ◌*◌, ◌/◌, ◌%◌, ◌^◌, Bool, true, false, ◌||◌, not, Option, none, some, List, [],
  ◌∷◌, ltb, leb, ◌==◌, if◌then◌else◌, get_or, set, replicate,
}

abbrev pub fifo_size : ℕ
fifo_size = 32

-- The shared ring: `hid_fifo`, `hid_head`, `hid_tail`.
pub record Fifo : Type 0 where
  pub slots : List ℕ
  pub head : ℕ
  pub tail : ℕ

-- `hid_port_t`.
pub record Port : Type 0 where
  pub modifiers : ℕ
  pub keys : List ℕ

pub record Hid : Type 0 where
  pub fifo : Fifo
  pub port0 : Port
  pub port1 : Port

pub z_hid_init : Hid → Hid
z_hid_init h =
    let port : Port = record { modifiers = 0; keys = 0 ∷ 0 ∷ 0 ∷ 0 ∷ [] } in
    record {
      fifo = record { slots = h.fifo.slots; head = 0; tail = 0 };
      port0 = port;
      port1 = port;
    }

-- `HID_EVENT`.
abbrev pub hid_event : ℕ → ℕ → Bool → ℕ
hid_event usage mods pressed = mods % 2 ^ 8 * 2 ^ 9 + usage % 2 ^ 8 * 2 + (if pressed then 1 else 0)

pub hid_push : ℕ → Fifo → Fifo
hid_push ev f =
    let next = (f.head + 1) % fifo_size in
    if next == f.tail then f else record f { slots = set f.slots f.head ev; head = next }

pub hid_usage_valid : ℕ → Bool
hid_usage_valid usage = leb 0x04 usage

abbrev pub key_in_set : List ℕ → ℕ → Bool
key_in_set [] usage = false
key_in_set (k ∷ ks) usage = k == usage || key_in_set ks usage

abbrev pub bit : ℕ → ℕ → ℕ
bit word b = word / 2 ^ b % 2

-- The changed modifiers from the bit `b` on, `n` of them.
pub push_modifiers : ℕ → ℕ → ℕ → ℕ → Fifo → Fifo
push_modifiers old new b zero f = f
push_modifiers old new b (suc n) f =
    push_modifiers old new (b + 1) n
      (if bit old b == bit new b then f else hid_push (hid_event (0xe0 + b) new (bit new b == 1)) f)

-- The usages of `us` that are not among `others`, each as an event.
pub push_missing : Bool → ℕ → List ℕ → List ℕ → Fifo → Fifo
push_missing pressed mods others [] f = f
push_missing pressed mods others (u ∷ us) f = push_missing pressed mods others us (
    if not (hid_usage_valid u)
    then f
    else if not (key_in_set others u)
    then hid_push (hid_event u mods pressed) f
    else f)

-- The four keys of a report's second register.
abbrev pub report_keys : ℕ → List ℕ
report_keys keys =
    keys / 2 ^ 24 % 2 ^ 8 ∷ keys / 2 ^ 16 % 2 ^ 8 ∷ keys / 2 ^ 8 % 2 ^ 8 ∷ keys % 2 ^ 8 ∷ []

pub hid_irq_common : ℕ → ℕ → Port → Fifo → Port × Fifo
hid_irq_common info keys st f =
    let modifiers = info % 2 ^ 8 in
    let cur = report_keys keys in
    if not (info / 2 ^ 24 % 4 == 1) then (st, f) else (
      record { modifiers = modifiers; keys = cur },
      push_missing true modifiers st.keys cur (
          push_missing false modifiers cur st.keys
            (if modifiers == st.modifiers then f else push_modifiers st.modifiers modifiers 0 8 f)),
    )

pub z_hid_irq0 : ℕ → ℕ → Hid → Hid
z_hid_irq0 info keys h =
    let (p, f) = hid_irq_common info keys h.port0 h.fifo in record h { fifo = f; port0 = p }

pub z_hid_irq1 : ℕ → ℕ → Hid → Hid
z_hid_irq1 info keys h =
    let (p, f) = hid_irq_common info keys h.port1 h.fifo in record h { fifo = f; port1 = p }

-- `none` is the -1 of an empty ring.
pub k_hid_read_key : Fifo → Option ℕ × Fifo
k_hid_read_key f =
    if f.head == f.tail
    then (none, f)
    else (some (get_or f.slots f.tail 0), record f { tail = (f.tail + 1) % fifo_size })
