-- ===== src/Net/Tcp/Delivery.antt =====
-- In-order delivery by the TCP client (sw/apps/net/tcp.c): what the handler gets is a prefix of the
-- bytes that the peer sent, whatever the network drops, repeats or reorders.
use zeitlos.Prelude.{
  ℕ, zero, suc, ◌+◌, ◌-◌, ◌^◌, ◌≤◌, ◌<◌, ◌≡◌, ◌∙◌, refl, sym, ap, ap₂, true, false, ◌||◌, not, some,
  List, [], ◌∷◌, ◌++◌, append-nil, append_assoc, arith, length, take, drop, add32, Bool-cases,
  Option-cases, inl, inr, ltb, ◌==◌, ==_iff,
}
use zeitlos.Net.Tcp.{
  State, closed, syn_sent, established, fin_wait_1, fin_wait_2, closing, time_wait, last_ack,
  is_closed, is_established, is_rst, Event, on_data, on_closed, Tcp, tcp_send, tcp_close, tcp_abort,
  tcp_send_segment, send_tracked, send_ack, send_rst, reset_to_closed, notify, process_ack, acked,
}
use zeitlos.Net.Tcp.Receive.{
  Seg, take_data, answer_fin, take_fin, in_established, in_fin_wait_1, in_fin_wait_2, in_closing,
  in_last_ack, in_time_wait, dispatch, take_segment, read_segment, is_ours, offset_of, tcp_handle,
  poll_timer, poll_time_wait, tcp_poll,
}
use zeitlos.Net.Tcp.Valid.{
  is_syn_sent, IsValid, acked-IsValid, handler_set, tcp_handle-IsValid, tcp_send-IsValid,
  tcp_close-IsValid, tcp_abort-IsValid, tcp_poll-IsValid,
}
use zeitlos.Net.Tcp.Run.{Call, init, connect, send, close, abort, receive, poll, apply, run}

abbrev pub data_of : Event → List ℕ
data_of (on_data octets) = octets
data_of _ = []

-- The bytes that handlers were given, in order.
abbrev pub delivered : List (ℕ × Event) → List ℕ
delivered [] = []
delivered ((h, ev) ∷ es) = data_of ev ++ delivered es

delivered-append :
    (es : List (ℕ × Event)) (h : ℕ) (ev : Event)
    → delivered (es ++ ((h, ev) ∷ [])) ≡ delivered es ++ data_of ev
delivered-append [] h ev = append-nil (data_of ev)
delivered-append ((g, e) ∷ es) h ev =
    ap (λ ds. data_of e ++ ds) (delivered-append es h ev)
    ∙ sym (append_assoc (data_of e) (delivered es) (data_of ev))

-- From `t` to `u` no data is delivered, and the stream is at the same place if it is still open.
record IsQuiet (t u : Tcp) : Type 0 where
  same_data : delivered u.heard ≡ delivered t.heard
  same_place :
      is_established u.state ≡ true → (is_established t.state ≡ true) × (u.rcv_nxt ≡ t.rcv_nxt)
  no_start : is_syn_sent u.state ≡ true → is_syn_sent t.state ≡ true

-- An event without data.
notify-IsQuiet : (ev : Event) (t : Tcp) → data_of ev ≡ [] → IsQuiet t (notify ev t)
unfolding notify
notify-IsQuiet ev t e = elim (Option-cases t.handler) [
  | inl none_set ↦ rw none_set (ground arith)
  | inr (h, is_set) ↦ rw is_set (record {
    same_data = delivered-append t.heard h ev ∙ ap (λ ds. delivered t.heard ++ ds) e ∙ append-nil _;
    same_place = λ s. (s, refl);
    no_start = λ s. s;
  })
]

IsQuiet-trans : (t u w : Tcp) → IsQuiet t u → IsQuiet u w → IsQuiet t w
IsQuiet-trans t u w q r = ground (arith, q, r)

IsQuiet-refl : (t : Tcp) → IsQuiet t t
IsQuiet-refl t = ground arith

reset-IsQuiet : (t : Tcp) → IsQuiet t (reset_to_closed t)
unfolding reset_to_closed
reset-IsQuiet t = ground arith

notify_reset-IsQuiet : (t : Tcp) → IsQuiet t (reset_to_closed (notify on_closed t))
notify_reset-IsQuiet t = IsQuiet-trans t _ _ (notify-IsQuiet on_closed t refl) (reset-IsQuiet _)

send_tracked-IsQuiet :
    (now flags : ℕ) (octets : List ℕ) (t : Tcp) → IsQuiet t (send_tracked now flags octets t)
unfolding send_tracked tcp_send_segment
send_tracked-IsQuiet now flags octets t = ground arith

send-IsQuiet : (now : ℕ) (octets : List ℕ) (t : Tcp) → IsQuiet t (tcp_send now octets t).1
unfolding tcp_send send_tracked tcp_send_segment
send-IsQuiet now octets t = ground arith

close-IsQuiet : (now : ℕ) (t : Tcp) → IsQuiet t (tcp_close now t).1
unfolding tcp_close send_tracked tcp_send_segment
close-IsQuiet now t = ground arith

abort-IsQuiet : (t : Tcp) → IsQuiet t (tcp_abort t)
unfolding tcp_abort reset_to_closed send_rst tcp_send_segment
abort-IsQuiet t = ground arith

acked-IsQuiet : (flags ack : ℕ) (t : Tcp) → IsQuiet t (acked flags ack t).1
unfolding acked process_ack
acked-IsQuiet flags ack t = ground arith

poll-IsQuiet : (now later : ℕ) (t : Tcp) → IsQuiet t (tcp_poll now later t)
unfolding tcp_poll poll_timer poll_time_wait tcp_send_segment
poll-IsQuiet now later t = ground (arith, notify_reset-IsQuiet t, reset-IsQuiet t)

answer_fin-IsQuiet : (now : ℕ) (t : Tcp) → IsQuiet t (answer_fin now t)
unfolding answer_fin send_ack send_tracked tcp_send_segment
answer_fin-IsQuiet now t = ground arith

take_fin-IsQuiet : (now : ℕ) (s : Seg) (t : Tcp) → IsQuiet t (take_fin now s t)
unfolding take_fin
take_fin-IsQuiet now s t =
    let q =
      IsQuiet-trans t (answer_fin now t) (notify on_closed (answer_fin now t))
        (answer_fin-IsQuiet now t) (notify-IsQuiet on_closed (answer_fin now t) refl) in
    ground (arith, q)

module _ (now : ℕ) (s : Seg) (t : Tcp) where
  fin_wait_1-IsQuiet : is_established t.state ≡ false → IsQuiet t (in_fin_wait_1 now s t)
  unfolding in_fin_wait_1 acked process_ack send_ack tcp_send_segment
  fin_wait_1-IsQuiet h = ground arith

  fin_wait_2-IsQuiet : is_established t.state ≡ false → IsQuiet t (in_fin_wait_2 now s t)
  unfolding in_fin_wait_2 send_ack tcp_send_segment
  fin_wait_2-IsQuiet h = ground arith

  closing-IsQuiet : IsQuiet t (in_closing now s t)
  unfolding in_closing acked process_ack
  closing-IsQuiet = ground arith

  last_ack-IsQuiet : IsQuiet t (in_last_ack s t)
  unfolding in_last_ack acked process_ack reset_to_closed
  last_ack-IsQuiet = ground arith

  time_wait-IsQuiet : IsQuiet t (in_time_wait s t)
  unfolding in_time_wait send_ack tcp_send_segment
  time_wait-IsQuiet = ground arith

-- The byte at `first` is the first of the stream `S`, of which `k` bytes came after `base`.
record Follows (base S : List ℕ) (first k : ℕ) (t : Tcp) : Type 0 where
  within : k ≤ length S
  got : delivered t.heard ≡ base ++ take k S
  place : is_established t.state ≡ true → t.rcv_nxt ≡ first + k
  started : is_syn_sent t.state ≡ false

-- A segment of the stream: its data is what the stream has at its number.
abbrev pub InStream : List ℕ → ℕ → Seg → Type 0
InStream S first s =
    (first ≤ s.seq)
    × (s.seq - first + s.len ≤ length S)
    × (s.octets ≡ take s.len (drop (s.seq - first) S))

-- The calls of one connection's life, each segment of the peer being one of the stream.
abbrev pub OfStream : List ℕ → ℕ → List Call → Tcp → Type 0
OfStream S first [] t = Unit
OfStream S first (init now ip ∷ cs) t = ⊥
OfStream S first (connect now later ip port h ∷ cs) t = ⊥
OfStream S first (receive now src_ip p len ∷ cs) t =
    (is_ours t src_ip p ≡ true → InStream S first (read_segment p len))
    × OfStream S first cs (apply (receive now src_ip p len) t)
OfStream S first (send now octets ∷ cs) t = OfStream S first cs (apply (send now octets) t)
OfStream S first (close now ∷ cs) t = OfStream S first cs (apply (close now) t)
OfStream S first (abort ∷ cs) t = OfStream S first cs (apply abort t)
OfStream S first (poll now later ∷ cs) t = OfStream S first cs (apply (poll now later) t)

take_nil : (n : ℕ) → take {A = ℕ} n [] ≡ []
take_nil zero = refl
take_nil (suc n) = refl

take_add : (k n : ℕ) (xs : List ℕ) → take k xs ++ take n (drop k xs) ≡ take (k + n) xs
take_add zero n xs = ap (λ m. take m xs) (omega arith)
take_add (suc k) n [] = take_nil n ∙ sym (take_nil (suc k + n))
take_add (suc k) n (x ∷ xs) =
    let e : suc (k + n) ≡ suc k + n = omega arith in
    ap (λ ys. x ∷ ys) (take_add k n xs) ∙ ap (λ m. take m (x ∷ xs)) e

module _ (base S : List ℕ) (first : ℕ) (bounded : first + length S < 2 ^ 32) where
  quiet-Follows :
      (k : ℕ) (t u : Tcp) → IsQuiet t u → Follows base S first k t → Follows base S first k u
  quiet-Follows k t u q f = record {
    within = f.within;
    got = q.same_data ∙ f.got;
    place = λ e. let (s, r) = q.same_place e in r ∙ f.place s;
    started = ground (arith, q.no_start, f.started);
  }

  -- Data that is in order is handed over.
  accept_data :
      (s : Seg) (t : Tcp) (k h : ℕ)
      → Follows base S first k t
      → is_established t.state ≡ true
      → t.handler ≡ some h
      → InStream S first s
      → s.seq ≡ t.rcv_nxt
      → Follows base S first
          (k + s.len)
          (notify (on_data s.octets) (send_ack (record t { rcv_nxt = add32 t.rcv_nxt s.len })))
  unfolding notify send_ack tcp_send_segment
  accept_data s t k h f e by i at =
      let here : s.seq - first ≡ k = omega (arith, f.place e) in
      rw by (record {
        within = omega (arith, f.place e);
        got =
            delivered-append t.heard h (on_data s.octets)
            ∙ ap₂ (◌++◌) f.got (i.2 ∙ ap (λ m. take s.len (drop m S)) here)
            ∙ append_assoc base (take k S) (take s.len (drop k S))
            ∙ ap (λ xs. base ++ xs) (take_add k s.len S);
        place = λ _. omega (arith, f.place e);
        started = f.started;
      })

  send_ack-IsQuiet : (t : Tcp) → IsQuiet t (send_ack t)
  unfolding send_ack tcp_send_segment
  send_ack-IsQuiet t = ground arith

  abbrev Advances : ℕ → Tcp → Type 0
  Advances k u = (n : ℕ) × (k ≤ n) × Follows base S first n u

  still : (k : ℕ) (t u : Tcp) → Follows base S first k t → IsQuiet t u → Advances k u
  still k t u f q = (k, omega arith, quiet-Follows k t u q f)

  take_data-Follows :
      (s : Seg) (t : Tcp) (k h : ℕ)
      → Follows base S first k t
      → is_established t.state ≡ true
      → t.handler ≡ some h
      → InStream S first s
      → Advances k (take_data s t)
  unfolding take_data
  take_data-Follows s t k h f e by i = elim (Bool-cases (s.len == 0)) [
    | inl c ↦ rw c (still k t t f (IsQuiet-refl t))
    | inr c ↦ rw c (elim (Bool-cases (s.seq == t.rcv_nxt)) [
      | inl d ↦ rw d (k + s.len, omega arith, accept_data s t k h f e by i ((==_iff _ _).0 d))
      | inr d ↦ rw d (elim (Bool-cases (ltb s.seq t.rcv_nxt)) [
        | inl g ↦ rw g (still k t _ f (send_ack-IsQuiet t))
        | inr g ↦ rw g (still k t t f (IsQuiet-refl t))
      ])
    ])
  ]

  dispatch-Follows :
      (st : State) (now : ℕ) (s : Seg) (t : Tcp) (k : ℕ)
      → Follows base S first k t
      → t.state ≡ st
      → IsValid t
      → InStream S first s
      → Advances k (dispatch st now s t)
  unfolding dispatch in_established
  dispatch-Follows closed now s t k f e v i = still k t t f (IsQuiet-refl t)
  dispatch-Follows syn_sent now s t k f e v i = absurd (ground (arith, e, f.started))
  dispatch-Follows established now s t k f e v i =
      let u = (acked s.flags s.ack t).1 in
      let (v1, e1) = acked-IsValid s t v (ap is_closed e) (ap is_syn_sent e) in
      let opened = ap is_established (e1 ∙ e) in
      let (h, set) = handler_set u v1 (ap is_closed (e1 ∙ e)) in
      let (n, le, g) =
        take_data-Follows s u k h (quiet-Follows k t u (acked-IsQuiet s.flags s.ack t) f) opened set
          i in
      (n, le, quiet-Follows n (take_data s u) _ (take_fin-IsQuiet now s (take_data s u)) g)
  dispatch-Follows fin_wait_1 now s t k f e v i =
      still k t _ f (fin_wait_1-IsQuiet now s t (ap is_established e))
  dispatch-Follows fin_wait_2 now s t k f e v i =
      still k t _ f (fin_wait_2-IsQuiet now s t (ap is_established e))
  dispatch-Follows closing now s t k f e v i = still k t _ f (closing-IsQuiet now s t)
  dispatch-Follows time_wait now s t k f e v i = still k t _ f (time_wait-IsQuiet now s t)
  dispatch-Follows last_ack now s t k f e v i = still k t _ f (last_ack-IsQuiet now s t)

  handle-Follows :
      (now src_ip len : ℕ) (p : List ℕ) (t : Tcp) (k : ℕ)
      → Follows base S first k t
      → IsValid t
      → (is_ours t src_ip p ≡ true → InStream S first (read_segment p len))
      → Advances k (tcp_handle now src_ip p len t)
  unfolding tcp_handle take_segment
  handle-Follows now src_ip len p t k f v i =
      elim (Bool-cases (is_closed t.state || ltb len 20 || not (is_ours t src_ip p))) [
        | inl e ↦ rw e (still k t t f (IsQuiet-refl t))
        | inr e ↦ rw e (elim (Bool-cases (ltb (offset_of p) 20 || ltb len (offset_of p))) [
          | inl g ↦ rw g (still k t t f (IsQuiet-refl t))
          | inr g ↦ rw g (elim (Bool-cases (is_rst (read_segment p len).flags)) [
            | inl r ↦ rw r (still k t _ f (notify_reset-IsQuiet t))
            | inr r ↦ rw r (
                dispatch-Follows t.state now (read_segment p len) t k f refl v
                  (i (ground (arith, e))))
          ])
        ])
      ]

  then_run :
      (k : ℕ) (t u : Tcp)
      → Advances k u
      → ((n : ℕ) → Follows base S first n u → Advances n t)
      → Advances k t
  then_run k t u (n, le, f) go = let (m, le', g) = go n f in (m, omega (arith, le, le'), g)

  run-Follows :
      (cs : List Call) (t : Tcp) (k : ℕ)
      → Follows base S first k t
      → IsValid t
      → OfStream S first cs t
      → Advances k (run cs t)
  run-Follows [] t k f v o = still k t t f (IsQuiet-refl t)
  run-Follows (init now ip ∷ cs) t k f v o = absurd o
  run-Follows (connect now later ip port h ∷ cs) t k f v o = absurd o
  run-Follows (receive now src_ip p len ∷ cs) t k f v o =
      then_run k _ _ (handle-Follows now src_ip len p t k f v o.0)
        λ n g. run-Follows cs _ n g (tcp_handle-IsValid now src_ip len p t v) o.1
  run-Follows (send now octets ∷ cs) t k f v o =
      run-Follows cs _ k (quiet-Follows k t _ (send-IsQuiet now octets t) f)
        (tcp_send-IsValid now octets t v) o
  run-Follows (close now ∷ cs) t k f v o =
      run-Follows cs _ k (quiet-Follows k t _ (close-IsQuiet now t) f) (tcp_close-IsValid now t v) o
  run-Follows (abort ∷ cs) t k f v o =
      run-Follows cs _ k (quiet-Follows k t _ (abort-IsQuiet t) f) (tcp_abort-IsValid t v) o
  run-Follows (poll now later ∷ cs) t k f v o =
      run-Follows cs _ k (quiet-Follows k t _ (poll-IsQuiet now later t) f)
        (tcp_poll-IsValid now later t v) o

-- From an established connection on, through any calls but a new connection, and with segments lost,
-- repeated, cut otherwise or out of order, as long as each holds what the peer's stream has at its
-- number and the numbers of the stream do not wrap: what the handler has been given since is always a
-- prefix of the stream.
pub run-delivers :
    (S : List ℕ) (first : ℕ) (cs : List Call) (t : Tcp)
    → first + length S < 2 ^ 32
    → IsValid t
    → t.state ≡ established
    → t.rcv_nxt ≡ first
    → OfStream S first cs t
    → (n : ℕ) × (n ≤ length S) × (delivered (run cs t).heard ≡ delivered t.heard ++ take n S)
run-delivers S first cs t b v e r o =
    let start : Follows (delivered t.heard) S first 0 t = record {
      within = omega arith;
      got = sym (append-nil _);
      place = λ _. omega (arith, r);
      started = ap is_syn_sent e;
    } in
    let (n, le, f) = run-Follows (delivered t.heard) S first b cs t 0 start v o in
    (n, f.within, f.got)
