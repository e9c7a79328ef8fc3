-- ===== src/Net/Tftp/Chunks.antt =====
-- sw/apps/net/tftp.c, with the producer's side of sw/common/zstream.c: what the receiver of a fetched file
-- may be sent, and how the producer answers it.
use zeitlos.Prelude.{
  ℕ, ◌+◌, ◌-◌, ◌*◌, ◌%◌, ◌^◌, ◌≤◌, ◌<◌, ◌≡◌, ◌∙◌, refl, sym, ap, Bool, true, false, ◌&&◌, not, List,
  [], ◌∷◌, ◌++◌, arith, length, take, drop, All, ltb, ◌==◌, Bool-cases, inl, inr, Bytes,
  if◌then◌else◌, add32, min,
}
use zeitlos.Net.Octets.{get16}
use zeitlos.Stream.{
  Payload, nothing, other, number, text, blob, Message, Effect, send, free, Producer, Event,
  nothing_for_us, abort, zstream_tag, tag_seq, next_seq, uint32_max, release_last,
  zstream_producer_handle, zstream_send_chunk, zstream_send_eof, zstream_send_error, send_last,
  z_stream_chunk, z_stream_eof, z_stream_pull, z_stream_abort, tag_stream_id,
}
use zeitlos.Net.Tftp.{Tftp, block_size, op_data, with_producer, close_port, fail, set_err}
use zeitlos.Net.Tftp.Handle.{is_getting, is_putting}

-- The block of the file behind `k` others.
abbrev pub block_at : Bytes → ℕ → Bytes
block_at file k = take block_size (drop (block_size * k) file)

-- A chunk holds the block of its number; and the end of the stream has the number of blocks, of which
-- the last is not full.
abbrev pub IsSound : Bytes → Effect → Type 0
IsSound file (free o) = Unit {0}
IsSound file (send m) =
    (m.subject ≡ z_stream_chunk → (d : Bytes) → m.obj ≡ blob d → d ≡ block_at file (tag_seq m.tag))
    × (m.subject ≡ z_stream_eof → length file < block_size * tag_seq m.tag)

pub All-append :
    (file : Bytes) (xs ys : List Effect)
    → All (IsSound file) xs
    → All (IsSound file) ys
    → All (IsSound file) (xs ++ ys)
All-append file [] ys a b = b
All-append file (x ∷ xs) ys a b = (a.0, All-append file xs ys a.1 b)

-- The state of a transfer that goes on.
pub record IsLive (file : Bytes) (t : Tftp) : Type 0 where
  pub at : next_seq t.out_stream ≡ t.block
  pub inside : block_size * t.block ≤ length file
  pub word : t.out_stream.seq < 2 ^ 32
  pub held : t.held_valid ≡ true → t.held_data ≡ block_at file t.block
  pub last : (d : Bytes) → t.out_stream.last_chunk ≡ blob d → d ≡ block_at file t.out_stream.seq

pub record Fetches (file : Bytes) (t : Tftp) : Type 0 where
  pub sound : All (IsSound file) t.effects
  pub getting : t.is_get ≡ true
  pub no_put : is_putting t.state ≡ false
  pub faithful : (d e : Bytes) → t.make_blob d ≡ blob e → e ≡ d
  pub live : is_getting t.state ≡ true → IsLive file t

pub tag_seq_lem : (i n : ℕ) → n < 2 ^ 16 → tag_seq (zstream_tag i n) ≡ n
unfolding tag_seq zstream_tag
tag_seq_lem i n h = omega arith

pub next_seq_same : (p q : Producer) → p.seq ≡ q.seq → next_seq p ≡ next_seq q
unfolding next_seq
next_seq_same p q e = ap (λ s. if s == uint32_max then 0 else add32 s 1) e

pub next_seq_at : (p : Producer) (b : ℕ) → p.seq ≡ b → b < 2 ^ 16 → next_seq p ≡ b + 1
unfolding next_seq
next_seq_at p b e h = ground arith

-- A block is full exactly when another follows it.
pub full_block :
    (n k total : ℕ)
    → n ≡ min block_size (total - block_size * k)
    → block_size * k ≤ total
    → ltb n block_size ≡ false
    → block_size * (k + 1) ≤ total
full_block n k total e h f = let g : block_size ≤ n = ground arith in omega (arith, g)

pub short_block :
    (n k total : ℕ)
    → n ≡ min block_size (total - block_size * k)
    → block_size * k ≤ total
    → ltb n block_size ≡ true
    → total < block_size * (k + 1)
short_block n k total e h f = let g : n < block_size = ground arith in omega (arith, g)

-- A packet of the server that holds data has the file's block of its number, counted from 1.
abbrev pub Honest : Bytes → Bytes → ℕ → Type 0
Honest file p len =
    get16 p 0 ≡ op_data
    → (k : ℕ) → get16 p 2 ≡ k + 1
    → block_size * k ≤ length file
    → take (len - 4) (drop 4 p) ≡ block_at file k

module _ (file : Bytes) (short : length file < block_size * 65535) where
  pub release-IsSound : (p : Producer) → All (IsSound file) (release_last p)
  unfolding release_last
  release-IsSound p =
      elim (p.last_chunk)
        as (λ c. All (IsSound file) (elim c [ blob d ↦ free (blob d) ∷ [] | _ ↦ [] ])) [
          | blob d ↦ (tt, tt)
          | nothing ↦ tt
          | other ↦ tt
          | number n ↦ tt
          | text s ↦ tt
        ]

  pub error-IsSound : (p : Producer) (msg : Bytes) → All (IsSound file) (zstream_send_error p msg).1
  unfolding zstream_send_error send_last
  error-IsSound p msg =
      All-append file (release_last p) _ (release-IsSound p)
        (((λ e d f. absurd (omega arith)), (λ e. absurd (omega arith))), tt)

  pub eof-IsSound :
      (p : Producer)
      → length file < block_size * next_seq p
      → next_seq p < 2 ^ 16
      → All (IsSound file) (zstream_send_eof p).1
  unfolding zstream_send_eof send_last
  eof-IsSound p n w =
      let e = tag_seq_lem p.stream_id (next_seq p) w in
      All-append file (release_last p) _ (release-IsSound p)
        (((λ q d f. absurd (omega arith)), (λ q. rw e n)), tt)

  pub chunk-IsSound :
      (p : Producer) (c : Payload)
      → next_seq p < 2 ^ 16
      → ((d : Bytes) → c ≡ blob d → d ≡ block_at file (next_seq p))
      → All (IsSound file) (zstream_send_chunk p c).1
  unfolding zstream_send_chunk
  chunk-IsSound p c w f =
      let e = tag_seq_lem p.stream_id (next_seq p) w in
      (((λ q d g. rw e (f d g)), (λ q. absurd (omega arith))), tt)

  pub seq_small :
      (p : Producer) (b : Bool)
      → p.seq < 2 ^ 32
      → next_seq p < 2 ^ 16
      → (not (p.seq == uint32_max) && b) ≡ true
      → p.seq < 2 ^ 16
  unfolding next_seq
  seq_small p b s w k = ground arith

  -- What the producer's side does with a message: it answers at most with the chunk that it sent last.
  pub record Handled (p : Producer) (r : Event × Producer × List Effect) : Type 0 where
    pub same_seq : r.1.seq ≡ p.seq
    pub no_new : (d : Bytes) → r.1.last_chunk ≡ blob d → p.last_chunk ≡ blob d
    pub answers : All (IsSound file) r.2

  pub ignored : (p : Producer) (ev : Event) → Handled p (ev, p, [])
  ignored p ev = record { same_seq = refl; no_new = λ d e. e; answers = tt }

  pub handled :
      (p : Producer) (m : Message)
      → p.seq < 2 ^ 32
      → next_seq p < 2 ^ 16
      → ((d : Bytes) → p.last_chunk ≡ blob d → d ≡ block_at file p.seq)
      → Handled p (zstream_producer_handle p m)
  unfolding zstream_producer_handle
  handled p m s w l = elim (Bool-cases (not p.active)) [
    | inl a ↦ rw a (ignored p nothing_for_us)
    | inr a ↦ rw a (elim (Bool-cases (not (tag_stream_id m.tag == p.stream_id % 2 ^ 16))) [
      | inl b ↦ rw b (ignored p nothing_for_us)
      | inr b ↦ rw b (elim (Bool-cases (m.subject == z_stream_abort)) [
        | inl c ↦ rw c (ignored p abort)
        | inr c ↦ rw c (elim (Bool-cases (not (m.subject == z_stream_pull))) [
          | inl g ↦ rw g (ignored p nothing_for_us)
          | inr g ↦ rw g (elim (Bool-cases (tag_seq m.tag == next_seq p)) [
            | inl h ↦
                rw h (record { same_seq = refl; no_new = λ d e. cc; answers = release-IsSound p })
            | inr h ↦
                rw h (elim (Bool-cases (not (p.seq == uint32_max) && tag_seq m.tag == p.seq)) [
                  | inl k ↦ rw k (record {
                    same_seq = refl;
                    no_new = λ d e. e;
                    answers = (
                      (
                        (λ q d e.
                            l d e
                            ∙ ap (block_at file)
                                (sym (tag_seq_lem p.stream_id p.seq (seq_small p _ s w k)))),
                        (λ q. absurd (omega arith)),
                      ),
                      tt,
                    );
                  })
                  | inr k ↦ rw k (ignored p nothing_for_us)
                ])
          ])
        ])
      ])
    ])
  ]

  -- Effects that are sound, of a producer that goes on where it was.
  pub with_handled :
      (t : Tftp) (r : Event × Producer × List Effect)
      → Fetches file t
      → is_getting t.state ≡ true
      → Handled t.out_stream r
      → Fetches file (with_producer (r.1, r.2) t)
  unfolding with_producer
  with_handled t r f g h = record {
    sound = All-append file t.effects r.2 f.sound h.answers;
    getting = f.getting;
    no_put = f.no_put;
    faithful = f.faithful;
    live = λ e.
        let v = f.live g in
        record {
          at = next_seq_same _ _ h.same_seq ∙ v.at;
          inside = v.inside;
          word = rw h.same_seq v.word;
          held = v.held;
          last = λ d q. v.last d (h.no_new d q) ∙ ap (block_at file) (sym h.same_seq);
        };
  }

  -- A transfer that is over.
  pub ended :
      (t u : Tftp)
      → Fetches file t
      → All (IsSound file) u.effects
      → (u.is_get ≡ t.is_get) × (u.make_blob ≡ t.make_blob)
      → is_getting u.state ≡ false
      → is_putting u.state ≡ false
      → Fetches file u
  ended t u f s (same_get, same_blob) g p = record {
    sound = s;
    getting = same_get ∙ f.getting;
    no_put = p;
    faithful = λ d e q. f.faithful d e (sym (ap (λ b. b d) same_blob) ∙ q);
    live = λ e. cc;
  }

  pub fail-Fetches : (msg : Bytes) (t : Tftp) → Fetches file t → Fetches file (fail msg t)
  unfolding fail with_producer close_port set_err zstream_send_error send_last release_last next_seq
  fail-Fetches msg t f = elim (Bool-cases t.out_stream.active) [
    | inl a ↦
        rw (f.getting, a)
          (ended t _ f (All-append file t.effects _ f.sound (error-IsSound t.out_stream msg))
            (sym f.getting, refl) refl refl)
    | inr a ↦ rw (f.getting, a) (ended t _ f f.sound (sym f.getting, refl) refl refl)
  ]
