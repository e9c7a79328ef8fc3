-- ===== src/Net/Tftp/Blocks.antt =====
-- sw/apps/net/tftp.c: a block is delivered to the receiver, and the last one ends the stream.
use zeitlos.Prelude.{
  ℕ, ◌+◌, ◌-◌, ◌*◌, ◌^◌, ◌≤◌, ◌<◌, ◌≡◌, ◌∙◌, refl, sym, ap, true, false, ◌||◌, not, arith, length,
  drop, All, ltb, Bool-cases, inl, inr, Bytes, length-take, length-drop, min,
}
use zeitlos.Stream.{blob, next_seq, zstream_send_chunk}
use zeitlos.Net.Tftp.{
  Tftp, block_size, with_producer, close_port, finish_get, deliver_block, try_deliver_get, send_ack,
  send_last_packet,
}
use zeitlos.Net.Tftp.Handle.{is_getting, is_putting}
use zeitlos.Net.Tftp.Chunks.{
  block_at, IsSound, All-append, Fetches, next_seq_at, full_block, short_block, eof-IsSound,
  chunk-IsSound, ended,
}

module _ (file : Bytes) (short : length file < block_size * 65535) where
  -- What the delivery of the held block leaves.
  pub record Delivered (t u : Tftp) : Type 0 where
    sound : All (IsSound file) u.effects
    counted : u.block ≡ t.block + 1
    at : next_seq u.out_stream ≡ t.block + 1
    word : u.out_stream.seq < 2 ^ 32
    last : (d : Bytes) → u.out_stream.last_chunk ≡ blob d → d ≡ block_at file u.out_stream.seq
    emptied : u.held_valid ≡ false
    same : (u.is_get ≡ t.is_get) × (u.state ≡ t.state) × (u.make_blob ≡ t.make_blob)

  pub deliver_block-Delivered :
      (now : ℕ) (t : Tftp)
      → Fetches file t
      → is_getting t.state ≡ true
      → t.held_valid ≡ true
      → Delivered t (deliver_block now t)
  unfolding deliver_block with_producer send_ack send_last_packet zstream_send_chunk
  deliver_block-Delivered now t f g h =
      let v = f.live g in
      let small : t.block < 65535 = omega (arith, short, v.inside) in
      let p = t.out_stream in
      let same : (d : Bytes) → t.make_blob t.held_data ≡ blob d → d ≡ block_at file (next_seq p) =
        λ d e. f.faithful _ d e ∙ v.held h ∙ ap (block_at file) (sym v.at) in
      record {
        sound = All-append file t.effects _ f.sound (
            unfold zstream_send_chunk in
            chunk-IsSound file short p (t.make_blob t.held_data) (omega (arith, v.at)) same);
        counted = omega arith;
        at = next_seq_at _ t.block v.at (omega arith);
        word = omega (arith, v.at);
        last = same;
        emptied = refl;
        same = (refl, refl, refl);
      }

  pub finish_get-Fetches :
      (t u : Tftp)
      → Fetches file t
      → Delivered t u
      → length file < block_size * (t.block + 1)
      → t.block + 1 < 2 ^ 16
      → Fetches file (finish_get u)
  unfolding finish_get with_producer close_port
  finish_get-Fetches t u f d n w =
      ended file short t _ f
        (All-append file u.effects _ d.sound
          (eof-IsSound file short u.out_stream (rw d.at n) (rw d.at w)))
        (d.same.0, d.same.2) refl refl

  pub go_on :
      (t u : Tftp)
      → Fetches file t
      → Delivered t u
      → block_size * (t.block + 1) ≤ length file
      → Fetches file u
  go_on t u f d n = record {
    sound = d.sound;
    getting = d.same.0 ∙ f.getting;
    no_put = ap is_putting d.same.1 ∙ f.no_put;
    faithful = λ x e q. f.faithful x e (sym (ap (λ b. b x) d.same.2) ∙ q);
    live = λ e. record {
      at = d.at ∙ sym d.counted;
      inside = rw d.counted n;
      word = d.word;
      held = λ h. absurd (ground (arith, h, d.emptied));
      last = d.last;
    };
  }

  pub length-block_at :
      (k : ℕ) → length (block_at file k) ≡ min block_size (length file - block_size * k)
  length-block_at k = omega (
    arith,
    length-take block_size (drop (block_size * k) file),
    length-drop (block_size * k) file,
  )

  pub try_deliver_get-Fetches :
      (now : ℕ) (t : Tftp)
      → Fetches file t
      → is_getting t.state ≡ true
      → Fetches file (try_deliver_get now t)
  unfolding try_deliver_get
  try_deliver_get-Fetches now t f g = elim (Bool-cases (not t.held_valid || not t.pull_pending)) [
    | inl e ↦ rw e f
    | inr e ↦
        let h : t.held_valid ≡ true = ground (arith, e) in
        let v = f.live g in
        let d = deliver_block-Delivered now t f g h in
        let n : length t.held_data ≡ min block_size (length file - block_size * t.block) =
          ap length (v.held h) ∙ length-block_at t.block in
        rw e (elim (Bool-cases (ltb (length t.held_data) block_size)) [
          | inl s ↦ rw s (
              finish_get-Fetches t (deliver_block now t) f d
                (short_block _ t.block (length file) n v.inside s) (omega (arith, short, v.inside)))
          | inr s ↦
              rw s (
                go_on t (deliver_block now t) f d (full_block _ t.block (length file) n v.inside s))
        ])
  ]
