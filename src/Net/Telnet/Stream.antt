-- ===== src/Net/Telnet/Stream.antt =====
-- The telnet byte stream (sw/apps/net/telnet.c): what is parsed of data that was escaped, and of data
-- that arrives in pieces.
use zeitlos.Prelude.{
  ℕ, ◌≤◌, ◌≡◌, refl, sym, ap, subst, List, [], ◌∷◌, ◌++◌, append_assoc, arith, length,
  length-append, ◌==◌, Bool-cases, inl, inr,
}
use zeitlos.Net.Telnet.{
  Pstate, tn_data, tn_iac, tn_cmd, tn_sb, tn_sb_iac, Telnet, iac, feed_byte, feed_loop, escape,
}

-- A stream that arrives in two pieces is parsed as in one, wherever it was cut.
pub feed_loop-append :
    (xs ys : List ℕ) (t : Telnet)
    → feed_loop (xs ++ ys) t
      ≡ (let (out, u) = feed_loop xs t in let (rest, w) = feed_loop ys u in (out ++ rest, w))
unfolding feed_loop
feed_loop-append [] ys t = refl
feed_loop-append (x ∷ xs) ys t =
    let (out, u) = feed_byte t.pstate x t in
    rw (feed_loop-append xs ys u) (
      ap (λ l. (l, (feed_loop ys (feed_loop xs u).1).1))
        (sym (append_assoc out (feed_loop xs u).0 (feed_loop ys (feed_loop xs u).1).0)))

abbrev between : Telnet → Telnet
between t = record t { pstate = tn_data }

escape_cleans : (xs : List ℕ) (t : Telnet) → feed_loop (escape xs) (between t) ≡ (xs, between t)
unfolding feed_loop escape feed_byte
escape_cleans [] t = refl
escape_cleans (x ∷ xs) t = elim (Bool-cases (x == iac)) [
  | inl e ↦ rw (e, escape_cleans xs t) (ground arith)
  | inr e ↦ rw (e, escape_cleans xs t) refl
]

-- What `telnet_send` escapes is read back as it was, and no byte of it is taken for a command.
pub feed_loop-escape :
    (xs : List ℕ) (t : Telnet) → t.pstate ≡ tn_data → feed_loop (escape xs) t ≡ (xs, t)
feed_loop-escape xs t h =
    let same : between t ≡ t = ground arith in
    subst (λ u. feed_loop (escape xs) u ≡ (xs, u)) same (escape_cleans xs t)

feed_byte_short : (st : Pstate) (b : ℕ) (t : Telnet) → length (feed_byte st b t).0 ≤ 1
unfolding feed_byte
feed_byte_short tn_data b t = ground arith
feed_byte_short tn_iac b t = ground arith
feed_byte_short tn_cmd b t = ground arith
feed_byte_short tn_sb b t = ground arith
feed_byte_short tn_sb_iac b t = ground arith

-- The clean data is no longer than what came in.
pub length-feed_loop : (xs : List ℕ) (t : Telnet) → length (feed_loop xs t).0 ≤ length xs
unfolding feed_loop
length-feed_loop [] t = omega arith
length-feed_loop (x ∷ xs) t =
    let (out, u) = feed_byte t.pstate x t in
    omega (
      arith,
      length-append out (feed_loop xs u).0,
      feed_byte_short t.pstate x t,
      length-feed_loop xs u,
    )
