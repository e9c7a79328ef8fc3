-- ===== src/Net/Tftp/Get.antt =====
-- A file fetched by the TFTP client (sw/apps/net/tftp.c, with the producer's side of
-- sw/common/zstream.c): what the receiver is sent.
use zeitlos.Prelude.{ℕ, ◌*◌, ◌<◌, ◌≡◌, List, [], ◌∷◌, length, Bytes, sub32, if_ind, if_ind, sub32}
use zeitlos.Stream.{Message}
use zeitlos.Net.Tftp.{Tftp, block_size}
use zeitlos.Net.Tftp.Handle.{handle_packet, tftp_handle_stream_msg, tftp_poll}
use zeitlos.Net.Tftp.Chunks.{Honest}

module _ (file : Bytes) (short : length file < block_size * 65535) where
  -- A state that differs in nothing that the transfer rests on.
  record Alike (t u : Tftp) : Type 0 where
    pub out : u.out_stream ≡ t.out_stream
    pub blk : u.block ≡ t.block
    pub got : (u.held_valid ≡ t.held_valid) × (u.held_data ≡ t.held_data)
    pub eff : u.effects ≡ t.effects
    pub rest : (u.is_get ≡ t.is_get) × (u.state ≡ t.state) × (u.make_blob ≡ t.make_blob)

-- A call of the client, with the clock's readings in it.
pub data Call : Type 0 where
  packet : ℕ → ℕ → ℕ → Bytes → ℕ → Call
  message : ℕ → Message → Call
  poll : ℕ → ℕ → ℕ → Call

abbrev pub apply : Call → Tftp → Tftp
apply (packet now src_ip src_port p len) t = handle_packet now src_ip src_port p len t
apply (message now m) t = (tftp_handle_stream_msg now m t).1
apply (poll now later err_len) t = (tftp_poll now later err_len t).1

abbrev pub run : List Call → Tftp → Tftp
run [] t = t
run (c ∷ cs) t = run cs (apply c t)

-- Every packet is the server's, as far as it holds data.
abbrev pub AllHonest : Bytes → List Call → Type 0
AllHonest file [] = Unit
AllHonest file (packet now src_ip src_port p len ∷ cs) = Honest file p len × AllHonest file cs
AllHonest file (message now m ∷ cs) = AllHonest file cs
AllHonest file (poll now later err_len ∷ cs) = AllHonest file cs
