-- ===== src/Dns/Tests.antt =====
-- sw/common/zdns.c: an address, and the theorem there.
use zeitlos.Prelude.{◌≡◌, refl, none, [], ◌∷◌}
use zeitlos.Dns.{octet_loop, octet, dot, octets, z_parse_ipv4}

-- "10.0.256.1", and "10.0.1".
out_of_range : z_parse_ipv4 (49 ∷ 48 ∷ 46 ∷ 48 ∷ 46 ∷ 50 ∷ 53 ∷ 54 ∷ 46 ∷ 49 ∷ []) ≡ none
unfolding z_parse_ipv4 octets octet octet_loop dot
out_of_range = refl

too_short : z_parse_ipv4 (49 ∷ 48 ∷ 46 ∷ 48 ∷ 46 ∷ 49 ∷ []) ≡ none
unfolding z_parse_ipv4 octets octet octet_loop dot
too_short = refl
