-- ===== src/Net/Header.antt =====
-- The headers that i386/whitex/internet.h sends carry checksums that verify.
use whitex_kernel.Prelude.{ℕ, ◌*◌, ◌≤◌, ◌<◌, ◌≡◌, refl, List, [], ◌∷◌, ◌++◌, length, arith}
use whitex_kernel.Net.{u16}
use whitex_kernel.Net.Checksum.{wx_checksum, total, AllBytes, wx_checksum_verifies}
use whitex_kernel.Net.Send.{ip_front, ip_header}

total-le : (xs : List ℕ) → AllBytes xs → total xs ≤ length xs * u16
total-le [] all = omega arith
total-le (x ∷ []) (lt, all) = omega arith
total-le (x ∷ y ∷ rest) (x_lt, (y_lt, all)) = omega (arith, total-le rest all)

front-small : (total_len proto : ℕ) → proto < 256 → total (ip_front total_len proto) < 8 * u16
unfolding ip_front
front-small total_len proto lt = omega arith

front_even : (total_len proto : ℕ) → length (ip_front total_len proto) ≡ 10
unfolding ip_front
front_even total_len proto = refl

-- The checksum of a sent packet's header verifies at the receiver: over the whole header it is 0,
-- for addresses made of bytes.
pub ip_header_verifies :
    (total_len proto : ℕ) (src_ip dest_ip : List ℕ)
    → proto < 256
    → AllBytes (src_ip ++ dest_ip)
    → length (src_ip ++ dest_ip) ≤ 8
    → wx_checksum (ip_header total_len proto src_ip dest_ip) ≡ 0
unfolding ip_header
ip_header_verifies total_len proto src_ip dest_ip lt all few =
    wx_checksum_verifies 5 (ip_front total_len proto) (src_ip ++ dest_ip)
      (front_even total_len proto)
      (omega (arith, few, front-small total_len proto lt, total-le (src_ip ++ dest_ip) all))
