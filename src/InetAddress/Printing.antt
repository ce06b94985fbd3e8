-- ===== src/InetAddress/Printing.antt =====
-- What `toIpPort` prints, and that it fits the buffers.
use moduo.Prelude.{
  ℕ, suc, ◌+◌, ◌^◌, ◌≤◌, ◌<◌, ◌≡◌, ap, ◌∷◌, ◌++◌, arith, replicate, drop, length, length-append, ok,
  lt→ltb, Text, IsText, store_first, c_string-append, c_string-store,
}
use moduo.InetAddress.{Net, InetAddress, new, ip_buffer, to_ip, to_port, to_ip_port}

-- What is relied on: a port comes back from the order of the network; a dotted address has at most 15
-- characters, and a 16-bit number at most 5, none of them NUL.
pub record NetLaws (net : Net) : Type 0 where
  pub swap : (port : ℕ) → port < 2 ^ 16 → net.ntohs (net.htons port) ≡ port
  pub dotted_short : (address : ℕ) → length (net.inet_ntop address) ≤ 15
  pub dotted : (address : ℕ) → IsText (net.inet_ntop address)
  pub print_short : (n : ℕ) → n < 2 ^ 16 → length (net.print n) ≤ 5
  pub printed : (n : ℕ) → n < 2 ^ 16 → IsText (net.print n)

module _ (net : Net) (laws : NetLaws net) where
  -- The buffer has the address, a NUL and zeros.
  pub ip_buffer_lem :
      (a : InetAddress)
      → ip_buffer net a
        ≡ net.inet_ntop a.sin_addr
          ++ 0 ∷ drop (suc (length (net.inet_ntop a.sin_addr))) (replicate 64 0)
  unfolding ip_buffer
  ip_buffer_lem a =
      rw
        (lt→ltb (length (net.inet_ntop a.sin_addr)) 64
          (omega (arith, laws.dotted_short a.sin_addr)))
        (store_first (net.inet_ntop a.sin_addr) (replicate 64 0))

  pub to_ip_lem : (a : InetAddress) → to_ip net a ≡ net.inet_ntop a.sin_addr
  unfolding to_ip
  to_ip_lem a =
      rw (ip_buffer_lem a) (c_string-append (net.inet_ntop a.sin_addr) _ (laws.dotted a.sin_addr))

  to_ip_port_of :
      (a : InetAddress) (port : ℕ)
      → port < 2 ^ 16
      → net.ntohs a.sin_port ≡ port
      → to_ip_port net a ≡ ok (net.inet_ntop a.sin_addr ++ 58 ∷ net.print port)
  unfolding to_ip_port
  to_ip_port_of a port small e =
      let dotted = net.inet_ntop a.sin_addr in
      let rest = drop (suc (length dotted)) (replicate {A = ℕ} 64 0) in
      rw (ip_buffer_lem a) (
        rw (c_string-append dotted rest (laws.dotted a.sin_addr)) (
          rw e (
            rw
              (lt→ltb (length dotted + suc (length (net.print port))) 64
                (omega (arith, laws.dotted_short a.sin_addr, laws.print_short port small)))
              (ap ok (
                c_string-store dotted (58 ∷ net.print port) rest (laws.dotted a.sin_addr)
                  (ground arith, laws.printed port small))))))

-- Where the C library keeps to its documentation, the 16-bit port of an address that is made comes back;
-- `toIp` is what `inet_ntop` prints of the number that `inet_addr` reads, all of it and no more; `toIpPort`
-- is that text, a colon and the printed port; and that is at most 21 characters, so that nothing is written
-- past the buffer.
pub to_ip_port_lem :
    (net : Net) (port : ℕ) (ip : Text)
    → NetLaws net
    → port < 2 ^ 16
    → (to_port net (new net port ip) ≡ port)
      × (to_ip net (new net port ip) ≡ net.inet_ntop (net.inet_addr ip))
      × (to_ip_port net (new net port ip)
          ≡ ok (net.inet_ntop (net.inet_addr ip) ++ 58 ∷ net.print port))
      × (length (net.inet_ntop (net.inet_addr ip) ++ 58 ∷ net.print port) ≤ 21)
unfolding new to_port
to_ip_port_lem net port ip laws small =
    let a = new net port ip in
    (
      laws.swap port small,
      to_ip_lem net laws a,
      to_ip_port_of net laws a port small (laws.swap port small),
      omega (
        arith,
        length-append (net.inet_ntop (net.inet_addr ip)) (58 ∷ net.print port),
        laws.dotted_short (net.inet_addr ip),
        laws.print_short port small,
      ),
    )
