-- ===== src/Openflow/Ports.antt =====
-- `parse_features_reply` of src/openflow.c: what the switch tells of itself and of its ports.
use o_rss_nic.Prelude.{
  All, List, Returns, Run, [], ap, arith, concat, drop, fault, get_or, if◌then◌else◌, length,
  length-append, ltb, ok, out_of_bounds, refl, suc, sym, take, true, zero, ℕ, ◌%◌, ◌*◌, ◌++◌, ◌+◌,
  ◌-◌, ◌/◌, ◌<◌, ◌>>=◌, ◌^◌, ◌∙◌, ◌∷◌, ◌≡◌, ◌≤◌,
}
use mathlib.Core.List.{append-nil, append_assoc, map}
use o_rss_nic.Words.{ByteOrder, Memory, convert64, slice_at, slice_at-append}
use o_rss_nic.Openflow.{Message, Features, Port, Connection, ofp_header_len}

-- `sizeof(openflow_features)` and `sizeof(openflow_port_data)`
abbrev pub sizeof_features : ℕ
sizeof_features = 24

abbrev pub sizeof_port_data : ℕ
sizeof_port_data = 48

-- The pointer to the ports, which is not set where the switch has none.
abbrev pub ports_block : (address : ℕ) → Connection → (ports : List (List ℕ)) → ℕ
ports_block address conn [] = conn.ports_body
ports_block address conn (p ∷ ports) = address

abbrev pub ofp_max_port_name_len : ℕ
ofp_max_port_name_len = 16

module _ (order : ByteOrder) (memory : Memory) where
  open order use {ntohs, ntohl}
  open memory use {word16, word32, word64}

  -- The structures that stand in 24 and in 48 bytes, in host order.
  abbrev pub features_at : List ℕ → Features
  features_at b = record {
    datapath_id = convert64 ntohl (word64 (take 8 b));
    n_buffers = ntohl (word32 (take 4 (drop 8 b)));
    n_tables = get_or b 12 0;
    capabilities = ntohl (word32 (take 4 (drop 16 b)));
    actions = ntohl (word32 (take 4 (drop 20 b)));
  }

  abbrev pub port_at : List ℕ → Port
  port_at b = record {
    port_no = ntohs (word16 (take 2 b));
    hw_addr = take 6 (drop 2 b);
    name = take ofp_max_port_name_len (drop 8 b);
    config = ntohl (word32 (take 4 (drop 24 b)));
    state = ntohl (word32 (take 4 (drop 28 b)));
    curr = ntohl (word32 (take 4 (drop 32 b)));
    advertised = ntohl (word32 (take 4 (drop 36 b)));
    supported = ntohl (word32 (take 4 (drop 40 b)));
    peer = ntohl (word32 (take 4 (drop 44 b)));
  }

  -- The `for` loop; `left` is `nb_ports - i`.
  unfoldable pub port_loop : (left i : ℕ) → (bytes : List ℕ) (ports : List Port) → Run (List Port)
  port_loop zero i bytes ports = ok ports
  port_loop (suc left) i bytes ports =
      let rest = port_loop left (i + 1) bytes in
      do
        b ← slice_at bytes (sizeof_features + sizeof_port_data * i) sizeof_port_data
        rest (ports ++ (port_at b ∷ []))

  -- The length of the ports is a `size_t`, and `nb_ports` a `uint8_t`.
  -- `address` is what `malloc` gives for the ports.
  unfoldable pub parse_features_reply : (address : ℕ) → Message → Connection → Run Connection
  unfolding port_loop
  parse_features_reply address message conn = do
    b ← slice_at message.bytes 0 sizeof_features
    let room = (message.header.length + 2 ^ 64 - ofp_header_len - sizeof_features) % 2 ^ 64
    if ltb 0 room
        then (do
          let nb_ports = room / sizeof_port_data % 2 ^ 8
          ports ← port_loop nb_ports 0 message.bytes []
          ok (record conn {
            features = features_at b;
            ports_body = address;
            ports = ports;
            nb_ports = nb_ports;
          }))
        else ok (record conn { features = features_at b; nb_ports = 0 })

  port_loop-ports :
      (left i : ℕ) (before : List ℕ) (ports : List (List ℕ)) (done : List Port)
      → length before ≡ sizeof_features + sizeof_port_data * i
      → left ≤ length ports
      → All (λ p. length p ≡ sizeof_port_data) ports
      → port_loop left i (before ++ concat ports) done ≡ ok (done ++ map port_at (take left ports))
  unfolding port_loop
  port_loop-ports zero i before ports done at enough sizes = ap ok (sym (append-nil done))
  port_loop-ports (suc left) i before [] done at enough sizes = absurd (omega arith)
  port_loop-ports (suc left) i before (p ∷ ports) done at enough (size, sizes) =
      let found : slice_at (before ++ (p ++ concat ports)) (sizeof_features + sizeof_port_data * i)
            sizeof_port_data
          ≡ ok p =
        slice_at-append before p (concat ports) _ _ (sym at) (sym size) in
      let next =
        port_loop-ports left (i + 1) (before ++ p) ports (done ++ (port_at p ∷ []))
          (omega (arith, length-append before p)) (omega arith) sizes in
      rw (found, sym (append_assoc before p (concat ports)))
        (next ∙ ap ok (append_assoc done (port_at p ∷ []) (map port_at (take left ports))))

  -- `parse_features_reply`, on a message whose body is the fixed part and then the ports, any
  -- number of them, and whose length is that of the whole: it ends normally, with the features and
  -- with the ports in host order. The number of ports is a `uint8_t`: of 256 ports or more it reads
  -- the number modulo 256, from the first one on. The pointer to the ports is what `malloc` gives
  -- if there are any and what it was before if there are none, and the descriptors are left alone.
  pub parse_features_reply-reads :
      (address : ℕ) (message : Message) (conn : Connection) (fixed : List ℕ) (ports : List (List ℕ))
      → message.bytes ≡ fixed ++ concat ports
      → length fixed ≡ sizeof_features
      → All (λ p. length p ≡ sizeof_port_data) ports
      → message.header.length ≡ ofp_header_len + sizeof_features + sizeof_port_data * length ports
      → length ports < 2 ^ 16
      → Returns (parse_features_reply address message conn) λ r.
        (r.features ≡ features_at fixed)
        × (r.nb_ports ≡ length ports % 2 ^ 8)
        × (0 < length ports → r.ports ≡ map port_at (take (length ports % 2 ^ 8) ports))
        × (r.msg_buffer ≡ conn.msg_buffer)
        × (r.nb_msg_buffered ≡ conn.nb_msg_buffered)
        × (r.fd ≡ conn.fd)
        × (r.server_fd ≡ conn.server_fd)
        × (r.ports_body ≡ ports_block address conn ports)
  unfolding parse_features_reply
  parse_features_reply-reads address message conn fixed [] body size sizes total few =
      let start : slice_at message.bytes 0 sizeof_features ≡ ok fixed =
        rw body (slice_at-append [] fixed [] 0 sizeof_features refl (sym size)) in
      let none_left : (message.header.length + 2 ^ 64 - ofp_header_len - sizeof_features) % 2 ^ 64
          ≡ 0 =
        omega arith in
      (
        record conn { features = features_at fixed; nb_ports = 0 },
        rw (start, none_left) refl,
        (refl, omega arith, λ more. absurd (omega arith), refl, refl, refl, refl, refl),
      )
  parse_features_reply-reads address message conn fixed (p ∷ ports) body size sizes total few =
      let n = length (p ∷ ports) in
      let room = (message.header.length + 2 ^ 64 - ofp_header_len - sizeof_features) % 2 ^ 64 in
      let start : slice_at message.bytes 0 sizeof_features ≡ ok fixed =
        rw body (slice_at-append [] fixed (concat (p ∷ ports)) 0 sizeof_features refl (sym size)) in
      let exact : room ≡ sizeof_port_data * n = omega arith in
      let some_left : ltb 0 room ≡ true = ground (arith, exact) in
      let number : room / sizeof_port_data % 2 ^ 8 ≡ n % 2 ^ 8 = omega (arith, exact) in
      let read_all =
        ap (λ (k : ℕ). port_loop k 0 message.bytes []) number
        ∙ ap (λ (b : List ℕ). port_loop (n % 2 ^ 8) 0 b []) body
        ∙ port_loop-ports (n % 2 ^ 8) 0 fixed (p ∷ ports) [] (omega arith) (omega arith) sizes in
      (
        record conn {
          features = features_at fixed;
          ports_body = address;
          ports = map port_at (take (n % 2 ^ 8) (p ∷ ports));
          nb_ports = n % 2 ^ 8;
        },
        rw (start, some_left, read_all, number) refl,
        (refl, refl, λ more. refl, refl, refl, refl, refl, refl),
      )

  -- A body that is too short for the fixed part is read behind its end.
  pub parse_features_reply-short :
      (address : ℕ) (message : Message) (conn : Connection)
      → length message.bytes < sizeof_features
      → parse_features_reply address message conn ≡ fault out_of_bounds
  unfolding parse_features_reply slice_at
  parse_features_reply-short address message conn short = ground arith
