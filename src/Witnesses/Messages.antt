-- ===== src/Witnesses/Messages.antt =====
-- Messages between a little-endian machine and the switch, for src/openflow.c.
use o_rss_nic.Prelude.{
  Bool, List, Option, Returns, [], arith, false, fault, inr, none, out_of_bounds, refl, some, true,
  ℕ, ◌%◌, ◌&&◌, ◌*◌, ◌++◌, ◌+◌, ◌/◌, ◌<◌, ◌^◌, ◌∷◌, ◌≡◌,
}
use mathlib.Core.List.{map}
use o_rss_nic.Words.{ByteOrder, IsByteOrder}
use o_rss_nic.Openflow.{
  Message, World, Connection, Features, received, openflow_wait_for_message, is_awaited,
}
use o_rss_nic.Openflow.Convert.{
  OpenflowMatch, Be64, ntoh_openflow_match, ntoh_openflow_action_output,
  ntoh_openflow_action_vlan_vid,
}
use o_rss_nic.Openflow.Buffer.{queued, arrivals, openflow_wait_for_message-overflows, any_awaited}
use o_rss_nic.Openflow.Awaited.{openflow_wait_for_message-first}
use o_rss_nic.Openflow.Control.{openflow_control, echo_requests, pongs, openflow_control-answers}
use o_rss_nic.FiveTuple.{five_tuple_equals}
use o_rss_nic.Openflow.FlowMod.{Constants, FlowMod, openflow_mod_vlan}
use o_rss_nic.Openflow.Selects.{Frame, selects, arrives, openflow_mod_vlan-orders}
use o_rss_nic.Witnesses.Samples.{flow_key}

abbrev swap16 : ℕ → ℕ
swap16 x = x % 256 * 256 + x / 256

abbrev swap32 : ℕ → ℕ
swap32 x = swap16 (x % 65536) * 65536 + swap16 (x / 65536)

abbrev pub little_endian : ByteOrder
little_endian = record { htons = swap16; ntohs = swap16; htonl = swap32; ntohl = swap32 }

swap16-lt : (x : ℕ) → x < 2 ^ 16 → swap16 x < 2 ^ 16
swap16-lt x h = omega arith

swap16-swap16 : (x : ℕ) → x < 2 ^ 16 → swap16 (swap16 x) ≡ x
swap16-swap16 x h = omega arith

swap32-lt : (x : ℕ) → x < 2 ^ 32 → swap32 x < 2 ^ 32
swap32-lt x h =
    omega (arith, swap16-lt (x % 65536) (omega arith), swap16-lt (x / 65536) (omega arith))

join32 : (a b : ℕ) → b < 65536 → ((a * 65536 + b) % 65536 ≡ b) × ((a * 65536 + b) / 65536 ≡ a)
join32 a b h = (omega arith, omega arith)

swap32-swap32 : (x : ℕ) → x < 2 ^ 32 → swap32 (swap32 x) ≡ x
swap32-swap32 x h =
    let lo = x % 65536 in
    let hi = x / 65536 in
    let parts = join32 (swap16 lo) (swap16 hi) (swap16-lt hi (omega arith)) in
    let back_hi = swap16-swap16 hi (omega arith) in
    let back_lo = swap16-swap16 lo (omega arith) in
    rw (parts.0, parts.1, back_hi, back_lo) (omega arith)

pub little_endian-IsByteOrder : IsByteOrder little_endian
little_endian-IsByteOrder = record {
  htons-lt = swap16-lt;
  htonl-lt = swap32-lt;
  ntohl-lt = swap32-lt;
  ntohs-htons = swap16-swap16;
  ntohl-htonl = swap32-swap32;
  htonl-ntohl = swap32-swap32;
}

abbrev pub web : OpenflowMatch
web = record {
  wildcards = 3145742;
  in_port = 1;
  dl_src = 0;
  dl_dst = 0;
  dl_vlan = 0;
  dl_vlan_pcp = 0;
  dl_type = 2048;
  nw_tos = 0;
  nw_proto = 6;
  nw_src = 167772161;
  nw_dst = 167772162;
  tp_src = 40000;
  tp_dst = 443;
}

abbrev count : Be64
count = record { hi = 3; lo = 5 }

abbrev pub constants : Constants
constants = record { ofpfc_modify = 1; ofpp_none = 65535; message_size = 88 }

abbrev no_orders : List FlowMod
no_orders = []

mod_vlan_example :
    ((o : FlowMod) × ((openflow_mod_vlan little_endian constants true 7 (flow_key 1) 4 no_orders).0
        ≡ o ∷ no_orders)
      × ((f : Frame)
          → selects (ntoh_openflow_match little_endian o.match_) f
            ≡ (arrives f && five_tuple_equals (flow_key 1) f.flow))
      × (ntoh_openflow_action_vlan_vid little_endian o.vlan_vid
          ≡ record { type = 1; len = 8; vlan_vid = 4 })
      × (ntoh_openflow_action_output little_endian o.output
          ≡ record { type = 0; len = 8; port = 2; max_len = 65535 })
      × (o.header ≡ record {
        version = 1;
        type = 14;
        length = little_endian.htons constants.message_size;
        xid = little_endian.ntohl 7;
      })
      × (o.command ≡ little_endian.htons constants.ofpfc_modify)
      × (o.out_port ≡ little_endian.htons constants.ofpp_none))
    × ((openflow_mod_vlan little_endian constants false 7 (flow_key 1) 4 no_orders).0 ≡ no_orders)
    × ((written : Bool)
        → (openflow_mod_vlan little_endian constants written 7 (flow_key 1) 4 no_orders).1 ≡ 8)
mod_vlan_example =
    openflow_mod_vlan-orders little_endian constants 7 4 (flow_key 1) no_orders
      little_endian-IsByteOrder
      (record {
        src_ip_lt = omega arith;
        dst_ip_lt = omega arith;
        src_port_lt = omega arith;
        dst_port_lt = omega arith;
      })
      (omega arith)

-- Messages in network order, with a body of 8 bytes at `body`.
abbrev pub echo : ℕ → Message
echo body = record {
  header = record { version = 1; type = 2; length = 4096; xid = 0 };
  body = body;
  bytes = [];
}

abbrev features : Message
features = record {
  header = record { version = 1; type = 6; length = 8192; xid = 83886080 };
  body = 99;
  bytes = [];
}

abbrev no_features : Features
no_features = record { datapath_id = 0; n_buffers = 0; n_tables = 0; capabilities = 0; actions = 0 }

abbrev pub nothing_buffered : Connection
nothing_buffered = record {
  fd = 0;
  server_fd = 0;
  ports_body = 0;
  features = no_features;
  ports = [];
  nb_ports = 0;
  msg_buffer = λ _. echo 0;
  nb_msg_buffered = 0;
}

abbrev one_buffered : Connection
one_buffered = record {
  fd = 0;
  server_fd = 0;
  ports_body = 0;
  features = no_features;
  ports = [];
  nb_ports = 0;
  msg_buffer = λ _. echo 0;
  nb_msg_buffered = 1;
}

wait_example :
    Returns
      (openflow_wait_for_message little_endian 6 5
        ((none ∷ some (echo 1) ∷ []) ++ (some features ∷ none ∷ []))
        nothing_buffered)
      (λ r.
        (r.0 ≡ received little_endian features)
        × (queued r.1
            ≡ queued nothing_buffered ++ arrivals little_endian (none ∷ some (echo 1) ∷ []))
        × (r.2 ≡ none ∷ []))
unfolding any_awaited arrivals is_awaited received
wait_example =
    openflow_wait_for_message-first little_endian 6 5 (none ∷ some (echo 1) ∷ []) features
      (none ∷ []) nothing_buffered ((λ e. absurd (omega (arith, e.0))), tt) (refl, inr refl)
      (omega arith)

abbrev seventeen : List (Option Message)
seventeen =
    some (echo 1)
    ∷ some (echo 2)
    ∷ some (echo 3)
    ∷ some (echo 4)
    ∷ some (echo 5)
    ∷ some (echo 6)
    ∷ some (echo 7)
    ∷ some (echo 8)
    ∷ some (echo 9)
    ∷ some (echo 10)
    ∷ some (echo 11)
    ∷ some (echo 12)
    ∷ some (echo 13)
    ∷ some (echo 14)
    ∷ some (echo 15)
    ∷ some (echo 16)
    ∷ some (echo 17)
    ∷ []

overflow_example :
    openflow_wait_for_message little_endian 6 5 (seventeen ++ (some features ∷ [])) nothing_buffered
    ≡ fault out_of_bounds
unfolding any_awaited arrivals is_awaited received
overflow_example =
    openflow_wait_for_message-overflows little_endian 6 5 seventeen (some features ∷ [])
      nothing_buffered refl (omega arith) (omega arith)

abbrev pub world : World
world = record {
  transaction_id = 7;
  closing = [];
  write_calls = [];
  freed = [];
  incoming = map some (echo 1 ∷ features ∷ []) ++ (none ∷ []);
}

control_example : Returns (openflow_control little_endian one_buffered world) (λ r.
    (queued r.0 ≡ [])
    × (r.1.write_calls
        ≡ pongs little_endian
            (echo_requests (queued one_buffered)
              + echo_requests (arrivals little_endian (map some (echo 1 ∷ features ∷ []))))
            [])
    × (r.1.incoming ≡ [])
    × (r.1.transaction_id ≡ 7))
control_example =
    openflow_control-answers little_endian one_buffered (echo 1 ∷ features ∷ []) [] world
      (omega arith) refl
