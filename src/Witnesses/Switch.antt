-- ===== src/Witnesses/Switch.antt =====
-- What a switch sends while a connection is made, for src/openflow.c.
use o_rss_nic.Prelude.{
  List, Option, Returns, [], arith, concat, false, fault, inl, inr, none, out_of_fuel, refl, some,
  true, ℕ, ◌++◌, ◌<◌, ◌∷◌, ◌≡◌, ◌≢◌,
}
use o_rss_nic.Openflow.{Connection, shutdown_fd, Message, received, is_awaited}
use o_rss_nic.Openflow.Closing.{
  closes, too_late, openflow_terminate_connection, openflow_terminate_connection-late,
}
use o_rss_nic.Openflow.Buffer.{queued, arrivals, any_awaited}
use o_rss_nic.Openflow.Socket.{Socket, safe_read, read_openflow_message}
use o_rss_nic.Openflow.Reading.{
  available, message_of, safe_read-takes, safe_read-spins, read_openflow_message-received,
}
use o_rss_nic.Openflow.Told.{TellsFeatures, TellsPorts}
use o_rss_nic.Openflow.Handshake.{SocketCalls, get_socket, openflow_create_connection}
use o_rss_nic.Openflow.Greeting.{
  IsScript, Describes, Script, introductions, openflow_create_connection-greets,
}
use o_rss_nic.Witnesses.Bytes.{zeros, little_memory}
use o_rss_nic.Witnesses.Messages.{little_endian, nothing_buffered, echo, world}

-- Five bytes come in three pieces.
abbrev slow : Socket
slow = record { pending = 1 ∷ 2 ∷ 3 ∷ 4 ∷ 5 ∷ []; schedule = some 2 ∷ none ∷ some 1 ∷ some 9 ∷ [] }

safe_read_example :
    Returns (safe_read slow 4) λ r. (r.0 ≡ 1 ∷ 2 ∷ 3 ∷ 4 ∷ []) × (r.1.pending ≡ 5 ∷ [])
unfolding available
safe_read_example = safe_read-takes slow 4 (omega arith) (omega arith)

-- Every call of `read` fails.
abbrev broken : Socket
broken = record { pending = 1 ∷ 2 ∷ 3 ∷ []; schedule = none ∷ none ∷ none ∷ none ∷ [] }

spins_example : safe_read broken 2 ≡ fault out_of_fuel
unfolding available
spins_example = safe_read-spins broken 2 (omega arith)

-- An echo request with four bytes, and the first byte of what comes after it.
abbrev echo_header : List ℕ
echo_header = 1 ∷ 2 ∷ 0 ∷ 12 ∷ 0 ∷ 0 ∷ 0 ∷ 9 ∷ []

abbrev echo_body : List ℕ
echo_body = 10 ∷ 11 ∷ 12 ∷ 13 ∷ []

abbrev line : Socket
line = record {
  pending = echo_header ++ (echo_body ++ (1 ∷ []));
  schedule = some 20 ∷ some 3 ∷ some 3 ∷ [];
}

received_example :
    Returns (read_openflow_message little_endian little_memory line 500 (zeros 8) []) λ r.
      (r.0 ≡ some (message_of little_endian little_memory 500 [] echo_header echo_body))
      × (r.1.pending ≡ 1 ∷ [])
unfolding available received
received_example =
    read_openflow_message-received little_endian little_memory line 500 (zeros 8) [] echo_header
      echo_body (1 ∷ []) 20 (some 3 ∷ some 3 ∷ []) refl refl refl refl (omega arith) (omega arith)
      refl

-- A switch with one port.
abbrev pub fixed : List ℕ
fixed = 0 ∷ 0 ∷ 0 ∷ 0 ∷ 0 ∷ 0 ∷ 0 ∷ 7 ∷ zeros 16

abbrev pub ports : List (List ℕ)
ports = (0 ∷ 2 ∷ zeros 46) ∷ []

abbrev features_reply : Message
features_reply = record {
  header = record { version = 1; type = 6; length = 80; xid = 5 };
  body = 99;
  bytes = fixed ++ concat ports;
}

abbrev pub calls : SocketCalls
calls = record {
  socket = some 3;
  socket_options = 0;
  bind = some 0;
  listen = some 0;
  accept = some 4;
}

-- An echo request comes before the greeting, and another one before the reply, in network order.
abbrev pub script : Script
script = record {
  before = some (echo 1) ∷ [];
  hello = record {
    header = record { version = 1; type = 0; length = 2048; xid = 0 };
    body = 0;
    bytes = [];
  };
  between = none ∷ some (echo 2) ∷ [];
  reply = record {
    header = record { version = 1; type = 6; length = 20480; xid = 83886080 };
    body = 99;
    bytes = fixed ++ concat ports;
  };
  later = some (echo 3) ∷ [];
}

pub script-IsScript :
    (later : List (Option Message))
    → IsScript little_endian little_memory 4 (record script { later = later })
unfolding any_awaited arrivals is_awaited received
script-IsScript later = record {
  greets = (refl, inl refl);
  first = ((λ e. absurd (omega (arith, e.0))), tt);
  replies = (refl, inr refl);
  answers = ((λ e. absurd (omega (arith, e.0))), tt);
  room = omega arith;
}

pub script-Describes :
    Describes little_endian little_memory (received little_endian script.reply) fixed ports
unfolding received
script-Describes = record {
  body = refl;
  fixed_size = refl;
  port_sizes = (refl, tt);
  total = refl;
  few = omega arith;
}

greets_example :
    Returns
      (openflow_create_connection little_endian little_memory calls 4 900 nothing_buffered
        (record world {
          incoming =
              script.before
              ++ (some script.hello ∷ (script.between ++ (some script.reply ∷ script.later)));
        }))
      λ r.
        TellsFeatures little_endian little_memory fixed r.0.features
        × (r.0.nb_ports ≡ 1)
        × (0 < 1 → TellsPorts little_endian little_memory 1 ports r.0.ports)
        × (queued r.0
            ≡ arrivals little_endian script.before ++ arrivals little_endian script.between)
        × (r.1.write_calls ≡ introductions little_endian little_memory 4 [])
        × (r.1.incoming ≡ some (echo 3) ∷ [])
        × (r.1.transaction_id ≡ 6)
        × (r.0.fd ≡ 4)
        × (r.0.server_fd ≡ 3)
        × (r.0.ports_body ≡ 900)
        × (r.1.closing ≡ [])
unfolding get_socket
greets_example =
    openflow_create_connection-greets little_endian little_memory calls 4 900 3 4 nothing_buffered _
      script fixed ports refl (omega arith) refl refl (script-IsScript (some (echo 3) ∷ []))
      script-Describes

abbrev connected : Connection
connected = record nothing_buffered { fd = 4; server_fd = 3; ports_body = 900 }

-- A connection that is made, with the descriptors 4 and 3.
late_example :
    (closes (openflow_terminate_connection connected world).closing 4 ≡ true)
    × (closes (openflow_terminate_connection connected world).closing 3 ≡ true)
    × ((d : ℕ)
        → d ≢ 4
        → d ≢ 3
        → closes (openflow_terminate_connection connected world).closing d ≡ false)
    × ((openflow_terminate_connection connected world).freed ≡ 900 ∷ [])
    × (too_late (openflow_terminate_connection connected world).closing ≡ shutdown_fd 4 ∷ [])
late_example = openflow_terminate_connection-late connected world (λ e. omega arith) refl refl
