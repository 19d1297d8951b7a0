-- ===== src/Openflow.antt =====
-- src/openflow.c and src/openflow.h: the messages between this program and the switch.
pub mod Socket
pub mod Reading
pub mod Ports
pub mod Told
pub mod Handshake
pub mod Convert
pub mod Buffer
pub mod Awaited
pub mod FlowMod
pub mod Selects
pub mod Control
pub mod Flows
pub mod Ovs
pub mod Replies
pub mod Actions
pub mod Entries
pub mod Parsing
pub mod Overrun
pub mod Exchange
pub mod Reply
pub mod Report
pub mod Counts
pub mod Calls
pub mod Tally
pub mod Unknown
pub mod Release
pub mod Dump
pub mod Lines
pub mod Closing
pub mod Ends
pub mod Kept
pub mod Greeting
use o_rss_nic.Prelude.{
  Array, Bool, List, Option, Run, [], fault, if◌then◌else◌, ltb, none, ok, out_of_fuel, some, write,
  ℕ, ◌%◌, ◌&&◌, ◌+◌, ◌-◌, ◌==◌, ◌>>=◌, ◌^◌, ◌||◌, ◌∷◌,
}
use o_rss_nic.Words.{ByteOrder}

-- `openflow_header`, and `openflow_message`, where `body` is `data`, the address of the body, and
-- `bytes` is what stands there: `header.length - 8` bytes.
pub record Header : Type 0 where
  pub version : ℕ
  pub type : ℕ
  pub length : ℕ
  pub xid : ℕ

pub record Message : Type 0 where
  pub header : Header
  pub body : ℕ
  pub bytes : List ℕ

abbrev pub ofp_version : ℕ
ofp_version = 1

abbrev pub ofp_header_len : ℕ
ofp_header_len = 8

abbrev pub ofp_hello : ℕ
ofp_hello = 0

abbrev pub ofp_echo_request : ℕ
ofp_echo_request = 2

abbrev pub ofp_echo_reply : ℕ
ofp_echo_reply = 3

abbrev pub ofp_features_request : ℕ
ofp_features_request = 5

-- The length of `msg_buffer`.
abbrev pub msg_buffer_size : ℕ
msg_buffer_size = 16

-- `openflow_features`, without its padding.
pub record Features : Type 0 where
  pub datapath_id : ℕ
  pub n_buffers : ℕ
  pub n_tables : ℕ
  pub capabilities : ℕ
  pub actions : ℕ

-- `openflow_port_data`
pub record Port : Type 0 where
  pub port_no : ℕ
  pub hw_addr : List ℕ
  pub name : List ℕ
  pub config : ℕ
  pub state : ℕ
  pub curr : ℕ
  pub advertised : ℕ
  pub supported : ℕ
  pub peer : ℕ

-- `openflow_connection`, without the address of the socket; `ports` stands at `ports_body`, the
-- pointer of the source.
pub record Connection : Type 0 where
  pub fd : ℕ
  pub server_fd : ℕ
  pub ports_body : ℕ
  pub features : Features
  pub ports : List Port
  pub nb_ports : ℕ
  pub msg_buffer : Array Message
  pub nb_msg_buffered : ℕ

-- A call of `close` or of `shutdown`, with its descriptor.
pub data FinalCall : Type 0 where
  close_fd : ℕ → FinalCall
  shutdown_fd : ℕ → FinalCall

-- What the functions share with the outside: the counter `transaction_id`, the headers that `write`
-- was called with, the last one first, whether the call failed or not, the addresses that `free`
-- was called with, the last one first, the descriptors that were closed or shut down, the last one
-- first, and what the coming calls of `read` for a header find, in their order: a message in
-- network order, or nothing.
pub record World : Type 0 where
  pub transaction_id : ℕ
  pub write_calls : List Header
  pub freed : List ℕ
  pub closing : List FinalCall
  pub incoming : List (Option Message)

-- The call of `write` with a header. Whether the call fails changes nothing else: the source only
-- reports it.
unfoldable pub send : Header → World → World
send header w = record w { write_calls = header ∷ w.write_calls }

unfoldable pub free_openflow_message_body : Message → World → World
free_openflow_message_body message w =
    if ltb ofp_header_len message.header.length
    then record w { freed = message.body ∷ w.freed }
    else w

module _ (order : ByteOrder) where
  open order use {htons, ntohs, htonl, ntohl}

  unfoldable pub send_openflow_hello : World → World
  unfolding send
  send_openflow_hello w =
      send
        record {
          version = ofp_version;
          type = ofp_hello;
          length = htons ofp_header_len;
          xid = htonl w.transaction_id;
        }
        (record w { transaction_id = (w.transaction_id + 1) % 2 ^ 32 })

  -- The result is `transaction_id - 1`, on `uint32_t`.
  unfoldable pub send_openflow_features_request : World → ℕ × World
  unfolding send
  send_openflow_features_request w =
      let w' =
        send
          record {
            version = ofp_version;
            type = ofp_features_request;
            length = htons ofp_header_len;
            xid = htonl w.transaction_id;
          }
          (record w { transaction_id = (w.transaction_id + 1) % 2 ^ 32 }) in
      ((w'.transaction_id + 2 ^ 32 - 1) % 2 ^ 32, w')

  unfoldable pub send_openflow_echo_reply : World → World
  unfolding send
  send_openflow_echo_reply w =
      send
        record {
          version = ofp_version;
          type = ofp_echo_reply;
          length = htons ofp_header_len;
          xid = 0;
        }
        w

  -- The header in host order.
  unfoldable pub received : Message → Message
  received message = record message {
    header = record message.header {
      length = ntohs message.header.length;
      xid = ntohl message.header.xid;
    };
  }

  -- `next_message`, given what the next `read` finds.
  unfoldable pub next_message : Option Message → Option Message
  unfolding received
  next_message arrival = elim arrival [ none ↦ none | some message ↦ some (received message) ]

  -- `msg_buffer[nb_msg_buffered] = *msg; nb_msg_buffered++`
  unfoldable pub buffer_message : Message → Connection → Run Connection
  buffer_message message conn = do
    slots ← write msg_buffer_size conn.msg_buffer conn.nb_msg_buffered message
    ok (record conn { msg_buffer = slots; nb_msg_buffered = conn.nb_msg_buffered + 1 })

  -- The message of this type, and of this transaction if `xid` is not 0.
  unfoldable pub is_awaited : (type xid : ℕ) → Message → Bool
  is_awaited type xid message =
      message.header.type == type && (xid == 0 || message.header.xid == xid)

  -- The `while` loop of `openflow_wait_for_message`, one round for each `read`. The result is the
  -- message, the connection and the reads that are left; `out_of_fuel` where none of the reads
  -- brings the message.
  unfoldable pub openflow_wait_for_message :
      (type xid : ℕ)
      → List (Option Message)
      → Connection
      → Run (Message × Connection × List (Option Message))
  unfolding buffer_message is_awaited next_message
  openflow_wait_for_message type xid [] conn = fault out_of_fuel
  openflow_wait_for_message type xid (arrival ∷ later) conn =
      let rest = openflow_wait_for_message type xid later in
      elim (next_message arrival) [
        | none ↦ rest conn
        | some message ↦
            if is_awaited type xid message
            then ok (message, conn, later)
            else buffer_message message conn >>= rest
      ]
