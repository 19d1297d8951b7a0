-- ===== src/Openflow/Socket.antt =====
-- `safe_read` and `read_openflow_message` of src/openflow.c, on the bytes that the socket brings.
use o_rss_nic.Prelude.{
  List, Option, Run, [], drop, fault, get_or, if◌then◌else◌, length, ltb, min, none, ok,
  out_of_fuel, some, take, ℕ, ◌++◌, ◌-◌, ◌==◌, ◌>>=◌, ◌∷◌,
}
use o_rss_nic.Words.{ByteOrder, Memory}
use o_rss_nic.Openflow.{Header, Message, ofp_header_len, received}

-- The bytes that are to come, and how the coming calls of `read` go, in their order: `none` is the
-- result -1, and `some n` says that `n` bytes have come by then. No schedule is longer than what is
-- seen of the run.
pub record Socket : Type 0 where
  pub pending : List ℕ
  pub schedule : List (Option ℕ)

-- `read(fd, buf, want)` gives no more than `want` bytes, and no more than there are.
abbrev pub count_read : (n want : ℕ) → List ℕ → ℕ
count_read n want pending = min (min n want) (length pending)

-- The `while` loop of `safe_read`; `want` is `count - bytes_read`, and `got` what stands in the
-- buffer. The test for an error asks for a result below -1, which `read` does not give.
unfoldable pub safe_read_loop :
    (schedule : List (Option ℕ)) (want : ℕ) (got pending : List ℕ) → Run (List ℕ × Socket)
safe_read_loop [] want got pending =
    if want == 0 then ok (got, record { pending = pending; schedule = [] }) else fault out_of_fuel
safe_read_loop (call ∷ later) want got pending =
    let rest = safe_read_loop later in
    if want == 0
    then ok (got, record { pending = pending; schedule = call ∷ later })
    else elim call [
      | none ↦ rest want got pending
      | some n ↦
          let k = count_read n want pending in
          rest (want - k) (got ++ take k pending) (drop k pending)
    ]

unfoldable pub safe_read : Socket → (count : ℕ) → Run (List ℕ × Socket)
unfolding safe_read_loop
safe_read s count = safe_read_loop s.schedule count [] s.pending

-- The header that stands in eight bytes, in the order of the network.
abbrev pub header_at : Memory → List ℕ → Header
header_at memory b = record {
  version = get_or b 0 0;
  type = get_or b 1 0;
  length = memory.word16 (take 2 (drop 2 b));
  xid = memory.word32 (take 4 (drop 4 b));
}

module _ (order : ByteOrder) (memory : Memory) where
  -- The body, where the header announces one: `address` is what `malloc` gives for it. `stale` is
  -- what the message held there before.
  unfoldable pub read_body : Socket → (address : ℕ) (stale header : List ℕ) → Run (Message × Socket)
  unfolding safe_read received
  read_body s address stale header =
      let message =
        received order
          (record { header = header_at memory header; body = address; bytes = stale }) in
      if ltb ofp_header_len message.header.length
      then (do
        (bytes, s') ← safe_read s (message.header.length - ofp_header_len)
        ok (record message { bytes = bytes }, s'))
      else ok (message, s)

  -- `none` is the result 0. `old` are the eight bytes of the header that the message held before,
  -- of which a short `read` leaves the last ones.
  unfoldable pub read_openflow_message :
      Socket → (address : ℕ) (old stale : List ℕ) → Run (Option Message × Socket)
  unfolding read_body
  read_openflow_message s address old stale = elim s.schedule [
    | [] ↦ fault out_of_fuel
    | call ∷ later ↦ elim call [
      | none ↦ ok (none, record s { schedule = later })
      | some n ↦
          let k = count_read n ofp_header_len s.pending in
          let s' : Socket = record { pending = drop k s.pending; schedule = later } in
          if k == 0 then ok (none, s') else (do
            (message, s'') ← read_body s' address stale (take k s.pending ++ drop k old)
            ok (some message, s''))
    ]
  ]
