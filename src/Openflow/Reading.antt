-- ===== src/Openflow/Reading.antt =====
-- What src/openflow.c reads from the socket, however the bytes of a message come in.
use o_rss_nic.Prelude.{
  List, Option, Returns, [], ap, arith, drop, drop-append, drop-drop, drop_all, false, fault,
  length, length-append, length-drop, ltb, min, none, out_of_fuel, refl, some, suc, sym, take,
  take-add, take-append, true, zero, ℕ, ◌++◌, ◌+◌, ◌-◌, ◌<◌, ◌==◌, ◌∙◌, ◌∷◌, ◌≡◌, ◌≤◌,
}
use mathlib.Core.List.{append-nil, append_assoc}
use o_rss_nic.Words.{ByteOrder, Memory}
use o_rss_nic.Openflow.Socket.{
  Socket, count_read, safe_read_loop, safe_read, header_at, read_body, read_openflow_message,
}
use o_rss_nic.Openflow.{Message, ofp_header_len, received}

-- The bytes that come in while the calls of a schedule are made.
unfoldable pub available : List (Option ℕ) → ℕ
available [] = 0
available (none ∷ later) = available later
available (some n ∷ later) = n + available later

positive : (n : ℕ) → (suc n == 0) ≡ false
positive n = ground arith

safe_read_loop-takes :
    (schedule : List (Option ℕ)) (want : ℕ) (got pending : List ℕ)
    → want ≤ length pending
    → want ≤ available schedule
    → Returns
        (safe_read_loop schedule want got pending)
        λ r. (r.0 ≡ got ++ take want pending) × (r.1.pending ≡ drop want pending)
unfolding safe_read_loop available
safe_read_loop-takes [] zero got pending enough come =
    ((got, record { pending = pending; schedule = [] }), refl, (sym (append-nil got), refl))
safe_read_loop-takes [] (suc want) got pending enough come = absurd (omega arith)
safe_read_loop-takes (call ∷ later) zero got pending enough come = (
  (got, record { pending = pending; schedule = call ∷ later }),
  refl,
  (sym (append-nil got), refl),
)
safe_read_loop-takes (none ∷ later) (suc want) got pending enough come =
    rw (positive want) (safe_read_loop-takes later (suc want) got pending enough come)
safe_read_loop-takes (some n ∷ later) (suc want) got pending enough come =
    let k = count_read n (suc want) pending in
    let left = suc want - k in
    let all : suc want ≡ k + left = omega arith in
    let (r, run, (bytes, rest)) =
      safe_read_loop-takes later left (got ++ take k pending) (drop k pending)
        (omega (arith, length-drop k pending)) (omega arith) in
    (
      r,
      rw (positive want) run,
      (
        bytes
            ∙ append_assoc got (take k pending) (take left (drop k pending))
            ∙ ap (λ (t : List ℕ). got ++ t)
                (sym (take-add k left pending) ∙ ap (λ (m : ℕ). take m pending) (sym all)),
        rest ∙ drop-drop k left pending ∙ ap (λ (m : ℕ). drop m pending) (sym all),
      ),
    )

-- `safe_read`, where as many bytes as it asks for are to come and do come in while it runs, in
-- pieces of any sizes and with any number of calls that bring nothing between them: it ends, with
-- exactly these bytes in their order, and leaves all that come after them.
pub safe_read-takes :
    (s : Socket) (count : ℕ)
    → count ≤ length s.pending
    → count ≤ available s.schedule
    → Returns
        (safe_read s count)
        λ r. (r.0 ≡ take count s.pending) × (r.1.pending ≡ drop count s.pending)
unfolding safe_read
safe_read-takes s count enough come = safe_read_loop-takes s.schedule count [] s.pending enough come

-- The bytes that are asked for do not come.
safe_read_loop-spins :
    (schedule : List (Option ℕ)) (want : ℕ) (got pending : List ℕ)
    → min (length pending) (available schedule) < want
    → safe_read_loop schedule want got pending ≡ fault out_of_fuel
unfolding safe_read_loop available
safe_read_loop-spins [] want got pending short = ground arith
safe_read_loop-spins (none ∷ later) want got pending short =
    ground (arith, safe_read_loop-spins later want got pending)
safe_read_loop-spins (some n ∷ later) want got pending short =
    let k = count_read n want pending in
    let left : min (length (drop k pending)) (available later) < want - k =
      omega (arith, length-drop k pending) in
    ground
      (arith, safe_read_loop-spins later (want - k) (got ++ take k pending) (drop k pending) left)

-- `safe_read`, where fewer bytes are to come than it asks for, as when the other side has closed
-- the connection, or where the calls of `read` bring fewer, as when each of them reports an error:
-- it never ends, however many calls it makes.
pub safe_read-spins :
    (s : Socket) (count : ℕ)
    → min (length s.pending) (available s.schedule) < count
    → safe_read s count ≡ fault out_of_fuel
unfolding safe_read
safe_read-spins s count short = safe_read_loop-spins s.schedule count [] s.pending short

abbrev pub body_or : (stale body : List ℕ) → List ℕ
body_or stale [] = stale
body_or stale (b ∷ body) = b ∷ body

-- What a message is in host order, once its header and its body have come: `stale` are the bytes
-- that it keeps where it has no body.
abbrev pub message_of : ByteOrder → Memory → (address : ℕ) (stale header body : List ℕ) → Message
message_of order memory address stale header body =
    received order
      (record { header = header_at memory header; body = address; bytes = body_or stale body })

read_body-received :
    (order : ByteOrder) (memory : Memory) (s : Socket) (address : ℕ)
    (stale header body rest : List ℕ)
    → s.pending ≡ body ++ rest
    → length body ≤ available s.schedule
    → (message_of order memory address stale header body).header.length
      ≡ ofp_header_len + length body
    → Returns
        (read_body order memory s address stale header)
        λ r. (r.0 ≡ message_of order memory address stale header body) × (r.1.pending ≡ rest)
unfolding read_body received
read_body-received order memory s address stale header [] rest pending come announced =
    let none_left : ltb 8 (order.ntohs (memory.word16 (take 2 (drop 2 header)))) ≡ false =
      ground (arith, announced) in
    ((message_of order memory address stale header [], s), rw none_left refl, (refl, pending))
read_body-received order memory s address stale header (b ∷ body) rest pending come announced =
    let count = length (b ∷ body) in
    let announced_length = order.ntohs (memory.word16 (take 2 (drop 2 header))) in
    let test : ltb 8 announced_length ≡ true = ground (arith, announced) in
    let asked : announced_length - 8 ≡ count = omega (arith, announced) in
    let total : length s.pending ≡ count + length rest =
      omega (arith, ap length pending, length-append (b ∷ body) rest) in
    let (r, run, (bytes, left)) = safe_read-takes s count (omega arith) come in
    let exact : r.0 ≡ b ∷ body = bytes ∙ ap (take count) pending ∙ take-append (b ∷ body) rest in
    (
      (message_of order memory address stale header (b ∷ body), r.1),
      rw (test, ap (safe_read s) asked ∙ run, exact) refl,
      (refl, left ∙ ap (drop count) pending ∙ drop-append (b ∷ body) rest),
    )

-- `read_openflow_message`, where the bytes of a whole message are to come, the header in one piece
-- and the body in pieces of any sizes, and where the length in the header is that of the two: it
-- ends, with the header in host order and exactly the body, and leaves all that comes after it.
pub read_openflow_message-received :
    (order : ByteOrder) (memory : Memory) (s : Socket) (address : ℕ)
    (old stale header body rest : List ℕ) (n : ℕ) (later : List (Option ℕ))
    → length old ≡ ofp_header_len
    → length header ≡ ofp_header_len
    → s.pending ≡ header ++ (body ++ rest)
    → s.schedule ≡ some n ∷ later
    → ofp_header_len ≤ n
    → length body ≤ available later
    → (message_of order memory address stale header body).header.length
      ≡ ofp_header_len + length body
    → Returns
        (read_openflow_message order memory s address old stale)
        λ r. (r.0 ≡ some (message_of order memory address stale header body)) × (r.1.pending ≡ rest)
unfolding read_openflow_message
read_openflow_message-received order memory s address old stale header body rest n later kept whole
      pending schedule enough come announced =
    let k = count_read n ofp_header_len s.pending in
    let total : length s.pending ≡ ofp_header_len + length (body ++ rest) =
      omega (arith, ap length pending, length-append header (body ++ rest)) in
    let all : k ≡ length header = omega arith in
    let taken : take k s.pending ++ drop k old ≡ header =
      rw
        (
          all,
          pending,
          take-append header (body ++ rest),
          drop_all (length header) old (omega arith),
        )
        (append-nil header) in
    let left : drop k s.pending ≡ body ++ rest =
      rw (all, pending) (drop-append header (body ++ rest)) in
    let s' : Socket = record { pending = drop k s.pending; schedule = later } in
    let some_read : (k == 0) ≡ false = ground (arith, all, whole) in
    let (r, run, (message, after)) =
      read_body-received order memory s' address stale header body rest left come announced in
    ((some r.0, r.1), rw (schedule, some_read, taken, run) refl, (ap some message, after))
