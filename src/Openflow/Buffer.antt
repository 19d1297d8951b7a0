-- ===== src/Openflow/Buffer.antt =====
-- Waiting for a message in src/openflow.c: what comes first is put aside in the connection.
use o_rss_nic.Prelude.{
  Array, Bool, List, Option, Returns, [], add-one, ap, arith, dec_lt, false, fault, length, none,
  out_of_bounds, refl, some, suc, sym, true, update, write-ok, zero, ℕ, ◌++◌, ◌+◌, ◌<◌, ◌||◌, ◌∙◌,
  ◌∷◌, ◌≡◌, ◌≤◌,
}
use mathlib.Core.List.{append-nil, append_assoc}
use o_rss_nic.Words.{ByteOrder}
use o_rss_nic.Openflow.{
  Message, Connection, msg_buffer_size, received, is_awaited, openflow_wait_for_message,
  buffer_message,
}

-- The elements from `i` on.
unfoldable pub slice {ℓ} : {A : Type ℓ} → (left i : ℕ) → Array A → List A
slice zero i a = []
slice (suc left) i a = a i ∷ slice left (i + 1) a

-- The messages put aside, the oldest one first.
unfoldable pub queued : Connection → List Message
queued conn = slice conn.nb_msg_buffered 0 conn.msg_buffer

pub slice-suc {ℓ} :
    {A : Type ℓ} (n i c : ℕ) (a : Array A) {x : A} {xs : List A}
    → c ≡ i + 1
    → a i ≡ x
    → slice n c a ≡ xs
    → slice (suc n) i a ≡ x ∷ xs
unfolding slice
slice-suc n i c a next here there = rw (← next, here, there) refl

pub slice-add {ℓ} :
    {A : Type ℓ} (n k i : ℕ) (a : Array A) → slice (n + k) i a ≡ slice n i a ++ slice k (i + n) a
unfolding slice
slice-add zero k i a =
    ap (λ (m : ℕ). slice m i a) {x = zero + k} {y = k} (omega arith)
    ∙ ap (λ (m : ℕ). slice k m a) {x = i} {y = i + zero} (omega arith)
slice-add (suc n) k i a =
    ap (λ (m : ℕ). slice m i a) {x = suc n + k} {y = suc (n + k)} (omega arith)
    ∙ ap (λ l. a i ∷ l) (slice-add n k (i + 1) a)
    ∙ ap (λ (m : ℕ). a i ∷ (slice n (i + 1) a ++ slice k m a)) {x = i + 1 + n} {y = i + suc n}
        (omega arith)

pub slice_congr {ℓ} :
    {A : Type ℓ} (n i : ℕ) (a' a : Array A)
    → ((j : ℕ) → j < i + n → a' j ≡ a j)
    → slice n i a' ≡ slice n i a
unfolding slice
slice_congr zero i a' a same = refl
slice_congr (suc n) i a' a same =
    rw (same i (omega arith), slice_congr n (i + 1) a' a (λ j hj. same j (omega arith))) refl

pub length-slice {ℓ} : {A : Type ℓ} (n i : ℕ) (a : Array A) → length (slice n i a) ≡ n
unfolding slice
length-slice zero i a = refl
length-slice (suc n) i a = omega (arith, length-slice n (i + 1) a)

pub length-queued : (conn : Connection) → length (queued conn) ≡ conn.nb_msg_buffered
unfolding queued
length-queued conn = length-slice conn.nb_msg_buffered 0 conn.msg_buffer

pub queued-empty : (conn : Connection) → conn.nb_msg_buffered ≡ 0 → queued conn ≡ []
unfolding queued slice
queued-empty conn empty = ap (λ (n : ℕ). slice n 0 conn.msg_buffer) empty

-- Two connections with the same slots hold the same messages.
pub queued_congr :
    (conn' conn : Connection)
    → conn'.msg_buffer ≡ conn.msg_buffer
    → conn'.nb_msg_buffered ≡ conn.nb_msg_buffered
    → queued conn' ≡ queued conn
unfolding queued
queued_congr conn' conn e e' = rw (e, e') refl

slice-update {ℓ} :
    {A : Type ℓ} (left i n : ℕ) (a : Array A) (x : A)
    → i + left ≡ n
    → slice (suc left) i (update a n x) ≡ slice left i a ++ (x ∷ [])
unfolding slice
slice-update zero i n a x e = ground arith
slice-update (suc left) i n a x e = ground (arith, slice-update left (i + 1) n a x (omega arith))

-- One more message fits while fewer than 16 wait.
buffer_message-queued :
    (order : ByteOrder) (message : Message) (conn : Connection)
    → conn.nb_msg_buffered < msg_buffer_size
    → Returns (buffer_message order message conn) (λ conn'.
      (conn'.nb_msg_buffered ≡ conn.nb_msg_buffered + 1)
      × (queued conn' ≡ queued conn ++ (message ∷ [])))
unfolding buffer_message queued
buffer_message-queued order message conn fits = (
  record conn {
    msg_buffer = update conn.msg_buffer conn.nb_msg_buffered message;
    nb_msg_buffered = conn.nb_msg_buffered + 1;
  },
  rw (write-ok msg_buffer_size conn.msg_buffer conn.nb_msg_buffered message fits) refl,
  (
    refl,
    rw (add-one conn.nb_msg_buffered) (
        slice-update conn.nb_msg_buffered 0 conn.nb_msg_buffered conn.msg_buffer message
          (omega arith)),
  ),
)

buffer_message-full :
    (order : ByteOrder) (message : Message) (conn : Connection)
    → msg_buffer_size ≤ conn.nb_msg_buffered
    → buffer_message order message conn ≡ fault out_of_bounds
unfolding buffer_message
buffer_message-full order message conn full = ground arith

module _ (order : ByteOrder) where
  -- The messages among the reads, in host order.
  unfoldable pub arrivals : List (Option Message) → List Message
  arrivals [] = []
  arrivals (none ∷ later) = arrivals later
  arrivals (some message ∷ later) = received order message ∷ arrivals later

  -- The awaited message is among them.
  unfoldable pub any_awaited : (type xid : ℕ) → List Message → Bool
  any_awaited type xid [] = false
  any_awaited type xid (message ∷ later) =
      is_awaited order type xid message || any_awaited type xid later

  -- `openflow_wait_for_message`, where the awaited message comes and the messages before it fit
  -- beside those that are put aside already, returns the first message of the type and
  -- transaction it waits for. It leaves the later reads alone, and puts all that came before
  -- aside, in the order of their arrival.
  pub openflow_wait_for_message-finds :
      (type xid : ℕ) (before : List (Option Message)) (message : Message)
      (later : List (Option Message)) (conn : Connection)
      → any_awaited type xid (arrivals before) ≡ false
      → is_awaited order type xid (received order message) ≡ true
      → conn.nb_msg_buffered + length (arrivals before) ≤ msg_buffer_size
      → Returns
          (openflow_wait_for_message order type xid (before ++ (some message ∷ later)) conn)
          (λ r.
            (r.0 ≡ received order message)
            × (queued r.1 ≡ queued conn ++ arrivals before)
            × (r.2 ≡ later))
  unfolding openflow_wait_for_message arrivals any_awaited
  openflow_wait_for_message-finds type xid [] message later conn others awaited fits = (
    (received order message, conn, later),
    rw awaited refl,
    (refl, sym (append-nil (queued conn)), refl),
  )
  openflow_wait_for_message-finds type xid (none ∷ before) message later conn others awaited fits =
      openflow_wait_for_message-finds type xid before message later conn others awaited fits
  openflow_wait_for_message-finds type xid (some m ∷ before) message later conn others awaited
        fits =
      let not_this : is_awaited order type xid (received order m) ≡ false = ground arith in
      let not_those : any_awaited type xid (arrivals before) ≡ false = ground arith in
      let (conn', run, (count, kept)) =
        buffer_message-queued order (received order m) conn (omega arith) in
      let (r, run', (found, queue, left)) =
        openflow_wait_for_message-finds type xid before message later conn' not_those awaited
          (omega arith) in
      (
        r,
        rw (not_this, run, run') refl,
        (
          found,
          queue
              ∙ ap (λ (q : List Message). q ++ arrivals before) kept
              ∙ append_assoc (queued conn) (received order m ∷ []) (arrivals before),
          left,
        ),
      )

  -- `openflow_wait_for_message`, with at most 16 messages put aside before, where more messages
  -- than fit beside them come before the awaited one: it writes behind the end of `msg_buffer`.
  pub openflow_wait_for_message-overflows :
      (type xid : ℕ) (before later : List (Option Message)) (conn : Connection)
      → any_awaited type xid (arrivals before) ≡ false
      → conn.nb_msg_buffered ≤ msg_buffer_size
      → msg_buffer_size < conn.nb_msg_buffered + length (arrivals before)
      → openflow_wait_for_message order type xid (before ++ later) conn ≡ fault out_of_bounds
  unfolding openflow_wait_for_message arrivals any_awaited
  openflow_wait_for_message-overflows type xid [] later conn others fits many = absurd (omega arith)
  openflow_wait_for_message-overflows type xid (none ∷ before) later conn others fits many =
      openflow_wait_for_message-overflows type xid before later conn others fits many
  openflow_wait_for_message-overflows type xid (some m ∷ before) later conn others fits many =
      let not_this : is_awaited order type xid (received order m) ≡ false = ground arith in
      let not_those : any_awaited type xid (arrivals before) ≡ false = ground arith in
      elim (dec_lt conn.nb_msg_buffered msg_buffer_size) [
        | yes room ↦
            let (conn', run, (count, _)) =
              buffer_message-queued order (received order m) conn room in
            rw (not_this, run)
              (openflow_wait_for_message-overflows type xid before later conn' not_those
                (omega arith) (omega arith))
        | no full ↦
            rw (not_this, buffer_message-full order (received order m) conn (omega arith)) refl
      ]
