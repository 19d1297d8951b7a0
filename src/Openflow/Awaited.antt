-- ===== src/Openflow/Awaited.antt =====
-- The message that `openflow_wait_for_message` of src/openflow.c waits for, told of its header.
use o_rss_nic.Prelude.{
  All, Bool-cases, List, Option, Returns, [], arith, false, inl, inr, length, refl, some, true, ℕ,
  ◌++◌, ◌+◌, ◌∷◌, ◌≡◌, ◌≤◌, ◌⊎◌,
}
use o_rss_nic.Words.{ByteOrder}
use o_rss_nic.Openflow.{
  Message, Connection, msg_buffer_size, received, is_awaited, openflow_wait_for_message,
}
use o_rss_nic.Openflow.Buffer.{queued, arrivals, any_awaited, openflow_wait_for_message-finds}

-- A message of this type, and of this transaction unless that is 0.
abbrev pub IsAwaited : (type xid : ℕ) → Message → Type 0
IsAwaited type xid m = (m.header.type ≡ type) × ((xid ≡ 0) ⊎ (m.header.xid ≡ xid))

module _ (order : ByteOrder) (type xid : ℕ) where
  awaited : (m : Message) → IsAwaited type xid m → is_awaited order type xid m ≡ true
  unfolding is_awaited
  awaited m (same_type, same_xid) = ground (arith, same_type, same_xid)

  not_awaited : (m : Message) → (IsAwaited type xid m → ⊥) → is_awaited order type xid m ≡ false
  unfolding is_awaited
  not_awaited m other = elim (Bool-cases (is_awaited order type xid m)) [
    | inl yes_awaited ↦ absurd (other (ground arith, ground arith))
    | inr no_awaited ↦ no_awaited
  ]

  none_awaited :
      (messages : List Message)
      → All (λ m. IsAwaited type xid m → ⊥) messages
      → any_awaited order type xid messages ≡ false
  unfolding any_awaited
  none_awaited [] others = refl
  none_awaited (m ∷ messages) (other, others) =
      rw (not_awaited m other, none_awaited messages others) refl

  -- `openflow_wait_for_message`, where a message of the type comes, and of the transaction unless
  -- that is 0, and no such message before it, and where those before it fit beside the messages
  -- that are put aside already: it returns this message in host order. It leaves the later reads
  -- alone, and puts all that came before aside, in the order of their arrival.
  pub openflow_wait_for_message-first :
      (before : List (Option Message)) (message : Message) (later : List (Option Message))
      (conn : Connection)
      → All (λ m. IsAwaited type xid m → ⊥) (arrivals order before)
      → IsAwaited type xid (received order message)
      → conn.nb_msg_buffered + length (arrivals order before) ≤ msg_buffer_size
      → Returns
          (openflow_wait_for_message order type xid (before ++ (some message ∷ later)) conn)
          (λ r.
            (r.0 ≡ received order message)
            × (queued r.1 ≡ queued conn ++ arrivals order before)
            × (r.2 ≡ later))
  openflow_wait_for_message-first before message later conn others this fits =
      openflow_wait_for_message-finds order type xid before message later conn
        (none_awaited (arrivals order before) others) (awaited (received order message) this) fits
