-- ===== src/Xdp/Trace.antt =====
-- What the programs of src/bpf/xdp.bpf.c keep of a connection over many packets, on one CPU: the
-- map of the connections is one of each CPU, so that the packets of a CPU come one after the other.
use o_rss_nic.Prelude.{
  Bool, List, Run, [], arith, false, ok, refl, true, ℕ, ◌&&◌, ◌>>=◌, ◌||◌, ◌∙◌, ◌∷◌, ◌≡◌,
}
use o_rss_nic.FiveTuple.{FiveTuple, five_tuple_equals}
use o_rss_nic.Xdp.{Packet, Kernel, BpfMap, ConnectionState, no_state, xdp_rx, xdp_tx}
use o_rss_nic.Xdp.Parse.{flow_key}
use o_rss_nic.Xdp.State.{joined}
use o_rss_nic.Xdp.Programs.{is_tcp, shows, reversed, counts}

-- A packet that comes in or goes out.
pub data Event : Type 0 where
  received : Packet → Event
  sent : Packet → Event

module _ (maps : BpfMap) (kernel : Kernel) {Action : Type 0} (redirect : ℕ → Action)
    (pass : Action) where
  -- The program that stands at the side of the packet.
  unfoldable pub handle : Event → maps.Map → Run (Action × maps.Map)
  unfolding xdp_rx xdp_tx
  handle (received p) c = xdp_rx maps kernel redirect pass p c
  handle (sent p) c = xdp_tx maps kernel redirect pass p c

  -- The map after all the packets, in their order.
  unfoldable pub handle_all : List Event → maps.Map → Run maps.Map
  unfolding handle
  handle_all [] c = ok c
  handle_all (e ∷ later) c = let rest = handle_all later in do (_, c') ← handle e c; rest c'

module _ (kernel : Kernel) where
  -- The packet counts for the connection `q`: it came in with this key, or it is a TCP packet that
  -- went out with the ends of the key swapped.
  abbrev pub names : Event → FiveTuple → Bool
  names (received p) q = counts kernel p && five_tuple_equals (flow_key kernel p) q
  names (sent p) q =
      (counts kernel p && is_tcp kernel p) && five_tuple_equals (reversed (flow_key kernel p)) q

  abbrev pub flags : Event → ConnectionState
  flags (received p) = shows kernel p
  flags (sent p) = shows kernel p

  -- One of the packets brings a flag for the connection `q`.
  unfoldable pub brought : (ConnectionState → Bool) → FiveTuple → List Event → Bool
  brought flag q [] = false
  brought flag q (e ∷ later) = names e q && flag (flags e) || brought flag q later

  -- The entry has what it had before and what the packets bring. No packet brings a FIN.
  pub record Gathers (q : FiveTuple) (events : List Event) (old new : ConnectionState)
      : Type 0 where
    pub syn : new.seen_syn ≡ (old.seen_syn || brought (λ s. s.seen_syn) q events)
    pub synack : new.seen_synack ≡ (old.seen_synack || brought (λ s. s.seen_synack) q events)
    pub ack : new.seen_ack ≡ (old.seen_ack || brought (λ s. s.seen_ack) q events)
    pub fin : new.seen_fin ≡ old.seen_fin
    pub same_handled : new.handled ≡ old.handled

  pub Gathers-none : (q : FiveTuple) (s : ConnectionState) → Gathers q [] s s
  unfolding brought
  Gathers-none q s = record {
    syn = ground arith;
    synack = ground arith;
    ack = ground arith;
    fin = refl;
    same_handled = refl;
  }

  brought-skip :
      (flag : ConnectionState → Bool) (q : FiveTuple) (e : Event) (events : List Event)
      → names e q ≡ false
      → brought flag q (e ∷ events) ≡ brought flag q events
  unfolding brought
  brought-skip flag q e events other = rw other refl

  brought-here :
      (flag : ConnectionState → Bool) (q : FiveTuple) (e : Event) (events : List Event)
      → names e q ≡ true
      → brought flag q (e ∷ events) ≡ (flag (flags e) || brought flag q events)
  unfolding brought
  brought-here flag q e events named = rw named refl

  pub Gathers-skip :
      {q : FiveTuple} {e : Event} {events : List Event} {old new : ConnectionState}
      → names e q ≡ false
      → Gathers q events old new
      → Gathers q (e ∷ events) old new
  Gathers-skip {q} {e} {events} {old} {new} other g = record {
    syn = rw (brought-skip (λ s. s.seen_syn) q e events other) g.syn;
    synack = rw (brought-skip (λ s. s.seen_synack) q e events other) g.synack;
    ack = rw (brought-skip (λ s. s.seen_ack) q e events other) g.ack;
    fin = g.fin;
    same_handled = g.same_handled;
  }

  no_fin : (e : Event) → ((flags e).seen_fin ≡ false) × ((flags e).handled ≡ false)
  no_fin (received p) = (refl, refl)
  no_fin (sent p) = (refl, refl)

  -- An entry with the flags of one more packet.
  Gathers-here :
      {q : FiveTuple} {e : Event} {events : List Event} {old next new : ConnectionState}
      → names e q ≡ true
      → next.seen_syn ≡ (old.seen_syn || (flags e).seen_syn)
      → next.seen_synack ≡ (old.seen_synack || (flags e).seen_synack)
      → next.seen_ack ≡ (old.seen_ack || (flags e).seen_ack)
      → next.seen_fin ≡ old.seen_fin
      → next.handled ≡ old.handled
      → Gathers q events next new
      → Gathers q (e ∷ events) old new
  Gathers-here {q} {e} {events} {old} {next} {new} named s sa a f h g =
      let by_syn = g.syn in
      let by_synack = g.synack in
      let by_ack = g.ack in
      record {
        syn = rw (brought-here (λ x. x.seen_syn) q e events named) (ground arith);
        synack = rw (brought-here (λ x. x.seen_synack) q e events named) (ground arith);
        ack = rw (brought-here (λ x. x.seen_ack) q e events named) (ground arith);
        fin = g.fin ∙ f;
        same_handled = g.same_handled ∙ h;
      }

  pub Gathers-merge :
      {q : FiveTuple} {e : Event} {events : List Event} {old new : ConnectionState}
      → names e q ≡ true
      → Gathers q events (joined (flags e) old) new
      → Gathers q (e ∷ events) old new
  Gathers-merge {q} {e} {events} {old} {new} named g =
      let (fin_free, _) = no_fin e in
      Gathers-here named (ground arith) (ground arith) (ground arith) (ground arith) refl g

  pub Gathers-first :
      {q : FiveTuple} {e : Event} {events : List Event} {new : ConnectionState}
      → names e q ≡ true
      → Gathers q events (flags e) new
      → Gathers q (e ∷ events) no_state new
  Gathers-first {q} {e} {events} {new} named g =
      let (fin_free, handled_free) = no_fin e in
      Gathers-here named refl refl refl fin_free handled_free g
