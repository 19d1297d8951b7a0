-- ===== src/Openflow/Replies.antt =====
-- `openflow_get_flows` of src/openflow.c: the request for the flows, the replies that the switch
-- sends to it, and what is read from them.
use o_rss_nic.Prelude.{
  Array, Bool, List, Option, Run, [], drop, fault, if◌then◌else◌, ltb, not, ok, out_of_bounds, suc,
  take, update, zero, ℕ, ◌%◌, ◌+◌, ◌-◌, ◌==◌, ◌>>=◌, ◌^◌, ◌∷◌,
}
use Prim.Native.Nat.{bit_and}
use o_rss_nic.Words.{ByteOrder, Memory, slice_at}
use o_rss_nic.Openflow.{
  Message, Connection, World, ofp_version, ofp_header_len, openflow_wait_for_message,
  free_openflow_message_body,
}
use o_rss_nic.Openflow.Convert.{
  ActionOutput, ActionVlanVid, ntoh_openflow_flow_stats, ntoh_openflow_action_output,
  ntoh_openflow_action_vlan_vid,
}
use o_rss_nic.Openflow.Flows.{Action, Content, Flows, max_handled_flows, max_actions}
use o_rss_nic.Openflow.Ovs.{
  Layout, StatsRequest, ofp_stats_request, ofp_stats_reply, ofpst_flow, ovs_network_ifindex,
  max_stats_reply, sizeof_reply_header, sizeof_action, ofpat_output, ofpat_set_vlan_vid,
}

module _ (order : ByteOrder) (memory : Memory) where
  open order use {htons, ntohs, htonl}
  open memory use {word16}

  -- The structures that stand in eight bytes, in the order of the network.
  abbrev pub action_output_at : List ℕ → ActionOutput
  action_output_at b = record {
    type = word16 (take 2 b);
    len = word16 (take 2 (drop 2 b));
    port = word16 (take 2 (drop 4 b));
    max_len = word16 (take 2 (drop 6 b));
  }

  abbrev pub action_vlan_vid_at : List ℕ → ActionVlanVid
  action_vlan_vid_at b = record {
    type = word16 (take 2 b);
    len = word16 (take 2 (drop 2 b));
    vlan_vid = word16 (take 2 (drop 4 b));
  }

  -- One action, where `malloc` gives the address `fresh`: the action, where the next one starts,
  -- and the next address. Of an unknown type only the type is set, and the rest of the entry is
  -- left out.
  unfoldable pub read_action :
      List ℕ → (head actions_end fresh : ℕ) → (old : Action) → Run (Action × ℕ × ℕ)
  read_action bytes head actions_end fresh old = do
    start ← slice_at bytes head 2
    let type = ntohs (word16 start)
    if type == ofpat_output
        then (do
          b ← slice_at bytes head sizeof_action
          ok (
            record {
              type = type;
              body = fresh;
              content = Content.output (ntoh_openflow_action_output order (action_output_at b));
            },
            head + sizeof_action,
            fresh + 1,
          ))
        else if type == ofpat_set_vlan_vid
        then (do
          b ← slice_at bytes head sizeof_action
          ok (
            record {
              type = type;
              body = fresh;
              content =
                  Content.vlan_vid (ntoh_openflow_action_vlan_vid order (action_vlan_vid_at b));
            },
            head + sizeof_action,
            fresh + 1,
          ))
        else ok (record old { type = type }, actions_end, fresh)

  -- The inner `while` loop; `count` is `*nb_actions`, `row` is `flows->actions[flows->nb_flows]`,
  -- and `left` is the number of its places from `count` on.
  unfoldable pub actions_loop :
      (left : ℕ)
      → List ℕ
      → (head actions_end count fresh : ℕ) → Array Action
      → Run (Array Action × ℕ × ℕ)
  unfolding read_action
  actions_loop zero bytes head actions_end count fresh row =
      if ltb head actions_end then fault out_of_bounds else ok (row, count, fresh)
  actions_loop (suc left) bytes head actions_end count fresh row =
      let rest = λ (head' fresh' : ℕ) (row' : Array Action).
        actions_loop left bytes head' actions_end ((count + 1) % 2 ^ 8) fresh' row' in
      if ltb head actions_end
      then (do
        (action, head', fresh') ← read_action bytes head actions_end fresh (row count)
        rest head' fresh' (update row count action))
      else ok (row, count, fresh)

  module _ (layout : Layout) where
    open layout use {
      sizeof_flow_stats, ofpsf_reply_more, ofpp_none, ofpfw10_all, ofpfw10_in_port, request_size,
    }

    -- The loop over the entries of one reply; `left` is the number of places from `nb_flows` on.
    unfoldable pub entries_loop :
        (left : ℕ) → List ℕ → (head response_end : ℕ) → Flows → (fresh : ℕ) → Run (Flows × ℕ)
    unfolding actions_loop
    entries_loop zero bytes head response_end flows fresh =
        if ltb head response_end then fault out_of_bounds else ok (flows, fresh)
    entries_loop (suc left) bytes head response_end flows fresh =
        let rest = λ (head' : ℕ) (flows' : Flows) (fresh' : ℕ).
          entries_loop left bytes head' response_end flows' fresh' in
        let i = flows.nb_flows in
        if ltb head response_end
        then (do
          b ← slice_at bytes head sizeof_flow_stats
          let stats = ntoh_openflow_flow_stats order (layout.flow_stats b)
          let actions_end = head + stats.length
          (row, count, fresh') ←
              actions_loop (max_actions - flows.nb_actions i) bytes (head + sizeof_flow_stats)
                actions_end (flows.nb_actions i) fresh (flows.actions i)
          rest actions_end
              (record {
                nb_flows = i + 1;
                flow_stats = update flows.flow_stats i stats;
                nb_actions = update flows.nb_actions i count;
                actions = update flows.actions i row;
              })
              fresh')
        else ok (flows, fresh)

    -- The loop over the replies.
    unfoldable pub replies_loop :
        List Message → Flows → (fresh : ℕ) → World → Run (Flows × ℕ × World)
    unfolding entries_loop free_openflow_message_body
    replies_loop [] flows fresh w = ok (flows, fresh, w)
    replies_loop (m ∷ messages) flows fresh w =
        let rest =
          λ (f : Flows) (a : ℕ). replies_loop messages f a (free_openflow_message_body m w) in
        do
          (flows', fresh') ←
              entries_loop (max_handled_flows - flows.nb_flows) m.bytes sizeof_reply_header
                (m.header.length - ofp_header_len) flows fresh
          rest flows' fresh'

    -- The loop that waits for the replies; `left` is the number of places from `nb_messages` on.
    unfoldable pub collect_loop :
        (left xid : ℕ)
        → Connection
        → List (Option Message)
        → Run (List Message × Connection × List (Option Message))
    unfolding openflow_wait_for_message
    collect_loop zero xid conn reads = fault out_of_bounds
    collect_loop (suc left) xid conn reads =
        let rest = collect_loop left xid in
        do
          (m, conn', reads') ← openflow_wait_for_message order ofp_stats_reply xid reads conn
          flags ← slice_at m.bytes 2 2
          if bit_and (ntohs (word16 flags)) ofpsf_reply_more == 0
              then ok (m ∷ [], conn', reads')
              else (do
                (messages, conn'', reads'') ← rest conn' reads'
                ok (m ∷ messages, conn'', reads''))

    unfoldable pub flow_request : (current_xid : ℕ) → StatsRequest
    flow_request current_xid = record {
      header = record {
        version = ofp_version;
        type = ofp_stats_request;
        length = htons request_size;
        xid = htonl current_xid;
      };
      type = htons ofpst_flow;
      flags = 0;
      wildcards = htonl (bit_and ofpfw10_all (2 ^ 32 - 1 - ofpfw10_in_port));
      in_port = htons ovs_network_ifindex;
      table_id = 255;
      out_port = ofpp_none;
    }

    -- `written` says whether `write` takes the request. The result has the request, the flows,
    -- the connection, the next address that `malloc` gives, and the world.
    unfoldable pub openflow_get_flows :
        (written : Bool)
        → Connection
        → Flows
        → (fresh : ℕ) → World
        → Run (StatsRequest × Flows × Connection × ℕ × World)
    unfolding collect_loop replies_loop flow_request
    openflow_get_flows written conn flows fresh w =
        let current_xid = w.transaction_id in
        let w₁ = record w { transaction_id = (w.transaction_id + 1) % 2 ^ 32 } in
        if not written then ok (flow_request current_xid, flows, conn, fresh, w₁) else (do
          (messages, conn', reads) ← collect_loop max_stats_reply current_xid conn w.incoming
          (flows', fresh', w₂) ←
              replies_loop messages (record flows { nb_flows = 0 }) fresh
                (record w₁ { incoming = reads })
          ok (flow_request current_xid, flows', conn', fresh', w₂))
