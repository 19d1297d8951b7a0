-- ===== src/Openflow/Selects.antt =====
-- Which flow entries of the switch a match of OpenFlow 1.0 takes in, by the bits of its wildcards.
use o_rss_nic.Prelude.{
  Bool, List, ap, arith, false, leb, refl, true, ℕ, ◌%◌, ◌&&◌, ◌+◌, ◌/◌, ◌<◌, ◌==◌, ◌^◌, ◌||◌, ◌∙◌,
  ◌∷◌, ◌≡◌,
}
use o_rss_nic.FiveTuple.{FiveTuple, five_tuple_equals}
use o_rss_nic.Words.{ByteOrder, IsByteOrder}
use o_rss_nic.Openflow.Convert.{
  ntoh_openflow_action_output, OpenflowMatch, ntoh_openflow_match, ntoh_openflow_action_vlan_vid,
}
use o_rss_nic.Openflow.FlowMod.{
  Constants, IsFiveTuple, openflow_mod_vlan, flow_mod_message, FlowMod, flow_mod_message-actions,
}

-- The fields of a frame that a match looks at, or of a flow entry that gives all of them.
pub record Frame : Type 0 where
  pub in_port : ℕ
  pub dl_src : ℕ
  pub dl_dst : ℕ
  pub dl_vlan : ℕ
  pub dl_vlan_pcp : ℕ
  pub dl_type : ℕ
  pub nw_tos : ℕ
  pub flow : FiveTuple

-- A frame of IPv4 from the port of the network.
abbrev pub arrives : Frame → Bool
arrives f = f.in_port == 1 && f.dl_type == 0x0800

-- The bit of the wildcards that says that a field does not count.
abbrev pub wild : (wildcards bit : ℕ) → Bool
wild wildcards bit = wildcards / 2 ^ bit % 2 == 1

-- An address of the network, of which the given number of low bits does not count.
abbrev pub same_prefix : (ignored a b : ℕ) → Bool
same_prefix ignored a b = leb 32 ignored || a / 2 ^ ignored == b / 2 ^ ignored

abbrev pub selects : OpenflowMatch → Frame → Bool
selects m f =
    (wild m.wildcards 0 || m.in_port == f.in_port)
    && (wild m.wildcards 1 || m.dl_vlan == f.dl_vlan)
    && (wild m.wildcards 2 || m.dl_src == f.dl_src)
    && (wild m.wildcards 3 || m.dl_dst == f.dl_dst)
    && (wild m.wildcards 4 || m.dl_type == f.dl_type)
    && (wild m.wildcards 5 || m.nw_proto == f.flow.proto)
    && (wild m.wildcards 6 || m.tp_src == f.flow.src_port)
    && (wild m.wildcards 7 || m.tp_dst == f.flow.dst_port)
    && same_prefix (m.wildcards / 2 ^ 8 % 64) m.nw_src f.flow.src_ip
    && same_prefix (m.wildcards / 2 ^ 14 % 64) m.nw_dst f.flow.dst_ip
    && (wild m.wildcards 20 || m.dl_vlan_pcp == f.dl_vlan_pcp)
    && (wild m.wildcards 21 || m.nw_tos == f.nw_tos)

module _ (order : ByteOrder) (constants : Constants) where
  -- The match of an order, as the switch reads it.
  abbrev pub ordered : (transaction_id : ℕ) → FiveTuple → (new_vlan : ℕ) → OpenflowMatch
  ordered transaction_id key new_vlan =
      ntoh_openflow_match order
        (flow_mod_message order constants transaction_id key new_vlan).match_

  abbrev pub five_tuple_match : FiveTuple → OpenflowMatch
  five_tuple_match key = record {
    wildcards = 3145742;
    in_port = 1;
    dl_src = 0;
    dl_dst = 0;
    dl_vlan = order.ntohs 0;
    dl_vlan_pcp = 0;
    dl_type = 2048;
    nw_tos = 0;
    nw_proto = key.proto;
    nw_src = key.src_ip;
    nw_dst = key.dst_ip;
    tp_src = key.src_port;
    tp_dst = key.dst_port;
  }

  ordered-match :
      (transaction_id new_vlan : ℕ) (key : FiveTuple)
      → IsByteOrder order
      → IsFiveTuple key
      → ordered transaction_id key new_vlan ≡ five_tuple_match key
  unfolding flow_mod_message ntoh_openflow_match
  ordered-match transaction_id new_vlan key laws fits =
      rw
        (
          laws.ntohl-htonl 3145742 (omega arith),
          laws.ntohs-htons 1 (omega arith),
          laws.ntohs-htons 2048 (omega arith),
          laws.ntohl-htonl key.src_ip fits.src_ip_lt,
          laws.ntohl-htonl key.dst_ip fits.dst_ip_lt,
          laws.ntohs-htons key.src_port fits.src_port_lt,
          laws.ntohs-htons key.dst_port fits.dst_port_lt,
        )
        refl

  five_tuple_match-selects :
      (key : FiveTuple) (f : Frame)
      → selects (five_tuple_match key) f ≡ (arrives f && five_tuple_equals key f.flow)
  unfolding five_tuple_equals
  five_tuple_match-selects key f = ground arith

  -- The match of an order takes in the frames of IPv4 from the port of the network that have
  -- exactly the addresses, ports and protocol of the flow, and no others.
  pub ordered-selects :
      (transaction_id new_vlan : ℕ) (key : FiveTuple) (f : Frame)
      → IsByteOrder order
      → IsFiveTuple key
      → selects (ordered transaction_id key new_vlan) f
        ≡ (arrives f && five_tuple_equals key f.flow)
  ordered-selects transaction_id new_vlan key f laws fits =
      ap (λ m. selects m f) (ordered-match transaction_id new_vlan key laws fits)
      ∙ five_tuple_match-selects key f

  -- `openflow_mod_vlan`, where the conversions of byte order undo one another and the fields of the
  -- flow and the VLAN have their widths, and where `write` takes the message: it gives the switch
  -- one order more. The match of the order takes in the frames of IPv4 from the port of the network
  -- that have exactly the addresses, the ports and the protocol of the flow, whatever else they
  -- have, and no other frame. Its actions set the VLAN that was asked for and send the packet to
  -- the port of the host. It is of the type 14 with the command to modify, whatever port the
  -- entries output to. Where `write` fails the switch is given nothing. In both cases the
  -- transaction is counted.
  pub openflow_mod_vlan-orders :
      (transaction_id new_vlan : ℕ) (key : FiveTuple) (orders : List FlowMod)
      → IsByteOrder order
      → IsFiveTuple key
      → new_vlan < 2 ^ 16
      → ((o : FlowMod) × ((openflow_mod_vlan order constants true transaction_id key new_vlan
              orders).0
            ≡ o ∷ orders)
          × ((f : Frame)
              → selects (ntoh_openflow_match order o.match_) f
                ≡ (arrives f && five_tuple_equals key f.flow))
          × (ntoh_openflow_action_vlan_vid order o.vlan_vid
              ≡ record { type = 1; len = 8; vlan_vid = new_vlan })
          × (ntoh_openflow_action_output order o.output
              ≡ record { type = 0; len = 8; port = 2; max_len = 65535 })
          × (o.header ≡ record {
            version = 1;
            type = 14;
            length = order.htons constants.message_size;
            xid = order.ntohl transaction_id;
          })
          × (o.command ≡ order.htons constants.ofpfc_modify)
          × (o.out_port ≡ order.htons constants.ofpp_none))
        × ((openflow_mod_vlan order constants false transaction_id key new_vlan orders).0 ≡ orders)
        × ((written : Bool)
            → (openflow_mod_vlan order constants written transaction_id key new_vlan orders).1
              ≡ (transaction_id + 1) % 2 ^ 32)
  unfolding openflow_mod_vlan flow_mod_message
  openflow_mod_vlan-orders transaction_id new_vlan key orders laws fits small =
      let (moves, out) =
        flow_mod_message-actions order constants transaction_id new_vlan key laws small in
      (
        (
          flow_mod_message order constants transaction_id key new_vlan,
          refl,
          (λ f. ordered-selects transaction_id new_vlan key f laws fits),
          moves,
          out,
          refl,
          refl,
          refl,
        ),
        refl,
        λ written. refl,
      )
