-- ===== src/Openflow/Lines.antt =====
-- The lines that `openflow_dump_flows` of src/openflow.c prints, and the flows that they tell of.
use o_rss_nic.Prelude.{
  Array, List, Returns, [], arith, length, ok, read-ok, refl, suc, zero, ℕ, ◌*◌, ◌+◌, ◌<◌, ◌^◌, ◌∷◌,
  ◌≡◌, ◌≤◌,
}
use mathlib.Core.List.{map}
use o_rss_nic.Openflow.Convert.{ActionOutput, ActionVlanVid}
use o_rss_nic.Openflow.Flows.{Action, Content, Flows, max_actions, max_handled_flows}
use o_rss_nic.Openflow.Ovs.{ofpat_output, ofpat_set_vlan_vid}
use o_rss_nic.Openflow.Buffer.{slice}
use o_rss_nic.Openflow.Dump.{
  Line, Shown, octets, protocol_of, dump_action, dump_actions_loop, dump_loop, openflow_dump_flows,
}

-- An action of one of the two types, with the structure of that type.
pub data IsKnown : Action → Type 0 where
  known_output :
      (a : ActionOutput) (body : ℕ)
      → IsKnown (record { type = ofpat_output; body = body; content = Content.output a })
  known_vlan_vid :
      (a : ActionVlanVid) (body : ℕ)
      → IsKnown (record { type = ofpat_set_vlan_vid; body = body; content = Content.vlan_vid a })

-- What a reader finds in a line: the addresses and the ports.
pub record Ends : Type 0 where
  pub src_ip : ℕ
  pub src_port : ℕ
  pub dst_ip : ℕ
  pub dst_port : ℕ

-- The number that is written with these digits in base 256, the highest first.
abbrev pub address_of : (before : ℕ) → List ℕ → ℕ
address_of before [] = before
address_of before (b ∷ bytes) = address_of (before * 256 + b) bytes

abbrev pub ends_of : Line → Ends
ends_of l = record {
  src_ip = address_of 0 l.src;
  src_port = l.src_port;
  dst_ip = address_of 0 l.dst;
  dst_port = l.dst_port;
}

abbrev pub ends_at : Flows → ℕ → Ends
ends_at flows i = record {
  src_ip = (flows.flow_stats i).match_.nw_src;
  src_port = (flows.flow_stats i).match_.tp_src;
  dst_ip = (flows.flow_stats i).match_.nw_dst;
  dst_port = (flows.flow_stats i).match_.tp_dst;
}

-- The octets of an address say which one it is.
address_of-octets : (address : ℕ) → address < 2 ^ 32 → address_of 0 (octets address) ≡ address
address_of-octets address small = omega arith

-- What is told of an action, by the structure that it has.
abbrev pub told : Action → Shown
told action = elim action.content [
  | Content.no_content ↦ Shown.shown_nothing
  | Content.output a ↦ Shown.shown_output a.port
  | Content.vlan_vid a ↦ Shown.shown_vlan_vid a.vlan_vid
]

-- The lines are those of the flows from `i` on.
abbrev pub Shows : (i : ℕ) → Flows → List Line → Type 0
Shows i flows [] = Unit
Shows i flows (l ∷ lines) =
    (l.number ≡ i)
    × (ends_of l ≡ ends_at flows i)
    × (l.actions ≡ map told (slice (flows.nb_actions i) 0 (flows.actions i)))
    × Shows (i + 1) flows lines

dump_action-told : {action : Action} → IsKnown action → dump_action action ≡ ok (told action)
unfolding dump_action
dump_action-told (known_output a body) = refl
dump_action-told (known_vlan_vid a body) = refl

dump_actions_loop-told :
    (left j : ℕ) (row : Array Action)
    → j + left ≤ max_actions
    → ((k : ℕ) → k < j + left → IsKnown (row k))
    → dump_actions_loop left j row ≡ ok (map told (slice left j row))
unfolding dump_actions_loop slice
dump_actions_loop-told zero j row fits known = refl
dump_actions_loop-told (suc left) j row fits known =
    rw
      (
        read-ok max_actions row j (omega arith),
        dump_action-told (known j (omega arith)),
        dump_actions_loop-told left (j + 1) row (omega arith) (λ k hk. known k (omega arith)),
      )
      refl

dump_loop-Shows :
    (left i : ℕ) (flows : Flows)
    → i + left ≤ max_handled_flows
    → ((k : ℕ) → k < i + left → flows.nb_actions k ≤ max_actions)
    → ((k j : ℕ) → k < i + left → j < flows.nb_actions k → IsKnown (flows.actions k j))
    → ((k : ℕ)
        → k < i + left
        → ((flows.flow_stats k).match_.nw_src < 2 ^ 32)
          × ((flows.flow_stats k).match_.nw_dst < 2 ^ 32))
    → Returns (dump_loop left i flows) λ lines. (length lines ≡ left) × Shows i flows lines
unfolding dump_loop
dump_loop-Shows zero i flows fits few known small = ([], refl, (refl, tt))
dump_loop-Shows (suc left) i flows fits few known small =
    let match_ = (flows.flow_stats i).match_ in
    let (src_small, dst_small) = small i (omega arith) in
    let (lines, run, (count, shows)) =
      dump_loop-Shows left (i + 1) flows (omega arith) (λ k hk. few k (omega arith))
        (λ k j hk. known k j (omega arith)) (λ k hk. small k (omega arith)) in
    let bound = few i (omega arith) in
    (
      record {
        number = i;
        protocol = protocol_of match_.nw_proto;
        src = octets match_.nw_src;
        src_port = match_.tp_src;
        dst = octets match_.nw_dst;
        dst_port = match_.tp_dst;
        actions = map told (slice (flows.nb_actions i) 0 (flows.actions i));
      }
          ∷ lines,
      rw
          (
            read-ok max_handled_flows flows.flow_stats i (omega arith),
            read-ok max_handled_flows flows.nb_actions i (omega arith),
            dump_actions_loop-told (flows.nb_actions i) 0 (flows.actions i) (omega arith)
                (λ k hk. known i k (omega arith) (omega arith)),
            run,
          )
          refl,
      (
        omega arith,
        (
          refl,
          rw (address_of-octets match_.nw_src src_small, address_of-octets match_.nw_dst dst_small)
              refl,
          refl,
          shows,
        ),
      ),
    )

-- `openflow_dump_flows`, where the flows and the actions of each are no more than their arrays
-- hold, every action has the structure of its type, and the addresses are words of 32 bits: it ends
-- normally, with one line for each flow, in their order. The line has the number of the flow; the
-- four numbers of each address written in base 256 are the address; and it has the ports and the
-- actions of the flow.
pub openflow_dump_flows-Shows :
    (flows : Flows)
    → flows.nb_flows ≤ max_handled_flows
    → ((k : ℕ) → k < flows.nb_flows → flows.nb_actions k ≤ max_actions)
    → ((k j : ℕ) → k < flows.nb_flows → j < flows.nb_actions k → IsKnown (flows.actions k j))
    → ((k : ℕ)
        → k < flows.nb_flows
        → ((flows.flow_stats k).match_.nw_src < 2 ^ 32)
          × ((flows.flow_stats k).match_.nw_dst < 2 ^ 32))
    → Returns
        (openflow_dump_flows flows)
        λ lines. (length lines ≡ flows.nb_flows) × Shows 0 flows lines
unfolding openflow_dump_flows
openflow_dump_flows-Shows flows fits few known small =
    dump_loop-Shows flows.nb_flows 0 flows (omega arith) (λ k hk. few k (omega arith))
      (λ k j hk. known k j (omega arith)) (λ k hk. small k (omega arith))
