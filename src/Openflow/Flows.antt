-- ===== src/Openflow/Flows.antt =====
-- `openflow_flows` of src/openflow.h, the flows that the switch reported, and its release in
-- `openflow_free_flows` of src/openflow.c.
use o_rss_nic.Prelude.{
  Array, List, Returns, Run, ap, arith, ok, read, read-ok, refl, suc, update, write, write-ok, zero,
  ℕ, ℕ_discrete, ◌+◌, ◌<◌, ◌>>=◌, ◌∷◌, ◌≡◌, ◌≤◌,
}
use o_rss_nic.Openflow.Convert.{FlowStats, ActionOutput, ActionVlanVid}

-- What `data` of an `action_descriptor` points to: one of the two structures that the parser makes,
-- or nothing.
pub data Content : Type 0 where
  no_content : Content
  output : ActionOutput → Content
  vlan_vid : ActionVlanVid → Content

-- `action_descriptor`; `body` is `data`, an address, and `content` is what stands there.
pub record Action : Type 0 where
  pub type : ℕ
  pub body : ℕ
  pub content : Content

abbrev pub max_handled_flows : ℕ
max_handled_flows = 1024

abbrev pub max_actions : ℕ
max_actions = 4

pub record Flows : Type 0 where
  pub nb_flows : ℕ
  pub flow_stats : Array FlowStats
  pub nb_actions : Array ℕ
  pub actions : Array (Array Action)

-- The inner loop; `left` is `nb_actions[i] - j`, and `freed` the addresses that `free` was called
-- with, the last one first.
unfoldable pub free_actions_loop : (left j : ℕ) → Array Action → List ℕ → Run (List ℕ)
free_actions_loop zero j row freed = ok freed
free_actions_loop (suc left) j row freed =
    let rest = free_actions_loop left (j + 1) row in
    do action ← read max_actions row j; rest (action.body ∷ freed)

-- The outer loop; `left` is `nb_flows - i`.
unfoldable pub free_flows_loop : (left i : ℕ) → Flows → List ℕ → Run (Flows × List ℕ)
unfolding free_actions_loop
free_flows_loop zero i flows freed = ok (flows, freed)
free_flows_loop (suc left) i flows freed =
    let rest = λ (f : Flows) (fr : List ℕ). free_flows_loop left (i + 1) f fr in
    do
      count ← read max_handled_flows flows.nb_actions i
      freed' ← free_actions_loop count 0 (flows.actions i) freed
      counts ← write max_handled_flows flows.nb_actions i 0
      rest (record flows { nb_actions = counts }) freed'

unfoldable pub openflow_free_flows : Flows → List ℕ → Run (Flows × List ℕ)
unfolding free_flows_loop
openflow_free_flows flows freed = do
  (flows', freed') ← free_flows_loop flows.nb_flows 0 flows freed
  ok (record flows' { nb_flows = 0 }, freed')

-- The first `left` addresses of a row from `j` on, in front of others, the last one first.
unfoldable pub row_bodies : (left j : ℕ) → Array Action → List ℕ → List ℕ
row_bodies zero j row freed = freed
row_bodies (suc left) j row freed = row_bodies left (j + 1) row ((row j).body ∷ freed)

-- Those of the rows of the flows from `i` on.
unfoldable pub all_bodies : (left i : ℕ) → Flows → List ℕ → List ℕ
all_bodies zero i flows freed = freed
all_bodies (suc left) i flows freed =
    all_bodies left (i + 1) flows (row_bodies (flows.nb_actions i) 0 (flows.actions i) freed)

pub free_actions_loop-ok :
    (left j : ℕ) (row : Array Action) (freed : List ℕ)
    → j + left ≤ max_actions
    → free_actions_loop left j row freed ≡ ok (row_bodies left j row freed)
unfolding free_actions_loop row_bodies
free_actions_loop-ok zero j row freed fits = refl
free_actions_loop-ok (suc left) j row freed fits =
    rw (read-ok max_actions row j (omega arith))
      (free_actions_loop-ok left (j + 1) row ((row j).body ∷ freed) (omega arith))

free_flows_loop-ok :
    (left i : ℕ) (flows now : Flows) (freed : List ℕ)
    → now.actions ≡ flows.actions
    → ((k : ℕ) → i ≤ k → now.nb_actions k ≡ flows.nb_actions k)
    → ((k : ℕ) → k < i → now.nb_actions k ≡ 0)
    → i + left ≤ max_handled_flows
    → ((k : ℕ) → k < i + left → flows.nb_actions k ≤ max_actions)
    → Returns
        (free_flows_loop left i now freed)
        λ r. ((k : ℕ) → k < i + left → r.0.nb_actions k ≡ 0) × (r.1 ≡ all_bodies left i flows freed)
unfolding free_flows_loop all_bodies
free_flows_loop-ok zero i flows now freed rows later done fits few =
    ((now, freed), refl, (λ k hk. done k (omega arith), refl))
free_flows_loop-ok (suc left) i flows now freed rows later done fits few =
    let count = flows.nb_actions i in
    let here : now.nb_actions i ≡ count = later i (omega arith) in
    let row : now.actions i ≡ flows.actions i = ap (λ (a : Array (Array Action)). a i) rows in
    let bodies = row_bodies count 0 (flows.actions i) freed in
    let cleared = record now { nb_actions = update now.nb_actions i 0 } in
    let small = few i (omega arith) in
    let (r, run, (zeros, list)) =
      free_flows_loop-ok left (i + 1) flows cleared bodies rows
        (λ k hk. let same = later k (omega arith) in ground arith)
        (λ k hk. elim (ℕ_discrete i k) [
          | yes same ↦ ground arith
          | no other ↦ let old = done k (omega arith) in ground arith
        ])
        (omega arith) (λ k hk. few k (omega arith)) in
    (
      r,
      rw
          (
            read-ok max_handled_flows now.nb_actions i (omega arith),
            here,
            row,
            free_actions_loop-ok count 0 (flows.actions i) freed (omega arith),
            write-ok max_handled_flows now.nb_actions i 0 (omega arith),
          )
          run,
      (λ k hk. zeros k (omega arith), list),
    )

-- `openflow_free_flows`, where the flows and the actions of each of them are no more than their
-- arrays hold: it ends normally. It frees each action of each flow once, in their order, and
-- nothing else, and leaves no flow and no action.
pub openflow_free_flows-frees :
    (flows : Flows) (freed : List ℕ)
    → flows.nb_flows ≤ max_handled_flows
    → ((k : ℕ) → k < flows.nb_flows → flows.nb_actions k ≤ max_actions)
    → Returns (openflow_free_flows flows freed) λ r.
      (r.0.nb_flows ≡ 0)
      × ((k : ℕ) → k < flows.nb_flows → r.0.nb_actions k ≡ 0)
      × (r.1 ≡ all_bodies flows.nb_flows 0 flows freed)
unfolding openflow_free_flows
openflow_free_flows-frees flows freed fits few =
    let (r, run, (zeros, list)) =
      free_flows_loop-ok flows.nb_flows 0 flows flows freed refl (λ k hk. refl)
        (λ k hk. absurd (omega arith)) (omega arith) (λ k hk. few k (omega arith)) in
    ((record r.0 { nb_flows = 0 }, r.1), rw run refl, (refl, λ k hk. zeros k (omega arith), list))
