-- ===== src/Openflow/Tally.antt =====
-- How many actions `openflow_get_flows` of src/openflow.c puts into each place, and how many
-- `openflow_free_flows` frees.
use o_rss_nic.Prelude.{
  Array, List, [], ap, arith, dec_lt, drop, length, length-append, refl, suc, sym, take, zero, ℕ,
  ◌++◌, ◌+◌, ◌<◌, ◌∙◌, ◌∷◌, ◌≡◌, ◌≤◌,
}
use o_rss_nic.Words.{ByteOrder, Memory}
use o_rss_nic.Openflow.Actions.{actions_of}
use o_rss_nic.Openflow.Buffer.{length-slice}
use o_rss_nic.Openflow.Counts.{Reads, length-actions_of}
use o_rss_nic.Openflow.Entries.{
  Entry, reports_from, reports, reports_after, fresh_after, SameFrom, Report, report_at, stats_of,
}
use o_rss_nic.Openflow.Flows.{Action, Flows, row_bodies, all_bodies}
use o_rss_nic.Openflow.Ovs.{Layout}

-- The actions of all entries, and those of the entry `k`.
abbrev pub count_actions : List Entry → ℕ
count_actions [] = 0
count_actions (e ∷ entries) = length e.actions + count_actions entries

abbrev pub count_at : List Entry → ℕ → ℕ
count_at [] k = 0
count_at (e ∷ entries) zero = length e.actions
count_at (e ∷ entries) (suc k) = count_at entries k

pub fresh_after-count :
    (fresh : ℕ) (entries : List Entry) → fresh_after fresh entries ≡ fresh + count_actions entries
fresh_after-count fresh [] = omega arith
fresh_after-count fresh (e ∷ entries) =
    omega (arith, fresh_after-count (fresh + length e.actions) entries)

-- The actions that the places from `i` on have.
pub rows_total : (left i : ℕ) → Flows → ℕ
rows_total zero i flows = 0
rows_total (suc left) i flows = flows.nb_actions i + rows_total left (i + 1) flows

length-row_bodies :
    (left j : ℕ) (row : Array Action) (freed : List ℕ)
    → length (row_bodies left j row freed) ≡ left + length freed
unfolding row_bodies
length-row_bodies zero j row freed = omega arith
length-row_bodies (suc left) j row freed =
    omega (arith, length-row_bodies left (j + 1) row ((row j).body ∷ freed))

pub length-all_bodies :
    (left i : ℕ) (flows : Flows) (freed : List ℕ)
    → length (all_bodies left i flows freed) ≡ rows_total left i flows + length freed
unfolding all_bodies rows_total
length-all_bodies zero i flows freed = omega arith
length-all_bodies (suc left) i flows freed = omega (
  arith,
  length-all_bodies left (i + 1) flows (row_bodies (flows.nb_actions i) 0 (flows.actions i) freed),
  length-row_bodies (flows.nb_actions i) 0 (flows.actions i) freed,
)

tail_of : List Entry → List Entry
tail_of [] = []
tail_of (e ∷ entries) = entries

count_at-suc :
    (entries : List Entry) (k : ℕ) → count_at entries (suc k) ≡ count_at (tail_of entries) k
unfolding tail_of
count_at-suc [] k = refl
count_at-suc (e ∷ entries) k = refl

count_actions-take :
    (n : ℕ) (entries : List Entry)
    → count_actions (take (suc n) entries)
      ≡ count_at entries 0 + count_actions (take n (tail_of entries))
unfolding tail_of
count_actions-take zero [] = refl
count_actions-take (suc n) [] = refl
count_actions-take n (e ∷ entries) = refl

-- The actions of the places, where each has those of two replies.
pub rows_total-two :
    (left i : ℕ) (flows : Flows) (first second : List Entry)
    → ((k : ℕ) → k < left → flows.nb_actions (i + k) ≡ count_at first k + count_at second k)
    → rows_total left i flows ≡ count_actions (take left first) + count_actions (take left second)
unfolding rows_total
rows_total-two zero i flows first second counts = refl
rows_total-two (suc left) i flows first second counts =
    let here : flows.nb_actions i ≡ count_at first 0 + count_at second 0 =
      ap flows.nb_actions {x = i} {y = i + 0} (omega arith) ∙ counts 0 (omega arith) in
    let rest = rows_total-two left (i + 1) flows (tail_of first) (tail_of second) (λ k hk.
      ap flows.nb_actions {x = i + 1 + k} {y = i + suc k} (omega arith)
      ∙ counts (suc k) (omega arith)
      ∙ omega (arith, count_at-suc first k, count_at-suc second k)) in
    omega (arith, here, rest, count_actions-take left first, count_actions-take left second)

pub count_actions-append_drop :
    (n : ℕ) (entries : List Entry)
    → count_actions (take n entries) + count_actions (drop n entries) ≡ count_actions entries
count_actions-append_drop zero entries = omega arith
count_actions-append_drop (suc n) [] = refl
count_actions-append_drop (suc n) (e ∷ entries) = omega (arith, count_actions-append_drop n entries)

pub count_at-behind : (entries : List Entry) (k : ℕ) → length entries ≤ k → count_at entries k ≡ 0
count_at-behind [] k behind = refl
count_at-behind (e ∷ entries) zero behind = absurd (omega arith)
count_at-behind (e ∷ entries) (suc k) behind = count_at-behind entries k (omega arith)

module _ (order : ByteOrder) (memory : Memory) (layout : Layout) where
  reports-count :
      (i fresh : ℕ) (r flows : Flows) (entries : List Entry)
      → reports_from (length entries) i r ≡ reports_after order memory layout i flows fresh entries
      → (k : ℕ) → k < length entries
      → r.nb_actions (i + k) ≡ flows.nb_actions (i + k) + count_at entries k
  reports-count i fresh r flows [] same k hk = absurd (omega arith)
  reports-count i fresh r flows (e ∷ entries) same zero hk =
      let old = report_at flows i in
      let new = actions_of order memory fresh e.actions in
      let heads : report_at r i
          ≡ record { stats = stats_of order memory layout e; actions = old.actions ++ new } =
        cc in
      let at : i + 0 ≡ i = omega arith in
      rw at (
        omega (
          arith,
          ap (λ (x : Report). length x.actions) heads,
          length-append old.actions new,
          length-slice (r.nb_actions i) 0 (r.actions i),
          length-slice (flows.nb_actions i) 0 (flows.actions i),
          length-actions_of order memory layout fresh e.actions,
        ))
  reports-count i fresh r flows (e ∷ entries) same (suc k) hk =
      let tails : reports_from (length entries) (i + 1) r
          ≡ reports_after order memory layout (i + 1) flows (fresh + length e.actions) entries =
        cc in
      let at : i + suc k ≡ i + 1 + k = omega arith in
      rw at (reports-count (i + 1) (fresh + length e.actions) r flows entries tails k (omega arith))

  pub Reads-count :
      (fresh : ℕ) (flows r : Flows) (entries : List Entry)
      → Reads order memory layout flows fresh entries r
      → (k : ℕ) → r.nb_actions k ≡ flows.nb_actions k + count_at entries k
  unfolding reports SameFrom
  Reads-count fresh flows r entries reads k = elim (dec_lt k (length entries)) [
    | yes here ↦
        let at : 0 + k ≡ k = omega arith in
        rw at at (
          reports-count 0 fresh r flows entries
            (ap (λ (n : ℕ). reports_from n 0 r) (sym reads.number) ∙ reads.listed) k here)
    | no behind ↦
        let number = reads.number in
        omega (arith, (reads.kept k (omega arith)).0, count_at-behind entries k (omega arith))
  ]
