-- ===== src/Openflow/Unknown.antt =====
-- An action of an unknown type in a reply, which `openflow_get_flows` of src/openflow.c counts and
-- `openflow_free_flows` then frees.
use o_rss_nic.Prelude.{
  Array, List, Returns, add-one, ap, arith, false, ltb, ok, refl, suc, true, update, zero, ℕ, ◌%◌,
  ◌+◌, ◌<◌, ◌==◌, ◌^◌, ◌∙◌, ◌∷◌, ◌≡◌, ◌≢◌, ◌≤◌,
}
use o_rss_nic.Words.{ByteOrder, Memory, slice_at}
use o_rss_nic.Openflow.Flows.{
  Action, max_actions, free_actions_loop, row_bodies, free_actions_loop-ok,
}
use o_rss_nic.Openflow.Overrun.{actions_loop-none}
use o_rss_nic.Openflow.Replies.{read_action, actions_loop}
use o_rss_nic.Openflow.Ovs.{ofpat_output, ofpat_set_vlan_vid}

row_bodies_congr :
    (left j : ℕ) (row' row : Array Action) (freed : List ℕ)
    → ((k : ℕ) → k < j + left → (row' k).body ≡ (row k).body)
    → row_bodies left j row' freed ≡ row_bodies left j row freed
unfolding row_bodies
row_bodies_congr zero j row' row freed same = refl
row_bodies_congr (suc left) j row' row freed same =
    rw (same j (omega arith))
      (row_bodies_congr left (j + 1) row' row ((row j).body ∷ freed) (λ k hk. same k (omega arith)))

row_bodies-suc :
    (left j : ℕ) (row : Array Action) (freed : List ℕ)
    → row_bodies (suc left) j row freed ≡ (row (j + left)).body ∷ row_bodies left j row freed
unfolding row_bodies
row_bodies-suc zero j row freed =
    ap (λ (k : ℕ). (row k).body ∷ freed) {x = j} {y = j + zero} (omega arith)
row_bodies-suc (suc left) j row freed =
    row_bodies-suc left (j + 1) row ((row j).body ∷ freed)
    ∙ ap (λ (k : ℕ). (row k).body ∷ row_bodies (suc left) j row freed) {x = j + 1 + left}
        {y = j + suc left} (omega arith)

module _ (order : ByteOrder) (memory : Memory) where
  -- The inner loop of `openflow_get_flows`, at an action of a type that is none of the two known
  -- ones, where there is a place left: it ends normally. It counts the action and asks `malloc` for
  -- nothing, and the place keeps the address that it had. `openflow_free_flows` then frees this
  -- address, after those of the places before it.
  pub actions_loop-unknown :
      (left : ℕ) (bytes b : List ℕ) (head actions_end count fresh : ℕ) (row : Array Action)
      → head < actions_end
      → count + suc left ≤ max_actions
      → slice_at bytes head 2 ≡ ok b
      → order.ntohs (memory.word16 b) ≢ ofpat_output
      → order.ntohs (memory.word16 b) ≢ ofpat_set_vlan_vid
      → Returns (actions_loop order memory (suc left) bytes head actions_end count fresh row) λ r.
        (r.1 ≡ count + 1)
        × (r.2 ≡ fresh)
        × ((freed : List ℕ)
            → free_actions_loop r.1 0 r.0 freed
              ≡ ok ((row count).body ∷ row_bodies count 0 row freed))
  unfolding actions_loop read_action
  actions_loop-unknown left bytes b head actions_end count fresh row more room found no_output
        no_vlan =
      let type = order.ntohs (memory.word16 b) in
      let row' = update row count (record (row count) { type = type }) in
      let test : ltb head actions_end ≡ true = ground arith in
      let not_output : (type == ofpat_output) ≡ false = ground arith in
      let not_vlan : (type == ofpat_set_vlan_vid) ≡ false = ground arith in
      let counted : (count + 1) % 2 ^ 8 ≡ count + 1 = omega arith in
      let kept : (row' (0 + count)).body ≡ (row count).body =
        ap (λ (k : ℕ). (row' k).body) {x = 0 + count} {y = count} (omega arith) ∙ ground arith in
      let ends =
        actions_loop-none order memory left bytes actions_end actions_end (count + 1) fresh row'
          (omega arith) in
      (
        (row', count + 1, fresh),
        rw (test, found, not_output, not_vlan, counted, ends) refl,
        (
          refl,
          refl,
          λ freed. rw (add-one count) (
              free_actions_loop-ok (suc count) 0 row' freed (omega arith)
              ∙ ap ok (
                  row_bodies-suc count 0 row' freed
                  ∙ rw kept (
                      ap (λ (l : List ℕ). (row count).body ∷ l)
                        (row_bodies_congr count 0 row' row freed (λ k hk. ground arith))))),
        ),
      )
