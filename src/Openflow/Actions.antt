-- ===== src/Openflow/Actions.antt =====
-- The actions of a flow, as the inner loop of `openflow_get_flows` in src/openflow.c reads them.
use o_rss_nic.Prelude.{
  All, Array, List, Returns, [], arith, concat, drop, fault, if◌then◌else◌, inl, inr, length,
  length-append, ltb, ok, out_of_bounds, refl, suc, sym, take, true, update, zero, ℕ, ◌%◌, ◌*◌,
  ◌++◌, ◌+◌, ◌<◌, ◌==◌, ◌^◌, ◌∙◌, ◌∷◌, ◌≡◌, ◌≤◌, ◌⊎◌,
}
use o_rss_nic.Words.{ByteOrder, Memory, slice_at-append, slice_at-part}
use o_rss_nic.Openflow.Convert.{ntoh_openflow_action_output, ntoh_openflow_action_vlan_vid}
use o_rss_nic.Openflow.Flows.{Action, Content, max_actions}
use o_rss_nic.Openflow.Replies.{read_action, actions_loop}
use o_rss_nic.Openflow.Ovs.{sizeof_action}
use mathlib.Core.List.{append_assoc}
use o_rss_nic.Openflow.Buffer.{slice, slice-suc}

module _ (order : ByteOrder) (memory : Memory) where
  -- The word of 16 bits that stands at an offset, in host order.
  abbrev pub short_at : (offset : ℕ) → List ℕ → ℕ
  short_at offset a = order.ntohs (memory.word16 (take 2 (drop offset a)))

  abbrev pub type_of : List ℕ → ℕ
  type_of a = short_at 0 a

  -- Eight bytes that hold an action of one of the two types, `OFPAT_OUTPUT` and
  -- `OFPAT_SET_VLAN_VID`.
  pub record IsAction (a : List ℕ) : Type 0 where
    pub size : length a ≡ 8
    pub kind : (type_of a ≡ 0) ⊎ (type_of a ≡ 1)

  -- What they say, in host order: type, length, port and number of bytes to send, or type, length
  -- and VLAN.
  abbrev pub content_of : List ℕ → Content
  content_of a =
      if type_of a == 0
      then Content.output (record {
        type = short_at 0 a;
        len = short_at 2 a;
        port = short_at 4 a;
        max_len = short_at 6 a;
      })
      else Content.vlan_vid
          (record { type = short_at 0 a; len = short_at 2 a; vlan_vid = short_at 4 a })

  abbrev pub action_of : (fresh : ℕ) → List ℕ → Action
  action_of fresh a = record { type = type_of a; body = fresh; content = content_of a }

  -- The actions of a flow, at one address after the other.
  abbrev pub actions_of : (fresh : ℕ) → List (List ℕ) → List Action
  actions_of fresh [] = []
  actions_of fresh (a ∷ actions) = action_of fresh a ∷ actions_of (fresh + 1) actions

  read_action-reads :
      (before a after : List ℕ) (head actions_end fresh : ℕ) (old : Action)
      → head ≡ length before
      → IsAction a
      → read_action order memory (before ++ (a ++ after)) head actions_end fresh old
        ≡ ok (action_of fresh a, head + sizeof_action, fresh + 1)
  unfolding read_action ntoh_openflow_action_output ntoh_openflow_action_vlan_vid
  read_action-reads before a after head actions_end fresh old at known =
      let size = known.size in
      let kind = known.kind in
      let bytes = before ++ (a ++ after) in
      let start = slice_at-part before a after head 2 at (omega arith) in
      let whole = slice_at-append before a after head sizeof_action at (sym size) in
      rw (start, whole) (elim kind [ inl e ↦ rw e refl | inr e ↦ rw e refl ])

  -- The actions stand one after the other, and there are as many places as actions or more.
  pub actions_loop-reads :
      (left : ℕ) (before after : List ℕ) (actions : List (List ℕ))
      (head actions_end count fresh : ℕ) (row : Array Action)
      → head ≡ length before
      → actions_end ≡ head + sizeof_action * length actions
      → length actions ≤ left
      → count + left ≤ max_actions
      → All IsAction actions
      → Returns
          (actions_loop order memory left
            (before ++ (concat actions ++ after))
            head
            actions_end
            count
            fresh
            row)
          λ r.
            (slice (length actions) count r.0 ≡ actions_of fresh actions)
            × ((j : ℕ) → j < count → r.0 j ≡ row j)
            × (r.1 ≡ count + length actions)
            × (r.2 ≡ fresh + length actions)
  unfolding actions_loop slice
  actions_loop-reads zero before after [] head actions_end count fresh row at end room few known =
      ((row, count, fresh), ground arith, (refl, λ j hj. refl, omega arith, omega arith))
  actions_loop-reads (suc left) before after [] head actions_end count fresh row at end room few
        known =
      ((row, count, fresh), ground arith, (refl, λ j hj. refl, omega arith, omega arith))
  actions_loop-reads zero before after (a ∷ actions) head actions_end count fresh row at end room
        few known =
      absurd (omega arith)
  actions_loop-reads (suc left) before after (a ∷ actions) head actions_end count fresh row at end
        room few (here, known) =
      let more : ltb head actions_end ≡ true = ground arith in
      let size = here.size in
      let next_count = (count + 1) % 2 ^ 8 in
      let count' : next_count ≡ count + 1 = omega arith in
      let row' = update row count (action_of fresh a) in
      let tail = concat actions ++ after in
      let (r, run, (listed, kept, number, next)) =
        actions_loop-reads left (before ++ a) after actions (head + sizeof_action) actions_end
          next_count (fresh + 1) row' (omega (arith, length-append before a)) (omega arith)
          (omega arith) (omega arith) known in
      let first : r.0 count ≡ action_of fresh a = kept count (omega arith) ∙ ground arith in
      (
        r,
        rw
            (
              append_assoc a (concat actions) after,
              more,
              read_action-reads before a tail head actions_end fresh (row count) at here,
              sym (append_assoc before a tail),
            )
            run,
        (
          slice-suc (length actions) count next_count r.0 count' first listed,
          λ j hj. kept j (omega arith) ∙ ground arith,
          omega arith,
          omega arith,
        ),
      )

  -- There are fewer places than actions.
  pub actions_loop-overflows :
      (left : ℕ) (before after : List ℕ) (actions : List (List ℕ))
      (head actions_end count fresh : ℕ) (row : Array Action)
      → head ≡ length before
      → actions_end ≡ head + sizeof_action * length actions
      → left < length actions
      → All IsAction actions
      → actions_loop order memory left
          (before ++ (concat actions ++ after))
          head
          actions_end
          count
          fresh
          row
        ≡ fault out_of_bounds
  unfolding actions_loop
  actions_loop-overflows left before after [] head actions_end count fresh row at end few known =
      absurd (omega arith)
  actions_loop-overflows zero before after (a ∷ actions) head actions_end count fresh row at end few
        known =
      ground arith
  actions_loop-overflows (suc left) before after (a ∷ actions) head actions_end count fresh row at
        end few (here, known) =
      let more : ltb head actions_end ≡ true = ground arith in
      let size = here.size in
      let tail = concat actions ++ after in
      let row' = update row count (action_of fresh a) in
      rw
        (
          append_assoc a (concat actions) after,
          more,
          read_action-reads before a tail head actions_end fresh (row count) at here,
          sym (append_assoc before a tail),
        )
        (actions_loop-overflows left (before ++ a) after actions (head + sizeof_action) actions_end
          ((count + 1) % 2 ^ 8) (fresh + 1) row' (omega (arith, length-append before a))
          (omega arith) (omega arith) known)
