-- ===== src/HashMap/Changes.antt =====
-- What each call of src/hashmap.c does to the finite map that the table holds.
use o_rss_nic.Prelude.{
  Bool-cases, Option-cases, Returns, ap, arith, false, if◌then◌else◌, inl, inr, none, refl, some,
  sym, ℕ, ℕ_discrete, ◌+◌, ◌-◌, ◌<◌, ◌==◌, ◌∙◌, ◌≡◌, ◌≢◌, ◌≤◌,
}
use o_rss_nic.FiveTuple.{FiveTuple, five_tuple_equals, five_tuple_equals_iff}
use o_rss_nic.RingBuffer.{RingBuffer}
use o_rss_nic.Heap.{Heap}
use o_rss_nic.HashMap.{HashMap, hashmap_size}
use o_rss_nic.HashMap.Lookup.{IsValid, view, get-view}
use o_rss_nic.HashMap.Ownership.{IsOwned, view-live, remove-Removes}
use o_rss_nic.HashMap.ByKey.{IsOwned-OwnsByKey}
use o_rss_nic.HashMap.Fresh.{new-fresh}
use o_rss_nic.HashMap.Cleanup.{keep, cleanup_inactive_flows-Cleans, kept}
use o_rss_nic.HashMap.Writing.{stored, stored-IsOwned, store-ok}
use o_rss_nic.HashMap.Contents.{
  Contents, contents, calls_new, calls_remove, calls_cleanup, writes, perform, change,
}

-- A table and its ring buffers that hold the map `s`, with the size at most `bound`.
pub record Holds (s : Contents) (bound : ℕ) (r : HashMap × Heap) : Type 0 where
  pub valid : IsValid r.0
  pub owned : IsOwned r.0 r.1
  pub holds : (q : FiveTuple) → contents r.0 r.1 q ≡ s q
  pub size : r.0.size ≤ bound

pub contents-none :
    (m : HashMap) (h : Heap) (q : FiveTuple) → view m q ≡ none → contents m h q ≡ none
unfolding contents
contents-none m h q e = rw (contents, e) refl

pub contents-some :
    (m : HashMap) (h : Heap) (q : FiveTuple) (p : ℕ) → view m q ≡ some p → contents m h q ≡ h.cell p
unfolding contents
contents-some m h q p e = rw (contents, e) refl

pub absent-view :
    {m : HashMap} {h : Heap} (q : FiveTuple) → IsOwned m h → contents m h q ≡ none → view m q ≡ none
absent-view {m} {h} q own gone = elim (Option-cases (view m q)) [
  | inl e ↦ e
  | inr (p, e) ↦
      let (rb, here) = view-live q own e in
      let at_p = contents-some m h q p e in absurd (ground (arith, gone, here, at_p))
]

module _ {m : HashMap} {h : Heap} (valid : IsValid m) (owned : IsOwned m h) where
  -- Each operation, on the map that the table holds.
  pub new-Holds :
      (key : FiveTuple)
      → contents m h key ≡ none
      → m.size < hashmap_size
      → Returns
          (perform (calls_new key) m h)
          (Holds (change (calls_new key) (contents m h)) (m.size + 1))
  unfolding perform change
  new-Holds key absent room =
      let (r, run, (valid', owned', reads, cells, fresh, size)) =
        new-fresh key valid owned (absent-view key owned absent) room in
      (
        (r.1, r.2),
        rw run refl,
        record {
          valid = valid';
          owned = owned';
          holds = λ q. elim (Bool-cases (five_tuple_equals key q)) [
            | inl same ↦
                rw same
                  (contents-some r.1 r.2 q r.0 (reads q ∙ rw same refl) ∙ cells r.0 ∙ ground arith)
            | inr other ↦ rw other (elim (Option-cases (view m q)) [
              | inl e ↦ contents-none r.1 r.2 q (reads q ∙ rw other e) ∙ sym (contents-none m h q e)
              | inr (p, e) ↦
                  let (rb, here) = view-live q owned e in
                  contents-some r.1 r.2 q p (reads q ∙ rw other e)
                  ∙ cells p
                  ∙ ground (arith, here, fresh)
                  ∙ sym (contents-some m h q p e)
            ])
          ];
          size = omega (arith, size);
        },
      )

  pub remove-Holds :
      (key : FiveTuple)
      → Returns
          (perform (calls_remove key) m h)
          (Holds (change (calls_remove key) (contents m h)) m.size)
  unfolding perform change
  remove-Holds key =
      let (r, run, removed) = remove-Removes key valid owned in
      (
        r,
        run,
        record {
          valid = removed.valid;
          owned = removed.owned;
          holds = λ q. elim (Bool-cases (five_tuple_equals key q)) [
            | inl same ↦ rw same (contents-none r.0 r.1 q (removed.reads q ∙ rw same refl))
            | inr other ↦ rw other (elim (Option-cases (view m q)) [
              | inl e ↦
                  contents-none r.0 r.1 q (removed.reads q ∙ rw other e)
                  ∙ sym (contents-none m h q e)
              | inr (p, e) ↦
                  contents-some r.0 r.1 q p (removed.reads q ∙ rw other e)
                  ∙ removed.cells p
                  ∙ kept_cell q p other e
                  ∙ sym (contents-some m h q p e)
            ])
          ];
          size = elim (Option-cases (view m key)) [
            | inl e ↦ let same : r.0.size ≡ m.size = removed.size ∙ rw e refl in omega (arith, same)
            | inr (p, e) ↦
                let less : r.0.size ≡ m.size - 1 = removed.size ∙ rw e refl in omega (arith, less)
          ];
        },
      )
    where
      kept_cell :
          (q : FiveTuple) (p : ℕ)
          → five_tuple_equals key q ≡ false
          → view m q ≡ some p
          → elim (view m key) [ none ↦ h.cell p | some gone ↦ if gone == p then none else h.cell p ]
            ≡ h.cell p
      kept_cell q p other e = elim (Option-cases (view m key)) [
        | inl e' ↦ rw e' refl
        | inr (gone, e') ↦ rw e' (elim (ℕ_discrete gone p) [
          | yes at ↦
              let one = (IsOwned-OwnsByKey valid owned).apart key q p (e' ∙ ap some at) e in
              let equal = (five_tuple_equals_iff key q).1 one in absurd (cc)
          | no apart ↦ ground arith
        ])
      ]

  pub cleanup-Holds :
      Returns (perform calls_cleanup m h) (Holds (change calls_cleanup (contents m h)) m.size)
  unfolding perform change
  cleanup-Holds =
      let (r, run, cleaned) = cleanup_inactive_flows-Cleans valid owned in
      (
        r,
        run,
        record {
          valid = cleaned.valid;
          owned = cleaned.owned;
          holds = λ q. elim (Option-cases (view m q)) [
            | inl e ↦
                contents-none r.0 r.1 q (cleaned.reads q ∙ rw e refl)
                ∙ sym (ap keep (contents-none m h q e))
            | inr (p, e) ↦
                let (rb, here) = view-live q owned e in
                elim (Option-cases (keep (h.cell p))) [
                  | inl idle ↦
                      contents-none r.0 r.1 q (cleaned.reads q ∙ rw (e, kept, idle) refl)
                      ∙ sym (ap keep (contents-some m h q p e) ∙ idle)
                  | inr (kept_rb, active) ↦
                      contents-some r.0 r.1 q p (cleaned.reads q ∙ rw (e, kept, active) refl)
                      ∙ cleaned.cells p
                      ∙ sym (ap keep (contents-some m h q p e))
                ]
          ];
          size = cleaned.shrinks;
        },
      )

  pub write-Holds :
      (key : FiveTuple) (rb old : RingBuffer)
      → contents m h key ≡ some old
      → Returns (perform (writes key rb) m h) (Holds (change (writes key rb) (contents m h)) m.size)
  unfolding perform change
  write-Holds key rb old there = elim (Option-cases (view m key)) [
    | inl e ↦ let gone = contents-none m h key e in absurd (cc)
    | inr (p, e) ↦
        let here : h.cell p ≡ some old = sym (contents-some m h key p e) ∙ there in
        (
          (m, stored h p rb),
          rw (get-view key valid, e, store-ok h p here rb) refl,
          record {
            valid = valid;
            owned = stored-IsOwned h p here rb owned;
            holds = λ q. elim (Bool-cases (five_tuple_equals key q)) [
              | inl same ↦
                  let at_q : view m q ≡ some p =
                    ap (view m) (sym ((five_tuple_equals_iff key q).0 same)) ∙ e in
                  rw same (contents-some m (stored h p rb) q p at_q ∙ ground arith)
              | inr other ↦ rw other (elim (Option-cases (view m q)) [
                | inl e' ↦ contents-none m (stored h p rb) q e' ∙ sym (contents-none m h q e')
                | inr (p', e') ↦
                    let apart : p ≢ p' = λ at.
                      let one =
                        (IsOwned-OwnsByKey valid owned).apart key q p' (e ∙ ap some at) e' in
                      let equal = (five_tuple_equals_iff key q).1 one in cc in
                    contents-some m (stored h p rb) q p' e'
                    ∙ ground arith
                    ∙ sym (contents-some m h q p' e')
              ])
            ];
            size = omega arith;
          },
        )
  ]
