-- ===== src/HashMap/ByKey.antt =====
-- The ownership of blocks in src/hashmap.c, told of keys in place of slots.
use o_rss_nic.Prelude.{ap, none, refl, some, sym, ℕ, ◌<◌, ◌∙◌, ◌≡◌, ◌≤◌}
use o_rss_nic.FiveTuple.{FiveTuple}
use o_rss_nic.RingBuffer.{RingBuffer}
use o_rss_nic.Heap.{Heap, null}
use o_rss_nic.HashMap.{HashMap}
use o_rss_nic.HashMap.Lookup.{IsValid, view, slot_of-some, view-some, view-eq}
use o_rss_nic.HashMap.Ownership.{IsOwned, view-live}

-- The same ownership, told of keys.
pub record OwnsByKey (m : HashMap) (h : Heap) : Type 0 where
  pub live : (q : FiveTuple) (p : ℕ) → view m q ≡ some p → (rb : RingBuffer) × (h.cell p ≡ some rb)
  pub apart : (q q' : FiveTuple) (p : ℕ) → view m q ≡ some p → view m q' ≡ some p → q ≡ q'
  pub held : (p : ℕ) (rb : RingBuffer) → h.cell p ≡ some rb → (q : FiveTuple) × (view m q ≡ some p)
  pub unused : (p : ℕ) → h.next ≤ p → h.cell p ≡ none
  pub no_null : h.cell null ≡ none
  pub started : 0 < h.next

pub IsOwned-OwnsByKey : {m : HashMap} {h : Heap} → IsValid m → IsOwned m h → OwnsByKey m h
IsOwned-OwnsByKey {m} {h} v own = record {
  live = λ q p e. view-live q own e;
  apart = λ q q' p e e'.
      let (i, slot, same) = view-some m q e in
      let (j, slot', same') = view-some m q' e' in
      let (hi, used, key) = slot_of-some m q slot in
      let (hj, used', key') = slot_of-some m q' slot' in
      let one = own.apart i j hi hj used used' (same ∙ sym same') in
      sym key ∙ ap (λ k. (m.map k).key) one ∙ key';
  held = λ p rb e.
      let (i, hi, used, same) = own.held p rb e in
      ((m.map i).key, view-eq (m.map i).key i v hi used refl ∙ ap some same);
  unused = own.unused;
  no_null = own.no_null;
  started = own.started;
}

pub OwnsByKey-IsOwned : {m : HashMap} {h : Heap} → IsValid m → OwnsByKey m h → IsOwned m h
OwnsByKey-IsOwned {m} {h} v own = record {
  live =
      λ i hi used. own.live (m.map i).key (m.map i).value (view-eq (m.map i).key i v hi used refl);
  apart = λ i j hi hj ui uj same. v.distinct i j hi hj ui uj (
      own.apart (m.map i).key (m.map j).key (m.map i).value (view-eq (m.map i).key i v hi ui refl)
        (view-eq (m.map j).key j v hj uj refl ∙ ap some (sym same)));
  held = λ p rb e.
      let (q, there) = own.held p rb e in
      let (i, slot, same) = view-some m q there in
      let (hi, used, _) = slot_of-some m q slot in (i, hi, used, same);
  unused = own.unused;
  no_null = own.no_null;
  started = own.started;
}
