-- ===== src/Balancer/Split.antt =====
-- The cores of src/balancer.c when the flows of the table are split over them.
use o_rss_nic.Prelude.{
  Array, Returns, ap, arith, read-ok, refl, update, update-cases, write-ok, ℕ, ◌<◌, ◌∙◌, ◌≡◌, ◌≢◌,
  ◌≤◌,
}
use o_rss_nic.Heap.{Heap}
use o_rss_nic.HashMap.{HashMap, hashmap_size}
use o_rss_nic.Balancer.{CoreLoad, refresh}
use o_rss_nic.Balancer.Info.{IsLoaded, IsInformed, HasRings, sum_below, update_core_info-IsInformed}
use o_rss_nic.Balancer.Cores.{IsStocked, term-le-sum_below, sum_below_congr}

-- The flows of all the cores.
abbrev pub all_flows : ℕ → Array CoreLoad → ℕ
all_flows n cores = sum_below (λ i. (cores i).nb_flows) n

-- The cores as the balancer keeps them: each has its own flows, and no more of them in all than
-- there are slots in the table.
pub record IsSplit (n : ℕ) (m : HashMap) (h : Heap) (cores : Array CoreLoad) : Type 0 where
  pub rings : HasRings h
  pub few : all_flows n cores ≤ hashmap_size
  pub stocked : (i : ℕ) → i < n → IsStocked m h i (cores i)

pub IsStocked-IsLoaded :
    {m : HashMap} {h : Heap} {i : ℕ} {core : CoreLoad}
    → IsStocked m h i core
    → core.nb_flows ≤ hashmap_size
    → IsLoaded core h
IsStocked-IsLoaded s fits = record {
  fits = fits;
  live = λ j hj. let (rb, here, _) = s.assigned j hj in (rb, here);
}

pub IsSplit-IsLoaded :
    {n : ℕ} {m : HashMap} {h : Heap} {cores : Array CoreLoad} (i : ℕ)
    → IsSplit n m h cores
    → i < n
    → IsLoaded (cores i) h
IsSplit-IsLoaded {n} {m} {h} {cores} i s hi =
    IsStocked-IsLoaded (s.stocked i hi)
      (omega (arith, term-le-sum_below (λ k. (cores k).nb_flows) i n hi, s.few))

-- A core with the same flows under other figures.
pub IsStocked-same :
    {m : HashMap} {h : Heap} {i : ℕ} {core c : CoreLoad}
    → c.core_idx ≡ core.core_idx
    → c.nb_flows ≡ core.nb_flows
    → c.flows ≡ core.flows
    → c.flow_keys ≡ core.flow_keys
    → IsStocked m h i core
    → IsStocked m h i c
IsStocked-same {m} {h} {i} {core} {c} ei en ef ek s = record {
  named = ei ∙ s.named;
  assigned = λ j hj. rw ef (s.assigned j (omega arith));
  keyed = λ j hj. rw (ef, ek) (s.keyed j (omega arith));
  apart = λ j k hj hk e. s.apart j k (omega arith) (omega arith) (rw (← ef) e);
}

-- What `refresh` does at the index `i`.
pub refresh-IsSplit :
    {n : ℕ} {m : HashMap} {h : Heap} {cores : Array CoreLoad} (i : ℕ)
    → IsSplit n m h cores
    → i < n
    → Returns (refresh n i cores h) λ r.
      IsSplit n m h r
      × IsInformed h (r i)
      × ((k : ℕ) → k ≢ i → r k ≡ cores k)
      × ((k : ℕ) → (r k).nb_flows ≡ (cores k).nb_flows)
unfolding refresh
refresh-IsSplit {n} {m} {h} {cores} i s hi =
    let (c, run, (inf, ei, en, ef, ek)) =
      update_core_info-IsInformed s.rings (IsSplit-IsLoaded i s hi) in
    let counted : (k : ℕ) → (update cores i c k).nb_flows ≡ (cores k).nb_flows =
      λ k. ground (arith, en, ap (λ x. (cores x).nb_flows) {x = i} {y = k}) in
    (
      update cores i c,
      rw (read-ok n cores i hi, run, write-ok n cores i c hi),
      (
        record {
          rings = s.rings;
          few = omega (
            arith,
            sum_below_congr (λ k. (cores k).nb_flows) (λ k. (update cores i c k).nb_flows) n
                (λ k hk. counted k),
            s.few,
          );
          stocked = λ k hk.
              update-cases (IsStocked m h) cores i c k (IsStocked-same ei en ef ek (s.stocked i hi))
                (λ ne. s.stocked k hk);
        },
        update-cases (λ k x. IsInformed h x) cores i c i inf (λ ne. absurd (ne refl)),
        λ k ne. ground arith,
        counted,
      ),
    )
