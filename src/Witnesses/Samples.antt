-- ===== src/Witnesses/Samples.antt =====
-- A table whose first slots hold flows, as src/main.c leaves it behind.
use o_rss_nic.Prelude.{
  ap, arith, if◌then◌else◌, ltb, min, none, refl, some, subst, suc, true, zero, ℕ, ◌&&◌, ◌+◌, ◌-◌,
  ◌<◌, ◌==◌, ◌∙◌, ◌≡◌, ◌≤◌,
}
use o_rss_nic.FiveTuple.{FiveTuple, zero_tuple}
use o_rss_nic.RingBuffer.{RingBuffer}
use o_rss_nic.RingBuffer.Bounds as Bounds
use o_rss_nic.Heap.{Heap}
use o_rss_nic.HashMap.{HashMap, Slot, hashmap_size, empty_slot}
use o_rss_nic.HashMap.Scan.{count_valid}
use o_rss_nic.HashMap.Lookup.{IsValid, view, view-eq_none}
use o_rss_nic.HashMap.Ownership.{IsOwned}
use o_rss_nic.HashMap.Dense.{IsDense}
use o_rss_nic.Balancer.Info.{HasRings}
use o_rss_nic.Balancer.Repartition.{IsReady}

-- The flow of slot `i`.
abbrev pub flow_key : ℕ → FiveTuple
flow_key i = record { src_ip = 10; dst_ip = 20; src_port = i; dst_port = 80; proto = 6 }

abbrev pub flow_slot : ℕ → Slot
flow_slot i = record { valid = true; key = flow_key i; value = i + 1 }

abbrev pub table : ℕ → HashMap
table n = record { map = λ i. if ltb i n then flow_slot i else empty_slot; size = n }

-- A ring with one count in it, on core 0.
abbrev pub ring : RingBuffer
ring = record {
  assigned_core = 0;
  pos = 1;
  size = 1;
  buffer = λ i. if i == 1 then 5 else 0;
  is_active = true;
}

abbrev pub heap : ℕ → Heap
heap n = record { next = n + 1; cell = λ p. if ltb 0 p && ltb p (n + 1) then some ring else none }

count_valid-table : (n left i : ℕ) → count_valid (table n).map left i ≡ min (n - i) left
unfolding count_valid
count_valid-table n zero i = omega arith
count_valid-table n (suc left) i = ground (arith, count_valid-table n left (i + 1))

used : (n i : ℕ) → ((table n).map i).valid ≡ true → i < n
used n i h = ground arith

pub table-IsValid : (n : ℕ) → n ≤ hashmap_size → IsValid (table n)
table-IsValid n few = record {
  counted = count_valid-table n hashmap_size 0 ∙ omega arith;
  distinct = λ i j hi hj vi vj same.
      let a = used n i vi in
      let b = used n j vj in let ports = ap (λ (k : FiveTuple). k.src_port) same in ground arith;
}

pub table-IsDense : (n : ℕ) → n ≤ hashmap_size → IsDense (table n)
table-IsDense n few = (few, λ i hi. ground arith)

pub table-IsOwned : (n : ℕ) → n ≤ hashmap_size → IsOwned (table n) (heap n)
table-IsOwned n few = record {
  live = λ i hi vi. let a = used n i vi in (ring, ground arith);
  apart = λ i j hi hj vi vj same. let a = used n i vi in let b = used n j vj in ground arith;
  held = λ p rb here. held_by p rb here;
  unused = λ p hp. ground arith;
  no_null = refl;
  started = omega arith;
}
  where
    held_by :
        (p : ℕ) (rb : RingBuffer)
        → (heap n).cell p ≡ some rb
        → (i : ℕ) × (i < hashmap_size)
          × (((table n).map i).valid ≡ true)
          × (((table n).map i).value ≡ p)
    held_by zero rb here = absurd (ground arith)
    held_by (suc p) rb here =
        let small : p < n = ground arith in (p, omega arith, ground arith, ground arith)

ring-IsValid : Bounds.IsValid ring
ring-IsValid = record { place = omega arith; filled = omega arith; words = λ i. ground arith }

heap-ring : (n p : ℕ) (rb : RingBuffer) → (heap n).cell p ≡ some rb → ring ≡ rb
heap-ring n p rb here = ground arith

pub heap-HasRings : (n : ℕ) → HasRings (heap n)
heap-HasRings n p rb here = subst Bounds.IsValid (heap-ring n p rb here) ring-IsValid

pub table-IsReady : (cores n : ℕ) → 0 < cores → n < hashmap_size → IsReady cores (table n) (heap n)
table-IsReady cores n some_core few = record {
  valid = table-IsValid n (omega arith);
  dense = table-IsDense n (omega arith);
  owned = table-IsOwned n (omega arith);
  rings = heap-HasRings n;
  room = few;
  cores_exist = λ p rb here. rw (← heap-ring n p rb here) some_core;
}

-- The zero key is in none of the tables.
pub table-absent : (n : ℕ) → view (table n) zero_tuple ≡ none
table-absent n = view-eq_none (table n) zero_tuple (λ j hj vj same.
    let a = used n j vj in let protos = ap (λ (k : FiveTuple). k.proto) same in ground arith)
