-- ===== src/Xdp/Entries.antt =====
-- What becomes of the entries of src/bpf/xdp.bpf.c over many packets.
use o_rss_nic.Prelude.{List, Option, false, none, some, true, ◌++◌, ◌∷◌, ◌≡◌, ◌⊎◌}
use o_rss_nic.FiveTuple.{FiveTuple}
use o_rss_nic.Xdp.{Kernel, BpfMap, ConnectionState, no_state}
use o_rss_nic.Xdp.State.{IsHashMap, Sees}
use o_rss_nic.Xdp.Trace.{Event, names, flags, Gathers}

module _ (maps : BpfMap) (laws : IsHashMap maps) (kernel : Kernel) where
  open maps use {Map, lookup_elem}

  -- What one packet does to the entry of the connection `q`.
  Treats : Event → FiveTuple → Map → Map → Type 0
  Treats e q c c' =
      (names kernel e q ≡ false → lookup_elem c' q ≡ lookup_elem c q)
      × (names kernel e q ≡ true → Sees maps laws q (flags kernel e) c c')

module _ (kernel : Kernel) where
  -- What becomes of an entry: one that is there gathers the flags of all the packets, and one that
  -- is not there yet is made for a packet of the connection and gathers the flags from it on, or
  -- the map has refused it each time.
  unfoldable pub Outcome : FiveTuple → List Event → (before after : Option ConnectionState) → Type 0
  Outcome q events (some old) after =
      (s : ConnectionState) × (after ≡ some s) × Gathers kernel q events old s
  Outcome q events none after =
      (after ≡ none)
      ⊎ ((early : List Event) × (e : Event) × (late : List Event) × (s : ConnectionState) × (events
            ≡ early ++ (e ∷ late))
          × (names kernel e q ≡ true)
          × (after ≡ some s)
          × Gathers kernel q (e ∷ late) no_state s)
