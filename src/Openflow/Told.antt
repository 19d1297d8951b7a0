-- ===== src/Openflow/Told.antt =====
-- The structures in which a switch tells of itself and of its ports, `openflow_features` and
-- `openflow_port_data` of src/openflow.h, by the offsets and the sizes of their fields.
use o_rss_nic.Prelude.{
  All, List, [], ap, arith, drop, get_or, if◌then◌else◌, length, length-drop, length-take, refl,
  suc, sym, take, take-drop, zero, ℕ, ◌%◌, ◌*◌, ◌++◌, ◌+◌, ◌-◌, ◌/◌, ◌==◌, ◌∙◌, ◌∷◌, ◌≡◌, ◌≤◌,
}
use Prim.Native.Nat.{bit_or}
use mathlib.Core.List.{map}
use o_rss_nic.Words.{ByteOrder, Memory, convert64}
use o_rss_nic.Openflow.{Features, Port}
use o_rss_nic.Openflow.Ports.{features_at, port_at, sizeof_features, sizeof_port_data}

-- So many bytes stand at the offset, and they are as `P` says.
unfoldable pub StandsAt : (offset size : ℕ) → List ℕ → (P : List ℕ → Type 0) → Type 0
StandsAt offset size bytes P =
    (before : List ℕ) × (part : List ℕ) × (after : List ℕ) × (bytes ≡ before ++ (part ++ after))
    × (length before ≡ offset)
    × (length part ≡ size)
    × P part

stands :
    (offset size : ℕ) (bytes : List ℕ) (P : List ℕ → Type 0)
    → offset + size ≤ length bytes
    → P (take size (drop offset bytes))
    → StandsAt offset size bytes P
unfolding StandsAt
stands offset size bytes P fits holds =
    let rest = drop offset bytes in
    let left : length rest ≡ length bytes - offset = length-drop offset bytes in
    (
      take offset bytes,
      take size rest,
      drop size rest,
      sym (take-drop offset bytes) ∙ ap (λ t. take offset bytes ++ t) (sym (take-drop size rest)),
      length-take offset bytes (omega arith),
      length-take size rest (omega arith),
      holds,
    )

module _ (order : ByteOrder) (memory : Memory) where
  open order use {ntohs, ntohl}
  open memory use {word16, word32, word64}

  -- A number of 64 bits: the halves of the word change places, and each is turned, but for a
  -- machine that has the order of the network.
  abbrev pub turned : ℕ → ℕ
  turned x =
      if 1 == ntohl 1
      then x
      else bit_or (ntohl (x % 4294967296) * 4294967296) (ntohl (x / 4294967296))

  -- The number of buffers comes at the offset 8, and three bytes of padding at the offset 13.
  pub record TellsFeatures (bytes : List ℕ) (f : Features) : Type 0 where
    pub datapath_id : StandsAt 0 8 bytes (λ b. f.datapath_id ≡ turned (word64 b))
    pub n_buffers : StandsAt 8 4 bytes (λ b. f.n_buffers ≡ ntohl (word32 b))
    pub n_tables : StandsAt 12 1 bytes (λ b. f.n_tables ∷ [] ≡ b)
    pub capabilities : StandsAt 16 4 bytes (λ b. f.capabilities ≡ ntohl (word32 b))
    pub actions : StandsAt 20 4 bytes (λ b. f.actions ≡ ntohl (word32 b))

  pub record TellsPort (bytes : List ℕ) (p : Port) : Type 0 where
    pub port_no : StandsAt 0 2 bytes (λ b. p.port_no ≡ ntohs (word16 b))
    pub hw_addr : StandsAt 2 6 bytes (λ b. p.hw_addr ≡ b)
    pub name : StandsAt 8 16 bytes (λ b. p.name ≡ b)
    pub config : StandsAt 24 4 bytes (λ b. p.config ≡ ntohl (word32 b))
    pub state : StandsAt 28 4 bytes (λ b. p.state ≡ ntohl (word32 b))
    pub curr : StandsAt 32 4 bytes (λ b. p.curr ≡ ntohl (word32 b))
    pub advertised : StandsAt 36 4 bytes (λ b. p.advertised ≡ ntohl (word32 b))
    pub supported : StandsAt 40 4 bytes (λ b. p.supported ≡ ntohl (word32 b))
    pub peer : StandsAt 44 4 bytes (λ b. p.peer ≡ ntohl (word32 b))

  -- The first `n` of the structures that follow one another tell of these ports, one of each.
  unfoldable pub TellsPorts : (n : ℕ) → List (List ℕ) → List Port → Type 0
  TellsPorts zero bytes ports = ports ≡ []
  TellsPorts (suc n) [] ports = ⊥
  TellsPorts (suc n) (b ∷ bytes) [] = ⊥
  TellsPorts (suc n) (b ∷ bytes) (p ∷ ports) = TellsPort b p × TellsPorts n bytes ports

  one_byte :
      (bytes : List ℕ) (i : ℕ)
      → i + 1 ≤ length bytes
      → get_or bytes i 0 ∷ [] ≡ take 1 (drop i bytes)
  one_byte [] i fits = absurd (omega arith)
  one_byte (b ∷ bytes) zero fits = refl
  one_byte (b ∷ bytes) (suc i) fits = one_byte bytes i (omega arith)

  pub features_at-tells :
      (bytes : List ℕ)
      → length bytes ≡ sizeof_features
      → TellsFeatures bytes (features_at order memory bytes)
  unfolding convert64
  features_at-tells bytes size = record {
    datapath_id = stands 0 8 bytes _ (omega arith) refl;
    n_buffers = stands 8 4 bytes _ (omega arith) refl;
    n_tables = stands 12 1 bytes _ (omega arith) (one_byte bytes 12 (omega arith));
    capabilities = stands 16 4 bytes _ (omega arith) refl;
    actions = stands 20 4 bytes _ (omega arith) refl;
  }

  port_at-tells :
      (bytes : List ℕ)
      → length bytes ≡ sizeof_port_data
      → TellsPort bytes (port_at order memory bytes)
  port_at-tells bytes size = record {
    port_no = stands 0 2 bytes _ (omega arith) refl;
    hw_addr = stands 2 6 bytes _ (omega arith) refl;
    name = stands 8 16 bytes _ (omega arith) refl;
    config = stands 24 4 bytes _ (omega arith) refl;
    state = stands 28 4 bytes _ (omega arith) refl;
    curr = stands 32 4 bytes _ (omega arith) refl;
    advertised = stands 36 4 bytes _ (omega arith) refl;
    supported = stands 40 4 bytes _ (omega arith) refl;
    peer = stands 44 4 bytes _ (omega arith) refl;
  }

  pub ports_at-tells :
      (n : ℕ) (ports : List (List ℕ))
      → n ≤ length ports
      → All (λ p. length p ≡ sizeof_port_data) ports
      → TellsPorts n ports (map (port_at order memory) (take n ports))
  unfolding TellsPorts
  ports_at-tells zero ports enough sizes = refl
  ports_at-tells (suc n) [] enough sizes = absurd (omega arith)
  ports_at-tells (suc n) (p ∷ ports) enough (size, sizes) =
      (port_at-tells p size, ports_at-tells n ports (omega arith) sizes)
