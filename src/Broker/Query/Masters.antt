-- ===== src/Broker/Query/Masters.antt =====
-- `cluster_store_to_cluster` of src/broker/query.rs: two masters a chunk, which hold all the slots.
use undermoon.Prelude.{
  ℕ, ◌+◌, ◌*◌, ◌≡◌, ◌⊎◌, refl, ap₂, inl, inr, true, Option, none, some, List, [], ◌∷◌, ◌++◌, length,
  map, arith, to_num, if◌then◌else◌, All, ok, Bool-cases, length-append, All-append, All-split,
}
use undermoon.Ranges.Count.{times}
use undermoon.Cluster.{Text, SlotRange, SlotRangeTag, is_importing_tag}
use undermoon.Cluster.Nodes.{Role, Node, is_master}
use undermoon.Broker.Store.{
  Four, ChunkRolePosition, ChunkStore, ClusterStore, MigrationSlotRangeStore,
}
use undermoon.Broker.Slots.{stable_times, moving_times, owners}
use undermoon.Broker.Views.{to_slot_range, get_proxy_addresses}
use undermoon.Broker.Views.Addresses.{IsBetween, to_slot_range-shown}
use undermoon.Broker.Limit.{all_migrations}
use undermoon.Broker.Proxies.Mult.{mult}
use undermoon.Broker.Query.{
  stable_list, moving_list, part_list, chunk_node, chunk_nodes, all_nodes, cluster_store_to_cluster,
  node_proxies,
}

-- How often slot ranges give a slot to a node, not counting the ones that are only being imported.
abbrev pub given_times : List SlotRange → ℕ → ℕ
given_times [] s = 0
given_times (sr ∷ srs) s =
    (if is_importing_tag sr.tag then 0 else times sr.range_list s) + given_times srs s

abbrev pub node_times : List Node → ℕ → ℕ
node_times [] s = 0
node_times (node ∷ nodes) s = given_times node.slots s + node_times nodes s

abbrev pub count_masters : List Node → ℕ
count_masters [] = 0
count_masters (node ∷ nodes) = to_num (is_master node) + count_masters nodes

-- Only a master holds slots.
abbrev pub IsSlotless : Node → Type 0
IsSlotless node = (is_master node ≡ true) ⊎ (node.slots ≡ [])

abbrev pub IsTaggedStable : Option SlotRange → Type 0
IsTaggedStable none = Unit {0}
IsTaggedStable (some sr) = sr.tag ≡ SlotRangeTag.none

-- The stable slots are not tagged as a migration.
pub record HasStableTags (chunk : ChunkStore) : Type 0 where
  pub first : IsTaggedStable chunk.stable_slots.first
  pub second : IsTaggedStable chunk.stable_slots.second

given_times-append :
    (xs ys : List SlotRange) (s : ℕ)
    → given_times (xs ++ ys) s ≡ given_times xs s + given_times ys s
given_times-append [] ys s = omega arith
given_times-append (x ∷ xs) ys s = omega (arith, given_times-append xs ys s)

node_times-append :
    (xs ys : List Node) (s : ℕ) → node_times (xs ++ ys) s ≡ node_times xs s + node_times ys s
node_times-append [] ys s = omega arith
node_times-append (x ∷ xs) ys s = omega (arith, node_times-append xs ys s)

proxies-append :
    (a : Text) (xs ys : List Node)
    → mult a (node_proxies (xs ++ ys)) ≡ mult a (node_proxies xs) + mult a (node_proxies ys)
unfolding node_proxies
proxies-append a [] ys = omega arith
proxies-append a (x ∷ xs) ys = omega (arith, proxies-append a xs ys)

stable_list-times :
    (o : Option SlotRange) (s : ℕ)
    → IsTaggedStable o
    → given_times (stable_list o) s ≡ stable_times o s
unfolding is_importing_tag
stable_list-times none s h = refl
stable_list-times (some sr) s h = rw (h, is_importing_tag) (omega arith)

-- The slot range of one side of a migration.
shown_side :
    (chunks : List ChunkStore) (m : MigrationSlotRangeStore)
    → IsBetween (length chunks) m
    → (sr : SlotRange) × (to_slot_range m chunks ≡ some sr)
      × ((s : ℕ)
          → (if is_importing_tag sr.tag then 0 else times sr.range_list s)
            ≡ (if m.is_migrating then times m.range_list s else 0))
unfolding is_importing_tag
shown_side chunks m p =
    let (src, dst, e) = to_slot_range-shown chunks m p in
    elim (Bool-cases m.is_migrating) [
      | inl out ↦ (_, e, λ s. rw (out, is_importing_tag) refl)
      | inr into ↦ (_, e, λ s. rw (into, is_importing_tag) refl)
    ]

pub moving_list-times :
    (chunks : List ChunkStore) (ms : List MigrationSlotRangeStore)
    → All (IsBetween (length chunks)) ms
    → (srs : List SlotRange) × (moving_list chunks ms ≡ ok srs)
      × ((s : ℕ) → given_times srs s ≡ moving_times ms s)
unfolding moving_list
moving_list-times chunks [] h = ([], refl, λ s. refl)
moving_list-times chunks (m ∷ ms) (p, h) =
    let (sr, e, t) = shown_side chunks m p in
    let (srs, e', t') = moving_list-times chunks ms h in
    (sr ∷ srs, rw (e, moving_list, e') refl, λ s. ap₂ (λ (a b : ℕ). a + b) (t s) (t' s))

-- What the four nodes of a chunk are to hold.
pub record ShowsChunk (first second : List SlotRange) (nodes : List Node) : Type 0 where
  pub four : length nodes ≡ 4
  pub replicas : All IsSlotless nodes
  pub slots : (s : ℕ) → node_times nodes s ≡ given_times first s + given_times second s

given-nil : (xs : List SlotRange) (s : ℕ) → given_times (xs ++ []) s ≡ given_times xs s
given-nil xs s = omega (arith, given_times-append xs [] s)

abbrev pub node_of : Text → Text → List SlotRange → Role → Text → Text → Node
node_of address proxy_address slots role peer_node peer_proxy = record {
  address = address;
  proxy_address = proxy_address;
  slots = slots;
  repl = record {
    role = role;
    peers = record { node_address = peer_node; proxy_address = peer_proxy } ∷ [];
  };
}

-- The nodes of a chunk, given the slots and the role of each.
abbrev pub four_nodes : ChunkStore → Four (List SlotRange × Role) → List Node
four_nodes chunk held =
    let p = chunk.proxy_addresses in
    let n = chunk.node_addresses in
    node_of n.first p.first (held.first.0) (held.first.1) n.fourth p.second
    ∷ node_of n.second p.first (held.second.0) (held.second.1) n.third p.second
    ∷ node_of n.third p.second (held.third.0) (held.third.1) n.second p.first
    ∷ node_of n.fourth p.second (held.fourth.0) (held.fourth.1) n.first p.first
    ∷ []

abbrev pub held_by :
    ChunkRolePosition → List SlotRange → List SlotRange → Four (List SlotRange × Role)
held_by ChunkRolePosition.normal a b = record {
  first = (a ++ [], Role.master);
  second = ([], Role.replica);
  third = (b, Role.master);
  fourth = ([], Role.replica);
}
held_by ChunkRolePosition.first_chunk_master a b = record {
  first = (a ++ [], Role.master);
  second = (b, Role.master);
  third = ([], Role.replica);
  fourth = ([], Role.replica);
}
held_by ChunkRolePosition.second_chunk_master a b = record {
  first = ([], Role.replica);
  second = ([], Role.replica);
  third = (b, Role.master);
  fourth = (a ++ [], Role.master);
}

pub shown_chunk :
    (chunks : List ChunkStore) (chunk : ChunkStore) (position : ChunkRolePosition)
    (m₁ m₂ : List SlotRange)
    → moving_list chunks chunk.migrating_slots.first ≡ ok m₁
    → moving_list chunks chunk.migrating_slots.second ≡ ok m₂
    → chunk_nodes chunks (record chunk { role_position = position })
      ≡ ok (
          four_nodes chunk (
            held_by position
              (stable_list chunk.stable_slots.first ++ m₁)
              (stable_list chunk.stable_slots.second ++ m₂)))
unfolding chunk_nodes chunk_node part_list
shown_chunk chunks chunk ChunkRolePosition.normal m₁ m₂ e₁ e₂ = rw (e₁, e₂) refl
shown_chunk chunks chunk ChunkRolePosition.first_chunk_master m₁ m₂ e₁ e₂ = rw (e₁, e₂) refl
shown_chunk chunks chunk ChunkRolePosition.second_chunk_master m₁ m₂ e₁ e₂ = rw (e₁, e₂) refl

shows_chunk :
    (chunk : ChunkStore) (position : ChunkRolePosition) (a b : List SlotRange)
    → ShowsChunk a b (four_nodes chunk (held_by position a b))
shows_chunk chunk ChunkRolePosition.normal a b = record {
  four = refl;
  replicas = (inl refl, (inr refl, (inl refl, (inr refl, tt))));
  slots = λ s. omega (arith, given-nil a s);
}
shows_chunk chunk ChunkRolePosition.first_chunk_master a b = record {
  four = refl;
  replicas = (inl refl, (inl refl, (inr refl, (inr refl, tt))));
  slots = λ s. omega (arith, given-nil a s);
}
shows_chunk chunk ChunkRolePosition.second_chunk_master a b = record {
  four = refl;
  replicas = (inr refl, (inr refl, (inl refl, (inl refl, tt))));
  slots = λ s. omega (arith, given-nil a s);
}

-- The four nodes of one chunk: its addresses, and two masters.
pub record IsShown (chunk : ChunkStore) (nodes : List Node) : Type 0 where
  pub addresses :
      let n = chunk.node_addresses in
      map (λ node. node.address) nodes ≡ n.first ∷ n.second ∷ n.third ∷ n.fourth ∷ []
  pub proxy_addresses :
      let p = chunk.proxy_addresses in
      map (λ node. node.proxy_address) nodes ≡ p.first ∷ p.first ∷ p.second ∷ p.second ∷ []
  pub two_masters : count_masters nodes ≡ 2

-- The nodes are those of the chunks, one after the other.
abbrev pub NodesByChunk : List ChunkStore → List Node → Type 0
NodesByChunk [] nodes = nodes ≡ []
NodesByChunk (chunk ∷ chunks) nodes =
    (here : List Node) × (rest : List Node) × (nodes ≡ here ++ rest)
    × IsShown chunk here
    × NodesByChunk chunks rest

four_nodes-IsShown :
    (chunk : ChunkStore) (position : ChunkRolePosition) (a b : List SlotRange)
    → IsShown chunk (four_nodes chunk (held_by position a b))
four_nodes-IsShown chunk ChunkRolePosition.normal a b = record {
  addresses = refl;
  proxy_addresses = refl;
  two_masters = refl;
}
four_nodes-IsShown chunk ChunkRolePosition.first_chunk_master a b = record {
  addresses = refl;
  proxy_addresses = refl;
  two_masters = refl;
}
four_nodes-IsShown chunk ChunkRolePosition.second_chunk_master a b = record {
  addresses = refl;
  proxy_addresses = refl;
  two_masters = refl;
}

-- What all nodes are to hold.
pub record ShowsChunks (chunks : List ChunkStore) (nodes : List Node) : Type 0 where
  pub four_each : length nodes ≡ length chunks * 4
  pub by_chunk : NodesByChunk chunks nodes
  pub replicas : All IsSlotless nodes
  pub two_a_proxy :
      (a : Text) → mult a (node_proxies nodes) ≡ mult a (get_proxy_addresses chunks) * 2

pub all_nodes-ShowsChunks :
    (chunks rest : List ChunkStore)
    → All (IsBetween (length chunks)) (all_migrations rest)
    → (nodes : List Node) × (all_nodes chunks rest ≡ ok nodes)
      × ShowsChunks rest nodes
      × (All HasStableTags rest → (s : ℕ) → node_times nodes s ≡ owners rest s)
unfolding all_nodes all_migrations node_proxies get_proxy_addresses
all_nodes-ShowsChunks chunks [] h = (
  [],
  refl,
  record { four_each = refl; by_chunk = refl; replicas = tt; two_a_proxy = λ a. refl },
  λ t s. refl,
)
all_nodes-ShowsChunks chunks (chunk ∷ rest) h =
    let moving = chunk.migrating_slots in
    let P = IsBetween (length chunks) in
    let (h₁₂, h₃) = All-split P (moving.first ++ moving.second) (all_migrations rest) h in
    let (h₁, h₂) = All-split P moving.first moving.second h₁₂ in
    let (m₁, e₁, t₁) = moving_list-times chunks moving.first h₁ in
    let (m₂, e₂, t₂) = moving_list-times chunks moving.second h₂ in
    let (nodes, e, w, given) = all_nodes-ShowsChunks chunks rest h₃ in
    let a = stable_list chunk.stable_slots.first ++ m₁ in
    let b = stable_list chunk.stable_slots.second ++ m₂ in
    let here = four_nodes chunk (held_by chunk.role_position a b) in
    let v = shows_chunk chunk chunk.role_position a b in
    (
      here ++ nodes,
      rw (shown_chunk chunks chunk chunk.role_position m₁ m₂ e₁ e₂, e) refl,
      record {
        four_each = omega (arith, length-append here nodes, v.four, w.four_each);
        by_chunk =
            (here, nodes, refl, four_nodes-IsShown chunk chunk.role_position a b, w.by_chunk);
        replicas = All-append IsSlotless here nodes v.replicas w.replicas;
        two_a_proxy = λ a. omega (arith, proxies-append a here nodes, w.two_a_proxy a);
      },
      λ t s. omega (
        arith,
        node_times-append here nodes s,
        v.slots s,
        given t.1 s,
        t₁ s,
        t₂ s,
        given_times-append (stable_list chunk.stable_slots.first) m₁ s,
        given_times-append (stable_list chunk.stable_slots.second) m₂ s,
        stable_list-times chunk.stable_slots.first s t.0.first,
        stable_list-times chunk.stable_slots.second s t.0.second,
      ),
    )

-- Let the migrations of the stored cluster be between masters of its chunks, and its stable slots not
-- be tagged as a migration. Then converting the cluster does not panic. The result has the stored
-- name, epoch and configuration. Its nodes are four for each chunk, in the order of the chunks, with
-- the addresses of the chunk and of its proxies, and two of the four are masters, whatever the
-- positions of the roles. Replicas hold no slots. Each proxy of the chunks has two nodes. Each slot is
-- given to as many nodes as own it, where the importing side of a migration does not count.
pub cluster_store_to_cluster-ShowsChunks :
    (cluster_store : ClusterStore)
    → All (IsBetween (length cluster_store.chunks)) (all_migrations cluster_store.chunks)
    → All HasStableTags cluster_store.chunks
    → (nodes : List Node) × (cluster_store_to_cluster cluster_store
        ≡ ok (record {
          name = cluster_store.name;
          epoch = cluster_store.epoch;
          nodes = nodes;
          config = cluster_store.config;
        }))
      × ShowsChunks cluster_store.chunks nodes
      × ((s : ℕ) → node_times nodes s ≡ owners cluster_store.chunks s)
unfolding cluster_store_to_cluster
cluster_store_to_cluster-ShowsChunks cluster_store h t =
    let (nodes, e, shows, given) =
      all_nodes-ShowsChunks cluster_store.chunks cluster_store.chunks h in
    (nodes, rw (e, cluster_store_to_cluster) refl, shows, given t)
