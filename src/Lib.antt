-- ===== src/Lib.antt =====
-- undermoon: a Redis cluster of proxies, whose metadata a broker keeps and a coordinator
-- distributes. This library models the broker's slot metadata and migrations, and the protocol
-- that all parts speak.
--
-- Slots. The 16384 slots of a cluster are described by range lists (src/common/cluster.rs).
-- `Ranges` models `Range`, `RangeList` and `RangeMap`, one function for each method; its child
-- modules hold the index loop of `compact` against a plain recursion (`Loop`), the slots it keeps
-- (`Covers`, and `Total` for ends that wrap), the normal form (`Canonical`), counting (`Count`, `Times`) and the bit map (`Map`).
-- `Cluster` has the metadata around them: tags, slot ranges, names and the configuration of
-- src/common/config.rs; `Cluster.Strings` is the strings in which slot ranges and tasks are sent,
-- and `Cluster.Config` sets single fields of a configuration.
--
-- Broker. `Broker.Store` is the stored data of src/broker/store.rs: a cluster is a list of chunks
-- of two masters; each master has stable slots and migrations. `Broker.MetaStore` has the store,
-- whose operations return the store they leave and their result, since some change it before they
-- fail. `Broker.Migrate` is `remove_slots_from_src` of src/broker/migrate.rs, which plans a scale
-- out; `Broker.Assign` is `assign_dst_slots` and `compact_slots`, which record the plan;
-- `Broker.MetaStore` composes them as `migrate_slots`; `Broker.Commit` is `commit_migration`,
-- which ends one migration. `Broker.ScaleDown` is `migrate_slots_to_scale_down`. `Broker.Views`
-- derives addresses and counts from the stored chunks, `Broker.Limit` is `limit_migration`, and
-- `Broker.Epochs` has `restore` and, from src/broker/update.rs, `add_failure`. `Broker.Slots`
-- counts the owners of a slot, the masters that hold it or are giving it away.
--
-- Proxies and clusters (src/broker/update.rs, src/broker/query.rs). `Broker.Proxies` adds, tags and
-- removes proxies, and lists the free ones; `Broker.Allocate` picks pairs of them for new chunks,
-- by the links between hosts (`Allocate.Links`) or in order; `Broker.Chunks` shares out the slots;
-- `Broker.Nodes` composes them as `add_cluster`, `remove_cluster`, `auto_add_nodes`,
-- `auto_scale_up_nodes`, `auto_delete_free_nodes` and `balance_masters`; `Broker.Failover` is
-- `replace_failed_proxy` with `takeover_master`; `Broker.ChangeConfig` is `change_config`.
-- `Broker.Query` shows stored clusters as nodes of `Cluster.Nodes`, and answers for proxies and
-- names. `Proxies.Consistent` states when the proxies and the clusters of a store name one another,
-- and `Broker.Reached` is the relation of a store to those that these operations make of it.
--
-- Proxy. `Proxy.SlotMap` is the table from slots to addresses of src/proxy/slot.rs, and
-- `Proxy.SlotMutex` the lock of src/common/slot_lock.rs, whose atomic operations are single steps.
--
-- Protocol. `Resp` has the values of src/protocol/resp.rs, over bytes or over positions in a
-- buffer; `Resp.Encode` is src/protocol/encoder.rs over any writer, `Resp.Parse` is
-- src/protocol/stateless.rs. `Resp.Layout` and `Resp.Slice` say where the parts of a printed value
-- stand, and `Resp.Keys` has the hash tags and commands of src/common/utils.rs.
--
-- Conventions. A usize or u64 is a ℕ whose sums and differences wrap (`add_word`, `sub_word`), as
-- in a release build; counts of a vector's elements are plain. A failed `expect` is `panic`, or
-- `none` where nothing else can fail. A HashMap is an association list (`Dict`). Loops that are
-- not structural take fuel: `compact_loop` one more than the length of the list, `take_from` one
-- more than the slots of the source, since each round moves a slot; `give_all` of scale down has
-- that and one for each destination; `parse_resp` takes fuel for the depth of nested arrays, which
-- the source bounds by its stack only. The end of the fuel is a `panic` too, so a theorem that
-- rules a panic out shows that the fuel is enough.
--
-- Parameters. The crates `memchr`, `btoi` and `crc16`, the largest capacity of a vector, and the
-- capacity of `ArrayString` (`fits`) are arguments, and so are itertools' `group_by` and
-- `to_uppercase` and `to_lowercase`, for texts beyond ASCII;
-- `Resp.Steps.IsScanner` states what the parser relies on. The `chunks` of itertools only hands out
-- two elements at a time, and is a recursion (`pair_up`).
--
-- Not modelled: logging (with the panics of `print_migration_slot`), serialisation, HTTP and Redis I/O, the asynchronous parts of proxy and
-- coordinator, and the broker's `check_metadata`.
-- `Display` and `TryFrom` of range lists, and the SyncError of MetaStoreError, are left out too.
pub mod Prelude
pub mod Dict
pub mod Ranges
pub mod Cluster
pub mod Broker
pub mod Proxy
pub mod Resp
