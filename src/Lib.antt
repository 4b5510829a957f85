-- ===== src/Lib.antt =====
-- The Rust code of the Aptos agent framework: the split of packages into transactions, and the native
-- functions behind the Move modules for publishing code, tables, aggregators and randomness. Paths
-- are below aptos-agent-framework/framework/.
--
-- * ChunkedPublish models src/chunked_publish.rs. `chunk_package_and_create_payloads` is the whole
--   function: its accumulators are the record `Accumulator`, one round of the inner loop is
--   `take_chunk`, the `if` in it is `flush` and the rest `push_chunk`; `take_chunks` and `take_modules`
--   are the loops, `last_payload` is the final `match`. A panic of the source is an `Outcome`,
--   that of an encoding that fails included. `chunks`
--   stands for the standard library's `slice::chunks` and recurses on fuel: it is called with the number
--   of items, and each piece takes at least one. BCS is the parameter `Bcs`, whose laws say that it
--   encodes lists up to its limit on lengths and reads back what it writes. Staging reads the payloads
--   back; Loops and Rounds have the invariant of the loops, Whole the whole call; Reassembly, Limits and
--   Calls prove.
-- * Native is the part of `aptos_native_interface` that the natives use: a native takes the gas left
--   and the context extension of its module, and gives a result and the new ones. What was written
--   before an error stays written. The gas meter is a parameter. Native.Rules has the rules on
--   actions that leave the context alone, always or where they fail, Native.Triples those on actions
--   that keep a predicate of it.
-- * Code models src/natives/code.rs: `request_publish` is `native_request_publish` with four or five
--   arguments, its loops are `collect_code`, `collect_deps` and `collect_names`, and `store_request` is
--   its end. The VM calls `extract_publish_request`. Code.Policy has `UpgradePolicy`.
-- * Table models table-natives/src/lib.rs: the natives on boxes share `open_box`, `charge_box` and the
--   load cost. Table.Defs has the data and the record `Vm` of the functions of the VM, of its storage
--   and of its hash; Table.Load creates tables and loads entries, Table.Changes is `into_change_set`.
--   Table.Calls has rows of calls. Table.Held, Table.RoundTrip, Table.Effects, Table.WellFormed and
--   Table.Cost prove.
-- * Aggregator models src/natives/aggregator_natives/aggregator_v2.rs and helpers_v2.rs, with the
--   snapshots in Aggregator.Snapshots. The delayed field data, its resolver and the bounded arithmetic
--   are the record `Delayed`. A reference to an aggregator is its value, and a native that writes
--   through the reference returns the new value. Aggregator.Bounds and Aggregator.History prove, for
--   aggregators that store their value.
-- * TransactionContext models src/natives/transaction_context.rs. The user's transaction is a record of
--   what the natives read of it; the derivation of addresses is a parameter. A payload becomes a Move
--   value, in TransactionContext.Payload.
-- * PermissionedSigner models src/natives/permissioned_signer.rs, over a record of the VM's functions
--   on signers.
-- * MoveVector models move-stdlib/src/natives/vector.rs, whose move is a function of the VM.
-- * StringUtils models src/natives/string_utils.rs. A function returns the text that the source appends
--   to `out`. `native_format_impl` recurses on the layout; the arguments that a closure captures have
--   layouts of their own, so that it has fuel for the nesting of closures, and any fuel above that
--   nesting is enough. The values, types and layouts are those of the record `Vm`. The loop over a
--   closure's mask has the 64 bits of the mask as fuel. `native_format_list` goes over the bytes of its
--   template. StringUtils.Template, .Items, .Nesting, .Escape and .Typing prove; .Typing says which values a
--   layout asks for.
-- * MoveString models move-stdlib/src/natives/string.rs on bytes, with `str`'s functions as they are on
--   UTF-8 texts.
-- * Object models src/natives/object.rs, whose context is the cache of derived addresses. Object.Calls
--   has rows of calls, with the cache and without it; Object.Cache proves.
-- * EventStore models src/natives/event.rs, whose context is the list of the events so far.
--   EventStore.Emitted has rows of calls.
-- * ReleaseBundle models src/release_bundle.rs: the topological sort of a package's modules, whose
--   recursion has fuel for its depth, and in ReleaseBundle.Proposal the scripts of upgrade proposals,
--   as lists of the calls of the code writer. The depth suffices where it is above a rank of the modules
--   that goes down along dependencies, as there is one where they have no cycle.
-- * Randomness models src/natives/randomness.rs: the counter of a transaction and its natives.
-- * Prelude, Text and Assoc have the lists over the native numbers, byte strings and UTF-8, and maps
--   as association lists. Only ReleaseBundle uses the order of a map.
--
-- Arguments of natives are typed: that a cast of a Move value to the type its signature gives it
-- fails is not modelled, but for the value field of an aggregator, the parts of an event handle and the
-- values that StringUtils prints. Sizes are those of buffers in
-- memory, so that sums of them do not overflow; gas amounts are numbers, which the meter compares.
--
-- Not modelled: the generated builders of transactions and their decoders, the cryptographic natives,
-- whose content is in other crates, the natives of type
-- information, the first version of aggregators, the checks of metadata after compilation,
-- the build tools and the rest of the release tools, the prover and documentation front ends, and the Move sources.
pub mod Aggregator
pub mod Assoc
pub mod ChunkedPublish
pub mod Code
pub mod EventStore
pub mod MoveString
pub mod MoveVector
pub mod Native
pub mod Object
pub mod PermissionedSigner
pub mod Prelude
pub mod Randomness
pub mod ReleaseBundle
pub mod StringUtils
pub mod Table
pub mod Text
pub mod TransactionContext
