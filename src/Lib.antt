-- ===== src/Lib.antt =====
-- Codon, the flight software of a vehicle: the parts, under vehicle/src/bullwinkle/all but for those
-- whose place is given, that decide what the vehicle does and on which data.
--
-- The slate is a store of elements that all parts of a process share. The slate layout gives each element
-- its place in the memory of a shard, and its identifier. Before it is built, parts of the
-- program hold tokens for its elements; the token accountant makes sure that none is left without an
-- element. The slate combiner votes the elements that up to three redundant computers send into one
-- set. The state machine runs control tasks and event sequences, keeps its own state in the slate, and
-- changes state on commands, which operators, tasks and the ends of sequences issue. Symbol tables
-- name its states and the values of enumerations. The ground tools sort numbers by their bytes.
--
-- Components see the slate through slate builders, which are rooted in a subtree, hold permissions and
-- may have paths masked. Commands come from the ground: the command pump trades new feedback of the
-- vehicle for the next command, the queue client asks for it through a poller, checks its signatures
-- and its number, and the command sender writes it to the channel of its node.
--
--   StateMachine (StateMachine.cc, StateMachine.h)
--     Types        the fields and slate elements of the machine; Platform, what it calls elsewhere
--     Commands     is_cmd_allowed, has_cmd, handle_cmd (resolve_cmd is its part behind the lookup of
--                  the next state), set_nominal_transition_time
--     Transitions  transition_task and its loops, set_state, handle_pending_cmd, force_state
--     Dispatch     dispatch of SyncStateMachine and AsyncStateMachine, in named parts
--     Initial      set_initial_state
--     Graph        validate_graph and search_for_cycle
--     Validation   validate_state, init_finalize of AsyncStateMachine and SyncStateMachine; what the
--                  control tasks say of their arguments is Validators
--     the others   the invariant (Invariant), what commands (Handling, Feeding, Acceptance, Lookup)
--                  and transitions (Settling, Forcing) do to it, the two dispatch functions
--                  (SyncDispatch, Sync, Async), the graph search (GraphWalk, GraphSearch, GraphCheck)
--   SlateCombiner (SlateCombiner.cc, SlateCombiner.h; Slate::load and Slate::store of Slate.h)
--     Types, Bins, Combine   the bins and their operations, validate_and_combine, combine
--     Loops, Outputs, Passes, Layout   the loops over batches and bins
--     Voting, Masking, Downselect, Freshness   what is written, and from which sources
--   SlateTokens (slate_tokens.cc, slate_tokens.h)
--     Accountant   SlateTokenAccountant and the globals next to it
--     Tokens       the constructors, destructor and assignment of SlateToken
--     Account, Lifetime, Check, Run   the books of the accountant against the live tokens
--   SlateLayout (SlateLayout.cc, SlateLayout.h, AlignedBuffer.cc; AlignedBuffer.h is in
--               vehicle/src/bullwinkle)
--     Types        the layout, its shards and chunks; PathMap and Host, what it calls elsewhere
--     Buffer       AlignedBuffer: ensure, clone, assign
--     Space        the part of allocate_element that finds space: find_space, grow, carve
--     Layout       add_element_and_build_id, allocate_element, get_element, create_view_element
--     Access       the constructor, the other queries and finalize
--     Growing, Carving, Alignment, Chunks, Finding, Overflow   buffers, free space, and finding it
--     Occupancy, Registering, Allocation, Elements, Viewing, Views, Beginning   which bytes elements occupy
--     Queries      the access that identifiers give
--   SlateBuilder (SlateBuilder.cc, SlateBuilder.h)
--     Builder      sub_slate, super_slate, the paths that are permitted, the enum registry,
--                  compute_path_set, names_distinct; Paths, Stores and Enums, what it calls elsewhere
--     Masks, SubSlates   what a sub-slate keeps of masks and permissions
--     Names, Collisions, Listing   the names of elements, and which are listed
--   Commands (CommandQueueClient.cc, CommandPump.cc, CommandSender.cc, GrpcPoller.h, GrpcClient.h, at
--   the root)
--     Client       build_request, pump_now, dispatch, on_pump_response (check_response, check_signed
--                  and check_tbs are its guards, deliver its end); Security, what it calls elsewhere
--     Sender       send; Transport, what it calls elsewhere
--     GrpcClient   GrpcClient::async: which calls are started
--     PollerTypes, Poller   GrpcPoller: dispatch, on_response, poll_asap, the policy and init; Calls,
--                  what it calls elsewhere
--     Pump         dispatch of CommandPump, with the client and its poller behind it
--     Authorization, Refusals, Responses, Failures, Replay   what becomes of responses
--     Sending      which commands reach a channel
--     Backoff, Outstanding, Stuck, Polling, Timing   when the poller calls
--   SymbolTable (SymbolTable.cc and SymbolTable.h, at the root)
--     Table        the maps between names and integers, add, read, the lookups, operator==
--     Entries      what add and read do to the entries
--   FastSort (ground/drone/util/fast_sort/fast_sort.cc)
--     Passes       SortInternal and Sort of integers
--     Buckets, Scatter, Counting, Rounds   one round: counting, the sums, scattering
--     Sorting, Sorts, Mapped, Signed   all rounds, and signed integers
--   Prelude        numbers, lists, integers and tests that the parts share
--
-- The combiner and the state machine use the slate; the state machine's slate elements are a record
-- that its functions take and return, the combiner's a function from identifiers to values. Each
-- component has tests in its module Tests.
--
-- How the code is modelled:
--   - A failed FswAssert ends the process, and a read outside a vector that the code does not check is
--     undefined: both are `none`. FswAbortIf and its kin return early, with the value that they name.
--   - Log messages are left out. At a high debug level set_state looks the command up for the log and
--     fails if there is none: Platform.verbose and log_refuses keep that.
--   - nano_t is an integer without overflow; nano_t_max and nano_t_min are its 64-bit bounds. State
--     numbers, which the slate holds as INT32, are their unsigned reading. Ages (UINT8) and the
--     accountant's counters (64 bits) wrap around.
--   - Handles are not null. Control tasks, event sequences, listeners, the command table and Periodic
--     are not in the repository: they are fields of Platform, over a world W that they may change. A
--     turn of a task or a sequence may issue any number of commands to handle_cmd and go on from each
--     response (Turn). Laws states what is relied on: the no-op command alone has the no-op index,
--     Periodic gives the first boundary after a time, and state numbers stay below ignore_state.
--     ControlState and its task_info are the fields that StateMachine.cc uses.
--   - The math library's median3 is a field of ElementType, and its documented laws are MedianLaws. Slate
--     identifiers are fields of Identifiers and Access. A write goes through Access.write, which stands
--     for slate_info<T>::copy and for validators; the theorems on voting assume outputs without one.
--   - SlatePathMap, slate_id, the rules for paths and validators are not in the repository: they are
--     fields of PathMap and Host. MapLaws and IdLaws state what is relied on: an insert adds one entry,
--     an entry and its index lead to each other, and an identifier has the index and the write bit that
--     it was built with. SlateElementMetadata has the fields that SlateLayout.cc uses; the pool of path
--     strings is left out. The key of a free chunk has the width of an offset, so a lookup truncates
--     the size. The loop that carves free space has one unit of fuel for each power of two up to 32.
--   - The path functions, the store behind a builder, permissions and EnumRegistry are not in the
--     repository: they are fields of Paths, Stores and Enums. Tree and StoreLaws state what is relied
--     on: slate_rel_path strips a path that is above another one or equal to it, two paths above the
--     same path are one above the other, and the store of a sub-slate has what it is made with. A set
--     of strings is a list, since nothing depends on its order.
--   - Protocol messages have the fields that the code uses. Key stores, string_to_uint, CommandPayload,
--     messages, frames and channels are fields of Security and Transport, without laws. A uint32_t
--     counter wraps around. A signal has one handler, with its state; the callback of a poller does
--     not call the poller. The poller's calls and random numbers are fields of Calls: Counted states
--     that only async adds a call, and one at most, as GrpcClient::async does; InRange that a number that is drawn lies in its interval.
--   - An array that is sorted is the list of its elements, and the loop over the bytes has as many rounds
--     as an element has bytes. With elements of one byte the memcpy at the end copies the whole array.
--   - search_for_cycle recurses on fuel. validate_graph gives it one unit for each state, and each call
--     colours a state that had no colour. The loops over batches take the length of the vector.
--   - Strings are a type with a test for equality and the conversions of str_util, which is not in the
--     repository; a std::map is the list of its entries, and two are equal if each entry of one is in
--     the other.
--
-- Not modelled: reading configuration files and building the combiner's bins (Configs), the templates
-- bind and create of SlateBuilder.h, the initialisations of the command pump, client and sender, which
-- create elements, file descriptors, servers, connections, telemetry, the runtimes, the sort of floats
-- and the other ground tools.
pub mod FastSort
pub mod Prelude
pub mod StateMachine
pub mod SlateCombiner
pub mod SlateTokens
pub mod SymbolTable
pub mod SlateLayout
pub mod Commands
pub mod SlateBuilder
