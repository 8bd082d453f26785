-- ===== src/Lib.antt =====
-- SysteMoC is a C++ library for actor models on top of SystemC: actors with firing FSMs exchange
-- tokens over channels. This library models its core. Paths are from the repository's root, those
-- of headers below src/systemoc/headers/smoc, those of sources below src/systemoc/cpp.
--
-- Parts and how they interact. A channel keeps its tokens in a ring buffer behind a class of pointers
-- (Queue) and tells waiting transitions of new tokens or places by one event for each number that
-- some transition waits for (EventMap). The writer's end and the reader's end of a FIFO (Fifo) put
-- tokens, move the pointers and bring the events in step. A multiplex FIFO (Multiplex) shares one
-- ring between virtual FIFOs, which take their tokens out of order. A multi-reader FIFO (MultiReader)
-- serves several readers from one ring. A register (Register) is a channel of one value. Before the
-- simulation, the hierarchical FSM of an actor becomes a flat FSM of product states (Fsm). In the
-- simulation, an actor listens to the events of its current state, looks for an enabled transition
-- when one is signaled, and executes it when the scheduler calls it (Node); periodic actors wait in a
-- queue for their release. A token on a reset channel resets the channels and actors of a network
-- (ResetNet). A tool beside the library transforms graph files (Sng).
--
-- Files.
-- - Common: shared names, tests, lists, and results of code that an assertion can stop.
-- - Modulo: what the pointers need of CoSupport::Math::ModuloGroup (a parameter), and distances round
--   a ring. Event: what the channels need of CoSupport::SystemC::Event (a parameter). CoSupport is a
--   library that the repository does not hold.
-- - Queue: detail/QueueRWPtr.hpp (Queue.Rw), detail/QueueRVWPtr.hpp (Queue.Rvw) and
--   detail/QueueFRVWPtr.hpp (Queue.Frvw). A method is a function of the same name in snake_case from
--   the record of the class's fields; a class's base class is a field of its record.
-- - EventMap: detail/EventMapManager.hpp, the std::map as the list of its entries in the order of the
--   keys.
-- - Fifo: detail/Storage.hpp, detail/RingAccess.hpp and detail/QueueWithStorage.hpp (Fifo.Store),
--   detail/FifoChanBase.hpp with its .cpp and detail/FifoStorage.hpp (Fifo.Chan),
--   detail/FifoEntry.hpp (Fifo.Entry), detail/FifoOutlet.hpp (Fifo.Outlet), in the configuration
--   without SYSTEMOC_ENABLE_ROUTING.
-- - Multiplex: src/systemoc/headers/systemoc/smoc_multiplex_fifo.hpp and
--   src/systemoc/cpp/smoc_multiplex_fifo.cpp: the state with the outlets of the virtual FIFOs
--   (Multiplex.Chan), latencyExpired, consume and doReset with their loops (Multiplex.Consume) and the
--   four kinds of ports (Multiplex.Ports). The colour accessor is a parameter.
-- - MultiReader: src/systemoc/headers/systemoc/smoc_multireader_fifo.hpp and
--   src/systemoc/cpp/smoc_multireader_fifo.cpp: the channel (MultiReader.Chan) and its ports
--   (MultiReader.Ports), on the queue and the storage of Fifo.
-- - Register: detail/RegisterStorage.hpp (Register.Chan), detail/RegisterEntry.hpp and
--   detail/RegisterOutlet.hpp (Register.Ports). Whether the type of the values has a default value is
--   a parameter.
-- - Fsm: detail/FSM/. Fsm.State has the states as a tree, where a pointer is the number of its object
--   and a chain of parents is a path; Fsm.Rule the guards and actions with the GuardVisitor of
--   RuntimeFiringRule.cpp; Fsm.Expand and Fsm.Finalise the methods expandTransition and finalise of
--   all kinds of states; Fsm.Config getInitialState, getTopState and markings; Fsm.Product, Fsm.Explore
--   and Fsm.Elaborate the function FiringFSM::before_end_of_elaboration: a step of its loop, the loop
--   over product states, and the whole. A ModelingError is a result of its own. The class of an object
--   is a constructor, and a virtual call is a function by clauses.
-- - Sng: src/systemoc-sng/headers/smoc/sng/transform.hpp with cpp/transform/transform.cpp beside its
--   headers: Transform with << and >> (Sng.Transform), on a model of std::istream (Sng.Words).
-- - ResetNet: src/systemoc/cpp/smoc_reset.cpp and src/systemoc/headers/systemoc/smoc_reset.hpp: a
--   pointer is the place of its object in a list of all channels or nodes (ResetNet.Chan), a virtual
--   doReset a parameter there and a function by clauses in ResetNet.Fifos.
-- - Node: detail/NodeBase.cpp and RuntimeTransition::check (Node.Base), smoc_periodic_actor.cpp
--   (Node.Periodic), detail/NodeQueue.cpp (Node.TimeQueue).
--
-- Bounds and fuel. size_t and uint64_t keep their wrap-around. The loop over product states has fuel
-- for its rounds; there is one round for each product state, and these are sets of ids, so 2 ^ m is
-- enough for ids below m. expandTransition has fuel for the junctions in a row; a cycle of junctions
-- has no end in the source either. The loops of a multiplex FIFO over the ring have fuel for its
-- places. updateReleaseTime has fuel for its rounds; each moves the release time by a period at
-- least.
--
-- Not modelled: the routing of tokens and dropped tokens, the merging of FSMs while the user builds
-- them, the merging of FIFOs in a graph file, hooks, traces, schedulers, the import and export of
-- graphs, and the glue to the SystemC kernel. The calls of the scheduler's notifyActivation are
-- recorded; what a scheduler does on them is left open. Times are numbers of units: the arithmetic of
-- sc_time on them, with the random draw of a periodic actor, is a parameter. The events that a reset
-- of a channel signals do not reach the nodes before the reset ends; in the source, nodes look for an
-- enabled transition in between.
pub mod Common
pub mod Event
pub mod EventMap
pub mod Fifo
pub mod Fsm
pub mod Modulo
pub mod MultiReader
pub mod Multiplex
pub mod Node
pub mod Queue
pub mod Register
pub mod ResetNet
pub mod Sng
