-- ===== src/Lib.antt =====
-- The Infernum data pack's game server (src/): models of its core and what they satisfy.
--
-- The network. A client's packet is a frame of a length, a checksum and an encrypted body.
-- `Network/Message` is NetworkMessage (src/networkmessage.h, src/networkmessage.cpp), its buffer a function
-- from offsets to bytes in `Network/Memory`; `Network/Output` is OutputMessage (src/outputmessage.h);
-- `Network/Xtea` is the cipher (src/xtea.cpp); `Network/Adler` is adlerChecksum (src/tools.cpp);
-- `Network/Protocol` is Protocol (src/protocol.cpp), which pads, encrypts and adds the headers;
-- `Network/Connection` is parseHeader and the checksum of parsePacket (src/connection.cpp), and
-- `Network/Frame` composes them from the sender's message to the receiver's parser.
-- The gate. `Login/Ban` is Ban::acceptConnection (src/ban.cpp), and `Login/WaitList` is WaitingList
-- (src/waitlist.cpp), where an erasure through the wrong list's iterator is the outcome `by_other_list`,
-- with the entry unlinked from its own list; `Places` and `Order` are about who stands where.
-- Parties. `Party` and `Party/Roster` are Party (src/party.cpp, src/party.h) with the pointers and the
-- invitations of the players (src/player.cpp), and `Party/Commands` are the handlers of src/game.cpp that
-- lead there. `Party/Invariant` and `Party/Agreement` are about the agreement of the two sides;
-- what happens to other parties is a step of its own there, of which only what concerns this party is said.
-- Time. `Tasks` is the queue of the dispatcher (src/tasks.cpp) and of the scheduler (src/scheduler.cpp).
-- Data. `Position` is src/position.h, `Loader` is the tree parser of src/fileloader.cpp with the property
-- streams of src/fileloader.h, and `WildcardTree` is src/wildcardtree.cpp; its
-- `Names` is about the names after any history of insertions and removals, `Find` about findOne, with
-- `Walk` and `Ambiguous`.
-- The world. `WorldMap` is the quad tree of tiles (src/map.h, src/map.cpp); `WorldMap/Levels`, `Leaves` and
-- `Tiles` follow the way to a leaf, and `WorldMap/Writes` is about writing a tile. What addThing makes of
-- two tiles on one place is a parameter. `View` is what a client is shown of the map (canSee,
-- GetMapDescription and checkCreatureAsKnown of src/protocolgame.cpp): `View/Skips` has the client's reader
-- of a map description, `View/Window` compares it with canSee, `View/Known` is the set of known creatures.
-- Players. `Trade` is the state machine of trades (src/game.cpp), `Trade/Commands` the handlers with their
-- guards, `Trade/Partners` and `Trade/Offers` the two halves of its invariant, and `Trade/Reachable` the
-- step relation of the commands. `Experience` is the climb and the fall over the levels (src/player.cpp).
-- `PathFinding` holds the nodes of the path search (AStarNodes of src/map.cpp).
-- Items. `Items` reads the attributes of an item from the database and the map, `Items/Writing` writes them,
-- `Items/Saved` says what comes back, and `Abilities` does the same for the abilities (src/item.cpp).
-- `Containers` is the store of items and containers (src/container.cpp, src/container.h, src/item.cpp):
-- each item has a parent, each container a list and a total weight. `Containers/Methods` are the methods
-- that change it, `Query` is queryAdd, queryRemove and getTopParent, `Iterator` is ContainerIterator. `Sums`,
-- `Nesting` and `Balance` are about the sums over the lists, the parents and the climb of a change of
-- weight; `Intact` is the invariant, kept in `Adding`, `Changing`, `Removing` and `Replacing`; `Reachable` is
-- the step relation of the methods. `Admission` and `Answers` are about queryAdd, and `Under`, `Visits` and
-- `Holding` about what the iterator sees. A weight is a uint32_t with its wrap written out.
-- `Money` is removeMoney and addMoney (src/game.cpp) on that store, with their calls written down as a list:
-- `Money/Change` is about the coins given, `Paying` about those taken, `Once` about how often, and `Finding` and `Removal` about the
-- search for coins in nested containers.
-- `Base` holds what the modules share, and `Tests` applies the theorems to concrete inputs.
--
-- Machine integers are natural numbers with their wrap written out. The cipher is modelled for every build
-- with 2 ^ e lanes. `add_chunks` of the checksum runs on the length of its data as fuel, which is enough as
-- each round takes at least one byte. `climb`, the loop of addExperience, runs on the experience plus two as
-- fuel, which is enough as each round raises the experience that is asked for; `attr_loop` and
-- `ability_loop` run on the number of the bytes and one, of which each round takes one at least. The loops over the
-- parents of a container run on a bound on the depth of the nesting, and the iterator on the number of
-- items that lie in the container; the invariant gives the one and bounds the other.
-- The search for coins runs on the number of the containers, `crystal_stacks` on the number of the coins. All other loops are
-- structural.
--
-- Left out are the sockets, threads, locks and timers, what is sent to the clients about a change, the
-- database, the scripts (their answers are arguments), floating point (addDouble), and the tables of items.
-- RSA is a parameter. A priority queue with equal times serves the older event first here, which the
-- standard library leaves open.
pub mod Base
pub mod Containers
pub mod Money
pub mod Position
pub mod Network
pub mod Login
pub mod Party
pub mod Tasks
pub mod Loader
pub mod WildcardTree
pub mod WorldMap
pub mod View
pub mod Trade
pub mod Experience
pub mod Items
pub mod PathFinding
pub mod Abilities
pub mod Tests
