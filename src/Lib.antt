-- ===== src/Lib.antt =====
-- OTChronos, a game server in C++ (src/*.cpp of the repository), modelled part by part.
--
-- The server keeps players, who gather in parties (party.cpp, game.cpp, player.cpp); it talks to
-- clients in packets (networkmessage.cpp), which protocol.cpp encrypts and tools.cpp sums up.
--
-- Prelude     Boolean tests, lists over the native numbers, and what `erase` and `remove` do to
--             the count of an element.
-- Party       party.cpp and party.h. `Party.State` has the heap: `World` maps player numbers to
--             `Player` and party numbers to `Party`, in place of pointers. `Party` has the methods
--             (`leave_party` is `Party::leaveParty`, and so on), `Party.Calls` the handlers of
--             game.cpp (`player_invite_to_party` is `Game::playerInviteToParty`) and the events
--             that `step` and `run` play. The answers of the event scripts and PZ_LOCKED are the
--             parameter `Env`. Texts, shields and icons sent to clients are left out.
-- Network     `Network.Message` is networkmessage.h and networkmessage.cpp over a byte buffer, a
--             function of the index; `Network.Xtea` is `Protocol::XTEA_encrypt` and
--             `Protocol::XTEA_decrypt`; `Network.Adler` is `adlerChecksum`. Words are little-endian
--             and wrap at 32 bits. AddDouble and AddItem are not modelled: they rest on floating
--             point and on the item table.
-- Player      player.cpp, with getReqMana of vocation.cpp. `Player.Climb` is the loop that the
--             trainings share, `Player.Training` what calls it (`add_skill_advance` is
--             `Player::addSkillAdvance`), `Player.Level` experience and levels, `Player.Vitals`
--             stamina, soul points, skulls, the message buffer and the VIP list. What a level
--             costs, the vocation's gains, the scripts' answers and the clock are parameters. The
--             loops run on fuel: one more than the tries, the experience or the level, which
--             is proved to be enough.
-- Scheduler   scheduler.cpp and scheduler.h, a transition system: `Step` has the operations that
--             hold the lock, in any order (`add_event` is `Scheduler::addEvent`, `time_out` a
--             round of the thread whose wait ran out). What the tasks do is not modelled, nor are
--             steps after the ids, of 32 bits, have wrapped.
-- WaitingList waitlist.cpp and waitlist.h: the two lists, `client_login` for
--             `WaitingList::clientLogin` and `get_client_slot` for `WaitingList::getClientSlot`. A login
--             whose behaviour is undefined answers `none`.
-- NameTree    wildcardtree.cpp and wildcardtree.h: `insert`, `remove` and `find_one` for
--             `WildcardTreeNode::findOne`, over nodes and their children; `NameTree.Shape` has the
--             set of names that a tree stands for.
-- Container   container.cpp and container.h, with parts of item.cpp: `Container.Items` items and
--             their lists, `Container.Place` the operations on a container that stands in other
--             ones, `Container.Query` what it answers (`query_add` is `Container::__queryAdd`),
--             `Container.Cursor` the iterator. What a top parent of another class answers is a
--             parameter. The iterator runs on as much fuel as there are items, which is enough.
-- Chat        chat.cpp and chat.h: `Chat` the channels, `Chat.Calls` what players do to them (`call`
--             plays the handlers of game.cpp). The scripts of channels, guilds and parties of
--             players are the parameter `Env`; what is said is not modelled. A call whose behaviour is
--             undefined, that of an owner of a private channel who leaves the game, answers `none`.
-- Map         map.h and map.cpp: `QTree` the tree of leaves, `get_tile` and `set_tile` for
--             `Map::getTile` and `Map::setTile`. `Map.Path` and `Map.Leaves` say when two places lie
--             in one leaf. The level of a node is 2 less than in the source, so that it ends at 0.
-- Dispatcher  tasks.h and tasks.cpp, a transition system: `call` plays the operations and the steps of
--             the thread (`advance`, the parts of `Dispatcher::dispatcherThread` between which
--             the lock is free) in any order. A signal that is to be sent is counted. What the
--             tasks do is not modelled, so that no task adds another during a flush.
-- Ban         ban.cpp and ban.h: `accept_connection` for `Ban::acceptConnection`, on a map from addresses
--             to entries. Times are of 64 bits and wrap.
-- PathSearch  map.h and map.cpp, `get_path_matching` for `Map::getPathMatching` over the nodes of
--             `AStarNodes`; `PathSearch.Target` is `FrozenPathingConditionCall` of creature.cpp. What the
--             creature and the tiles answer, and the line of sight (see `Sight`), are the parameter `Env`. The search
--             runs on fuel, and some is proved to be enough.
-- Condition   condition.h and condition.cpp, as far as conditions are stored: `Condition.Fields` has the
--             fields of the classes with their `serialize` and `unserializeProp`, `Condition.Store` the
--             loops over them (`load_conditions` and `save_conditions` for those of
--             `IOLoginData::loadPlayer` and `savePlayer`), `Condition.Stream` the streams of fileloader.h.
--             Reading runs on as much fuel as the stream is long, and one more.
-- Tile        tile.h and tile.cpp: `Tile` has `tile_add_thing` and `tile_remove_thing` for `Tile::__addThing`
--             and `__removeThing`, `Tile.Stack` the things by their index (`get_thing`,
--             `get_index_of_thing`, `replace_thing`). `Tile.Layers` says how items are ordered. A list that
--             the source has not made is an empty one. Flags and what players are told are not modelled.
-- Sight       map.cpp, `check_sight_line` for `Map::checkSightLine` and `is_sight_clear` for `Map::isSightClear`.
--             The loop along the line runs on as much fuel as there are tiles to go, which is enough. Ints are
--             not bounded: those of the source do not overflow where places are less than 4096 tiles apart.
--             `Sight.Ties` shows that each round takes a step, `Sight.Near` that it keeps to the line.
pub mod Prelude
pub mod Network
pub mod Party
pub mod Player
pub mod Scheduler
pub mod WaitingList
pub mod NameTree
pub mod Container
pub mod Dispatcher
pub mod Ban
pub mod Chat
pub mod Map
pub mod Tile
pub mod Sight
pub mod Condition
pub mod PathSearch
