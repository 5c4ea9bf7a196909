-- ===== src/Lib.antt =====
-- A verification library for the network of routers in this repository: the message protocol and the
-- network layer of common/, the controller of controller/, and the router of router/.
--
-- The programs. Routers log in to a controller, which holds a topology, and poll it for their
-- neighbours; then they talk to one another. Both sides exchange lines of text that end in a star.
-- common/messages.c prints, frames, unframes and parses them; common/net.c keeps the array of
-- connections and raises an event for each thing that happens on one; controller/net_functions.c has
-- the controller's event functions, which parse what they are given, hand each message to
-- `exec__sock_message` of controller/exec.c, and send the answer. A router (router/, in C++) has event
-- functions of its own, which hand each message to `Exec::sock_message`: it reads the controller's
-- lists of neighbours and the neighbours' vectors of distances into its table of routes, and passes
-- packets, pings and pongs on to the next hop.
--
-- The modules.
--   Prelude: numbers, lists, texts, and `Outcome`, what a C function does: a value, or the reason why
--     its behaviour is undefined.
--   Libc: `strtok`, `strstr`, `atoi` and the printing of an `int`, as the sources use them.
--   Util: `strcopy` and `strcopy2` of common/util.c.
--   Messages: common/messages.h and common/messages.c. Types has the enums and the struct; Escape the
--     escaping and framing; Regexes the table of patterns and the search in it; Reader, Cases and Parse
--     `mess__parse`; Print `mess__toString`; Multiline `mess__multiline_parse`. Wire is the
--     protocol that the comments of messages.h describe, apart from the code.
--   Config: common/config.c, the settings.
--   Net: common/client.c in Client; common/net.c in Sockets, Network, Sending and Update, the last of
--     them `network__update`. A sequence of connections is a relation, Network.Watched.Reach.
--   Controller: controller/graphlib.c in Graph, controller/info_table.c in Table,
--     `exec__sock_message` in Sock, `exec__prompt_message` in Prompt, controller/net_functions.c in
--     Events, whose `controller_events` fill the parameter of Net.Update; controller/main.c,
--     `exec__init` and common/prompt.c in Main.
--   Router: router/entry.cpp and router/routetable.cpp in Table; the members of `Router` and
--     `Exec` in State; router/sock_actions.cpp in SockActions, router/prompt_actions.cpp in
--     PromptActions; `parseVector` of router/router.cpp in Vector and `parseNeighborhood` in
--     Neighborhood; `Exec::sock_message` of router/exec.cpp in Exec and `Exec::prompt_message` in
--     Prompt; router/event.cpp, and a round of each thread's loop, in Events; the constructor,
--     `mainLoop` and router/prompt.cpp in Start. Vector.Shortest has the distance-vector step apart
--     from the code, Exec.Handed what a router on the way makes of a message of the protocol, and
--     Journey a message that passes several routers, each of which reads what the one in front has
--     sent. Neighborhood.Polled and Vector.Received go from one program to another: `handled` is
--     what a router makes of the text that another program's message is printed as.
--   Tests: runs on concrete inputs, and the theorems applied to such inputs.
-- The modules below a component prove what they are named for.
--
-- How the code is rendered. A C string is the list of the bytes in front of its terminator, and a
-- pointer that may be NULL is an option. A struct is a record, an enum a data type; the array of
-- clients is a list of its used part, so that `nb_clients` is its length. Reads and writes outside
-- a buffer, reads of NULL, of memory that nothing has written, and `int`s out of range are faults.
-- The functions of the system answer through the record `Os`, and what a program asks of it is a
-- list of effects. The event functions are a record of functions over a state of their own. In the
-- router, a `std::map` is a list in the order of its keys, a `Client *` is an index of the array of
-- clients or stands for the variable of `network__update`, an erased iterator that is used and a
-- pointer to what is gone are faults, and so is an exception that nothing catches. The buffer that
-- `mess__toString` returns of a type that it does not print is `Buffer.unwritten`: freeing it is no
-- fault, reading it is one. What `Display` is called with is a list of notices.
--
-- Loops are structural recursion. Four run on fuel: `read_from` has as much as the text has bytes,
-- one for each round; `tokens` one more than that, since every round takes a byte at least;
-- `disconnect_node` as much as the node has edges, one of which every round deletes; and `digits`
-- has ten, as many as an `int` has digits. The attempts to reach the controller, the rounds of a
-- main loop and the routers of a journey are lists.
--
-- Parameters. The matcher of trex/ is a function; what is asked of it is that a text that matches a
-- pattern begins with the pattern's literal bytes, and, where a theorem says so, that it matches a
-- given text to its pattern. The graphviz library, the hash table of controller/hashtable.c,
-- `getsockname` and the sockets are records of functions.
--
-- Not modelled: failure of `malloc`, the lifetime of texts, what is printed to the terminal,
-- signals, threads and the races between them, the seconds that a thread sleeps, the files that the
-- topology is read from and written to, controller/display.c, router/main.cpp, router/display.cpp,
-- example/, and the copies of other projects' libraries in trex/ and controller/hashtable.c.
pub mod Prelude
pub mod Libc
pub mod Util
pub mod Messages
pub mod Config
pub mod Net
pub mod Controller
pub mod Router
mod Tests
