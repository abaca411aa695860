-- ===== src/Lib.antt =====
-- TécnicoFS: a file system in memory with one directory, and the message broker over it.
--
-- The program. fs/state.c holds the tables of the file system (inodes, data blocks, open files)
-- as static arrays, and fs/operations.c the operations on them, each from start to end under one
-- mutex. The broker (mbroker/mbroker.c) keeps a message box in a file; the publishers, the
-- subscribers and the manager speak to it through named pipes, in the messages of
-- utils/logging.c.
--
-- The files.
--   Prelude: Booleans, lists and C integers.
--   State: fs/state.h and fs/state.c. Types has the structs, the record `State` of the static
--   variables, and the monad `Fs` of functions on it; Bytes the memory, `int` in memory and the C
--   strings; Tables the allocators, blocks and open files; Inodes the inodes; Dir the directory's
--   entries; Init the setup of the tables. A function of state.c is the definition of that name,
--   its loop or a part of it one beside it.
--   State/Dir: Listing is the directory as a list of entries, Laws and Links what holds of that
--   list, Refine the loops over bytes against the list, Loops the loops against each other.
--   Invariant: Defs is the invariant `IsSound` of the state between calls; Changes, Calls, Root
--   and Delete say which changes keep it, and what the functions of state.c do under it.
--   Operations: fs/operations.c. Mutex has the lines around each body; Open is tfs_open,
--   tfs_lookup and tfs_close; Transfer is tfs_write and tfs_read; Unlink is tfs_unlink; Setup is
--   tfs_init and tfs_destroy, of which Fresh and Again prove what they leave; Sequences is about one call after another. Their children hold the
--   proofs.
--   Boxes: the list of boxes of utils/logging.c, as a heap of boxes with pointers. Its children
--   say what find_box, insert_box, delete_box and free_boxes do to the list of the boxes'
--   addresses.
--   Text: what the code uses of printf and scanf. Decimal has the round trip of numbers, Words
--   that of words and lines.
--   Messages: the serializers of utils/logging.c, and the calls of sscanf that read the messages
--   in the broker and its clients. RoundTrip reads back what is printed.
--   Clients: publisher/pub.c and subscriber/sub.c; Manager is manager/manager.c. A function named
--   after a file's main, as pub_main, is that main; Requests follows the request of a client into
--   the broker's sscanf.
--   Broker: mbroker/mbroker.c. The record `Broker` has the file system, the list of boxes and the
--   calls that others can see; Manage is create_box, list_box and remove_box, Sessions
--   reg_publisher and reg_subscriber, Main func_main and main. Find says what find_box does
--   between two requests, where `IsBroker` holds; the children of Manage, of Sessions and of Main
--   hold the proofs.
--   Broker/Sessions: Publisher is about one message, Session and its children about a whole session
--   of a publisher, Subscriber and Endless about those of subscribers, Opening about the box's file.
--   Broker/Service: the broker as a service to managers and publishers. `Holds` is the view of its
--   state as a list of names, `Step` what a request does to that list, `Serves` how a run serves a
--   history of requests; Lists, Boxes, Texts and Listed are about names, boxes, what is said of them
--   and their files, Handled, Steps and Actions about one request, Within about what it adds to the
--   names, Histories about func_main, Lifetime about main. A request to create a name that may be
--   there is no part of such a history, since it frees a box that stays in the list; nor is one of a
--   subscriber, whose session does not end.
--   Tests: a small file system, a list of boxes and some messages, and the theorems at them.
--
-- How the code is modelled. A call is a function from the state to an outcome: it returns a value
-- with the state, `PANIC` ends the process, the code does what C leaves undefined (an index or a
-- copy outside its array), or it waits for a mutex its own thread holds; a statement of what a
-- call returns leaves no room for the other three. A pointer into a table is its index, a pointer
-- into fs_data its offset. `int` is an integer that wraps at 32 bits where a number is stored in
-- it, `size_t` a number modulo 2^64. Loops count down the rounds left, which start at the size of
-- the table, as in the code. The walks along the list of boxes have no bound in the code: they
-- take the rounds they may make, and a list needs one for each of its boxes. An entry of the
-- directory is 44 bytes, the name and the `int` in little endian. What malloc returns is the
-- parameter `Allocation`: for each table NULL or an array with anything in it.
--
-- The broker and its clients. A client is a function from what open, mkfifo, write, read and
-- fgets give it to the value of main and the calls that others can see (`Event`). A handler of
-- the broker is a function on its state, with what the system gives it as the parameter `World`;
-- it returns, ends the process, does what C leaves undefined, waits for its own mutex, or needs
-- more rounds than it may make. The loops of the sessions have no bound in the code: the calls of
-- read on the pipes are a list, and the loop of a subscriber takes a number of rounds. Every
-- request writes 400 bytes: the text, its NUL, and what stands behind it in memory. The bytes
-- that a read leaves in a buffer stay there, as does a variable that sscanf does not set; a
-- string too long for its array is undefined, as is atoi of a number that is no `int`. A write succeeds or fails for a descriptor and its
-- bytes, and a call of open gives a path the same descriptor each time.
--
-- Not modelled. The busy loop of insert_delay changes nothing. The calls are sequential: each
-- holds the mutex over its whole body. A strcmp that runs past an array of names with no NUL is
-- undefined in the model. A signal that breaks into the code is left out, also that of a write to
-- a pipe that nobody reads; `sig_handler` says what the broker's handler does where it is called,
-- and those of the clients set a variable that nothing reads. The one thread that main starts and
-- joins is a call. A malloc of a message or a buffer succeeds; error texts and the other lines of
-- the broker on the standard output are not kept. The names of boxes are compared as their bytes
-- up to the NUL.
pub mod Prelude
pub mod State
pub mod Invariant
pub mod Operations
pub mod Boxes
pub mod Text
pub mod Messages
pub mod Clients
pub mod Broker
pub mod Tests
