-- ===== src/Lib.antt =====
-- SNuffin: a snake game for up to four players over sockets or FIFOs, in C.
--
-- A super server hands out lobbies; each lobby is a process (childServer.c) that logs its clients
-- in, waits until they are ready, and runs the match on a board (game.c). Client and server
-- exchange short text messages (marshalling.c), which travel with a final 0 over a transport
-- (comSocket.c or comFIFO.c) and are cut apart by a queue (comWrapper.c). Messages for the
-- operators go to a log server (log.c).
--
-- Files and the code they are about:
--   Common, Common/Tests, Common/Lists, Common/Int: Boolean tests, the option monad, lists, and the
--     C types `int` and `long`
--   Libc, Libc/*: what the code uses of the C library: `%d`, strtol, memcpy, strings, calloc
--   Structs: structs.h, and the `StreamData` of com.h
--   Marshalling, Marshalling/*: marshalling.c. Tags has the constants of marshalling.h, Places is
--     numPlaces, Encode the functions marsh…, Decode the functions unmarsh…, Message marshalling,
--     unmarshalling and getType; Fields, Sizes, RoundTrip and Grid have the proofs, Faults what
--     goes wrong
--   Com, Com/*: Transport is receiveData of comSocket.c and comFIFO.c, Fifo the names of the FIFOs of
--     comFIFO.c and the message by which a client makes itself known, Ends is connectToPeer,
--     acceptConnection and closeConn of comFIFO.c and removeEOL of comSocket.c, Socket the same calls
--     and listenConnection of comSocket.c; Ports has the proofs on Socket
--   ComWrapper, ComWrapper/*: comWrapper.c. Split is split and clearArr, Reader is readData, Queue
--     the queue that its globals are, Single the case of one message
--   Game, Game/*: game.c. Cells are the arrays, Board the GameBoard, initBoard, outOfBoard and
--     updateMovementDirection, Load is loadSnake and loadSnakeNumber, Tick is updateBoard, Print the
--     colours and printBoard; Valid, Moves, Invariant, Update, Ticks, Loading and Callback have the
--     proofs
--   Log: log.c
--   LogServer: the loop of mqserver.c
--   SuperServer, SuperServer/*: superServer.c. Join is the table of lobbies and the answer to a
--     client, Turns the turns over time; Lobbies, Entries and Steps have the proofs
--   ChildServer, ChildServer/*: childServer.c. State has the Client and the globals, Notify the
--     messages between clients, Requests is resolveRequest and what it calls, Match is initGame and
--     what it calls, Listen is initServer, lobby, listenAndResolve, listenToClients and
--     listenNewClients; Protocol is the protocol of the clients and Protocol/* that resolveRequest
--     keeps to it; Lobby is the turns of the threads and Lobby/* what they keep, and how the loop of the
--     match ends; Logging, Over,
--     Slots, Begin, Start, Keeps, Leave, Login, Verdict, Goodbye and Accounts have the other proofs
--   Database, Database/*: dbManager.c and db.c. Shared is the memory of dbconst.h, Queries the
--     statements and loadInt, Requests manageDataBase and the requests, Lobby what they are to the
--     lobby server; Arguments, Answers, Digits, Scores and Undefined have the proofs
--   GameClient, GameClient/*: client.c. Lobby is the table of players and the messages of
--     prepareLobby, Keys what listenToPress does with a key, Typing is getPass and an editor of one
--     line, Dialogue getInformation and getName, Screen printBoard, printPlayerColor and printLobby,
--     Loops prepareLobby, startGame and gameOver, Join is game, Mode changeMode and connHandler;
--     Table, Line, Editor, Hear, LogIn, Render, Watch and Way have the proofs
--
-- Memory. A `char *` is the array from the byte pointed to onwards, and undefined behaviour, such as
-- an access out of bounds, a null or an unset pointer or an overflow of `int`, is `none` in the
-- option monad. Arrays on the stack and memory of malloc hold what they held before, which is an
-- argument. The bytes of `char` are numbers below 256.
--
-- Bounds and fuel. `numPlaces` and the loops of `loadInt` run on fuel for the ten digits of an `int`,
-- the loop of `loadSnake` on fuel for the twenty cells of a row; the theorems about them show that it
-- is enough. The loop of `split` counts the bytes that are left.
--
-- Interfaces. `updateBoard` takes `playerLost` as a parameter, which the lobby server fills in; the
-- lobby server takes the data base as a record of requests, which `lobby_db` of Database/Lobby fills
-- in with those of dbManager.c. SQLite is a
-- record of what a statement gives.
--
-- Threads. A lobby's process has three threads; they take turns with whole calls (`Turn` of
-- ChildServer/Lobby), in any order. Inside of a call nothing is interleaved. Loops that wait for
-- input are functions of the list of what comes; a result says whether they still go on. That `kbhit`
-- keeps `getchar` from a key is not modelled: the keys are what `getchar` returns.
--
-- Not modelled: `main` and `kbhit` of client.c and its configuration, opening the queue in mqserver.c,
-- SQLite itself, the set-up of superServer.c, and interleavings inside of a call. What `send`, `write`
-- and `mq_send` do with what they are given is the system's, and that a failed call ends the process
-- is only modelled in Com/Socket, and for `initServer` as an input of the super server. The directory
-- of old code that the build does not use is left out.
pub mod Common
pub mod Libc
pub mod Structs
pub mod Marshalling
pub mod Com
pub mod ComWrapper
pub mod Game
pub mod Log
pub mod LogServer
pub mod ChildServer
pub mod Database
pub mod SuperServer
pub mod GameClient
