-- ===== src/Lib.antt =====
-- A model of OpenBookFS, a peer-to-peer file system whose backends exchange directory listings, version
-- vectors and file contents, in the parts that decide what is stored and what is sent.
--
-- How the parts interact. A backend (src/backend/Backend.cpp) owns one SQLite database
-- (src/backend/Database.cpp) and the map of the public keys it knows. Messages of a connected peer reach
-- it through the MessageHandler of the connection (src/backend/MessageHandler.cpp): IdMap sets up the
-- translation of the peer's numbers, DirChunk enters the names of a directory, NodeInfo announces a file
-- with its version vector (src/backend/VersionVector.cpp), which is compared with the local one; a newer
-- file is registered as a download and requested by SendFile; the peer then runs the job
-- src/jobs/SendFile.cpp, whose FileChunk messages are merged until the file is complete.
--
-- VersionVector: src/backend/VersionVector.cpp. The std::map is the list of its entries in the order of the
-- keys; set_insert and key_union are keyUnion, get and assign the two operator[], less, less_equal, greater,
-- greater_equal, equal and not_equal the comparison operators, each with its loop.
--
-- Database: src/backend/Database.cpp. Db is the contents of the tables, M what a method can do: run
-- statements, each committed by itself, and throw; caught is the catch of every method. Files has the
-- statements on the table files with mknod, unlink, readdir, merge, isSubscribed, checkout and release;
-- Versions has getVersion, setVersion, incrementVersion and assimilateKeys; Peers has registerPeer,
-- getClientMap and buildPeerMap; Downloads has the statements on the tables downloads and downloads_v and
-- Downloads/Handlers addDownload and mergeData, on a Store: the tables with the contents of the staging
-- directory and of the shared directory. The SQL texts are read as what they say of the tables that
-- Database::init declares, with the constraints UNIQUE written out. An argument called junk is the
-- indeterminate value of a local variable that the code does not initialise. View is the abstract view.
--
-- Backend: src/backend/Backend.cpp, the end of setDataDir, registerPeer, unregisterPeer, mapPeer and
-- buildPeerMap; Arguments has the loop over the arguments of a mount point, in AddMountPoint of
-- src/backend/MessageHandler.cpp and in loadConfig, Config the settings with their setters and Loading
-- loadConfig and saveConfig, with the YAML library as a parameter. MessageHandler: mapVersion and the handler of
-- IdMap; MessageHandler/Files the handlers of NodeInfo, SendFile, FileChunk and DirChunk. Jobs:
-- src/jobs/SendFile.cpp; each round of its loop is given what it finds, and messages are delivered in the order in
-- which they were sent. Jobs/Tree: src/jobs/SendTree.cpp, on a tree of files and tables that do not change under
-- the job. What comes of each call of Backend::sendMessage is given by its number: a peer may go and come back
-- between any two calls, its connection may ignore the message, or its queue may have no free node for the
-- priority, which ends in the use of a null pointer. The queue of directories runs on fuel, and one round more than
-- there are directories is enough.
--
-- JobWorker: src/backend/LongJob.cpp, the linked queue of jobs: enqueue, the critical section of main and its end;
-- jobs are places in the list of their pointers next.
--
-- Queue: src/Queue.h. Nodes has the doubly linked nodes with the operations on a chain that Queue.h and
-- PriorityQueue.h share; a pointer is the place of a node in its block. PriorityQueue: src/PriorityQueue.h, one
-- such queue for each priority, and the set of the priorities that have elements. What waits on a condition is
-- an outcome of its own, and so is the use of a null pointer. Runs takes the operations of all threads in the
-- order in which they hold the mutex.
--
-- Marshall: src/Marshall.cpp, and Marshall/Dispatch parseMessageId of src/messages.cpp with the search of the
-- templates. Each call of recv or send takes a turn from a list, which says how many bytes pass or what goes
-- wrong; a loop without turns waits. The wire is the list of the bytes that are under way. The search of the
-- templates runs on fuel, and NUM_MSG rounds are enough.
--
-- Connection: src/backend/Connection.cpp, the handshake as a monad over the packets that come in and go out
-- (Wire), with CryptoPP as a parameter: SetKeyWithIV may refuse the key that initAES gives it, and throws then. In
-- the handshake the socket itself does not fail. Threads has listen, shout and the end of main, on the priority
-- queues; shout is given the outcome of each write of Marshall, which returns, throws or waits. Threads that wait
-- for each other are not modelled: shout and the end of main have the queue alone.
--
-- RefPtr: src/ReferenceCounted.h, the counted pointers: variables are places in a list, and objects are numbers.
--
-- FileMap: src/backend/FileContext.cpp, the open files of a mount and the free handles. Fuse: of
-- src/backend/FuseContext.cpp mknod, create, open, read, write and release, with the tables that they
-- change; the destructor of FileContext runs in release. Fuse/Names has the other operations; what a system
-- call answers is an argument, and a function of the descriptor where the code chooses that. fs::remove_all may
-- throw; fs::exists answers, and its exceptions are not modelled.
--
-- Numbers: int64_t and int are integers without bounds, rows of tables have native numbers as ids. The
-- narrowing of 64-bit columns by row.get<int> is not modelled, nor a path or a name with a quote in it,
-- which would end the SQL text that it is pasted into. The boost::filesystem operations on paths, ORDER BY
-- and the outcomes of system calls are parameters. The mutexes are not modelled: each method of Database
-- holds one from its start to its end. The tables conflicts and conflict_v are created and not used again.
-- The loop of SendFile runs over a list of rounds, and on fuel run the loop that unlinks the jobs of a worker, the
-- queue of SendTree and the search of the templates; a theorem says of each how much is enough. Every other loop
-- modelled here runs over a list of the program.
pub mod Prelude
pub mod VersionVector
pub mod Database
pub mod Backend
pub mod MessageHandler
pub mod Jobs
pub mod JobWorker
pub mod RefPtr
pub mod Queue
pub mod PriorityQueue
pub mod Marshall
pub mod Connection
pub mod FileMap
pub mod Fuse
pub mod Tests
