-- ===== src/Lib.antt =====
-- A verification library for the journal memory service of optionHedge (memoryManage/).
--
-- The program keeps journals: sequences of frames in memory-mapped page files. A writer appends
-- frames to the last page of its journal, readers follow it, and each frame's status byte says whether
-- it is written. A page engine (the process "paged") creates and counts the pages that clients use:
-- a client registers over a socket, is given messages of a shared table, and asks for pages by
-- setting a message to "requesting", which the engine's comm thread answers.
--
-- Which file models which part:
--   Base, Base/Lists, Base/Text, Base/Memory, Base/Map, Base/Word: shared types and lemmas. Memory is a
--     function from addresses to bytes, with little-endian `load` and `store`; a map is a function to
--     Option; an integer of w bits is its unsigned value, and signed comparisons are `short_lt`,
--     `int_lt` and `long_lt`.
--   Os: the calls of libc and of the kernel, a parameter of the model, and the state and failure
--     monad. A failure is a thrown exception, exit (EXIT_FAILURE), or undefined behaviour.
--   Constants: memoryManage/utils/constants.h, memoryManage/utils/memoryManage_declare.h and
--     system/systemConfig/sys_messages.h.
--   Logging: memoryManage/log/MM_Log.h and MM_Log.cpp; Logging/Once treats when the library behind them
--     is configured.
--   Timer: memoryManage/utils/Timer.h and Timer.cpp. The singleton is `Sys.timer`. Timer/Clock treats
--     the clock, Timer/Calendar has the conversions to and from calendar times.
--   Journal/Frame: memoryManage/journal/FrameHeader.h and Frame.hpp; the proofs are in
--     Journal/Frame/Fields (the header) and Journal/Frame/Data (data and error text).
--   Journal/PageUtil, Journal/Page, Journal/Provider: PageUtil, PageHeader.h and Page, IPageProvider.h
--     and PageProvider, of memoryManage/journal; Journal/PageUtil/Names and Journal/PageUtil/Choice
--     treat the names of page files and the choice of a page by time, Journal/PageUtil/Sort, Latest
--     and Unordered the order of page numbers, Journal/Page/Header the fields of a page's header, and
--     Journal/Page/Load the loading of a page.
--   Journal/Cursor: memoryManage/journal/journal.h and journal.cpp; Journal/Cursor/Read treats a reader's
--     way over a page, Journal/Cursor/Follow over two, Journal/Cursor/Seek its way to a time or to the end of a journal.
--   Journal/Writer: memoryManage/journal/JournalHandler and JournalWriter; the proofs are in
--     Journal/Writer/Write (one call), NextPage and Turn (the step onto a next page), LocalTurn (the
--     same with the local provider), TurnRead (the step and a reader that follows), Run (a run of calls)
--     and RoundTrip (a run of calls and a reader).
--   Journal/Log: the abstract view of a page, a list of entries that its memory holds (`IsLog`);
--     Journal/Log/ErrorText is about a frame's error text, Journal/Log/Append about the writing of a
--     frame, Journal/Log/Scan about the loops of Page,
--     Journal/Log/Close about the closing of a page.
--   Journal/Stores: the stores of write_frame_full one byte at a time, in the order of the program.
--     Journal/Sharing lets a reader take its steps between them, as a step relation; Invariant, Writing,
--     Reading and Safety below it treat what the reader gets.
--   Paged/Msg: memoryManage/paged/PageCommStruct.h; its order is treated in Paged/Msg/Order.
--   Paged/Engine, Paged/Engine/Files, Paged/Engine/Requests: memoryManage/paged/PageEngine.h and
--     PageEngine.cpp. The proofs are in Paged/Engine/Slots (reg_journal), Clients (reg_client and
--     exit_client), Pages (initiate_page), Release (release_page), Serve, Loop and Refused
--     (start_comm), Links, Exit and
--     Sound (which message belongs to whom), Reach (the states of a run, as a step relation) and
--     Counts and Single (the counts of writers over a run).
--     Paged/Engine/Threads has the comm thread, the socket thread, the mutex and the clients' writes step
--     by step; Answer, Holds and Refine below it relate the steps to the operations. A client's write
--     between the two stores of an answer is not among the steps. Paged/Engine/SocketThread is the
--     thread that start_socket runs.
--     Paged/Engine/SystemJournal gives the engine a JournalWriter for its system journal, with its creation
--     in the build without the paged service, and
--     Paged/Engine/Program is memoryManage/PageEngine/main.cpp.
--   Paged/Client: ClientPageProvider of memoryManage/journal/PageProvider.cpp; Paged/Client/Rounds,
--     Paged/Client/Register and Paged/Client/Exit join it with the engine and the socket handler.
--   Paged/Socket: memoryManage/paged/PageSocketStruct.h, PageSocketHandler.h and PageSocketHandler.cpp;
--     requests and responses as records. Paged/Socket/Wire has their bytes, Paged/Socket/Server the
--     handler on bytes; Request, Reply and Exchange below Paged/Socket relate the two, and Steps says
--     what a request does to the engine.
--   Tools: memoryManage/tools/main.cpp; Tools/Rounds treats its loop.
--   Tests: a concrete system to run the model on, and the tests.
--
-- How state corresponds: a class is a record of its members, a method a function on that record and
-- the process `Sys`. What another library does is a parameter: the system calls (`Os`), regular
-- expressions (`matches`) and the JSON text (`dump`). The engine uses the system journal's writer by an
-- interface (`SystemWriter`). Two builds differ in JournalWriter::create: with USE_PAGED_SERVICE, the
-- default, it makes a ClientPageProvider, else a LocalPageProvider; `create_named` takes the choice as an
-- argument. The engine's `start` takes what the creation comes to as a step of its own, since with
-- the service the engine is then a client of itself.
-- The engine's mutex makes each operation one step of the state. Where steps interleave, a store of one
-- byte is one step and becomes visible after the stores before it; in the engine's threads what is done
-- under the mutex is one step but for the answer, which is two.
--
-- Bounds and fuel: a loop over the frames of a page takes fuel, and one round more than there are
-- frames is proved to be enough; a loop over a journal's pages takes a number of pages, and one is
-- enough where the current page has headroom, two where the writer goes on to a next page. A reader's
-- client loop is counted in calls, one more than there are frames. The comm thread's loop is a number
-- of rounds, since the thread itself runs until its flag is cleared. A client's wait for an answer
-- takes fuel too, and two are enough where the thread is at the client's message. `to_string` has the
-- five digits of a short.
--
-- Not modelled: log4cplus, a parameter of Logging; boost::asio, of which the handler's connections enter as
-- the bytes that they give, and libc's calendar, a parameter of the parse functions; the endless loop
-- of the engine's main program, which does nothing; the JSON library's copy
-- (memoryManage/utils/json.hpp); and the headers of the CTP interface, which nothing calls.
pub mod Logging
pub mod Base
pub mod Os
pub mod Constants
pub mod Timer
pub mod Journal
pub mod Paged
pub mod Tools
mod Tests
