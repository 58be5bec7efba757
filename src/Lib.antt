-- ===== src/Lib.antt =====
-- A verification library for the PC side of Cosmos (w10_pc_user/w10_pc_user), the program that talks to
-- a W10 watch over a serial port: it finds the port, downloads the files of the watch, turns them into
-- text, and sends firmware by the YMODEM protocol.
--
-- The dialogs (w10_pc_user.cpp) start threads: the search for the port (`CheckAll`), the download
-- (`doSync`, MainProcFunc.cpp), its end (`StopThread`) and the update (`doUpdate`, UpdateGWatch.cpp).
-- `doSync` opens the port (`CosmosSpp`, `ComIO`), which starts the reading thread, and asks for file
-- after file; the reading thread hands each buffer to `CosmosReadCommProc::proc`, which takes it for a
-- command or for a piece of the file that it saves, and tells `doSync` by a flag; `doSync` then starts
-- `doParseFile` (CosmosParser.cpp) on the file. `doUpdate` reads an image and hands it to
-- `Ymodem_Transmit` (modem/ymodem.cpp), which builds packets, checks them with a CRC, and sends them
-- through `BCB2WIN` (modem/ymodem.h) and `ComIO`. Unit1.cxx is an older form of the update.
--
--   Os       Windows as a parameter: a record of the calls, with the documented bounds of their results
--            as hypotheses, and the state that all parts thread through
--   ComIo    ComIO.cpp: InitComIO, DeinitComIO, ReadCom, WriteCom; ComIo/Device is what is registered with
--            a port, ReadThread, and CosmosSpp
--   Crc      UpdateCRC16, Cal_CRC16, CalChecksum; Crc/Spec is the division of polynomials that the
--            standard describes, Crc/Loop, Crc/Linear and Crc/Detect are about it
--   Bits     laws of the bit operations
--   Ymodem/Packet    Int2Str, Ymodem_PrepareIntialPacket, Ymodem_PreparePacket
--   Ymodem/Uart      BCB2WIN, Receive_Byte, Send_Byte, Ymodem_SendPacket, Ymodem_WaitForChar
--   Ymodem/Transmit  Ymodem_Transmit
--   Ymodem/Receiver  a receiver, written from the description of the protocol, for the round trip
--   Download  CosmosReadCommProc.cpp: the tags, DeinitFile, InitFile, DeleteLastFile, and proc as a function
--            over the fields of the object; Download/Text is what it uses of the C library
--   Sync     MainProcFunc.cpp: doSync, checkFileExist, StopSync. Sync/Steps is the relation by which its
--            rounds, those of the reading thread, and StopSync follow each other in any order;
--            Sync/Accesses takes the rounds of doSync apart at each access to the flag, and those of the
--            reading thread in two pieces; Sync/Accesses/Rounds puts the former together again, and
--            Download/Pieces the latter
--   Ports    checkComm, getCommPort (MainProcFunc.cpp) and CheckAll (w10_pc_user.cpp)
--   Parser   CosmosParser.cpp: doParseFile. Parser/Format is what it takes from Storage.h, Parser/Texts
--            what it prints, Parser/Tape the file that it reads, Parser/Entries the records of one
--   App      w10_pc_user.cpp: dlgMainProc, dlgBtInit, StopThread, and Refresh (MainProcFunc.cpp)
--   Update   UpdateGWatch.cpp: doUpdate, which reads an image and sends it; Update/Wire and Update/Sending
--            are about what it sends
--   Form     Unit1.cxx: the memo (Form/Messages), the port (Form/Uart), Process_Update (Form/Update),
--            Button1Click (Form/Choice), and the constructor, the closing of the form and the loop of the
--            thread (Form/Life)
--   AutoUpdate  sql_api/0_PC.cxx, a program of its own, which the project does not build: _tmain,
--            WriteLogFile, TimerProc. What it asks for is a record of answers, what it does a list. What the
--            library for the database gives on a handle that it has closed is such an answer, or a fault
--   Prelude  shared names, Boolean tests, lists, arrays, machine words
--
-- An array is the list of its bytes, a pointer into it the list from there on or an offset. A word of w
-- bits is a number with `% 2 ^ w` where the source wraps around. The sources' loops have a fixed number
-- of rounds, which is the fuel, but for these: the loop over the bits of a byte ends after eight rounds;
-- `while (size)` ends after at most as many rounds as the file has bytes, since each sends at least one;
-- the loop over the body of a downloaded file ends within a round more than the file has bytes; the
-- loop of `doSync` is a number of rounds; the loop of `Ymodem_SendPacket` and that of `Button1Click`
-- have no bound, their fuel is a parameter, and running out of it is a result of its own (`none`,
-- `hung`).
--
-- The watch is not in the repository. Where a statement needs it, the hypothesis is `IsAnswer`: the
-- watch tells a size to read only when it was asked for a file, and no other size. In Sync/Accesses, it
-- was asked only once the request is written.
--
-- Not modelled: messages to the debugger, and `Sleep`. Of the critical sections, that what `doSync` does
-- under `main_cs` is one step in Sync, and that it keeps StopSync out in Sync/Accesses. The two threads
-- also share the port object, which StopSync deletes while the reading thread may still use it; that is
-- not modelled. What the reading thread does with one buffer is one step in Sync, which comes before or
-- after a round of `doSync`, and in Sync/Accesses two, which come between any two of its accesses: up to
-- the flag 2 or the count, and InitFile, or DeinitFile and the flag 3. In Form/Life, the test of
-- `Terminated`, the wait, Process_Update up to the button enabled, and the box enabled are each a step of
-- the thread; a click, the closing of the form and its timer are one step each. `_tWinMain` opens
-- the dialogs one after the other. Of Unit1.cxx, Unit1.h and the resource of the form are not in the
-- repository. sql_api/zlb_mysql and the headers of MySQL beside it belong to other projects.
pub mod Prelude
pub mod Bits
pub mod Os
pub mod Crc
pub mod ComIo
pub mod Ymodem
pub mod App
pub mod AutoUpdate
pub mod Download
pub mod Form
pub mod Parser
pub mod Ports
pub mod Sync
pub mod Update
