-- ===== src/Lib.antt =====
-- telnetServ: a telnet server inside a program. Clients see what the program logs and call the
-- functions that it has registered.
--
-- The parts, and the files that model them (paths are from the repository's root):
--   FixedBuffer: the class template of telnetServ/telnetServ.h, an array with a write cursor.
--   MsgBuf: appendToMsgBuf and LogOutPutFun of telnetServ/telnetServ.cc. Program threads fill
--     currentBuffer_; the log thread takes the buffers under the lock, hands them on to
--     sendMsgToTerminal and gives empty ones back. MsgBuf.antt has the operations on the buffers, MsgBuf/Threads.antt the threads as
--     a step function: any thread's critical section may come next, from the start of the
--     log thread on, which its assert on isRunning_ may end. MsgBuf/Output.antt has what the calls of
--     sendMsgToTerminal do: they send to the client that is there, if any.
--   Sock: SockSend and sendMsgToTerminal, over send(2) as a parameter.
--   Os: the trace of effects that these write, and what a socket's peer has been sent.
--   Prelude: numbers, tests and lists.
--   Text: the C string functions. CmdTable: regCommand and FindCommand.
--   Args: the scan of RunCmd that cuts a command line in place, and WordParse. Args/Items.antt has
--     command lines that are written from arguments, for the round trip in Args/RoundTrip.antt.
--   Terminal: the state of the telnet thread, pushMsgToTerminalImmidate, PromptShow and telhelp.
--   Command: CmdParse and RunCmd. Daemon: isNullStr and the event loop of TelnetDaemonFun, which
--     reads keys, edits the line in `command` and `cmdLen`, and submits it to Command.
--     Daemon/Session.antt and the files it uses (Trim, Call, Echo, Submit, Answers, Events) follow
--     a client's bytes from recv through the line editor, CmdParse, the scan and the call to what
--     the client is shown, and Daemon/Bye.antt, Daemon/Served.antt and Daemon/Program.antt have
--     the end of a session, all of one, and the thread around it. The functions reply and effect
--     of Daemon/Answers.antt are the abstract shell.
--   Listen: createTcpListenSock and the head of TelnetDaemonFun, which looks for a port; socket(2),
--     bind(2) and listen(2) are parameters. Daemon/Thread.antt has TelnetDaemonFun as a whole.
--   Printf: telPrintf, telPrintfNoTime and formatTime, which log to MsgBuf. The clock and
--     muduo::TimeZone::toLocalTime are parameters; a format with its arguments is what it comes to.
--   Lifecycle: the members of TelnetServer, its constructor, init, destory and destructor, with a
--     trace of its threads' starts and joins; and telnetServ/main.cc.
--   AsyncLogging: muduo/base/AsyncLogging.h and AsyncLogging.cc, the same buffers with a thread that
--     writes to a log file; it shares MsgBuf's record of the members. AsyncLogging/Output.antt has the
--     log file of that thread.
--   LogFile: muduo/base/LogFile.h and LogFile.cc, a log file that rolls and removes old ones, as a
--     step on its members and the world. LogFile/Dirs.antt has createDir.
--   Logging: muduo/base/Logging.h and Logging.cc, from the test of a statement's level to the output
--     function.
--
-- Bytes are native numbers; machine integers keep their wrap-around where the code can reach it.
-- A null pointer is `none`. Loops that the code does not bound run on fuel, and `none` says that it
-- ran out; the theorems give an amount that is enough. kLargeBuffer is a parameter `size`, above
-- MAX_LOG_MSG_LEN and below 2 ^ 31.
--
-- The log file's calls of the operating system, of FileUtil::AppendFile and of ProcessInfo are the
-- record `Host`, and LogStream is the record `LogStream`, each with the laws that the proofs need.
-- LogFile, AsyncLogging and Logger are in the repository's own versions, which differ from those of
-- muduo.
--
-- Not modelled: the messages on stdout and stderr; what pthread_create and pthread_join do, so
-- that a join returns is not shown; the registered functions; and the other files of muduo/base, a
-- copy of another library, whose locks, conditions and threads are the steps of the models above.
-- A format of telPrintf is what it comes to, and no format string is read.
pub mod Prelude
pub mod Os
pub mod FixedBuffer
pub mod MsgBuf
pub mod Sock
pub mod Text
pub mod CmdTable
pub mod Args
pub mod Terminal
pub mod Command
pub mod Daemon
pub mod Listen
pub mod LogFile
pub mod Printf
pub mod Logging
pub mod AsyncLogging
pub mod Lifecycle
