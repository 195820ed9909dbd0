-- ===== src/Daemon/Program.antt =====
-- The telnet thread from its start to the end of its first client.
use telnet_serv.Terminal.{Daemon}
