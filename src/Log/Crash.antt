-- ===== src/Log/Crash.antt =====
-- base/AsyncLog.cpp: what the files hold when a fatal line has made the program crash.
use yedis.Log.{Log}
