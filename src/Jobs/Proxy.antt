-- ===== src/Jobs/Proxy.antt =====
-- tools/cloudsqlproxy/cmd/cloudsqlproxy/main.go: the proxy as a child process.
use scaffolding.Base.{Bytes, Option, none, some, Result, ok, panic, codes, contains, if◌then◌else◌}

-- `main`, by the text of the error with which the child has ended; then it waits for the end of the
-- job.
unfoldable pub proxy_main : Option Bytes → Result (Unit {0})
unfolding contains
proxy_main none = ok tt
proxy_main (some text) = if contains text (codes "signal: killed") then ok tt else panic "%v"
