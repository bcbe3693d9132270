-- ===== src/Lib.antt =====
-- localhoist shares a local Laravel project over a public tunnel. One run repairs what an earlier
-- run left (internal/envfile), reads the project's settings (internal/laravel), picks a transport
-- (internal/config), serves a local mux in front of the app, Vite and Reverb (internal/proxy, with
-- the body rewrites of internal/rewrite), starts the tunnel (internal/tunnel), and patches APP_URL in
-- .env until it ends (cmd/localhoist/main.go).
--
-- Which file models which part:
--   EnvFile: internal/envfile/envfile.go. `File` is the struct; `load`, `get_raw`, `get`, `set` and
--   `save` are its methods, `parse` and `render` the conversions inside `Load` and `Save`.
--   EnvFile/State has `State`, `SaveState`, `LoadState` and `Restore`. The map of originals is a list
--   of pairs in the order in which a loop visits them.
--   Command: cmd/localhoist/main.go. Command/Main is `main` with the flags of `run`, Command/Run is
--   `run` behind them, from the repair to the waits. Command/Session has the variables that its
--   closure `cleanup` shares, and what is printed and stopped as a list of effects; Command/Banner is
--   the banner, Command/Patch the repair at the start, Command/Safe what the disk may be like between
--   two runs. A run meets `Surroundings`: the environment, the terminal, the listener, the tunnel and
--   what ends its two waits. Command/Settings is `runConfig` of cmd/localhoist/config_cmd.go.
--   Proxy: internal/proxy/proxy.go. Proxy/Forward is the Rewrite hook of `newProxy`, Proxy/Respond is
--   `rewriteResponse` and what it calls. The log lines and the error page are left out.
--   Rewrite: internal/rewrite/rewrite.go, with a matcher for the regular expressions that it uses.
--   Config: internal/config/config.go.
--   Laravel: internal/laravel/laravel.go.
--   Tunnel: `start` of internal/tunnel/tunnel.go, as a sequence of events. The process, the scanner of
--   its output, the clock and the context give the events in any order, and the `select` may take any
--   case that is ready. Tunnel/Parse has the parsers of internal/tunnel/ngrok.go and
--   internal/tunnel/cloudflare.go, Tunnel/Launch what the two start and what `Start` returns,
--   Tunnel/Install is internal/tunnel/ensure.go, Tunnel/Stop the method `Stop`, whose steps and those
--   of the process and the clock come in any order.
--   Common: bytes as lists of numbers, the functions of Go's strings, strconv, net/url, net/http
--   and flag that the program calls, and the file system.
--
-- The file system (Common/Disk) maps paths to files. A world carries a list of faults, one for each
-- system call: the call works, is refused, is torn behind some bytes, or the process is killed before
-- or within it. Behind the end of the list all goes well. A theorem about every world is one about
-- every way to fail or to crash: to be killed between two calls, in a wait for instance, leaves the
-- disk as to be killed before the next one does. Two runs never take place at the same time.
-- A call ends with a result, with an error, or with the process killed. A panic, the assignment to
-- an entry of a nil map in `Set`, is one more error, `nil_map`: it passes over the code behind it as
-- any error does, `run` does not handle it, the deferred clean-up runs, and the exit code is 2.
--
-- Bounds and fuel: `itoa` recurses on fuel above the value, which is enough since each round divides
-- by ten; a repetition of a pattern on the length of the text, since each round takes a byte or more.
-- Replacements pass over the bytes of a match by a counter. An `int` has 64 bits.
--
-- Parameters: encoding/json (a codec), url.Parse, the environment, the terminal, the listener, the
-- tunnel that a run opens, the search of PATH and the run of brew, and the files that are only read.
-- What is assumed of them is a named hypothesis of each theorem. A directory is named by one path:
-- the path that `filepath.Abs` makes of it is the same one, or an error.
--
-- Not modelled: what a signal does to the process of the tunnel, the HTTP server that serves the mux,
-- the text of what is printed, logging, the PHP package under packages/laravel, the web page, the
-- documents and the build.
pub mod Common
pub mod EnvFile
pub mod Command
pub mod Rewrite
pub mod Proxy
pub mod Config
pub mod Laravel
pub mod Tunnel
