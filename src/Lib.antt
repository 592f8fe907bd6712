-- ===== src/Lib.antt =====
-- eiger is a service that hands out headless Chrome sessions. A request comes in over HTTP or a
-- WebSocket (crates/eiger-api), takes a session from a bounded pool (crates/eiger-pool), and talks
-- to the browser process of that session (crates/eiger-browser). The pool measures the processes
-- (crates/eiger-metrics), recycles sessions that are over a limit, and takes its limits from the
-- environment (crates/eiger-config). crates/eiger-server starts the service and puts the layers of its limits
-- around it. This library models the Rust code of all of them.
--
-- Which file is about which code:
--   Config, Config/Env, Config/Load: crates/eiger-config/src/lib.rs. The environment is a function
--     from names to values. `from_env` is `Load.from_env`, its helpers are in `Env`.
--   Stealth: crates/eiger-stealth/src/lib.rs, `StealthProfile` and `chrome_args`; Stealth/Scripts:
--     `baseline_scripts`.
--   Browser: crates/eiger-browser/src/lib.rs, the records and errors; Browser/Shutdown:
--     `LaunchedBrowser::shutdown`, where the process and the system are a record of answers and
--     the signals sent are a list of effects. Browser/Args is `chrome_args`, Browser/Executable is
--     `resolve_chrome_executable`, Browser/Ready is `read_devtools_port` and `wait_until_ready`,
--     Browser/Launch is `launch_chrome`, Browser/Cdp has `cdp_command`, the injection into targets and
--     `run_stealth_controller`.
--   Metrics: crates/eiger-metrics/src/lib.rs, the records; Metrics/Tree: `sample_process_tree` from
--     the text of `ps` on, and `sample_process`; Metrics/Prometheus: `render_prometheus`.
--   Pool: crates/eiger-pool/src/lib.rs, the types. Pool/Runtime has what it takes from tokio and
--     dashmap. Pool/State is `SessionPool` with the heap of its `Arc<SessionEntry>` allocations;
--     Pool/Profile is `profile_path`; Pool/Create is `create_session`; Pool/Sessions is
--     `connect_session`, the handle, and the reports; Pool/Shutdown is `terminate_session`;
--     Pool/Maintenance is `spawn_maintenance` and `kill_reason_for`. Pool/Steps puts them together as
--     steps of many tasks, and Pool/Ledger is the abstract view that they refine: which ids have a
--     session, and whether a client may still connect to it.
--   Api: crates/eiger-api/src/lib.rs. Api/Auth is `authorized` and `request_token`; Api/Requests and
--     Api/Responses are the types that come in and go out, with the error responses; Api/Overrides is
--     `session_overrides` and what it calls; Api/Options, Api/WaitUntil and Api/ScreenshotFormat are the
--     options of a page; Api/Links has `cdp_ws_url`, the links to the developer tools and `escape_html`;
--     Api/Cdp is `CdpConnection`, Api/Pages what is done over it, and Api/Rest `with_rest_session` with
--     the three REST operations; Api/Handlers are the handlers, in Api/Handlers/View `view_sessions`, in
--     Api/Handlers/Endpoints `scrape`, `screenshot` and `pdf`, in Api/Handlers/Connect the WebSocket
--     endpoints and `proxy_and_recycle`, in Api/Handlers/Router `api_router`; Api/Proxy is
--     `proxy_websocket`.
--   Server: crates/eiger-server/src/main.rs, `server_layers` and `cors_layer`; Server/Main: `main`, with
--     the `ApiState` that it fills; Server/RateLimit: the period, the keys and the response of the rate
--     limits.
--   Serde: what the code calls of serde_json, as parameters. Socket: a WebSocket, as what comes in and
--     what was sent. Common/Exec: computations on a state that can fail.
--   Text, Text/Decimal: the operations on strings and numbers of Rust's standard library that the
--     code calls. Common: shared names and lemmas. Tests: concrete runs.
--   The other files hold lemmas and theorems about the module that they are below or beside.
--
-- How the pool is modelled. `SessionPool` is a record: the `DashMap` and the `Semaphore` are values of
-- the types that `Runtime` names, with the laws of their documentation; the atomics are numbers, which
-- wrap around at 64 bits; an `Arc<SessionEntry>` is an index into the list `arcs`, which keeps an entry
-- with its count of owners. The entry's `_permit` has no field: a drop of the last owner releases one
-- permit. Each asynchronous function is the composition of its parts between two waits, and
-- `Steps.Step` runs these parts for any number of tasks in any order; a `Task` is what a function in
-- flight holds. An operation with an outcome from outside (the launch, the clock, the process table,
-- the answer of Chrome) gets that outcome as an argument.
--
-- How the handlers and the connections are modelled. A handler is a function from the pool to a
-- response and the pool after it, with no other call in between. A socket has a list of what comes in:
-- messages, errors, and the deadline of the timeout around a wait, at whose place the timeout fires
-- instead of a message; the end of the list is a socket that is closed. What a send answers is a list
-- too. An `async fn` with `&mut self` is a function on the state that gives an outcome and the state,
-- after a failure as well. The proxy runs its two loops round by round, in the order of a list of
-- events; Api/Proxy/Interleaved runs them in the middle of each other, where an injection is one step,
-- since it holds the lock on the upstream sender, and the forwarding of a message is another. JSON values, their texts, base64 and the URL encoding are parameters; an error of a library
-- stands for its text.
--
-- Numbers are natural numbers; where the code's own type can overflow, the wrap-around of a release
-- build is written out. Times are nanoseconds since a start that is not modelled, and a time that has
-- passed is a subtraction that stops at 0, as in `Instant::elapsed`. Paths are their texts, under the
-- rules of Unix. A `Uuid` is a number. Floating point numbers are a parameter.
--
-- Fuel: the search for descendants in Metrics/Tree runs with a round for each row and two more, and
-- answers `none` where the fuel runs out. A round handles one process of the queue, a process enters the
-- queue at most once and, but for the first, only as the child of a row; so the fuel is enough. The
-- wait for a browser in Browser/Ready runs with a round for each 100 ms of its limit and two more, which
-- is enough since each round but the last sleeps for 100 ms.
--
-- Not modelled: a request that its client drops between two of the writes that one step of
-- `Steps.Step` makes; the tracing and the shutdown signal of crates/eiger-server, what utoipa
-- answers as the documentation of the API and axum to a request that it rejects, which are
-- arguments, the readers and printers that serde derives, the sleeps, the closing of sinks and the
-- drop of a loop in the middle of an injection in `proxy_websocket`, log lines, the Node client. The
-- endless loop of `spawn_maintenance` runs over the ticks that have come.
pub mod Api
pub mod Browser
pub mod Common
pub mod Config
pub mod Metrics
pub mod Pool
pub mod Serde
pub mod Server
pub mod Socket
pub mod Stealth
pub mod Tests
pub mod Text
