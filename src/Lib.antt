-- ===== src/Lib.antt =====
-- The load scripts of pLoadtesting and the services that they load.
--
-- The repository drives load tests with k6 scripts (engines/k6/*.js), which share the helper
-- engines/k6/lib/execution.js, against small target applications (target-apps/apps/*.py). A worker
-- starts k6 with settings in its environment; a script turns them into k6 options (how many virtual
-- users run, for how long, in which stages) and into requests, and checks every reply.
--
-- Files:
--   Prelude      what the other files share: names of the library, Boolean tests, lists
--   Js           JavaScript as the scripts use it: numbers as an interface with laws of ECMAScript
--                (Number), texts with UTF-16 units (Text), values and their conversions (Value),
--                calls that may throw (Outcome) and change a state (Action), stable sorting (Sort);
--                Naturals is a small instance of the numbers
--   Env          `__ENV` and `__ENV.NAME || fallback`
--   K6           k6 as an interface: `http`, `check` and the cookie jar; an iteration is an action
--                that also records its requests and checks, the newest first
--   Options      the `options` that a script exports
--   Execution    engines/k6/lib/execution.js: `numberFromEnv`, `compactStages`, `executionOptions`
--   Scripts      one file per script: its settings, its `options`, the bodies that it sends, and
--                `iteration` for its default function; Login and Payload have what several scripts
--                share, Sockets what the two WebSocket scripts share: the events that k6 delivers,
--                the commands of the script, and the handlers on every event in turn
--   Apps         target-apps/apps: what FastAPI gives a handler (Http); auth_flow_api.py with its
--                state, request models, handlers and routes (Auth; Auth/Full is about its
--                challenges); crud_api.py with its store, handlers and routes (Crud), and the log
--                that it stands for (Crud/Log); ws_api.py with its connections and rooms (Ws) and
--                its handlers between two `await`s (Ws/Handlers), where the events that asyncio and
--                Starlette deliver come in any order; and latency_api.py (Latency)
--   Flows        a script run against its application: `Delivers` states what is relied on of k6
--                and of the transport, and `local_host` of Flows/Local is a host for which it
--                holds; Flows/AuthRefresh, RefreshExpiry, AuthCheckout, AuthSession and AuthMfa run
--                the scripts of the auth target on auth_flow_api.py, Flows/Crud runs the CRUD
--                script on crud_api.py while others use it, Flows/Latency the latency script on
--                latency_api.py, Flows/MfaCode compares the two computations of an MFA code, and
--                Flows/Sockets, PayloadDownload and StressData are about scripts on any
--                events and on any responses
--   Dashboard    the report of JMeter, engines/jmeter/html-report/content/js: the texts of
--                durations and of time axes, the preparation of options (Commons, Texts) and of
--                series (Series) of dashboard-commons.js; the page with its graphs, plots and
--                legends (Page), what `createGraph` and the refreshing of a graph do (Refresh), the
--                graphs of graph.js (Graphs, with Style for what their options share), and its
--                `collapse`, `toggleAll` and `ready` (Actions); and the tables of dashboard.js
--                (Tables). Order and Legend are about the series that are shown, Overview about the
--                options of an overview, Tables/Shown about the rows, Tables/Numbers about their
--                formatting; Zoom links a graph and its overview. Safety, Axes and Drawing are
--                about drawing without errors; Points, Frames, Elsewhere, Apart, Own, Once, Steps,
--                Toggles, Reach and Early about the data and the plots of the graphs. jQuery and
--                flot are an interface (`Browser` of Data) with laws of their documents
--   Examples     the theorems at concrete settings, and tests
--
-- Numbers of JavaScript are an interface, because the doubles are not modelled; its laws speak of
-- whole numbers below 2^53, of the order of numbers and of the printing of zero. `decimal` prints
-- with as much fuel as the number, which has fewer digits. Texts have no unpaired surrogates. Not
-- modelled: the percentiles and thresholds that k6 computes, the time that requests take,
-- iterations of several virtual users in parallel but for the requests that reach the CRUD
-- target, GET /api/orders/{order_id} of the auth target among its routes, GET /health of the
-- WebSocket and the latency target, hashlib.sha256 and the JSON text on the wire (parameters),
-- what flot draws, the export of a graph as an image, the order in which tablesorter puts the
-- rows of a table, the chart of requests and the formatting of the Apdex table, and the parts of
-- the repository in Python beside the auth, the CRUD, the WebSocket and the latency target.
pub mod Prelude
pub mod Js
pub mod Env
pub mod K6
pub mod Options
pub mod Execution
pub mod Scripts
pub mod Apps
pub mod Flows
pub mod Dashboard
pub mod Examples
