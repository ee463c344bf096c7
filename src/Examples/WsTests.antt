-- ===== src/Examples/WsTests.antt =====
-- target-apps/apps/ws_api.py on short sequences of events.
use p_loadtesting.Prelude.{
  ℕ, zero, suc, ◌≤◌, ◌≡◌, refl, true, Option, some, List, [], ◌∷◌, length, arith,
}
use p_loadtesting.Apps.Ws.{
  Connection, Server, Event, connect, proceed, receive, timeout, fail, accepting, idle_server,
  close, try_connect, release_connection, leave_room,
}
use p_loadtesting.Apps.Ws.Bounds.{IsBounded}
use p_loadtesting.Apps.Ws.Ends.Count.{IsBusy, length-IsBusy}
use p_loadtesting.Apps.Ws.Handlers.{
  after, step, go_on, accepted, join_room, receive_text, message_arrives, send_next, raises,
  times_out,
}
use p_loadtesting.Apps.Ws.Leak.{after-full}
use p_loadtesting.Apps.Ws.Limits.{failed_accepts, server-IsBounded}
use p_loadtesting.Apps.Ws.Rooms.{IsPresent}
use p_loadtesting.Apps.Ws.Rooms.Empty.{server-rooms_empty}
use p_loadtesting.Apps.Ws.Rooms.Steps.{server-IsPresent}

abbrev in_lobby : Connection (Option ℕ)
in_lobby = record {
  room = some "lobby";
  client_id = "client";
  deterministic = true;
  seed = some 17;
  phase = accepting;
}

-- Two clients join a room; one sends a message, which both get, and goes.
abbrev chat : List (Event (Option ℕ))
chat =
    connect 1 in_lobby
    ∷ proceed 1
    ∷ proceed 1
    ∷ connect 2 in_lobby
    ∷ proceed 2
    ∷ proceed 2
    ∷ receive 1 "hello"
    ∷ proceed 1
    ∷ proceed 1
    ∷ fail 1
    ∷ proceed 1
    ∷ proceed 1
    ∷ []

chat_rooms : (after some chat idle_server).rooms ≡ ("lobby", 2 ∷ []) ∷ []
unfolding after step go_on accepted join_room receive_text message_arrives send_next raises
    try_connect release_connection leave_room
chat_rooms = refl

server-IsBounded_example :
    IsBounded (failed_accepts some chat idle_server) (after some chat idle_server)
server-IsBounded_example = server-IsBounded some chat

server-IsPresent_example : IsPresent (after some chat idle_server)
server-IsPresent_example = server-IsPresent some chat

-- A client joins a room, and its connection is closed for being idle.
abbrev visit : List (Event (Option ℕ))
visit = connect 1 in_lobby ∷ proceed 1 ∷ proceed 1 ∷ timeout 1 ∷ proceed 1 ∷ proceed 1 ∷ []

visit_ends : (after some visit idle_server).running ≡ []
unfolding after step go_on accepted join_room times_out try_connect release_connection leave_room
visit_ends = refl

server-rooms_empty_example : (after some visit idle_server).rooms ≡ []
server-rooms_empty_example = server-rooms_empty some visit visit_ends

visit-IsBusy : IsBusy some visit idle_server
unfolding IsBusy step go_on accepted join_room times_out try_connect release_connection leave_room
visit-IsBusy = ((λ e. cc), ((λ e. cc), ((λ e. cc), ((λ e. cc), ((λ e. cc), ((λ e. cc), tt))))))

length-IsBusy_example : length visit ≤ 85
unfolding IsBusy
length-IsBusy_example = length-IsBusy some visit visit-IsBusy

-- So many clients for which `accept` raises an exception.
abbrev lost_clients : ℕ → List (Event (Option ℕ))
lost_clients zero = []
lost_clients (suc n) = connect n in_lobby ∷ fail n ∷ lost_clients n

abbrev lost_server : Server (Option ℕ)
lost_server = record { active_connections = 20; rooms = []; room_sequences = []; running = [] }

lost_server_reached : after some (lost_clients 20) idle_server ≡ lost_server
unfolding after step raises try_connect
lost_server_reached = refl

after-full_example :
    (after some chat lost_server ≡ lost_server)
    × ((step some (connect 3 in_lobby) (after some chat lost_server)).1 ≡ (3, close 1013) ∷ [])
after-full_example = after-full some lost_server refl (omega arith) chat 3 in_lobby
