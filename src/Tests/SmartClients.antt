-- ===== src/Tests/SmartClients.antt =====
-- A smart client that remembers a server which is gone, and one known server that answers, whose
-- entry in the blacklist has expired.
use tdxrs.Base.{arith, ℕ, ◌+◌, ◌≡◌, refl, false, none, some, [], ◌∷◌, ◌++◌, if◌then◌else◌, inl}
use mathlib.Core.List.{Memᴰ}
use tdxrs.Errors.{ok}
use tdxrs.Bytes.{read_u16, read_u32}
use tdxrs.Text.{decimal, decimal_loop, text_eq, Text}
use tdxrs.Net.{
  Sockets, Net, open_connection, perform_handshake, setup_step, send, read_response_raw, recv,
  recv_loop, body_loop,
}
use tdxrs.Requests.{parse_header}
use tdxrs.Pool.Key.{Server, same_server}
use tdxrs.ServerCache.{Reason, is_blacklisted, has_fresh, is_fresh}
use tdxrs.ServerCache.Entries.{IsOff}
use tdxrs.Client.{dial, session}
use tdxrs.Client.KnownServers.{primary_servers}
use tdxrs.Smart.{SmartClient, connect_to_any}
use tdxrs.Smart.Available.{Found, all_known, connect_to_any-Found}
use tdxrs.Tests.Clients.{answering, test_client, test_net}

-- 59.36.5.11, the first of the known servers.
abbrev first_known : Server
first_known = record {
  host = decimal 59 ++ (46 ∷ (decimal 36 ++ (46 ∷ (decimal 5 ++ (46 ∷ decimal 11)))));
  port = 7709;
}

-- No other server answers.
abbrev only_first : Sockets ℕ
only_first = record answering {
  connect_timeout =
      λ server t w. if same_server first_known server then (w + 1, some w) else (w, none);
}

first_answers :
    (n : Net ℕ) → (conn : ℕ) × ((dial only_first first_known (some 1000000000) n).1 ≡ ok conn)
unfolding open_connection perform_handshake setup_step send read_response_raw recv recv_loop
    body_loop parse_header read_u16 read_u32 same_server text_eq decimal decimal_loop
first_answers n = (n.world, refl)

first_is_known : Memᴰ first_known all_known
unfolding primary_servers
first_is_known = Memᴰ.head refl

abbrev nameless : Server → Text
nameless server = []

abbrev remembering : SmartClient ℕ ℕ
remembering = record {
  inner = session (test_client false) test_net;
  cache = record {
    last_success = some (record {
      server = record { host = 49 ∷ []; port = 7709 };
      name = [];
      timestamp = 0;
      latency_ms = 30;
    });
    blacklist = record { server = first_known; reason = Reason.kline_empty; timestamp = 0 } ∷ [];
    server_stats = [];
  };
  current_server = none;
  health_checked = false;
}

-- The entry of the first server has expired.
first_known-IsOff : IsOff 100000 first_known remembering.cache
unfolding is_blacklisted has_fresh is_fresh
first_known-IsOff later h = ground arith

connect_to_any-Found_example :
    Found (connect_to_any only_first (λ w. 100000) nameless none remembering)
connect_to_any-Found_example =
    connect_to_any-Found only_first (λ w. 100000) nameless first_known none remembering
      first_is_known first_answers (λ y n. omega arith) (inl first_known-IsOff)
