-- ===== src/Tests/Clients.antt =====
-- A client, a server that answers every request with two bytes, and one that is refused.
use tdxrs.Base.{
  ℕ, ◌+◌, ◌<◌, ◌≤◌, ◌≡◌, ◌⊎◌, refl, Bool, true, false, ◌||◌, Option, none, some, List, [], ◌∷◌,
  if◌then◌else◌, if_false, ◌==◌, replicate, length, ◌++◌, arith,
}
use mathlib.Core.List.{Memᴰ}
use tdxrs.Errors.{ok, err, Sound}
use tdxrs.Bytes.{Bytes, read_u16, read_u32}
use tdxrs.Requests.{parse_header}
use tdxrs.Net.{
  Sockets, Net, open_connection, perform_handshake, setup_step, send, read_response_raw, recv,
  recv_loop, body_loop, decompress_zlib_checked,
}
use tdxrs.Net.Response.{read_response_raw_lem, decompress_zlib_checked_lem}
use tdxrs.Text.{text_eq}
use tdxrs.Pool.{new_single}
use tdxrs.Pool.Key.{Server, same_server}
use tdxrs.Limiter.{new as new_limiter}
use tdxrs.Client.{
  Client, session, dial, connect_to_any, is_server_blocked, has_server, connection_failed,
}
use tdxrs.Client.Connecting.{Reached, Failed}
use tdxrs.Client.AnyServer.{
  candidates, connect_to_any_lem, connect_to_any_connects, connect_to_any_ignores_blocked,
}
use tdxrs.Client.Blacklist.{Change, change_sets, changes, Represents, changes-Represents}

abbrev header : Bytes
header = replicate 12 0 ++ (2 ∷ 0 ∷ 2 ∷ 0 ∷ [])

-- The world counts the connections.
abbrev pub answering : Sockets ℕ
answering = record {
  connect_timeout = λ server t w. (w + 1, some w);
  write_all = λ conn packet w. (w, true);
  read = λ conn n w. (w, some (if n == 16 then header else replicate n 5));
  take_error = λ conn w. true;
  now = λ w. 0;
  sleep = λ t w. w;
  inflate = λ limit body. some body;
}

abbrev home : Server
home = record { host = 49 ∷ []; port = 7709 }

abbrev bad : Server
bad = record { host = 50 ∷ []; port = 7709 }

-- The same without the server `bad`.
abbrev without_bad : Sockets ℕ
without_bad = record answering {
  connect_timeout = λ server t w. if same_server bad server then (w, none) else (w + 1, some w);
}

abbrev pub test_client : Bool → Client ℕ
test_client connected = record {
  pool = new_single;
  pool_timeout = 1000000000;
  connected = connected;
  auto_retry = true;
  heartbeat = connected;
  last_server = none;
  count_cache = [];
  list_cache = [];
  cache_ttl = 30000000000;
  connect_timeout = some 1000000000;
  server_list = record { name = []; server = home } ∷ [];
  blocked_servers = bad ∷ [];
  rate_limiter = new_limiter 20;
  rate_limiter_daily = new_limiter 67;
  rate_limiter_minute = new_limiter 100;
  fq_context_tier = 1;
}

abbrev pub test_net : Net ℕ
test_net = record { world = 0; unhealthy = [] }

connect_to_any_example :
    Reached answering none is_server_blocked
      (test_client false)
      (candidates (test_client false))
      (connect_to_any answering none (session (test_client false) test_net))
    ⊎ Failed answering none is_server_blocked
        (test_client false)
        (candidates (test_client false))
        (err connection_failed)
        (connect_to_any answering none (session (test_client false) test_net))
connect_to_any_example = connect_to_any_lem answering none (test_client false) test_net refl

-- `home` answers whatever has happened.
home_answers : (n : Net ℕ) → (conn : ℕ) × ((dial answering home (some 1000000000) n).1 ≡ ok conn)
unfolding open_connection perform_handshake setup_step send read_response_raw recv recv_loop
    body_loop parse_header read_u16 read_u32
home_answers n = (n.world, refl)

home_is_free : is_server_blocked home (test_client false) ≡ false
unfolding is_server_blocked has_server same_server text_eq
home_is_free = refl

connect_to_any_connects_example :
    let (s', r) = connect_to_any answering none (session (test_client false) test_net) in
    (r ≡ ok true) × (s'.client.connected ≡ true)
connect_to_any_connects_example =
    connect_to_any_connects answering none (test_client false) test_net home (Memᴰ.head refl)
      home_is_free home_answers

agree_off_bad :
    (server : Server) (n : Net ℕ)
    → is_server_blocked server (test_client false) ≡ false
    → dial answering server (some 1000000000) n ≡ dial without_bad server (some 1000000000) n
unfolding is_server_blocked has_server open_connection perform_handshake setup_step send
    read_response_raw recv recv_loop body_loop parse_header read_u16 read_u32
agree_off_bad server n free =
    let other : same_server bad server ≡ false = ground (arith, free) in
    let opened =
      if_false {A = ℕ × Option ℕ} (same_server bad server) (n.world, none)
        (n.world + 1, some n.world) other in
    rw (open_connection, opened, opened) refl

connect_to_any_ignores_blocked_example :
    connect_to_any answering none (session (test_client false) test_net)
    ≡ connect_to_any without_bad none (session (test_client false) test_net)
connect_to_any_ignores_blocked_example =
    connect_to_any_ignores_blocked answering without_bad none (test_client false) agree_off_bad
      test_net

abbrev some_changes : List Change
some_changes =
    Change.clear
    ∷ Change.block bad
    ∷ Change.block bad
    ∷ Change.unblock home
    ∷ Change.block home
    ∷ []

only_bad : Represents (λ y. same_server bad y || false) (test_client false)
unfolding is_server_blocked has_server
only_bad = record { same = λ y. refl; distinct = (tt, tt) }

changes-Represents_example :
    Represents
      (change_sets some_changes (λ y. same_server bad y || false))
      (changes some_changes (test_client false))
changes-Represents_example =
    changes-Represents some_changes (λ y. same_server bad y || false) (test_client false) only_bad

read_response_raw_example :
    Sound (λ (h, b). length b ≡ h.zip_size) (read_response_raw answering 0 test_net).1
read_response_raw_example = read_response_raw_lem answering 0 test_net

decompress_zlib_checked_example :
    Sound
      (λ out. (length out ≤ 8388608) × (0 < 3 → length out ≤ 3 + 4096))
      (decompress_zlib_checked answering (1 ∷ 2 ∷ 3 ∷ []) 3)
decompress_zlib_checked_example = decompress_zlib_checked_lem answering (1 ∷ 2 ∷ 3 ∷ []) 3
