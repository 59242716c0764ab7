-- ===== src/Tests/Calls.antt =====
-- Requests and calls of a client whose server answers.
use tdxrs.Base.{
  ℕ, ◌+◌, ◌-◌, ◌<◌, ◌≡◌, ◌⊎◌, refl, true, false, ◌&&◌, List, [], ◌∷◌, drop, take, arith, none,
}
use tdxrs.Errors.{ok, err}
use tdxrs.Bytes.{Bytes, read_u16, read_u32}
use tdxrs.Io.{Io}
use tdxrs.Listing.{parse_security_count}
use tdxrs.Requests.{parse_header}
use tdxrs.Net.{
  open_connection, perform_handshake, setup_step, send, read_response_raw, recv, recv_loop,
  body_loop,
}
use tdxrs.Pool.{borrow, purge, take_idle, new_single}
use tdxrs.Limiter.{new, sleep_time, wait}
use tdxrs.Client.{Session, session}
use tdxrs.Client.Exchange.{
  Pace, wait_for, limiter_of, set_limiter, current_server, obtain, connected_or_not,
  borrow_connection, exchange, give_back, try_send_and_recv, retry_or_fail, send_and_recv_limited,
  is_retryable_error, retry_exhausted_error,
}
use tdxrs.Client.Exchange.Steady.{settings, send_and_recv_limited-Keeps}
use tdxrs.Client.Exchange.Errors.{Answers, send_and_recv_limited-Answers}
use tdxrs.Client.Packets.{count_packet}
use tdxrs.Client.Paging.{get_bars_all, get_all_chunks}
use tdxrs.Client.Paging.History.{page, get_bars_all_lem}
use tdxrs.Client.Paging.Chunks.{get_all_chunks_lem}
use tdxrs.Client.Calls.{cached, keep_count, get_security_count}
use tdxrs.Client.Calls.Caches.{get_security_count_again}
use tdxrs.Tests.Clients.{answering, test_client, test_net}

abbrev connected : Session ℕ ℕ
connected = session (test_client true) test_net

send_and_recv_limited-Keeps_example :
    settings (send_and_recv_limited answering Pace.daily (1 ∷ []) connected).0.client
    ≡ settings (test_client true)
send_and_recv_limited-Keeps_example =
    send_and_recv_limited-Keeps answering Pace.daily (1 ∷ []) connected refl

send_and_recv_limited-Answers_example :
    Answers
      (λ e.
        (e ≡ retry_exhausted_error)
        ⊎ (((try_send_and_recv answering (1 ∷ []) (wait_for answering Pace.daily connected)).1
              ≡ err e)
            × ((true && is_retryable_error e) ≡ false)))
      (send_and_recv_limited answering Pace.daily (1 ∷ []) connected)
send_and_recv_limited-Answers_example =
    send_and_recv_limited-Answers answering Pace.daily (1 ∷ []) connected

abbrev history : List ℕ
history = 1 ∷ 2 ∷ 3 ∷ 4 ∷ 5 ∷ []

abbrev serve_bars : ℕ → ℕ → Io ℕ (List ℕ)
serve_bars start count s = (s + 1, ok (page history start count))

get_bars_all_example : (get_bars_all serve_bars 3 0).1 ≡ ok (drop (5 - 3) history)
get_bars_all_example = get_bars_all_lem serve_bars history (λ start count s. refl) 3 0

abbrev serve_file : ℕ → ℕ → Io ℕ Bytes
serve_file start size s = (s + 1, ok (take size (drop start history)))

get_all_chunks_example : (get_all_chunks serve_file 4 0).1 ≡ ok (take 4 history)
get_all_chunks_example = get_all_chunks_lem serve_file history (λ start size s. refl) 4 0

abbrev counted : Session ℕ ℕ
counted = (get_security_count answering 0 connected).0

count_asked : get_security_count answering 0 connected ≡ (counted, ok 1285)
unfolding get_security_count cached keep_count send_and_recv_limited retry_or_fail wait_for
    limiter_of set_limiter sleep_time wait new try_send_and_recv borrow_connection obtain
    connected_or_not current_server borrow purge take_idle new_single exchange give_back
    open_connection perform_handshake setup_step send read_response_raw recv recv_loop body_loop
    parse_header read_u16 read_u32 parse_security_count count_packet
count_asked = refl

no_count_yet : cached 0 0 (test_client true).count_cache ≡ none
unfolding cached
no_count_yet = refl

still_good : 0 < 0 + counted.client.cache_ttl
unfolding get_security_count cached keep_count send_and_recv_limited retry_or_fail wait_for
    limiter_of set_limiter sleep_time wait new try_send_and_recv borrow_connection obtain
    connected_or_not current_server borrow purge take_idle new_single exchange give_back
    open_connection perform_handshake setup_step send read_response_raw recv recv_loop body_loop
    parse_header read_u16 read_u32 parse_security_count count_packet
still_good = omega arith

get_security_count_again_example :
    get_security_count answering 0 (session counted.client test_net)
    ≡ (session counted.client test_net, ok 1285)
get_security_count_again_example =
    get_security_count_again answering 0 1285 connected counted test_net no_count_yet count_asked
      still_good
