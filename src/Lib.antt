-- ===== src/Lib.antt =====
-- tdxrs, a client library for the TDX market-data protocol: a verification of its protocol core.
--
-- The program asks a quotes server over TCP for bars, ticks, quotes, dividends and finance data,
-- parses the binary answers and adjusts prices. A request is built by src/net/utils.rs and sent on a
-- connection that src/net/pool.rs lends; the answer starts with the header of src/net/packet.rs; its
-- body goes to one of the parsers of src/protocol/parsers.rs, which stand on the varint and volume
-- codes of src/helpers.rs and the readers and dates of src/constants.rs; src/protocol/adjuster.rs
-- changes the prices of the bars by the events that a parser read.
--
-- The parts, each a module with its proofs in modules below it:
--   Errors      src/error.rs, src/error_codes.rs: error codes; a call is ok, an error or a panic
--   Bytes       src/constants.rs: read_u16, read_u32, get_byte, read_f32; a slice is a list of
--               numbers below 256
--   Price       src/helpers.rs: get_price, the varint of signed differences
--   Volume      src/helpers.rs: get_volume
--   Wire        what stands at a position of a slice: the common language of the round trips
--   Text        the formatting, trimming and UTF-8 decoding of the Rust library that is used
--   Dates       src/constants.rs and src/protocol/parsers.rs: decode_date, get_datetime, printed dates
--   Loop        the shape `for _ in 0..count { ... break ... }` of every parser
--   Floats      the f64 operations as a parameter, with an instance of symbolic expressions
--   Securities  src/protocol/types.rs: get_security_type, get_security_coefficient
--   Bars        src/protocol/parsers.rs: parse_security_bars, parse_index_bars
--   Minutes     src/protocol/parsers.rs: parse_minute_time_data, parse_history_minute_time_data
--   Ticks       src/protocol/parsers.rs: parse_transaction_data, parse_history_transaction_data
--   Quotes      src/protocol/parsers.rs: parse_security_quotes, format_servertime,
--               filter_quotes_by_request
--   Events      src/protocol/parsers.rs: parse_xdxr_info
--   Finance     src/protocol/parsers.rs: parse_finance_info
--   Listing     src/protocol/parsers.rs: parse_security_count, parse_security_list,
--               parse_block_info_meta, parse_block_info
--   Adjust      src/protocol/adjuster.rs, src/protocol/fq_service.rs: factors and adjusted prices
--   Requests    src/net/utils.rs: code_bytes, code_bytes_strict, auto_market, the bars packets;
--               src/net/packet.rs: ResponseHeader::parse, here parse_header
--   Limiter     src/net/utils.rs: RateLimiter
--   Clock       src/net/utils.rs: today_yyyymmdd, detect_trading_phase
--   Pool        src/net/pool.rs: ConnectionPool
--   Io          calls that change a state and return, fail or panic
--   Net         src/net/connection.rs: TcpConnection; src/net/utils.rs: perform_handshake,
--               read_response_raw, decompress_zlib_checked
--   Client      src/net/client.rs: TdxHqClient. The servers and connecting are in Client itself, the
--               request with its retries in Client.Exchange, the loops over pages and chunks in
--               Client.Paging, the methods that ask for data in Client.Calls
--   Context     src/net/utils.rs: the bars in front of those that are adjusted
--   ServerCache src/net/smart_client.rs: ServerCache, the counters and the blacklist
--   Smart       src/net/smart_client.rs: TdxSmartClient; its requests are in Smart.Rounds
--   Direct      src/net/direct_client.rs: TdxDirectClient, a connection for every request
--   Reader      src/reader/daily_bar.rs, src/reader/min_bar.rs; Reader.Block: src/reader/block.rs;
--               Reader.Financial: src/reader/financial.rs
--   Base        numbers, integers, lists and tests that all of them share
--   Tests       concrete inputs
--
-- Bounds. An i64 is an integer whose sums wrap around as in a release build (`wrap64`) or saturate
-- where the source says so; `as u32` keeps the low 32 bits. Positions and lengths are not bounded. A
-- loop over a declared count is bounded by the count; `recv` runs on the number of bytes that are
-- missing, `get_bars_all` on the number of bars and `get_all_chunks` on the number of bytes that are
-- asked for, every round that goes on bringing at least one; the loop of the history minute data runs on the
-- length of the body, every round taking a byte at least; the loop over the years of `today_yyyymmdd`
-- runs on the number of days.
--
-- State. The pool's mutex makes each operation one or two critical sections, which are functions on
-- the guarded counters and queue; threads are any sequence of them (`Pool.System`). An adjuster that
-- changes bars in place returns the changed bars. A method of the client is a function on the session:
-- the client's fields, and the network, which is a record of what sockets, clock and zlib decoder do
-- to a world of any type. One method runs at a time, and the thread of the heartbeat is a flag. The system clock and the cached greatest valid year
-- are arguments.
--
-- Floating point. No law of f64 is assumed. Equations of prices say that the same operations are
-- applied to the same integers in the same order.
--
-- Not modelled: what the heartbeat's thread does, probe_servers of the client, the asynchronous
-- client, the file of the server cache, log output, the Python bindings, the block, fund and
-- profile modules, message texts. The sockets, the zlib decoder and the GBK decoder of names are
-- parameters.
pub mod Base
pub mod Errors
pub mod Bytes
pub mod Price
pub mod Wire
pub mod Text
pub mod Dates
pub mod Io
pub mod Loop
pub mod Floats
pub mod Volume
pub mod Securities
pub mod Bars
pub mod Minutes
pub mod Ticks
pub mod Events
pub mod Finance
pub mod Listing
pub mod Quotes
pub mod Clock
pub mod Requests
pub mod Limiter
pub mod Net
pub mod Context
pub mod Adjust
pub mod Tests
pub mod Pool
pub mod Client
pub mod Reader
pub mod ServerCache
pub mod Smart
pub mod Direct
