-- ===== src/Net.antt =====
-- src/net/connection.rs, and the handshake, the response and the decompression of src/net/utils.rs.
-- The sockets, the clock and the zlib decoder are other people's code: a record of what they do to a
-- world of any type.
pub mod Response
pub mod Total
use tdxrs.Base.{
  ℕ, zero, suc, ◌+◌, ◌-◌, ◌*◌, ◌^◌, Bool, true, false, ◌&&◌, not, Option, none, some, List, [], ◌∷◌,
  ◌++◌, if◌then◌else◌, ltb, ◌==◌, length, take, min, max,
}
use tdxrs.Errors.{Outcome, ok, err, TdxError, fail_if}
use tdxrs.Errors.Codes.{with_code}
use tdxrs.Bytes.{Bytes}
use tdxrs.Io.{Io, ◌>>=◌, ◌>>◌, return, throw, pure}
use tdxrs.Pool.Key.{Server}
use tdxrs.Requests.{ResponseHeader, parse_header}

-- A socket is known by a number. `connect` resolves the address and connects within nanoseconds,
-- `write_all` answers whether it succeeded, `read` fails or gives the bytes that came (none of them
-- at the end of the stream), `take_error` whether no error is pending. `inflate limit` is the
-- output of the decoder up to `limit` bytes.
pub record Sockets (W : Type 0) : Type 0 where
  pub connect_timeout : Server → ℕ → W → W × Option ℕ
  pub write_all : ℕ → Bytes → W → W × Bool
  pub read : ℕ → ℕ → W → W × Option Bytes
  pub take_error : ℕ → W → Bool
  pub now : W → ℕ
  pub sleep : ℕ → W → W
  pub inflate : ℕ → Bytes → Option Bytes

-- The world, and the sockets whose `healthy` flag is cleared.
pub record Net (W : Type 0) : Type 0 where
  pub world : W
  pub unhealthy : List ℕ

-- A timeout in seconds, an `f64`: `none` where it is not finite or not above 0, else nanoseconds.
abbrev pub Timeout : Type 0
Timeout = Option ℕ

unfoldable pub has_number : ℕ → List ℕ → Bool
has_number n [] = false
has_number n (x ∷ xs) = if x == n then true else has_number n xs

abbrev pub setup_cmd1 : Bytes
setup_cmd1 = 12 ∷ 2 ∷ 24 ∷ 147 ∷ 0 ∷ 1 ∷ 3 ∷ 0 ∷ 3 ∷ 0 ∷ 13 ∷ 0 ∷ 1 ∷ []

abbrev pub setup_cmd2 : Bytes
setup_cmd2 = 12 ∷ 2 ∷ 24 ∷ 148 ∷ 0 ∷ 1 ∷ 3 ∷ 0 ∷ 3 ∷ 0 ∷ 13 ∷ 0 ∷ 2 ∷ []

abbrev pub setup_cmd3 : Bytes
setup_cmd3 =
    12 ∷ 3 ∷ 24 ∷ 153 ∷ 0 ∷ 1 ∷ 32 ∷ 0 ∷ 32 ∷ 0 ∷ 219 ∷ 15 ∷ 213 ∷ 208 ∷ 201 ∷ 204 ∷ 214 ∷ 164 ∷ 168
    ∷ 175 ∷ 0 ∷ 0 ∷ 0 ∷ 143 ∷ 194 ∷ 37 ∷ 64 ∷ 19 ∷ 0 ∷ 0 ∷ 213 ∷ 0 ∷ 201 ∷ 204 ∷ 189 ∷ 240 ∷ 215
    ∷ 234 ∷ 0 ∷ 0 ∷ 0 ∷ 2 ∷ []

-- `DECOMPRESS_ABS_LIMIT` is 8 MiB. The message on an unexpected size is left out.
unfoldable pub decompress_limit : ℕ → ℕ
decompress_limit unzip_size =
    if ltb 0 unzip_size then min (unzip_size + 4096) (8 * 1024 * 1024) else 8 * 1024 * 1024

abbrev pub decompress_failed : TdxError
decompress_failed = with_code 2102

module _ {W : Type 0} (k : Sockets W) where
  -- `TcpConnection::connect`: at least a millisecond and at most a day.
  unfoldable pub open_connection : Server → Timeout → Io (Net W) ℕ
  open_connection server timeout n = elim timeout [
    | none ↦ (n, err TdxError.connection)
    | some t ↦
        let (w, r) = k.connect_timeout server (max (min t (86400 * 10 ^ 9)) (10 ^ 6)) n.world in
        elim r [
          | none ↦ (record n { world = w }, err TdxError.connection)
          | some conn ↦ (record n { world = w }, ok conn)
        ]
  ]

  -- `healthy.set(false)`.
  abbrev pub fail_connection {ℓ} : {A : Type ℓ} → ℕ → TdxError → Io (Net W) A
  fail_connection conn e n = (record n { unhealthy = conn ∷ n.unhealthy }, err e)

  unfoldable pub send : ℕ → Bytes → Io (Net W) (Unit {0})
  send conn packet n =
      let (w, r) = k.write_all conn packet n.world in
      let n' = record n { world = w } in
      elim r [ true ↦ (n', ok tt) | false ↦ fail_connection conn TdxError.connection n' ]

  -- The loop of `recv` with `missing` bytes to come: the buffer has no room for more, and every
  -- round that goes on fills at least one byte of it.
  unfoldable pub recv_loop : ℕ → ℕ → ℕ → Bytes → Io (Net W) Bytes
  recv_loop zero conn missing buf n = (n, ok buf)
  recv_loop (suc fuel) conn zero buf n = (n, ok buf)
  recv_loop (suc fuel) conn (suc missing) buf n =
      let (w, r) = k.read conn (suc missing) n.world in
      let n' = record n { world = w } in
      elim r [
        | none ↦ fail_connection conn TdxError.connection n'
        | some came ↦
            let got = take (suc missing) came in
            elim got [
              | [] ↦ fail_connection conn TdxError.disconnected n'
              | b ∷ bs ↦ recv_loop fuel conn (suc missing - length (b ∷ bs)) (buf ++ (b ∷ bs)) n'
            ]
      ]

  -- `recv`; as many rounds as bytes are enough.
  unfoldable pub recv : ℕ → ℕ → Io (Net W) Bytes
  recv conn len = recv_loop len conn len []

  unfoldable pub is_open : ℕ → Net W → Bool
  unfolding has_number
  is_open conn n = not (has_number conn n.unhealthy) && k.take_error conn n.world

  -- `while body.len() < zip_size`.
  unfoldable pub body_loop : ℕ → ℕ → ℕ → Bytes → Io (Net W) Bytes
  body_loop zero conn zip_size body n = (n, ok body)
  body_loop (suc fuel) conn zip_size body n = elim (ltb (length body) zip_size) [
    | true ↦
        (recv conn (zip_size - length body) >>= λ chunk.
        body_loop fuel conn zip_size (body ++ chunk))
          n
    | false ↦ (n, ok body)
  ]

  unfoldable pub read_response_raw : ℕ → Io (Net W) (ResponseHeader × Bytes)
  read_response_raw conn = do
    head_buf ← recv conn 16
    header ← pure (parse_header head_buf)
    body ← body_loop header.zip_size conn header.zip_size []
    return (header, body)

  unfoldable pub decompress_zlib_checked : Bytes → ℕ → Outcome Bytes
  decompress_zlib_checked body unzip_size =
      elim (k.inflate (decompress_limit unzip_size + 1) body) [
        | none ↦ err decompress_failed
        | some out ↦
            if ltb (decompress_limit unzip_size) (length out) then err decompress_failed else ok out
      ]

  unfoldable pub decompress_zlib : Bytes → Outcome Bytes
  unfolding decompress_zlib_checked
  decompress_zlib body = decompress_zlib_checked body 0

  -- One command of the handshake.
  unfoldable pub setup_step : ℕ → Bytes → Io (Net W) (Unit {0})
  setup_step conn cmd = do
    send conn cmd
    (head, body) ← read_response_raw conn
    if head.zip_size == head.unzip_size
        then return tt
        else (pure (decompress_zlib body) >>= λ _. return tt)

  unfoldable pub perform_handshake : ℕ → Io (Net W) (Unit {0})
  perform_handshake conn = do
    setup_step conn setup_cmd1
    setup_step conn setup_cmd2
    setup_step conn setup_cmd3
