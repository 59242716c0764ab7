-- ===== src/Direct/Codes.antt =====
-- What the direct client of src/net/direct_client.rs makes of a code that is too long.
use tdxrs.Base.{ℕ, ◌≤◌, ◌≡◌, refl, length, take, min, arith, length-take, take-take}
use tdxrs.Bytes.{Bytes}
use tdxrs.Floats.{Floats}
use tdxrs.Net.{Sockets, Net}
use tdxrs.Requests.{code_bytes}
use tdxrs.Direct.{DirectClient, get_xdxr_info}

code_bytes-take : (code : Bytes) → 6 ≤ length code → code_bytes (take 6 code) ≡ code_bytes code
unfolding code_bytes
code_bytes-take code h =
    let six : min (length code) 6 ≡ 6 = omega arith in
    let cut : min (length (take 6 code)) 6 ≡ 6 = omega (arith, length-take 6 code) in
    rw (six, cut, take-take 6 6 code (omega arith)) refl

module _ {W : Type 0} (fl : Floats) (k : Sockets W) (c : DirectClient) where
  -- A code that is too long is cut without an error: the direct client asks for the events of the code's
  -- first six bytes, and returns what came as those of the code.
  get_xdxr_info-take :
      (market : ℕ) (code : Bytes) (n : Net W)
      → 6 ≤ length code
      → get_xdxr_info fl k c market code n ≡ get_xdxr_info fl k c market (take 6 code) n
  unfolding get_xdxr_info
  get_xdxr_info-take market code n h = rw (code_bytes-take code h) refl
