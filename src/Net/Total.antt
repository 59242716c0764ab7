-- ===== src/Net/Total.antt =====
-- No call of src/net/connection.rs and no handshake panics.
use tdxrs.Base.{ℕ, none, some, Option-cases, Bool-cases, inl, inr, ◌==◌, min, max, ◌*◌, ◌^◌}
use tdxrs.Errors.{Sound}
use tdxrs.Bytes.{Bytes}
use tdxrs.Pool.Key.{Server}
use tdxrs.Net.{
  Sockets, Net, Timeout, open_connection, send, setup_step, setup_cmd1, setup_cmd2, setup_cmd3,
  perform_handshake, decompress_zlib, read_response_raw,
}
use tdxrs.Net.Response.{
  Sound-mono, after-Sound, bind-Sound, read_response_raw_lem, decompress_zlib_checked_lem,
}

abbrev pub Any {ℓ} : {A : Type ℓ} → A → Type 0
Any a = Unit

module _ {W : Type 0} (k : Sockets W) where
  pub open_connection-Sound :
      (server : Server) (timeout : Timeout) (n : Net W)
      → Sound Any (open_connection k server timeout n).1
  unfolding open_connection
  open_connection-Sound server none n = tt
  open_connection-Sound server (some t) n =
      elim (Option-cases
        (k.connect_timeout server (max (min t (86400 * 10 ^ 9)) (10 ^ 6)) n.world).1) [
          | inl e ↦ rw (open_connection, e) tt
          | inr (conn, e) ↦ rw (open_connection, e) tt
        ]

  pub send-Sound : (conn : ℕ) (packet : Bytes) (n : Net W) → Sound Any (send k conn packet n).1
  unfolding send
  send-Sound conn packet n = elim (Bool-cases (k.write_all conn packet n.world).1) [
    | inl e ↦ rw (send, e) tt
    | inr e ↦ rw (send, e) tt
  ]

  decompress_zlib-Sound : (body : Bytes) → Sound Any (decompress_zlib k body)
  unfolding decompress_zlib
  decompress_zlib-Sound body =
      Sound-mono _ Any (decompress_zlib k body) (λ _ _. tt) (decompress_zlib_checked_lem k body 0)

  setup_step-Sound : (conn : ℕ) (cmd : Bytes) (n : Net W) → Sound Any (setup_step k conn cmd n).1
  unfolding setup_step
  setup_step-Sound conn cmd n =
      bind-Sound Any Any (send k conn cmd) _ n (send-Sound conn cmd n) (λ _ n1 _.
        bind-Sound Any Any (read_response_raw k conn) _ n1
          (Sound-mono _ Any (read_response_raw k conn n1).1 (λ _ _. tt)
            (read_response_raw_lem k conn n1))
          (λ (head, body) n2 _. elim (Bool-cases (head.zip_size == head.unzip_size)) [
            | inl e ↦ rw e tt
            | inr e ↦ rw e (
                after-Sound Any Any n2 (decompress_zlib k body) _ (decompress_zlib-Sound body)
                  (λ _ _ _. tt))
          ]))

  pub perform_handshake-Sound : (conn : ℕ) (n : Net W) → Sound Any (perform_handshake k conn n).1
  unfolding perform_handshake
  perform_handshake-Sound conn n =
      bind-Sound Any Any (setup_step k conn setup_cmd1) _ n (setup_step-Sound conn setup_cmd1 n)
        (λ _ n1 _.
          bind-Sound Any Any (setup_step k conn setup_cmd2) _ n1
            (setup_step-Sound conn setup_cmd2 n1) (λ _ n2 _. setup_step-Sound conn setup_cmd3 n2))
