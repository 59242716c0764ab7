-- ===== src/Pool/Key.antt =====
-- The key of a pooled connection, `(String, u16)`.
use tdxrs.Base.{ℕ, ◌≡◌, ◌↔◌, Bool, true, ◌&&◌, ◌==◌, arith}
use tdxrs.Text.{Text, text_eq}
use tdxrs.Text.Equality.{text_eq→eq, text_eq_refl}

pub record Server : Type 0 where
  pub host : Text
  pub port : ℕ

unfoldable pub same_server : Server → Server → Bool
same_server a b = text_eq a.host b.host && a.port == b.port

pub same_server_iff : (a b : Server) → (same_server a b ≡ true) ↔ (a ≡ b)
unfolding same_server
same_server_iff a b =
    (λ h. ground (arith, text_eq→eq a.host b.host), λ e. rw e (ground (arith, text_eq_refl b.host)))
