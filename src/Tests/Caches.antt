-- ===== src/Tests/Caches.antt =====
-- A server that fails, and a server that keeps one bar behind the newest 800.
use tdxrs.Base.{
  ℕ, ◌+◌, ◌-◌, ◌*◌, ◌%◌, ◌^◌, ◌≤◌, ◌<◌, ◌≡◌, refl, ap, ◌∙◌, true, false, Bool-cases, inl, inr, List,
  [], ◌∷◌, ◌++◌, ◌==◌, if◌then◌else◌, replicate, length, arith,
}
use tdxrs.Base.Int.{ℤ}
use tdxrs.Loop.{collect}
use tdxrs.Errors.{ok}
use tdxrs.Bytes.{Bytes, read_u16}
use tdxrs.Bytes.Layout.{le16}
use tdxrs.Floats.{symbols}
use tdxrs.Text.{Text}
use tdxrs.Io.{Io}
use tdxrs.Pool.Key.{Server}
use tdxrs.ServerCache.{is_blacklisted}
use tdxrs.ServerCache.Streak.{failed, succeeded, after_all, streak, Event}
use tdxrs.ServerCache.Avoided.{avoided_lem}
use tdxrs.Requests.{build_security_bars_packet}
use tdxrs.Requests.Packets.{build_security_bars_packet_lem}
use tdxrs.Bars.{SecurityBar, parse_security_bars}
use tdxrs.Bars.Encoded.{meant}
use tdxrs.Bars.RoundTrip.{encode_bars, parse_security_bars_lem}
use tdxrs.Context.{fetch_context, earliest}
use tdxrs.Context.Reach.{Reaches, fetch_context_lem}
use tdxrs.Client.Paging.History.{page}
use tdxrs.Tests.BarBodies.{session, session-IsMoment, session_in_range, session-IsWritable}
use tdxrs.Tests.Factors.{dividend, on_day}

abbrev failing : Server
failing = record { host = 49 ∷ []; port = 7709 }

abbrev two_failures : List Event
two_failures = failed 20 failing ∷ failed 10 failing ∷ []

avoided_example :
    (3 ≤ streak failing (failed 30 failing ∷ two_failures) % 2 ^ 32
      → is_blacklisted 30 failing (after_all (failed 30 failing ∷ two_failures)) ≡ true)
    × ((name : Text) (latency_ms later : ℕ)
        → is_blacklisted later failing
            (after_all (succeeded 30 failing name latency_ms ∷ two_failures))
          ≡ false)
avoided_example = avoided_lem 30 failing two_failures

-- The bar of one day, 801 times.
abbrev kept_bar : SecurityBar symbols
kept_bar = meant symbols 9 session

abbrev kept : List (SecurityBar symbols)
kept = replicate 801 kept_bar

abbrev answer : ℕ → Bytes
answer start = if start == 800 then le16 1 ++ encode_bars 9 (ℤ.pos 0) (session ∷ []) else le16 0

abbrev serve_old : Bytes → Io ℕ Bytes
serve_old packet s = (s + 1, ok (answer (read_u16 packet 24)))

nothing_parsed : parse_security_bars symbols 2027 (le16 0) 9 ≡ ok []
unfolding parse_security_bars collect read_u16
nothing_parsed = refl

answer_parsed :
    (offset : ℕ)
    → 800 ≤ offset
    → parse_security_bars symbols 2027 (answer offset) 9 ≡ ok (page kept offset 800)
answer_parsed offset h = elim (Bool-cases (offset == 800)) [
  | inl e ↦
      let here : offset ≡ 800 = ground arith in
      rw here (
        parse_security_bars_lem symbols 2027 9 (session ∷ []) (omega arith)
          (session-IsMoment, session_in_range, session-IsWritable, tt))
  | inr e ↦ let none_left : 801 - offset ≡ 0 = ground arith in rw (e, none_left) nothing_parsed
]

old_served :
    (offset s : ℕ)
    → 800 ≤ offset
    → offset < 65536
    → (body : Bytes) × ((serve_old (build_security_bars_packet 9 0 [] offset 800 0) s).1 ≡ ok body)
      × (parse_security_bars symbols 2027 body 9 ≡ ok (page kept offset 800))
old_served offset s h small =
    let (length, command, market, code, category, flag, start, count) =
      build_security_bars_packet_lem 9 0 [] offset 800 0 (omega arith) (omega arith)
        (omega arith) in
    (answer offset, ap (λ (i : ℕ). ok (answer i)) (start ∙ omega arith), answer_parsed offset h)

fetch_context_example :
    Reaches symbols kept
      (800 + 800 * 1)
      20240517
      (fetch_context symbols 2027 serve_old 1 9 0 [] (on_day 18 ∷ []) (dividend ∷ []) 0).1
unfolding earliest
fetch_context_example =
    fetch_context_lem symbols kept 2027 serve_old 9 0 [] old_served 1 20240517 (on_day 18) []
      (dividend ∷ []) 0 refl refl (omega arith)
