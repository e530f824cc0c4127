-- ===== src/RateLimit/Headers.antt =====
-- src/http/rate_limit.rs: the response headers of a decision. `to_string` on numbers is a
-- parameter.
use opencord_server.Base.{ℕ, if◌then◌else◌, [], Text, text, text_eq}
use opencord_server.Base.Map.{HashMap, insert}
use opencord_server.RateLimit.{RateLimitDecision}

module _ (to_string : ℕ → Text) where
  unfoldable pub rate_limit_headers : RateLimitDecision → HashMap Text Text
  rate_limit_headers d =
      let h1 = insert [] (text "x-ratelimit-limit") (to_string d.limit) in
      let h2 = insert h1 (text "x-ratelimit-remaining") (to_string d.remaining) in
      let h3 = insert h2 (text "x-ratelimit-reset") (to_string d.reset_after_seconds) in
      let h4 = insert h3 (text "x-ratelimit-bucket") d.bucket in
      if d.allowed then h4 else insert h4 (text "retry-after") (to_string d.reset_after_seconds)
