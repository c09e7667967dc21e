-- ===== src/Security/Tests.antt =====
-- The rate limiter of a service that allows one write a minute, at three requests.
use tokenization.Common.{ℕ, ◌*◌, ◌≤◌, refl, inl, arith, List, [], ◌∷◌, none, some}
use tokenization.Common.Table.{count_where, select_where}
use tokenization.Security.RateLimit.{
  Limits, Request, Method, write_rule, build_write_rate_limit_rules, bucket_of, second,
}
use tokenization.Security.RateLimit.Window.{in_window, admissions, serve}
use tokenization.Security.RateLimit.Limited.{installed, no_hits, installed-limited}

abbrev limits : Limits
limits = record {
  service_name = b's' ∷ [];
  rate_limit_sensitive_requests = 1;
  rate_limit_write_requests = 1;
  rate_limit_window_seconds = 60;
}

abbrev post_request : Request
post_request = record {
  method = Method.post;
  path = b'/' ∷ b'a' ∷ [];
  forwarded_for = none;
  client_host = some (b'h' ∷ []);
}

abbrev three : List (ℕ × Request)
three = (5, post_request) ∷ (6, post_request) ∷ (70 * second, post_request) ∷ []

installed-limited_example :
    count_where (in_window 4 (60 * second)) (
      admissions
        (installed limits [])
        (bucket_of (write_rule limits) post_request)
        (serve (installed limits []) three no_hits))
    ≤ 1
unfolding build_write_rate_limit_rules select_where
installed-limited_example =
    installed-limited limits [] (write_rule limits) post_request three 4 (inl refl)
      (omega arith, (omega arith, (omega arith, tt)))
