-- ===== src/Security/RateLimit.antt =====
-- The rate limiter of services/common/security.py. Times are microseconds of the monotonic clock; the
-- requests of one process pass the lock one after the other.
pub mod Window
pub mod Limited
use tokenization.Common.{
  ℕ, ◌+◌, ◌-◌, ◌*◌, ◌/◌, max, Bool, true, false, ◌&&◌, ◌||◌, Option, none, some, List, [], ◌∷◌,
  ◌++◌, ltb, leb, ◌==◌, if◌then◌else◌, length, get_or,
}
use tokenization.Common.Table.{select_where, fetch_one}
use tokenization.Common.Text.{starts_with, strip}
use tokenization.Database.Rows.{Text, same_text}

pub data Method : Type 0 where
  get head options post put patch delete : Method

pub data Scope : Type 0 where
  client client_path : Scope

-- `write_methods`
abbrev pub is_write : Method → Bool
is_write Method.get = false
is_write Method.head = false
is_write Method.options = false
is_write Method.post = true
is_write Method.put = true
is_write Method.patch = true
is_write Method.delete = true

pub record RateLimitRule : Type 0 where
  pub name : Text
  pub path_prefixes : List Text
  pub limit : ℕ
  pub window_seconds : ℕ
  pub methods : Method → Bool
  pub scope : Scope

-- `client_host` is none if the connection has no peer address.
pub record Request : Type 0 where
  pub method : Method
  pub path : Text
  pub forwarded_for : Option Text
  pub client_host : Option Text

abbrev pub starts_with_any : List Text → Text → Bool
starts_with_any [] path = false
starts_with_any (prefix ∷ prefixes) path = starts_with prefix path || starts_with_any prefixes path

unfoldable pub matches : RateLimitRule → Request → Bool
matches rule request =
    rule.methods request.method && starts_with_any rule.path_prefixes request.path

-- `split(",")[0]`
abbrev pub before_comma : Text → Text
before_comma [] = []
before_comma (c ∷ cs) = let rest = before_comma cs in if c == b',' then [] else c ∷ rest

abbrev pub unknown : Text
unknown = b'u' ∷ b'n' ∷ b'k' ∷ b'n' ∷ b'o' ∷ b'w' ∷ b'n' ∷ []

-- An empty text counts as missing.
abbrev pub or_else : Option Text → Text → Text
or_else none other = other
or_else (some []) other = other
or_else (some (c ∷ cs)) other = c ∷ cs

abbrev pub forwarded : Option Text → Text → Text
forwarded none other = other
forwarded (some []) other = other
forwarded (some (c ∷ cs)) other = strip (before_comma (c ∷ cs))

unfoldable pub client_ip : Request → Text
client_ip request = forwarded request.forwarded_for (or_else request.client_host unknown)

abbrev pub scope_identifier : RateLimitRule → Request → Text
scope_identifier rule request = elim rule.scope [
  | Scope.client_path ↦ request.path
  | Scope.client ↦ b'a' ∷ b'l' ∷ b'l' ∷ []
]

unfoldable pub bucket_of : RateLimitRule → Request → Text
unfolding client_ip
bucket_of rule request =
    rule.name ++ b':' ∷ (client_ip request ++ b':' ∷ scope_identifier rule request)

-- The recent admissions of each bucket, oldest first.
abbrev pub Hits : Type 0
Hits = Text → List ℕ

abbrev pub put_hits : Text → List ℕ → Hits → Hits
put_hits bucket times hits b = if same_text b bucket then times else hits b

abbrev pub second : ℕ
second = 1_000_000

-- Drops hits from the front while they are older than the window.
unfoldable pub trim_expired : ℕ → ℕ → List ℕ → List ℕ
trim_expired now window [] = []
trim_expired now window (t ∷ ts) =
    let rest = trim_expired now window ts in if leb (t + window) now then rest else t ∷ ts

pub data Verdict : Type 0 where
  unlimited : Verdict
  admitted : (remaining : ℕ) → Verdict
  limited : (retry_after : ℕ) → Verdict

abbrev pub oldest : List ℕ → ℕ → ℕ
oldest [] now = now
oldest (t ∷ ts) now = t

-- `max(1, int(rule.window_seconds - (now - hits[0])))`
abbrev pub retry_after : RateLimitRule → ℕ → List ℕ → ℕ
retry_after rule now hits =
    max 1 ((rule.window_seconds * second - (now - oldest hits now)) / second)

abbrev pub limit_by : Option RateLimitRule → ℕ → Request → Hits → Verdict × Hits
limit_by none now request hits = (Verdict.unlimited, hits)
limit_by (some rule) now request hits =
    let bucket = bucket_of rule request in
    let recent = trim_expired now (rule.window_seconds * second) (hits bucket) in
    if leb rule.limit (length recent)
    then (Verdict.limited (retry_after rule now recent), put_hits bucket recent hits)
    else (
      Verdict.admitted (rule.limit - length (recent ++ now ∷ [])),
      put_hits bucket (recent ++ now ∷ []) hits,
    )

-- The rules that `__init__` keeps.
abbrev pub active_rules : List RateLimitRule → List RateLimitRule
active_rules rules = select_where (λ r. ltb 0 r.limit) rules

unfoldable pub rule_for : List RateLimitRule → Request → Option RateLimitRule
unfolding matches
rule_for rules request = fetch_one (select_where (λ r. matches r request) rules)

unfoldable pub dispatch : List RateLimitRule → ℕ → Request → Hits → Verdict × Hits
unfolding rule_for trim_expired bucket_of
dispatch rules now request hits = limit_by (rule_for rules request) now request hits

-- The settings.
pub record Limits : Type 0 where
  pub service_name : Text
  pub rate_limit_sensitive_requests : ℕ
  pub rate_limit_write_requests : ℕ
  pub rate_limit_window_seconds : ℕ

abbrev pub sensitive_suffix : Text
sensitive_suffix = b'-' ∷ b's' ∷ b'e' ∷ b'n' ∷ b's' ∷ b'i' ∷ b't' ∷ b'i' ∷ b'v' ∷ b'e' ∷ []

abbrev pub writes_suffix : Text
writes_suffix = b'-' ∷ b'w' ∷ b'r' ∷ b'i' ∷ b't' ∷ b'e' ∷ b's' ∷ []

abbrev pub sensitive_rules : Limits → List Text → List RateLimitRule
sensitive_rules s [] = []
sensitive_rules s (p ∷ ps) =
    record {
      name = s.service_name ++ sensitive_suffix;
      path_prefixes = p ∷ ps;
      limit = s.rate_limit_sensitive_requests;
      window_seconds = s.rate_limit_window_seconds;
      methods = is_write;
      scope = Scope.client_path;
    }
    ∷ []

abbrev pub write_rule : Limits → RateLimitRule
write_rule s = record {
  name = s.service_name ++ writes_suffix;
  path_prefixes = (b'/' ∷ []) ∷ [];
  limit = s.rate_limit_write_requests;
  window_seconds = s.rate_limit_window_seconds;
  methods = is_write;
  scope = Scope.client;
}

-- A path that is given twice is one prefix all the same.
unfoldable pub build_write_rate_limit_rules : Limits → List Text → List RateLimitRule
build_write_rate_limit_rules s sensitive_paths =
    sensitive_rules s sensitive_paths ++ write_rule s ∷ []
