-- ===== src/Security/RateLimit/Limited.antt =====
-- The limit over any sequence of requests.
use tokenization.Common.{
  ℕ, ◌+◌, ◌*◌, ◌≤◌, ◌≡◌, refl, sym, inl, inr, arith, true, false, some, if◌then◌else◌, List, [],
  ◌∷◌, ◌++◌, leb, Bool-cases, Option-cases, length, Member, ==_refl,
}
use tokenization.Common.Table.{count_where, fetch_one-select_where, Member-select_where}
use tokenization.Database.Rows.{Text, same_text, same_text_eq}
use tokenization.Security.RateLimit.{
  RateLimitRule, Request, Hits, trim_expired, rule_for, bucket_of, Verdict, dispatch, second,
  Limits, active_rules, sensitive_suffix, writes_suffix, build_write_rate_limit_rules,
}
use tokenization.Security.RateLimit.Window.{
  serve, admissions, InOrder, in_window, Within, Within-later, Within-limited, Within-admitted,
  one_more, admits_into,
}

-- Every rule that puts requests into the bucket has this limit and this window.
abbrev pub Owns : List RateLimitRule → Text → ℕ → ℕ → Type 0
Owns rules b limit window =
    (q : Request) (r : RateLimitRule)
    → rule_for rules q ≡ some r
    → same_text b (bucket_of r q) ≡ true
    → (r.limit ≡ limit) × (r.window_seconds * second ≡ window)

module _ (rules : List RateLimitRule) (b : Text) (limit window : ℕ)
    (owns : Owns rules b limit window) where
  abbrev log_after : ℕ → Request → Verdict → List ℕ → List ℕ
  log_after later q v log = if admits_into rules b q v then log ++ later ∷ [] else log

  dispatch-Within :
      (q : Request) (now later : ℕ) (hits : Hits) (log : List ℕ)
      → Within limit window now (hits b) log
      → now ≤ later
      → let (v, hits') = dispatch rules later q hits in
        Within limit window later (hits' b) (log_after later q v log)
  unfolding dispatch
  dispatch-Within q now later hits log w ordered =
      let waited : Within limit window later (hits b) log =
        Within-later limit window now later (hits b) log w ordered in
      elim (Option-cases (rule_for rules q)) [
        | inl unmatched ↦ rw unmatched waited
        | inr (r, matched) ↦
            let recent = trim_expired later (r.window_seconds * second) (hits (bucket_of r q)) in
            elim (Bool-cases (same_text b (bucket_of r q))) [
              | inr elsewhere ↦ elim (Bool-cases (leb r.limit (length recent))) [
                | inl full ↦ rw (matched, full, elsewhere) waited
                | inr room ↦ rw (matched, room, elsewhere) waited
              ]
              | inl here ↦
                  let (same_limit, same_window) = owns q r matched here in
                  let own : bucket_of r q ≡ b = sym (same_text_eq b (bucket_of r q) here) in
                  elim (Bool-cases (leb r.limit (length recent))) [
                    | inl full ↦
                        rw (matched, full, here, own, same_window)
                          (Within-limited limit window now later (hits b) log w ordered)
                    | inr room ↦
                        let room' : leb limit (length (trim_expired later window (hits b)))
                            ≡ false =
                          rw (own, same_window, same_limit) at room in
                        rw (matched, room, here, own, same_window)
                          (Within-admitted limit window now later (hits b) log w ordered
                            (ground arith))
                  ]
            ]
      ]

  serve-Bounded :
      (requests : List (ℕ × Request)) (now : ℕ) (hits : Hits) (log : List ℕ)
      → Within limit window now (hits b) log
      → InOrder now requests
      → (t : ℕ)
      → count_where (in_window t window) log
          + count_where (in_window t window) (admissions rules b (serve rules requests hits))
        ≤ limit
  unfolding count_where
  serve-Bounded [] now hits log w ordered t = omega (arith, w.bound t)
  serve-Bounded ((later, q) ∷ rest) now hits log w (ordered, rest_ordered) t =
      let (v, hits') = dispatch rules later q hits in
      let ih =
        serve-Bounded rest later hits' (log_after later q v log)
          (dispatch-Within q now later hits log w ordered) rest_ordered t in
      elim (Bool-cases (admits_into rules b q v)) [
        | inl e ↦ rw e (omega (arith, rw e at ih, one_more later (in_window t window) log))
        | inr e ↦ rw e (rw e at ih)
      ]

abbrev pub no_hits : Hits
no_hits b = []

-- A bucket that only rules of one limit and one window fill admits at most the limit in every window.
serve-limited :
    (rules : List RateLimitRule) (b : Text) (limit window : ℕ)
    → Owns rules b limit window
    → (requests : List (ℕ × Request)) → InOrder 0 requests
    → (t : ℕ)
    → count_where (in_window t window) (admissions rules b (serve rules requests no_hits)) ≤ limit
unfolding count_where
serve-limited rules b limit window owns requests ordered t =
    let start : Within limit window 0 [] [] = record {
      bound = λ t'. omega arith;
      recent = λ t' h. omega arith;
    } in
    omega (arith, serve-Bounded rules b limit window owns requests 0 no_hits [] start ordered t)

same_text-prefix :
    (s x y v w : Text) → same_text ((s ++ x) ++ v) ((s ++ y) ++ w) ≡ same_text (x ++ v) (y ++ w)
same_text-prefix [] x y v w = refl
same_text-prefix (c ∷ s) x y v w = rw (==_refl c) (same_text-prefix s x y v w)

module _ (s : Limits) (sensitive_paths : List Text) where
  -- The rules that the middleware of a service keeps.
  abbrev pub installed : List RateLimitRule
  installed = active_rules (build_write_rate_limit_rules s sensitive_paths)

  -- A rule is the one for sensitive paths or the one for writes.
  data Kind : RateLimitRule → Type 0 where
    sensitive :
        {r : RateLimitRule}
        → r.name ≡ s.service_name ++ sensitive_suffix
        → r.limit ≡ s.rate_limit_sensitive_requests
        → r.window_seconds ≡ s.rate_limit_window_seconds
        → Kind r
    writes :
        {r : RateLimitRule}
        → r.name ≡ s.service_name ++ writes_suffix
        → r.limit ≡ s.rate_limit_write_requests
        → r.window_seconds ≡ s.rate_limit_window_seconds
        → Kind r

  build_write_rate_limit_rules-Kind :
      (paths : List Text) (r : RateLimitRule)
      → Member r (build_write_rate_limit_rules s paths)
      → Kind r
  unfolding build_write_rate_limit_rules
  build_write_rate_limit_rules-Kind [] r (inl e) = rw e (writes refl refl refl)
  build_write_rate_limit_rules-Kind [] r (inr m) = elim m [ ]
  build_write_rate_limit_rules-Kind (p ∷ ps) r (inl e) = rw e (sensitive refl refl refl)
  build_write_rate_limit_rules-Kind (p ∷ ps) r (inr (inl e)) = rw e (writes refl refl refl)
  build_write_rate_limit_rules-Kind (p ∷ ps) r (inr (inr m)) = elim m [ ]

  installed-Kind : (r : RateLimitRule) → Member r installed → Kind r
  installed-Kind r m =
      build_write_rate_limit_rules-Kind sensitive_paths r (Member-select_where _ _ r m)

  same_bucket :
      (r r' : RateLimitRule) (q q' : Request)
      → Kind r
      → Kind r'
      → same_text (bucket_of r q) (bucket_of r' q') ≡ true
      → (r'.limit ≡ r.limit) × (r'.window_seconds * second ≡ r.window_seconds * second)
  unfolding bucket_of
  same_bucket r r' q q' (sensitive n l w) (sensitive n' l' w') e = (cc, rw (w, w') refl)
  same_bucket r r' q q' (writes n l w) (writes n' l' w') e = (cc, rw (w, w') refl)
  same_bucket r r' q q' (sensitive n l w) (writes n' l' w') e =
      absurd
        (cc (rw (n, n', same_text-prefix s.service_name sensitive_suffix writes_suffix _ _) at e))
  same_bucket r r' q q' (writes n l w) (sensitive n' l' w') e =
      absurd
        (cc (rw (n, n', same_text-prefix s.service_name writes_suffix sensitive_suffix _ _) at e))

  -- Whatever the sensitive paths, the limits and the requests of a service are, in the order in which they pass
  -- the lock: of the requests that a rule puts into one bucket (one client, and for the sensitive paths one
  -- path), at most the limit of the rule is admitted in any stretch of time as long as its window.
  pub installed-limited :
      (r : RateLimitRule) (client : Request) (requests : List (ℕ × Request)) (t : ℕ)
      → Member r installed
      → InOrder 0 requests
      → let admitted =
          admissions installed (bucket_of r client) (serve installed requests no_hits) in
        count_where (in_window t (r.window_seconds * second)) admitted ≤ r.limit
  unfolding rule_for
  installed-limited r client requests t m ordered =
      serve-limited installed (bucket_of r client) r.limit (r.window_seconds * second)
        (λ q r' found e.
          let (_, there) = fetch_one-select_where _ installed r' found in
          same_bucket r r' client q (installed-Kind r m) (installed-Kind r' there) e)
        requests ordered t
