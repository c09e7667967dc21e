-- ===== src/Security/RateLimit/Window.antt =====
-- How many requests a bucket admits in a window of time.
use tokenization.Common.{
  ℕ, ◌+◌, ◌≤◌, ◌<◌, ◌≡◌, refl, inl, inr, arith, Bool, true, false, ◌&&◌, Option, none, some, List,
  [], ◌∷◌, ◌++◌, ltb, leb, Bool-cases, if◌then◌else◌, length,
}
use tokenization.Common.Table.{count_where, count_where-append}
use tokenization.Database.Rows.{Text, same_text}
use tokenization.Security.RateLimit.{
  RateLimitRule, Request, Hits, Verdict, trim_expired, rule_for, bucket_of, dispatch,
}

-- The requests in the order in which they pass the lock, with what each is answered.
abbrev pub serve : List RateLimitRule → List (ℕ × Request) → Hits → List (ℕ × (Request × Verdict))
serve rules [] hits = []
serve rules ((now, q) ∷ rest) hits =
    let (v, hits') = dispatch rules now q hits in (now, (q, v)) ∷ serve rules rest hits'

abbrev pub is_admitted : Verdict → Bool
is_admitted Verdict.unlimited = false
is_admitted (Verdict.admitted remaining) = true
is_admitted (Verdict.limited retry_after) = false

abbrev falls_into : Text → Option RateLimitRule → Request → Bool
falls_into b none q = false
falls_into b (some r) q = same_text b (bucket_of r q)

abbrev pub admits_into : List RateLimitRule → Text → Request → Verdict → Bool
admits_into rules b q v = is_admitted v && falls_into b (rule_for rules q) q

-- The times at which the bucket admitted requests.
abbrev pub admissions : List RateLimitRule → Text → List (ℕ × (Request × Verdict)) → List ℕ
admissions rules b [] = []
admissions rules b ((now, (q, v)) ∷ rest) =
    let later = admissions rules b rest in if admits_into rules b q v then now ∷ later else later

-- The clock does not go back.
abbrev pub InOrder : ℕ → List (ℕ × Request) → Type 0
InOrder now [] = Unit
InOrder now ((t, q) ∷ rest) = (now ≤ t) × InOrder t rest

-- After the time `t`, and at most a window later.
abbrev pub in_window : ℕ → ℕ → ℕ → Bool
in_window t window s = ltb t s && leb s (t + window)

abbrev after : ℕ → ℕ → Bool
after t s = ltb t s

count_where-length : {A : Type 0} (p : A → Bool) (xs : List A) → count_where p xs ≤ length xs
unfolding count_where
count_where-length p [] = omega arith
count_where-length p (x ∷ xs) = elim (Bool-cases (p x)) [
  | inl e ↦ rw e (omega (arith, count_where-length p xs))
  | inr e ↦ rw e (omega (arith, count_where-length p xs))
]

window_within :
    (t window : ℕ) (xs : List ℕ) → count_where (in_window t window) xs ≤ count_where (after t) xs
unfolding count_where
window_within t window [] = omega arith
window_within t window (x ∷ xs) = ground (arith, window_within t window xs)

-- What is trimmed is older than every window that is still open.
count_where-trim_expired :
    (t now window : ℕ) (hits : List ℕ)
    → now ≤ t + window
    → count_where (after t) (trim_expired now window hits) ≡ count_where (after t) hits
unfolding count_where trim_expired
count_where-trim_expired t now window [] h = refl
count_where-trim_expired t now window (x ∷ xs) h = elim (Bool-cases (leb (x + window) now)) [
  | inl e ↦ rw e (ground (arith, count_where-trim_expired t now window xs h))
  | inr e ↦ rw e refl
]

pub one_more :
    (later : ℕ) (p : ℕ → Bool) (xs : List ℕ)
    → count_where p (xs ++ later ∷ []) ≡ count_where p xs + (if p later then 1 else 0)
unfolding count_where
one_more later p xs = omega (arith, count_where-append p xs (later ∷ []))

-- What the hits of a bucket say of the admissions so far.
pub record Within (limit window now : ℕ) (hits log : List ℕ) : Type 0 where
  pub bound : (t : ℕ) → count_where (in_window t window) log ≤ limit
  pub recent : (t : ℕ) → now ≤ t + window → count_where (after t) log ≤ count_where (after t) hits

module _ (limit window now later : ℕ) (hits log : List ℕ) (w : Within limit window now hits log)
    (ordered : now ≤ later) where
  pub Within-later : Within limit window later hits log
  Within-later = record { bound = w.bound; recent = λ t open_now. w.recent t (omega arith) }

  pub Within-limited : Within limit window later (trim_expired later window hits) log
  Within-limited = record {
    bound = w.bound;
    recent = λ t still.
        omega (arith, w.recent t (omega arith), count_where-trim_expired t later window hits still);
  }

  module _ (room : length (trim_expired later window hits) < limit) where
    pub Within-admitted :
        Within limit window later (trim_expired later window hits ++ later ∷ []) (log ++ later ∷ [])
    Within-admitted = record {
      bound = λ t. elim (Bool-cases (in_window t window later)) [
        | inr e ↦ rw (one_more later (in_window t window) log, e) (omega (arith, w.bound t))
        | inl e ↦
            rw (one_more later (in_window t window) log, e)
              (ground (
                arith,
                window_within t window log,
                w.recent t,
                count_where-trim_expired t later window hits,
                count_where-length (after t) (trim_expired later window hits),
              ))
      ];
      recent = λ t still.
          rw
            (
              one_more later (after t) log,
              one_more later (after t) (trim_expired later window hits),
            )
            (omega (
              arith,
              w.recent t (omega arith),
              count_where-trim_expired t later window hits still,
            ));
    }
