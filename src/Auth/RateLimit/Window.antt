-- ===== src/Auth/RateLimit/Window.antt =====
-- No window holds more hits than the policy allows (backend/app/auth/rate_limit.py).
use niyam_ai.Base.{
  ℕ, ◌+◌, ◌*◌, ◌≤◌, ◌<◌, ◌≡◌, refl, true, false, ◌&&◌, List, [], ◌∷◌, arith, keep, length, total,
  insert_by, ltb, leb, if◌then◌else◌, Bool-cases, List-cases, inl, inr,
}
use niyam_ai.Auth.RateLimit.{Policy, is_recent, check_bucket}

-- The bucket, and the instants of the hits that were allowed.
abbrev pub History : Type 0
History = List ℕ × List ℕ

abbrev pub hit : Policy → ℕ → History → History
hit policy now (bucket, allowed) =
    let result = check_bucket policy now bucket in
    (result.2, if result.0 then now ∷ allowed else allowed)

unfoldable pub hits : Policy → List ℕ → History → History
hits policy [] h = h
hits policy (now ∷ nows) h = hits policy nows (hit policy now h)

-- Hits after `start` and within a window of it.
abbrev pub in_window : ℕ → ℕ → List ℕ → ℕ
in_window window_ms start = total (λ t. if ltb start t && leb t (start + window_ms) then 1 else 0)

-- Instants that follow one another.
abbrev pub IsClock : ℕ → List ℕ → Type 0
IsClock last [] = Unit
IsClock last (now ∷ nows) = (last ≤ now) × IsClock now nows

abbrev recent_hits : ℕ → ℕ → List ℕ → ℕ
recent_hits window_ms now = total (λ t. if is_recent window_ms now t then 1 else 0)

-- The bucket remembers the allowed hits that still count, and every window is within the bound.
abbrev IsBounded : Policy → ℕ → History → Type 0
IsBounded policy last h =
    ((now : ℕ)
      → last ≤ now
      → recent_hits (policy.window_s * 1000) now h.0 ≡ recent_hits (policy.window_s * 1000) now h.1)
    × ((start : ℕ) → in_window (policy.window_s * 1000) start h.1 ≤ policy.max_hits)

recent_hits-keep :
    (w now later : ℕ) (ts : List ℕ)
    → now ≤ later
    → recent_hits w later (keep (is_recent w now) ts) ≡ recent_hits w later ts
recent_hits-keep w now later [] h = refl
recent_hits-keep w now later (t ∷ ts) h = ground (arith, recent_hits-keep w now later ts h)

length-keep_recent :
    (w now : ℕ) (ts : List ℕ) → length (keep (is_recent w now) ts) ≡ recent_hits w now ts
length-keep_recent w now [] = refl
length-keep_recent w now (t ∷ ts) = ground (arith, length-keep_recent w now ts)

recent_hits-insert_by :
    (w later now : ℕ) (ts : List ℕ)
    → recent_hits w later (insert_by leb now ts)
      ≡ (if is_recent w later now then 1 else 0) + recent_hits w later ts
recent_hits-insert_by w later now [] = ground arith
recent_hits-insert_by w later now (t ∷ ts) = ground (arith, recent_hits-insert_by w later now ts)

-- The hits of a window that ends at or after `now` are recent at `now`.
in_window-recent_hits :
    (w now start : ℕ) (ts : List ℕ) → now ≤ start + w → in_window w start ts ≤ recent_hits w now ts
in_window-recent_hits w now start [] h = omega arith
in_window-recent_hits w now start (t ∷ ts) h =
    ground (arith, in_window-recent_hits w now start ts h)

module _ (policy : Policy) (last now : ℕ) (bucket allowed : List ℕ)
    (some_hits : 0 < policy.max_hits) (le : last ≤ now)
    (h : IsBounded policy last (bucket, allowed)) where
  abbrev window : ℕ
  window = policy.window_s * 1000

  abbrev recent : List ℕ
  recent = keep (is_recent window now) bucket

  -- The recent part of the bucket stands for the history as well.
  recent-same :
      (later : ℕ) → now ≤ later → recent_hits window later recent ≡ recent_hits window later allowed
  recent-same later k =
      ground (arith, recent_hits-keep window now later bucket k, h.0 later (omega (arith, k, le)))

  refused_hit :
      leb policy.max_hits (length recent) ≡ true
      → (oldest : ℕ) × (rest : List ℕ) × (recent ≡ oldest ∷ rest)
  refused_hit full = elim (List-cases recent) [
    | inl e ↦ ground (arith, full, e, some_hits)
    | inr (oldest, rest, e) ↦ (oldest, rest, e)
  ]

  allowed_window :
      leb policy.max_hits (length recent) ≡ false
      → (start : ℕ) → in_window window start (now ∷ allowed) ≤ policy.max_hits
  allowed_window free start = elim (Bool-cases (ltb start now && leb now (start + window))) [
    | inr out ↦ ground (arith, out, h.1 start)
    | inl inside ↦ ground (
      arith,
      inside,
      free,
      in_window-recent_hits window now start allowed,
      recent-same now (omega arith),
      length-keep_recent window now bucket,
      recent_hits-keep window now now bucket (omega arith),
    )
  ]

  hit-IsBounded : IsBounded policy now (hit policy now (bucket, allowed))
  unfolding check_bucket
  hit-IsBounded = elim (Bool-cases (leb policy.max_hits (length recent))) [
    | inl full ↦
        let (oldest, rest, e) = refused_hit full in
        (
          λ later k. ground (arith, full, e, recent-same later k),
          λ start. ground (arith, full, e, h.1 start),
        )
    | inr free ↦ (
      λ later k.
          ground (arith, free, recent-same later k, recent_hits-insert_by window later now recent),
      λ start. ground (arith, free, allowed_window free start),
    )
  ]

hits-IsBounded :
    (policy : Policy) (last : ℕ) (nows : List ℕ) (h : History)
    → 0 < policy.max_hits
    → IsClock last nows
    → IsBounded policy last h
    → (start : ℕ)
    → in_window (policy.window_s * 1000) start (hits policy nows h).1 ≤ policy.max_hits
unfolding hits
hits-IsBounded policy last [] h m c b start = b.1 start
hits-IsBounded policy last (now ∷ nows) (bucket, allowed) m c b start =
    hits-IsBounded policy now nows (hit policy now (bucket, allowed)) m c.1
      (hit-IsBounded policy last now bucket allowed m c.0 b) start

-- Of any series of hits on one bucket, empty at first, at instants that follow one another, at most
-- `max_hits` are allowed within any window of the policy's length, wherever it starts. The policy
-- allows at least one hit, as every one of the module does.
pub hits_window :
    (policy : Policy) (nows : List ℕ) (start : ℕ)
    → 0 < policy.max_hits
    → IsClock 0 nows
    → in_window (policy.window_s * 1000) start (hits policy nows ([], [])).1 ≤ policy.max_hits
hits_window policy nows start m c =
    hits-IsBounded policy 0 nows ([], []) m c (λ now k. refl, λ start. omega arith) start
