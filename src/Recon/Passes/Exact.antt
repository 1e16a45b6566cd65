-- ===== src/Recon/Passes/Exact.antt =====
-- The exact pass over its key groups.
use mathlib.Core.List.{Memᴰ}
use niyam_ai.Base.{
  ℕ, ◌≤◌, ◌≡◌, refl, sym, ◌∙◌, subst, true, not, some, List, [], ◌∷◌, map, arith, All, All-map,
  All-sort_by, All-of_keep, All-keep_mem, All-at, All-of_map, Bool-cases, inl, inr, All-of_sort_by,
  sort_by, keep, text_eq_sound, text_eq_refl, date_eq_sound, dist, Floats,
}
use niyam_ai.Recon.Lines.{ReconConfig, RegisterLine, B2BLine, MatchPair}
use niyam_ai.Recon.Passes.{
  Candidate, cross, Key, register_key, b2b_key, key_eq, key_leb, distinct_keys, exact_leb, Progress,
  is_taken, exact_pair, exact_rank, group_candidates, exact_groups, pass_exact,
}
use niyam_ai.Recon.Passes.Greedy.{
  IsBooked, assign-IsBooked, assign-All, assign-paired, assign_taken, assign_takes,
}
use niyam_ai.Recon.Passes.Cross.{All-cross, All-of_cross}

pub key_eq_sound : (a b : Key) → key_eq a b ≡ true → a ≡ b
key_eq_sound a b h =
    ground (arith, text_eq_sound a.0 b.0, text_eq_sound a.1 b.1, date_eq_sound a.2 b.2)

pub key_eq_refl : (a : Key) → key_eq a a ≡ true
key_eq_refl a = ground (arith, text_eq_refl a.0, text_eq_refl a.1)

All-of_distinct_keys : (K : Key → Type 0) (ks : List Key) → All K (distinct_keys ks) → All K ks
unfolding distinct_keys
All-of_distinct_keys K [] h = tt
All-of_distinct_keys K (k ∷ ks) h = (
  h.0,
  All-of_distinct_keys K ks (
      All-map (distinct_keys ks) (λ j keep_j. same j keep_j)
        (All-of_keep K (λ j. not (key_eq k j)) (distinct_keys ks) h.1)),
)
  where
    same : (j : Key) → (not (key_eq k j) ≡ true → K j) → K j
    same j f = elim (Bool-cases (key_eq k j)) [
      | inl e ↦ subst K (key_eq_sound k j e) h.0
      | inr e ↦ f (rw e)
    ]

module _ (fl : Floats) (cfg : ReconConfig fl.F) (register : List RegisterLine)
    (b2b : List B2BLine) where
  pub exact_groups-IsBooked :
      (a : ℕ) (base : List (MatchPair fl.F)) (keys : List Key) (s : Progress fl)
      → IsBooked fl a base s
      → IsBooked fl a base (exact_groups fl cfg register b2b keys s)
  unfolding exact_groups exact_pair
  exact_groups-IsBooked a base [] s h = h
  exact_groups-IsBooked a base (key ∷ keys) s h = exact_groups-IsBooked a base keys _ (
      assign-IsBooked fl (exact_pair fl) (λ x r b. refl) (λ x r b. refl) a base
        (group_candidates fl cfg register b2b key) s h)

  -- A candidate of a key group: two listed lines with that key, within the tolerance.
  abbrev IsCandidate : Candidate ℕ → Type 0
  IsCandidate t =
      Memᴰ t.1 register
      × Memᴰ t.2 b2b
      × (register_key t.1 ≡ b2b_key t.2)
      × (dist t.1.total_paise t.2.total_paise ≤ cfg.exact_amount_tolerance_paise)

  exact_rank-le :
      (r : RegisterLine) (c : B2BLine) (d : ℕ)
      → exact_rank fl cfg r c ≡ some d
      → dist r.total_paise c.total_paise ≤ cfg.exact_amount_tolerance_paise
  unfolding exact_rank
  exact_rank-le r c d h = ground arith

  exact_rank-some :
      (r : RegisterLine) (c : B2BLine)
      → dist r.total_paise c.total_paise ≤ cfg.exact_amount_tolerance_paise
      → exact_rank fl cfg r c ≡ some (dist r.total_paise c.total_paise)
  unfolding exact_rank
  exact_rank-some r c h = ground arith

  group_candidates-IsCandidate :
      (key : Key) → All IsCandidate (group_candidates fl cfg register b2b key)
  unfolding group_candidates
  group_candidates-IsCandidate key = All-sort_by IsCandidate exact_leb _ (
      All-cross (exact_rank fl cfg) (λ r. Memᴰ r register × (key_eq (register_key r) key ≡ true))
        (λ b. Memᴰ b b2b × (key_eq (b2b_key b) key ≡ true)) IsCandidate
        (λ r b d p q e. (
          p.0,
          q.0,
          key_eq_sound (register_key r) key p.1 ∙ sym (key_eq_sound (b2b_key b) key q.1),
          exact_rank-le r b d e,
        ))
        _ _ (All-keep_mem _ register) (All-keep_mem _ b2b))

  pub exact_groups-All {κ} :
      (P : MatchPair fl.F → Type κ) (keys : List Key) (s : Progress fl)
      → ((t : Candidate ℕ) → IsCandidate t → P (exact_pair fl t.0 t.1 t.2))
      → All P s.pairs
      → All P (exact_groups fl cfg register b2b keys s).pairs
  unfolding exact_groups
  exact_groups-All P [] s f h = h
  exact_groups-All P (key ∷ keys) s f h = exact_groups-All P keys _ f (
      assign-All fl (exact_pair fl) P (group_candidates fl cfg register b2b key) s
        (All-map _ f (group_candidates-IsCandidate key)) h)

  pub exact_groups-paired {κ} :
      (P Q : ℕ → Type κ) (keys : List Key) (s : Progress fl)
      → ((t : Candidate ℕ) → IsCandidate t → P t.1.invoice_id × Q t.2.b2b_entry_id)
      → All P s.paired_reg × All Q s.paired_b2b
      → All P (exact_groups fl cfg register b2b keys s).paired_reg
        × All Q (exact_groups fl cfg register b2b keys s).paired_b2b
  unfolding exact_groups
  exact_groups-paired P Q [] s f h = h
  exact_groups-paired P Q (key ∷ keys) s f h = exact_groups-paired P Q keys _ f (
      assign-paired fl (exact_pair fl) P Q (group_candidates fl cfg register b2b key) s
        (All-map _ f (group_candidates-IsCandidate key)) h)

  exact_groups_taken :
      (keys : List Key) (s : Progress fl) (r : RegisterLine) (b : B2BLine)
      → is_taken fl s r b ≡ true
      → is_taken fl (exact_groups fl cfg register b2b keys s) r b ≡ true
  unfolding exact_groups
  exact_groups_taken [] s r b h = h
  exact_groups_taken (key ∷ keys) s r b h =
      exact_groups_taken keys _ r b
        (assign_taken fl (exact_pair fl) (group_candidates fl cfg register b2b key) s r b h)

  exact_groups_takes :
      (keys : List Key) (s : Progress fl)
      → All
          (λ key.
            All
              (λ t. is_taken fl (exact_groups fl cfg register b2b keys s) t.1 t.2 ≡ true)
              (group_candidates fl cfg register b2b key))
          keys
  unfolding exact_groups
  exact_groups_takes [] s = tt
  exact_groups_takes (key ∷ keys) s = (
    All-map (group_candidates fl cfg register b2b key) (λ t. exact_groups_taken keys _ t.1 t.2)
        (assign_takes fl (exact_pair fl) (group_candidates fl cfg register b2b key) s),
    exact_groups_takes keys _,
  )

  -- After the exact pass every two lines with one key whose totals are within the tolerance have
  -- the invoice or the entry paired.
  pub pass_exact_takes :
      (pairs : List (MatchPair fl.F)) (r : RegisterLine) (b : B2BLine)
      → Memᴰ r register
      → Memᴰ b b2b
      → register_key r ≡ b2b_key b
      → dist r.total_paise b.total_paise ≤ cfg.exact_amount_tolerance_paise
      → is_taken fl (pass_exact fl cfg register b2b pairs) r b ≡ true
  unfolding pass_exact group_candidates
  pass_exact_takes pairs r b mr mb same near =
      All-at
        (λ (b : B2BLine).
          key_eq (b2b_key b) key ≡ true
          → (d : ℕ) → exact_rank fl cfg r b ≡ some d
          → is_taken fl final r b ≡ true)
        (All-of_keep _ (λ b. key_eq (b2b_key b) key) b2b row) mb
        (subst (λ k. key_eq (b2b_key b) k ≡ true) (sym same) (key_eq_refl (b2b_key b))) _
        (exact_rank-some r b near)
    where
      key : Key
      key = register_key r

      keys : List Key
      keys = distinct_keys (map register_key register)

      final : Progress fl
      final = pass_exact fl cfg register b2b pairs

      IsDone : Key → Type 0
      IsDone k =
          All (λ t. is_taken fl final t.1 t.2 ≡ true) (group_candidates fl cfg register b2b k)

      done : IsDone key
      done =
          All-at (λ r. IsDone (register_key r))
            (All-of_map register_key IsDone register (
              All-of_distinct_keys IsDone (map register_key register) (
                All-of_sort_by IsDone key_leb keys (
                  exact_groups_takes (sort_by key_leb keys)
                    (record { pairs = pairs; paired_reg = []; paired_b2b = [] })))))
            mr

      row :
          All
            (λ b. (d : ℕ) → exact_rank fl cfg r b ≡ some d → is_taken fl final r b ≡ true)
            (keep (λ b. key_eq (b2b_key b) key) b2b)
      row =
          All-at
            (λ r'.
              key_eq (register_key r') key ≡ true
              → All (λ b. (d : ℕ) → exact_rank fl cfg r' b ≡ some d → is_taken fl final r' b ≡ true)
                  (keep (λ b. key_eq (b2b_key b) key) b2b))
            (All-of_keep _ (λ r. key_eq (register_key r) key) register
              (All-of_cross (exact_rank fl cfg) (λ t. is_taken fl final t.1 t.2 ≡ true)
                (keep (λ r. key_eq (register_key r) key) register)
                (keep (λ b. key_eq (b2b_key b) key) b2b)
                (All-of_sort_by (λ t. is_taken fl final t.1 t.2 ≡ true) exact_leb
                  (cross (exact_rank fl cfg) (keep (λ r. key_eq (register_key r) key) register)
                    (keep (λ b. key_eq (b2b_key b) key) b2b))
                  done)))
            mr (key_eq_refl key)
