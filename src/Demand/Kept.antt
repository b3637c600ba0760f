-- ===== src/Demand/Kept.antt =====
-- What a release that is kept has shown.
use linux_iso_seeder.Base.{
  ℕ, Bool, arith, ◌≡◌, ◌≢◌, ◌↔◌, refl, true, false, ◌⊎◌, inl, inr, Option, none, some, subst, [],
  ◌==◌, Result, ok, raised, type_error, Bool-cases, >>=-eq-ok, ◌>>=◌, ok_injective, ◌∙◌, sym, ap,
}
use linux_iso_seeder.Base.Int.{ℤ, ltb_ℤ}
use linux_iso_seeder.Base.Float.{Float}
use linux_iso_seeder.Bencode.Value.{Value, int, bool, bytes, str, list, dict, other}
use linux_iso_seeder.Watch.{Bytes, Response, reply, no_reply, is_error_status}
use linux_iso_seeder.Demand.{
  Scrape, Floor, Evaluation, is_zero, as_number, scraped, is_served_short, has_unmet_demand,
  evaluate_content, evaluate_old_release_demand,
}

as_number-eq-ok : (v : Value) (n : ℤ) → as_number v ≡ ok n → v ≡ int n
unfolding as_number
as_number-eq-ok (int m) n h = cc h
as_number-eq-ok (bool b) n h = cc h
as_number-eq-ok (bytes b) n h = cc h
as_number-eq-ok (str t) n h = cc h
as_number-eq-ok (list vs) n h = cc h
as_number-eq-ok (dict fs) n h = cc h
as_number-eq-ok other n h = cc h

-- A value that is not an int.
abbrev pub IsNoInt : Value → Type 0
IsNoInt v = (n : ℤ) → v ≢ int n

int_injective : {m n : ℤ} → int m ≡ int n → m ≡ n
int_injective h = cc h

some_injective : {A : Type 0} {a b : A} → some a ≡ some b → a ≡ b
some_injective h = cc h

abbrev status_of : Response → ℕ
status_of no_reply = 0
status_of (reply status content) = status

abbrev content_of : Response → Bytes
content_of no_reply = []
content_of (reply status content) = content

as_number_cases :
    (v : Value)
    → ((n : ℤ) × (v ≡ int n) × (as_number v ≡ ok n))
      ⊎ (IsNoInt v × (as_number v ≡ raised type_error))
unfolding as_number
as_number_cases (int m) = inl (m, refl, refl)
as_number_cases (bool b) = inr (λ n h. cc h, refl)
as_number_cases (bytes b) = inr (λ n h. cc h, refl)
as_number_cases (str t) = inr (λ n h. cc h, refl)
as_number_cases (list vs) = inr (λ n h. cc h, refl)
as_number_cases (dict fs) = inr (λ n h. cc h, refl)
as_number_cases other = inr (λ n h. cc h, refl)

module _ (fl : Float) where
  open fl use {F, le, times, from_int}

  -- The counts are ints. There are enough leechers, and enough of them for each seeder; a swarm
  -- without seeders counts only if that is allowed.
  abbrev pub IsWanted : Floor F → Scrape → Type 0
  IsWanted floor s =
      (leechers : ℤ) × (seeders : ℤ) × (s.leechers ≡ int leechers)
      × (s.seeders ≡ int seeders)
      × (ltb_ℤ leechers floor.min_leechers ≡ false)
      × (((is_zero seeders ≡ true) × (floor.allow_zero_seeders ≡ true))
          ⊎ ((is_zero seeders ≡ false)
              × (le (times floor.min_leecher_ratio (from_int seeders)) (from_int leechers) ≡ true)))

  is_served_short-true :
      (floor : Floor F) (leechers seeders : ℤ)
      → is_served_short fl floor leechers seeders ≡ ok true
      → ((is_zero seeders ≡ true) × (floor.allow_zero_seeders ≡ true))
        ⊎ ((is_zero seeders ≡ false)
            × (le (times floor.min_leecher_ratio (from_int seeders)) (from_int leechers) ≡ true))
  unfolding is_served_short
  is_served_short-true floor leechers seeders h = elim (Bool-cases (is_zero seeders)) [
    | inl zero_seeders ↦ inl (zero_seeders, ok_injective (rw zero_seeders at h))
    | inr seeded ↦ elim (Bool-cases (fl.is_too_large seeders)) [
      | inl large ↦ absurd (cc (rw (seeded, large) at h))
      | inr fits ↦ inr (seeded, ok_injective (rw (seeded, fits) at h))
    ]
  ]

  has_unmet_demand-IsWanted :
      (floor : Floor F) (s : Scrape)
      → has_unmet_demand fl floor (some s) ≡ ok true
      → IsWanted floor s
  unfolding has_unmet_demand
  has_unmet_demand-IsWanted floor s h =
      let (leechers, l, h1) = >>=-eq-ok (as_number s.leechers) _ h in
      elim (Bool-cases (ltb_ℤ leechers floor.min_leechers)) [
        | inl few ↦ absurd (cc (rw few at h1))
        | inr enough ↦
            let (seeders, e, h2) = >>=-eq-ok (as_number s.seeders) _ (rw enough at h1) in
            (
              leechers,
              seeders,
              as_number-eq-ok s.leechers leechers l,
              as_number-eq-ok s.seeders seeders e,
              enough,
              is_served_short-true floor leechers seeders h2,
            )
      ]

  scraped-IsWanted :
      (floor : Floor F) (result : Result (Option Scrape))
      → has_unmet_demand fl floor (scraped result) ≡ ok true
      → (s : Scrape) × (result ≡ ok (some s)) × IsWanted floor s
  unfolding has_unmet_demand
  scraped-IsWanted floor (raised e) h = absurd (cc h)
  scraped-IsWanted floor (ok none) h = absurd (cc h)
  scraped-IsWanted floor (ok (some s)) h = (s, refl, has_unmet_demand-IsWanted floor s h)

  -- What a release has shown that is kept.
  abbrev pub IsKept : (Bytes → Result (Option Scrape)) → Floor F → Response → Evaluation → Type 0
  IsKept scrape floor response ev =
      (status : ℕ) × (content : Bytes) × (s : Scrape) × (response ≡ reply status content)
      × (is_error_status status ≡ false)
      × (scrape content ≡ ok (some s))
      × IsWanted floor s
      × (ev.torrent_bytes ≡ some content)
      × (ev.scrape_result ≡ some s)

  evaluate_content-IsKept :
      (scrape : Bytes → Result (Option Scrape)) (floor : Floor F) (status : ℕ) (content : Bytes)
      (ev : Evaluation)
      → is_error_status status ≡ false
      → evaluate_content fl scrape floor content ≡ ok ev
      → ev.keep ≡ true
      → IsKept scrape floor (reply status content) ev
  unfolding evaluate_content
  evaluate_content-IsKept scrape floor status content ev fine h keep =
      let (kept, k, h1) = >>=-eq-ok (has_unmet_demand fl floor (scraped (scrape content))) _ h in
      let same_ev = ok_injective h1 in
      let is_kept : kept ≡ true = ap (λ (e : Evaluation). e.keep) same_ev ∙ keep in
      let (s, e, wanted) = scraped-IsWanted floor (scrape content) (k ∙ ap ok is_kept) in
      (
        status,
        content,
        s,
        refl,
        fine,
        e,
        wanted,
        sym (ap (λ (e : Evaluation). e.torrent_bytes) same_ev),
        sym (ap (λ (e : Evaluation). e.scrape_result) same_ev) ∙ ap scraped e,
      )

  -- A release is kept only if its torrent was downloaded with a status that is no error, a scrape
  -- of its content returned counts, and these counts are ints and wanted. It then comes with that
  -- content and those counts.
  pub evaluate_old_release_demand-keep :
      (scrape : Bytes → Result (Option Scrape)) (floor : Floor F) (response : Response)
      (ev : Evaluation)
      → evaluate_old_release_demand fl scrape floor response ≡ ok ev
      → ev.keep ≡ true
      → IsKept scrape floor response ev
  unfolding evaluate_old_release_demand
  evaluate_old_release_demand-keep scrape floor no_reply ev h keep =
      absurd (cc (ap (λ (e : Evaluation). e.keep) (ok_injective h), keep))
  evaluate_old_release_demand-keep scrape floor (reply status content) ev h keep =
      elim (Bool-cases (status == 404)) [
        | inl missing ↦
            absurd (cc (ap (λ (e : Evaluation). e.keep) (ok_injective (rw missing at h)), keep))
        | inr found ↦ elim (Bool-cases (is_error_status status)) [
          | inl error ↦
              absurd
                (cc (ap (λ (e : Evaluation). e.keep) (ok_injective (rw (found, error) at h)), keep))
          | inr fine ↦
              evaluate_content-IsKept scrape floor status content ev fine (rw (found, fine) at h)
                keep
        ]
      ]

  -- The leechers are no int, or there are enough of them and the seeders are no int.
  abbrev pub HasBadCount : Floor F → Scrape → Type 0
  HasBadCount floor s =
      IsNoInt s.leechers
      ⊎ ((leechers : ℤ) × (s.leechers ≡ int leechers)
          × (ltb_ℤ leechers floor.min_leechers ≡ false)
          × IsNoInt s.seeders)

  is_served_short-type_error :
      (floor : Floor F) (leechers seeders : ℤ)
      → is_served_short fl floor leechers seeders ≢ raised type_error
  unfolding is_served_short
  is_served_short-type_error floor leechers seeders h = elim (Bool-cases (is_zero seeders)) [
    | inl none_left ↦ cc (rw none_left at h)
    | inr seeded ↦ elim (Bool-cases (fl.is_too_large seeders)) [
      | inl large ↦ cc (rw (seeded, large) at h)
      | inr fits ↦ cc (rw (seeded, fits) at h)
    ]
  ]

  evaluate_content-type_error :
      (scrape : Bytes → Result (Option Scrape)) (floor : Floor F) (content : Bytes)
      → (evaluate_content fl scrape floor content ≡ raised type_error)
        ↔ (has_unmet_demand fl floor (scraped (scrape content)) ≡ raised type_error)
  unfolding evaluate_content
  evaluate_content-type_error scrape floor content =
      by_keep _ (has_unmet_demand fl floor (scraped (scrape content)))
    where
      by_keep :
          (f : Bool → Evaluation) (keep : Result Bool)
          → ((keep >>= λ k. ok (f k)) ≡ raised type_error) ↔ (keep ≡ raised type_error)
      by_keep f (ok k) = (λ h. cc h, λ h. cc h)
      by_keep f (raised e) = (λ h. cc h, λ h. cc h)

  has_unmet_demand-HasBadCount :
      (floor : Floor F) (s : Scrape)
      → (has_unmet_demand fl floor (some s) ≡ raised type_error) ↔ HasBadCount floor s
  unfolding has_unmet_demand
  has_unmet_demand-HasBadCount floor s = elim (as_number_cases s.leechers) [
    | inr (odd, e) ↦ rw e (λ h. inl odd, λ h. refl)
    | inl (leechers, l, e) ↦ elim (Bool-cases (ltb_ℤ leechers floor.min_leechers)) [
      | inl few ↦
          rw (e, few)
            (
              λ h. cc h,
              λ h. elim h [
                | inl odd ↦ absurd (odd leechers l)
                | inr (n, l', enough, odd) ↦ absurd (cc (few, enough, int_injective (sym l ∙ l')))
              ],
            )
      | inr enough ↦ elim (as_number_cases s.seeders) [
        | inr (odd, f) ↦ rw (e, enough, f) (λ h. inr (leechers, l, enough, odd), λ h. refl)
        | inl (seeders, m, f) ↦
            rw (e, enough, f)
              (
                λ h. absurd (is_served_short-type_error floor leechers seeders h),
                λ h. elim h [
                  | inl odd ↦ absurd (odd leechers l)
                  | inr (n, l', enough', odd) ↦ absurd (odd seeders m)
                ],
              )
      ]
    ]
  ]

  scraped-HasBadCount :
      (floor : Floor F) (result : Result (Option Scrape))
      → (has_unmet_demand fl floor (scraped result) ≡ raised type_error)
        ↔ ((s : Scrape) × (result ≡ ok (some s)) × HasBadCount floor s)
  unfolding has_unmet_demand
  scraped-HasBadCount floor (raised e) = (λ h. cc h, λ (s, given, odd). cc given)
  scraped-HasBadCount floor (ok none) = (λ h. cc h, λ (s, given, odd). cc given)
  scraped-HasBadCount floor (ok (some s)) = (
    λ h. (s, refl, (has_unmet_demand-HasBadCount floor s).0 h),
    λ (s', given, odd).
        (has_unmet_demand-HasBadCount floor s).1
          (subst (HasBadCount floor) (some_injective (sym (ok_injective given))) odd),
  )

  good_status : (status : ℕ) → is_error_status status ≡ false → (status == 404) ≡ false
  good_status status fine = ground arith

  bad_status_returns :
      (scrape : Bytes → Result (Option Scrape)) (floor : Floor F) (status : ℕ) (content : Bytes)
      → is_error_status status ≡ true
      → evaluate_old_release_demand fl scrape floor (reply status content) ≢ raised type_error
  unfolding evaluate_old_release_demand
  bad_status_returns scrape floor status content bad h = elim (Bool-cases (status == 404)) [
    | inl missing ↦ cc (rw missing at h)
    | inr found ↦ cc (rw (found, bad) at h)
  ]

  -- The evaluation raises TypeError exactly when the torrent was downloaded with a status that is no
  -- error, the scrape of its content returns counts, and the leechers are no int, or reach
  -- `min_leechers` with seeders that are no int.
  pub evaluate_old_release_demand_raises :
      (scrape : Bytes → Result (Option Scrape)) (floor : Floor F) (response : Response)
      → (evaluate_old_release_demand fl scrape floor response ≡ raised type_error) ↔ (
          (status : ℕ) × (content : Bytes) × (s : Scrape) × (response ≡ reply status content)
          × (is_error_status status ≡ false)
          × (scrape content ≡ ok (some s))
          × HasBadCount floor s)
  unfolding evaluate_old_release_demand
  evaluate_old_release_demand_raises scrape floor no_reply =
      (λ h. cc h, λ (status, content, s, e, fine, given, odd). cc e)
  evaluate_old_release_demand_raises scrape floor (reply status content) =
      elim (Bool-cases (is_error_status status)) [
        | inl bad ↦ (
          λ h. absurd (bad_status_returns scrape floor status content bad h),
          λ (status', content', s, e, fine, given, odd). absurd (cc (bad, fine, ap status_of e)),
        )
        | inr fine ↦
            rw (good_status status fine, fine)
              (
                λ h.
                    let (s, e, odd) =
                      (scraped-HasBadCount floor (scrape content)).0
                        ((evaluate_content-type_error scrape floor content).0 h) in
                    (status, content, s, refl, fine, e, odd),
                λ (status', content', s, e, good, given, odd).
                    (evaluate_content-type_error scrape floor content).1 (
                      (scraped-HasBadCount floor (scrape content)).1
                        (s, ap scrape (ap content_of e) ∙ given, odd)),
              )
      ]
