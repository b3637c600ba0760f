-- ===== src/Rpc/ReadBack.antt =====
-- That the next run reads back the ratios that a run logged.
use linux_iso_seeder.Base.{
  ℕ, ◌-◌, ◌≡◌, refl, ◌∙◌, ap, true, false, some, List, [], ◌∷◌, ◌++◌, append_assoc, ok, Bool-cases,
  inl, inr, All, length, ◌==◌, map,
}
use linux_iso_seeder.Base.Text.{Text, codes, starts_with}
use linux_iso_seeder.Base.Strings.{is_space, strip, contains, spaces}
use linux_iso_seeder.Base.Dict
use linux_iso_seeder.Base.Dict.{Dict}
use linux_iso_seeder.Base.Float.{Float}
use linux_iso_seeder.Ratios.{after_marker, search_ratio, put_match, put_lines, get_previous_ratios}
use linux_iso_seeder.Ratios.Segment.{
  start_marker, end_marker, contains-skip, latest_segment-between,
}
use linux_iso_seeder.Ratios.Lines.{
  IsDecimal, IsPlain, ending, lazy_name-plain, search_ratio-skip, search_ratio-marker,
}
use linux_iso_seeder.Rpc.{
  Entry, upload_ratio, insert_entry, sorted, padded, ratio_message, line_of, ratio_lines,
  ratio_log_of,
}

-- No opening bracket.
abbrev pub IsBracketless : Text → Type 0
IsBracketless text = All (λ c. (b'[' == c) ≡ false) text

abbrev pub StartsPlain : Text → Type 0
StartsPlain [] = ⊥
StartsPlain (c ∷ text) = is_space c ≡ false

after_marker-plain :
    (name : Text) (n : ℕ) (text : Text)
    → StartsPlain name
    → IsPlain name
    → IsDecimal text
    → after_marker (b' ' ∷ (name ++ ending n text)) ≡ some (name, text)
unfolding after_marker
after_marker-plain [] n text start plain number = absurd start
after_marker-plain (c ∷ name) n text start plain number =
    rw start (rw (lazy_name-plain (c ∷ name) n text plain number) (unfold is_space in refl))

module _ (fl : Float) where
  -- The dict that the lines are read into: a later torrent of a name takes the place of an earlier one.
  abbrev pub recorded : Dict fl.F → List (Entry fl) → Dict fl.F
  recorded ratios [] = ratios
  recorded ratios (e ∷ es) = recorded (Dict.put ratios e.0 (fl.round3 (upload_ratio fl e))) es

module _ (fl : Float) (asctime : Text) where
  open fl use {F, round3, float_of, show3}

  -- A torrent whose name is one word of the log, and whose ratio is printed as a decimal number that
  -- `float` reads: a name that neither begins nor ends with a space, without an arrow, a line break or
  -- the text of the start marker.
  pub record IsLogged (e : Entry fl) : Type 0 where
    pub plain : IsPlain e.0
    pub start : StartsPlain e.0
    pub stripped : strip e.0 ≡ e.0
    pub decimal : IsDecimal (show3 (upload_ratio fl e))
    pub reads : float_of (show3 (upload_ratio fl e)) ≡ ok (round3 (upload_ratio fl e))
    pub unmarked : contains start_marker (line_of fl asctime (ratio_message fl e)) ≡ false

  -- A line, by the parts that the pattern goes through.
  line-parts :
      (name text : Text) (n : ℕ)
      → codes " INFO: "
          ++ ((codes "[ratio] "
                ++ ((name ++ spaces n) ++ (codes " " ++ (0x2192 ∷ codes " " ++ text))))
              ++ (10 ∷ []))
        ≡ codes " INFO: " ++ (codes "[ratio]" ++ (b' ' ∷ (name ++ ending n text)))
  line-parts name text n = simp append_assoc

  search_ratio-parts :
      (name text : Text) (n : ℕ)
      → StartsPlain name
      → IsPlain name
      → IsDecimal text
      → search_ratio (codes " INFO: " ++ (codes "[ratio]" ++ (b' ' ∷ (name ++ ending n text))))
        ≡ some (name, text)
  search_ratio-parts name text n start plain number =
      search_ratio-skip (codes " INFO: ") (codes "[ratio]" ++ (b' ' ∷ (name ++ ending n text)))
        (refl, (refl, (refl, (refl, (refl, (refl, (refl, tt)))))))
      ∙ search_ratio-marker (b' ' ∷ (name ++ ending n text))
          (after_marker-plain name n text start plain number)

  search_ratio-line :
      (e : Entry fl)
      → IsBracketless asctime
      → IsLogged e
      → search_ratio (line_of fl asctime (ratio_message fl e))
        ≡ some (e.0, show3 (upload_ratio fl e))
  unfolding ratio_message padded
  search_ratio-line e h logged =
      search_ratio-skip asctime _ h
      ∙ (ap search_ratio (line-parts e.0 (show3 (upload_ratio fl e)) (50 - length e.0))
          ∙ search_ratio-parts e.0 (show3 (upload_ratio fl e)) (50 - length e.0) logged.start
              logged.plain logged.decimal)

  torrent_lines : List (Entry fl) → List Text
  torrent_lines es = map (λ e. line_of fl asctime (ratio_message fl e)) es

  put_lines-recorded :
      (ratios : Dict F) (es : List (Entry fl))
      → IsBracketless asctime
      → All IsLogged es
      → put_lines fl ratios (torrent_lines es) ≡ ok (recorded fl ratios es)
  unfolding put_lines put_match torrent_lines
  put_lines-recorded ratios [] h logged = refl
  put_lines-recorded ratios (e ∷ es) h (first, rest) = rw (search_ratio-line e h first) (
      rw (first.reads, first.stripped)
        (put_lines-recorded (Dict.put ratios e.0 (round3 (upload_ratio fl e))) es h rest))

  ratio_lines-append :
      (es : List (Entry fl))
      → ratio_lines fl asctime es ≡ torrent_lines es ++ (line_of fl asctime end_marker ∷ [])
  unfolding ratio_lines torrent_lines
  ratio_lines-append [] = refl
  ratio_lines-append (e ∷ es) =
      ap (λ lines. line_of fl asctime (ratio_message fl e) ∷ lines) (ratio_lines-append es)

  All-insert_entry :
      (P : Entry fl → Type 0) (e : Entry fl) (es : List (Entry fl))
      → P e
      → All P es
      → All P (insert_entry fl e es)
  unfolding insert_entry
  All-insert_entry P e [] p all = (p, tt)
  All-insert_entry P e (d ∷ es) p all =
      elim (Bool-cases (fl.lt (upload_ratio fl e) (upload_ratio fl d))) [
        | inl less ↦ rw less (all.0, All-insert_entry P e es p all.1)
        | inr more ↦ rw more (p, all)
      ]

  All-sorted : (P : Entry fl → Type 0) (es : List (Entry fl)) → All P es → All P (sorted fl es)
  unfolding sorted
  All-sorted P [] all = tt
  All-sorted P (e ∷ es) all = All-insert_entry P e (sorted fl es) all.0 (All-sorted P es all.1)

  end_line-unmarked :
      IsBracketless asctime → contains start_marker (line_of fl asctime end_marker) ≡ false
  end_line-unmarked h = contains-skip _ asctime _ h ∙ (unfold contains starts_with in refl)

  start_line-marked :
      IsBracketless asctime → contains start_marker (line_of fl asctime start_marker) ≡ true
  start_line-marked h = contains-skip _ asctime _ h ∙ (unfold contains starts_with in refl)

  end_line-marked :
      IsBracketless asctime → contains end_marker (line_of fl asctime end_marker) ≡ true
  end_line-marked h = contains-skip _ asctime _ h ∙ (unfold contains starts_with in refl)

  lines-unmarked :
      (es : List (Entry fl))
      → IsBracketless asctime
      → All IsLogged es
      → All
          (λ line. contains start_marker line ≡ false)
          (torrent_lines es ++ (line_of fl asctime end_marker ∷ []))
  unfolding torrent_lines
  lines-unmarked [] h all = (end_line-unmarked h, tt)
  lines-unmarked (e ∷ es) h all = (all.0.unmarked, lines-unmarked es h all.1)

  -- If the time that the logger puts before a line has no opening bracket, and each torrent of the
  -- daemon's answer can be logged as a name and a decimal number, then: the next run reads from the
  -- ratio log the ratio of each torrent to three digits, and of several torrents with one name the
  -- ratio of the one that was logged last.
  pub get_previous_ratios-ratio_log_of :
      (torrents : List (Entry fl))
      → IsBracketless asctime
      → All IsLogged torrents
      → get_previous_ratios fl (some (ratio_log_of fl asctime torrents))
        ≡ ok (recorded fl [] (sorted fl torrents))
  unfolding get_previous_ratios ratio_log_of
  get_previous_ratios-ratio_log_of torrents h logged =
      let all : All IsLogged (sorted fl torrents) = All-sorted IsLogged torrents logged in
      rw (ratio_lines-append (sorted fl torrents)) (
        rw
          (latest_segment-between (line_of fl asctime start_marker) (line_of fl asctime end_marker)
            (torrent_lines (sorted fl torrents)) (start_line-marked h) (end_line-marked h)
            (lines-unmarked (sorted fl torrents) h all))
          (put_lines-recorded [] (sorted fl torrents) h all))
