-- ===== src/Ratios/Segment.antt =====
-- The latest segment of the ratio log, between its two markers.
use linux_iso_seeder.Base.{
  ◌≡◌, refl, true, false, Option, none, some, List, [], ◌∷◌, ◌++◌, ◌==◌, if◌then◌else◌, All,
}
use linux_iso_seeder.Base.Text.{Text, codes, starts_with}
use linux_iso_seeder.Base.Strings.{contains}

abbrev pub start_marker : Text
start_marker = codes "[ratio] RATIOS START"

abbrev pub end_marker : Text
end_marker = codes "[ratio] RATIOS END"

-- The lines after the last one that contains the marker.
unfoldable pub after_last_line : Text → List Text → Option (List Text)
after_last_line marker [] = none
after_last_line marker (line ∷ lines) =
    let later = after_last_line marker lines in
    elim later [
      | some segment ↦ some segment
      | none ↦ if contains marker line then some lines else none
    ]

-- The lines before the last one that contains the marker.
unfoldable pub before_last_line : Text → List Text → Option (List Text)
before_last_line marker [] = none
before_last_line marker (line ∷ lines) =
    let later = before_last_line marker lines in
    elim later [
      | some segment ↦ some (line ∷ segment)
      | none ↦ if contains marker line then some [] else none
    ]

abbrev or_lines : Option (List Text) → List Text → List Text
or_lines none lines = lines
or_lines (some segment) lines = segment

-- What the last start marker leaves, up to the last end marker.
abbrev segment_of : List Text → Option (List Text) → List Text
segment_of lines none = lines
segment_of lines (some segment) = or_lines (before_last_line end_marker segment) segment

unfoldable pub latest_segment : List Text → List Text
latest_segment lines = segment_of lines (after_last_line start_marker lines)

-- A text without an opening bracket contains no marker.
pub contains-skip :
    (marker before text : Text)
    → All (λ c. (b'[' == c) ≡ false) before
    → contains (b'[' ∷ marker) (before ++ text) ≡ contains (b'[' ∷ marker) text
unfolding contains starts_with
contains-skip marker [] text h = refl
contains-skip marker (c ∷ before) text h = rw (contains, h.0) (contains-skip marker before text h.1)

after_last_line-none :
    (marker : Text) (lines : List Text)
    → All (λ line. contains marker line ≡ false) lines
    → after_last_line marker lines ≡ none
unfolding after_last_line
after_last_line-none marker [] h = refl
after_last_line-none marker (line ∷ lines) h =
    rw (after_last_line-none marker lines h.1) (rw (h.0) refl)

after_last_line-first :
    (marker line : Text) (lines : List Text)
    → contains marker line ≡ true
    → All (λ later. contains marker later ≡ false) lines
    → after_last_line marker (line ∷ lines) ≡ some lines
unfolding after_last_line
after_last_line-first marker line lines h plain =
    rw (after_last_line-none marker lines plain) (rw h refl)

before_last_line-append :
    (marker end_line : Text) (lines : List Text)
    → contains marker end_line ≡ true
    → before_last_line marker (lines ++ (end_line ∷ [])) ≡ some lines
unfolding before_last_line
before_last_line-append marker end_line [] h = rw h refl
before_last_line-append marker end_line (line ∷ lines) h =
    rw (before_last_line-append marker end_line lines h) refl

-- Lines between the two markers are found again, if none of them begins a segment.
pub latest_segment-between :
    (start_line end_line : Text) (lines : List Text)
    → contains start_marker start_line ≡ true
    → contains end_marker end_line ≡ true
    → All (λ line. contains start_marker line ≡ false) (lines ++ (end_line ∷ []))
    → latest_segment (start_line ∷ (lines ++ (end_line ∷ []))) ≡ lines
latest_segment-between start_line end_line lines starts ends plain =
    unfold latest_segment in
    rw (after_last_line-first start_marker start_line (lines ++ (end_line ∷ [])) starts plain)
      (rw (before_last_line-append end_marker end_line lines ends) refl)
