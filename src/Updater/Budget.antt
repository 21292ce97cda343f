-- ===== src/Updater/Budget.antt =====
-- internal/updater/manager.go: the length of a release summary.
use rig_exporter.Base.{
  ℕ, ◌+◌, ◌-◌, ◌≤◌, ◌<◌, inl, inr, Bool, true, false, Option, none, some, List, [], ◌∷◌, arith, leb,
  ◌==◌, if◌then◌else◌, leb→le, Bool-cases, length, take, length-append, length-take,
}
use rig_exporter.Base.Unicode.{Unicode}
use rig_exporter.Updater.Summary.{
  Line, max_release_summary, more_line, join, fitting_from, fitting_lines, is_heading, drop_heading,
  without_trailing_headings, first_item, last_space, trim_right, keep_space, cut_at, cut_on_a_word,
  summarize_cut, summarize_lines, summary_lines, summarize,
}

-- The characters of lines joined by newlines, behind a first line or not.
abbrev joined : Bool → List Line → ℕ
joined first [] = 0
joined first (line ∷ lines) = (if first then length line else length line + 1) + joined false lines

length-join : (lines : List Line) → length (join (10 ∷ []) lines) ≤ joined true lines
unfolding join
length-join [] = omega arith
length-join (line ∷ []) = omega arith
length-join (line ∷ next ∷ lines) =
    omega
      (arith, length-append line (10 ∷ join (10 ∷ []) (next ∷ lines)), length-join (next ∷ lines))

fitting_from-budget :
    (lines : List Line) (first : Bool) (used budget : ℕ)
    → used ≤ budget
    → used + joined first (fitting_from first used budget lines) ≤ budget
unfolding fitting_from
fitting_from-budget [] first used budget h = omega arith
fitting_from-budget (line ∷ lines) first used budget h = ground (
  arith,
  fitting_from-budget lines false (used + (if first then length line else length line + 1)) budget,
)

drop_heading-joined :
    (b first : Bool) (line : Line) (lines : List Line)
    → joined first (drop_heading b line lines) ≤ joined first (line ∷ lines)
unfolding drop_heading
drop_heading-joined true first line [] = omega arith
drop_heading-joined true first line (l ∷ lines) = omega arith
drop_heading-joined false first line lines = omega arith

joined_mono :
    (first : Bool) (line : Line) (kept lines : List Line)
    → joined false kept ≤ joined false lines
    → joined first (line ∷ kept) ≤ joined first (line ∷ lines)
joined_mono first line kept lines h = omega arith

without-joined :
    (lines : List Line) (first : Bool)
    → joined first (without_trailing_headings lines) ≤ joined first lines
unfolding without_trailing_headings
without-joined [] first = omega arith
without-joined (line ∷ lines) first = omega (
  arith,
  drop_heading-joined (is_heading line) first line (without_trailing_headings lines),
  joined_mono first line (without_trailing_headings lines) lines (without-joined lines false),
)

length-trim_right : (text : Line) → length (trim_right text) ≤ length text
unfolding trim_right keep_space
length-trim_right [] = omega arith
length-trim_right (c ∷ text) = omega (arith, keep-le c (trim_right text), length-trim_right text)
  where
    keep-le : (c : ℕ) (rest : Line) → length (keep_space c rest) ≤ length rest + 1
    keep-le c [] = ground arith
    keep-le c (d ∷ rest) = omega arith

length-cut_at : (o : Option ℕ) (head : Line) → length (cut_at o head) ≤ length head
unfolding cut_at
length-cut_at none head = omega arith
length-cut_at (some n) head = ground (arith, length-take n head)

length-cut : (text : Line) (budget : ℕ) → 0 < budget → length (cut_on_a_word text budget) ≤ budget
unfolding cut_on_a_word
length-cut text budget h = elim (Bool-cases (leb (length text) budget)) [
  | inl short ↦ rw short (leb→le _ _ short)
  | inr long ↦ rw long (
      omega (
        arith,
        length-append
            (trim_right
              (cut_at (last_space 0 none (take (budget - 1) text)) (take (budget - 1) text)))
            (8230 ∷ []),
        length-trim_right
            (cut_at (last_space 0 none (take (budget - 1) text)) (take (budget - 1) text)),
        length-cut_at (last_space 0 none (take (budget - 1) text)) (take (budget - 1) text),
        length-take (budget - 1) text,
      ))
]

-- The lines that fit a budget, less trailing headings, fit it too once joined.
length-kept :
    (lines : List Line) (budget : ℕ)
    → length (join (10 ∷ []) (without_trailing_headings (fitting_lines lines budget))) ≤ budget
unfolding fitting_lines
length-kept lines budget = omega (
  arith,
  length-join (without_trailing_headings (fitting_from true 0 budget lines)),
  without-joined (fitting_from true 0 budget lines) true,
  fitting_from-budget lines true 0 budget,
)

length-summarize_cut :
    (line : Line) (lines kept : List Line)
    → length (join (10 ∷ []) kept) ≤ 251
    → length (summarize_cut line lines kept) ≤ max_release_summary
unfolding summarize_cut
length-summarize_cut line lines [] h = length-cut (first_item line lines) 255 (omega arith)
length-summarize_cut line lines (k ∷ kept) h =
    omega (arith, length-append (join (10 ∷ []) (k ∷ kept)) (10 ∷ more_line))

length-summarize_lines : (lines : List Line) → length (summarize_lines lines) ≤ max_release_summary
unfolding summarize_lines
length-summarize_lines [] = omega arith
length-summarize_lines (line ∷ lines) =
    elim (Bool-cases
      (length (fitting_lines (line ∷ lines) max_release_summary) == length (line ∷ lines))) [
        | inl all ↦ rw all (length-kept (line ∷ lines) 255)
        | inr some' ↦ rw some' (
            length-summarize_cut line lines
              (without_trailing_headings (fitting_lines (line ∷ lines) 251))
              (length-kept (line ∷ lines) 251))
      ]

-- Whatever the release notes, the summary has at most 255 characters, which is what Home Assistant
-- has room for.
pub length-summarize :
    (u : Unicode) (notes : Line) → length (summarize u notes) ≤ max_release_summary
unfolding summarize
length-summarize u notes = length-summarize_lines (summary_lines u notes)
