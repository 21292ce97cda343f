-- ===== src/Updater/Summary.antt =====
-- internal/updater/manager.go: `summarize` and its helpers, over texts as lists of code points.
use rig_exporter.Base.{
  ℕ, ◌+◌, ◌-◌, Bool, true, false, not, ◌&&◌, Option, none, some, List, [], ◌∷◌, ◌++◌, ltb, leb,
  ◌==◌, if◌then◌else◌, length, take,
}
use rig_exporter.Base.Text.{codes}
use rig_exporter.Base.Unicode.{Unicode}

abbrev pub Line : Type 0
Line = List ℕ

abbrev pub max_release_summary : ℕ
max_release_summary = 255

abbrev install_section : Line
install_section = codes "## Installing"

-- a dash, a space and the ellipsis
abbrev pub more_line : Line
more_line = 45 ∷ 32 ∷ 8230 ∷ []

-- strings.HasPrefix
unfoldable pub has_prefix : Line → Line → Bool
has_prefix text [] = true
has_prefix [] (p ∷ ps) = false
has_prefix (c ∷ text) (p ∷ ps) = c == p && has_prefix text ps

-- notes[:strings.Index(notes, section)], or all of the notes where the section is absent
unfoldable pub before : Line → Line → Line
before section [] = []
before section (c ∷ text) = if has_prefix (c ∷ text) section then [] else c ∷ before section text

-- strings.Split(text, "\n"), the line under way being `line`
unfoldable pub split_lines : Line → Line → List Line
split_lines line [] = line ∷ []
split_lines line (c ∷ text) =
    let rest = split_lines (if c == 10 then [] else line ++ c ∷ []) text in
    if c == 10 then line ∷ rest else rest

-- strings.Join(lines, sep)
unfoldable pub join : Line → List Line → Line
join sep [] = []
join sep (line ∷ []) = line
join sep (line ∷ next ∷ lines) = line ++ (sep ++ join sep (next ∷ lines))

-- strings.Fields, the field under way being `field'`
abbrev close_field : Line → List Line → List Line
close_field [] rest = rest
close_field (c ∷ field') rest = (c ∷ field') ∷ rest

unfoldable pub fields_from : Unicode → Line → Line → List Line
fields_from u field' [] = close_field field' []
fields_from u field' (c ∷ text) =
    let rest = fields_from u (if u.is_space c then [] else field' ++ c ∷ []) text in
    if u.is_space c then close_field field' rest else rest

unfoldable pub collapse : Unicode → Line → Line
unfolding fields_from join
collapse u raw = join (32 ∷ []) (fields_from u [] raw)

abbrev keep_line : Line → List Line → List Line
keep_line [] rest = rest
keep_line (c ∷ line) rest = (c ∷ line) ∷ rest

-- the loop of `summaryLines`
unfoldable pub collapse_lines : Unicode → List Line → List Line
unfolding collapse
collapse_lines u [] = []
collapse_lines u (raw ∷ rows) = keep_line (collapse u raw) (collapse_lines u rows)

unfoldable pub summary_lines : Unicode → Line → List Line
unfolding collapse_lines before has_prefix split_lines
summary_lines u notes = collapse_lines u (split_lines [] (before install_section notes))

-- the loop of `fittingLines`; `first` is `i == 0`
unfoldable pub fitting_from : Bool → ℕ → ℕ → List Line → List Line
fitting_from first used budget [] = []
fitting_from first used budget (line ∷ lines) =
    let cost = if first then length line else length line + 1 in
    let rest = fitting_from false (used + cost) budget lines in
    if ltb budget (used + cost) then [] else line ∷ rest

unfoldable pub fitting_lines : List Line → ℕ → List Line
unfolding fitting_from
fitting_lines lines budget = fitting_from true 0 budget lines

unfoldable pub is_heading : Line → Bool
unfolding has_prefix
is_heading line = has_prefix line (35 ∷ [])

unfoldable pub drop_heading : Bool → Line → List Line → List Line
drop_heading true line [] = []
drop_heading _ line rest = line ∷ rest

-- A heading is kept only where something kept follows it.
unfoldable pub without_trailing_headings : List Line → List Line
unfolding is_heading drop_heading
without_trailing_headings [] = []
without_trailing_headings (line ∷ lines) =
    drop_heading (is_heading line) line (without_trailing_headings lines)

-- the loop of `firstItem`; `fallback` is lines[0]
unfoldable pub first_item_from : Line → List Line → Line
unfolding is_heading
first_item_from fallback [] = fallback
first_item_from fallback (line ∷ lines) =
    if not (is_heading line) then line else first_item_from fallback lines

unfoldable pub first_item : Line → List Line → Line
unfolding first_item_from
first_item line lines = first_item_from line (line ∷ lines)

-- strings.LastIndexByte(text, ' '), for the text behind `i` characters
unfoldable pub last_space : ℕ → Option ℕ → Line → Option ℕ
last_space i last [] = last
last_space i last (c ∷ text) = last_space (i + 1) (if c == 32 then some i else last) text

unfoldable pub keep_space : ℕ → Line → Line
keep_space c [] = if c == 32 then [] else c ∷ []
keep_space c (d ∷ rest) = c ∷ d ∷ rest

-- strings.TrimRight(text, " ")
unfoldable pub trim_right : Line → Line
unfolding keep_space
trim_right [] = []
trim_right (c ∷ text) = keep_space c (trim_right text)

unfoldable pub cut_at : Option ℕ → Line → Line
cut_at none head = head
cut_at (some space) head = if ltb 0 space then take space head else head

unfoldable pub cut_on_a_word : Line → ℕ → Line
unfolding last_space trim_right cut_at
cut_on_a_word text budget =
    if leb (length text) budget
    then text
    else (let head = take (budget - 1) text in
        trim_right (cut_at (last_space 0 none head) head) ++ 8230 ∷ [])

-- `summarize` behind the lines that fit beside the closing mark
unfoldable pub summarize_cut : Line → List Line → List Line → Line
unfolding cut_on_a_word first_item join
summarize_cut line lines [] = cut_on_a_word (first_item line lines) max_release_summary
summarize_cut line lines (k ∷ kept) = join (10 ∷ []) (k ∷ kept) ++ (10 ∷ more_line)

unfoldable pub summarize_lines : List Line → Line
unfolding summarize_cut without_trailing_headings fitting_lines
summarize_lines [] = []
summarize_lines (line ∷ lines) =
    let kept = fitting_lines (line ∷ lines) max_release_summary in
    if length kept == length (line ∷ lines)
    then join (10 ∷ []) (without_trailing_headings kept)
    else summarize_cut line lines (
        without_trailing_headings
          (fitting_lines (line ∷ lines) (max_release_summary - length more_line - 1)))

unfoldable pub summarize : Unicode → Line → Line
unfolding summarize_lines summary_lines
summarize u notes = summarize_lines (summary_lines u notes)
