-- ===== src/Panel/Lingering.antt =====
-- internal/webui/linger.go: the memory of a panel against the polls that it goes back to.
use rig_exporter.Base.{
  ℕ, ◌-◌, ◌*◌, ◌≤◌, ◌<◌, ◌≡◌, inl, inr, refl, sym, ap, ◌∙◌, Bool, true, false, ◌&&◌, ◌||◌, List, [],
  ◌∷◌, ◌++◌, arith, ltb, leb, Bool-cases, All,
}
use rig_exporter.Base.Unicode.{list_eq, list_eq_sound}
use mathlib.Core.Path.{subst}
use rig_exporter.Panel.{
  Text, Row, LingeredRow, Group, linger_polls, present, put, remember, still_held, stale_rows, keep,
}

-- A row of the key was there within the window.
abbrev fresh : ℕ → ℕ → Text → List LingeredRow → Bool
fresh window now k [] = false
fresh window now k (h ∷ hs) =
    list_eq k h.row.key && leb (now - h.seen) window || fresh window now k hs

abbrev SeenBy : ℕ → List LingeredRow → Type 0
SeenBy t = All (λ (h : LingeredRow). h.seen ≤ t)

still-fresh :
    (w t n : ℕ) (k : Text) (rows : List Row) (hs : List LingeredRow)
    → t ≤ n
    → fresh w n k (still_held w t rows hs) ≡ fresh w n k hs
unfolding still_held
still-fresh w t n k rows [] le = refl
still-fresh w t n k rows (h ∷ hs) le = elim (Bool-cases (present h.row.key rows)) [
  | inl e ↦ rw (e, still-fresh w t n k rows hs le)
  | inr e ↦ rw e (elim (Bool-cases (ltb w (t - h.seen))) [
    | inl old ↦ rw (old, still-fresh w t n k rows hs le) (ground arith)
    | inr young ↦ rw (young, still-fresh w t n k rows hs le)
  ])
]

put-fresh :
    (w n : ℕ) (k : Text) (h : LingeredRow) (gs : List LingeredRow)
    → SeenBy h.seen gs
    → fresh w n k (put h gs) ≡ (list_eq k h.row.key && leb (n - h.seen) w || fresh w n k gs)
unfolding put
put-fresh w n k h [] s = refl
put-fresh w n k h (g ∷ gs) s = elim (Bool-cases (list_eq h.row.key g.row.key)) [
  | inl e ↦ rw (e, ← list_eq_sound h.row.key g.row.key e) (ground arith)
  | inr e ↦ rw (e, put-fresh w n k h gs s.1) (ground arith)
]

put-SeenBy :
    (t : ℕ) (h : LingeredRow) (gs : List LingeredRow)
    → h.seen ≤ t
    → SeenBy t gs
    → SeenBy t (put h gs)
unfolding put
put-SeenBy t h [] le s = (le, tt)
put-SeenBy t h (g ∷ gs) le s = elim (Bool-cases (list_eq h.row.key g.row.key)) [
  | inl e ↦ rw e (le, s.1)
  | inr e ↦ rw e (s.0, put-SeenBy t h gs le s.1)
]

remember-SeenBy :
    (t : ℕ) (rows : List Row) (hs : List LingeredRow) → SeenBy t hs → SeenBy t (remember t rows hs)
unfolding remember
remember-SeenBy t [] hs s = s
remember-SeenBy t (r ∷ rs) hs s =
    remember-SeenBy t rs (put (record { row = r; seen = t }) hs)
      (put-SeenBy t (record { row = r; seen = t }) hs (ground arith) s)

remember-fresh :
    (w t n : ℕ) (k : Text) (rows : List Row) (hs : List LingeredRow)
    → SeenBy t hs
    → fresh w n k (remember t rows hs) ≡ (present k rows && leb (n - t) w || fresh w n k hs)
unfolding remember
remember-fresh w t n k [] hs s = refl
remember-fresh w t n k (r ∷ rs) hs s =
    let h : LingeredRow = record { row = r; seen = t } in
    rw
      (
        remember-fresh w t n k rs (put h hs) (put-SeenBy t h hs (ground arith) s),
        put-fresh w n k h hs s,
      )
      (ground arith)

still-SeenBy :
    (w t : ℕ) (rows : List Row) (hs : List LingeredRow)
    → SeenBy t hs
    → SeenBy t (still_held w t rows hs)
unfolding still_held
still-SeenBy w t rows [] s = tt
still-SeenBy w t rows (h ∷ hs) s = elim (Bool-cases (present h.row.key rows)) [
  | inl e ↦ rw e (s.0, still-SeenBy w t rows hs s.1)
  | inr e ↦ rw e (elim (Bool-cases (ltb w (t - h.seen))) [
    | inl old ↦ rw old (still-SeenBy w t rows hs s.1)
    | inr young ↦ rw young (s.0, still-SeenBy w t rows hs s.1)
  ])
]

present-append :
    (k : Text) (rs ss : List Row) → present k (rs ++ ss) ≡ (present k rs || present k ss)
present-append k [] ss = refl
present-append k (r ∷ rs) ss = rw (present-append k rs ss) (ground arith)

other_key :
    (k l : Text) (rows : List Row)
    → present k rows ≡ false
    → present l rows ≡ true
    → list_eq k l ≡ false
other_key k l rows h e = elim (Bool-cases (list_eq k l)) [
  | inl q ↦ (let c = sym h ∙ (ap (λ x. present x rows) (list_eq_sound k l q) ∙ e) in ground arith)
  | inr q ↦ q
]

stale-present :
    (w t : ℕ) (k : Text) (rows : List Row) (hs : List LingeredRow)
    → present k rows ≡ false
    → present k (stale_rows w t rows hs) ≡ fresh w t k hs
unfolding stale_rows
stale-present w t k rows [] gone = refl
stale-present w t k rows (h ∷ hs) gone = elim (Bool-cases (present h.row.key rows)) [
  | inl e ↦ rw (e, stale-present w t k rows hs gone, other_key k h.row.key rows gone e)
  | inr e ↦ rw e (elim (Bool-cases (ltb w (t - h.seen))) [
    | inl old ↦ rw (old, stale-present w t k rows hs gone) (ground arith)
    | inr young ↦ rw (young, stale-present w t k rows hs gone) (ground arith)
  ])
]

-- One poll of a panel.
pub record Poll : Type 0 where
  pub time : ℕ
  pub group : Group

abbrev pub is_on : Group → Bool
is_on g = g.enabled && g.available

-- The memory after some polls, the latest first.
abbrev pub memory : ℕ → List Poll → List LingeredRow
memory interval [] = []
memory interval (p ∷ ps) = (keep interval p.time p.group (memory interval ps)).1

-- Whether a row of the key was there in a poll within the window, with the panel on ever since.
abbrev pub recent : ℕ → ℕ → Text → List Poll → Bool
recent window now k [] = false
recent window now k (p ∷ ps) =
    is_on p.group && (present k p.group.rows && leb (now - p.time) window || recent window now k ps)

abbrev pub Ordered : ℕ → List Poll → Type 0
Ordered now [] = Unit
Ordered now (p ∷ ps) = (p.time ≤ now) × Ordered p.time ps

keep_on :
    (interval now : ℕ) (g : Group) (hs : List LingeredRow)
    → 0 < interval
    → is_on g ≡ true
    → keep interval now g hs ≡ (
      g.rows ++ stale_rows (linger_polls * interval) now g.rows (remember now g.rows hs),
      still_held (linger_polls * interval) now g.rows (remember now g.rows hs),
    )
unfolding keep
keep_on interval now g hs some_time on = ground arith

keep_off :
    (interval now : ℕ) (g : Group) (hs : List LingeredRow)
    → 0 < interval
    → is_on g ≡ false
    → keep interval now g hs ≡ (g.rows, [])
unfolding keep
keep_off interval now g hs some_time off = ground arith

later : (s t : ℕ) (hs : List LingeredRow) → s ≤ t → SeenBy s hs → SeenBy t hs
later s t [] le h = tt
later s t (x ∷ hs) le h = (ground arith, later s t hs le h.1)

module _ (interval : ℕ) (some_time : 0 < interval) where
  memory-SeenBy : (now : ℕ) (ps : List Poll) → Ordered now ps → SeenBy now (memory interval ps)
  memory-SeenBy now [] o = tt
  memory-SeenBy now (p ∷ ps) o = elim (Bool-cases (is_on p.group)) [
    | inl e ↦
        subst (SeenBy now)
          (sym (ap (λ x. x.1) (keep_on interval p.time p.group (memory interval ps) some_time e)))
          (later p.time now _ o.0 (
            still-SeenBy (linger_polls * interval) p.time p.group.rows _ (
              remember-SeenBy p.time p.group.rows (memory interval ps)
                (memory-SeenBy p.time ps o.1))))
    | inr e ↦
        subst (SeenBy now)
          (sym (ap (λ x. x.1) (keep_off interval p.time p.group (memory interval ps) some_time e)))
          tt
  ]

  memory-recent :
      (n now : ℕ) (k : Text) (ps : List Poll)
      → now ≤ n
      → Ordered now ps
      → fresh (linger_polls * interval) n k (memory interval ps)
        ≡ recent (linger_polls * interval) n k ps
  memory-recent n now k [] le o = refl
  memory-recent n now k (p ∷ ps) le o = elim (Bool-cases (is_on p.group)) [
    | inl e ↦
        ap (λ x. fresh (linger_polls * interval) n k x.1)
          (keep_on interval p.time p.group (memory interval ps) some_time e)
        ∙ (still-fresh (linger_polls * interval) p.time n k p.group.rows
              (remember p.time p.group.rows (memory interval ps)) (ground arith)
            ∙ (remember-fresh (linger_polls * interval) p.time n k p.group.rows (memory interval ps)
                  (memory-SeenBy p.time ps o.1)
                ∙ rw (e, memory-recent n p.time k ps (ground arith) o.1)))
    | inr e ↦
        ap (λ x. fresh (linger_polls * interval) n k x.1)
          (keep_off interval p.time p.group (memory interval ps) some_time e)
        ∙ rw e
  ]

  shown_cases :
      (w t : ℕ) (k : Text) (rows : List Row) (hs : List LingeredRow) (old : Bool)
      → SeenBy t hs
      → fresh w t k hs ≡ old
      → present k (rows ++ stale_rows w t rows (remember t rows hs))
        ≡ (present k rows && leb (t - t) w || old)
  shown_cases w t k rows hs old s q = elim (Bool-cases (present k rows)) [
    | inl e ↦
        rw (present-append k rows (stale_rows w t rows (remember t rows hs)), e) (ground arith)
    | inr e ↦ rw (
      present-append k rows (stale_rows w t rows (remember t rows hs)),
      e,
      stale-present w t k rows (remember t rows hs) e,
      remember-fresh w t t k rows hs s,
      e,
      q,
    )
  ]

  -- A panel that is on, with a positive interval, after polls in the order of their times: it has a row of a
  -- key exactly where a row of the key was there in this poll, or in one at most twenty intervals back with
  -- the panel on ever since.
  pub keep-recent :
      (p : Poll) (ps : List Poll) (k : Text)
      → is_on p.group ≡ true
      → Ordered p.time ps
      → present k (keep interval p.time p.group (memory interval ps)).0
        ≡ recent (linger_polls * interval) p.time k (p ∷ ps)
  keep-recent p ps k on o =
      ap (λ x. present k x.0) (keep_on interval p.time p.group (memory interval ps) some_time on)
      ∙ (shown_cases (linger_polls * interval) p.time k p.group.rows (memory interval ps)
            (recent (linger_polls * interval) p.time k ps) (memory-SeenBy p.time ps o)
            (memory-recent p.time p.time k ps (ground arith) o)
          ∙ rw on)
