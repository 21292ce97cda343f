-- ===== src/Afterburner/Search.antt =====
-- internal/hardware/afterburner/afterburner.go: the search for a sensor by name.
use rig_exporter.Base.{
  ℕ, ◌≡◌, ◌≢◌, ◌↔◌, ◌⊎◌, inl, inr, refl, sym, ◌∙◌, true, false, ◌&&◌, none, some, List, [], ◌∷◌,
  ◌++◌, arith, Bool-cases, Option-cases, All,
}
use rig_exporter.Base.Unicode.{Unicode}
use rig_exporter.Afterburner.{Entry, is_valid, find_one, find}
use mathlib.Core.List.{Memᴰ}

module _ (u : Unicode) where
  -- The sensor was measured and carries the wanted name.
  abbrev pub Answers : List ℕ → Entry → Type 0
  Answers want e = (is_valid e && u.equal_fold e.source want) ≡ true

  -- No sensor of the list answers.
  abbrev pub Unanswered : List Entry → List ℕ → Type 0
  Unanswered es want = All (λ e. (is_valid e && u.equal_fold e.source want) ≡ false) es

  find_one_sound :
      (want : List ℕ) (es : List Entry) (e : Entry)
      → find_one u want es ≡ some e
      → Memᴰ e es × Answers want e
  unfolding find_one
  find_one_sound want [] e h = absurd (cc)
  find_one_sound want (x ∷ es) e h = elim (Bool-cases (is_valid x && u.equal_fold x.source want)) [
    | inl hit ↦ (Memᴰ.head (cc (hit, h)), cc (hit, h))
    | inr miss ↦ let (m, a) = find_one_sound want es e (rw miss at h) in (Memᴰ.tail m, a)
  ]

  find_one-eq-none :
      (want : List ℕ) (es : List Entry) → (find_one u want es ≡ none) ↔ Unanswered es want
  unfolding find_one
  find_one-eq-none want [] = (λ h. tt, λ h. refl)
  find_one-eq-none want (x ∷ es) = grind (arith, find_one-eq-none want es)

  find_cons :
      (es : List Entry) (want : List ℕ) (candidates : List (List ℕ))
      → ((e : Entry) × (find_one u want es ≡ some e) × (find u es (want ∷ candidates) ≡ some e))
        ⊎ ((find_one u want es ≡ none) × (find u es (want ∷ candidates) ≡ find u es candidates))
  unfolding find
  find_cons es want candidates = elim (Option-cases (find_one u want es)) [
    | inl miss ↦ inr (miss, rw (miss, find))
    | inr (e, hit) ↦ inl (e, hit, rw (hit, find))
  ]

  -- A sensor that `find` returns is one of the block's, was measured, and carries the name of one of
  -- the candidates.
  pub find_sound :
      (es : List Entry) (candidates : List (List ℕ)) (e : Entry)
      → find u es candidates ≡ some e
      → Memᴰ e es × ((want : List ℕ) × Memᴰ want candidates × Answers want e)
  find_sound es [] e h = absurd (unfold find in cc)
  find_sound es (want ∷ candidates) e h = elim (find_cons es want candidates) [
    | inl (f, hit, p) ↦
        let (m, a) = find_one_sound want es e (cc (hit, p, h)) in (m, (want, Memᴰ.head refl, a))
    | inr (miss, p) ↦
        let (m, (w, mw, a)) = find_sound es candidates e (sym p ∙ h) in (m, (w, Memᴰ.tail mw, a))
  ]

  -- `find` returns nothing exactly when no sensor answers to any of the candidates.
  pub find-eq-none :
      (es : List Entry) (candidates : List (List ℕ))
      → (find u es candidates ≡ none) ↔ All (Unanswered es) candidates
  find-eq-none es [] = unfold find in (λ h. tt, λ h. refl)
  find-eq-none es (want ∷ candidates) = elim (find_cons es want candidates) [
    | inl (f, hit, p) ↦
        (λ h. absurd (cc (h, p)), λ h. absurd (cc ((find_one-eq-none want es).1 h.0, hit)))
    | inr (miss, p) ↦
        let (f, g) = find-eq-none es candidates in
        (λ h. ((find_one-eq-none want es).0 miss, f (sym p ∙ h)), λ h. p ∙ g h.1)
  ]

  -- Candidates given first win: behind candidates to which some sensor answers, further ones change
  -- nothing, and behind candidates to which none answers, the search is that for the further ones.
  pub find-append :
      (es : List Entry) (first more : List (List ℕ))
      → (find u es first ≢ none → find u es (first ++ more) ≡ find u es first)
        × (find u es first ≡ none → find u es (first ++ more) ≡ find u es more)
  find-append es [] more = unfold find in (λ h. absurd (h refl), λ h. refl)
  find-append es (want ∷ first) more =
      let (f, g) = find-append es first more in
      elim (find_cons es want first) [
        | inl (e, hit, p) ↦ elim (find_cons es want (first ++ more)) [
          | inl (e', hit', p') ↦ (λ h. cc, λ h. absurd (cc (h, p)))
          | inr (miss, p') ↦ absurd (cc (miss, hit))
        ]
        | inr (miss, p) ↦ elim (find_cons es want (first ++ more)) [
          | inl (e', hit', p') ↦ absurd (cc (miss, hit'))
          | inr (miss', p') ↦ (λ h. p' ∙ f (λ q. h (p ∙ q)) ∙ sym p, λ h. p' ∙ g (sym p ∙ h))
        ]
      ]
