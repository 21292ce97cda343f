-- ===== src/Apply/Artifacts/Naming.antt =====
-- internal/updater/apply_windows.go: the names that are written are read back, and no name makes the
-- reading panic.
use rig_exporter.Base.{
  IsSafe, IsSafe-bind, ok, ◌>>=◌, ℕ, ◌+◌, ◌-◌, ◌≡◌, ◌≢◌, inl, inr, refl, ap, ◌∙◌, Bool, true, false,
  ◌&&◌, ◌||◌, Option, none, some, List, [], ◌∷◌, ◌++◌, append_assoc, arith, ltb, leb, ◌==◌,
  if◌then◌else◌, le→ltb_false, ==_refl, Bool-cases, length, take, drop, length-append, All, ok,
  ◌>>=◌, IsSafe, IsSafe-bind,
}
use rig_exporter.Base.Bytes.{slice, slice_ok}
use rig_exporter.Base.Text.{codes}
use mathlib.Core.List.{reverse, reverse-append}
use rig_exporter.Apply.{Text, File, target, stage, backup, helper, helper_ready, ready, journal}
use rig_exporter.Apply.Artifacts.{
  has_prefix, has_suffix, Kind, of, suffixes, suffix_of, start_of, artifact_name, is_hex, all_hex,
  is_update_token, token_between, accept, try_suffixes, update_artifact, accept_error,
  apply_error_artifact,
}

token_between-IsSafe : (base start suffix : Text) → IsSafe (token_between base start suffix)
unfolding token_between slice
token_between-IsSafe base start suffix = ground arith

module _ (lower : Text → Text) where
  accept-IsSafe : (start : Text) (k : Kind) (o : Option Text) → IsSafe (accept lower start k o)
  accept-IsSafe start k none = tt
  accept-IsSafe start k (some t) = ground arith

  try_suffixes-IsSafe :
      (base start : Text) (ss : List (Text × Kind)) → IsSafe (try_suffixes lower base start ss)
  unfolding try_suffixes
  try_suffixes-IsSafe base start [] = tt
  try_suffixes-IsSafe base start ((s, k) ∷ rest) = elim (Bool-cases (has_suffix (lower base) s)) [
    | inl e ↦ rw e (
        IsSafe-bind (token_between base start s) (accept lower start k)
          (token_between-IsSafe base start s) (λ t q. accept-IsSafe start k t))
    | inr e ↦ rw e (try_suffixes-IsSafe base start rest)
  ]

  accept_error-IsSafe : (o : Option Text) → IsSafe (accept_error lower o)
  accept_error-IsSafe none = tt
  accept_error-IsSafe (some t) = ground arith

  update_artifact-IsSafe : (base stem : Text) → IsSafe (update_artifact lower base stem)
  unfolding update_artifact
  update_artifact-IsSafe base stem =
      elim (Bool-cases (has_prefix (lower base) (lower (start_of stem)))) [
        | inl e ↦ rw e (try_suffixes-IsSafe base (start_of stem) suffixes)
        | inr e ↦ rw e tt
      ]

  error_artifact-IsSafe :
      (b : Bool) (base start suffix : Text)
      → IsSafe (if b then token_between base start suffix >>= accept_error lower else ok none)
  error_artifact-IsSafe true base start suffix =
      IsSafe-bind (token_between base start suffix) (accept_error lower)
        (token_between-IsSafe base start suffix) (λ t q. accept_error-IsSafe t)
  error_artifact-IsSafe false base start suffix = tt

  -- No name of a file beside any name of an executable, and nothing that strings.ToLower may do, makes
  -- the recognition of the artifacts and of the error reports slice out of bounds.
  pub artifacts-IsSafe :
      (base stem : Text)
      → IsSafe (update_artifact lower base stem) × IsSafe (apply_error_artifact lower base stem)
  unfolding apply_error_artifact
  artifacts-IsSafe base stem = (
    update_artifact-IsSafe base stem,
    error_artifact-IsSafe _ base (start_of stem) (codes "-plan.json.error.txt"),
  )

taken : {A : Type 0} (c : Bool) (x y : A) → c ≡ true → (if c then x else y) ≡ x
taken c x y h = rw h

has_prefix_append : (a x : Text) → has_prefix (a ++ x) a ≡ true
has_prefix_append [] x = refl
has_prefix_append (c ∷ a) x = rw (==_refl c) (has_prefix_append a x)

drop_append : (a x : Text) → drop (length a) (a ++ x) ≡ x
drop_append [] x = refl
drop_append (c ∷ a) x = drop_append a x

take_append : (a x : Text) → take (length a) (a ++ x) ≡ a
take_append [] x = refl
take_append (c ∷ a) x = ap (λ r. c ∷ r) (take_append a x)

name_length : (start t s : Text) → length (start ++ (t ++ s)) ≡ length start + (length t + length s)
name_length start t s =
    length-append start (t ++ s) ∙ ap (λ k. length start + k) (length-append t s)

middle :
    (start t s : Text) (n : ℕ) → n ≡ length t → take n (drop (length start) (start ++ (t ++ s))) ≡ t
middle start t s n h = rw (h, drop_append start (t ++ s)) (take_append t s)

slice_middle :
    (start t s : Text)
    → slice {E = Unit {0}}
        (start ++ (t ++ s))
        (length start)
        (length (start ++ (t ++ s)) - length s)
      ≡ ok t
slice_middle start t s =
    let n = name_length start t s in
    slice_ok (start ++ (t ++ s)) (length start) (length (start ++ (t ++ s)) - length s)
      (omega (arith, n)) (omega arith)
    ∙ ap ok
        (middle start t s (length (start ++ (t ++ s)) - length s - length start) (omega (arith, n)))

token_between_append : (start t s : Text) → token_between (start ++ (t ++ s)) start s ≡ ok (some t)
unfolding token_between
token_between_append start t s =
    let n = name_length start t s in
    rw (
      le→ltb_false (length (start ++ (t ++ s))) (length start + length s) (omega (arith, n)),
      slice_middle start t s,
    )

-- A digit of hex.EncodeToString.
abbrev pub is_digit : ℕ → Bool
is_digit c = leb 48 c && leb c 57 || leb 97 c && leb c 102

-- Twenty-four digits, the last one apart.
pub record Token (t : Text) : Type 0 where
  pub before : Text
  pub last : ℕ
  pub written : t ≡ before ++ last ∷ []
  pub digits : All (λ c. is_digit c ≡ true) t
  pub counted : length t ≡ 24

-- ASCII without capitals, which strings.ToLower leaves alone.
abbrev pub is_low : ℕ → Bool
is_low c = ltb c 65 || ltb 90 c && ltb c 128

hex_digit : (c : ℕ) → is_digit c ≡ true → is_hex c ≡ true
hex_digit c h = ground arith

low_digit : (c : ℕ) → is_digit c ≡ true → is_low c ≡ true
low_digit c h = ground arith

all_hex_digits : (t : Text) → All (λ c. is_digit c ≡ true) t → all_hex t ≡ true
all_hex_digits [] h = refl
all_hex_digits (c ∷ t) h = rw (hex_digit c h.0) (all_hex_digits t h.1)

token_accepted : (t : Text) → Token t → is_update_token t ≡ true
unfolding is_update_token
token_accepted t k = rw (k.counted) (all_hex_digits t k.digits)

abbrev pub all_low : Text → Bool
all_low [] = true
all_low (c ∷ t) = is_low c && all_low t

low_name :
    (t s : Text) → All (λ c. is_digit c ≡ true) t → all_low s ≡ true → all_low (t ++ s) ≡ true
low_name [] s h k = k
low_name (c ∷ t) s h k = rw (low_digit c h.0) (low_name t s h.1 k)

low_suffix : (f : File) → all_low (suffix_of f) ≡ true
low_suffix target = refl
low_suffix stage = refl
low_suffix backup = refl
low_suffix helper = refl
low_suffix helper_ready = refl
low_suffix ready = refl
low_suffix journal = refl

last_digit : (b : Text) (c : ℕ) → All (λ d. is_digit d ≡ true) (b ++ c ∷ []) → is_digit c ≡ true
last_digit [] c h = h.0
last_digit (d ∷ b) c h = last_digit b c h.1

not_r : (c : ℕ) → is_digit c ≡ true → (c == 114) ≡ false
not_r c h = ground arith

reversed :
    (a b s : Text) (c : ℕ)
    → reverse (a ++ ((b ++ c ∷ []) ++ s)) ≡ reverse s ++ (c ∷ (reverse b ++ reverse a))
reversed a b s c =
    reverse-append a ((b ++ c ∷ []) ++ s)
    ∙ (ap (λ r. r ++ reverse a)
          (reverse-append (b ++ c ∷ []) s ∙ ap (λ r. reverse s ++ r) (reverse-append b (c ∷ [])))
        ∙ append_assoc (reverse s) (c ∷ reverse b) (reverse a))

module _ (lower : Text → Text)
    (lowers : (a t : Text) → all_low t ≡ true → lower (a ++ t) ≡ lower a ++ t) where
  try_name :
      (start b : Text) (c : ℕ)
      → is_digit c ≡ true
      → is_update_token (b ++ c ∷ []) ≡ true
      → (f : File) → f ≢ target
      → lower (start ++ ((b ++ c ∷ []) ++ suffix_of f))
        ≡ lower start ++ ((b ++ c ∷ []) ++ suffix_of f)
      → try_suffixes lower (start ++ ((b ++ c ∷ []) ++ suffix_of f)) start suffixes
        ≡ ok (some (start ++ lower (b ++ c ∷ []), of f))
  unfolding try_suffixes
  try_name start b c d h target aside e = ground arith
  try_name start b c d h stage aside e = rw (
    e,
    reversed (lower start) b (suffix_of stage) c,
    token_between_append start (b ++ c ∷ []) (suffix_of stage),
    h,
  )
  try_name start b c d h backup aside e = rw (
    e,
    reversed (lower start) b (suffix_of backup) c,
    token_between_append start (b ++ c ∷ []) (suffix_of backup),
    h,
  )
  try_name start b c d h helper aside e = rw (
    e,
    reversed (lower start) b (suffix_of helper) c,
    token_between_append start (b ++ c ∷ []) (suffix_of helper),
    h,
  )
  try_name start b c d h helper_ready aside e = rw (
    e,
    reversed (lower start) b (suffix_of helper_ready) c,
    token_between_append start (b ++ c ∷ []) (suffix_of helper_ready),
    h,
  )
  try_name start b c d h ready aside e = rw (
    e,
    reversed (lower start) b (suffix_of ready) c,
    not_r c d,
    token_between_append start (b ++ c ∷ []) (suffix_of ready),
    h,
  )
  try_name start b c d h journal aside e = rw (
    e,
    reversed (lower start) b (suffix_of journal) c,
    token_between_append start (b ++ c ∷ []) (suffix_of journal),
    h,
  )

  lowered :
      (start t : Text) (f : File)
      → Token t
      → lower (start ++ (t ++ suffix_of f)) ≡ lower start ++ (t ++ suffix_of f)
  lowered start t f k =
      lowers start (t ++ suffix_of f) (low_name t (suffix_of f) k.digits (low_suffix f))

  try_token :
      (start t : Text) (k : Token t) (f : File)
      → f ≢ target
      → try_suffixes lower (start ++ (t ++ suffix_of f)) start suffixes
        ≡ ok (some (start ++ lower t, of f))
  try_token start t k f aside =
      let digits : All (λ c. is_digit c ≡ true) (k.before ++ k.last ∷ []) =
        rw (← k.written) k.digits in
      let accepted : is_update_token (k.before ++ k.last ∷ []) ≡ true =
        rw (← k.written) (token_accepted t k) in
      rw k.written (
        try_name start k.before k.last (last_digit k.before k.last digits) accepted f aside
          (rw (← k.written) (lowered start t f k)))

  -- A file's name, as the preparation makes it from the executable's name and a token of 24 hexadecimal
  -- digits, is read back as that file, under the prefix that all files of the token share; where
  -- strings.ToLower leaves the end of a text alone that is ASCII without capitals.
  pub update_artifact-artifact_name :
      (stem t : Text)
      → Token t
      → (f : File) → f ≢ target
      → update_artifact lower (artifact_name stem t f) stem
        ≡ ok (some (start_of stem ++ lower t, of f))
  unfolding update_artifact
  update_artifact-artifact_name stem t k f aside =
      taken (has_prefix (lower (artifact_name stem t f)) (lower (start_of stem)))
        (try_suffixes lower (artifact_name stem t f) (start_of stem) suffixes) (ok none)
        (ap (λ x. has_prefix x (lower (start_of stem))) (lowered (start_of stem) t f k)
          ∙ has_prefix_append (lower (start_of stem)) (t ++ suffix_of f))
      ∙ try_token (start_of stem) t k f aside
