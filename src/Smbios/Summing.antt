-- ===== src/Smbios/Summing.antt =====
-- internal/hardware/ram/smbios.go: the totals that `Parse` takes over the modules.
use rig_exporter.Base.{
  ℕ, ◌+◌, ◌%◌, ◌^◌, ◌≤◌, ◌<◌, ◌≡◌, ◌⊎◌, inl, inr, refl, ◌∙◌, List, [], ◌∷◌, arith, All, Any,
}
use rig_exporter.Smbios.{Module, Info, add_module, add_modules}

abbrev pub sum_mb : List Module → ℕ
sum_mb [] = 0
sum_mb (m ∷ ms) = m.size_mb + sum_mb ms

abbrev pub IsSized : Module → Type 0
IsSized m = 0 < m.size_mb

pub add_modules-kept :
    (info : Info) (ms : List Module)
    → ((add_modules info ms).modules ≡ info.modules) × ((add_modules info ms).slots ≡ info.slots)
unfolding add_modules add_module
add_modules-kept info [] = (refl, refl)
add_modules-kept info (m ∷ ms) = add_modules-kept (add_module info m) ms

pub add_modules-total :
    (info : Info) (ms : List Module)
    → info.total_mb < 2 ^ 64
    → (add_modules info ms).total_mb ≡ (info.total_mb + sum_mb ms) % 2 ^ 64
unfolding add_modules add_module
add_modules-total info [] h = omega arith
add_modules-total info (m ∷ ms) h =
    omega (arith, add_modules-total (add_module info m) ms (omega arith))

add_module-rated :
    (info : Info) (m : Module)
    → (info.rated_speed ≤ (add_module info m).rated_speed)
      × (m.rated_speed ≤ (add_module info m).rated_speed)
      × (((add_module info m).rated_speed ≡ info.rated_speed)
          ⊎ ((add_module info m).rated_speed ≡ m.rated_speed))
unfolding add_module
add_module-rated info m = ground arith

-- The rated speed is not below the start or any module, and is one of these.
pub add_modules-rated :
    (info : Info) (ms : List Module)
    → (info.rated_speed ≤ (add_modules info ms).rated_speed)
      × All (λ m. m.rated_speed ≤ (add_modules info ms).rated_speed) ms
      × (((add_modules info ms).rated_speed ≡ info.rated_speed)
          ⊎ Any (λ m. (add_modules info ms).rated_speed ≡ m.rated_speed) ms)
unfolding add_modules
add_modules-rated info [] = (omega arith, tt, inl refl)
add_modules-rated info (m ∷ ms) =
    let (low, each, from) = add_modules-rated (add_module info m) ms in
    let (keeps, covers, choice) = add_module-rated info m in
    (
      omega arith,
      (omega arith, each),
      elim from [
        | inr later ↦ inr (inr later)
        | inl e ↦ elim choice [ inl e' ↦ inl (e ∙ e') | inr e' ↦ inr (inl (e ∙ e')) ]
      ],
    )

-- Where a speed is known, the slowest so far is one, and is no faster.
abbrev pub Slows : ℕ → ℕ → Type 0
Slows slowest speed = 0 < speed → (0 < slowest) × (slowest ≤ speed)

add_module-configured :
    (info : Info) (m : Module)
    → Slows (add_module info m).configured_speed info.configured_speed
      × Slows (add_module info m).configured_speed m.configured_speed
      × (((add_module info m).configured_speed ≡ info.configured_speed)
          ⊎ ((add_module info m).configured_speed ≡ m.configured_speed))
unfolding add_module
add_module-configured info m = ground arith

Slows-trans : (a b c : ℕ) → Slows a b → Slows b c → Slows a c
Slows-trans a b c h k pos = ground arith

pub add_modules-configured :
    (info : Info) (ms : List Module)
    → Slows (add_modules info ms).configured_speed info.configured_speed
      × All (λ m. Slows (add_modules info ms).configured_speed m.configured_speed) ms
      × (((add_modules info ms).configured_speed ≡ info.configured_speed)
          ⊎ Any (λ m. (add_modules info ms).configured_speed ≡ m.configured_speed) ms)
unfolding add_modules
add_modules-configured info [] = ((λ pos. (pos, omega arith)), tt, inl refl)
add_modules-configured info (m ∷ ms) =
    let (low, each, from) = add_modules-configured (add_module info m) ms in
    let (keeps, covers, choice) = add_module-configured info m in
    let mid = (add_module info m).configured_speed in
    let last = (add_modules (add_module info m) ms).configured_speed in
    (
      Slows-trans last mid info.configured_speed low keeps,
      (Slows-trans last mid m.configured_speed low covers, each),
      elim from [
        | inr later ↦ inr (inr later)
        | inl e ↦ elim choice [ inl e' ↦ inl (e ∙ e') | inr e' ↦ inr (inl (e ∙ e')) ]
      ],
    )
