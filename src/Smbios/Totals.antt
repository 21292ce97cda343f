-- ===== src/Smbios/Totals.antt =====
-- internal/hardware/ram/smbios.go: the totals of `Parse`.
use rig_exporter.Base.{
  ℕ, ◌%◌, ◌^◌, ◌≤◌, ◌<◌, ◌≡◌, ◌⊎◌, inl, inr, refl, ◌∙◌, Option, none, some, List, [], ◌∷◌, ◌++◌,
  arith, ltb, leb, ◌==◌, ltb_false→le, Bool-cases, length, All, ok, ◌>>=◌, Any, Ensures,
  Ensures-bind, All-append,
}
use rig_exporter.Base.Unicode.{Unicode}
use rig_exporter.Smbios.{
  Error, Structure, Module, Info, structures, parse_module, add_structure, add_structures,
  add_modules, settle_slots, total, no_info, parse,
}
use rig_exporter.Smbios.Walk.{structures-Ensures}
use rig_exporter.Smbios.Modules.{Reports, populated, parse_module-Reports}
use rig_exporter.Smbios.Summing.{
  sum_mb, IsSized, add_modules-kept, add_modules-total, add_modules-rated, Slows,
  add_modules-configured,
}

-- What the totals say of the modules.
pub record IsSummary (info : Info) : Type 0 where
  pub some_module : 0 < length info.modules
  pub sized : All IsSized info.modules
  pub enough_slots : length info.modules ≤ info.slots
  pub summed : info.total_mb ≡ sum_mb info.modules % 2 ^ 64
  pub none_faster : All (λ m. m.rated_speed ≤ info.rated_speed) info.modules
  pub rated_from : (info.rated_speed ≡ 0) ⊎ Any (λ m. info.rated_speed ≡ m.rated_speed) info.modules
  pub none_slower : All (λ m. Slows info.configured_speed m.configured_speed) info.modules
  pub configured_from :
      (info.configured_speed ≡ 0)
      ⊎ Any (λ m. info.configured_speed ≡ m.configured_speed) info.modules

-- Before the totals are taken.
record IsFound (info : Info) : Type 0 where
  sized : All IsSized info.modules
  untotalled : (info.total_mb ≡ 0) × (info.rated_speed ≡ 0) × (info.configured_speed ≡ 0)

settle_slots-IsSummary :
    (info : Info)
    → 0 < length info.modules
    → All IsSized info.modules
    → info.total_mb ≡ sum_mb info.modules % 2 ^ 64
    → All (λ m. m.rated_speed ≤ info.rated_speed) info.modules
    → (info.rated_speed ≡ 0) ⊎ Any (λ m. info.rated_speed ≡ m.rated_speed) info.modules
    → All (λ m. Slows info.configured_speed m.configured_speed) info.modules
    → (info.configured_speed ≡ 0)
      ⊎ Any (λ m. info.configured_speed ≡ m.configured_speed) info.modules
    → IsSummary (settle_slots info)
unfolding settle_slots
settle_slots-IsSummary info some_module sized summed fast rated slow configured =
    elim (Bool-cases (ltb info.slots (length info.modules))) [
      | inl e ↦ rw e (record {
        some_module = some_module;
        sized = sized;
        enough_slots = omega arith;
        summed = summed;
        none_faster = fast;
        rated_from = rated;
        none_slower = slow;
        configured_from = configured;
      })
      | inr e ↦ rw e (record {
        some_module = some_module;
        sized = sized;
        enough_slots = ltb_false→le info.slots (length info.modules) e;
        summed = summed;
        none_faster = fast;
        rated_from = rated;
        none_slower = slow;
        configured_from = configured;
      })
    ]

-- What is 0 at the start.
from_zero : {r z : ℕ} (A : Type 0) → z ≡ 0 → (r ≡ z) ⊎ A → (r ≡ 0) ⊎ A
from_zero A e (inl p) = inl (p ∙ e)
from_zero A e (inr a) = inr a

total-IsSummary : (info : Info) → IsFound info → Ensures IsSummary (total info)
unfolding total
total-IsSummary info h = elim (Bool-cases (length info.modules == 0)) [
  | inl e ↦ rw e tt
  | inr e ↦
      let all = add_modules info info.modules in
      let (kept, _) = add_modules-kept info info.modules in
      let (no_total, no_rated, no_configured) = h.untotalled in
      let sum = add_modules-total info info.modules (omega arith) in
      let (low, fast, rated) = add_modules-rated info info.modules in
      let (high, slow, configured) = add_modules-configured info info.modules in
      rw e (
        settle_slots-IsSummary all (rw kept (ground arith)) (rw kept h.sized)
          (rw kept (omega (arith, sum, no_total))) (rw kept fast)
          (rw kept
            (from_zero (Any (λ m. all.rated_speed ≡ m.rated_speed) info.modules) no_rated rated))
          (rw kept slow)
          (rw kept (
            from_zero (Any (λ m. all.configured_speed ≡ m.configured_speed) info.modules)
              no_configured configured)))
]

module _ (unicode : Unicode) where
  IsFound-append :
      (info : Info) (s : Structure)
      → IsFound info
      → (found : Option Module) → Reports s found
      → Ensures {E = Error} IsFound (elim found [
        | none ↦ ok info
        | some m ↦ ok (record info { modules = info.modules ++ m ∷ [] })
      ])
  IsFound-append info s h none r = h
  IsFound-append info s h (some m) (populated long pos size rated configured) = record {
    sized = All-append IsSized info.modules (m ∷ []) h.sized (pos, tt);
    untotalled = h.untotalled;
  }

  add_structure-IsFound :
      (info : Info) (s : Structure) → IsFound info → Ensures IsFound (add_structure unicode info s)
  unfolding add_structure
  add_structure-IsFound info s h = elim (Bool-cases (s.kind == 16)) [
    | inl e ↦ rw e (elim (Bool-cases (leb 15 (length s.formatted))) [
      | inl e' ↦ rw e' (record { sized = h.sized; untotalled = h.untotalled })
      | inr e' ↦ rw e' h
    ])
    | inr e ↦ rw e (elim (Bool-cases (s.kind == 17)) [
      | inr e' ↦ rw e' h
      | inl e' ↦ rw e' (
          Ensures-bind (Reports s) IsFound (parse_module unicode s)
            (λ found. elim found [
              | none ↦ ok info
              | some m ↦ ok (record info { modules = info.modules ++ m ∷ [] })
            ])
            (parse_module-Reports unicode s) (IsFound-append info s h))
    ])
  ]

  add_structures-IsFound :
      (info : Info) (ss : List Structure)
      → IsFound info
      → Ensures IsFound (add_structures unicode info ss)
  unfolding add_structures
  add_structures-IsFound info [] h = h
  add_structures-IsFound info (s ∷ ss) h =
      Ensures-bind IsFound IsFound (add_structure unicode info s)
        (λ next. add_structures unicode next ss) (add_structure-IsFound info s h)
        (λ next k. add_structures-IsFound next ss k)

  -- Whatever bytes the table holds, the parser ends without a read out of bounds, with the error that
  -- there is no module or with an answer of at least one module, in which every module has a size,
  -- there are as many slots as modules or more, the capacity is the sum modulo 2^64, no module is rated
  -- faster than the rated speed, which is 0 or a module's, and none whose configured speed is known
  -- runs slower than the configured speed, which is 0 or a module's.
  pub parse-IsSummary : (table : List ℕ) → Ensures IsSummary (parse unicode table)
  unfolding parse
  parse-IsSummary table =
      Ensures-bind (λ ss. Unit) IsSummary (structures table)
        (λ ss. add_structures unicode no_info ss >>= λ info. total info) (structures-Ensures table)
        (λ ss u.
          Ensures-bind IsFound IsSummary (add_structures unicode no_info ss) total
            (add_structures-IsFound no_info ss
              (record { sized = tt; untotalled = (refl, refl, refl) }))
            total-IsSummary)
