-- ===== src/Apply/Moves.antt =====
-- internal/updater/apply_windows.go: what single operations do to the executables, and rules for chains.
use rig_exporter.Base.{◌≡◌, refl, Bool, true, false, Option, none, some, List}
use rig_exporter.Apply.{
  Disk, Result, ok, err, World, M, attempt, ◌>>=◌, tick, leave, settle, report, Trouble, change,
  inquire, next_fault, report,
}

-- What holds after an action: the one after a value, the other after an error.
abbrev pub After :
    {A : Type 0} → (A → World → Type 0) → (World → Type 0) → Result A × World → Type 0
After Q R (ok a, w) = Q a w
After Q R (err e, w) = R w

module _ {A B : Type 0} (Q : A → World → Type 0) (R : World → Type 0) (Q' : B → World → Type 0)
    (R' : World → Type 0) where
  bind_cases :
      (o : Result A × World) (f : A → M B)
      → After Q R o
      → ((a : A) (w : World) → Q a w → After Q' R' (f a w))
      → ((w : World) → R w → R' w)
      → After Q' R' (let (r, w') = o in elim r [ ok a ↦ f a w' | err e ↦ (err e, w') ])
  bind_cases (ok a, w) f h k l = k a w h
  bind_cases (err e, w) f h k l = l w h

  pub After-bind :
      (m : M A) (f : A → M B) (w : World)
      → After Q R (m w)
      → ((a : A) (w' : World) → Q a w' → After Q' R' (f a w'))
      → ((w' : World) → R w' → R' w')
      → After Q' R' ((m >>= f) w)
  After-bind m f w = bind_cases (m w) f

  attempt_cases :
      (o : Result A × World) (k : Result A → M B)
      → After Q R o
      → ((a : A) (w : World) → Q a w → After Q' R' (k (ok a) w))
      → ((e : List Trouble) (w : World) → R w → After Q' R' (k (err e) w))
      → After Q' R' (k o.0 o.1)
  attempt_cases (ok a, w) k h f g = f a w h
  attempt_cases (err e, w) k h f g = g e w h

  -- An action whose error the rest of the code looks at.
  pub After-attempt :
      (m : M A) (k : Result A → M B) (w : World)
      → After Q R (m w)
      → ((a : A) (w' : World) → Q a w' → After Q' R' (k (ok a) w'))
      → ((e : List Trouble) (w' : World) → R w' → After Q' R' (k (err e) w'))
      → After Q' R' ((attempt m >>= k) w)
  After-attempt m k w = attempt_cases (m w) k

-- A condition before and the ones after, on every run.
abbrev pub Leads :
    {A : Type 0} → (World → Type 0) → (A → World → Type 0) → (World → Type 0) → M A → Type 0
Leads I Q R m = (w : World) → I w → After Q R (m w)

abbrev pub Keeps : {A : Type 0} → (World → Type 0) → M A → Type 0
Keeps I m = Leads I (λ _. I) I m

module _ {A B : Type 0} (I : World → Type 0) (Q : A → World → Type 0) (Q' : B → World → Type 0)
    (R : World → Type 0) where
  pub Leads-bind :
      (m : M A) (f : A → M B)
      → Leads I Q R m
      → ((a : A) → Leads (Q a) Q' R (f a))
      → Leads I Q' R (m >>= f)
  Leads-bind m f h k w i = After-bind Q R Q' R m f w (h w i) k (λ w' j. j)

  pub Leads-attempt :
      (E : World → Type 0) (m : M A) (k : Result A → M B)
      → Leads I Q E m
      → ((a : A) → Leads (Q a) Q' R (k (ok a)))
      → ((e : List Trouble) → Leads E Q' R (k (err e)))
      → Leads I Q' R (attempt m >>= k)
  Leads-attempt E m k h f g w i = After-attempt Q E Q' R m k w (h w i) f g

module _ {A : Type 0} (I : World → Type 0) (Q : A → World → Type 0) (R : World → Type 0) where
  weaken_cases :
      (r : Result A × World) (E : World → Type 0)
      → After Q E r
      → ((w : World) → E w → R w)
      → After Q R r
  weaken_cases (ok a, w) E h f = h
  weaken_cases (err e, w) E h f = f w h

  pub Leads-weaken :
      (E : World → Type 0) (m : M A) → Leads I Q E m → ((w : World) → E w → R w) → Leads I Q R m
  Leads-weaken E m h f w i = weaken_cases (m w) E (h w i) f

settle_cases :
    (Q : Unit {0} → World → Type 0) (R : World → Type 0) (e : Trouble) (b : Bool) (o : Option Disk)
    (w : World)
    → R w
    → ((d : Disk) → o ≡ some d → Q tt (leave d w))
    → After Q R (settle e b o w)
settle_cases Q R e true o w h k = h
settle_cases Q R e false none w h k = h
settle_cases Q R e false (some d) w h k = k d refl

-- An operation whose faults and whose effect on the disk are known.
pub After-change :
    (Q : Unit {0} → World → Type 0) (R : World → Type 0) (e : Trouble) (f : Disk → Option Disk)
    (w : World)
    → R (tick w)
    → ((d : Disk) → f w.disk ≡ some d → Q tt (leave d (tick w)))
    → After Q R (change e f w)
unfolding change
After-change Q R e f w h k = settle_cases Q R e (next_fault w.faults) (f w.disk) (tick w) h k

module _ {A : Type 0} where
  report_cases :
      (Q : A → World → Type 0) (R : World → Type 0) (e : Trouble) (b : Bool) (o : Option A)
      (w : World)
      → R w
      → ((a : A) → o ≡ some a → Q a w)
      → After Q R (report e b o w)
  report_cases Q R e true o w h k = h
  report_cases Q R e false none w h k = h
  report_cases Q R e false (some a) w h k = k a refl

  pub After-inquire :
      (Q : A → World → Type 0) (R : World → Type 0) (e : Trouble) (f : Disk → Option A) (w : World)
      → R (tick w)
      → ((a : A) → f w.disk ≡ some a → Q a (tick w))
      → After Q R (inquire e f w)
  unfolding inquire
  After-inquire Q R e f w h k = report_cases Q R e (next_fault w.faults) (f w.disk) (tick w) h k

set_cases :
    (Q : Unit {0} → World → Type 0) (R : World → Type 0) (e : Trouble) (b : Bool) (d : Disk)
    (w : World)
    → R w
    → Q tt (leave d w)
    → After Q R (settle e b (some d) w)
set_cases Q R e true d w h k = h
set_cases Q R e false d w h k = k

-- An operation that only a fault can prevent.
pub After-set :
    (Q : Unit {0} → World → Type 0) (R : World → Type 0) (e : Trouble) (g : Disk → Disk) (w : World)
    → R (tick w)
    → Q tt (leave (g w.disk) (tick w))
    → After Q R (change e (λ d. some (g d)) w)
unfolding change
After-set Q R e g w h k = set_cases Q R e (next_fault w.faults) (g w.disk) (tick w) h k
