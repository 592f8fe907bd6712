-- ===== src/Common/Exec.antt =====
-- Computations on a state that can fail, as an `async fn` of an object with `&mut self` does: the
-- state is there after a failure too.
use mathlib.Core.Path.{◌≡◌, refl}
use eiger.Common.Results.{Result, ok, err}

pub data Outcome {ℓ κ μ} (S : Type ℓ) (E : Type κ) (A : Type μ) : Type (ℓ ⊔ κ ⊔ μ) where
  done : A → S → Outcome S E A
  failed : E → S → Outcome S E A

module _ {ℓ κ μ ν} {S : Type ℓ} {E : Type κ} {A : Type μ} {B : Type ν} where
  abbrev pub after : Outcome S E A → (A → S → Outcome S E B) → Outcome S E B
  after (done a s) f = f a s
  after (failed e s) f = failed e s

  infixl 5 ◌>>=◌ ◌>>◌
  unfoldable pub ◌>>=◌ : (S → Outcome S E A) → (A → S → Outcome S E B) → S → Outcome S E B
  (m >>= f) s = after (m s) f

  abbrev pub ◌>>◌ : (S → Outcome S E A) → (S → Outcome S E B) → S → Outcome S E B
  m >> k = m >>= λ _. k

  -- A chain that succeeds has succeeded in its first part.
  pub after_done {ρ} :
      {P : Type ρ} (m : Outcome S E A) (f : A → S → Outcome S E B) {b : B} {t : S}
      → after m f ≡ done b t
      → ((a : A) (s : S) → m ≡ done a s → f a s ≡ done b t → P)
      → P
  after_done (done a s) f e k = k a s refl e
  after_done (failed x s) f e k = absurd cc

module _ {ℓ κ μ} {S : Type ℓ} {E : Type κ} {A : Type μ} where
  unfoldable pub give : A → S → Outcome S E A
  give a s = done a s

  unfoldable pub raise : E → S → Outcome S E A
  raise e s = failed e s

  -- A `Result` that does not touch the state.
  unfoldable pub lift : Result A E → S → Outcome S E A
  lift (ok a) s = done a s
  lift (err e) s = failed e s

  -- The state after, however it ended.
  abbrev pub final : Outcome S E A → S
  final (done a s) = s
  final (failed e s) = s

  abbrev pub result : Outcome S E A → Result A E
  result (done a s) = ok a
  result (failed e s) = err e

-- A predicate that a computation keeps, however it ends.
pub record Keeps {ℓ κ ρ μ} {S : Type ℓ} {E : Type κ} {A : Type μ} (I : S → Type ρ)
    (m : S → Outcome S E A) : Type (ℓ ⊔ ρ) where
  pub holds : (s : S) → I s → I (final (m s))

module _ {ℓ κ ρ} {S : Type ℓ} {E : Type κ} {I : S → Type ρ} where
  module _ {μ ν} {A : Type μ} {B : Type ν} where
    after-Keeps :
        (o : Outcome S E A) (f : A → S → Outcome S E B)
        → I (final o)
        → ((a : A) → Keeps I (f a))
        → I (final (after o f))
    after-Keeps (done a s) f i k = (k a).holds s i
    after-Keeps (failed e s) f i k = i

    pub bind-Keeps :
        (m : S → Outcome S E A) (f : A → S → Outcome S E B)
        → Keeps I m
        → ((a : A) → Keeps I (f a))
        → Keeps I (m >>= f)
    unfolding ◌>>=◌
    bind-Keeps m f km kf = record { holds = λ s i. after-Keeps (m s) f (km.holds s i) kf }

  module _ {μ} {A : Type μ} where
    pub give-Keeps : (a : A) → Keeps I (give {S = S} {E = E} a)
    unfolding give
    give-Keeps a = record { holds = λ s i. i }

    pub raise-Keeps : (e : E) → Keeps I (raise {S = S} {A = A} e)
    unfolding raise
    raise-Keeps e = record { holds = λ s i. i }

    pub lift-Keeps : (r : Result A E) → Keeps I (lift {S = S} r)
    unfolding lift
    lift-Keeps (ok a) = record { holds = λ s i. i }
    lift-Keeps (err e) = record { holds = λ s i. i }
