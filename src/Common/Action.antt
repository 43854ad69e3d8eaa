-- ===== src/Common/Action.antt =====
-- The monad of the services: a computation may throw, and changes the world (the database, the
-- cache, the network) whether or not it throws. A Hoare triple states what it ensures.
use mathlib.Core.Path.{◌≡◌, refl, subst, ap, ◌∙◌}
use mathlib.Core.Logic.{◌⊎◌, inl, inr}
use mathlib.Core.Bool.{Bool, true, false}
use mathlib.Core.Option.{Option, none, some}
use trafego_flow.Common.Tests.{if◌then◌else◌}
use trafego_flow.Common.Http.{Exception, Result, ok, err}

abbrev pub Action : Type 0 → Type 0 → Type 0
Action W A = W → Result A × W

module _ {W A : Type 0} where
  unfoldable pub pure : A → Action W A
  pure a w = (ok a, w)

  unfoldable pub throw : Exception → Action W A
  throw e w = (err e, w)

  -- a query reads the world and may fail
  unfoldable pub query : (W → Result A) → Action W A
  query q w = (q w, w)

  abbrev pub handled : (Exception → Action W A) → Result A × W → Result A × W
  handled handler (ok a, w) = (ok a, w)
  handled handler (err e, w) = handler e w

  -- `try { m } catch (err) { handler(err) }`
  unfoldable pub catch : Action W A → (Exception → Action W A) → Action W A
  catch m handler w = handled handler (m w)

-- `if (c) throw e;`
unfoldable pub throw_if : {W : Type 0} → Bool → Exception → Action W (Unit {0})
throw_if c e w = (if c then err e else ok tt, w)

-- `if (!x) throw e;` for a value that may be missing
unfoldable pub or_throw : {W A : Type 0} → Option A → Exception → Action W A
or_throw none e w = (err e, w)
or_throw (some a) e w = (ok a, w)

module _ {W A B : Type 0} where
  abbrev pub continue : (A → Action W B) → Result A × W → Result B × W
  continue f (ok a, w) = f a w
  continue f (err e, w) = (err e, w)

  infixl 5 ◌>>=◌ ◌>>◌
  -- opening this opens the other operations too
  unfoldable pub ◌>>=◌ : Action W A → (A → Action W B) → Action W B
  unfolding pure throw query catch throw_if or_throw
  ◌>>=◌ m f w = continue f (m w)

  abbrev pub ◌>>◌ : Action W A → Action W B → Action W B
  m >> k = m >>= λ _. k

module _ {W A B : Type 0} where
  -- The first of two actions that return has returned.
  pub bind_ok :
      (m : Action W A) (f : A → Action W B) (w : W) {b : B} {w' : W}
      → (m >>= f) w ≡ (ok b, w')
      → (a : A) × (v : W) × (m w ≡ (ok a, v)) × (f a v ≡ (ok b, w'))
  unfolding ◌>>=◌
  bind_ok m f w {b} {w'} e = go (m w) refl e
    where
      go :
          (x : Result A × W)
          → m w ≡ x
          → continue f x ≡ (ok b, w')
          → (a : A) × (v : W) × (m w ≡ (ok a, v)) × (f a v ≡ (ok b, w'))
      go (ok a, v) h k = (a, v, h, k)
      go (err x, v) h k = cc

  -- The second action goes on where the first has returned.
  pub bind_returns :
      (m : Action W A) (f : A → Action W B) (w : W) {v : W} {a : A} {r : Result B × W}
      → m w ≡ (ok a, v)
      → f a v ≡ r
      → (m >>= f) w ≡ r
  unfolding ◌>>=◌
  bind_returns m f w e h = ap (continue f) e ∙ h

  -- Where two actions throw, the first throws, or returns and the second throws.
  pub bind_err :
      (m : Action W A) (f : A → Action W B) (w : W) {x : Exception} {w' : W}
      → (m >>= f) w ≡ (err x, w')
      → (m w ≡ (err x, w')) ⊎ ((a : A) × (v : W) × (m w ≡ (ok a, v)) × (f a v ≡ (err x, w')))
  unfolding ◌>>=◌
  bind_err m f w {x} {w'} e = go (m w) refl e
    where
      go :
          (y : Result A × W)
          → m w ≡ y
          → continue f y ≡ (err x, w')
          → (m w ≡ (err x, w')) ⊎ ((a : A) × (v : W) × (m w ≡ (ok a, v)) × (f a v ≡ (err x, w')))
      go (ok a, v) h k = inr (a, v, h, k)
      go (err y, v) h k = inl (cc (h, k))

module _ {W A : Type 0} where
  -- Where a `try` returns, its body returns, or throws and the handler returns.
  pub catch_ok :
      (m : Action W A) (handler : Exception → Action W A) (w : W) {a : A} {w' : W}
      → catch m handler w ≡ (ok a, w')
      → (m w ≡ (ok a, w'))
        ⊎ ((e : Exception) × (v : W) × (m w ≡ (err e, v)) × (handler e v ≡ (ok a, w')))
  unfolding catch
  catch_ok m handler w {a} {w'} h = go (m w) refl h
    where
      go :
          (x : Result A × W)
          → m w ≡ x
          → handled handler x ≡ (ok a, w')
          → (m w ≡ (ok a, w'))
            ⊎ ((e : Exception) × (v : W) × (m w ≡ (err e, v)) × (handler e v ≡ (ok a, w')))
      go (ok b, v) same k = inl (same ∙ k)
      go (err e, v) same k = inr (e, v, same, k)

module _ {W A : Type 0} (Q : A → W → Type 0) (R : Exception → W → Type 0) where
  abbrev pub Post : Result A × W → Type 0
  Post (ok a, w) = Q a w
  Post (err e, w) = R e w

  -- What both outcomes ensure holds of the world afterwards.
  pub Post-world :
      {I : W → Type 0} (x : Result A × W)
      → Post x
      → ((a : A) (w : W) → Q a w → I w)
      → ((e : Exception) (w : W) → R e w → I w)
      → I x.1
  Post-world (ok a, w) p f g = f a w p
  Post-world (err e, w) p f g = g e w p

-- Begun where `P` holds, `m` returns where `Q` holds of its result, or throws where `R` holds of
-- the exception.
pub record Triple {W A : Type 0} (P : W → Type 0) (m : Action W A) (Q : A → W → Type 0)
    (R : Exception → W → Type 0) : Type 0 where
  pub at : (w : W) → P w → Post Q R (m w)

module _ {W A B : Type 0} {P : W → Type 0} {R : Exception → W → Type 0} where
  pub Triple-bind :
      {m : Action W A} {f : A → Action W B} {S : B → W → Type 0} (Q : A → W → Type 0)
      → Triple P m Q R
      → ((a : A) → Triple (Q a) (f a) S R)
      → Triple P (m >>= f) S R
  unfolding ◌>>=◌
  Triple-bind {m} {f} {S} Q t u = record { at = λ w p. go (m w) (t.at w p) }
    where
      go : (x : Result A × W) → Post Q R x → Post S R (continue f x)
      go (ok a, w) q = (u a).at w q
      go (err e, w) r = r

module _ {W A : Type 0} {P : W → Type 0} {Q : A → W → Type 0} {R : Exception → W → Type 0} where
  pub Triple-catch :
      {m : Action W A} {handler : Exception → Action W A} (T : Exception → W → Type 0)
      → Triple P m Q T
      → ((e : Exception) → Triple (T e) (handler e) Q R)
      → Triple P (catch m handler) Q R
  unfolding catch
  Triple-catch {m} {handler} T t u = record { at = λ w p. go (m w) (t.at w p) }
    where
      go : (x : Result A × W) → Post Q T x → Post Q R (handled handler x)
      go (ok a, w) q = q
      go (err e, w) r = (u e).at w r

  pub Triple-pure : (a : A) → ((w : W) → P w → Q a w) → Triple P (pure a) Q R
  unfolding pure
  Triple-pure a h = record { at = h }

  pub Triple-throw : (e : Exception) → ((w : W) → P w → R e w) → Triple P (throw e) Q R
  unfolding throw
  Triple-throw e h = record { at = h }

module _ {W A : Type 0} {P : W → Type 0} {Q : A → W → Type 0} {R : Exception → W → Type 0} where
  -- An action by its two outcomes.
  pub Triple-step :
      (m : Action W A)
      → ((w w' : W) (a : A) → m w ≡ (ok a, w') → P w → Q a w')
      → ((w w' : W) (e : Exception) → m w ≡ (err e, w') → P w → R e w')
      → Triple P m Q R
  Triple-step m f g = record { at = λ w p. go w p (m w) refl }
    where
      go : (w : W) → P w → (x : Result A × W) → m w ≡ x → Post Q R x
      go w p (ok a, w') e = f w w' a e p
      go w p (err x, w') e = g w w' x e p

  pub Triple-query :
      (q : W → Result A)
      → ((w : W) (a : A) → q w ≡ ok a → P w → Q a w)
      → ((w : W) (e : Exception) → q w ≡ err e → P w → R e w)
      → Triple P (query q) Q R
  unfolding query
  Triple-query q f g = record { at = λ w p. go w p (q w) refl }
    where
      go : (w : W) → P w → (r : Result A) → q w ≡ r → Post Q R (r, w)
      go w p (ok a) e = f w a e p
      go w p (err x) e = g w x e p

module _ {W A : Type 0} {P : W → Type 0} {Q : A → W → Type 0} {R : Exception → W → Type 0}
    {F : Type 0} where
  -- A fact that does not speak of the world may be used, and still holds afterwards.
  pub Triple-given :
      {m : Action W A} → (F → Triple P m Q R) → Triple (λ w. P w × F) m (λ a w. Q a w × F) R
  Triple-given {m} t = record { at = λ w h. go h.1 (m w) ((t h.1).at w h.0) }
    where
      go : F → (x : Result A × W) → Post Q R x → Post (λ a w. Q a w × F) R x
      go f (ok a, w) q = (q, f)
      go f (err e, w) r = r

module _ {W A : Type 0} {P I : W → Type 0} where
  -- What holds of the world after an action, however it ends.
  pub Triple-world : (m : Action W A) → ((w : W) → P w → I (m w).1) → Triple P m (λ _. I) (λ _. I)
  Triple-world m f = record { at = λ w p. go (m w) (f w p) }
    where
      go : (x : Result A × W) → I x.1 → Post (λ _. I) (λ _. I) x
      go (ok a, w) i = i
      go (err e, w) i = i

module _ {W A : Type 0} {P : W → Type 0} {Q : A → W → Type 0} {R : Exception → W → Type 0} where
  pub Triple-weaken :
      {m : Action W A} (Q' : A → W → Type 0) (R' : Exception → W → Type 0)
      → Triple P m Q' R'
      → ((a : A) (w : W) → Q' a w → Q a w)
      → ((e : Exception) (w : W) → R' e w → R e w)
      → Triple P m Q R
  Triple-weaken {m} Q' R' t f g = record { at = λ w p. go (m w) (t.at w p) }
    where
      go : (x : Result A × W) → Post Q' R' x → Post Q R x
      go (ok a, w) q = f a w q
      go (err e, w) r = g e w r

module _ {W A : Type 0} {P : W → Type 0} {Q : A → W → Type 0} {R : Exception → W → Type 0} where
  pub Triple-or_throw :
      (o : Option A) (e : Exception)
      → ((a : A) (w : W) → o ≡ some a → P w → Q a w)
      → ((w : W) → o ≡ none → P w → R e w)
      → Triple P (or_throw o e) Q R
  unfolding or_throw
  Triple-or_throw none e f g = record { at = λ w p. g w refl p }
  Triple-or_throw (some a) e f g = record { at = λ w p. f a w refl p }

module _ {W A : Type 0} {P : W → Type 0} {Q : A → W → Type 0} {R : Exception → W → Type 0} where
  -- A conditional whose condition holds.
  pub Triple-then :
      {m : Action W A} (n : Action W A) (b : Bool)
      → b ≡ true
      → Triple P m Q R
      → Triple P (if b then m else n) Q R
  Triple-then n true e t = t
  Triple-then n false e t = cc

module _ {W : Type 0} {P : W → Type 0} {Q : Unit {0} → W → Type 0}
    {R : Exception → W → Type 0} where
  pub Triple-throw_if :
      (c : Bool) (e : Exception)
      → ((w : W) → c ≡ false → P w → Q tt w)
      → ((w : W) → c ≡ true → P w → R e w)
      → Triple P (throw_if c e) Q R
  unfolding throw_if
  Triple-throw_if true e f g = record { at = λ w p. g w refl p }
  Triple-throw_if false e f g = record { at = λ w p. f w refl p }

module _ {W A : Type 0} {P : W → Type 0} {Q : A → W → Type 0} {R : Exception → W → Type 0} where
  -- What a triple says of a call that has returned.
  pub Triple-ok :
      {m : Action W A} (w : W) {w' : W} {a : A} → Triple P m Q R → P w → m w ≡ (ok a, w') → Q a w'
  Triple-ok w t p e = subst (Post Q R) e (t.at w p)

  -- A call that cannot return throws.
  pub Triple-fails :
      {m : Action W A} (w : W)
      → Triple P m Q R
      → P w
      → ((a : A) (w' : W) → Q a w' → ⊥)
      → (e : Exception) × (w' : W) × (m w ≡ (err e, w')) × R e w'
  Triple-fails {m} w t p never = go (m w) refl (t.at w p)
    where
      go :
          (x : Result A × W)
          → m w ≡ x
          → Post Q R x
          → (e : Exception) × (w' : W) × (m w ≡ (err e, w')) × R e w'
      go (ok a, w') e q = absurd (never a w' q)
      go (err y, w') e r = (y, w', e, r)
