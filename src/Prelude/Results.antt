-- ===== src/Prelude/Results.antt =====
-- `Result`, and methods on `&mut self` or on a store: from the state to a result and the new state.
-- What an operation wrote before it failed stays written.
use mathlib.Core.Path.{◌≡◌, refl}
use mathlib.Core.Bool.{Bool, true, false}
use mathlib.Core.Option.{Option, none, some}

pub data Result {ℓ κ} (E : Type ℓ) (A : Type κ) : Type (ℓ ⊔ κ) where
  ok : A → Result E A
  err : E → Result E A

abbrev pub is_ok {ℓ κ} : {E : Type ℓ} {A : Type κ} → Result E A → Bool
is_ok (ok a) = true
is_ok (err e) = false

abbrev pub map_err {ℓ κ μ} :
    {E : Type ℓ} {E' : Type μ} {A : Type κ} → (E → E') → Result E A → Result E' A
map_err f (ok a) = ok a
map_err f (err e) = err (f e)

abbrev pub ok_or {ℓ κ} : {E : Type ℓ} {A : Type κ} → Option A → E → Result E A
ok_or (some a) e = ok a
ok_or none e = err e

abbrev pub Mut : Type 0 → Type 0 → Type 0 → Type 0
Mut S E A = S → Result E A × S

abbrev pub and_then : {S E A B : Type 0} → Result E A × S → (A → Mut S E B) → Result E B × S
and_then (ok a, s) f = f a s
and_then (err e, s) f = (err e, s)

infixl 5 ◌>>=◌ ◌>>◌
abbrev pub ◌>>=◌ : {S E A B : Type 0} → Mut S E A → (A → Mut S E B) → Mut S E B
◌>>=◌ m f s = and_then (m s) f

abbrev pub ◌>>◌ : {S E A B : Type 0} → Mut S E A → Mut S E B → Mut S E B
m >> k = m >>= λ _. k

abbrev pub return : {S E A : Type 0} → A → Mut S E A
return a s = (ok a, s)

abbrev pub fail : {S E A : Type 0} → E → Mut S E A
fail e s = (err e, s)

-- `?` on a result that touches no state.
abbrev pub lift : {S E A : Type 0} → Result E A → Mut S E A
lift r s = (r, s)

-- `.map_err(f)?`
abbrev pub mapping : {S E E' A : Type 0} → (E → E') → Mut S E A → Mut S E' A
mapping f m s = let (r, s') = m s in (map_err f r, s')

abbrev pub rescued : {S E E' A : Type 0} → Result E A × S → (E → Mut S E' A) → Result E' A × S
rescued (ok a, s) handler = (ok a, s)
rescued (err e, s) handler = handler e s

-- `.map_err(handler)?` with a handler that may write: it ends in the new error.
abbrev pub rescue : {S E E' A : Type 0} → Mut S E A → (E → Mut S E' A) → Mut S E' A
rescue m handler s = rescued (m s) handler

-- `let _ = m.await;`: the result is dropped, the writes stay.
abbrev pub ignoring : {S E E' A : Type 0} → Mut S E A → Mut S E' (Unit {0})
ignoring m s = (ok tt, (m s).1)

-- `let _ = m;` on a future: it is dropped before its first poll, so nothing of it runs.
abbrev pub unpolled : {S E E' A : Type 0} → Mut S E A → Mut S E' (Unit {0})
unpolled m s = (ok tt, s)

-- A method of one of two parts of the state.
abbrev pub on_first : {S T E A : Type 0} → Mut S E A → Mut (S × T) E A
on_first m (s, t) = let (r, s') = m s in (r, (s', t))

abbrev pub on_second : {S T E A : Type 0} → Mut T E A → Mut (S × T) E A
on_second m (s, t) = let (r, t') = m t in (r, (s, t'))

module _ {S E A B : Type 0} where
  -- Inversion of a successful bind.
  and_then-ok :
      (r : Result E A × S) (f : A → Mut S E B) (b : B) (t : S)
      → and_then r f ≡ (ok b, t)
      → (a : A) × (u : S) × (r ≡ (ok a, u)) × (f a u ≡ (ok b, t))
  and_then-ok (ok a, u) f b t h = (a, u, refl, h)
  and_then-ok (err e, u) f b t h = cc

  pub >>=-ok :
      (m : Mut S E A) (f : A → Mut S E B) (s : S) (b : B) (t : S)
      → (m >>= f) s ≡ (ok b, t)
      → (a : A) × (u : S) × (m s ≡ (ok a, u)) × (f a u ≡ (ok b, t))
  >>=-ok m f s b t h = and_then-ok (m s) f b t h

  -- A bind whose first part is known to succeed.
  pub >>=-run :
      (m : Mut S E A) (f : A → Mut S E B) (s t : S) (a : A) (r : Result E B × S)
      → m s ≡ (ok a, t)
      → f a t ≡ r
      → (m >>= f) s ≡ r
  >>=-run m f s t a r h k = rw h k
