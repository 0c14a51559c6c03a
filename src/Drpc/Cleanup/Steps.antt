-- ===== src/Drpc/Cleanup/Steps.antt =====
-- The steps of a sequence that answers, each on the state that the one before it leaves.
use ramen.Prelude.{
  Bool, true, false, not, ◌≡◌, refl, sym, ◌∙◌, inl, inr, ◌⊎◌, of_false_is_true, ap, if◌then◌else◌,
}
use ramen.Drpc.{Hub, M, Error, Result, ok, err, pure, throw, ◌>>=◌, ◌>>◌, and_then, handle}

abbrev is_ok : {A : Type 0} → Result A → Bool
is_ok (ok a) = true
is_ok (err x) = false

abbrev pub is_true : Result Bool → Bool
is_true (ok b) = b
is_true (err x) = false

module _ {A B : Type 0} where
  and_then-ok :
      (r : Result A) (h : Hub) (f : A → M B) (b : B)
      → (and_then r f h).0 ≡ ok b
      → (a : A) × (r ≡ ok a) × (and_then r f h ≡ f a h)
  and_then-ok (ok a) h f b p = (a, refl, refl)
  and_then-ok (err x) h f b p = of_false_is_true (ap is_ok p)

  -- A sequence that answers on a state is its second step on the state that the first leaves.
  pub bind-ok :
      (m : M A) (f : A → M B) (h : Hub) (b : B)
      → ((m >>= f) h).0 ≡ ok b
      → (a : A) × ((m h).0 ≡ ok a) × ((m >>= f) h ≡ f a (m h).1)
  bind-ok m f h b p = and_then-ok (m h).0 (m h).1 f b p

  pub handle-ok :
      (r : Result A) (h : Hub) (f : A → M B) (g : Error → M B) (b : B)
      → ((x : Error) → (g x h).0 ≡ ok b → false ≡ true)
      → (handle r f g h).0 ≡ ok b
      → (a : A) × (r ≡ ok a) × (handle r f g h ≡ f a h)
  handle-ok (ok a) h f g b n p = (a, refl, refl)
  handle-ok (err x) h f g b n p = of_false_is_true (n x p)

pub past_test :
    (b : Bool) (m : M Bool) (h : Hub)
    → ((if b then pure false else m) h).0 ≡ ok true
    → (b ≡ false) × ((if b then pure false else m) h ≡ m h)
past_test true m h p = of_false_is_true (ap is_true p)
past_test false m h p = (refl, refl)

pub not-answered :
    {A : Type 0} (m : M A) (h : Hub) → ((m >> pure false) h).0 ≡ ok true → false ≡ true
not-answered m h p =
    let (a, q, r) = bind-ok m (λ _. pure false) h true p in ap is_true (sym (ap (λ s. s.0) r) ∙ p)

pub if_skipped :
    (b : Bool) (m n : M (Unit {0})) (h : Hub)
    → ((if b then m else n) h).0 ≡ ok tt
    → ((b ≡ true) × ((m h).0 ≡ ok tt)) ⊎ ((b ≡ false) × ((n h).0 ≡ ok tt))
if_skipped true m n h p = inl (refl, p)
if_skipped false m n h p = inr (refl, p)

pub guarded :
    (b : Bool) (x : Error) (m : M (Unit {0})) (h : Hub)
    → ((if not b then throw x else m) h).0 ≡ ok tt
    → (b ≡ true) × ((m h).0 ≡ ok tt)
guarded true x m h p = (refl, p)
guarded false x m h p = of_false_is_true (ap is_ok p)
