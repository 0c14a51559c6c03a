-- ===== src/Drpc/Effects.antt =====
-- What a step of a reconcile does to the state whichever answer it gives: a relation between the
-- states before and after, carried through the combinators of the monad.
pub mod Promotion
pub mod Reads
pub mod Decisions
use ramen.Prelude.{
  Bool, true, false, if◌then◌else◌, not, of_false_is_true, ◌≡◌, refl, sym, subst, ◌∙◌, ap,
}
use ramen.Drpc.{
  Env, Hub, Drpc, M, Result, ok, err, Error, pure, throw, ◌>>=◌, ◌>>◌, try, modify_drpc, and_then,
  handle, api_call,
}

-- The step relates every state to the one that it leaves.
abbrev pub Within : (Hub → Hub → Type 0) → {A : Type 0} → M A → Type 0
Within R m = (h : Hub) → R h (m h).1

-- The step gives the answer on some state.
abbrev pub Answers : {A : Type 0} → M A → A → Type 0
Answers m a = (h : Hub) × (m h).0 ≡ ok a

abbrev pub Refl : (Hub → Hub → Type 0) → Type 0
Refl R = (h : Hub) → R h h

abbrev pub Trans : (Hub → Hub → Type 0) → Type 0
Trans R = (h i j : Hub) → R h i → R i j → R h j

module _ (R : Hub → Hub → Type 0) where
  pub if_lem :
      {A : Type 0} (b : Bool) (m n : M A)
      → (b ≡ true → Within R m)
      → (b ≡ false → Within R n)
      → Within R (if b then m else n)
  if_lem true m n hm hn = hm refl
  if_lem false m n hm hn = hn refl

  module _ {A B : Type 0} (R-trans : Trans R) where
    and_then_lem :
        (r : Result A) (h h' : Hub) (f : A → M B) (n : M A)
        → R h h'
        → (n h).0 ≡ r
        → ((a : A) → Answers n a → Within R (f a))
        → R h (and_then r f h').1
    and_then_lem (ok a) h h' f n hr e hf = R-trans _ _ _ hr (hf a (h, e) h')
    and_then_lem (err x) h h' f n hr e hf = hr

    handle_lem :
        (r : Result A) (h h' : Hub) (f : A → M B) (g : Error → M B) (n : M A)
        → R h h'
        → (n h).0 ≡ r
        → ((a : A) → Answers n a → Within R (f a))
        → ((x : Error) → Within R (g x))
        → R h (handle r f g h').1
    handle_lem (ok a) h h' f g n hr e hf hg = R-trans _ _ _ hr (hf a (h, e) h')
    handle_lem (err x) h h' f g n hr e hf hg = R-trans _ _ _ hr (hg x h')

    -- The rest of a sequence may use that its first step answered.
    pub bind_lem :
        (m : M A) (f : A → M B)
        → Within R m
        → ((a : A) → Answers m a → Within R (f a))
        → Within R (m >>= f)
    bind_lem m f hm hf h = and_then_lem (m h).0 h (m h).1 f m (hm h) refl hf

    and_then_at :
        (r : Result A) (h h' : Hub) (f : A → M B)
        → R h h'
        → ((a : A) → r ≡ ok a → R h' (f a h').1)
        → R h (and_then r f h').1
    and_then_at (ok a) h h' f hr hf = R-trans _ _ _ hr (hf a refl)
    and_then_at (err x) h h' f hr hf = hr

    -- The same from one state, where the rest may use the answer that its first step gave there.
    pub bind_at :
        (m : M A) (f : A → M B) (h : Hub)
        → R h (m h).1
        → ((a : A) → (m h).0 ≡ ok a → R (m h).1 (f a (m h).1).1)
        → R h ((m >>= f) h).1
    bind_at m f h hr hf = and_then_at (m h).0 h (m h).1 f hr hf

    pub try_lem :
        (m : M A) (f : A → M B) (g : Error → M B)
        → Within R m
        → ((a : A) → Answers m a → Within R (f a))
        → ((x : Error) → Within R (g x))
        → Within R (try m f g)
    try_lem m f g hm hf hg h = handle_lem (m h).0 h (m h).1 f g m (hm h) refl hf hg

abbrev is_ok : {A : Type 0} → Result A → Bool
is_ok (ok a) = true
is_ok (err x) = false

module _ {A B : Type 0} where
  and_then-Answers :
      (r : Result A) (h h' : Hub) (f : A → M B) (n : M A) (b : B)
      → (n h).0 ≡ r
      → (and_then r f h').0 ≡ ok b
      → (a : A) × Answers n a × Answers (f a) b
  and_then-Answers (ok a) h h' f n b e p = (a, (h, e), (h', p))
  and_then-Answers (err x) h h' f n b e p = of_false_is_true (ap is_ok p)

  -- A sequence that answers has steps that answer.
  pub bind-Answers :
      (m : M A) (f : A → M B) (b : B)
      → Answers (m >>= f) b
      → (a : A) × Answers m a × Answers (f a) b
  bind-Answers m f b (h, p) = and_then-Answers (m h).0 h (m h).1 f m b refl p

  handle-Answers :
      (r : Result A) (h h' : Hub) (f : A → M B) (g : Error → M B) (n : M A) (b : B)
      → (n h).0 ≡ r
      → ((x : Error) → Answers (g x) b → false ≡ true)
      → (handle r f g h').0 ≡ ok b
      → (a : A) × Answers n a × Answers (f a) b
  handle-Answers (ok a) h h' f g n b e hg p = (a, (h, e), (h', p))
  handle-Answers (err x) h h' f g n b e hg p = of_false_is_true (hg x (h', p))

  -- So does a step with a handler, where the handler does not give the answer.
  pub try-Answers :
      (m : M A) (f : A → M B) (g : Error → M B) (b : B)
      → ((x : Error) → Answers (g x) b → false ≡ true)
      → Answers (try m f g) b
      → (a : A) × Answers m a × Answers (f a) b
  try-Answers m f g b hg (h, p) = handle-Answers (m h).0 h (m h).1 f g m b refl hg p

-- `if not b then throw x else m` answers only where the test holds.
pub guard-Answers :
    {A : Type 0} (b : Bool) (x : Error) (m : M A) (a : A)
    → Answers (if not b then throw x else m) a
    → (b ≡ true) × Answers m a
guard-Answers true x m a p = (refl, p)
guard-Answers false x m a (h, p) = of_false_is_true (ap is_ok p)
