-- ===== src/Rtt/Asks.antt =====
-- What holds after an operation of airfrog/src/firmware/rtt.rs that leaves the ring as it is, and how
-- it carries over to longer operations.
use airfrog.Prelude.{
  ℕ, Bool, true, false, ◌+◌, ◌≡◌, refl, sym, arith, leb, leb→le, Bool-cases, inl, inr,
  if◌then◌else◌, Option, some, none, List, take, drop, length, length-take, length-drop,
}
use airfrog.Bin.Error.{Result, ok, err}
use airfrog.Rtt.Local.{LocalBuf}
use airfrog.Rtt.Task.{RttError, Rtt}
use airfrog.Rtt.Fetch.{
  TargetTask, Fault, Run, Machine, pure, fail, continue, lifted, ok_or, sub, asking, current,
  updating, ◌>>=◌,
}

abbrev pub Any : {A : Type 0} → A → Type 0
Any a = Unit {0}

module _ (t : TargetTask) where
  -- After an operation the ring is as it was, and a result has the property `Q`.
  unfoldable pub After :
      {A : Type 0} → (A → Type 0) → LocalBuf → Result Fault A × Machine t → Type 0
  After Q b (ok a, s) = (s.0.local_buf ≡ b) × Q a
  After Q b (err e, s) = s.0.local_buf ≡ b

  unfoldable pub Asks : {A : Type 0} → (A → Type 0) → Run (Machine t) A → Type 0
  Asks Q act = (s : Machine t) → After Q s.0.local_buf (act s)

  continue-After :
      {A B : Type 0} (Q : A → Type 0) (R : B → Type 0) (b : LocalBuf)
      (m : Result Fault A × Machine t) (f : A → Run (Machine t) B)
      → After Q b m
      → ((a : A) → Q a → Asks R (f a))
      → After R b (continue m f)
  unfolding After Asks
  continue-After Q R b (ok a, s) f (same, q) h = rw (sym same) (h a q s)
  continue-After Q R b (err e, s) f same h = same

  pub chain-Asks :
      {A B : Type 0} (Q : A → Type 0) (R : B → Type 0) (m : Run (Machine t) A)
      (f : A → Run (Machine t) B)
      → Asks Q m
      → ((a : A) → Q a → Asks R (f a))
      → Asks R (m >>= f)
  unfolding Asks
  chain-Asks Q R m f k h s = continue-After Q R s.0.local_buf (m s) f (k s) h

  pub pure-Asks : {A : Type 0} (Q : A → Type 0) (a : A) → Q a → Asks Q (pure a)
  unfolding Asks After
  pure-Asks Q a q s = (refl, q)

  pub fail-Asks : {A : Type 0} (Q : A → Type 0) (e : Fault) → Asks Q (fail e)
  unfolding Asks After
  fail-Asks Q e s = refl

  pub lifted-Asks : {A : Type 0} (x : Result RttError A) → Asks Any (lifted x)
  unfolding Asks After
  lifted-Asks (ok a) s = (refl, tt)
  lifted-Asks (err e) s = refl

  pub ok_or-Asks : {A : Type 0} (e : RttError) (x : Option A) → Asks Any (ok_or e x)
  unfolding Asks After
  ok_or-Asks e none s = refl
  ok_or-Asks e (some a) s = (refl, tt)

  pub asking-Asks : {A : Type 0} (f : t.Target → A × t.Target) → Asks Any (asking t f)
  unfolding Asks After
  asking-Asks f s = (refl, tt)

  pub if-Asks :
      {A : Type 0} (Q : A → Type 0) (c : Bool) (m n : Run (Machine t) A)
      → Asks Q m
      → Asks Q n
      → Asks Q (if c then m else n)
  if-Asks Q true m n h k = h
  if-Asks Q false m n h k = k

  pub sub-Asks : (bs : List ℕ) (i n : ℕ) → Asks (λ l. length l ≡ n) (sub {S = Machine t} bs i n)
  sub-Asks bs i n = elim (Bool-cases (leb (i + n) (length bs))) [
    | inl e ↦
        let fits = leb→le (i + n) (length bs) e in
        rw e (
          pure-Asks _ (take n (drop i bs))
            (length-take n (drop i bs) (omega (arith, length-drop i bs))))
    | inr e ↦ rw e (fail-Asks _ Fault.panicked)
  ]

  pub updating-Asks :
      (f : Rtt → Rtt) → ((r : Rtt) → (f r).local_buf ≡ r.local_buf) → Asks Any (updating t f)
  unfolding Asks After
  updating-Asks f h s = (h s.0, tt)

  pub current-Asks : Asks Any (current t)
  unfolding Asks After
  current-Asks s = (refl, tt)
