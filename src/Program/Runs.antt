-- ===== src/Program/Runs.antt =====
-- Properties of all the runs of a program.
use mackerel_operator.Prelude.{List, [], ◌∷◌, ◌++◌, All, ◌≡◌, refl, ◌∙◌, ap}
use mackerel_operator.Program.{Call, Answer, Program, done, call, ◌>>=◌}

module _ {F : Type 0} where
  -- Every call that a run makes is allowed, and every result has the property.
  abbrev pub Ensures : {A : Type 0} → (Call F → Type 0) → (A → Type 0) → Program F A → Type 0
  Ensures allowed post (done a) = post a
  Ensures allowed post (call c k) = allowed c × ((r : Answer c) → Ensures allowed post (k r))

  pub Ensures-bind :
      {A B : Type 0} (allowed : Call F → Type 0) (mid : A → Type 0) (post : B → Type 0)
      (m : Program F A) (f : A → Program F B)
      → Ensures allowed mid m
      → ((a : A) → mid a → Ensures allowed post (f a))
      → Ensures allowed post (m >>= f)
  Ensures-bind allowed mid post (done a) f h k = k a h
  Ensures-bind allowed mid post (call c g) f (ok_call, h) k =
      (ok_call, λ r. Ensures-bind allowed mid post (g r) f (h r) k)

  pub Ensures-weaken :
      {A : Type 0} (allowed allowed' : Call F → Type 0) (post : A → Type 0)
      → ((c : Call F) → allowed c → allowed' c)
      → (m : Program F A) → Ensures allowed post m
      → Ensures allowed' post m
  Ensures-weaken allowed allowed' post a (done x) h = h
  Ensures-weaken allowed allowed' post a (call c k) (may, h) =
      (a c may, λ r. Ensures-weaken allowed allowed' post a (k r) (h r))

  -- Every call that a run makes is allowed, and every result has the property, as long as each
  -- answer is one that may be expected of its call.
  abbrev pub EnsuresIf :
      {A : Type 0}
      → ((c : Call F) → Answer c → Type 0)
      → (Call F → Type 0)
      → (A → Type 0)
      → Program F A
      → Type 0
  EnsuresIf expected allowed post (done a) = post a
  EnsuresIf expected allowed post (call c k) =
      allowed c × ((r : Answer c) → expected c r → EnsuresIf expected allowed post (k r))

  pub EnsuresIf-bind :
      {A B : Type 0} (expected : (c : Call F) → Answer c → Type 0) (allowed : Call F → Type 0)
      (mid : A → Type 0) (post : B → Type 0) (m : Program F A) (f : A → Program F B)
      → EnsuresIf expected allowed mid m
      → ((a : A) → mid a → EnsuresIf expected allowed post (f a))
      → EnsuresIf expected allowed post (m >>= f)
  EnsuresIf-bind expected allowed mid post (done a) f h k = k a h
  EnsuresIf-bind expected allowed mid post (call c g) f (ok_call, h) k =
      (ok_call, λ r e. EnsuresIf-bind expected allowed mid post (g r) f (h r e) k)

  pub EnsuresIf-weaken :
      {A : Type 0} (expected expected' : (c : Call F) → Answer c → Type 0)
      (allowed allowed' : Call F → Type 0) (post : A → Type 0)
      → ((c : Call F) (r : Answer c) → expected' c r → expected c r)
      → ((c : Call F) → allowed c → allowed' c)
      → (m : Program F A) → EnsuresIf expected allowed post m
      → EnsuresIf expected' allowed' post m
  EnsuresIf-weaken expected expected' allowed allowed' post e a (done x) h = h
  EnsuresIf-weaken expected expected' allowed allowed' post e a (call c k) (may, h) = (
    a c may,
    λ r x. EnsuresIf-weaken expected expected' allowed allowed' post e a (k r) (h r (e c r x)),
  )

  -- The run in which every call has the given answer: its result and its calls, in order.
  abbrev pub result_of : {A : Type 0} → ((c : Call F) → Answer c) → Program F A → A
  result_of answers (done a) = a
  result_of answers (call c k) = result_of answers (k (answers c))

  abbrev pub calls_of : {A : Type 0} → ((c : Call F) → Answer c) → Program F A → List (Call F)
  calls_of answers (done a) = []
  calls_of answers (call c k) = c ∷ calls_of answers (k (answers c))

  pub EnsuresIf-run :
      {A : Type 0} (expected : (c : Call F) → Answer c → Type 0) (allowed : Call F → Type 0)
      (post : A → Type 0) (answers : (c : Call F) → Answer c)
      → ((c : Call F) → expected c (answers c))
      → (m : Program F A) → EnsuresIf expected allowed post m
      → post (result_of answers m) × All allowed (calls_of answers m)
  EnsuresIf-run expected allowed post answers e (done a) h = (h, tt)
  EnsuresIf-run expected allowed post answers e (call c k) (may, h) =
      let (p, q) =
        EnsuresIf-run expected allowed post answers e (k (answers c)) (h (answers c) (e c)) in
      (p, (may, q))

  -- The run in which every call has the given answer makes these calls and has this result.
  abbrev pub Does :
      {A : Type 0} → ((c : Call F) → Answer c) → List (Call F) → A → Program F A → Type 0
  Does answers calls a m = (result_of answers m ≡ a) × (calls_of answers m ≡ calls)

  pub Does-bind :
      {A B : Type 0} (answers : (c : Call F) → Answer c) {first rest : List (Call F)} {a : A}
      {b : B} (m : Program F A) (f : A → Program F B)
      → Does answers first a m
      → Does answers rest b (f a)
      → Does answers (first ++ rest) b (m >>= f)
  Does-bind answers {rest = rest} (done x) f (e, h) (e', h') = (
    ap (λ y. result_of answers (f y)) e ∙ e',
    ap (λ y. calls_of answers (f y)) e ∙ h' ∙ ap (λ cs. cs ++ rest) h,
  )
  Does-bind answers {first = first} {rest = rest} (call c k) f (e, h) d =
      let (e', h') =
        Does-bind answers {first = calls_of answers (k (answers c))} (k (answers c)) f (e, refl)
          d in
      (e', ap (◌∷◌ c) h' ∙ ap (λ cs. cs ++ rest) h)
