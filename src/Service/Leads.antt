-- ===== src/Service/Leads.antt =====
-- What holds at the end of every run of a program, from a given store.
use mackerel_operator.Prelude.{◌≡◌, refl, sym, subst}
use mackerel_operator.Program
use mackerel_operator.Program.{Call, Answer, Program, done, call, ◌>>=◌}
use mackerel_operator.Program.Runs.{Ensures}
use mackerel_operator.Service.{Store, Answers, Answered, Run, finished, called}

module _ {F : Type 0} (answered : Answers F) where
  -- However the calls are answered, the program ends with a result and a store that fit.
  abbrev pub Leads : {A : Type 0} → (A → Store F → Type 0) → Program F A → Store F → Type 0
  Leads post (done a) v = post a v
  Leads post (call c k) v = (r : Answer c) (u : Store F) → answered v c r u → Leads post (k r) u

  pub Leads-Run :
      {A : Type 0} (post : A → Store F → Type 0) {m : Program F A} {v w : Store F} {a : A}
      → Run answered v m a w
      → Leads post m v
      → post a w
  Leads-Run post (finished v a) h = h
  Leads-Run post (called v r u step rest) h = Leads-Run post rest (h r u step)

  pub Leads-bind :
      {A B : Type 0} (mid : A → Store F → Type 0) (post : B → Store F → Type 0) (m : Program F A)
      (f : A → Program F B) (v : Store F)
      → Leads mid m v
      → ((a : A) (u : Store F) → mid a u → Leads post (f a) u)
      → Leads post (m >>= f) v
  Leads-bind mid post (done a) f v h k = k a v h
  Leads-bind mid post (call c g) f v h k = λ r u step. Leads-bind mid post (g r) f u (h r u step) k

  pub Leads-weaken :
      {A : Type 0} (post post' : A → Store F → Type 0) (m : Program F A) (v : Store F)
      → ((a : A) (u : Store F) → post a u → post' a u)
      → Leads post m v
      → Leads post' m v
  Leads-weaken post post' (done a) v k h = k a v h
  Leads-weaken post post' (call c g) v k h =
      λ r u step. Leads-weaken post post' (g r) u k (h r u step)

-- What holds with more answers, holds with fewer.
pub Leads-mono :
    {F A : Type 0} (answered answered' : Answers F) (post : A → Store F → Type 0) (m : Program F A)
    (v : Store F)
    → ((v u : Store F) (c : Call F) (r : Answer c) → answered' v c r u → answered v c r u)
    → Leads answered post m v
    → Leads answered' post m v
Leads-mono answered answered' post (done a) v fewer h = h
Leads-mono answered answered' post (call c k) v fewer h =
    λ r u step. Leads-mono answered answered' post (k r) u fewer (h r u (fewer v u c r step))

module _ {F : Type 0} where
  -- A call that writes no monitor.
  abbrev pub Silent : Call F → Type 0
  Silent (Program.create_monitor p) = ⊥
  Silent (Program.update_monitor id p) = ⊥
  Silent (Program.delete_monitor id) = ⊥
  Silent _ = Unit {0}

  silent_same : (c : Call F) (v u : Store F) (r : Answer c) → Silent c → Answered v c r u → u ≡ v
  silent_same (Program.get_monitor id) v u r s (same, read) = same
  silent_same Program.find_monitors v u r s (same, read) = same
  silent_same (Program.get_resource space name) v u r s (same, read) = same
  silent_same (Program.create_monitor p) v u r s h = absurd s
  silent_same (Program.update_monitor id p) v u r s h = absurd s
  silent_same (Program.delete_monitor id) v u r s h = absurd s
  silent_same (Program.reread_resource space name) v u r s h = h
  silent_same (Program.list_indexed space name) v u r s h = h
  silent_same (Program.get_secret space name) v u r s h = h
  silent_same (Program.patch_status cr status) v u r s h = h
  silent_same (Program.patch_finalizers cr l) v u r s h = h
  silent_same Program.now v u r s h = h

-- With answers that only a call that writes may change the store by.
module _ {F : Type 0} (answered : Answers F)
    (refines : (v u : Store F) (c : Call F) (r : Answer c)
      → answered v c r u
      → Answered v c r u) where
  -- A program that writes no monitor leaves the store alone.
  pub Silent-Leads :
      {A : Type 0} (m : Program F A) (v : Store F)
      → Ensures Silent (λ _. Unit {0}) m
      → Leads answered (λ _ u. u ≡ v) m v
  Silent-Leads (done a) v h = refl
  Silent-Leads (call c k) v (silent, h) = λ r u step.
      let same = silent_same c v u r silent (refines v u c r step) in
      subst (λ w. Leads answered (λ _ u. u ≡ v) (k r) w) (sym same) (Silent-Leads (k r) v (h r))

  -- Whatever held of the store before it, holds behind it.
  pub Silent-keeps :
      {A : Type 0} (post : A → Store F → Type 0) (m : Program F A) (v : Store F)
      → Ensures Silent (λ _. Unit {0}) m
      → ((a : A) → post a v)
      → Leads answered post m v
  Silent-keeps post m v h k =
      Leads-weaken answered (λ _ u. u ≡ v) post m v (λ a u same. subst (post a) (sym same) (k a))
        (Silent-Leads m v h)

  pub Silent-bind :
      {A B : Type 0} (post : B → Store F → Type 0) (m : Program F A) (f : A → Program F B)
      (v : Store F)
      → Ensures Silent (λ _. Unit {0}) m
      → ((a : A) → Leads answered post (f a) v)
      → Leads answered post (m >>= f) v
  Silent-bind post m f v h k =
      Leads-bind answered (λ _ u. u ≡ v) post m f v (Silent-Leads m v h)
        (λ a u same. subst (Leads answered post (f a)) (sym same) (k a))
