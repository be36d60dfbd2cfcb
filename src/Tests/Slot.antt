-- ===== src/Tests/Slot.antt =====
-- A service that holds one monitor at most, beside one resource, as a server of the calls.
use mathlib.Core.List.{Memᴰ}
use mathlib.Core.Option.{some-injective}
use mathlib.Core.Path.{fun_ext}
use mackerel_operator.Prelude.{
  ◌≡◌, refl, sym, ap, ◌∙◌, true, false, Option, none, some, [], ◌∷◌, Text, codes, ◌==◌, ==_iff,
  nat_eq, list_eq, Bool-cases, if◌then◌else◌, inl, inr, ◌&&◌,
}
use mackerel_operator.Prelude.Int.{ℤ}
use mackerel_operator.Api.{ExternalMonitor}
use mackerel_operator.Program
use mackerel_operator.Program.{Call, Answer, KubeReply, got, refused, kube_not_found}
use mackerel_operator.Provider.Client.{
  MonitorExternalHttp, ClientMonitor, external, Reply, replied, failed, stored,
}
use mackerel_operator.Provider.Result.{api_error}
use mackerel_operator.Service.{Store, put, drop, IsConsistent, Named, Reads, Answered}
use mackerel_operator.Service.Honest.{Honest, TellsTruth}
use mackerel_operator.Service.Server.{Server}
use mackerel_operator.Tests.Answers.{Replies, answers_of}

abbrev pub Slot : Type 0
Slot = Option (MonitorExternalHttp ℤ)

abbrev pub slot_store : Slot → Store ℤ
slot_store none = λ id. none
slot_store (some m) = put m.id m (λ id. none)

-- What the slot answers to a call for this identifier, and what it holds after a write there.
abbrev held : Text → Slot → Slot
held id none = none
held id (some m) = if id == m.id then some m else none

abbrev slot_reads : Slot → Reply (ClientMonitor ℤ)
slot_reads none = failed (api_error 404)
slot_reads (some m) = replied (external m)

abbrev slot_resource : ExternalMonitor → Text → Text → KubeReply ExternalMonitor
slot_resource cr namespace name =
    if cr.namespace == namespace && cr.name == name then got cr else refused kube_not_found

-- The first monitor is called "m1".
abbrev slot_answer : Replies → ExternalMonitor → (c : Call ℤ) → Slot → Answer c
slot_answer replies cr (Program.get_monitor id) s = slot_reads (held id s)
slot_answer replies cr Program.find_monitors none = replied []
slot_answer replies cr Program.find_monitors (some m) = replied (external m ∷ [])
slot_answer replies cr (Program.create_monitor p) none = replied (external (stored p (codes "m1")))
slot_answer replies cr (Program.create_monitor p) (some m) = failed (api_error 400)
slot_answer replies cr (Program.update_monitor id p) s = slot_reads (held id s)
slot_answer replies cr (Program.delete_monitor id) none = failed (api_error 404)
slot_answer replies cr (Program.delete_monitor id) (some m) = replied tt
slot_answer replies cr (Program.get_resource namespace name) s = slot_resource cr namespace name
slot_answer replies cr c s = answers_of replies c

abbrev slot_next : Call ℤ → Slot → Slot
slot_next (Program.create_monitor p) none = some (stored p (codes "m1"))
slot_next (Program.update_monitor id p) (some m) = if id == m.id then some (stored p id) else some m
slot_next (Program.delete_monitor id) (some m) = if id == m.id then none else some m
slot_next c s = s

held-Reads : (id : Text) (s : Slot) → Reads (slot_store s) id (slot_reads (held id s))
unfolding put
held-Reads id none = tt
held-Reads id (some m) = elim (Bool-cases (id == m.id)) [
  | inl same ↦ rw same (rw same)
  | inr apart ↦ rw apart tt
]

-- What two names for one identifier come to.
same_test : (other : Text) {id id' : Text} → id ≡ id' → (other == id) ≡ (other == id')
same_test other e = ap (λ x. other == x) e

update-fits :
    (id : Text) (p m : MonitorExternalHttp ℤ)
    → Answered
        (slot_store (some m))
        (Program.update_monitor id p)
        (slot_reads (held id (some m)))
        (slot_store (slot_next (Program.update_monitor id p) (some m)))
unfolding put
update-fits id p m = elim (Bool-cases (id == m.id)) [
  | inl same ↦ rw same (inr (m, refl, fun_ext (written same)))
  | inr apart ↦ rw apart (inl refl)
]
  where
    written :
        (id == m.id) ≡ true
        → (other : Text)
        → put id (stored p id) (λ x. none) other
          ≡ put id (stored p id) (put m.id m (λ x. none)) other
    written same other = elim (Bool-cases (other == id)) [
      | inl here ↦ rw here
      | inr there ↦ rw (there, sym (same_test other ((==_iff id m.id).0 same)) ∙ there)
    ]

delete-fits :
    (id : Text) (m : MonitorExternalHttp ℤ)
    → slot_store (slot_next (Program.delete_monitor id) (some m)) ≡ drop id (slot_store (some m))
unfolding put drop
delete-fits id m = elim (Bool-cases (id == m.id)) [
  | inl same ↦ rw same (fun_ext (emptied same))
  | inr apart ↦ rw apart (fun_ext (untouched apart))
]
  where
    emptied : (id == m.id) ≡ true → (other : Text) → none ≡ drop id (put m.id m (λ x. none)) other
    emptied same other = elim (Bool-cases (other == id)) [
      | inl here ↦ rw here
      | inr there ↦ rw (there, sym (same_test other ((==_iff id m.id).0 same)) ∙ there)
    ]

    untouched :
        (id == m.id) ≡ false
        → (other : Text) → put m.id m (λ x. none) other ≡ drop id (put m.id m (λ x. none)) other
    untouched apart other = elim (Bool-cases (other == id)) [
      | inl here ↦ rw (here, ap (λ x. x == m.id) ((==_iff other id).0 here) ∙ apart)
      | inr there ↦ rw there
    ]

resource-Named :
    (cr : ExternalMonitor) (namespace name : Text)
    → Named namespace name (slot_resource cr namespace name)
resource-Named cr namespace name = elim (Bool-cases (cr.namespace == namespace)) [
  | inl e ↦ elim (Bool-cases (cr.name == name)) [
    | inl f ↦ rw (e, f) ((==_iff _ _).0 e, (==_iff _ _).0 f)
    | inr f ↦ rw (e, f) tt
  ]
  | inr e ↦ rw e tt
]

listed_self : (m : MonitorExternalHttp ℤ) → slot_store (some m) m.id ≡ some m
unfolding put
listed_self m = rw ((==_iff m.id m.id).1 refl)

pub slot-fits :
    (replies : Replies) (cr : ExternalMonitor) (c : Call ℤ) (s : Slot)
    → Answered (slot_store s) c (slot_answer replies cr c s) (slot_store (slot_next c s))
slot-fits replies cr (Program.get_monitor id) s = (refl, held-Reads id s)
slot-fits replies cr Program.find_monitors none = (refl, tt)
slot-fits replies cr Program.find_monitors (some m) = (refl, (listed_self m, tt))
slot-fits replies cr (Program.create_monitor p) none = inr (codes "m1", refl, refl)
slot-fits replies cr (Program.create_monitor p) (some m) = inl refl
slot-fits replies cr (Program.update_monitor id p) none = inl refl
slot-fits replies cr (Program.update_monitor id p) (some m) = update-fits id p m
slot-fits replies cr (Program.delete_monitor id) none = inl refl
slot-fits replies cr (Program.delete_monitor id) (some m) = inr (delete-fits id m)
slot-fits replies cr (Program.get_resource namespace name) s =
    (refl, resource-Named cr namespace name)
slot-fits replies cr (Program.reread_resource namespace name) s = refl
slot-fits replies cr (Program.list_indexed namespace name) s = refl
slot-fits replies cr (Program.get_secret namespace name) s = refl
slot-fits replies cr (Program.patch_status cr' status) s = refl
slot-fits replies cr (Program.patch_finalizers cr' l) s = refl
slot-fits replies cr Program.now s = refl

abbrev pub slot : Replies → ExternalMonitor → Server ℤ Answered
slot replies cr = record {
  State = Slot;
  store = slot_store;
  answer = slot_answer replies cr;
  next = slot_next;
  fits = slot-fits replies cr;
}

pub one-IsConsistent : (m : MonitorExternalHttp ℤ) → IsConsistent (slot_store (some m))
unfolding put
one-IsConsistent m id n e = elim (Bool-cases (id == m.id)) [
  | inl same ↦
      ap (λ x. x.id) (some-injective n m (sym e ∙ ap (λ b. if b then some m else none) same))
      ∙ sym ((==_iff id m.id).0 same)
  | inr apart ↦ absurd (cc)
]

pub slot_only :
    (m n : MonitorExternalHttp ℤ) (id : Text) → slot_store (some m) id ≡ some n → id ≡ m.id
unfolding put
slot_only m n id e = elim (Bool-cases (id == m.id)) [
  | inl same ↦ (==_iff id m.id).0 same
  | inr apart ↦ absurd (cc)
]

-- The one monitor is listed.
slot_lists :
    (m n : MonitorExternalHttp ℤ) (id : Text)
    → slot_store (some m) id ≡ some n
    → Memᴰ (external n) (external m ∷ [])
slot_lists m n id e =
    let here = ap (slot_store (some m)) (sym (slot_only m n id e)) ∙ e in
    Memᴰ.head (ap external (some-injective n m (sym here ∙ listed_self m)))

pub slot-TellsTruth :
    (replies : Replies) (cr : ExternalMonitor) (c : Call ℤ) (s : Slot)
    → TellsTruth (slot_store s) c (slot_answer replies cr c s) (slot_store (slot_next c s))
slot-TellsTruth replies cr (Program.get_monitor id) s = tt
slot-TellsTruth replies cr Program.find_monitors none = λ id m e. absurd (cc)
slot-TellsTruth replies cr Program.find_monitors (some m) = λ id n e. slot_lists m n id e
slot-TellsTruth replies cr (Program.create_monitor p) none = tt
slot-TellsTruth replies cr (Program.create_monitor p) (some m) = tt
slot-TellsTruth replies cr (Program.update_monitor id p) s = tt
slot-TellsTruth replies cr (Program.delete_monitor id) none = λ says. refl
slot-TellsTruth replies cr (Program.delete_monitor id) (some m) = delete-fits id m
slot-TellsTruth replies cr (Program.get_resource namespace name) s = tt
slot-TellsTruth replies cr (Program.reread_resource namespace name) s = tt
slot-TellsTruth replies cr (Program.list_indexed namespace name) s = tt
slot-TellsTruth replies cr (Program.get_secret namespace name) s = tt
slot-TellsTruth replies cr (Program.patch_status cr' status) s = tt
slot-TellsTruth replies cr (Program.patch_finalizers cr' l) s = tt
slot-TellsTruth replies cr Program.now s = tt

abbrev pub honest_slot : Replies → ExternalMonitor → Server ℤ Honest
honest_slot replies cr = record {
  State = Slot;
  store = slot_store;
  answer = slot_answer replies cr;
  next = slot_next;
  fits = λ c s. (slot-fits replies cr c s, slot-TellsTruth replies cr c s);
}
