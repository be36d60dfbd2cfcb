-- ===== src/Service.antt =====
-- The monitors that Mackerel keeps, as a state: what each call of a program may do to them. Any call
-- may fail, and a write that is answered with an error may have taken effect or not.
pub mod Leads
pub mod Server
pub mod Honest
use mackerel_operator.Prelude.{
  ◌≡◌, ◌⊎◌, Bool, true, false, Option, none, some, List, [], ◌∷◌, Text, ◌==◌, nat_eq, list_eq,
  if◌then◌else◌,
}
use mackerel_operator.Api.{ExternalMonitor}
use mackerel_operator.Provider.Client.{
  MonitorExternalHttp, ClientMonitor, external, other_monitor, Reply, replied, failed, stored,
}
use mackerel_operator.Program
use mackerel_operator.Program.{Call, Answer, Program, done, call, KubeReply, got, refused}

-- The external monitors by their identifiers.
abbrev pub Store : Type 0 → Type 0
Store F = Text → Option (MonitorExternalHttp F)

-- How calls may be answered: from which store, with which answer, to which store.
abbrev pub Answers : Type 0 → Type 1
Answers F = Store F → (c : Call F) → Answer c → Store F → Type 0

-- A resource that is read has the name that it is read by.
abbrev pub Named : Text → Text → KubeReply ExternalMonitor → Type 0
Named namespace name (got cr) = (cr.namespace ≡ namespace) × (cr.name ≡ name)
Named namespace name (refused e) = Unit {0}

module _ {F : Type 0} where
  unfoldable pub put : Text → MonitorExternalHttp F → Store F → Store F
  put id m v other = if other == id then some m else v other

  unfoldable pub drop : Text → Store F → Store F
  drop id v other = if other == id then none else v other

  -- Each monitor stands under its own identifier.
  abbrev pub IsConsistent : Store F → Type 0
  IsConsistent v = (id : Text) (m : MonitorExternalHttp F) → v id ≡ some m → m.id ≡ id

  -- A monitor that is read under an identifier is the one that stands there.
  abbrev pub Reads : Store F → Text → Reply (ClientMonitor F) → Type 0
  Reads v id (replied (external m)) = v id ≡ some m
  Reads v id _ = Unit {0}

  -- So is every external monitor of a list.
  abbrev pub Listed : Store F → List (ClientMonitor F) → Type 0
  Listed v [] = Unit {0}
  Listed v (external m ∷ ms) = (v m.id ≡ some m) × Listed v ms
  Listed v (other_monitor kind ∷ ms) = Listed v ms

  abbrev pub Lists : Store F → Reply (List (ClientMonitor F)) → Type 0
  Lists v (replied ms) = Listed v ms
  Lists v (failed e) = Unit {0}

  -- A call with this answer may lead from the one store to the other.
  abbrev pub Answered : Answers F
  Answered v (Program.get_monitor id) a w = (w ≡ v) × Reads v id a
  Answered v Program.find_monitors a w = (w ≡ v) × Lists v a
  Answered v (Program.create_monitor p) a w =
      (w ≡ v) ⊎ ((id : Text) × (v id ≡ none) × (w ≡ put id (stored p id) v))
  Answered v (Program.update_monitor id p) a w =
      (w ≡ v) ⊎ ((old : MonitorExternalHttp F) × (v id ≡ some old) × (w ≡ put id (stored p id) v))
  Answered v (Program.delete_monitor id) a w = (w ≡ v) ⊎ (w ≡ drop id v)
  Answered v (Program.get_resource namespace name) a w = (w ≡ v) × Named namespace name a
  Answered v _ a w = w ≡ v

  -- A run of a program from one store to another, with its result, where the calls are answered in
  -- this way.
  pub data Run (answered : Answers F) {A : Type 0}
      : Store F → Program F A → A → Store F → Type 0 where
    finished : (v : Store F) (a : A) → Run answered v (done a) a v
    called :
        {c : Call F} {k : Answer c → Program F A} {a : A} {w : Store F} (v : Store F) (r : Answer c)
        (u : Store F)
        → answered v c r u
        → Run answered u (k r) a w
        → Run answered v (call c k) a w
