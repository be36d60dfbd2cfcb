-- ===== src/Program.antt =====
-- The operator's code as programs that call what is outside of it: the Mackerel API, the Kubernetes
-- API and the clock. A program goes on for every reply, so what is proved of all its runs holds
-- whatever the outside answers.
pub mod Runs
use mackerel_operator.Prelude.{ℕ, Option, List, Text, Bool}
use mackerel_operator.Api.{ExternalMonitor, ExternalMonitorStatus}
use mackerel_operator.Provider.Client.{MonitorExternalHttp, ClientMonitor, Reply}

-- An error of the Kubernetes API, as far as the controller tells errors apart.
pub data KubeError : Type 0 where
  kube_not_found kube_conflict kube_other : KubeError

pub data KubeReply (A : Type 0) : Type 0 where
  got : A → KubeReply A
  refused : KubeError → KubeReply A

-- The calls, each with its arguments. `list_indexed` lists the resources of a name space by a value
-- of the index that `SetupWithManager` registers.
pub data Call (F : Type 0) : Type 0 where
  get_monitor : Text → Call F
  find_monitors : Call F
  create_monitor : MonitorExternalHttp F → Call F
  update_monitor : Text → MonitorExternalHttp F → Call F
  delete_monitor : Text → Call F
  get_resource : Text → Text → Call F
  reread_resource : Text → Text → Call F
  list_indexed : Text → Text → Call F
  get_secret : Text → Text → Call F
  patch_status : ExternalMonitor → ExternalMonitorStatus → Call F
  patch_finalizers : ExternalMonitor → List Text → Call F
  now : Call F

-- What a call is answered with. The data of a Secret is a map of keys to values.
abbrev pub Answer : {F : Type 0} → Call F → Type 0
Answer {F} (get_monitor id) = Reply (ClientMonitor F)
Answer {F} find_monitors = Reply (List (ClientMonitor F))
Answer {F} (create_monitor m) = Reply (ClientMonitor F)
Answer {F} (update_monitor id m) = Reply (ClientMonitor F)
Answer {F} (delete_monitor id) = Reply (Unit {0})
Answer (get_resource namespace name) = KubeReply ExternalMonitor
Answer (reread_resource namespace name) = KubeReply ExternalMonitor
Answer (list_indexed namespace value) = KubeReply (List ExternalMonitor)
Answer (get_secret namespace name) = KubeReply (List (Text × Text))
Answer (patch_status cr status) = KubeReply (Unit {0})
Answer (patch_finalizers cr finalizers) = KubeReply ExternalMonitor
Answer now = ℕ

pub data Program (F A : Type 0) : Type 0 where
  done : A → Program F A
  call : (c : Call F) → (Answer c → Program F A) → Program F A

infixl 5 ◌>>=◌
abbrev pub ◌>>=◌ : {F A B : Type 0} → Program F A → (A → Program F B) → Program F B
done a >>= f = f a
call c k >>= f = call c (λ r. k r >>= f)

-- One call, and its answer.
abbrev pub ask : {F : Type 0} (c : Call F) → Program F (Answer c)
ask c = call c (λ r. done r)
