-- ===== src/Tests/Answers.antt =====
-- Answers of the APIs: some calls are answered as given, and nothing else is available.
use mackerel_operator.Prelude.{List, Text}
use mackerel_operator.Prelude.Int.{ℤ}
use mackerel_operator.Api.{ExternalMonitor}
use mackerel_operator.Program
use mackerel_operator.Program.{Call, Answer, KubeReply, refused, kube_other}
use mackerel_operator.Provider.Result.{ClientError, api_error}
use mackerel_operator.Provider.Client.{ClientMonitor, Reply, failed}

pub record Replies : Type 0 where
  pub resource : KubeReply ExternalMonitor
  pub indexed : Text → Text → KubeReply (List ExternalMonitor)
  pub secret : Text → KubeReply (List (Text × Text))
  pub monitor : Reply (ClientMonitor ℤ)
  pub monitors : Reply (List (ClientMonitor ℤ))
  pub created : Reply (ClientMonitor ℤ)
  pub status : KubeReply (Unit {0})
  pub updated : Reply (ClientMonitor ℤ)
  pub deleted : Reply (Unit {0})
  pub finalizers : KubeReply ExternalMonitor

abbrev unavailable : ClientError
unavailable = api_error 503

abbrev pub nothing : Replies
nothing = record {
  resource = refused kube_other;
  indexed = λ namespace value. refused kube_other;
  secret = λ name. refused kube_other;
  monitor = failed unavailable;
  monitors = failed unavailable;
  created = failed unavailable;
  status = refused kube_other;
  updated = failed unavailable;
  deleted = failed unavailable;
  finalizers = refused kube_other;
}

abbrev pub answers_of : Replies → (c : Call ℤ) → Answer c
answers_of replies (Program.get_resource namespace name) = replies.resource
answers_of replies (Program.get_monitor id) = replies.monitor
answers_of replies (Program.get_secret namespace name) = replies.secret name
answers_of replies (Program.list_indexed namespace value) = replies.indexed namespace value
answers_of replies Program.find_monitors = replies.monitors
answers_of replies (Program.create_monitor p) = replies.created
answers_of replies (Program.update_monitor id p) = replies.updated
answers_of replies (Program.delete_monitor id) = replies.deleted
answers_of replies (Program.reread_resource namespace name) = refused kube_other
answers_of replies (Program.patch_status cr status) = replies.status
answers_of replies (Program.patch_finalizers cr finalizers) = replies.finalizers
answers_of replies Program.now = 6
