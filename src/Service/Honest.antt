-- ===== src/Service/Honest.antt =====
-- A Mackerel API that tells how things are: a list holds all monitors, a deletion that succeeds has
-- removed the monitor, and one that finds it missing is right.
use mackerel_operator.Prelude.{◌≡◌, true, some, none, Text}
use mathlib.Core.List.{Memᴰ}
use mackerel_operator.Provider.Client.{MonitorExternalHttp, external, replied, failed}
use mackerel_operator.Provider.Result.{ClientError, map_mackerel_error, is_sentinel, err_not_found}
use mackerel_operator.Program
use mackerel_operator.Program.{Call, Answer}
use mackerel_operator.Service.{Answers, Answered, drop}

-- An error that the operator takes for a monitor that is missing.
abbrev pub SaysMissing : ClientError → Type 0
SaysMissing e = is_sentinel err_not_found (map_mackerel_error e) ≡ true

module _ {F : Type 0} where
  abbrev pub TellsTruth : Answers F
  TellsTruth v Program.find_monitors (replied ms) w =
      (id : Text) (m : MonitorExternalHttp F) → v id ≡ some m → Memᴰ (external m) ms
  TellsTruth v (Program.delete_monitor id) (replied u) w = w ≡ drop id v
  TellsTruth v (Program.delete_monitor id) (failed e) w = SaysMissing e → v id ≡ none
  TellsTruth v _ r w = Unit {0}

  abbrev pub Honest : Answers F
  Honest v c r w = Answered v c r w × TellsTruth v c r w
