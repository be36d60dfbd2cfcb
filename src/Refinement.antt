-- ===== src/Refinement.antt =====
-- What one reconciliation of internal/controller/externalmonitor_controller.go may do to the
-- monitors that Mackerel keeps, without the calls that it makes.
pub mod Writes
pub mod Find
pub mod Upsert
pub mod Deletion
pub mod Reconcile
pub mod Fate
pub mod History
pub mod Search
pub mod Cleared
use mackerel_operator.Prelude.{◌≡◌, ◌⊎◌, Option, none, some, Text, codes}
use mackerel_operator.Ownership.Marker.{Marker, parse_marker, apply_marker}
use mackerel_operator.Planner.Decisions.{IsOwned}
use mackerel_operator.Provider.Client.{MonitorExternalHttp}
use mackerel_operator.Service.{Store, put, drop}

-- A memo with a marker in it that names the owner and the resource.
pub record IsMarked (owner resource old new : Text) : Type 0 where
  pub marker : Marker
  pub same_owner : marker.owner ≡ owner
  pub same_resource : marker.resource ≡ resource
  pub memo : new ≡ apply_marker old marker

module _ {F : Type 0} where
  -- Two monitors that watch the same page under the same name.
  pub record IsAlike (old new : MonitorExternalHttp F) : Type 0 where
    pub name : new.name ≡ old.name
    pub service : new.service ≡ old.service
    pub url : new.url ≡ old.url
    pub method : new.method ≡ old.method

  -- A monitor that may be written over: it is owned, or unmarked and like the new one.
  abbrev pub MayTake : (owner resource : Text) (old new : MonitorExternalHttp F) → Type 0
  MayTake owner resource old new =
      IsOwned owner resource old.memo ⊎ ((parse_marker old.memo ≡ none) × IsAlike old new)

  pub data Step (owner resource policy : Text) (v w : Store F) : Type 0 where
    kept : w ≡ v → Step owner resource policy v w
    added :
        (id memo : Text) (new : MonitorExternalHttp F)
        → v id ≡ none
        → new.id ≡ id
        → IsMarked owner resource memo new.memo
        → w ≡ put id new v
        → Step owner resource policy v w
    rewritten :
        (id : Text) (old new : MonitorExternalHttp F)
        → v id ≡ some old
        → new.id ≡ id
        → MayTake owner resource old new
        → IsMarked owner resource old.memo new.memo
        → w ≡ put id new v
        → Step owner resource policy v w
    removed :
        (id : Text) (old : MonitorExternalHttp F)
        → policy ≡ codes "sync"
        → v id ≡ some old
        → IsOwned owner resource old.memo
        → w ≡ drop id v
        → Step owner resource policy v w
